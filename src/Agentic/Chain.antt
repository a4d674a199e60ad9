-- ===== src/Agentic/Chain.antt =====
-- The event chain of pipeline/agentic/state_store.py: what loading reads back, and what it detects.

use mathlib.Core.Path.{subst}
use formalspecgen.Agentic.{AgentError, RunRecord}
use formalspecgen.Agentic.Store.{
  Codec, Directory, Event, append, check_chain, last_digest, last_of, load_events, new_event,
  previous_eq,
}
use formalspecgen.Prelude.{
  Bool-cases, In, List, Option, String, [], and_true, ap, arith, eq_iff, event_files,
  event_files-short, event_files-snoc_full, event_files-snoc_short, inl, inr, length, next_exists,
  next_exists-short, none, room_cases, ◌<◌, ◌≤◌, ◌⊎◌, refl, some, some_injective, str_eq, suc, sym,
  true, ℕ, ◌&&◌, ◌++◌, ◌+◌, ◌==◌, ◌∙◌, ◌∷◌, ◌≡◌,
}
use formalspecgen.Result.{Result, err, ok}

module _ (codec : Codec) where
  -- The digests chain: `check_chain` succeeds from a number and a previous digest.
  abbrev Chains : ℕ → Option String → List (Event × String) → Type 0
  Chains n previous events = check_chain codec n previous events ≡ ok tt

  -- The digest after the events, which the next one must carry.
  abbrev digest_after : Option String → List (Event × String) → Option String
  digest_after previous [] = previous
  digest_after previous ((e, observed) ∷ rest) = digest_after (some observed) rest

  previous_eq_refl : (p : Option String) → previous_eq p p ≡ true
  previous_eq_refl none = refl
  previous_eq_refl (some s) = (eq_iff s s).1 refl

  previous_eq_sound : (p q : Option String) → previous_eq p q ≡ true → p ≡ q
  previous_eq_sound none none h = refl
  previous_eq_sound none (some t) h = cc
  previous_eq_sound (some s) none h = cc
  previous_eq_sound (some s) (some t) h = ap some ((eq_iff s t).0 h)

  -- A chain's head: its number, its previous digest and its own digest.
  check_chain-cons :
      (n : ℕ) (previous : Option String) (e : Event) (observed : String)
      (rest : List (Event × String))
      → Chains n previous ((e, observed) ∷ rest)
      → (e.sequence ≡ n)
        × (e.previous_sha256 ≡ previous)
        × (observed ≡ codec.digest e)
        × Chains (suc n) (some observed) rest
  unfolding check_chain
  check_chain-cons n previous e observed rest h =
      elim (Bool-cases (
        (e.sequence == n)
        && (previous_eq e.previous_sha256 previous && str_eq observed (codec.digest e)))) [
          | inl t ↦
              let a = and_true {a = e.sequence == n} t in
              let b = and_true {a = previous_eq e.previous_sha256 previous} a.1 in
              (
                (let q = a.0 in ground arith),
                previous_eq_sound _ _ b.0,
                (eq_iff observed (codec.digest e)).0 b.1,
                (let q = rw t at h in q),
              )
          | inr f ↦ let q = rw f at h in cc q
        ]

  Chains-append :
      (n : ℕ) (previous : Option String) (events : List (Event × String)) (e : Event)
      → Chains n previous events
      → e.sequence ≡ n + length events
      → e.previous_sha256 ≡ digest_after previous events
      → Chains n previous (events ++ (e, codec.digest e) ∷ [])
  unfolding check_chain
  Chains-append n previous [] e h number carried =
      let same = (eq_iff (codec.digest e) (codec.digest e)).1 refl in
      let before : previous_eq e.previous_sha256 previous ≡ true =
        rw carried (previous_eq_refl previous) in
      let count : (e.sequence == n) ≡ true = ground arith in rw (count, before, same)
  Chains-append n previous ((f, observed) ∷ rest) e h number carried =
      let (a, b, c, chained) = check_chain-cons n previous f observed rest h in
      let ih = Chains-append (suc n) (some observed) rest e chained (omega arith) carried in
      let here = (eq_iff observed (codec.digest f)).1 c in
      let before : previous_eq f.previous_sha256 previous ≡ true =
        rw b (previous_eq_refl previous) in
      let count : (f.sequence == n) ≡ true = ground arith in rw (count, before, here) ih

  last_digest-eq-digest_after :
      (e : Event × String) (rest : List (Event × String)) (previous : Option String)
      → digest_after previous (e ∷ rest) ≡ some (last_of codec e rest).1
  unfolding last_of
  last_digest-eq-digest_after (e, observed) [] previous = refl
  last_digest-eq-digest_after (e, observed) (f ∷ rest) previous =
      last_digest-eq-digest_after f rest (some observed)

  last_of-append :
      (e : Event × String) (rest : List (Event × String)) (f : Event × String)
      → last_of codec e (rest ++ f ∷ []) ≡ f
  unfolding last_of
  last_of-append e [] f = refl
  last_of-append e (g ∷ rest) f = last_of-append g rest f

  loaded_content :
      (events : List (Event × String)) (r : RunRecord)
      → load_events codec events ≡ ok r
      → (e : Event × String) × ((rest : List (Event × String)) × (events ≡ e ∷ rest)
          × Chains 1 none events)
  unfolding load_events
  loaded_content [] r h = cc
  loaded_content (e ∷ rest) r h = by_check (check_chain codec 1 none (e ∷ rest)) refl h
    where
      by_check :
          (checked : Result AgentError (Unit {0}))
          → check_chain codec 1 none (e ∷ rest) ≡ checked
          → elim checked [ ok _ ↦ ok (last_of codec e rest).0.content | err e' ↦ err e' ] ≡ ok r
          → (f : Event × String) × ((tail : List (Event × String)) × (e ∷ rest ≡ f ∷ tail)
              × Chains 1 none (e ∷ rest))
      by_check (ok tt) ran k = (e, (rest, refl, ran))
      by_check (err e') ran k = cc

  load_events-Chains :
      (e : Event × String) (rest : List (Event × String))
      → Chains 1 none (e ∷ rest)
      → load_events codec (e ∷ rest) ≡ ok (last_of codec e rest).0.content
  unfolding load_events
  load_events-Chains e rest chained = rw (chained, load_events)

  load_events-append :
      (e : Event × String) (rest : List (Event × String)) (r : RunRecord)
      → Chains 1 none (e ∷ rest)
      → load_events codec (
          (e ∷ rest)
          ++ (new_event codec (e ∷ rest) r, codec.digest (new_event codec (e ∷ rest) r)) ∷ [])
        ≡ ok r
  unfolding new_event last_digest
  load_events-append e rest r chained =
      let new = new_event codec (e ∷ rest) r in
      let ran =
        Chains-append 1 none (e ∷ rest) new chained (omega arith)
          (sym (last_digest-eq-digest_after e rest none)) in
      load_events-Chains e (rest ++ (new, codec.digest new) ∷ []) ran
      ∙ ap (λ (x : Event × String). ok x.0.content) (last_of-append e rest (new, codec.digest new))

module _ (codec : Codec) (d : Directory) (old r : RunRecord)
    (loads : load_events codec (event_files d.events) ≡ ok old) where
  append-short :
      length d.events < 999999
      → ((append codec r d).0 ≡ ok r)
        × (load_events codec (event_files (append codec r d).1.events) ≡ ok r)
  unfolding append
  append-short room =
      let all_read = event_files-short d.events room in
      let (e, (rest, is, chained)) = loaded_content codec d.events old (rw all_read at loads) in
      let free = next_exists-short d.events room in
      let new : Event × String =
        (new_event codec d.events r, codec.digest (new_event codec d.events r)) in
      let read_back : load_events codec (d.events ++ new ∷ []) ≡ ok r =
        subst
          (λ events.
            load_events codec
              (events ++ (new_event codec events r, codec.digest (new_event codec events r)) ∷ [])
            ≡ ok r)
          (sym is) (load_events-append codec e rest r (subst (Chains codec 1 none) is chained)) in
      (
        rw (free, append),
        rw (free, append, all_read)
            (ap (load_events codec) (event_files-snoc_short d.events new room) ∙ read_back),
      )

  append-full :
      999999 ≤ length d.events
      → load_events codec (event_files (append codec r d).1.events) ≡ ok old
  unfolding append
  append-full full = elim (Bool-cases (next_exists d.events)) [
    | inl there ↦ rw (there, append) loads
    | inr free ↦
        let e = new_event codec (event_files d.events) r in
        rw (free, append)
          (ap (load_events codec) (event_files-snoc_full d.events (e, codec.digest e) full) ∙ loads)
  ]

-- What loading reads after an append to a run that loads. If fewer than 999,999 events are stored, the
-- append answers the record and loading reads it back; otherwise loading still reads the old record.
pub load-append :
    (codec : Codec) (d : Directory) (old r : RunRecord)
    → load_events codec (event_files d.events) ≡ ok old
    → ((length d.events < 999999)
        × ((append codec r d).0 ≡ ok r)
        × (load_events codec (event_files (append codec r d).1.events) ≡ ok r))
      ⊎ ((999999 ≤ length d.events)
          × (load_events codec (event_files (append codec r d).1.events) ≡ ok old))
load-append codec d old r loads = elim (room_cases d.events) [
  | inl room ↦
      let (answer, read) = append-short codec d old r loads room in inl (room, answer, read)
  | inr full ↦ inr (full, append-full codec d old r loads full)
]

-- The digest tells the events of two lists apart.
abbrev pub TellsApart : Codec → List (Event × String) → List (Event × String) → Type 0
TellsApart codec xs ys =
    (e f : Event) (o u : String)
    → In (e, o) xs
    → In (f, u) ys
    → codec.digest e ≡ codec.digest f
    → e ≡ f

module _ (codec : Codec) where
  Chains-injective :
      (n : ℕ) (p q : Option String) (xs ys : List (Event × String))
      → TellsApart codec xs ys
      → Chains codec n p xs
      → Chains codec n q ys
      → length xs ≡ length ys
      → digest_after codec p xs ≡ digest_after codec q ys
      → (p ≡ q) × (xs ≡ ys)
  Chains-injective n p q [] [] apart h k l d = (d, refl)
  Chains-injective n p q [] (y ∷ ys) apart h k l d = absurd (omega arith)
  Chains-injective n p q (x ∷ xs) [] apart h k l d = absurd (omega arith)
  Chains-injective n p q ((e, o) ∷ xs) ((f, u) ∷ ys) apart h k l d =
      let (_, before, by_e, rest) = check_chain-cons codec n p e o xs h in
      let (_, before', by_f, rest') = check_chain-cons codec n q f u ys k in
      let (heads, tails) =
        Chains-injective (suc n) (some o) (some u) xs ys
          (λ e' f' o' u' i j. apart e' f' o' u' (inr i) (inr j)) rest rest' (omega arith) d in
      let same : o ≡ u = some_injective heads in
      let events : e ≡ f = apart e f o u (inl refl) (inl refl) (sym by_e ∙ same ∙ by_f) in
      (
        sym before ∙ ap (λ (x : Event). x.previous_sha256) events ∙ before',
        cc (same, events, tails),
      )

  -- The chain shows a change of its past. If the digest tells the events of two lists apart, and the
  -- lists are equally long, both load, and their last events carry the same digest, then they are the
  -- same list.
  pub load_events_injective :
      (x y : Event × String) (xs ys : List (Event × String)) (r other : RunRecord)
      → TellsApart codec (x ∷ xs) (y ∷ ys)
      → load_events codec (x ∷ xs) ≡ ok r
      → load_events codec (y ∷ ys) ≡ ok other
      → length xs ≡ length ys
      → (last_of codec x xs).1 ≡ (last_of codec y ys).1
      → x ∷ xs ≡ y ∷ ys
  load_events_injective x y xs ys r other apart h k l d =
      let (_, (_, _, chained)) = loaded_content codec (x ∷ xs) r h in
      let (_, (_, _, chained')) = loaded_content codec (y ∷ ys) other k in
      (Chains-injective 1 none none (x ∷ xs) (y ∷ ys) apart chained chained' (ap suc l) (
        last_digest-eq-digest_after codec x xs none
        ∙ ap some d
        ∙ sym (last_digest-eq-digest_after codec y ys none))).1
