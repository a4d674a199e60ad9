-- ===== src/Agentic/Bound.antt =====
-- The computations of pipeline/agentic/state_store.py, taken apart: what an operation that returns has read
-- and written.
use mathlib.Core.Path.{subst}
use formalspecgen.Agentic.{AgentError, RunRecord}
use formalspecgen.Agentic.Chain.{load-append}
use formalspecgen.Agentic.Store.{
  Codec, Directory, M, append, authorize, from, get, load, load_events, pure, update,
  validate_review, ◌>>=◌, ◌>>◌,
}
use formalspecgen.Prelude.{
  Bool, Bool-cases, Option, Option-cases, String, ap, event_files, false, if◌then◌else◌, inl, inr,
  next_exists, none, refl, some, true, ◌∙◌, ◌≡◌, ◌≢◌, ◌⊎◌,
}
use formalspecgen.Result.{Result, err, ok, ok_injective}

-- A sequence that returns has a first part that returns.
pub bind-eq-ok :
    {A B : Type 0} (m : M A) (f : A → M B) (d : Directory) (b : B) (d' : Directory)
    → (m >>= f) d ≡ (ok b, d')
    → (a : A) × ((e : Directory) × (m d ≡ (ok a, e)) × (f a e ≡ (ok b, d')))
bind-eq-ok {A} {B} m f d b d' h = by_result (m d) refl h
  where
    by_result :
        (x : Result AgentError A × Directory)
        → m d ≡ x
        → ◌≡◌ {A = Result AgentError B × Directory}
            (elim x.0 [ ok a ↦ f a x.1 | err e ↦ (err e, x.1) ])
            (ok b, d')
        → (a : A) × ((e : Directory) × (m d ≡ (ok a, e)) × (f a e ≡ (ok b, d')))
    by_result (ok a, e) ran k = (a, (e, ran, k))
    by_result (err w, e) ran k = cc k

-- A computation does not answer `none`.
abbrev pub Ends : {A : Type 0} → M (Option A) → Directory → Type 0
Ends m d = (m d).0 ≢ ok none

pub bind-Ends :
    {A B : Type 0} (m : M A) (f : A → M (Option B)) (d : Directory)
    → ((a : A) (e : Directory) → m d ≡ (ok a, e) → Ends (f a) e)
    → Ends (m >>= f) d
bind-Ends {A} {B} m f d ends = by_result (m d) refl
  where
    by_result :
        (x : Result AgentError A × Directory)
        → m d ≡ x
        → ◌≢◌ {A = Result AgentError (Option B)}
            (elim x.0 as (λ _. Result AgentError (Option B) × Directory) [
              | ok a ↦ f a x.1
              | err e ↦ (err e, x.1)
            ]).0
            (ok none)
    by_result (ok a, e) ran = ends a e ran
    by_result (err w, e) ran = λ k. cc k

pub some-Ends : (m : M RunRecord) (d : Directory) → Ends (m >>= λ x. pure (some x)) d
some-Ends m d = bind-Ends m (λ x. pure (some x)) d (λ a e h k. cc k)

pub if-Ends :
    (b : Bool) (m k : M (Option RunRecord)) (d : Directory)
    → Ends m d
    → Ends k d
    → Ends (if b then m else k) d
if-Ends true m k d first second = first
if-Ends false m k d first second = second

validate_review-directory :
    (codec : Codec) (r : RunRecord) (d d' : Directory) (u : Unit {0})
    → validate_review codec r d ≡ (ok u, d')
    → d ≡ d'
unfolding validate_review
validate_review-directory codec r d d' u h = elim (Option-cases r.review) [
  | inl nothing ↦ let q = rw (nothing, validate_review) at h in cc q
  | inr (receipt, found) ↦ let q = rw (found, validate_review) at h in ap (λ x. x.1) q
]

-- What `get` answers is what the events load, and the directory is as before.
pub get-eq-ok :
    (codec : Codec) (principal_id : String) (d d' : Directory) (r : RunRecord)
    → get codec principal_id d ≡ (ok r, d')
    → (load_events codec (event_files d.events) ≡ ok r) × (d ≡ d')
unfolding get load
get-eq-ok codec principal_id d d' r h =
    let (r0, (d0, read, a)) =
      bind-eq-ok (load codec)
        (λ x. from (authorize codec x principal_id) >> (validate_review codec x >> pure x)) d r d'
        h in
    let (_, (d1, owned, b)) =
      bind-eq-ok (from (authorize codec r0 principal_id)) (λ _. validate_review codec r0 >> pure r0)
        d0 r d' a in
    let (_, (d2, reviewed, e)) = bind-eq-ok (validate_review codec r0) (λ _. pure r0) d1 r d' b in
    let same = validate_review-directory codec r0 d1 d2 tt reviewed in
    let is : r0 ≡ r = ok_injective (ap (λ x. x.0) e) in
    (
      ap (λ x. x.0) read ∙ ap ok is,
      ap (λ x. x.1) read ∙ ap (λ x. x.1) owned ∙ same ∙ ap (λ x. x.1) e,
    )

append-answer :
    (codec : Codec) (r new : RunRecord) (d d' : Directory)
    → append codec r d ≡ (ok new, d')
    → r ≡ new
unfolding append
append-answer codec r new d d' h = elim (Bool-cases (next_exists d.events)) [
  | inl there ↦ let q = rw (there, append) at h in cc q
  | inr free ↦ let q = rw (free, append) at h in ok_injective (ap (λ x. x.0) q)
]

-- What `update` answers is the changed record, which the events load afterwards, if it is read back.
pub update-eq-ok :
    (codec : Codec) (principal_id : String) (mutate : RunRecord → Result AgentError RunRecord)
    (d d' : Directory) (new : RunRecord)
    → update codec principal_id mutate d ≡ (ok new, d')
    → (r : RunRecord) × (load_events codec (event_files d.events) ≡ ok r)
      × (mutate r ≡ ok new)
      × ((load_events codec (event_files d'.events) ≡ ok new)
          ⊎ (load_events codec (event_files d'.events) ≡ ok r))
unfolding update load
update-eq-ok codec principal_id mutate d d' new h =
    let (r0, (d0, read, a)) =
      bind-eq-ok (load codec)
        (λ x.
          from (authorize codec x principal_id)
          >> (validate_review codec x >> (from (mutate x) >>= append codec)))
        d new d' h in
    let (_, (d1, owned, b)) =
      bind-eq-ok (from (authorize codec r0 principal_id))
        (λ _. validate_review codec r0 >> (from (mutate r0) >>= append codec)) d0 new d' a in
    let (_, (d2, reviewed, e)) =
      bind-eq-ok (validate_review codec r0) (λ _. from (mutate r0) >>= append codec) d1 new d' b in
    let (r1, (d3, changed, f)) = bind-eq-ok (from (mutate r0)) (append codec) d2 new d' e in
    let same : d ≡ d3 =
      ap (λ x. x.1) read
      ∙ ap (λ x. x.1) owned
      ∙ validate_review-directory codec r0 d1 d2 tt reviewed
      ∙ ap (λ x. x.1) changed in
    let loads : load_events codec (event_files d.events) ≡ ok r0 = ap (λ x. x.0) read in
    let is : r1 ≡ new = answers r1 d3 f in
    (
      r0,
      loads,
      ap (λ x. x.0) changed ∙ ap ok is,
      after_append r0 r1 d3 is f
          (subst (λ (x : Directory). load_events codec (event_files x.events) ≡ ok r0) same loads),
    )
  where
    answers : (r1 : RunRecord) (d3 : Directory) → append codec r1 d3 ≡ (ok new, d') → r1 ≡ new
    answers r1 d3 f = append-answer codec r1 new d3 d' f

    after_append :
        (r0 r1 : RunRecord) (d3 : Directory)
        → r1 ≡ new
        → append codec r1 d3 ≡ (ok new, d')
        → load_events codec (event_files d3.events) ≡ ok r0
        → (load_events codec (event_files d'.events) ≡ ok new)
          ⊎ (load_events codec (event_files d'.events) ≡ ok r0)
    after_append r0 r1 d3 is f loads =
        let after : (append codec r1 d3).1 ≡ d' = ap (λ x. x.1) f in
        elim (load-append codec d3 r0 r1 loads) [
          | inl (room, answer, read) ↦ inl (
              subst (λ (x : Directory). load_events codec (event_files x.events) ≡ ok new) after
                (read ∙ ap ok is))
          | inr (full, read) ↦ inr (
              subst (λ (x : Directory). load_events codec (event_files x.events) ≡ ok r0) after
                read)
        ]
