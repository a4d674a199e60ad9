-- ===== src/Model/Growth.antt =====
-- The frontier of pipeline/domain_v2_model.py before and after a state is visited.
use mathlib.Core.Path.{subst}
use formalspecgen.Domain.{DomainSpec}
use formalspecgen.Model.Evaluate.{Error}
use formalspecgen.Model.Frontier.{
  Frontier, append, append-eq-ok, counted, discover, discover-eq-ok, enqueued, is_discovered, step,
  step-eq-ok,
}
use formalspecgen.Model.Safe.{IsSafe}
use formalspecgen.Model.State.{State, same_state}
use formalspecgen.Prelude.{
  In, In-append_cases, In-append_left, In-append_right, List, [], any-In, inl, inr, refl, sym, true,
  ℕ, ◌∷◌, ◌≡◌, ◌⊎◌,
}
use formalspecgen.Result.{>>=-eq-ok, Result, for_each, for_each-rel, ok}

module _ (spec : DomainSpec) where
  abbrev pub AllSafe : Frontier → Type 0
  AllSafe f = (d : State) → In d f.discovered → IsSafe spec d.fields

  abbrev pub AllListed : Frontier → Type 0
  AllListed f = (d : State) → In d f.queue → In d f.discovered

  pub record Grows (f g : Frontier) : Type 0 where
    pub keeps : (d : State) → In d f.discovered → In d g.discovered
    pub queued : (d : State) → In d f.queue → In d g.queue
    pub fresh : (d : State) → In d g.discovered → In d f.discovered ⊎ In d g.queue
    pub safe : AllSafe f → AllSafe g
    pub listed : AllListed f → AllListed g

  pub Grows-refl : (f : Frontier) → Grows f f
  Grows-refl f = record {
    keeps = λ d m. m;
    queued = λ d m. m;
    fresh = λ d m. inl m;
    safe = λ h. h;
    listed = λ h. h;
  }

  pub Grows-trans : (f g h : Frontier) → Grows f g → Grows g h → Grows f h
  Grows-trans f g h a b = record {
    keeps = λ d m. b.keeps d (a.keeps d m);
    queued = λ d m. b.queued d (a.queued d m);
    fresh = λ d m. elim (b.fresh d m) [
      | inl old ↦ elim (a.fresh d old) [ inl first ↦ inl first | inr q ↦ inr (b.queued d q) ]
      | inr q ↦ inr q
    ];
    safe = λ s. b.safe (a.safe s);
    listed = λ s. b.listed (a.listed s);
  }

  -- A safe state is known to the frontier, itself or as an equal dict.
  abbrev pub Covered : State → Frontier → Type 0
  Covered t f =
      (d : State) × In d f.discovered × ((d ≡ t) ⊎ (same_state d t ≡ true)) × IsSafe spec t.fields

  pub Covered-Grows : (t : State) (f g : Frontier) → Grows f g → Covered t f → Covered t g
  Covered-Grows t f g grows (d, m, e, safe) = (d, grows.keeps d m, e, safe)

  step_to-Grows : (f : Frontier) (n : ℕ) → Grows f (record f { work_items = n })
  step_to-Grows f n = record {
    keeps = λ d m. m;
    queued = λ d m. m;
    fresh = λ d m. inl m;
    safe = λ h. h;
    listed = λ h. h;
  }

  pub step-Grows : (f g : Frontier) → step f ≡ ok g → Grows f g
  step-Grows f g h = rw (step-eq-ok f g h).1 (step_to-Grows f _)

  enqueued-Grows : (s : State) (f : Frontier) → IsSafe spec s.fields → Grows f (enqueued s f)
  enqueued-Grows s f safe = record {
    keeps = λ d m. inr m;
    queued = λ d m. In-append_left d f.queue _ m;
    fresh = λ d m. elim m [ inl e ↦ inr (In-append_right d f.queue _ (inl e)) | inr old ↦ inl old ];
    safe = λ h d m. elim m [
      | inl e ↦ subst (λ x. IsSafe spec x.fields) (sym e) safe
      | inr old ↦ h d old
    ];
    listed = λ h d m. elim (In-append_cases d f.queue (s ∷ []) m) [
      | inl old ↦ inr (h d old)
      | inr new ↦ elim new [ inl e ↦ inl e | inr none_left ↦ elim none_left [ ] ]
    ];
  }

  counted-Grows : (f g : Frontier) → Grows (counted f) g → Grows f g
  counted-Grows f g r = record {
    keeps = r.keeps;
    queued = r.queued;
    fresh = r.fresh;
    safe = r.safe;
    listed = r.listed;
  }

  is_discovered-Covered :
      (s : State) (f : Frontier)
      → IsSafe spec s.fields
      → is_discovered s f.discovered ≡ true
      → Covered s f
  unfolding is_discovered
  is_discovered-Covered s f safe h =
      let (d, m, e) = any-In (λ d. same_state d s) f.discovered h in (d, m, inr e, safe)

  pub discover-Grows :
      (s : State) (f g : Frontier)
      → IsSafe spec s.fields
      → discover s f ≡ ok g
      → Grows f g × Covered s g
  discover-Grows s f g safe h = elim (discover-eq-ok s f g h) [
    | inl known ↦
        let t : Grows f g × Covered s g =
          rw known.1 (Grows-refl f, is_discovered-Covered s f safe known.0) in
        t
    | inr new ↦ rw new.1 (enqueued-Grows s f safe, (s, inl refl, inl refl, safe))
  ]

  -- An edge to a safe state.
  pub append-Grows :
      (s : State) (f g : Frontier)
      → IsSafe spec s.fields
      → append s f ≡ ok g
      → Grows f g × Covered s g
  append-Grows s f g safe h =
      let (_, found) = append-eq-ok s f g h in
      let (grows, covered) = discover-Grows s (counted f) g safe found in
      (counted-Grows f g grows, covered)

  -- A loop whose rounds all grow the frontier grows it, and each round is one of its parts.
  module _ {A : Type 0} (body : A → Frontier → Result Error Frontier) where
    pub for_each-Grows :
        (xs : List A)
        → ((x : A) → In x xs → (f g : Frontier) → body x f ≡ ok g → Grows f g)
        → (f g : Frontier) → for_each body xs f ≡ ok g
        → Grows f g
    for_each-Grows = for_each-rel Grows Grows-refl Grows-trans body

    pub for_each-Covered :
        (xs : List A) (x : A) (t : State)
        → ((y : A) → In y xs → (f g : Frontier) → body y f ≡ ok g → Grows f g)
        → In x xs
        → ((f g : Frontier) → body x f ≡ ok g → Covered t g)
        → (f g : Frontier) → for_each body xs f ≡ ok g
        → Covered t g
    unfolding for_each
    for_each-Covered [] x t grows m cover f g h = elim m [ ]
    for_each-Covered (y ∷ xs) x t grows (inl e) cover f g h =
        let (u, first, rest) = >>=-eq-ok (body y f) (for_each body xs) h in
        Covered-Grows t u g (for_each-Grows xs (λ z m. grows z (inr m)) u g rest)
          (cover f u (rw e first))
    for_each-Covered (y ∷ xs) x t grows (inr m) cover f g h =
        let (u, first, rest) = >>=-eq-ok (body y f) (for_each body xs) h in
        for_each-Covered xs x t (λ z n. grows z (inr n)) m cover u g rest
