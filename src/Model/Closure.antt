-- ===== src/Model/Closure.antt =====
-- The loop of `validate_transitions_and_invariants` of pipeline/domain_v2_model.py: what holds of the
-- discovered states while the queue is worked off.

use mathlib.Core.Path.{subst}
use formalspecgen.Domain.{DomainSpec}
use formalspecgen.Model.Atomic.{has_lock_protocol}
use formalspecgen.Model.Evaluate.{Error}
use formalspecgen.Model.Explore.{continue, last_round, next_round, successors, traverse}
use formalspecgen.Model.Frontier.{Frontier}
use formalspecgen.Model.Growth.{AllSafe, Covered, Covered-Grows, Grows}
use formalspecgen.Model.Lock.{lock_of, lock_successors}
use formalspecgen.Model.Reach.{Step, atomic, locked}
use formalspecgen.Model.Safe.{IsSafe}
use formalspecgen.Model.State.{State}
use formalspecgen.Model.Visit.{atomic_successors-Covered, atomic_successors-Grows}
use formalspecgen.Model.VisitLock.{move_actors-Covered, move_actors-Grows}
use formalspecgen.Prelude.{
  Bool-cases, In, List, Option, [], inl, inr, refl, some, suc, sym, zero, ℕ, ◌∷◌, ◌≡◌, ◌⊎◌,
}
use formalspecgen.Result.{>>=-eq-ok, Result, err, ok}

List-cases {ℓ} :
    {A : Type ℓ} (xs : List A) → (xs ≡ []) ⊎ ((x : A) × (rest : List A) × (xs ≡ x ∷ rest))
List-cases [] = inl refl
List-cases (x ∷ xs) = inr (x, xs, refl)

some_ok_injective :
    {E A : Type 0} {a b : A} → ◌≡◌ {A = Option (Result E A)} (some (ok a)) (some (ok b)) → a ≡ b
some_ok_injective p = cc

pub continue-eq-ok :
    {A : Type 0} (k : Frontier → Option (Result Error A)) (m : Result Error Frontier) {a : A}
    → continue k m ≡ some (ok a)
    → (f : Frontier) × (m ≡ ok f) × (k f ≡ some (ok a))
unfolding continue
continue-eq-ok k (ok f) h = (f, refl, h)
continue-eq-ok k (err e) h = cc

module _ (spec : DomainSpec) where
  successors-Grows :
      (s : State) (f g : Frontier)
      → IsSafe spec s.fields
      → successors spec s f ≡ ok g
      → Grows spec f g
  unfolding successors lock_successors
  successors-Grows s f g safe h = elim (Bool-cases (has_lock_protocol spec)) [
    | inl locks ↦
        let r = rw locks at h in
        let (lock, known, run) = >>=-eq-ok (lock_of spec) _ r in
        move_actors-Grows spec lock s safe f g run
    | inr plain ↦ let r = rw plain at h in atomic_successors-Grows spec s safe f g r
  ]

  successors-Covered :
      (s t : State) (f g : Frontier)
      → IsSafe spec s.fields
      → Step spec s t
      → successors spec s f ≡ ok g
      → Covered spec t g
  unfolding successors lock_successors
  successors-Covered s t f g safe (atomic op plain m st) h =
      let r = rw plain at h in atomic_successors-Covered spec s safe op t f g m st r
  successors-Covered s t f g safe (locked lock actor locks known m st) h =
      let r = rw (locks, known) at h in move_actors-Covered spec lock s safe actor t f g m st r

  -- Every discovered state still waits, or all its steps are covered.
  abbrev pub Pending : Frontier → Type 0
  Pending f =
      (d : State)
      → In d f.discovered
      → In d f.queue ⊎ ((t : State) → Step spec d t → Covered spec t f)

  pub record Explored (f : Frontier) : Type 0 where
    pub safe : AllSafe spec f
    pub closed : Pending f
    pub known : (d : State) → In d f.queue → In d f.discovered

  visit-Explored :
      (s : State) (rest : List State) (f g : Frontier)
      → f.queue ≡ s ∷ rest
      → Explored f
      → successors spec s (record f { queue = rest }) ≡ ok g
      → Explored g
  visit-Explored s rest f g q e h =
      let popped : Frontier = record f { queue = rest } in
      let here : IsSafe spec s.fields = e.safe s (e.known s (subst (In s) (sym q) (inl refl))) in
      let grows = successors-Grows s popped g here h in
      record {
        safe = grows.safe e.safe;
        closed = λ d m. elim (grows.fresh d m) [
          | inl old ↦ elim (e.closed d old) [
            | inl waits ↦ elim (subst (In d) q waits) [
              | inl is_s ↦ inr (λ t st.
                  successors-Covered s t popped g here (subst (λ x. Step spec x t) is_s st) h)
              | inr later ↦ inl (grows.queued d later)
            ]
            | inr covers ↦ inr (λ t st. Covered-Grows spec t popped g grows (covers t st))
          ]
          | inr queued ↦ inl queued
        ];
        known = grows.listed (λ d m. e.known d (subst (In d) (sym q) (inr m)));
      }

  pub last_round-eq-ok :
      (f g : Frontier) (queue : List State)
      → last_round f queue ≡ some (ok g)
      → (queue ≡ []) × (f ≡ g)
  unfolding last_round
  last_round-eq-ok f g [] h = (refl, some_ok_injective h)
  last_round-eq-ok f g (s ∷ rest) h = cc

  -- A loop that ended well either ended here or visited the head of the queue.
  pub next_round-eq-ok :
      (loop : Frontier → Option (Result Error Frontier)) (f g : Frontier) (queue : List State)
      → next_round loop spec f queue ≡ some (ok g)
      → ((queue ≡ []) × (f ≡ g))
        ⊎ ((s : State) × (rest : List State) × (queue ≡ s ∷ rest)
            × ((u : Frontier) × (successors spec s (record f { queue = rest }) ≡ ok u)
                × (loop u ≡ some (ok g))))
  unfolding next_round
  next_round-eq-ok loop f g [] h = inl (refl, some_ok_injective h)
  next_round-eq-ok loop f g (s ∷ rest) h =
      inr (s, rest, refl, continue-eq-ok loop (successors spec s _) h)

  abbrev Ended : Frontier → Frontier → Type 0
  Ended f g = Explored g × (g.queue ≡ []) × ((d : State) → In d f.discovered → In d g.discovered)

  -- The loop ends with an empty queue, and forgets no discovered state.
  pub traverse-Explored :
      (fuel : ℕ) (f g : Frontier)
      → Explored f
      → traverse fuel spec f ≡ some (ok g)
      → Explored g × (g.queue ≡ []) × ((d : State) → In d f.discovered → In d g.discovered)
  unfolding traverse
  traverse-Explored zero f g e h =
      let (empty, same) = last_round-eq-ok f g f.queue h in
      subst (λ x. Ended f x) same (e, empty, λ d m. m)
  traverse-Explored (suc fuel) f g e h =
      elim (next_round-eq-ok (traverse fuel spec) f g f.queue h) [
        | inl (empty, same) ↦ subst (λ x. Ended f x) same (e, empty, λ d m. m)
        | inr (s, rest, q, (u, run, again)) ↦
            let here : IsSafe spec s.fields =
              e.safe s (e.known s (subst (In s) (sym q) (inl refl))) in
            let grows = successors-Grows s (record f { queue = rest }) u here run in
            let (done, empty, keeps) =
              traverse-Explored fuel u g (visit-Explored s rest f u q e run) again in
            (done, empty, λ d m. keeps d (grows.keeps d m))
      ]
