-- ===== src/Model/Visit.antt =====
-- One visit of a state by the atomic operations: pipeline/domain_v2_model.py, the body of the loop.

use mathlib.Core.Path.{subst}
use formalspecgen.Domain.{DomainSpec, Operation}
use formalspecgen.Model.Atomic.{
  atomic_successors, attempt, callers, fire, fired, range, stutter, stuttered,
}
use formalspecgen.Model.Evaluate.{Fields}
use formalspecgen.Model.Frontier.{Frontier, step}
use formalspecgen.Model.Growth.{
  Covered, Grows, Grows-refl, Grows-trans, append-Grows, for_each-Covered, for_each-Grows,
  step-Grows,
}
use formalspecgen.Model.Reach.{AtomicStep, fires, refuses}
use formalspecgen.Model.Runs.{attempt-eq-ok}
use formalspecgen.Model.Safe.{IsSafe, checks-IsSafe}
use formalspecgen.Model.State.{State, check_bounds, check_invariants}
use formalspecgen.Prelude.{In, Option, inl, inr, ℕ, ◌≡◌}
use formalspecgen.Result.{>>=-eq-ok, ok}

module _ (spec : DomainSpec) (s : State) (safe : IsSafe spec s.fields) where
  fire-Grows :
      (op : Operation) (post : Fields) (caller : Option ℕ) (f g : Frontier)
      → fire spec s op post caller f ≡ ok g
      → Grows spec f g × Covered spec (fired spec s post caller) g
  unfolding fire
  fire-Grows op post caller f g h =
      let (f₁, stepped, rest) = >>=-eq-ok (step f) _ h in
      let (_, bounded, rest₂) = >>=-eq-ok (check_bounds spec _ op.name) _ rest in
      let (_, kept, appended) = >>=-eq-ok (check_invariants spec _ op.name) _ rest₂ in
      let (grows, covered) =
        append-Grows spec _ f₁ g (checks-IsSafe spec _ op.name bounded kept) appended in
      (Grows-trans spec f f₁ g (step-Grows spec f f₁ stepped) grows, covered)

  stutter-Grows :
      (actor : ℕ) (f g : Frontier)
      → stutter s actor f ≡ ok g
      → Grows spec f g × Covered spec (stuttered s actor) g
  unfolding stutter stuttered
  stutter-Grows actor f g h =
      let (f₁, stepped, appended) = >>=-eq-ok (step f) _ h in
      let (grows, covered) = append-Grows spec _ f₁ g safe appended in
      (Grows-trans spec f f₁ g (step-Grows spec f f₁ stepped) grows, covered)

  attempt-Grows : (op : Operation) (f g : Frontier) → attempt spec s op f ≡ ok g → Grows spec f g
  attempt-Grows op f g h =
      let (f₁, stepped, rest) = attempt-eq-ok spec s op f g h in
      Grows-trans spec f f₁ g (step-Grows spec f f₁ stepped) (elim rest [
        | inl (_, (post, _, run)) ↦
            for_each-Grows spec (fire spec s op post) (callers spec op)
              (λ c _ a b r. (fire-Grows op post c a b r).0) f₁ g run
        | inr (_, inl (_, run)) ↦
            for_each-Grows spec (stutter s) (range spec.actors)
              (λ c _ a b r. (stutter-Grows c a b r).0) f₁ g run
        | inr (_, inr (_, e)) ↦ subst (Grows spec f₁) e (Grows-refl spec f₁)
      ])

  attempt-Covered :
      (op : Operation) (t : State) (f g : Frontier)
      → AtomicStep spec s op t
      → attempt spec s op f ≡ ok g
      → Covered spec t g
  attempt-Covered op t f g (fires post caller held applied m e) h =
      let (f₁, _, rest) = attempt-eq-ok spec s op f g h in
      elim rest [
        | inl (_, (post', applied', run)) ↦
            let same : post' ≡ post = cc in
            for_each-Covered spec (fire spec s op post') (callers spec op) caller t
              (λ c _ a b r. (fire-Grows op post' c a b r).0) m
              (λ a b r. rw (e, ← same) (fire-Grows op post' caller a b r).1) f₁ g run
        | inr (disabled, _) ↦ cc
      ]
  attempt-Covered op t f g (refuses actor held stut m e) h =
      let (f₁, _, rest) = attempt-eq-ok spec s op f g h in
      elim rest [
        | inl (enabled, _) ↦ cc
        | inr (_, inl (_, run)) ↦
            for_each-Covered spec (stutter s) (range spec.actors) actor t
              (λ c _ a b r. (stutter-Grows c a b r).0) m
              (λ a b r. rw e (stutter-Grows actor a b r).1) f₁ g run
        | inr (_, inr (silent, _)) ↦ cc
      ]

  pub atomic_successors-Grows :
      (f g : Frontier) → atomic_successors spec s f ≡ ok g → Grows spec f g
  unfolding atomic_successors
  atomic_successors-Grows =
      for_each-Grows spec (attempt spec s) spec.operations (λ op _. attempt-Grows op)

  pub atomic_successors-Covered :
      (op : Operation) (t : State) (f g : Frontier)
      → In op spec.operations
      → AtomicStep spec s op t
      → atomic_successors spec s f ≡ ok g
      → Covered spec t g
  unfolding atomic_successors
  atomic_successors-Covered op t f g m st =
      for_each-Covered spec (attempt spec s) spec.operations op t (λ o _. attempt-Grows o) m
        (λ a b r. attempt-Covered op t a b st r) f g
