-- ===== src/Model/Runs.antt =====
-- What the successors of a state did when they raised nothing, by their branches.

use formalspecgen.Domain.{DomainSpec, Operation, stutters}
use formalspecgen.Model.Atomic.{attempt, callers, fire, range, stutter}
use formalspecgen.Model.Evaluate.{Fields, apply_effects, guards_hold, insert, lookup}
use formalspecgen.Model.Frontier.{Frontier, step}
use formalspecgen.Model.Lock.{
  Lock, acquire, checked_append, dispatch, find_operation, linearize, move_actor, moved,
}
use formalspecgen.Model.State.{Phase, State, acquired, linearized, released}
use formalspecgen.Model.Value.{Value, int, value_eq}
use formalspecgen.Prelude.{
  Bool-cases, String, ap, false, get_elem?, inl, inr, some, true, ℕ, ℤ, ◌∙◌, ◌≡◌, ◌⊎◌,
}
use formalspecgen.Result.{>>=-eq-ok, for_each, ok, ok_injective, or_raise, or_raise-eq-ok}

module _ (spec : DomainSpec) (s : State) where
  -- The parts of a successful attempt, by the outcome of the guards.
  pub attempt-eq-ok :
      (op : Operation) (f g : Frontier)
      → attempt spec s op f ≡ ok g
      → (f₁ : Frontier) × (step f ≡ ok f₁)
        × (((guards_hold op s.fields ≡ ok true)
              × ((post : Fields) × (apply_effects op s.fields ≡ ok post)
                  × (for_each (fire spec s op post) (callers spec op) f₁ ≡ ok g)))
            ⊎ ((guards_hold op s.fields ≡ ok false)
                × ((stutters op.failure_semantics ≡ true)
                      × (for_each (stutter s) (range spec.actors) f₁ ≡ ok g)
                    ⊎ (stutters op.failure_semantics ≡ false) × (f₁ ≡ g))))
  unfolding attempt
  attempt-eq-ok op f g h =
      let (f₁, stepped, rest) = >>=-eq-ok (step f) _ h in
      let (enabled, held, rest₂) = >>=-eq-ok (guards_hold op s.fields) _ rest in
      (
        f₁,
        stepped,
        elim (Bool-cases enabled) [
          | inl yes_enabled ↦
              let r = rw yes_enabled at rest₂ in
              inl (held ∙ ap ok yes_enabled, >>=-eq-ok (apply_effects op s.fields) _ r)
          | inr disabled ↦
              let r = rw disabled at rest₂ in
              inr (
                held ∙ ap ok disabled,
                elim (Bool-cases (stutters op.failure_semantics)) [
                  | inl returns ↦ inl (returns, let q = rw returns at r in q)
                  | inr silent ↦ inr (silent, ok_injective (let q = rw silent at r in q))
                ],
              )
        ],
      )

module _ (spec : DomainSpec) (lock : Lock) (s : State) where
  -- What a successful acquisition attempt did.
  pub acquire-eq-ok :
      (actor : ℕ) (name : String) (f g : Frontier)
      → acquire spec lock s actor name f ≡ ok g
      → (value : Value) × (lookup lock.variable s.fields ≡ some value)
        × (((value_eq value (int lock.unlocked) ≡ true)
              × ((owner : ℤ) × (label : String) × (get_elem? lock.owners actor ≡ some owner)
                  × (checked_append spec
                        (moved s actor acquired (insert lock.variable (int owner) s.fields))
                        label
                        f
                      ≡ ok g)))
            ⊎ ((value_eq value (int lock.unlocked) ≡ false) × (f ≡ g)))
  unfolding acquire moved
  acquire-eq-ok actor name f g h =
      let (op, _, rest) = >>=-eq-ok (or_raise (find_operation name spec.operations) _) _ h in
      let (value, found, rest₂) = >>=-eq-ok (or_raise (lookup lock.variable s.fields) _) _ rest in
      (
        value,
        or_raise-eq-ok _ _ found,
        elim (Bool-cases (value_eq value (int lock.unlocked))) [
          | inl free ↦
              let r = rw free at rest₂ in
              let (owner, owned, run) = >>=-eq-ok (or_raise (get_elem? lock.owners actor) _) _ r in
              inl (free, (owner, _, or_raise-eq-ok _ _ owned, run))
          | inr taken ↦ inr (taken, ok_injective (let r = rw taken at rest₂ in r))
        ],
      )

  -- What a successful commit or rejection did.
  pub linearize-eq-ok :
      (actor : ℕ) (name : String) (f g : Frontier)
      → linearize spec lock s actor name f ≡ ok g
      → (op : Operation) × (find_operation name spec.operations ≡ some op)
        × (((guards_hold op s.fields ≡ ok true)
              × ((post : Fields) × (label : String) × (apply_effects op s.fields ≡ ok post)
                  × (checked_append spec (moved s actor linearized post) label f ≡ ok g)))
            ⊎ ((guards_hold op s.fields ≡ ok false)
                × ((label : String) × (checked_append spec
                        (moved s actor released (insert lock.variable (int lock.unlocked) s.fields))
                        label
                        f
                      ≡ ok g))))
  unfolding linearize moved
  linearize-eq-ok actor name f g h =
      let (op, known, rest) = >>=-eq-ok (or_raise (find_operation name spec.operations) _) _ h in
      let (enabled, held, rest₂) = >>=-eq-ok (guards_hold op s.fields) _ rest in
      (
        op,
        or_raise-eq-ok _ _ known,
        elim (Bool-cases enabled) [
          | inl on ↦
              let r = rw on at rest₂ in
              let (post, applied, run) = >>=-eq-ok (apply_effects op s.fields) _ r in
              inl (held ∙ ap ok on, (post, _, applied, run))
          | inr off ↦ inr (held ∙ ap ok off, (_, let r = rw off at rest₂ in r))
        ],
      )

  -- The phase and the pending operation that a successful move read.
  pub move_actor-eq-ok :
      (actor : ℕ) (f g : Frontier)
      → move_actor spec lock s actor f ≡ ok g
      → (f₁ : Frontier) × (step f ≡ ok f₁)
        × ((pc : Phase) × (get_elem? s.pcs actor ≡ some pc)
            × ((name : String) × (get_elem? s.pending actor ≡ some name)
                × (dispatch spec lock s actor name pc f₁ ≡ ok g)))
  unfolding move_actor
  move_actor-eq-ok actor f g h =
      let (f₁, stepped, rest) = >>=-eq-ok (step f) _ h in
      let (pc, at_pc, rest₂) = >>=-eq-ok (or_raise (get_elem? s.pcs actor) _) _ rest in
      let (name, at_name, run) = >>=-eq-ok (or_raise (get_elem? s.pending actor) _) _ rest₂ in
      (f₁, stepped, (pc, or_raise-eq-ok _ _ at_pc, (name, or_raise-eq-ok _ _ at_name, run)))
