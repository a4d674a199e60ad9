-- ===== src/Tests.antt =====
-- Runs of the definitions on concrete domains, and the theorems applied to them.

pub mod Locking
pub mod Agents
pub mod Network
pub mod Schema
pub mod Static
pub mod Work
pub mod Coordinators
pub mod Published
use mathlib.Core.Path.{subst}
use formalspecgen.Domain.{variable_name}
use formalspecgen.Domain.References.{referenced_fields}
use formalspecgen.Model.Agree.{RefersTo}
use formalspecgen.Model.Atomic.{
  atomic_successors, attempt, callers, fire, fired, has_lock_protocol, initial_state, stutter,
  stuttered,
}
use formalspecgen.Model.Evaluate.{
  Error, apply_effects, evaluate_expression, guards_hold, insert, lookup,
}
use formalspecgen.Model.Explore.{enter, successors, traverse, validate_transitions_and_invariants}
use formalspecgen.Model.Frontier.{append, discover, is_discovered, new_frontier, step}
use formalspecgen.Model.Lock.{
  acquire, checked_append, dispatch, find_operation, invoke, linearize, lock_of, lock_successors,
  move_actor, moved, release, respond,
}
use formalspecgen.Model.Reach.{start}
use formalspecgen.Model.Safe.{IsSafe, declared}
use formalspecgen.Model.Simulate.{IsClosed}
use formalspecgen.Model.State.{
  check_bounds, check_each, check_invariants, check_variables, same_state,
}
use formalspecgen.Model.Value.{apply_kind, value_eq}
use formalspecgen.Model.Verdict.{validate-IsSafe, validate_bounds, validate_total}
use formalspecgen.Prelude.{All, inl, inr, refl, some, sym, ℕ, ◌<◌, ◌≡◌, ◌≤◌}
use formalspecgen.Prelude.Int.{◌+ℤ◌}
use formalspecgen.Result.{Result, for_each, ok}
use formalspecgen.Samples.{counter, locked_counter}
use formalspecgen.Tests.Locking.{lock}

counter_runs : validate_transitions_and_invariants counter 10 10 20 ≡ some (ok (4, 4))
unfolding validate_transitions_and_invariants new_frontier enter traverse successors
    has_lock_protocol atomic_successors attempt for_each step append discover is_discovered
    same_state initial_state guards_hold evaluate_expression lookup insert apply_kind apply_effects
    check_bounds check_variables variable_name check_invariants check_each fire fired stutter
    stuttered callers ◌+ℤ◌
counter_runs = refl

pub locked_counter_runs :
    validate_transitions_and_invariants locked_counter 100 100 300 ≡ some (ok (47, 84))
unfolding validate_transitions_and_invariants new_frontier enter traverse successors
    has_lock_protocol lock_successors lock_of move_actor dispatch invoke acquire linearize release
    respond checked_append moved find_operation for_each step append discover is_discovered
    same_state initial_state guards_hold evaluate_expression lookup insert apply_kind apply_effects
    check_bounds check_variables variable_name check_invariants check_each value_eq ◌+ℤ◌
locked_counter_runs = refl

counter-IsClosed : IsClosed counter
unfolding referenced_fields variable_name lock_of
counter-IsClosed = record {
  guards = λ op m. elim m [
    | inl e ↦
        subst (λ o. All (λ g. RefersTo (declared counter) g.expression) o.guards) (sym e)
          (λ k n. elim n [ inl p ↦ inl p | inr q ↦ elim q [ ] ], tt)
    | inr q ↦ elim q [ ]
  ];
  effects = λ op m. elim m [
    | inl e ↦
        subst (λ o. All (λ x. RefersTo (declared counter) x.value) o.effects) (sym e)
          (λ k n. elim n [ inl p ↦ inl p | inr q ↦ elim q [ ] ], tt)
    | inr q ↦ elim q [ ]
  ];
  invariants = λ i m. elim m [
    | inl e ↦
        subst (λ o. RefersTo (declared counter) o.expression) (sym e)
          (λ k n. elim n [ inl p ↦ inl p | inr q ↦ elim q [ ] ])
    | inr q ↦ elim q [ ]
  ];
  lock = λ l h. cc;
}

validate-IsSafe_example : IsSafe counter (initial_state counter).fields
validate-IsSafe_example =
    validate-IsSafe counter 10 10 20 (4, 4) counter-IsClosed counter_runs start

validate_bounds_example : (4 ≤ 10) × (4 ≤ 10) × (◌<◌ 0 4)
validate_bounds_example = validate_bounds counter 10 10 20 4 4 counter_runs

validate_total_example :
    (r : Result Error (ℕ × ℕ)) × (validate_transitions_and_invariants locked_counter 2 3 4 ≡ some r)
validate_total_example = validate_total locked_counter 2 3 4
