-- ===== src/Model/Atomic.antt =====
-- The initial state and the successors by atomic operations in `validate_transitions_and_invariants`
-- of pipeline/domain_v2_model.py.
use formalspecgen.Domain.{
  DomainSpec, Operation, ReturnType, StateVariable, bool_variable, boolean, int_variable, stutters,
  variable_name, void,
}
use formalspecgen.Model.Evaluate.{Error, Fields, apply_effects, guards_hold}
use formalspecgen.Model.Frontier.{Frontier, append, step}
use formalspecgen.Model.State.{
  CallResult, State, check_bounds, check_invariants, failure, idle, no_result, success,
}
use formalspecgen.Model.Value.{Value, bool, int}
use formalspecgen.Prelude.{
  Bool, List, Option, [], any, false, if◌then◌else◌, is_some, map, none, replicate, set, some, suc,
  true, zero, ℕ, ◌∷◌,
}
use formalspecgen.Result.{Result, for_each, ok, ◌>>=◌, ◌>>◌}

unfoldable pub initial_value : StateVariable → Value
initial_value (int_variable v) = int v.initial
initial_value (bool_variable v) = bool v.initial

unfoldable pub initial_fields : List StateVariable → Fields
unfolding initial_value
initial_fields vs = map (λ v. (variable_name v, initial_value v)) vs

abbrev pub returns_boolean : ReturnType → Bool
returns_boolean boolean = true
returns_boolean void = false

-- `spec.concurrency is not None and spec.concurrency.linearization_points is not None`
unfoldable pub has_lock_protocol : DomainSpec → Bool
has_lock_protocol spec = elim spec.concurrency [
  | none ↦ false
  | some m ↦ is_some m.linearization_points
]

unfoldable pub has_results : DomainSpec → Bool
has_results spec = any (λ op. stutters op.failure_semantics) spec.operations

unfoldable pub initial_state : DomainSpec → State
unfolding initial_fields has_lock_protocol has_results
initial_state spec = record {
  fields = initial_fields spec.state_variables;
  pcs = if has_lock_protocol spec then replicate spec.actors idle else [];
  pending = if has_lock_protocol spec then replicate spec.actors "none" else [];
  results = if has_results spec then replicate spec.actors no_result else [];
}

-- `range(n)`
abbrev pub range_from : ℕ → ℕ → List ℕ
range_from start zero = []
range_from start (suc n) = start ∷ range_from (suc start) n

abbrev pub range : ℕ → List ℕ
range n = range_from 0 n

-- `range(spec.actors)` for a boolean operation, else `(None,)`.
unfoldable pub callers : DomainSpec → Operation → List (Option ℕ)
callers spec op = if returns_boolean op.return_type then map some (range spec.actors) else none ∷ []

abbrev pub record_success : Bool → Option ℕ → List CallResult → List CallResult
record_success true (some actor) results = set results actor success
record_success _ _ results = results

-- The post-state of an enabled operation, for one caller.
unfoldable pub fired : DomainSpec → State → Fields → Option ℕ → State
fired spec s post caller = record s {
  fields = post;
  results = record_success (has_results spec) caller s.results;
}

unfoldable pub fire :
    DomainSpec → State → Operation → Fields → Option ℕ → Frontier → Result Error Frontier
fire spec s op post caller f = do
  f₁ ← step f
  let next = fired spec s post caller
  check_bounds spec next.fields op.name
  check_invariants spec next.fields op.name
  append next f₁

unfoldable pub stuttered : State → ℕ → State
stuttered s actor = record s { results = set s.results actor failure }

unfoldable pub stutter : State → ℕ → Frontier → Result Error Frontier
stutter s actor f = do f₁ ← step f; append (stuttered s actor) f₁

-- One operation at one state: the body of the inner `for`.
unfoldable pub attempt : DomainSpec → State → Operation → Frontier → Result Error Frontier
attempt spec s op f = do
  f₁ ← step f
  enabled ← guards_hold op s.fields
  if enabled
      then (apply_effects op s.fields >>= λ post.
          for_each (fire spec s op post) (callers spec op) f₁)
      else if stutters op.failure_semantics
      then for_each (stutter s) (range spec.actors) f₁
      else ok f₁

unfoldable pub atomic_successors : DomainSpec → State → Frontier → Result Error Frontier
atomic_successors spec s f = for_each (attempt spec s) spec.operations f
