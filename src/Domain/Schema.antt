-- ===== src/Domain/Schema.antt =====
-- `DomainSpecV2.unique_names` of pipeline/domain_v2.py: the validation across the fields of a domain.

use Prim.Native.String.{◌++◌ as text_append}
use mathlib.Core.List.{flat_map}
use formalspecgen.Domain.{
  DomainSpec, Effect, ExecutionModel, Expr, Guard, IntStateVariable, Invariant,
  LockProtocolMetadata, Operation, StateVariable, async_message_passing, bool_variable,
  int_variable, is_unavailable, stutters, variable_name,
}
use formalspecgen.Domain.Fields.{
  SchemaError, async_needs_actors, async_with_lock, each_of, effect_mismatch, effects_mismatch,
  guard_not_boolean, hardware_incomplete, hardware_not_positive, ids_repeated, invariant_collision,
  invariant_not_boolean, is_unique, is_void, lock_incomplete, lock_initial, lock_mutated,
  lock_needs_actors, lock_not_integer, lock_operations, lock_referenced, lock_states_mismatch,
  lock_undeclared, missing_key, not_unique, operator_collision, owner_out_of_bounds,
  owners_mismatch, points_mismatch, pool_exceeds_capacity, pool_not_bounded, profile_hash,
  proof_hash, reserved_name, trigger_not_boolean, undeclared_fields, unlocked_owned, valid_fields,
  wrong_type,
}
use formalspecgen.Domain.References.{member, referenced_fields, subset}
use formalspecgen.Domain.Typing.{
  FieldTypes, Sort, bool_sort, expression_type, int_sort, lookup_type, same_sort,
}
use formalspecgen.Prelude.{
  Bool, List, Option, String, [], all, any, false, if◌then◌else◌, is_some, leb, length, map, none,
  not, pos, some, str_eq, true, ℤ, ◌&&◌, ◌++◌, ◌+◌, ◌==◌, ◌||◌, ◌∷◌,
}
use formalspecgen.Prelude.Int.{eqb_ℤ, leb_ℤ, ltb_ℤ}
use formalspecgen.Prelude.Text.{is_hex_digest}
use formalspecgen.Result.{Result, each, err, for_each, in_order, ok, refuse, require, ◌>>=◌, ◌>>◌}
use formalspecgen.Samples.{counter}

abbrev pub declared_names : DomainSpec → List String
declared_names spec = map variable_name spec.state_variables

unfoldable pub check_groups : DomainSpec → Result SchemaError Unit
check_groups spec = in_order (
    require (is_unique (declared_names spec)) (not_unique "state variables")
    ∷ require (is_unique (map (λ (op : Operation). op.name) spec.operations))
        (not_unique "operations")
    ∷ require (is_unique (map (λ (i : Invariant). i.id) spec.tlc_invariants))
        (not_unique "invariants")
    ∷ [])

-- `next((item for item in self.state_variables if item.name == name), None)`
unfoldable pub find_variable : String → List StateVariable → Option StateVariable
find_variable name [] = none
find_variable name (v ∷ vs) =
    if str_eq (variable_name v) name then some v else find_variable name vs

unfoldable pub is_pool : ℤ → Option StateVariable → Bool
is_pool capacity (some (int_variable v)) = eqb_ℤ v.upper capacity
is_pool capacity _ = false

-- The six fields of the hardware pool: `capacity_bound`, `hardware_safe_capacity`, `pool_counter`,
-- `hardware_profile_sha256`, `hardware_proof_sha256`, `struct_size_bytes`.
unfoldable pub check_pool :
    DomainSpec
    → Option ℤ
    → Option ℤ
    → Option String
    → Option String
    → Option String
    → Option ℤ
    → Result SchemaError Unit
check_pool spec _ none none none none _ = ok tt
check_pool spec (some bound) (some safe) (some counter) (some profile) (some proof) (some size) =
    in_order (
      refuse (leb_ℤ bound (pos 0) || leb_ℤ size (pos 0)) hardware_not_positive
      ∷ refuse (ltb_ℤ safe bound) pool_exceeds_capacity
      ∷ require (is_hex_digest 64 profile) profile_hash
      ∷ require (is_hex_digest 64 proof) proof_hash
      ∷ require (is_pool bound (find_variable counter spec.state_variables)) pool_not_bounded
      ∷ [])
check_pool spec _ _ _ _ _ _ = err hardware_incomplete

unfoldable pub check_hardware : DomainSpec → Result SchemaError Unit
check_hardware spec =
    check_pool spec spec.capacity_bound spec.hardware_safe_capacity spec.pool_counter
      spec.hardware_profile_sha256 spec.hardware_proof_sha256 spec.struct_size_bytes

unfoldable pub check_execution_model : DomainSpec → Option ExecutionModel → Result SchemaError Unit
check_execution_model spec none = ok tt
check_execution_model spec (some async_message_passing) = in_order (
    require (leb 2 spec.actors) async_needs_actors
    ∷ refuse (is_some spec.concurrency) async_with_lock
    ∷ [])

-- `item in values`, and `len(values) == len(set(values))`, of integers
unfoldable pub member_ℤ : ℤ → List ℤ → Bool
member_ℤ z zs = any (eqb_ℤ z) zs

unfoldable pub is_unique_ℤ : List ℤ → Bool
is_unique_ℤ [] = true
is_unique_ℤ (z ∷ zs) = not (member_ℤ z zs) && is_unique_ℤ zs

abbrev pub within : IntStateVariable → ℤ → Bool
within v z = leb_ℤ v.lower z && leb_ℤ z v.upper

abbrev pub is_plain : Operation → Bool
is_plain op = is_void op.return_type && is_unavailable op.failure_semantics

-- The fields that the guards and the effects of an operation mention.
unfoldable pub operation_fields : Operation → List String
operation_fields op =
    flat_map (λ (g : Guard). referenced_fields g.expression) op.guards
    ++ flat_map (λ (e : Effect). referenced_fields e.value) op.effects

-- The explicit part of the lock metadata: given whole, or not at all.
unfoldable pub check_explicit :
    DomainSpec
    → LockProtocolMetadata
    → IntStateVariable
    → Option ℤ
    → Option (List ℤ)
    → Option (List String)
    → Result SchemaError Unit
check_explicit spec m lock none none none = ok tt
check_explicit spec m lock (some unlocked) (some owners) (some points) = in_order (
    require (length m.lock_states == spec.actors + 1) lock_states_mismatch
    ∷ require ((length owners == spec.actors) && is_unique_ℤ owners) owners_mismatch
    ∷ refuse (member_ℤ unlocked owners) unlocked_owned
    ∷ require (eqb_ℤ lock.initial unlocked) lock_initial
    ∷ require (all (within lock) (unlocked ∷ owners)) owner_out_of_bounds
    ∷ require
        (subset points (map (λ (op : Operation). op.name) spec.operations)
          && subset (map (λ (op : Operation). op.name) spec.operations) points)
        points_mismatch
    ∷ require (all is_plain spec.operations) lock_operations
    ∷ refuse (any (λ (op : Operation). member m.lock_variable op.frame) spec.operations)
        lock_mutated
    ∷ refuse (any (λ op. member m.lock_variable (operation_fields op)) spec.operations)
        lock_referenced
    ∷ [])
check_explicit spec m lock _ _ _ = err lock_incomplete

-- The declared lock variable is found, since its name is declared.
unfoldable pub check_lock_state :
    DomainSpec → LockProtocolMetadata → Option StateVariable → Result SchemaError Unit
check_lock_state spec m none = err lock_undeclared
check_lock_state spec m (some (bool_variable _)) = err lock_not_integer
check_lock_state spec m (some (int_variable lock)) =
    check_explicit spec m lock m.unlocked_value m.actor_lock_values m.linearization_points

unfoldable pub check_concurrency :
    DomainSpec → Option LockProtocolMetadata → Result SchemaError Unit
check_concurrency spec none = ok tt
check_concurrency spec (some m) = in_order (
    require (member m.lock_variable (declared_names spec)) lock_undeclared
    ∷ require (leb 2 spec.actors) lock_needs_actors
    ∷ check_lock_state spec m (find_variable m.lock_variable spec.state_variables)
    ∷ [])

abbrev pub variable_sort : StateVariable → Sort
variable_sort (int_variable _) = int_sort
variable_sort (bool_variable _) = bool_sort

unfoldable pub field_types : DomainSpec → FieldTypes
field_types spec = map (λ v. (variable_name v, variable_sort v)) spec.state_variables

abbrev pub reserved : List String
reserved = "Init" ∷ "Next" ∷ "Spec" ∷ "TypeOK" ∷ "vars" ∷ "Actors" ∷ "callResult" ∷ []

-- `left & right`, as a test
unfoldable pub meets : List String → List String → Bool
meets xs ys = any (λ x. member x ys) xs

-- The operators of the rendered specification that an operation gives rise to.
unfoldable pub generated : Operation → List String
generated op =
    if is_void op.return_type
    then op.name ∷ []
    else (text_append op.name "Success")
      ∷ (if stutters op.failure_semantics then text_append op.name "Failure" ∷ [] else [])

-- `_expression_type(expression, field_types)`, compared with a type.
unfoldable pub require_type : Expr → FieldTypes → Sort → SchemaError → Result SchemaError Unit
require_type e types sort error = elim (expression_type e types) [
  | ok t ↦ require (same_sort t sort) error
  | err raised ↦ err (wrong_type raised)
]

abbrev pub trigger_fields : Option Expr → List String
trigger_fields none = []
trigger_fields (some e) = referenced_fields e

unfoldable pub check_effect_type : FieldTypes → String → Effect → Result SchemaError Unit
check_effect_type types name e = elim (lookup_type e.target types) [
  | none ↦ err (missing_key e.target)
  | some sort ↦ require_type e.value types sort (effect_mismatch name)
]

-- What one round of the loop over the operations checks, behind the names of operators.
unfoldable pub check_operation : DomainSpec → Operation → Result SchemaError Unit
check_operation spec op =
    let targets = map (λ (e : Effect). e.target) op.effects in
    let ids = map (λ (g : Guard). g.id) op.guards ++ map (λ (e : Effect). e.id) op.effects in
    let references = operation_fields op ++ trigger_fields op.exception_trigger in
    in_order (
      require (is_unique targets && (subset targets op.frame && subset op.frame targets))
        (effects_mismatch op.name)
      ∷ require (is_unique ids) (ids_repeated op.name)
      ∷ require (subset (op.frame ++ (targets ++ references)) (declared_names spec))
          (undeclared_fields op.name)
      ∷ each
          (λ (g : Guard).
            require_type g.expression (field_types spec) bool_sort (guard_not_boolean op.name))
          op.guards
      ∷ each (check_effect_type (field_types spec) op.name) op.effects
      ∷ each_of (λ e. require_type e (field_types spec) bool_sort (trigger_not_boolean op.name))
          op.exception_trigger
      ∷ [])

-- One round: the operators so far, and after it.
unfoldable pub visit_operation :
    DomainSpec → Operation → List String → Result SchemaError (List String)
visit_operation spec op operators = do
  refuse (meets operators (generated op)) (operator_collision op.name)
  check_operation spec op
  ok (operators ++ generated op)

unfoldable pub visit_invariant :
    DomainSpec → Invariant → List String → Result SchemaError (List String)
visit_invariant spec i operators = do
  refuse (member i.id operators) (invariant_collision i.id)
  require (subset (referenced_fields i.expression) (declared_names spec)) (undeclared_fields i.id)
  require_type i.expression (field_types spec) bool_sort (invariant_not_boolean i.id)
  ok (i.id ∷ operators)

unfoldable pub unique_names : DomainSpec → Result SchemaError (List String)
unique_names spec = do
  check_groups spec
  check_hardware spec
  check_execution_model spec spec.execution_model
  check_concurrency spec spec.concurrency
  refuse (meets (declared_names spec) reserved) reserved_name
  operators ← for_each (visit_operation spec) spec.operations reserved
  for_each (visit_invariant spec) spec.tlc_invariants operators

-- `DomainSpecV2.model_validate`, on data of the right shape.
unfoldable pub model_validate : DomainSpec → Result SchemaError DomainSpec
model_validate spec = do valid_fields spec; operators ← unique_names spec; ok spec
