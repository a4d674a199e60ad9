-- ===== src/Domain/Fields.antt =====
-- The validators of the single models of pipeline/domain_v2.py, with the errors of the whole schema.
-- pydantic collects the errors of a model: the result here is the first.

use formalspecgen.Domain.{
  DomainSpec, Effect, Expr, FailureSemantics, Guard, Invariant, LockProtocolMetadata, Operation,
  ReturnType, StateVariable, bool_variable, boolean, exception, false_and_stutter, int_variable,
  void,
}
use formalspecgen.Domain.References.{member, referenced_fields}
use formalspecgen.Domain.Typing.{TypeError}
use formalspecgen.Prelude.{
  Bool, List, Option, String, [], false, leb, length, none, not, some, str_eq, true, ◌&&◌, ◌∷◌,
}
use formalspecgen.Prelude.Int.{leb_ℤ, ltb_ℤ}
use formalspecgen.Prelude.Text.{is_identifier, is_module_name, is_pascal_case}
use formalspecgen.Result.{Result, each, err, in_order, ok, refuse, require}

pub data SchemaError : Type 0 where
  unsafe_identifier unsafe_domain_name unsafe_module_name : String → SchemaError
  empty_range initial_out_of_range : String → SchemaError
  too_few_lock_states lock_states_repeated frame_repeated : SchemaError
  stutter_needs_boolean exception_incomplete exception_unexpected : SchemaError
  actors_out_of_range no_variables no_operations no_invariants : SchemaError
  not_unique : String → SchemaError
  hardware_incomplete hardware_not_positive pool_exceeds_capacity : SchemaError
  profile_hash proof_hash pool_not_bounded : SchemaError
  async_needs_actors async_with_lock : SchemaError
  lock_undeclared lock_needs_actors lock_not_integer lock_incomplete : SchemaError
  lock_states_mismatch owners_mismatch unlocked_owned lock_initial : SchemaError
  owner_out_of_bounds points_mismatch lock_operations lock_mutated lock_referenced : SchemaError
  reserved_name : SchemaError
  operator_collision invariant_collision effects_mismatch ids_repeated : String → SchemaError
  undeclared_fields guard_not_boolean effect_mismatch : String → SchemaError
  trigger_not_boolean invariant_not_boolean : String → SchemaError
  wrong_type : TypeError → SchemaError
  missing_key : String → SchemaError

-- `len(values) == len(set(values))`
unfoldable pub is_unique : List String → Bool
is_unique [] = true
is_unique (x ∷ xs) = not (member x xs) && is_unique xs

-- `_safe_identifier`
unfoldable pub safe_identifier : String → Result SchemaError Unit
safe_identifier s = require (is_identifier s) (unsafe_identifier s)

-- Every `FieldExpr` in the expression has a safe name.
unfoldable pub safe_expression : Expr → Result SchemaError Unit
safe_expression e = each safe_identifier (referenced_fields e)

-- `IntStateVariable.valid_range`, and the names.
unfoldable pub valid_variable : StateVariable → Result SchemaError Unit
valid_variable (int_variable v) = in_order (
    safe_identifier v.name
    ∷ require (ltb_ℤ v.lower v.upper) (empty_range v.name)
    ∷ require (leb_ℤ v.lower v.initial && leb_ℤ v.initial v.upper) (initial_out_of_range v.name)
    ∷ [])
valid_variable (bool_variable v) = safe_identifier v.name

unfoldable pub valid_lock_metadata : LockProtocolMetadata → Result SchemaError Unit
valid_lock_metadata m = in_order (
    safe_identifier m.lock_variable
    ∷ require (leb 2 (length m.lock_states)) too_few_lock_states
    ∷ require (is_unique m.lock_states) lock_states_repeated
    ∷ each safe_identifier m.lock_states
    ∷ [])

unfoldable pub valid_guard : Guard → Result SchemaError Unit
valid_guard g = in_order (safe_identifier g.id ∷ safe_expression g.expression ∷ [])

unfoldable pub valid_effect : Effect → Result SchemaError Unit
valid_effect e =
    in_order (safe_identifier e.id ∷ safe_identifier e.target ∷ safe_expression e.value ∷ [])

abbrev pub is_void : ReturnType → Bool
is_void void = true
is_void boolean = false

-- `bool(text)` of an optional text.
abbrev pub is_given : Option String → Bool
is_given none = false
is_given (some s) = not (str_eq s "")

-- `valid_failure_surface`
unfoldable pub valid_failure_surface :
    FailureSemantics → ReturnType → Option String → Option Expr → Result SchemaError Unit
valid_failure_surface false_and_stutter void _ _ = err stutter_needs_boolean
valid_failure_surface exception _ type (some trigger) = require (is_given type) exception_incomplete
valid_failure_surface exception _ type none = err exception_incomplete
valid_failure_surface _ _ none none = ok tt
valid_failure_surface _ _ _ _ = err exception_unexpected

abbrev pub each_of :
    {A : Type 0} → (A → Result SchemaError Unit) → Option A → Result SchemaError Unit
each_of check none = ok tt
each_of check (some a) = check a

unfoldable pub valid_operation : Operation → Result SchemaError Unit
valid_operation op = in_order (
    safe_identifier op.name
    ∷ each valid_guard op.guards
    ∷ each valid_effect op.effects
    ∷ each safe_identifier op.frame
    ∷ require (is_unique op.frame) frame_repeated
    ∷ each_of safe_expression op.exception_trigger
    ∷ valid_failure_surface op.failure_semantics op.return_type op.exception_type
        op.exception_trigger
    ∷ [])

unfoldable pub valid_invariant : Invariant → Result SchemaError Unit
valid_invariant i = in_order (safe_identifier i.id ∷ safe_expression i.expression ∷ [])

abbrev pub is_empty : {A : Type 0} → List A → Bool
is_empty [] = true
is_empty (_ ∷ _) = false

-- The fields of `DomainSpecV2`, each by its own validator.
unfoldable pub valid_fields : DomainSpec → Result SchemaError Unit
valid_fields spec = in_order (
    require (is_pascal_case spec.domain_name) (unsafe_domain_name spec.domain_name)
    ∷ require (is_module_name spec.module_name) (unsafe_module_name spec.module_name)
    ∷ require (leb 1 spec.actors && leb spec.actors 16) actors_out_of_range
    ∷ each_of valid_lock_metadata spec.concurrency
    ∷ refuse (is_empty spec.state_variables) no_variables
    ∷ each valid_variable spec.state_variables
    ∷ refuse (is_empty spec.operations) no_operations
    ∷ each valid_operation spec.operations
    ∷ refuse (is_empty spec.tlc_invariants) no_invariants
    ∷ each valid_invariant spec.tlc_invariants
    ∷ [])
