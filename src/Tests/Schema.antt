-- ===== src/Tests/Schema.antt =====
-- The schema on concrete domains, and what accepted domains promise.

use mathlib.Core.List.{flat_map}
use formalspecgen.Domain.{Operation, unavailable, variable_name, void}
use formalspecgen.Domain.Accepted.{IsAccepted, model_validate-IsAccepted}
use formalspecgen.Domain.Fields.{
  is_unique, safe_expression, safe_identifier, valid_effect, valid_failure_surface, valid_fields,
  valid_guard, valid_invariant, valid_lock_metadata, valid_operation, valid_variable,
}
use formalspecgen.Domain.References.{member, referenced_fields, subset}
use formalspecgen.Domain.Schema.{
  check_concurrency, check_effect_type, check_execution_model, check_explicit, check_groups,
  check_hardware, check_lock_state, check_operation, check_pool, field_types, find_variable,
  generated, is_pool, is_unique_ℤ, meets, member_ℤ, model_validate, operation_fields, require_type,
  unique_names, visit_invariant, visit_operation,
}
use formalspecgen.Domain.Typing.{binary_type, expression_type, lookup_type}
use formalspecgen.Model.Accepted.{model_validate-IsLockMetadata}
use formalspecgen.Model.Evaluate.{Fields, apply_effects, guards_hold}
use formalspecgen.Model.Exclusion.{IsLockMetadata}
use formalspecgen.Model.Lock.{lock_of}
use formalspecgen.Model.Progress.{HasValue-IsTyped, apply_effects-IsTyped}
use formalspecgen.Model.Safe.{IsSafe}
use formalspecgen.Model.Typed.{IsTyped}
use formalspecgen.Model.Verdict.{model_validate-IsSafe}
use formalspecgen.Prelude.{Bool, In, inl, refl, ◌≡◌}
use formalspecgen.Prelude.Text.{is_identifier, is_module_name, is_pascal_case}
use formalspecgen.Result.{each, for_each, in_order, ok}
use formalspecgen.Samples.{counter, increment, locked_counter}
use formalspecgen.Tests.{locked_counter_runs}
use formalspecgen.Tests.Locking.{holding, holding-Reach, lock}

counter_accepted : model_validate counter ≡ ok counter
unfolding model_validate valid_fields unique_names in_order is_pascal_case is_module_name each
    valid_variable safe_identifier is_identifier valid_operation valid_guard safe_expression
    referenced_fields valid_effect is_unique member valid_failure_surface valid_invariant
    check_groups valid_lock_metadata subset check_concurrency check_effect_type
    check_execution_model check_explicit check_hardware check_lock_state check_operation check_pool
    field_types find_variable generated is_pool is_unique_ℤ meets member_ℤ operation_fields
    require_type visit_invariant visit_operation lookup_type expression_type binary_type flat_map
    for_each variable_name
counter_accepted = refl

locked_counter_accepted : model_validate locked_counter ≡ ok locked_counter
unfolding model_validate valid_fields unique_names in_order is_pascal_case is_module_name each
    valid_variable safe_identifier is_identifier valid_operation valid_guard safe_expression
    referenced_fields valid_effect is_unique member valid_failure_surface valid_invariant
    check_groups valid_lock_metadata subset check_concurrency check_effect_type
    check_execution_model check_explicit check_hardware check_lock_state check_operation check_pool
    field_types find_variable generated is_pool is_unique_ℤ meets member_ℤ operation_fields
    require_type visit_invariant visit_operation lookup_type expression_type binary_type flat_map
    for_each variable_name
locked_counter_accepted = refl

locked_counter-IsAccepted : IsAccepted locked_counter
locked_counter-IsAccepted = model_validate-IsAccepted locked_counter locked_counter_accepted

model_validate-IsSafe_example :
    IsSafe locked_counter holding.fields
    × ((op : Operation)
        → In op locked_counter.operations
        → ((enabled : Bool) × (guards_hold op holding.fields ≡ ok enabled))
          × ((post : Fields) × (apply_effects op holding.fields ≡ ok post)))
model_validate-IsSafe_example =
    model_validate-IsSafe locked_counter locked_counter 100 100 300 (47, 84) locked_counter_accepted
      locked_counter_runs holding-Reach

lock_known : lock_of locked_counter ≡ ok lock
unfolding lock_of
lock_known = refl

model_validate-IsLockMetadata_example : IsLockMetadata locked_counter lock
model_validate-IsLockMetadata_example =
    model_validate-IsLockMetadata locked_counter lock locked_counter-IsAccepted lock_known

holding-IsTyped : IsTyped (field_types locked_counter) holding.fields
holding-IsTyped =
    let promised =
      model_validate-IsSafe locked_counter locked_counter 100 100 300 (47, 84)
        locked_counter_accepted locked_counter_runs holding-Reach in
    HasValue-IsTyped locked_counter holding.fields promised.0.bounds

abbrev plain_increment : Operation
plain_increment = record increment { return_type = void; failure_semantics = unavailable }

apply_effects-IsTyped_example :
    ((b : Bool) × (guards_hold plain_increment holding.fields ≡ ok b))
    × ((post : Fields) × (apply_effects plain_increment holding.fields ≡ ok post)
        × IsTyped (field_types locked_counter) post)
apply_effects-IsTyped_example =
    apply_effects-IsTyped locked_counter locked_counter-IsAccepted holding.fields plain_increment
      (inl refl) holding-IsTyped
