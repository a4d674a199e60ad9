-- ===== src/Tests/Network.antt =====
-- Faults of a one-slot channel.

use formalspecgen.Model.Evaluate.{update}
use formalspecgen.Distributed.{
  drop_faults, drop_operation, equals, fault_actions, fault_operation, gather, inject_fault_actions,
  occupied_values, pairs, range_ℤ, slot_of, slot_values, span, without,
}
use formalspecgen.Distributed.Faults.{NetworkFault}
use formalspecgen.Distributed.Refines.{inject_fault_actions-NetworkFault}
use formalspecgen.Domain.{
  DomainSpec, IntStateVariable, Operation, async_message_passing, binary_expr, eq, field_expr,
  int_variable, integer_expr, unavailable, variable_name, void,
}
use formalspecgen.Domain.Schema.{find_variable}
use formalspecgen.Model.Evaluate.{
  Fields, all_hold, apply_effects, compute_effects, evaluate_expression, guards_hold, insert,
  lookup,
}
use formalspecgen.Model.Value.{apply_kind, int, truth, value_eq}
use formalspecgen.Prelude.{[], inl, none, pos, refl, some, true, ◌∷◌, ◌≡◌}
use formalspecgen.Result.{ok}
use formalspecgen.Samples.{counter}

abbrev slot : IntStateVariable
slot = record {
  name = "slot";
  lower = pos 0;
  upper = pos 1;
  initial = pos 0;
  terminal_states = none;
}

abbrev channel : DomainSpec
channel = record counter {
  actors = 2;
  execution_model = some async_message_passing;
  state_variables = int_variable slot ∷ [];
}

abbrev lost : Operation
lost = record {
  name = "DropMsg_slot";
  return_type = void;
  failure_semantics = unavailable;
  guards =
      record { id = "fg"; expression = binary_expr eq (field_expr "slot") (integer_expr (pos 1)) }
      ∷ [];
  effects = record { id = "fe"; target = "slot"; value = integer_expr (pos 0) } ∷ [];
  frame = "slot" ∷ [];
  exception_type = none;
  exception_trigger = none;
}

channel_faults :
    inject_fault_actions channel ("message_loss" ∷ "duplication" ∷ []) ("slot" ∷ [])
    ≡ ok (lost ∷ [])
unfolding inject_fault_actions gather fault_actions drop_faults slot_of find_variable variable_name
    pairs occupied_values without slot_values range_ℤ span drop_operation fault_operation equals
channel_faults = refl

abbrev sent : Fields
sent = ("slot", int (pos 1)) ∷ []

abbrev empty : Fields
empty = ("slot", int (pos 0)) ∷ []

lost_enabled : guards_hold lost sent ≡ ok true
unfolding guards_hold all_hold evaluate_expression lookup apply_kind value_eq truth
lost_enabled = refl

lost_applied : apply_effects lost sent ≡ ok empty
unfolding apply_effects compute_effects evaluate_expression update insert
lost_applied = refl

inject_fault_actions-NetworkFault_example : NetworkFault channel ("slot" ∷ []) sent empty
inject_fault_actions-NetworkFault_example =
    inject_fault_actions-NetworkFault channel ("message_loss" ∷ "duplication" ∷ []) ("slot" ∷ [])
      (lost ∷ []) lost sent empty channel_faults (inl refl) lost_enabled lost_applied
