-- ===== src/Samples.antt =====
-- Concrete domains, on which the definitions are run and the theorems applied.
use formalspecgen.Domain.{
  DomainSpec, Expr, LockProtocolMetadata, Operation, StateVariable, add, binary_expr, boolean,
  false_and_stutter, field_expr, int_variable, integer_expr, lt, lte, unavailable, void,
}
use formalspecgen.Prelude.{[], none, pos, some, ℤ, ◌∷◌}

abbrev pub x_lt : ℤ → Expr
x_lt z = binary_expr lt (field_expr "x") (integer_expr z)

abbrev pub increment : Operation
increment = record {
  name = "Increment";
  return_type = boolean;
  failure_semantics = false_and_stutter;
  guards = record { id = "g"; expression = x_lt (pos 2) } ∷ [];
  effects =
      record {
        id = "e";
        target = "x";
        value = binary_expr add (field_expr "x") (integer_expr (pos 1));
      }
      ∷ [];
  frame = "x" ∷ [];
  exception_type = none;
  exception_trigger = none;
}

abbrev pub x_variable : StateVariable
x_variable =
    int_variable
      (record { name = "x"; lower = pos 0; upper = pos 2; initial = pos 0; terminal_states = none })

abbrev pub counter : DomainSpec
counter = record {
  domain_name = "Counter";
  module_name = "counter";
  actors = 1;
  execution_model = none;
  concurrency = none;
  capacity_bound = none;
  hardware_safe_capacity = none;
  pool_counter = none;
  hardware_profile_sha256 = none;
  hardware_proof_sha256 = none;
  struct_size_bytes = none;
  state_variables = x_variable ∷ [];
  operations = increment ∷ [];
  tlc_invariants =
      record { id = "Small"; expression = binary_expr lte (field_expr "x") (integer_expr (pos 2)) }
      ∷ [];
}

abbrev pub lock_metadata : LockProtocolMetadata
lock_metadata = record {
  lock_variable = "lock";
  lock_states = "free" ∷ "first" ∷ "second" ∷ [];
  unlocked_value = some (pos 0);
  actor_lock_values = some (pos 1 ∷ pos 2 ∷ []);
  linearization_points = some ("Increment" ∷ []);
}

abbrev pub lock_variable : StateVariable
lock_variable = int_variable (record {
  name = "lock";
  lower = pos 0;
  upper = pos 2;
  initial = pos 0;
  terminal_states = none;
})

abbrev pub locked_counter : DomainSpec
locked_counter = record counter {
  actors = 2;
  concurrency = some lock_metadata;
  state_variables = x_variable ∷ lock_variable ∷ [];
  operations = record increment { return_type = void; failure_semantics = unavailable } ∷ [];
}
