-- ===== src/Domain.antt =====
-- pipeline/domain_v2.py: the typed schema of a candidate domain. A pydantic model is a record, a
-- union that is discriminated by `kind` is a data type.
pub mod Accepted
pub mod Fields
pub mod References
pub mod Schema
pub mod Typing
use formalspecgen.Prelude.{Bool, List, Option, String, false, true, ℕ, ℤ}

pub data BinaryKind : Type 0 where
  eq neq lt lte gt gte add sub implies and or : BinaryKind

pub data Expr : Type 0 where
  field_expr : String → Expr
  integer_expr : ℤ → Expr
  boolean_expr : Bool → Expr
  old_expr : Expr → Expr
  not_expr : Expr → Expr
  binary_expr : BinaryKind → Expr → Expr → Expr

pub record IntStateVariable : Type 0 where
  pub name : String
  pub lower : ℤ
  pub upper : ℤ
  pub initial : ℤ
  pub terminal_states : Option (List ℤ)

pub record BoolStateVariable : Type 0 where
  pub name : String
  pub initial : Bool

pub data StateVariable : Type 0 where
  int_variable : IntStateVariable → StateVariable
  bool_variable : BoolStateVariable → StateVariable

unfoldable pub variable_name : StateVariable → String
variable_name (int_variable v) = v.name
variable_name (bool_variable v) = v.name

-- `linearization_points` maps every name to the one literal "effect_commit": its keys are kept.
pub record LockProtocolMetadata : Type 0 where
  pub lock_variable : String
  pub lock_states : List String
  pub unlocked_value : Option ℤ
  pub actor_lock_values : Option (List ℤ)
  pub linearization_points : Option (List String)

pub record Guard : Type 0 where
  pub id : String
  pub expression : Expr

pub record Effect : Type 0 where
  pub id : String
  pub target : String
  pub value : Expr

pub data ReturnType : Type 0 where
  void boolean : ReturnType

pub data FailureSemantics : Type 0 where
  unavailable false_and_stutter exception : FailureSemantics

abbrev pub stutters : FailureSemantics → Bool
stutters false_and_stutter = true
stutters _ = false

abbrev pub is_unavailable : FailureSemantics → Bool
is_unavailable unavailable = true
is_unavailable _ = false

pub record Operation : Type 0 where
  pub name : String
  pub return_type : ReturnType
  pub failure_semantics : FailureSemantics
  pub guards : List Guard
  pub effects : List Effect
  pub frame : List String
  pub exception_type : Option String
  pub exception_trigger : Option Expr

pub record Invariant : Type 0 where
  pub id : String
  pub expression : Expr

pub data ExecutionModel : Type 0 where
  async_message_passing : ExecutionModel

pub record DomainSpec : Type 0 where
  pub domain_name : String
  pub module_name : String
  pub actors : ℕ
  pub execution_model : Option ExecutionModel
  pub concurrency : Option LockProtocolMetadata
  pub capacity_bound : Option ℤ
  pub hardware_safe_capacity : Option ℤ
  pub pool_counter : Option String
  pub hardware_profile_sha256 : Option String
  pub hardware_proof_sha256 : Option String
  pub struct_size_bytes : Option ℤ
  pub state_variables : List StateVariable
  pub operations : List Operation
  pub tlc_invariants : List Invariant
