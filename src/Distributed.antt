-- ===== src/Distributed.antt =====
-- pipeline/distributed.py: the injection of network faults into a domain with message slots.
-- Python's failures on the way are errors: a field that is not declared (StopIteration), a field
-- that is no bounded integer (AttributeError), and a swap of a field with itself, whose frame the
-- schema of operations refuses.
pub mod Verify
pub mod Faults
pub mod Refines
use Prim.Native.String.{◌++◌ as text_append}
use mathlib.Core.List.{flat_map}
use formalspecgen.Domain.{
  DomainSpec, Expr, IntStateVariable, Operation, binary_expr, bool_variable, eq, field_expr,
  int_variable, integer_expr, unavailable, void,
}
use formalspecgen.Domain.Schema.{find_variable}
use formalspecgen.Prelude.{
  List, String, [], if◌then◌else◌, map, none, pos, some, str_eq, suc, zero, ℕ, ℤ, ◌++◌, ◌∷◌,
}
use formalspecgen.Prelude.Int.{eqb_ℤ, pos_part, ◌+ℤ◌, ◌-ℤ◌}
use formalspecgen.Result.{Result, err, ok, refuse, ◌>>=◌, ◌>>◌}

pub data FaultError : Type 0 where
  no_such_field not_bounded frame_not_unique : String → FaultError

-- `_eq`
unfoldable pub equals : String → ℤ → Expr
equals field value = binary_expr eq (field_expr field) (integer_expr value)

-- `_sentinel_of` and `_slot_values` look the variable up: its initial value and its bound.
unfoldable pub slot_of : DomainSpec → String → Result FaultError IntStateVariable
slot_of spec field = elim (find_variable field spec.state_variables) [
  | none ↦ err (no_such_field field)
  | some (bool_variable _) ↦ err (not_bounded field)
  | some (int_variable v) ↦ ok v
]

-- `range(lower, lower + n)`
unfoldable pub range_ℤ : ℤ → ℕ → List ℤ
range_ℤ lower zero = []
range_ℤ lower (suc n) = lower ∷ range_ℤ (lower +ℤ pos 1) n

-- The number of values from `lower` to `upper`.
unfoldable pub span : ℤ → ℤ → ℕ
unfolding ◌-ℤ◌ ◌+ℤ◌
span lower upper = pos_part (upper -ℤ lower +ℤ pos 1)

unfoldable pub slot_values : IntStateVariable → List ℤ
slot_values v = range_ℤ v.lower (span v.lower v.upper)

-- `[value for value in values if value != sentinel]`
unfoldable pub without : ℤ → List ℤ → List ℤ
without sentinel [] = []
without sentinel (z ∷ zs) =
    let rest = without sentinel zs in if eqb_ℤ z sentinel then rest else z ∷ rest

unfoldable pub occupied_values : IntStateVariable → List ℤ
occupied_values v = without v.initial (slot_values v)

-- An operation that is enabled by literal values of fields, and assigns literals.
unfoldable pub fault_operation :
    String → List (String × String × ℤ) → List (String × String × ℤ) → Operation
fault_operation name tests writes = record {
  name = name;
  return_type = void;
  failure_semantics = unavailable;
  guards =
      map (λ (t : String × String × ℤ). record { id = t.0; expression = equals t.1 t.2 }) tests;
  effects =
      map (λ (w : String × String × ℤ). record { id = w.0; target = w.1; value = integer_expr w.2 })
        writes;
  frame = map (λ (w : String × String × ℤ). w.1) writes;
  exception_type = none;
  exception_trigger = none;
}

unfoldable pub drop_operation : String → ℤ → ℤ → Operation
drop_operation field sentinel value =
    fault_operation (text_append "DropMsg_" field) (("fg", field, value) ∷ [])
      (("fe", field, sentinel) ∷ [])

unfoldable pub duplicate_operation : String → String → ℤ → ℤ → Operation
duplicate_operation source target sentinel value =
    fault_operation (text_append "DuplicateMsg_" (text_append source (text_append "_to_" target)))
      (("fg1", source, value) ∷ ("fg2", target, sentinel) ∷ []) (("fe", target, value) ∷ [])

unfoldable pub reorder_operation : String → String → ℤ → ℤ → Operation
reorder_operation left right lv rv =
    fault_operation (text_append "ReorderMsg_" (text_append left (text_append "_" right)))
      (("fg1", left, lv) ∷ ("fg2", right, rv) ∷ []) (("fe1", left, rv) ∷ ("fe2", right, lv) ∷ [])

-- The lists of all rounds of a loop, one after the other.
unfoldable pub gather :
    {A : Type 0}
    → (A → Result FaultError (List Operation))
    → List A
    → Result FaultError (List Operation)
gather body [] = ok []
gather body (x ∷ xs) = do first ← body x; rest ← gather body xs; ok (first ++ rest)

-- `for index, x in enumerate(xs): for y in xs[index + 1:]`
unfoldable pub pairs : List String → List (String × String)
pairs [] = []
pairs (x ∷ xs) = map (λ y. (x, y)) xs ++ pairs xs

unfoldable pub drop_faults : DomainSpec → String → Result FaultError (List Operation)
drop_faults spec field = do
  v ← slot_of spec field
  ok (map (drop_operation field v.initial) (occupied_values v))

unfoldable pub duplicate_faults : DomainSpec → String × String → Result FaultError (List Operation)
duplicate_faults spec (source, target) = do
  v ← slot_of spec source
  w ← slot_of spec target
  ok (
      map (duplicate_operation source target w.initial) (occupied_values v)
      ++ map (duplicate_operation target source v.initial) (occupied_values w))

unfoldable pub reorder_faults : DomainSpec → String × String → Result FaultError (List Operation)
reorder_faults spec (left, right) = do
  v ← slot_of spec left
  w ← slot_of spec right
  refuse (str_eq left right) (frame_not_unique left)
  ok (
      flat_map (λ lv. map (reorder_operation left right lv) (occupied_values w))
        (occupied_values v))

unfoldable pub fault_actions :
    DomainSpec → List String → String → Result FaultError (List Operation)
fault_actions spec fields fault =
    if str_eq fault "message_loss"
    then gather (drop_faults spec) fields
    else if str_eq fault "duplication"
    then gather (duplicate_faults spec) (pairs fields)
    else if str_eq fault "reordering"
    then gather (reorder_faults spec) (pairs fields)
    else ok []

unfoldable pub inject_fault_actions :
    DomainSpec → List String → List String → Result FaultError (List Operation)
inject_fault_actions spec faults message_fields = gather (fault_actions spec message_fields) faults
