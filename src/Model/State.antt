-- ===== src/Model/State.antt =====
-- A state of the exploration, its identity in the set of discovered states (`_freeze`), and the
-- checks `_check_bounds` and `_check_invariants` of pipeline/domain_v2_model.py. The dict of the
-- source holds three bookkeeping keys beside the declared variables, "__pc", "__pending" and
-- "callResult": here they are fields of a record, so a declared variable cannot overwrite them.
use formalspecgen.Prelude.{
  String, Bool, true, false, ◌&&◌, Option, some, List, [], ◌∷◌, all, length, ◌==◌, str_eq,
}
use formalspecgen.Prelude.Int.{leb_ℤ}
use formalspecgen.Result.{Result, ok, ◌>>=◌, ◌>>◌, or_raise, require}
use formalspecgen.Domain.{
  StateVariable, int_variable, bool_variable, variable_name, Invariant, DomainSpec,
}
use formalspecgen.Model.Value.{Value, int, bool, truth, value_eq}
use formalspecgen.Model.Evaluate.{
  Error, key_error, out_of_bounds, violates, Fields, lookup, evaluate_expression,
}

pub data Phase : Type 0 where
  idle invoked acquired linearized released : Phase

-- The strings "none", "true" and "false" of `callResult`.
pub data CallResult : Type 0 where
  no_result success failure : CallResult

pub record State : Type 0 where
  pub fields : Fields
  pub pcs : List Phase
  pub pending : List String
  pub results : List CallResult

abbrev pub phase_eq : Phase → Phase → Bool
phase_eq idle idle = true
phase_eq invoked invoked = true
phase_eq acquired acquired = true
phase_eq linearized linearized = true
phase_eq released released = true
phase_eq _ _ = false

abbrev pub result_eq : CallResult → CallResult → Bool
result_eq no_result no_result = true
result_eq success success = true
result_eq failure failure = true
result_eq _ _ = false

abbrev pub list_eq {ℓ} : {A : Type ℓ} → (A → A → Bool) → List A → List A → Bool
list_eq eq [] [] = true
list_eq eq (x ∷ xs) (y ∷ ys) = eq x y && list_eq eq xs ys
list_eq eq _ _ = false

abbrev pub found_eq : Option Value → Option Value → Bool
found_eq (some v) (some w) = value_eq v w
found_eq _ _ = false

-- Two dicts are equal if they have as many keys, and each key of one has an equal value in the other.
unfoldable pub fields_eq : Fields → Fields → Bool
fields_eq s t =
    (length s == length t) && all (λ item. found_eq (lookup item.0 s) (lookup item.0 t)) s

-- `_freeze(s) == _freeze(t)`
unfoldable pub same_state : State → State → Bool
unfolding fields_eq
same_state s t =
    fields_eq s.fields t.fields
    && (list_eq phase_eq s.pcs t.pcs
        && (list_eq str_eq s.pending t.pending && list_eq result_eq s.results t.results))

unfoldable pub fits : StateVariable → Value → Bool
fits (bool_variable v) (bool _) = true
fits (bool_variable v) (int _) = false
fits (int_variable v) (int z) = leb_ℤ v.lower z && leb_ℤ z v.upper
fits (int_variable v) (bool _) = false

unfoldable pub check_variables : List StateVariable → Fields → String → Result Error Unit
unfolding fits
check_variables [] s operation = ok tt
check_variables (v ∷ vs) s operation = do
  value ← or_raise (lookup (variable_name v) s) (key_error (variable_name v))
  require (fits v value) (out_of_bounds operation (variable_name v))
  check_variables vs s operation

unfoldable pub check_bounds : DomainSpec → Fields → String → Result Error Unit
check_bounds spec s operation = check_variables spec.state_variables s operation

unfoldable pub check_each : List Invariant → Fields → String → Result Error Unit
check_each [] s operation = ok tt
check_each (i ∷ is) s operation = do
  v ← evaluate_expression i.expression s
  require (truth v) (violates operation i.id)
  check_each is s operation

unfoldable pub check_invariants : DomainSpec → Fields → String → Result Error Unit
check_invariants spec s operation = check_each spec.tlc_invariants s operation
