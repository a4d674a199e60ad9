-- ===== src/Model/Evaluate.antt =====
-- `evaluate_expression`, `guards_hold` and `apply_effects` of pipeline/domain_v2_model.py. A state
-- is a Python dict: an association list that is updated in place, where a new key goes to the end.
use formalspecgen.Domain.{
  Effect, Expr, Guard, Operation, binary_expr, boolean_expr, field_expr, integer_expr, not_expr,
  old_expr,
}
use formalspecgen.Model.Value.{Value, apply_kind, bool, int, truth}
use formalspecgen.Prelude.{
  Bool, List, Option, String, [], arith, eq_iff, false, if◌then◌else◌, none, not, refl, some,
  str_eq, true, ◌∷◌, ◌≡◌,
}
use formalspecgen.Result.{Result, ok, or_raise, ◌>>=◌}

abbrev pub Fields : Type 0
Fields = List (String × Value)

-- The exceptions of the module: `V2ValidationError` in four forms, `UnsupportedV2Boundary` in
-- three, and Python's own failures.
pub data Error : Type 0 where
  unknown_field : String → Error
  out_of_bounds : String → String → Error
  violates : String → String → Error
  no_enabled_transition : Error
  states_exceeded transitions_exceeded work_exceeded : Error
  not_positive : String → Error
  key_error : String → Error
  index_error stop_iteration assertion_error : Error

unfoldable pub lookup : String → Fields → Option Value
lookup name [] = none
lookup name ((other, held) ∷ rest) = if str_eq other name then some held else lookup name rest

-- `d[name] = value`
unfoldable pub insert : String → Value → Fields → Fields
insert name value ((other, held) ∷ rest) =
    if str_eq other name then (other, value) ∷ rest else (other, held) ∷ insert name value rest
insert name value [] = (name, value) ∷ []

unfoldable pub evaluate_expression : Expr → Fields → Result Error Value
evaluate_expression (field_expr name) s = or_raise (lookup name s) (unknown_field name)
evaluate_expression (integer_expr z) s = ok (int z)
evaluate_expression (boolean_expr b) s = ok (bool b)
evaluate_expression (old_expr e) s = evaluate_expression e s
evaluate_expression (not_expr e) s = do v ← evaluate_expression e s; ok (bool (not (truth v)))
evaluate_expression (binary_expr kind l r) s = do
  a ← evaluate_expression l s
  b ← evaluate_expression r s
  ok (apply_kind kind a b)

-- `all(…)` over the guards stops at the first that is false.
unfoldable pub all_hold : List Guard → Fields → Result Error Bool
all_hold [] s = ok true
all_hold (g ∷ gs) s =
    let rest = all_hold gs s in
    evaluate_expression g.expression s >>= λ v. if truth v then rest else ok false

unfoldable pub guards_hold : Operation → Fields → Result Error Bool
unfolding all_hold
guards_hold op s = all_hold op.guards s

-- The right sides are evaluated in the state before, in the order of the effects.
unfoldable pub compute_effects : List Effect → Fields → Result Error Fields
compute_effects [] pre = ok []
compute_effects (e ∷ es) pre = do
  v ← evaluate_expression e.value pre
  rest ← compute_effects es pre
  ok ((e.target, v) ∷ rest)

-- `d.update(computed)`
unfoldable pub update : Fields → Fields → Fields
update s [] = s
update s ((k, v) ∷ m) = update (insert k v s) m

unfoldable pub apply_effects : Operation → Fields → Result Error Fields
unfolding compute_effects update
apply_effects op pre = do computed ← compute_effects op.effects pre; ok (update pre computed)

-- What a dict holds under a name after an assignment.
pub lookup-insert :
    (name asked : String) (value : Value) (s : Fields)
    → lookup asked (insert name value s)
      ≡ (if str_eq name asked then some value else lookup asked s)
unfolding lookup insert
lookup-insert name asked value ((other, held) ∷ rest) = ground (
  arith,
  lookup-insert name asked value rest,
  eq_iff other asked,
  eq_iff other name,
  eq_iff name asked,
)
lookup-insert name asked value [] = refl
