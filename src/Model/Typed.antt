-- ===== src/Model/Typed.antt =====
-- `_expression_type` of pipeline/domain_v2.py against `evaluate_expression` of
-- pipeline/domain_v2_model.py.
use formalspecgen.Prelude.{not}
use formalspecgen.Prelude.{String, ◌≡◌, refl, some, arith}
use formalspecgen.Result.{ok, or_raise-eq-ok, >>=-eq-ok}
use formalspecgen.Domain.{
  Expr, field_expr, integer_expr, boolean_expr, old_expr, not_expr, binary_expr, BinaryKind, eq,
}
use formalspecgen.Domain.Typing.{
  Sort, int_sort, bool_sort, FieldTypes, lookup_type, binary_type, expression_type,
}
use formalspecgen.Model.Value.{Value, int, bool, truth, apply_kind}
use formalspecgen.Model.Evaluate.{Fields, lookup, evaluate_expression}

abbrev pub sort_of : Value → Sort
sort_of (int _) = int_sort
sort_of (bool _) = bool_sort

-- The state has every declared field, at its type.
pub record IsTyped (types : FieldTypes) (s : Fields) : Type 0 where
  pub at :
      (k : String) (t : Sort)
      → lookup_type k types ≡ some t
      → (v : Value) × (lookup k s ≡ some v) × (sort_of v ≡ t)

abbrev EvaluatesTo : Expr → Fields → Sort → Type 0
EvaluatesTo e s t = (v : Value) × (evaluate_expression e s ≡ ok v) × (sort_of v ≡ t)

apply_kind-sort :
    (kind : BinaryKind) (a b : Value) {t : Sort}
    → binary_type kind (sort_of a) (sort_of b) ≡ ok t
    → sort_of (apply_kind kind a b) ≡ t
unfolding binary_type apply_kind
apply_kind-sort eq a b h = ground arith
apply_kind-sort _ a b h = ground arith

-- An accepted expression is evaluated without an exception, to a value of the inferred type.
pub evaluate_expression-IsTyped :
    (e : Expr) (types : FieldTypes) (s : Fields) (t : Sort)
    → IsTyped types s
    → expression_type e types ≡ ok t
    → (v : Value) × (evaluate_expression e s ≡ ok v) × (sort_of v ≡ t)
unfolding evaluate_expression expression_type
evaluate_expression-IsTyped (field_expr name) types s t h p =
    let (v, found, sort) = h.at name t (or_raise-eq-ok _ _ p) in (v, rw found, sort)
evaluate_expression-IsTyped (integer_expr z) types s t h p = (int z, refl, cc)
evaluate_expression-IsTyped (boolean_expr b) types s t h p = (bool b, refl, cc)
evaluate_expression-IsTyped (old_expr e) types s t h p = evaluate_expression-IsTyped e types s t h p
evaluate_expression-IsTyped (not_expr e) types s t h p =
    let (u, typed, rest) = >>=-eq-ok (expression_type e types) _ p in
    let (v, run, _) = evaluate_expression-IsTyped e types s u h typed in
    (bool (not (truth v)), rw run, ground arith)
evaluate_expression-IsTyped (binary_expr kind l r) types s t h p =
    let (u, typed_l, rest) = >>=-eq-ok (expression_type l types) _ p in
    let (w, typed_r, last) = >>=-eq-ok (expression_type r types) _ rest in
    let (a, run_l, sort_l) = evaluate_expression-IsTyped l types s u h typed_l in
    let (b, run_r, sort_r) = evaluate_expression-IsTyped r types s w h typed_r in
    (apply_kind kind a b, rw (run_l, run_r), apply_kind-sort kind a b (rw (sort_l, sort_r) last))
