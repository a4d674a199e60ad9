-- ===== src/Invariants.antt =====
-- pipeline/v2_invariants.py: canonical conjunctions of invariants.
pub mod Canonical
pub mod Equivalence
pub mod Meaning
use formalspecgen.Domain.{
  BinaryKind, Expr, and, binary_expr, boolean_expr, field_expr, gt, gte, integer_expr, lt, lte,
  not_expr, old_expr,
}
use formalspecgen.Prelude.{List, [], pos, suc, zero, ℕ, ◌++◌, ◌∷◌}
use formalspecgen.Prelude.Int.{◌+ℤ◌, ◌-ℤ◌}

-- The comparison without `gt` and `gte`: the kind and the two sides, from those given.
unfoldable pub oriented : BinaryKind → Expr → Expr → BinaryKind × Expr × Expr
oriented gte l r = (lte, r, l)
oriented gt l r = (lt, r, l)
oriented kind l r = (kind, l, r)

-- `lt` against a literal becomes `lte`; a literal on the right side goes first.
unfoldable pub tightened : BinaryKind → Expr → Expr → Expr
tightened lt l (integer_expr z) = binary_expr lte l (integer_expr (z -ℤ pos 1))
tightened lt (integer_expr z) r = binary_expr lte (integer_expr (z +ℤ pos 1)) r
tightened kind l r = binary_expr kind l r

unfoldable pub normalize_comparison : Expr → Expr
unfolding oriented tightened
normalize_comparison (binary_expr kind l r) =
    let (k, a, b) = oriented kind (normalize_comparison l) (normalize_comparison r) in
    tightened k a b
normalize_comparison (field_expr name) = field_expr name
normalize_comparison (integer_expr z) = integer_expr z
normalize_comparison (boolean_expr b) = boolean_expr b
normalize_comparison (old_expr e) = old_expr e
normalize_comparison (not_expr e) = not_expr e

-- The generator recurs on the two sides of the normalised conjunction, which is no part of the
-- expression given: it takes fuel, and the depth of the expression is enough.
unfoldable pub conjuncts_of : (Expr → List Expr) → Expr → List Expr
conjuncts_of again (binary_expr and l r) = again l ++ again r
conjuncts_of again e = e ∷ []

unfoldable pub conjuncts : ℕ → Expr → List Expr
unfolding conjuncts_of
conjuncts zero e = normalize_comparison e ∷ []
conjuncts (suc fuel) e = conjuncts_of (conjuncts fuel) (normalize_comparison e)
