-- ===== src/Model/Value.antt =====
-- The scalars that a state holds, as Python treats them: a `bool` is an `int` in arithmetic and in
-- comparisons, and every scalar has a truth value.
use formalspecgen.Prelude.{ℤ, pos, Bool, true, false, not, ◌&&◌, ◌||◌}
use formalspecgen.Prelude.Int.{◌+ℤ◌, ◌-ℤ◌, eqb_ℤ, ltb_ℤ, leb_ℤ}
use formalspecgen.Domain.{BinaryKind, eq, neq, lt, lte, gt, gte, add, sub, implies, and, or}

pub data Value : Type 0 where
  int : ℤ → Value
  bool : Bool → Value

abbrev pub as_int : Value → ℤ
as_int (int z) = z
as_int (bool true) = pos 1
as_int (bool false) = pos 0

-- `bool(value)`
unfoldable pub truth : Value → Bool
truth (int z) = not (eqb_ℤ z (pos 0))
truth (bool b) = b

-- `left == right`
unfoldable pub value_eq : Value → Value → Bool
value_eq a b = eqb_ℤ (as_int a) (as_int b)

-- The table `functions` of `evaluate_expression`.
unfoldable pub apply_kind : BinaryKind → Value → Value → Value
unfolding truth value_eq
apply_kind eq a b = bool (value_eq a b)
apply_kind neq a b = bool (not (value_eq a b))
apply_kind lt a b = bool (ltb_ℤ (as_int a) (as_int b))
apply_kind lte a b = bool (leb_ℤ (as_int a) (as_int b))
apply_kind gt a b = bool (ltb_ℤ (as_int b) (as_int a))
apply_kind gte a b = bool (leb_ℤ (as_int b) (as_int a))
apply_kind add a b = int (as_int a +ℤ as_int b)
apply_kind sub a b = int (as_int a -ℤ as_int b)
apply_kind implies a b = bool (not (truth a) || truth b)
apply_kind and a b = bool (truth a && truth b)
apply_kind or a b = bool (truth a || truth b)
