-- ===== src/Domain/Typing.antt =====
-- `_expression_type` of pipeline/domain_v2.py: the closed scalar type of an expression.
use formalspecgen.Prelude.{
  String, Bool, true, false, ◌&&◌, if◌then◌else◌, str_eq, List, [], ◌∷◌, Option, none, some,
}
use formalspecgen.Result.{Result, ok, ◌>>=◌, ◌>>◌, require, or_raise}
use formalspecgen.Domain.{
  Expr, field_expr, integer_expr, boolean_expr, old_expr, not_expr, binary_expr, BinaryKind, eq,
  neq, add, sub, implies, and, or,
}

pub data Sort : Type 0 where
  int_sort bool_sort : Sort

pub data TypeError : Type 0 where
  undeclared : String → TypeError
  not_operand equality_operands : TypeError
  integer_operands boolean_operands : BinaryKind → TypeError

abbrev pub FieldTypes : Type 0
FieldTypes = List (String × Sort)

unfoldable pub lookup_type : String → FieldTypes → Option Sort
lookup_type k [] = none
lookup_type k ((j, t) ∷ m) = if str_eq j k then some t else lookup_type k m

abbrev pub same_sort : Sort → Sort → Bool
same_sort int_sort int_sort = true
same_sort bool_sort bool_sort = true
same_sort _ _ = false

-- The part of `_expression_type` behind the types of the two operands.
unfoldable pub binary_type : BinaryKind → Sort → Sort → Result TypeError Sort
binary_type eq l r = require (same_sort l r) equality_operands >> ok bool_sort
binary_type neq l r = require (same_sort l r) equality_operands >> ok bool_sort
binary_type add l r =
    require (same_sort l int_sort && same_sort r int_sort) (integer_operands add) >> ok int_sort
binary_type sub l r =
    require (same_sort l int_sort && same_sort r int_sort) (integer_operands sub) >> ok int_sort
binary_type implies l r =
    require (same_sort l bool_sort && same_sort r bool_sort) (boolean_operands implies)
    >> ok bool_sort
binary_type and l r =
    require (same_sort l bool_sort && same_sort r bool_sort) (boolean_operands and) >> ok bool_sort
binary_type or l r =
    require (same_sort l bool_sort && same_sort r bool_sort) (boolean_operands or) >> ok bool_sort
binary_type kind l r =
    require (same_sort l int_sort && same_sort r int_sort) (integer_operands kind) >> ok bool_sort

unfoldable pub expression_type : Expr → FieldTypes → Result TypeError Sort
unfolding binary_type
expression_type (field_expr name) fields = or_raise (lookup_type name fields) (undeclared name)
expression_type (integer_expr _) fields = ok int_sort
expression_type (boolean_expr _) fields = ok bool_sort
expression_type (old_expr e) fields = expression_type e fields
expression_type (not_expr e) fields = do
  operand ← expression_type e fields
  require (same_sort operand bool_sort) not_operand
  ok bool_sort
expression_type (binary_expr kind l r) fields = do
  left ← expression_type l fields
  right ← expression_type r fields
  binary_type kind left right
