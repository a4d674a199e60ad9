-- ===== src/Tests/Static.antt =====
-- Expressions, effects and the static analyses on small data.

use native.Mathlib.Decide.{ℕ_discrete}
use formalspecgen.Domain.{
  DomainSpec, Expr, Operation, add, and, binary_expr, field_expr, gte, integer_expr, unavailable,
  variable_name, void,
}
use formalspecgen.Domain.Typing.{FieldTypes, bool_sort, expression_type, int_sort, lookup_type}
use formalspecgen.Invariants.{conjuncts, normalize_comparison}
use formalspecgen.Invariants.Canonical.{canonical_invariant_expressions}
use formalspecgen.Invariants.Equivalence.{IsBounded, canonical_invariant_expressions_lem}
use formalspecgen.Invariants.Meaning.{
  IsNotAnd, IsTrue, conjuncts_lem, normalize_comparison-value_of, value_of,
}
use formalspecgen.Model.Deadlock.{
  entered_values, evaluate3, is_stuck, one_known, operation_admits, static_deadlock_findings,
  stuck_values, variable_findings,
}
use formalspecgen.Model.Effects.{apply_effects_commit}
use formalspecgen.Model.Evaluate.{
  Fields, apply_effects, evaluate_expression, guards_hold, insert, lookup,
}
use formalspecgen.Model.PartialSound.{static_deadlock_findings_sound}
use formalspecgen.Model.Typed.{IsTyped, evaluate_expression-IsTyped, sort_of}
use formalspecgen.Model.Value.{Value, apply_kind, int}
use formalspecgen.Prelude.{
  All, Bool-cases, String, [], arith, eq_iff, inl, inr, none, pos, refl, some, str_eq, true, ◌↔◌,
  ◌∷◌, ◌≡◌, ◌≢◌,
}
use formalspecgen.Prelude.Int.{◌+ℤ◌}
use formalspecgen.Result.{ok}
use formalspecgen.Samples.{counter, increment, x_lt}

abbrev counter_types : FieldTypes
counter_types = ("x", int_sort) ∷ []

abbrev at_one : Fields
at_one = ("x", int (pos 1)) ∷ []

at_one-IsTyped : IsTyped counter_types at_one
unfolding lookup_type lookup
at_one-IsTyped = record {
  at = λ k t h. elim (Bool-cases (str_eq "x" k)) [
    | inl same ↦ (int (pos 1), rw same, let q = rw same at h in cc q)
    | inr other ↦ let q = rw other at h in cc q
  ];
}

evaluate_expression-IsTyped_example :
    (v : Value) × (evaluate_expression (x_lt (pos 2)) at_one ≡ ok v) × (sort_of v ≡ bool_sort)
unfolding expression_type lookup_type
evaluate_expression-IsTyped_example =
    evaluate_expression-IsTyped (x_lt (pos 2)) counter_types at_one bool_sort at_one-IsTyped refl

apply_effects_commit_example :
    (v : Value) × (evaluate_expression
        (binary_expr add (field_expr "x") (integer_expr (pos 1)))
        at_one
      ≡ ok v)
    × (lookup "x" (("x", int (pos 2)) ∷ []) ≡ some v)
unfolding apply_effects evaluate_expression lookup insert apply_kind ◌+ℤ◌
apply_effects_commit_example =
    apply_effects_commit increment at_one (("x", int (pos 2)) ∷ []) _ refl (tt, tt) (inl refl)

-- An operation that stops the counter for good.
abbrev halt : Operation
halt = record {
  name = "Halt";
  return_type = void;
  failure_semantics = unavailable;
  guards = record { id = "g"; expression = x_lt (pos 2) } ∷ [];
  effects = record { id = "e"; target = "x"; value = integer_expr (pos 2) } ∷ [];
  frame = "x" ∷ [];
  exception_type = none;
  exception_trigger = none;
}

abbrev halting : DomainSpec
halting = record counter { operations = halt ∷ [] }

static_deadlock_findings_sound_example : guards_hold halt (("x", int (pos 2)) ∷ []) ≢ ok true
unfolding static_deadlock_findings variable_findings stuck_values is_stuck entered_values
    mathlib.Core.List.flat_map operation_admits one_known evaluate3 apply_kind variable_name lookup
static_deadlock_findings_sound_example =
    static_deadlock_findings_sound halting (record { field = "x"; value = pos 2 })
      (("x", int (pos 2)) ∷ []) halt (inl refl) refl (inl refl)

normalize_comparison-value_of_example :
    value_of (normalize_comparison (x_lt (pos 2))) at_one ≡ value_of (x_lt (pos 2)) at_one
normalize_comparison-value_of_example = normalize_comparison-value_of (x_lt (pos 2)) at_one

abbrev in_range : Expr
in_range = binary_expr and (binary_expr gte (field_expr "x") (integer_expr (pos 0))) (x_lt (pos 2))

conjuncts_lem_example :
    (All (IsTrue at_one) (conjuncts 2 in_range) ↔ IsTrue at_one in_range)
    × All IsNotAnd (conjuncts 2 in_range)
conjuncts_lem_example = conjuncts_lem 2 in_range at_one (omega arith)

-- The canonical expressions of the counter in a state within the bounds, with an expression for its
-- own dump.
same_text : Discrete String
same_text a b = elim (Bool-cases (str_eq a b)) [
  | inl same ↦ yes ((eq_iff a b).0 same)
  | inr other ↦ no (λ e. let q = (eq_iff a b).1 e in cc (q, other))
]

same_expr : Discrete Expr
same_expr = hlevel (same_text, ℕ_discrete)

canonical_invariant_expressions_lem_example :
    All (IsTrue at_one) (canonical_invariant_expressions same_expr (λ e. e) counter) ↔ (
      All (IsBounded at_one) counter.state_variables
      × All (λ i. IsTrue at_one i.expression) counter.tlc_invariants)
canonical_invariant_expressions_lem_example =
    canonical_invariant_expressions_lem same_expr (λ e. e) (λ a b h. h) counter at_one
