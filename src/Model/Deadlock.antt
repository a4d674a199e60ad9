-- ===== src/Model/Deadlock.antt =====
-- The static deadlock analysis of pipeline/domain_v2_model.py: partial evaluation with one known
-- field, and the values of a variable that no operation admits. `none` is the UNKNOWN marker.
use mathlib.Core.List.{flat_map, foldr}
use formalspecgen.Domain.{
  BinaryKind, DomainSpec, Effect, Expr, IntStateVariable, Operation, StateVariable, and,
  binary_expr, bool_variable, boolean_expr, field_expr, implies, int_variable, integer_expr,
  not_expr, old_expr, or, variable_name,
}
use formalspecgen.Model.Value.{Value, apply_kind, bool, int, truth}
use formalspecgen.Prelude.{
  Bool, List, Option, String, [], all, any, false, if◌then◌else◌, map, none, not, some, str_eq,
  true, ℤ, ◌&&◌, ◌++◌, ◌||◌, ◌∷◌,
}
use formalspecgen.Prelude.Int.{eqb_ℤ, ltb_ℤ}

-- A later assignment stands before an earlier one.
abbrev pub Env : Type 0
Env = List (String × Option Value)

-- `env.get(name, UNKNOWN)`
unfoldable pub env_get : String → Env → Option Value
env_get name [] = none
env_get name ((other, known) ∷ rest) = if str_eq other name then known else env_get name rest

-- `value is False`, `value is True`
abbrev pub is_false : Option Value → Bool
is_false (some (bool false)) = true
is_false _ = false

abbrev pub is_true : Option Value → Bool
is_true (some (bool true)) = true
is_true _ = false

abbrev pub negate : Option Value → Option Value
negate none = none
negate (some v) = some (bool (not (truth v)))

-- A connective of which an operand is unknown.
unfoldable pub partly_known : BinaryKind → Option Value → Option Value → Option Value
partly_known and l r = if is_false l || is_false r then some (bool false) else none
partly_known or l r = if is_true l || is_true r then some (bool true) else none
partly_known implies l r = if is_false l || is_true r then some (bool true) else none
partly_known _ l r = none

unfoldable pub combine3 : BinaryKind → Option Value → Option Value → Option Value
unfolding partly_known
combine3 kind (some a) (some b) = some (apply_kind kind a b)
combine3 kind none r = partly_known kind none r
combine3 kind (some a) none = partly_known kind (some a) none

unfoldable pub evaluate3 : Expr → Env → Option Value
unfolding env_get combine3
evaluate3 (field_expr name) env = env_get name env
evaluate3 (integer_expr z) env = some (int z)
evaluate3 (boolean_expr b) env = some (bool b)
evaluate3 (old_expr e) env = evaluate3 e env
evaluate3 (not_expr e) env = negate (evaluate3 e env)
evaluate3 (binary_expr kind l r) env = combine3 kind (evaluate3 l env) (evaluate3 r env)

unfoldable pub one_known : String → ℤ → DomainSpec → Env
one_known field value spec =
    (field, some (int value)) ∷ map (λ v. (variable_name v, none)) spec.state_variables

unfoldable pub operation_admits : Operation → String → ℤ → DomainSpec → Bool
operation_admits op field value spec =
    all (λ g. not (is_false (evaluate3 g.expression (one_known field value spec)))) op.guards

-- `sorted(set(…))`
unfoldable pub insert_sorted : ℤ → List ℤ → List ℤ
insert_sorted z [] = z ∷ []
insert_sorted z (y ∷ ys) =
    if eqb_ℤ z y then y ∷ ys else if ltb_ℤ z y then z ∷ y ∷ ys else y ∷ insert_sorted z ys

-- The literal that an effect assigns to the field, if it does.
unfoldable pub literals : String → List Effect → List ℤ
literals field [] = []
literals field (e ∷ es) = elim e.value [
  | integer_expr z ↦ if str_eq e.target field then z ∷ literals field es else literals field es
  | _ ↦ literals field es
]

unfoldable pub entered_values : IntStateVariable → List Operation → List ℤ
unfolding insert_sorted literals
entered_values v ops =
    foldr insert_sorted (v.initial ∷ []) (flat_map (λ op. literals v.name op.effects) ops)

pub record Finding : Type 0 where
  pub field : String
  pub value : ℤ

abbrev pub terminal_values : IntStateVariable → List ℤ
terminal_values v = elim v.terminal_states [ none ↦ [] | some zs ↦ zs ]

unfoldable pub is_stuck : DomainSpec → IntStateVariable → ℤ → Bool
is_stuck spec v value =
    not (any (eqb_ℤ value) (terminal_values v))
    && not (any (λ op. operation_admits op v.name value spec) spec.operations)

-- The values of one variable that are reported, in order.
unfoldable pub stuck_values : DomainSpec → IntStateVariable → List ℤ → List Finding
stuck_values spec v [] = []
stuck_values spec v (z ∷ zs) =
    let rest = stuck_values spec v zs in
    if is_stuck spec v z then record { field = v.name; value = z } ∷ rest else rest

unfoldable pub variable_findings : DomainSpec → List StateVariable → List Finding
variable_findings spec [] = []
variable_findings spec (int_variable v ∷ vs) =
    stuck_values spec v (entered_values v spec.operations) ++ variable_findings spec vs
variable_findings spec (bool_variable v ∷ vs) = variable_findings spec vs

unfoldable pub static_deadlock_findings : DomainSpec → List Finding
static_deadlock_findings spec = variable_findings spec spec.state_variables
