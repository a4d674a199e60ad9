-- ===== src/Invariants/Canonical.antt =====
-- `canonical_invariant_expressions` of pipeline/v2_invariants.py. The text of `model_dump_json`, which
-- pydantic writes, is a parameter: its texts can be told apart.
use mathlib.Core.List.{flat_map}
use formalspecgen.Domain.{
  DomainSpec, Expr, StateVariable, binary_expr, bool_variable, field_expr, int_variable,
  integer_expr, lte,
}
use formalspecgen.Invariants.{conjuncts, normalize_comparison}
use formalspecgen.Invariants.Meaning.{depth}
use formalspecgen.Prelude.{In, List, [], inl, inr, ◌++◌, ◌∷◌}

-- `key not in seen`
unfoldable pub is_seen : {K : Type 0} → Discrete K → (k : K) (seen : List K) → Dec (In k seen)
is_seen same k [] = no (λ m. m)
is_seen same k (x ∷ xs) = elim (same k x) [
  | yes e ↦ yes (inl e)
  | no ne ↦ elim (is_seen same k xs) [
    | yes m ↦ yes (inr m)
    | no nm ↦ no (λ m. elim m [ inl e ↦ ne e | inr m' ↦ nm m' ])
  ]
]

abbrev pub added : {K P : Type 0} → Dec P → K → List K → List K
added (yes _) key seen = seen
added (no _) key seen = key ∷ seen

abbrev pub kept : {P : Type 0} → Dec P → Expr → List Expr → List Expr
kept (yes _) e rest = rest
kept (no _) e rest = e ∷ rest

-- The two expressions that a declared integer's bounds add.
unfoldable pub type_bounds : StateVariable → List Expr
type_bounds (int_variable v) =
    binary_expr lte (integer_expr v.lower) (field_expr v.name)
    ∷ binary_expr lte (field_expr v.name) (integer_expr v.upper)
    ∷ []
type_bounds (bool_variable v) = []

unfoldable pub collected : DomainSpec → List Expr
collected spec =
    flat_map type_bounds spec.state_variables
    ++ flat_map (λ i. conjuncts (depth i.expression) i.expression) spec.tlc_invariants

module _ {K : Type 0} (same : Discrete K) (model_dump_json : Expr → K) where
  -- The loop over the collected expressions, with the keys of those kept before.
  unfoldable pub distinct : List K → List Expr → List Expr
  distinct seen [] = []
  distinct seen (e ∷ es) =
      let normalized = normalize_comparison e in
      let key = model_dump_json normalized in
      let old = is_seen same key seen in kept old normalized (distinct (added old key seen) es)

  unfoldable pub canonical_invariant_expressions : DomainSpec → List Expr
  canonical_invariant_expressions spec = distinct [] (collected spec)
