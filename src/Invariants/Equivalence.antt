-- ===== src/Invariants/Equivalence.antt =====
-- `canonical_invariant_expressions` of pipeline/v2_invariants.py against the evaluator and the
-- declared bounds of pipeline/domain_v2_model.py.
use mathlib.Core.List.{flat_map}
use mathlib.Core.Path.{ap₂, subst}
use formalspecgen.Domain.{
  DomainSpec, Expr, Invariant, StateVariable, binary_expr, bool_variable, field_expr, int_variable,
  integer_expr, lte,
}
use formalspecgen.Invariants.{conjuncts, normalize_comparison}
use formalspecgen.Invariants.Canonical.{
  added, canonical_invariant_expressions, collected, distinct, is_seen, kept, type_bounds,
}
use formalspecgen.Invariants.Meaning.{
  All-append, IsTrue, IsTrue-normalize, both, conjuncts-IsTrue, depth, returned, value_of,
  value_of-binary,
}
use formalspecgen.Model.Evaluate.{Fields, evaluate_expression, lookup, unknown_field}
use formalspecgen.Model.Value.{Value, apply_kind, as_int, bool, int, truth}
use formalspecgen.Prelude.{
  All, In, List, Option, String, [], ap, arith, inl, inr, none, refl, some, some_injective, sym,
  true, ℤ, ◌↔◌, ◌∙◌, ◌∷◌, ◌≡◌,
}
use formalspecgen.Prelude.Int.{leb_ℤ, ◌≤ℤ◌}
use formalspecgen.Result.{or_raise}

module _ {K : Type 0} (same : Discrete K) (model_dump_json : Expr → K) (s : Fields) where
  distinct-All :
      (seen : List K) (es : List Expr)
      → All (IsTrue s) es
      → All (IsTrue s) (distinct same model_dump_json seen es)
  unfolding distinct
  distinct-All seen [] h = tt
  distinct-All seen (e ∷ es) (h, hs) =
      step (is_seen same (model_dump_json (normalize_comparison e)) seen)
        (λ seen'. distinct-All seen' es hs)
    where
      step :
          (d : Dec (In (model_dump_json (normalize_comparison e)) seen))
          → ((seen' : List K) → All (IsTrue s) (distinct same model_dump_json seen' es))
          → All (IsTrue s) (
              kept d (normalize_comparison e) (
                distinct same model_dump_json
                  (added d (model_dump_json (normalize_comparison e)) seen)
                  es))
      step (yes m) again = again _
      step (no _) again = ((IsTrue-normalize s e).1 h, again _)

  module _ (told_apart : (a b : Expr) → model_dump_json a ≡ model_dump_json b → a ≡ b) where
    All-distinct :
        (seen : List K) (es : List Expr)
        → ((e : Expr) → In (model_dump_json (normalize_comparison e)) seen → IsTrue s e)
        → All (IsTrue s) (distinct same model_dump_json seen es)
        → All (IsTrue s) es
    unfolding distinct
    All-distinct seen [] known h = tt
    All-distinct seen (e ∷ es) known h =
        step (is_seen same (model_dump_json (normalize_comparison e)) seen) h
          (λ seen'. All-distinct seen' es)
      where
        step :
            (d : Dec (In (model_dump_json (normalize_comparison e)) seen))
            → All (IsTrue s) (
                kept d (normalize_comparison e) (
                  distinct same model_dump_json
                    (added d (model_dump_json (normalize_comparison e)) seen)
                    es))
            → ((seen' : List K)
                → ((e : Expr) → In (model_dump_json (normalize_comparison e)) seen' → IsTrue s e)
                → All (IsTrue s) (distinct same model_dump_json seen' es)
                → All (IsTrue s) es)
            → IsTrue s e × All (IsTrue s) es
        step (yes m) k again = (known e m, again seen known k)
        step (no _) (k, ks) again = (
          (IsTrue-normalize s e).0 k,
          again _
              (λ e' m. elim m [
                | inl e_n ↦
                    (IsTrue-normalize s e').0 (subst (IsTrue s) (sym (told_apart _ _ e_n)) k)
                | inr m' ↦ known e' m'
              ])
              ks,
        )

-- The integer variable has a value, which as an `int` is within its bounds.
abbrev pub IsBounded : Fields → StateVariable → Type 0
IsBounded s (int_variable v) =
    (x : Value) × (lookup v.name s ≡ some x) × (v.lower ≤ℤ as_int x) × (as_int x ≤ℤ v.upper)
IsBounded s (bool_variable v) = Unit

leb_ℤ_iff : (a b : ℤ) → (leb_ℤ a b ≡ true) ↔ (a ≤ℤ b)
leb_ℤ_iff a b = ground arith

value_of-field : (name : String) (s : Fields) → value_of (field_expr name) s ≡ lookup name s
unfolding evaluate_expression
value_of-field name s =
    elim (lookup name s) as (λ o. returned (or_raise o (unknown_field name)) ≡ o) [
      | none ↦ refl
      | some x ↦ refl
    ]

value_of-integer : (z : ℤ) (s : Fields) → value_of (integer_expr z) s ≡ some (int z)
unfolding evaluate_expression
value_of-integer z s = refl

abbrev Ordered : Option Value → Option Value → Type 0
Ordered l r = (a b : Value) × (l ≡ some a) × (r ≡ some b) × (as_int a ≤ℤ as_int b)

both-Ordered :
    (l r : Option Value) (v : Value) → both lte l r ≡ some v → truth v ≡ true → Ordered l r
unfolding apply_kind truth
both-Ordered (some a) (some b) v h t =
    let e : bool (leb_ℤ (as_int a) (as_int b)) ≡ v = cc in
    (a, b, refl, refl, (leb_ℤ_iff (as_int a) (as_int b)).0 (rw (← e) at t))
both-Ordered (some a) none v h t = cc
both-Ordered none r v h t = cc

IsTrue-lte :
    (s : Fields) (l r : Expr)
    → IsTrue s (binary_expr lte l r) ↔ Ordered (value_of l s) (value_of r s)
IsTrue-lte s l r = (
  λ (v, h, t). both-Ordered _ _ v (sym (value_of-binary lte l r s) ∙ h) t,
  λ (a, b, p, q, le). (
    bool true,
    value_of-binary lte l r s
        ∙ ap₂ (both lte) p q
        ∙ (unfold apply_kind in ap (λ t. some (bool t)) ((leb_ℤ_iff (as_int a) (as_int b)).1 le)),
    unfold truth in refl,
  ),
)

type_bounds-IsTrue :
    (s : Fields) (v : StateVariable) → All (IsTrue s) (type_bounds v) ↔ IsBounded s v
unfolding type_bounds
type_bounds-IsTrue s (bool_variable v) = (λ h. tt, λ h. tt)
type_bounds-IsTrue s (int_variable v) = (
  λ (low, (high, _)).
      let (a, x, ea, ex, le) = (IsTrue-lte s _ _).0 low in
      let (y, b, ey, eb, le') = (IsTrue-lte s _ _).0 high in
      let fx = sym (value_of-field v.name s) ∙ ex in
      let fy = sym (value_of-field v.name s) ∙ ey in
      let ia : int v.lower ≡ a = some_injective (sym (value_of-integer v.lower s) ∙ ea) in
      let ib : int v.upper ≡ b = some_injective (sym (value_of-integer v.upper s) ∙ eb) in
      let xy : y ≡ x = some_injective (sym fy ∙ fx) in
      (
        x,
        fx,
        subst (λ w. as_int w ≤ℤ as_int x) (sym ia) le,
        subst (λ w. as_int x ≤ℤ as_int w) (sym ib) (subst (λ w. as_int w ≤ℤ as_int b) xy le'),
      ),
  λ (x, found, low, high).
      let f = value_of-field v.name s ∙ found in
      (
        (IsTrue-lte s _ _).1 (int v.lower, x, value_of-integer v.lower s, f, low),
        ((IsTrue-lte s _ _).1 (x, int v.upper, f, value_of-integer v.upper s, high), tt),
      ),
)

All-flat_map :
    {A : Type 0} (f : A → List Expr) (xs : List A) (s : Fields)
    → All (IsTrue s) (flat_map f xs) ↔ All (λ x. All (IsTrue s) (f x)) xs
unfolding flat_map
All-flat_map f [] s = (λ h. tt, λ h. tt)
All-flat_map f (x ∷ xs) s =
    let split = All-append (IsTrue s) (f x) (flat_map f xs) in
    let ih = All-flat_map f xs s in
    (λ h. ((split.0 h).0, ih.0 (split.0 h).1), λ h. split.1 (h.0, ih.1 h.1))

All-map :
    {A : Type 0} {P Q : A → Type 0} (xs : List A) → ((x : A) → P x → Q x) → All P xs → All Q xs
All-map [] f h = tt
All-map (x ∷ xs) f h = (f x h.0, All-map xs f h.1)

collected-IsTrue :
    (spec : DomainSpec) (s : Fields)
    → All (IsTrue s) (collected spec) ↔ (
        All (IsBounded s) spec.state_variables
        × All (λ i. IsTrue s i.expression) spec.tlc_invariants)
unfolding collected
collected-IsTrue spec s =
    let split = All-append (IsTrue s) (flat_map type_bounds spec.state_variables) _ in
    let vs = All-flat_map type_bounds spec.state_variables s in
    let is =
      All-flat_map (λ (i : Invariant). conjuncts (depth i.expression) i.expression)
        spec.tlc_invariants s in
    (
      λ h. (
        All-map spec.state_variables (λ v. (type_bounds-IsTrue s v).0) (vs.0 (split.0 h).0),
        All-map spec.tlc_invariants (λ i. (conjuncts-IsTrue s _ i.expression).0)
            (is.0 (split.0 h).1),
      ),
      λ (b, i). split.1 (
        vs.1 (All-map spec.state_variables (λ v. (type_bounds-IsTrue s v).1) b),
        is.1 (All-map spec.tlc_invariants (λ i. (conjuncts-IsTrue s _ i.expression).1) i),
      ),
    )

-- If the dump of an expression tells it apart from all others, the canonical expressions are all
-- true in a state exactly when every integer variable has a value within its bounds there and all
-- invariants of the domain are true.
pub canonical_invariant_expressions_lem :
    {K : Type 0} (same : Discrete K) (model_dump_json : Expr → K)
    → ((a b : Expr) → model_dump_json a ≡ model_dump_json b → a ≡ b)
    → (spec : DomainSpec) (s : Fields)
    → All (IsTrue s) (canonical_invariant_expressions same model_dump_json spec) ↔ (
        All (IsBounded s) spec.state_variables
        × All (λ i. IsTrue s i.expression) spec.tlc_invariants)
unfolding canonical_invariant_expressions
canonical_invariant_expressions_lem same model_dump_json told_apart spec s =
    let c = collected-IsTrue spec s in
    (
      λ h.
          c.0 (
            All-distinct same model_dump_json s told_apart [] (collected spec) (λ e m. absurd m) h),
      λ h. distinct-All same model_dump_json s [] (collected spec) (c.1 h),
    )
