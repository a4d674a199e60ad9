-- ===== src/Invariants/Meaning.antt =====
-- pipeline/v2_invariants.py against the evaluator of pipeline/domain_v2_model.py.
use Prim.Native.Nat.{max}
use mathlib.Core.Path.{ap₂}
use formalspecgen.Domain.{
  BinaryKind, Expr, and, binary_expr, boolean_expr, field_expr, gt, gte, integer_expr, lt, lte,
  not_expr, old_expr,
}
use formalspecgen.Invariants.{conjuncts, conjuncts_of, normalize_comparison, oriented, tightened}
use formalspecgen.Model.Evaluate.{Error, Fields, evaluate_expression}
use formalspecgen.Model.Value.{Value, apply_kind, as_int, bool, int, truth}
use formalspecgen.Prelude.{
  All, List, Option, [], and_true, ap, arith, none, pos, refl, some, suc, sym, true, zero, ℕ, ℤ,
  ◌&&◌, ◌++◌, ◌↔◌, ◌∙◌, ◌∷◌, ◌≡◌, ◌≤◌,
}
use formalspecgen.Prelude.Int.{ltb-eq-leb-pred, ltb-eq-leb-succ, ◌+ℤ◌, ◌-ℤ◌}
use formalspecgen.Result.{Result, err, ok, ◌>>=◌}

-- The value of an expression, if its evaluation raises nothing.
abbrev pub returned : Result Error Value → Option Value
returned (ok v) = some v
returned (err _) = none

abbrev pub value_of : Expr → Fields → Option Value
value_of e s = returned (evaluate_expression e s)

abbrev pub both : BinaryKind → Option Value → Option Value → Option Value
both kind (some a) (some b) = some (apply_kind kind a b)
both kind (some a) none = none
both kind none r = none

pub value_of-binary :
    (kind : BinaryKind) (l r : Expr) (s : Fields)
    → value_of (binary_expr kind l r) s ≡ both kind (value_of l s) (value_of r s)
unfolding evaluate_expression
value_of-binary kind l r s = by_results (evaluate_expression l s) (evaluate_expression r s)
  where
    by_results :
        (a b : Result Error Value)
        → returned (a >>= λ x. b >>= λ y. ok (apply_kind kind x y))
          ≡ both kind (returned a) (returned b)
    by_results (ok a) (ok b) = refl
    by_results (ok a) (err e) = refl
    by_results (err e) b = refl

oriented_sound :
    (kind : BinaryKind) (l r : Expr) (s : Fields)
    → both
        (oriented kind l r).0
        (value_of (oriented kind l r).1 s)
        (value_of (oriented kind l r).2 s)
      ≡ both kind (value_of l s) (value_of r s)
unfolding oriented
oriented_sound gte l r s = swap_gte (value_of l s) (value_of r s)
  where
    swap_gte : (a b : Option Value) → both lte b a ≡ both gte a b
    swap_gte (some a) (some b) = unfold apply_kind in refl
    swap_gte (some a) none = refl
    swap_gte none (some b) = refl
    swap_gte none none = refl
oriented_sound gt l r s = swap_gt (value_of l s) (value_of r s)
  where
    swap_gt : (a b : Option Value) → both lt b a ≡ both gt a b
    swap_gt (some a) (some b) = unfold apply_kind in refl
    swap_gt (some a) none = refl
    swap_gt none (some b) = refl
    swap_gt none none = refl
oriented_sound _ l r s = refl

lt_literal_right :
    (o : Option Value) (z : ℤ) → both lte o (some (int (z -ℤ pos 1))) ≡ both lt o (some (int z))
unfolding apply_kind
lt_literal_right none z = refl
lt_literal_right (some a) z = ap (λ b. some (bool b)) (sym (ltb-eq-leb-pred (as_int a) z))

lt_literal_left :
    (o : Option Value) (z : ℤ) → both lte (some (int (z +ℤ pos 1))) o ≡ both lt (some (int z)) o
unfolding apply_kind
lt_literal_left none z = refl
lt_literal_left (some a) z = ap (λ b. some (bool b)) (sym (ltb-eq-leb-succ z (as_int a)))

tightened_sound :
    (kind : BinaryKind) (l r : Expr) (s : Fields)
    → value_of (tightened kind l r) s ≡ both kind (value_of l s) (value_of r s)
unfolding tightened
tightened_sound lt l (integer_expr z) s =
    value_of-binary lte l (integer_expr (z -ℤ pos 1)) s
    ∙ (unfold evaluate_expression in lt_literal_right (value_of l s) z)
tightened_sound lt (integer_expr z) r s =
    value_of-binary lte (integer_expr (z +ℤ pos 1)) r s
    ∙ (unfold evaluate_expression in lt_literal_left (value_of r s) z)
tightened_sound lt l r s = value_of-binary lt l r s
tightened_sound kind l r s = value_of-binary kind l r s

-- Normalising an expression changes neither its value nor whether its evaluation raises.
pub normalize_comparison-value_of :
    (e : Expr) (s : Fields) → value_of (normalize_comparison e) s ≡ value_of e s
unfolding normalize_comparison
normalize_comparison-value_of (binary_expr kind l r) s =
    let a = normalize_comparison l in
    let b = normalize_comparison r in
    tightened_sound (oriented kind a b).0 (oriented kind a b).1 (oriented kind a b).2 s
    ∙ oriented_sound kind a b s
    ∙ ap₂ (both kind) (normalize_comparison-value_of l s) (normalize_comparison-value_of r s)
    ∙ sym (value_of-binary kind l r s)
normalize_comparison-value_of (field_expr name) s = refl
normalize_comparison-value_of (integer_expr z) s = refl
normalize_comparison-value_of (boolean_expr b) s = refl
normalize_comparison-value_of (old_expr e) s = refl
normalize_comparison-value_of (not_expr e) s = refl

abbrev pub IsTrue : Fields → Expr → Type 0
IsTrue s e = (v : Value) × (value_of e s ≡ some v) × (truth v ≡ true)

pub IsTrue-normalize : (s : Fields) (e : Expr) → IsTrue s (normalize_comparison e) ↔ IsTrue s e
IsTrue-normalize s e = (
  λ (v, h, t). (v, sym (normalize_comparison-value_of e s) ∙ h, t),
  λ (v, h, t). (v, normalize_comparison-value_of e s ∙ h, t),
)

and_truth :
    (a b v : Value)
    → some (apply_kind and a b) ≡ some v
    → truth v ≡ true
    → (truth a && truth b) ≡ true
unfolding apply_kind truth
and_truth a b v h t = let e : bool (truth a && truth b) ≡ v = cc in rw (← e) at t

IsTrue-and : (s : Fields) (l r : Expr) → IsTrue s (binary_expr and l r) ↔ (IsTrue s l × IsTrue s r)
IsTrue-and s l r = (
  λ (v, h, t). both_true (value_of l s) (value_of r s) v (sym (value_of-binary and l r s) ∙ h) t,
  λ (p, q). (
    bool true,
    value_of-binary and l r s ∙ ap₂ (both and) p.1 q.1 ∙ (unfold apply_kind in rw (p.2, q.2)),
    unfold truth in refl,
  ),
)
  where
    both_true :
        (a b : Option Value) (v : Value)
        → both and a b ≡ some v
        → truth v ≡ true
        → ((x : Value) × (a ≡ some x) × (truth x ≡ true))
          × ((x : Value) × (b ≡ some x) × (truth x ≡ true))
    both_true (some a) (some b) v h t =
        let holds : (truth a && truth b) ≡ true = and_truth a b v h t in
        ((a, refl, (and_true holds).0), (b, refl, (and_true holds).1))
    both_true (some a) none v h t = cc
    both_true none b v h t = cc

pub All-append : (P : Expr → Type 0) (xs ys : List Expr) → All P (xs ++ ys) ↔ (All P xs × All P ys)
All-append P [] ys = (λ h. (tt, h), λ h. h.1)
All-append P (x ∷ xs) ys =
    let ih = All-append P xs ys in
    (λ h. ((h.0, (ih.0 h.1).0), (ih.0 h.1).1), λ h. (h.0.0, ih.1 (h.0.1, h.1)))

abbrev pub depth : Expr → ℕ
depth (binary_expr kind l r) = suc (max (depth l) (depth r))
depth _ = 0

depth-oriented :
    (kind : BinaryKind) (l r : Expr)
    → max (depth (oriented kind l r).1) (depth (oriented kind l r).2) ≡ max (depth l) (depth r)
unfolding oriented
depth-oriented gte l r = omega arith
depth-oriented gt l r = omega arith
depth-oriented _ l r = refl

depth-tightened :
    (kind : BinaryKind) (l r : Expr) → depth (tightened kind l r) ≡ suc (max (depth l) (depth r))
unfolding tightened
depth-tightened lt l (integer_expr z) = refl
depth-tightened lt (integer_expr z) r = refl
depth-tightened lt l r = refl
depth-tightened kind l r = refl

pub depth-normalize_comparison : (e : Expr) → depth (normalize_comparison e) ≡ depth e
unfolding normalize_comparison
depth-normalize_comparison (binary_expr kind l r) =
    let a = normalize_comparison l in
    let b = normalize_comparison r in
    omega (
      arith,
      depth-tightened (oriented kind a b).0 (oriented kind a b).1 (oriented kind a b).2,
      depth-oriented kind a b,
      depth-normalize_comparison l,
      depth-normalize_comparison r,
    )
depth-normalize_comparison _ = refl

abbrev pub IsNotAnd : Expr → Type 0
IsNotAnd (binary_expr and l r) = ⊥
IsNotAnd _ = Unit

conjuncts_of-IsTrue :
    (s : Fields) (again : Expr → List Expr)
    → ((e : Expr) → All (IsTrue s) (again e) ↔ IsTrue s e)
    → (d : Expr) → All (IsTrue s) (conjuncts_of again d) ↔ IsTrue s d
unfolding conjuncts_of
conjuncts_of-IsTrue s again ih (binary_expr and l r) =
    let split = All-append (IsTrue s) (again l) (again r) in
    let both_sides = IsTrue-and s l r in
    (
      λ h. both_sides.1 ((ih l).0 (split.0 h).0, (ih r).0 (split.0 h).1),
      λ h. split.1 ((ih l).1 (both_sides.0 h).0, (ih r).1 (both_sides.0 h).1),
    )
conjuncts_of-IsTrue s again ih _ = (λ h. h.0, λ h. (h, tt))

pub conjuncts-IsTrue :
    (s : Fields) (fuel : ℕ) (e : Expr) → All (IsTrue s) (conjuncts fuel e) ↔ IsTrue s e
unfolding conjuncts
conjuncts-IsTrue s zero e =
    (λ h. (IsTrue-normalize s e).0 h.0, λ h. ((IsTrue-normalize s e).1 h, tt))
conjuncts-IsTrue s (suc fuel) e =
    let split =
      conjuncts_of-IsTrue s (conjuncts fuel) (conjuncts-IsTrue s fuel) (normalize_comparison e) in
    (λ h. (IsTrue-normalize s e).0 (split.0 h), λ h. split.1 ((IsTrue-normalize s e).1 h))

conjuncts_of-IsNotAnd :
    (n : ℕ) (again : Expr → List Expr)
    → ((e : Expr) → depth e ≤ n → All IsNotAnd (again e))
    → (d : Expr) → depth d ≤ suc n
    → All IsNotAnd (conjuncts_of again d)
unfolding conjuncts_of
conjuncts_of-IsNotAnd n again ih (binary_expr and l r) h =
    (All-append IsNotAnd (again l) (again r)).1 (ih l (omega arith), ih r (omega arith))
conjuncts_of-IsNotAnd n again ih _ h = (tt, tt)

IsNotAnd-shallow : (e : Expr) → depth e ≤ 0 → IsNotAnd e
IsNotAnd-shallow (binary_expr kind l r) h = absurd (omega arith)
IsNotAnd-shallow _ h = tt

conjuncts-IsNotAnd : (fuel : ℕ) (e : Expr) → depth e ≤ fuel → All IsNotAnd (conjuncts fuel e)
unfolding conjuncts
conjuncts-IsNotAnd zero e h =
    (IsNotAnd-shallow (normalize_comparison e) (omega (arith, depth-normalize_comparison e)), tt)
conjuncts-IsNotAnd (suc fuel) e h =
    conjuncts_of-IsNotAnd fuel (conjuncts fuel) (conjuncts-IsNotAnd fuel) (normalize_comparison e)
      (omega (arith, depth-normalize_comparison e))

-- With fuel for the depth of an invariant, its conjuncts are all true in a state exactly when the
-- invariant is, and none of them is a conjunction.
pub conjuncts_lem :
    (fuel : ℕ) (e : Expr) (s : Fields)
    → depth e ≤ fuel
    → (All (IsTrue s) (conjuncts fuel e) ↔ IsTrue s e) × All IsNotAnd (conjuncts fuel e)
conjuncts_lem fuel e s h = (conjuncts-IsTrue s fuel e, conjuncts-IsNotAnd fuel e h)
