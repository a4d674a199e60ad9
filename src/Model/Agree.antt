-- ===== src/Model/Agree.antt =====
-- States that agree on the declared fields cannot be told apart by expressions over those fields.
use formalspecgen.Prelude.{
  String, ◌≡◌, refl, List, [], ◌∷◌, In, inl, All, In-append_left, In-append_right,
}
use formalspecgen.Domain.{
  Expr, field_expr, integer_expr, boolean_expr, old_expr, not_expr, binary_expr, Guard, Effect,
}
use formalspecgen.Domain.References.{referenced_fields}
use formalspecgen.Model.Value.{Value}
use formalspecgen.Model.Evaluate.{
  Fields, lookup, insert, update, evaluate_expression, all_hold, compute_effects, lookup-insert,
}

abbrev pub AgreeOn : List String → Fields → Fields → Type 0
AgreeOn names s t = (k : String) → In k names → lookup k s ≡ lookup k t

abbrev pub RefersTo : List String → Expr → Type 0
RefersTo names e = (k : String) → In k (referenced_fields e) → In k names

module _ (names : List String) (s t : Fields) (agree : AgreeOn names s t) where
  pub evaluate_expression-AgreeOn :
      (e : Expr) → RefersTo names e → evaluate_expression e s ≡ evaluate_expression e t
  unfolding evaluate_expression referenced_fields
  evaluate_expression-AgreeOn (field_expr name) h = rw (agree name (h name (inl refl)))
  evaluate_expression-AgreeOn (integer_expr z) h = refl
  evaluate_expression-AgreeOn (boolean_expr b) h = refl
  evaluate_expression-AgreeOn (old_expr e) h = evaluate_expression-AgreeOn e h
  evaluate_expression-AgreeOn (not_expr e) h = rw (evaluate_expression-AgreeOn e h)
  evaluate_expression-AgreeOn (binary_expr kind l r) h = rw (
    evaluate_expression-AgreeOn l (λ k m. h k (In-append_left k _ _ m)),
    evaluate_expression-AgreeOn r (λ k m. h k (In-append_right k (referenced_fields l) _ m)),
  )

  pub all_hold-AgreeOn :
      (gs : List Guard) → All (λ g. RefersTo names g.expression) gs → all_hold gs s ≡ all_hold gs t
  unfolding all_hold
  all_hold-AgreeOn [] h = refl
  all_hold-AgreeOn (g ∷ gs) h =
      rw (evaluate_expression-AgreeOn g.expression h.0, all_hold-AgreeOn gs h.1)

  pub compute_effects-AgreeOn :
      (es : List Effect)
      → All (λ e. RefersTo names e.value) es
      → compute_effects es s ≡ compute_effects es t
  unfolding compute_effects
  compute_effects-AgreeOn [] h = refl
  compute_effects-AgreeOn (e ∷ es) h =
      rw (evaluate_expression-AgreeOn e.value h.0, compute_effects-AgreeOn es h.1)

pub insert-AgreeOn :
    (names : List String) (k : String) (v : Value) (s t : Fields)
    → AgreeOn names s t
    → AgreeOn names (insert k v s) (insert k v t)
insert-AgreeOn names k v s t h j m = rw (lookup-insert k j v s, lookup-insert k j v t, h j m)

pub update-AgreeOn :
    (names : List String) (m s t : Fields)
    → AgreeOn names s t
    → AgreeOn names (update s m) (update t m)
unfolding update
update-AgreeOn names [] s t h = h
update-AgreeOn names ((k, v) ∷ m) s t h =
    update-AgreeOn names m (insert k v s) (insert k v t) (insert-AgreeOn names k v s t h)
