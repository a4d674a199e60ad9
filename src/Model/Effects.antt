-- ===== src/Model/Effects.antt =====
-- What `apply_effects` of pipeline/domain_v2_model.py commits.

use mathlib.Core.Path.{subst}
use formalspecgen.Domain.{Effect, Operation}
use formalspecgen.Model.Evaluate.{
  Fields, apply_effects, compute_effects, evaluate_expression, insert, lookup, lookup-insert,
  update,
}
use formalspecgen.Model.Value.{Value}
use formalspecgen.Prelude.{
  All, In, List, String, [], ap, arith, eq_iff, inl, inr, refl, some, ◌∙◌, ◌∷◌, ◌≡◌, ◌≢◌,
}
use formalspecgen.Result.{>>=-eq-ok, ok, ok_injective}

abbrev pub NotTarget : String → List Effect → Type 0
NotTarget k es = All (λ e. e.target ≢ k) es

-- Every effect has a target of its own.
abbrev pub HasDistinctTargets : List Effect → Type 0
HasDistinctTargets [] = Unit
HasDistinctTargets (e ∷ es) = NotTarget e.target es × HasDistinctTargets es

lookup-insert_ne :
    (j k : String) (v : Value) (s : Fields) → j ≢ k → lookup k (insert j v s) ≡ lookup k s
lookup-insert_ne j k v s h = rw (lookup-insert j k v s) (ground (arith, eq_iff j k))

pub lookup-insert_self : (k : String) (v : Value) (s : Fields) → lookup k (insert k v s) ≡ some v
lookup-insert_self k v s = rw (lookup-insert k k v s) (ground (arith, eq_iff k k))

-- The lookups in the state after the computed effects.
update_frame :
    (k : String) (es : List Effect) (pre s m : Fields)
    → compute_effects es pre ≡ ok m
    → NotTarget k es
    → lookup k (update s m) ≡ lookup k s
unfolding compute_effects update
update_frame k [] pre s m h n =
    subst (λ x. lookup k (update s x) ≡ lookup k s) (ok_injective h) refl
update_frame k (e ∷ es) pre s m h n =
    let (v, _, rest) = >>=-eq-ok (evaluate_expression e.value pre) _ h in
    let (m', run, done) = >>=-eq-ok (compute_effects es pre) _ rest in
    subst (λ x. lookup k (update s x) ≡ lookup k s) (ok_injective done)
      (update_frame k es pre (insert e.target v s) m' run n.1 ∙ lookup-insert_ne e.target k v s n.0)

update_commit :
    (e : Effect) (es : List Effect) (pre s m : Fields)
    → compute_effects es pre ≡ ok m
    → HasDistinctTargets es
    → In e es
    → (v : Value) × (evaluate_expression e.value pre ≡ ok v)
      × (lookup e.target (update s m) ≡ some v)
unfolding compute_effects update
update_commit e [] pre s m h d i = elim i [ ]
update_commit e (f ∷ es) pre s m h d i =
    let (v, value, rest) = >>=-eq-ok (evaluate_expression f.value pre) _ h in
    let (m', run, done) = >>=-eq-ok (compute_effects es pre) _ rest in
    elim i [
      | inl same ↦ (
        v,
        ap (λ (x : Effect). evaluate_expression x.value pre) same ∙ value,
        ap (λ (x : Effect). lookup x.target (update s m)) same
            ∙ subst (λ x. lookup f.target (update s x) ≡ some v) (ok_injective done)
                (update_frame f.target es pre (insert f.target v s) m' run d.0
                  ∙ lookup-insert_self f.target v s),
      )
      | inr later ↦
          let (w, found, kept) = update_commit e es pre (insert f.target v s) m' run d.1 later in
          (w, found, subst (λ x. lookup e.target (update s x) ≡ some w) (ok_injective done) kept)
    ]

-- A field that no effect targets keeps its value.
pub apply_effects_frame :
    (op : Operation) (pre post : Fields) (k : String)
    → apply_effects op pre ≡ ok post
    → NotTarget k op.effects
    → lookup k post ≡ lookup k pre
unfolding apply_effects
apply_effects_frame op pre post k h n =
    let (m, run, done) = >>=-eq-ok (compute_effects op.effects pre) _ h in
    subst (λ x. lookup k x ≡ lookup k pre) (ok_injective done)
      (update_frame k op.effects pre pre m run n)

-- Effects commit simultaneously. If every effect of the operation has a target of its own, then in
-- the state after it each target holds the value that the right side has in the state before.
pub apply_effects_commit :
    (op : Operation) (pre post : Fields) (e : Effect)
    → apply_effects op pre ≡ ok post
    → HasDistinctTargets op.effects
    → In e op.effects
    → (v : Value) × (evaluate_expression e.value pre ≡ ok v) × (lookup e.target post ≡ some v)
unfolding apply_effects
apply_effects_commit op pre post e h d i =
    let (m, run, done) = >>=-eq-ok (compute_effects op.effects pre) _ h in
    let (v, value, found) = update_commit e op.effects pre pre m run d i in
    (v, value, subst (λ x. lookup e.target x ≡ some v) (ok_injective done) found)
