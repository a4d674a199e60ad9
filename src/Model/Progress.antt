-- ===== src/Model/Progress.antt =====
-- The expressions of an accepted domain, in states that hold its variables at their types.

use mathlib.Core.Path.{subst}
use formalspecgen.Domain.{
  DomainSpec, Effect, Expr, Guard, Operation, StateVariable, bool_variable, int_variable,
  variable_name,
}
use formalspecgen.Domain.Accepted.{IsAccepted, check_operation-IsFramed}
use formalspecgen.Domain.Fields.{SchemaError, effect_mismatch, missing_key, wrong_type}
use formalspecgen.Domain.Schema.{
  check_effect_type, field_types, require_type, variable_sort, within,
}
use formalspecgen.Domain.Typing.{
  FieldTypes, Sort, TypeError, bool_sort, expression_type, int_sort, lookup_type, same_sort,
}
use formalspecgen.Model.Accepted.{effects-HasDistinctTargets}
use formalspecgen.Model.Effects.{NotTarget, apply_effects_commit, apply_effects_frame}
use formalspecgen.Model.Evaluate.{
  Fields, all_hold, apply_effects, compute_effects, guards_hold, lookup, update,
}
use formalspecgen.Model.Safe.{HasValue, IsWithin}
use formalspecgen.Model.State.{fits}
use formalspecgen.Model.Typed.{IsTyped, evaluate_expression-IsTyped, sort_of}
use formalspecgen.Model.Value.{Value, bool, int, truth}
use formalspecgen.Prelude.{
  Bool, Bool-cases, In, List, Option, String, [], ap, arith, eq_iff, false, if◌then◌else◌, inl, inr,
  map, none, refl, some, some_injective, str_eq, sym, true, ◌∙◌, ◌∷◌, ◌≡◌, ◌⊎◌,
}
use formalspecgen.Result.{IsOk, Result, err, ok, ok_injective, require, require-eq-ok}

lookup_type-variable :
    (vs : List StateVariable) (k : String) (t : Sort)
    → lookup_type k (map (λ v. (variable_name v, variable_sort v)) vs) ≡ some t
    → (v : StateVariable) × In v vs × (variable_name v ≡ k) × (variable_sort v ≡ t)
unfolding lookup_type
lookup_type-variable [] k t h = cc
lookup_type-variable (v ∷ vs) k t h = elim (Bool-cases (str_eq (variable_name v) k)) [
  | inl same ↦ (v, inl refl, (eq_iff _ k).0 same, let q = rw same at h in cc q)
  | inr other ↦ let (w, m, e, s) = lookup_type-variable vs k t (rw other at h) in (w, inr m, e, s)
]

IsWithin-sort : (v : StateVariable) (x : Value) → IsWithin v x → sort_of x ≡ variable_sort v
IsWithin-sort (int_variable v) (int z) h = refl
IsWithin-sort (int_variable v) (bool b) h = absurd h
IsWithin-sort (bool_variable v) (int z) h = absurd h
IsWithin-sort (bool_variable v) (bool b) h = refl

-- A state within the bounds is typed.
pub HasValue-IsTyped :
    (spec : DomainSpec) (s : Fields)
    → ((v : StateVariable) → In v spec.state_variables → HasValue s v)
    → IsTyped (field_types spec) s
unfolding field_types
HasValue-IsTyped spec s within = record {
  at = λ k t h.
      let (v, m, name, sort) = lookup_type-variable spec.state_variables k t h in
      let (x, found, fits) = within v m in
      (x, subst (λ n. lookup n s ≡ some x) name found, IsWithin-sort v x fits ∙ sort);
}

same_sort_eq : (a b : Sort) → same_sort a b ≡ true → a ≡ b
same_sort_eq int_sort int_sort h = refl
same_sort_eq bool_sort bool_sort h = refl
same_sort_eq int_sort bool_sort h = cc
same_sort_eq bool_sort int_sort h = cc

require_type-eq-ok :
    (e : Expr) (types : FieldTypes) (sort : Sort) (error : SchemaError)
    → IsOk (require_type e types sort error)
    → expression_type e types ≡ ok sort
unfolding require_type
require_type-eq-ok e types sort error h = by_type (expression_type e types) refl h
  where
    by_type :
        (found : Result TypeError Sort)
        → expression_type e types ≡ found
        → IsOk (elim found [
          | ok t ↦ require (same_sort t sort) error
          | err raised ↦ err (wrong_type raised)
        ])
        → expression_type e types ≡ ok sort
    by_type (ok t) same h = same ∙ ap ok (same_sort_eq t sort (require-eq-ok _ _ h))
    by_type (err raised) same h = cc

module _ (types : FieldTypes) (s : Fields) (typed : IsTyped types s) where
  all_hold_total :
      (gs : List Guard)
      → ((g : Guard) → In g gs → expression_type g.expression types ≡ ok bool_sort)
      → (b : Bool) × (all_hold gs s ≡ ok b)
  unfolding all_hold
  all_hold_total [] h = (true, refl)
  all_hold_total (g ∷ gs) h =
      let (v, run, _) =
        evaluate_expression-IsTyped g.expression types s bool_sort typed (h g (inl refl)) in
      let (b, rest) = all_hold_total gs (λ g' m. h g' (inr m)) in
      ((if truth v then b else false), rw run (ground (arith)))

  compute_effects_total :
      (es : List Effect)
      → ((e : Effect) → In e es → (t : Sort) × (expression_type e.value types ≡ ok t))
      → (m : Fields) × (compute_effects es s ≡ ok m)
  unfolding compute_effects
  compute_effects_total [] h = ([], refl)
  compute_effects_total (e ∷ es) h =
      let (t, sort) = h e (inl refl) in
      let (v, run, _) = evaluate_expression-IsTyped e.value types s t typed sort in
      let (m, rest) = compute_effects_total es (λ e' i. h e' (inr i)) in
      ((e.target, v) ∷ m, rw (run, rest))

-- A name is the target of an effect, or of none.
target_cases :
    (k : String) (es : List Effect) → NotTarget k es ⊎ ((e : Effect) × In e es × (e.target ≡ k))
target_cases k [] = inl tt
target_cases k (e ∷ es) = elim (Bool-cases (str_eq e.target k)) [
  | inl same ↦ inr (e, inl refl, (eq_iff _ k).0 same)
  | inr other ↦ elim (target_cases k es) [
    | inl n ↦ inl (λ same. let q = (eq_iff e.target k).1 same in cc (q, other), n)
    | inr (d, m, same) ↦ inr (d, inr m, same)
  ]
]

check_effect_type-eq-ok :
    (types : FieldTypes) (name : String) (e : Effect)
    → IsOk (check_effect_type types name e)
    → (t : Sort) × (lookup_type e.target types ≡ some t) × (expression_type e.value types ≡ ok t)
unfolding check_effect_type
check_effect_type-eq-ok types name e h = by_sort (lookup_type e.target types) refl h
  where
    by_sort :
        (found : Option Sort)
        → lookup_type e.target types ≡ found
        → IsOk (elim found [
          | none ↦ err (missing_key e.target)
          | some sort ↦ require_type e.value types sort (effect_mismatch name)
        ])
        → (t : Sort) × (lookup_type e.target types ≡ some t)
          × (expression_type e.value types ≡ ok t)
    by_sort (some t) same h = (t, same, require_type-eq-ok e.value types t _ h)
    by_sort none same h = cc

module _ (spec : DomainSpec) (accepted : IsAccepted spec) (s : Fields) where
  -- In a typed state, the guards of an operation of an accepted domain have a truth value, its
  -- effects are computed without an exception, and the state after them is typed again.
  pub apply_effects-IsTyped :
      (op : Operation)
      → In op spec.operations
      → IsTyped (field_types spec) s
      → ((b : Bool) × (guards_hold op s ≡ ok b))
        × ((post : Fields) × (apply_effects op s ≡ ok post) × IsTyped (field_types spec) post)
  unfolding guards_hold apply_effects
  apply_effects-IsTyped op m typed =
      let framed = check_operation-IsFramed spec op (accepted.operations op m) in
      let types = field_types spec in
      let (computed, run) = compute_effects_total types s typed op.effects (λ e i.
        let (t, _, sort) = check_effect_type-eq-ok types op.name e (framed.effects e i) in
        (t, sort)) in
      let done : apply_effects op s ≡ ok (update s computed) = rw run in
      (
        all_hold_total types s typed op.guards
            (λ g i. require_type-eq-ok g.expression types bool_sort _ (framed.guards g i)),
        (
          update s computed,
          done,
          record {
            at = λ k t h. elim (target_cases k op.effects) [
              | inl untouched ↦
                  let (v, found, sort) = typed.at k t h in
                  (v, apply_effects_frame op s (update s computed) k done untouched ∙ found, sort)
              | inr (e, i, target) ↦
                  let (t', known, sort') =
                    check_effect_type-eq-ok types op.name e (framed.effects e i) in
                  let (v, value, found) =
                    apply_effects_commit op s (update s computed) e done
                      (effects-HasDistinctTargets spec accepted op m) i in
                  let (w, value', sort) =
                    evaluate_expression-IsTyped e.value types s t' typed sort' in
                  let same : w ≡ v = ok_injective (sym value' ∙ value) in
                  let sorts : t' ≡ t =
                    some_injective
                      (sym known ∙ subst (λ n. lookup_type n types ≡ some t) (sym target) h) in
                  (
                    v,
                    subst (λ n. lookup n (update s computed) ≡ some v) target found,
                    subst (λ x. sort_of x ≡ t) same (sort ∙ sorts),
                  )
            ];
          },
        ),
      )
