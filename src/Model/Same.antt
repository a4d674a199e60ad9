-- ===== src/Model/Same.antt =====
-- `_freeze` of pipeline/domain_v2_model.py on states within the declared bounds.

use formalspecgen.Domain.{DomainSpec, StateVariable, bool_variable, int_variable, variable_name}
use formalspecgen.Model.Agree.{AgreeOn}
use formalspecgen.Model.Evaluate.{Fields, lookup}
use formalspecgen.Model.Safe.{IsSafe, IsWithin, declared, declared-In}
use formalspecgen.Model.State.{
  CallResult, Phase, State, fields_eq, found_eq, idle, list_eq, no_result, phase_eq, result_eq,
  same_state,
}
use formalspecgen.Model.Value.{Value, bool, int, value_eq}
use formalspecgen.Prelude.{
  Bool, Bool-cases, In, List, String, [], all-In, and_true, ap, arith, eq_iff, false, inl, inr,
  refl, some, str_eq, sym, true, ◌∙◌, ◌∷◌, ◌≡◌,
}
use formalspecgen.Prelude.Int.{eqb_ℤ_iff}

pub record Agree (spec : DomainSpec) (s t : State) : Type 0 where
  pub fields : AgreeOn (declared spec) s.fields t.fields
  pub pcs : s.pcs ≡ t.pcs
  pub pending : s.pending ≡ t.pending
  pub results : s.results ≡ t.results

pub Agree-refl : (spec : DomainSpec) (s : State) → Agree spec s s
Agree-refl spec s = record { fields = λ k m. refl; pcs = refl; pending = refl; results = refl }

pub Agree-sym : (spec : DomainSpec) (s t : State) → Agree spec s t → Agree spec t s
Agree-sym spec s t a = record {
  fields = λ k m. sym (a.fields k m);
  pcs = sym a.pcs;
  pending = sym a.pending;
  results = sym a.results;
}

pub Agree-trans :
    (spec : DomainSpec) (s t u : State) → Agree spec s t → Agree spec t u → Agree spec s u
Agree-trans spec s t u a b = record {
  fields = λ k m. a.fields k m ∙ b.fields k m;
  pcs = a.pcs ∙ b.pcs;
  pending = a.pending ∙ b.pending;
  results = a.results ∙ b.results;
}

lookup-In : (k : String) (s : Fields) (x : Value) → lookup k s ≡ some x → (w : Value) × In (k, w) s
unfolding lookup
lookup-In k [] x h = cc
lookup-In k ((j, w) ∷ s) x h = elim (Bool-cases (str_eq j k)) [
  | inl same ↦ (w, inl (ap (λ (n : String). (n, w)) (sym ((eq_iff j k).0 same))))
  | inr other ↦ let r = rw other at h in let (u, m) = lookup-In k s x r in (u, inr m)
]

fields_eq-found :
    (s t : Fields) (k : String) (x : Value)
    → fields_eq s t ≡ true
    → lookup k s ≡ some x
    → found_eq (some x) (lookup k t) ≡ true
unfolding fields_eq
fields_eq-found s t k x h found =
    let (w, m) = lookup-In k s x found in
    let e =
      all-In (λ item. found_eq (lookup item.0 s) (lookup item.0 t)) s (k, w) (and_true h).1 m in
    rw found at e

value_eq-IsWithin :
    (v : StateVariable) (x y : Value) → IsWithin v x → IsWithin v y → value_eq x y ≡ true → x ≡ y
unfolding value_eq
value_eq-IsWithin (int_variable v) (int a) (int b) p q h = ap int ((eqb_ℤ_iff a b).0 h)
value_eq-IsWithin (int_variable v) (bool a) y p q h = elim p [ ]
value_eq-IsWithin (int_variable v) (int a) (bool b) p q h = elim q [ ]
value_eq-IsWithin (bool_variable v) (bool true) (bool true) p q h = refl
value_eq-IsWithin (bool_variable v) (bool false) (bool false) p q h = refl
value_eq-IsWithin (bool_variable v) (bool true) (bool false) p q h = ground arith
value_eq-IsWithin (bool_variable v) (bool false) (bool true) p q h = ground arith
value_eq-IsWithin (bool_variable v) (int a) y p q h = elim p [ ]
value_eq-IsWithin (bool_variable v) (bool a) (int b) p q h = elim q [ ]

fields_eq-AgreeOn :
    (spec : DomainSpec) (s t : Fields)
    → IsSafe spec s
    → IsSafe spec t
    → fields_eq s t ≡ true
    → AgreeOn (declared spec) s t
fields_eq-AgreeOn spec s t hs ht h k m =
    let (v, mv, e) = declared-In spec.state_variables k m in
    let (x, found, within) = hs.bounds v mv in
    let (y, found', within') = ht.bounds v mv in
    let eq = rw found' at (fields_eq-found s t (variable_name v) x h found) in
    rw (← e) (found ∙ ap some (value_eq-IsWithin v x y within within' eq) ∙ sym found')

list_eq_sound :
    {A : Type 0} (same : A → A → Bool)
    → ((x y : A) → same x y ≡ true → x ≡ y)
    → (xs ys : List A) → list_eq same xs ys ≡ true
    → xs ≡ ys
list_eq_sound same sound [] [] h = refl
list_eq_sound same sound [] (y ∷ ys) h = cc
list_eq_sound same sound (x ∷ xs) [] h = cc
list_eq_sound same sound (x ∷ xs) (y ∷ ys) h =
    let both : (same x y ≡ true) × (list_eq same xs ys ≡ true) = and_true h in
    cc (sound x y both.0, list_eq_sound same sound xs ys both.1)

phase_eq_sound : (x y : Phase) → phase_eq x y ≡ true → x ≡ y
phase_eq_sound idle y h = ground arith
phase_eq_sound _ y h = ground arith

result_eq_sound : (x y : CallResult) → result_eq x y ≡ true → x ≡ y
result_eq_sound no_result y h = ground arith
result_eq_sound _ y h = ground arith

pub same_state-Agree :
    (spec : DomainSpec) (s t : State)
    → IsSafe spec s.fields
    → IsSafe spec t.fields
    → same_state s t ≡ true
    → Agree spec s t
unfolding same_state
same_state-Agree spec s t hs ht h =
    let (a, r) = and_true h in
    let (b, r₂) = and_true r in
    let (c, d) = and_true r₂ in
    record {
      fields = fields_eq-AgreeOn spec s.fields t.fields hs ht a;
      pcs = list_eq_sound phase_eq phase_eq_sound _ _ b;
      pending = list_eq_sound str_eq (λ x y e. (eq_iff x y).0 e) _ _ c;
      results = list_eq_sound result_eq result_eq_sound _ _ d;
    }
