-- ===== src/Model/Safe.antt =====
-- What `check_bounds` and `check_invariants` establish, said without them: every declared variable
-- has a value within its bounds, and every invariant is evaluated to a true value.
use formalspecgen.Prelude.{
  String, ◌≡◌, true, some, List, [], ◌∷◌, In, inl, inr, and_true, ◌∙◌, refl, sym, ap, map,
}
use formalspecgen.Prelude.Int.{◌≤ℤ◌, leb_ℤ_true}
use formalspecgen.Result.{ok, >>=-eq-ok, require, require-eq-ok, or_raise, or_raise-eq-ok}
use formalspecgen.Domain.{
  Expr, StateVariable, int_variable, bool_variable, variable_name, Invariant, DomainSpec,
}
use formalspecgen.Model.Value.{Value, int, bool, truth}
use formalspecgen.Model.Evaluate.{Fields, lookup, evaluate_expression}
use formalspecgen.Model.Agree.{AgreeOn, RefersTo, evaluate_expression-AgreeOn}
use formalspecgen.Model.State.{fits, check_variables, check_bounds, check_each, check_invariants}

abbrev pub IsWithin : StateVariable → Value → Type 0
IsWithin (int_variable v) (int z) = (v.lower ≤ℤ z) × (z ≤ℤ v.upper)
IsWithin (int_variable v) (bool _) = ⊥
IsWithin (bool_variable v) (int _) = ⊥
IsWithin (bool_variable v) (bool _) = Unit

abbrev pub HasValue : Fields → StateVariable → Type 0
HasValue s v = (x : Value) × (lookup (variable_name v) s ≡ some x) × IsWithin v x

abbrev pub Holds : Fields → Expr → Type 0
Holds s e = (v : Value) × (evaluate_expression e s ≡ ok v) × (truth v ≡ true)

pub record IsSafe (spec : DomainSpec) (s : Fields) : Type 0 where
  pub bounds : (v : StateVariable) → In v spec.state_variables → HasValue s v
  pub invariants : (i : Invariant) → In i spec.tlc_invariants → Holds s i.expression

fits-IsWithin : (v : StateVariable) (x : Value) → fits v x ≡ true → IsWithin v x
unfolding fits
fits-IsWithin (int_variable v) (int z) h =
    (leb_ℤ_true v.lower z (and_true h).0, leb_ℤ_true z v.upper (and_true h).1)
fits-IsWithin (int_variable v) (bool b) h = cc
fits-IsWithin (bool_variable v) (int z) h = cc
fits-IsWithin (bool_variable v) (bool b) h = tt

check_variables-HasValue :
    (vs : List StateVariable) (s : Fields) (label : String) {u : Unit}
    → check_variables vs s label ≡ ok u
    → (v : StateVariable) → In v vs
    → HasValue s v
unfolding check_variables
check_variables-HasValue [] s label h v m = elim m [ ]
check_variables-HasValue (w ∷ vs) s label h v m =
    let (x, found, rest) = >>=-eq-ok (or_raise (lookup (variable_name w) s) _) _ h in
    let (_, fitted, last) = >>=-eq-ok (require (fits w x) _) _ rest in
    elim m [
      | inl e ↦ rw e (x, or_raise-eq-ok _ _ found, fits-IsWithin w x (require-eq-ok _ _ fitted))
      | inr m' ↦ check_variables-HasValue vs s label last v m'
    ]

check_each-Holds :
    (is : List Invariant) (s : Fields) (label : String) {u : Unit}
    → check_each is s label ≡ ok u
    → (i : Invariant) → In i is
    → Holds s i.expression
unfolding check_each
check_each-Holds [] s label h i m = elim m [ ]
check_each-Holds (j ∷ is) s label h i m =
    let (x, found, rest) = >>=-eq-ok (evaluate_expression j.expression s) _ h in
    let (_, fitted, last) = >>=-eq-ok (require (truth x) _) _ rest in
    elim m [
      | inl e ↦ rw e (x, found, require-eq-ok _ _ fitted)
      | inr m' ↦ check_each-Holds is s label last i m'
    ]

-- The two checks together leave a safe state.
pub checks-IsSafe :
    (spec : DomainSpec) (s : Fields) (label : String) {u w : Unit}
    → check_bounds spec s label ≡ ok u
    → check_invariants spec s label ≡ ok w
    → IsSafe spec s
unfolding check_bounds check_invariants
checks-IsSafe spec s label hb hi = record {
  bounds = check_variables-HasValue spec.state_variables s label hb;
  invariants = check_each-Holds spec.tlc_invariants s label hi;
}

abbrev pub declared : DomainSpec → List String
declared spec = map variable_name spec.state_variables

In-declared :
    (vs : List StateVariable) (v : StateVariable)
    → In v vs
    → In (variable_name v) (map variable_name vs)
In-declared [] v m = elim m [ ]
In-declared (w ∷ vs) v (inl e) = inl (ap variable_name e)
In-declared (w ∷ vs) v (inr m) = inr (In-declared vs v m)

pub declared-In :
    (vs : List StateVariable) (k : String)
    → In k (map variable_name vs)
    → (v : StateVariable) × In v vs × (variable_name v ≡ k)
declared-In [] k m = elim m [ ]
declared-In (w ∷ vs) k (inl e) = (w, inl refl, sym e)
declared-In (w ∷ vs) k (inr m) = let (v, h, e) = declared-In vs k m in (v, inr h, e)

-- Safety is a property of the declared fields.
pub IsSafe-AgreeOn :
    (spec : DomainSpec) (s t : Fields)
    → ((i : Invariant) → In i spec.tlc_invariants → RefersTo (declared spec) i.expression)
    → AgreeOn (declared spec) s t
    → IsSafe spec s
    → IsSafe spec t
IsSafe-AgreeOn spec s t refers agree safe = record {
  bounds = λ v m.
      let (x, found, within) = safe.bounds v m in
      (x, sym (agree (variable_name v) (In-declared _ v m)) ∙ found, within);
  invariants = λ i m.
      let (x, run, holds) = safe.invariants i m in
      let same = evaluate_expression-AgreeOn (declared spec) s t agree i.expression (refers i m) in
      (x, sym same ∙ run, holds);
}
