-- ===== src/Model/PartialSound.antt =====
-- `_evaluate3` and `static_deadlock_findings` of pipeline/domain_v2_model.py against
-- `evaluate_expression` and `guards_hold`.
use mathlib.Core.Path.{subst}
use formalspecgen.Domain.{
  BinaryKind, DomainSpec, Expr, Guard, IntStateVariable, Operation, StateVariable, and, binary_expr,
  bool_variable, boolean_expr, field_expr, implies, int_variable, integer_expr, not_expr, old_expr,
  or, variable_name,
}
use formalspecgen.Model.Deadlock.{
  Env, Finding, combine3, entered_values, env_get, evaluate3, is_false, is_stuck, one_known,
  operation_admits, partly_known, static_deadlock_findings, stuck_values, variable_findings,
}
use formalspecgen.Model.Evaluate.{Fields, all_hold, evaluate_expression, guards_hold, lookup}
use formalspecgen.Model.Value.{Value, apply_kind, bool, int, truth}
use formalspecgen.Prelude.{
  Bool-cases, In, In-append_cases, List, Option, Option-cases, String, [], all, any-false, ap,
  arith, eq_iff, false, inl, inr, map, none, not, refl, some, str_eq, sym, true, ℤ, ◌∙◌, ◌∷◌, ◌≡◌,
  ◌≢◌,
}
use formalspecgen.Result.{>>=-eq-ok, ok, ok_injective, or_raise-eq-ok}

-- The state has the known fields at their known values.
abbrev pub Completes : Env → Fields → Type 0
Completes env s = (k : String) (v : Value) → env_get k env ≡ some v → lookup k s ≡ some v

partly_known_sound :
    (kind : BinaryKind) (l r : Option Value) (a b v : Value)
    → ((x : Value) → l ≡ some x → x ≡ a)
    → ((x : Value) → r ≡ some x → x ≡ b)
    → partly_known kind l r ≡ some v
    → v ≡ apply_kind kind a b
unfolding partly_known apply_kind truth
partly_known_sound and l r a b v hl hr h = ground (arith, hl (bool false), hr (bool false))
partly_known_sound or l r a b v hl hr h = ground (arith, hl (bool true), hr (bool true))
partly_known_sound implies l r a b v hl hr h = ground (arith, hl (bool false), hr (bool true))
partly_known_sound _ l r a b v hl hr h = cc

combine3_sound :
    (kind : BinaryKind) (l r : Option Value) (a b v : Value)
    → ((x : Value) → l ≡ some x → x ≡ a)
    → ((x : Value) → r ≡ some x → x ≡ b)
    → combine3 kind l r ≡ some v
    → v ≡ apply_kind kind a b
unfolding combine3
combine3_sound kind (some x) (some y) a b v hl hr h = cc (hl x refl, hr y refl)
combine3_sound kind none r a b v hl hr h = partly_known_sound kind none r a b v hl hr h
combine3_sound kind (some x) none a b v hl hr h =
    partly_known_sound kind (some x) none a b v hl hr h

-- What partial evaluation decides is the value in every state that completes the known fields.
pub evaluate3_sound :
    (e : Expr) (env : Env) (s : Fields) (v w : Value)
    → Completes env s
    → evaluate3 e env ≡ some v
    → evaluate_expression e s ≡ ok w
    → v ≡ w
unfolding evaluate3 evaluate_expression
evaluate3_sound (field_expr name) env s v w c h run =
    let found = or_raise-eq-ok (lookup name s) _ run in cc (c name v h)
evaluate3_sound (integer_expr z) env s v w c h run = cc
evaluate3_sound (boolean_expr b) env s v w c h run = cc
evaluate3_sound (old_expr e) env s v w c h run = evaluate3_sound e env s v w c h run
evaluate3_sound (not_expr e) env s v w c h run =
    let (x, ran, done) = >>=-eq-ok (evaluate_expression e s) _ run in
    elim (Option-cases (evaluate3 e env)) [
      | inl unknown ↦ absurd (let q = rw unknown at h in cc q)
      | inr (y, known) ↦
          let same : y ≡ x = evaluate3_sound e env s y x c known ran in
          let q = rw known at h in cc (q, done, same)
    ]
evaluate3_sound (binary_expr kind l r) env s v w c h run =
    let (a, ran_l, rest) = >>=-eq-ok (evaluate_expression l s) _ run in
    let (b, ran_r, done) = >>=-eq-ok (evaluate_expression r s) _ rest in
    combine3_sound kind (evaluate3 l env) (evaluate3 r env) a b v
      (λ x p. evaluate3_sound l env s x a c p ran_l) (λ x p. evaluate3_sound r env s x b c p ran_r)
      h
    ∙ ok_injective done

-- The environment of `_operation_admits` knows one field.
unknown_map :
    (vs : List StateVariable) (k : String)
    → env_get k (map (λ v. (variable_name v, none)) vs) ≡ none
unfolding env_get
unknown_map [] k = refl
unknown_map (v ∷ vs) k = ground (arith, unknown_map vs k)

one_known-Completes :
    (field : String) (value : ℤ) (spec : DomainSpec) (s : Fields)
    → lookup field s ≡ some (int value)
    → Completes (one_known field value spec) s
unfolding one_known env_get
one_known-Completes field value spec s h k v known = elim (Bool-cases (str_eq field k)) [
  | inl same ↦
      let q = rw same at known in
      let e : field ≡ k = (eq_iff field k).0 same in ap (λ n. lookup n s) (sym e) ∙ h ∙ q
  | inr other ↦
      let q = rw other at known in absurd (let u = unknown_map spec.state_variables k in cc (q, u))
]

known_false : {o : Option Value} → is_false o ≡ true → o ≡ some (bool false)
known_false {o} h = ground arith

false_passes : (v : Value) → bool false ≡ v → truth v ≡ true → ⊥
unfolding truth
false_passes v e h = ground arith

refuted_guard :
    (gs : List Guard) (env : Env) (s : Fields)
    → Completes env s
    → all (λ g. not (is_false (evaluate3 g.expression env))) gs ≡ false
    → all_hold gs s ≢ ok true
unfolding all_hold
refuted_guard [] env s c h held = cc
refuted_guard (g ∷ gs) env s c h held =
    let (v, ran, rest) = >>=-eq-ok (evaluate_expression g.expression s) _ held in
    elim (Bool-cases (truth v)) [
      | inl passes ↦
          let rest' = rw passes at rest in
          elim (Bool-cases (is_false (evaluate3 g.expression env))) [
            | inl refuted ↦
                let e =
                  evaluate3_sound g.expression env s (bool false) v c (known_false refuted) ran in
                false_passes v e passes
            | inr open_guard ↦ refuted_guard gs env s c (let q = rw open_guard at h in q) rest'
          ]
      | inr fails ↦ let rest' = rw fails at rest in cc rest'
    ]

-- A value that the analysis does not let an operation leave disables the operation.
operation_admits_sound :
    (op : Operation) (field : String) (value : ℤ) (spec : DomainSpec) (s : Fields)
    → operation_admits op field value spec ≡ false
    → lookup field s ≡ some (int value)
    → guards_hold op s ≢ ok true
unfolding operation_admits guards_hold
operation_admits_sound op field value spec s h found =
    refuted_guard op.guards (one_known field value spec) s
      (one_known-Completes field value spec s found) h

abbrev IsDeadlock : DomainSpec → Finding → Type 0
IsDeadlock spec finding =
    (s : Fields)
    → lookup finding.field s ≡ some (int finding.value)
    → (op : Operation) → In op spec.operations
    → guards_hold op s ≢ ok true

stuck_values_sound :
    (spec : DomainSpec) (v : IntStateVariable) (zs : List ℤ) (finding : Finding)
    → In finding (stuck_values spec v zs)
    → IsDeadlock spec finding
unfolding stuck_values is_stuck
stuck_values_sound spec v [] finding m = elim m [ ]
stuck_values_sound spec v (z ∷ zs) finding m = elim (Bool-cases (is_stuck spec v z)) [
  | inl stuck ↦ elim (let q = rw stuck at m in q) [
    | inl e ↦ subst (IsDeadlock spec) (sym e) (λ s found op mo.
        operation_admits_sound op v.name z spec s
          (any-false (λ o. operation_admits o v.name z spec) spec.operations op
            (ground (arith, stuck)) mo)
          found)
    | inr later ↦ stuck_values_sound spec v zs finding later
  ]
  | inr free ↦ stuck_values_sound spec v zs finding (let q = rw free at m in q)
]

variable_findings_sound :
    (spec : DomainSpec) (vs : List StateVariable) (finding : Finding)
    → In finding (variable_findings spec vs)
    → IsDeadlock spec finding
unfolding variable_findings
variable_findings_sound spec [] finding m = elim m [ ]
variable_findings_sound spec (int_variable v ∷ vs) finding m =
    elim (In-append_cases finding (stuck_values spec v (entered_values v spec.operations)) _ m) [
      | inl here ↦ stuck_values_sound spec v _ finding here
      | inr later ↦ variable_findings_sound spec vs finding later
    ]
variable_findings_sound spec (bool_variable v ∷ vs) finding m =
    variable_findings_sound spec vs finding m

-- A reported deadlock is real. In every state in which the reported variable has the reported
-- value, the guards of no operation hold.
pub static_deadlock_findings_sound :
    (spec : DomainSpec) (finding : Finding) (s : Fields) (op : Operation)
    → In finding (static_deadlock_findings spec)
    → lookup finding.field s ≡ some (int finding.value)
    → In op spec.operations
    → guards_hold op s ≢ ok true
unfolding static_deadlock_findings
static_deadlock_findings_sound spec finding s op m found =
    variable_findings_sound spec spec.state_variables finding m s found op
