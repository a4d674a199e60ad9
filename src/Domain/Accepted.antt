-- ===== src/Domain/Accepted.antt =====
-- What `DomainSpecV2` of pipeline/domain_v2.py has checked when it accepts a domain, check by check.

use formalspecgen.Domain.{DomainSpec, Effect, Guard, Invariant, Operation}
use formalspecgen.Domain.Fields.{guard_not_boolean, invariant_not_boolean, is_unique, valid_fields}
use formalspecgen.Domain.References.{member, referenced_fields, subset}
use formalspecgen.Domain.Schema.{
  check_concurrency, check_effect_type, check_execution_model, check_groups, check_hardware,
  check_operation, declared_names, field_types, generated, meets, model_validate, operation_fields,
  require_type, reserved, trigger_fields, unique_names, visit_invariant, visit_operation,
}
use formalspecgen.Domain.Typing.{bool_sort}
use formalspecgen.Prelude.{In, List, String, and_true, map, true, ◌++◌, ◌≡◌}
use formalspecgen.Result.{
  >>=-eq-ok, IsOk, each-In, for_each, for_each-In, in_order-All, ok, ok_unit, refuse, require,
  require-eq-ok,
}

module _ (spec : DomainSpec) where
  -- The checks that `unique_names` has passed.
  pub record IsAccepted : Type 0 where
    pub fields : IsOk (valid_fields spec)
    pub groups : IsOk (check_groups spec)
    pub concurrency : IsOk (check_concurrency spec spec.concurrency)
    pub operations : (op : Operation) → In op spec.operations → IsOk (check_operation spec op)
    pub invariants :
        (i : Invariant)
        → In i spec.tlc_invariants
        → (subset (referenced_fields i.expression) (declared_names spec) ≡ true)
          × IsOk
              (require_type i.expression (field_types spec) bool_sort (invariant_not_boolean i.id))

  visited_operation :
      (op : Operation) (u v : List String)
      → visit_operation spec op u ≡ ok v
      → IsOk (check_operation spec op)
  unfolding visit_operation
  visited_operation op u v h =
      let (_, _, rest) = >>=-eq-ok (refuse (meets u (generated op)) _) _ h in
      let (_, checked, _) = >>=-eq-ok (check_operation spec op) _ rest in ok_unit _ checked

  visited_invariant :
      (i : Invariant) (u v : List String)
      → visit_invariant spec i u ≡ ok v
      → (subset (referenced_fields i.expression) (declared_names spec) ≡ true)
        × IsOk (require_type i.expression (field_types spec) bool_sort (invariant_not_boolean i.id))
  unfolding visit_invariant
  visited_invariant i u v h =
      let (_, _, rest) = >>=-eq-ok (refuse (member i.id u) _) _ h in
      let (_, known, last) = >>=-eq-ok (require (subset _ _) _) _ rest in
      let (_, typed, _) = >>=-eq-ok (require_type i.expression _ _ _) _ last in
      (require-eq-ok _ _ known, ok_unit _ typed)

  pub model_validate-IsAccepted : {read : DomainSpec} → model_validate spec ≡ ok read → IsAccepted
  unfolding model_validate unique_names
  model_validate-IsAccepted h =
      let (_, valid, a) = >>=-eq-ok (valid_fields spec) _ h in
      let (names, unique, _) = >>=-eq-ok (unique_names spec) _ a in
      let (_, grouped, b) = >>=-eq-ok (check_groups spec) _ unique in
      let (_, _, c) = >>=-eq-ok (check_hardware spec) _ b in
      let (_, _, d) = >>=-eq-ok (check_execution_model spec spec.execution_model) _ c in
      let (_, locks, e) = >>=-eq-ok (check_concurrency spec spec.concurrency) _ d in
      let (_, _, f) = >>=-eq-ok (refuse (meets (declared_names spec) reserved) _) _ e in
      let (ops, visited, last) = >>=-eq-ok (for_each (visit_operation spec) _ _) _ f in
      record {
        fields = ok_unit _ valid;
        groups = ok_unit _ grouped;
        concurrency = ok_unit _ locks;
        operations = λ op m.
            let (u, v, round) = for_each-In (visit_operation spec) _ reserved ops visited op m in
            visited_operation op u v round;
        invariants = λ i m.
            let (u, v, round) = for_each-In (visit_invariant spec) _ ops names last i m in
            visited_invariant i u v round;
      }

-- The operations of an accepted domain, with the tests of `check_operation` by name.
pub record IsFramed (spec : DomainSpec) (op : Operation) : Type 0 where
  pub distinct : is_unique (map (λ (e : Effect). e.target) op.effects) ≡ true
  pub framed : subset (map (λ (e : Effect). e.target) op.effects) op.frame ≡ true
  pub declared :
      subset
        (op.frame
          ++ (map (λ (e : Effect). e.target) op.effects
              ++ (operation_fields op ++ trigger_fields op.exception_trigger)))
        (declared_names spec)
      ≡ true
  pub guards :
      (g : Guard)
      → In g op.guards
      → IsOk (require_type g.expression (field_types spec) bool_sort (guard_not_boolean op.name))
  pub effects :
      (e : Effect) → In e op.effects → IsOk (check_effect_type (field_types spec) op.name e)

pub check_operation-IsFramed :
    (spec : DomainSpec) (op : Operation) → IsOk (check_operation spec op) → IsFramed spec op
unfolding check_operation
check_operation-IsFramed spec op h =
    let (targets, (_, (known, (guards, (effects, _))))) = in_order-All _ h in
    let both = and_true (require-eq-ok _ _ targets) in
    record {
      distinct = both.0;
      framed = (and_true both.1).0;
      declared = require-eq-ok _ _ known;
      guards = each-In _ op.guards guards;
      effects = each-In _ op.effects effects;
    }
