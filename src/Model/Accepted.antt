-- ===== src/Model/Accepted.antt =====
-- Domains that the schema of pipeline/domain_v2.py accepts, in pipeline/domain_v2_model.py.

use mathlib.Core.List.{flat_map}
use mathlib.Core.Path.{subst}
use formalspecgen.Domain.{
  DomainSpec, Effect, Guard, IntStateVariable, LockProtocolMetadata, Operation, StateVariable,
  bool_variable, int_variable,
}
use formalspecgen.Domain.Accepted.{IsAccepted, IsFramed, check_operation-IsFramed}
use formalspecgen.Domain.Fields.{is_unique}
use formalspecgen.Domain.References.{member, member-In, referenced_fields, subset-In}
use formalspecgen.Domain.Schema.{
  check_concurrency, check_explicit, check_lock_state, declared_names, find_variable, is_unique_ℤ,
  member_ℤ, operation_fields,
}
use formalspecgen.Model.Effects.{HasDistinctTargets}
use formalspecgen.Model.Exclusion.{IsLockMetadata}
use formalspecgen.Model.Lock.{Lock, lock_of}
use formalspecgen.Model.Simulate.{IsClosed}
use formalspecgen.Prelude.{
  All-of, In, In-append_left, In-append_right, List, Option, String, [], and_true, any, any-false,
  ap, arith, eq_iff, false, get_elem?, inl, inr, map, none, not, refl, some, suc, sym, true, zero,
  ℕ, ℤ, ◌∙◌, ◌∷◌, ◌≡◌,
}
use formalspecgen.Prelude.Int.{eqb_ℤ_iff}
use formalspecgen.Result.{
  >>=-eq-ok, IsOk, in_order-All, ok, ok_injective, or_raise, or_raise-eq-ok, refuse-eq-ok,
  require-eq-ok,
}

In-map : {A : Type 0} (f : A → String) (xs : List A) (a : A) → In a xs → In (f a) (map f xs)
In-map f [] a m = elim m [ ]
In-map f (x ∷ xs) a (inl e) = inl (ap f e)
In-map f (x ∷ xs) a (inr m) = inr (In-map f xs a m)

In-flat_map :
    {A : Type 0} (f : A → List String) (xs : List A) (a : A) (k : String)
    → In a xs
    → In k (f a)
    → In k (flat_map f xs)
unfolding flat_map
In-flat_map f [] a k m h = elim m [ ]
In-flat_map f (x ∷ xs) a k (inl e) h =
    In-append_left k (f x) (flat_map f xs) (subst (λ y. In k (f y)) e h)
In-flat_map f (x ∷ xs) a k (inr m) h =
    In-append_right k (f x) (flat_map f xs) (In-flat_map f xs a k m h)

In-member : (k : String) (names : List String) → In k names → member k names ≡ true
unfolding member
In-member k [] m = elim m [ ]
In-member k (x ∷ xs) (inl e) = rw ((eq_iff x k).1 (sym e))
In-member k (x ∷ xs) (inr m) = ground (arith, In-member k xs m)

-- The targets of effects, no two of which are the same.
is_unique-HasDistinctTargets :
    (es : List Effect)
    → is_unique (map (λ (e : Effect). e.target) es) ≡ true
    → HasDistinctTargets es
unfolding is_unique
is_unique-HasDistinctTargets [] h = tt
is_unique-HasDistinctTargets (e ∷ es) h =
    let both = and_true {a = not (member e.target (map (λ (x : Effect). x.target) es))} h in
    (
      All-of _ es (λ d m same.
          let known : member e.target (map (λ (x : Effect). x.target) es) ≡ true =
            In-member e.target _ (
              subst (λ k. In k (map (λ (x : Effect). x.target) es)) same
                (In-map (λ (x : Effect). x.target) es d m)) in
          let q = rw known at both.0 in cc q),
      is_unique-HasDistinctTargets es both.1,
    )

module _ (spec : DomainSpec) (accepted : IsAccepted spec) where
  operation_of : (op : Operation) → In op spec.operations → IsFramed spec op
  operation_of op m = check_operation-IsFramed spec op (accepted.operations op m)

  -- An operation's names are declared.
  used_declared :
      (op : Operation) (k : String)
      → In op spec.operations
      → In k (operation_fields op)
      → In k (declared_names spec)
  used_declared op k m h = subset-In _ _ k (operation_of op m).declared (
      In-append_right k op.frame _ (
        In-append_right k (map (λ (e : Effect). e.target) op.effects) _
          (In-append_left k (operation_fields op) _ h)))

  target_framed :
      (op : Operation) (e : Effect) → In op spec.operations → In e op.effects → In e.target op.frame
  target_framed op e m h =
      subset-In _ _ e.target (operation_of op m).framed (In-map (λ (x : Effect). x.target) _ e h)

  pub effects-HasDistinctTargets :
      (op : Operation) → In op spec.operations → HasDistinctTargets op.effects
  effects-HasDistinctTargets op m =
      is_unique-HasDistinctTargets op.effects (operation_of op m).distinct

  lock_declared :
      (m : Option LockProtocolMetadata) (l : LockProtocolMetadata)
      → m ≡ some l
      → IsOk (check_concurrency spec m)
      → In l.lock_variable (declared_names spec)
  unfolding check_concurrency
  lock_declared none l e h = cc
  lock_declared (some m) l e h =
      let same : m ≡ l = cc in
      let (known, _) = in_order-All _ h in
      subst (λ x. In x.lock_variable (declared_names spec)) same
        (member-In _ _ (require-eq-ok _ _ known))

  -- The parts of a domain refer to declared variables only.
  pub model_validate-IsClosed : IsClosed spec
  unfolding operation_fields lock_of
  model_validate-IsClosed = record {
    guards = λ op m. All-of _ op.guards (λ g h k r. used_declared op k m (
        In-append_left k _ _
          (In-flat_map (λ (g : Guard). referenced_fields g.expression) op.guards g k h r)));
    effects = λ op m. All-of _ op.effects (λ e h k r. used_declared op k m (
        In-append_right k (flat_map (λ (g : Guard). referenced_fields g.expression) op.guards) _
          (In-flat_map (λ (e : Effect). referenced_fields e.value) op.effects e k h r)));
    invariants = λ i m k r. subset-In _ _ k (accepted.invariants i m).0 r;
    lock = λ l known.
        let (m, given, a) = >>=-eq-ok (or_raise spec.concurrency _) _ known in
        let (owners, _, b) = >>=-eq-ok (or_raise m.actor_lock_values _) _ a in
        let (unlocked, _, c) = >>=-eq-ok (or_raise m.unlocked_value _) _ b in
        let same : m.lock_variable ≡ l.variable = ap (λ x. x.variable) (ok_injective c) in
        subst (λ k. In k (declared_names spec)) same
          (lock_declared spec.concurrency m (or_raise-eq-ok _ _ given) accepted.concurrency);
  }

member_ℤ-get_elem? : (zs : List ℤ) (i : ℕ) (z : ℤ) → get_elem? zs i ≡ some z → member_ℤ z zs ≡ true
unfolding member_ℤ
member_ℤ-get_elem? [] i z h = cc
member_ℤ-get_elem? (w ∷ zs) zero z h = let e : w ≡ z = cc in rw ((eqb_ℤ_iff z w).1 (sym e))
member_ℤ-get_elem? (w ∷ zs) (suc i) z h = ground (arith, member_ℤ-get_elem? zs i z h)

-- Without repetition, equal elements stand at one place.
is_unique_ℤ-get_elem? :
    (zs : List ℤ) (i j : ℕ) (z : ℤ)
    → is_unique_ℤ zs ≡ true
    → get_elem? zs i ≡ some z
    → get_elem? zs j ≡ some z
    → i ≡ j
unfolding is_unique_ℤ
is_unique_ℤ-get_elem? [] i j z u h k = cc
is_unique_ℤ-get_elem? (w ∷ zs) zero zero z u h k = refl
is_unique_ℤ-get_elem? (w ∷ zs) zero (suc j) z u h k =
    let e : w ≡ z = cc in let m = member_ℤ-get_elem? zs j z k in let q = rw (e, m) at u in cc q
is_unique_ℤ-get_elem? (w ∷ zs) (suc i) zero z u h k =
    let e : w ≡ z = cc in let m = member_ℤ-get_elem? zs i z h in let q = rw (e, m) at u in cc q
is_unique_ℤ-get_elem? (w ∷ zs) (suc i) (suc j) z u h k =
    ap suc (is_unique_ℤ-get_elem? zs i j z (and_true {a = not (member_ℤ w zs)} u).1 h k)

-- What the checks of explicit lock metadata say of its owners.
abbrev OwnersChecked : DomainSpec → String → ℤ → List ℤ → Type 0
OwnersChecked spec variable unlocked owners =
    (is_unique_ℤ owners ≡ true)
    × (member_ℤ unlocked owners ≡ false)
    × (any (λ (op : Operation). member variable op.frame) spec.operations ≡ false)

check_explicit-OwnersChecked :
    (spec : DomainSpec) (m : LockProtocolMetadata) (lock : IntStateVariable) (a : Option ℤ)
    (b : Option (List ℤ)) (c : Option (List String)) (unlocked : ℤ) (owners : List ℤ)
    → a ≡ some unlocked
    → b ≡ some owners
    → IsOk (check_explicit spec m lock a b c)
    → OwnersChecked spec m.lock_variable unlocked owners
unfolding check_explicit
check_explicit-OwnersChecked spec m lock (some u) (some os) (some ps) unlocked owners ea eb h =
    let (_, (unique, (apart, (_, (_, (_, (_, (untouched, _)))))))) = in_order-All _ h in
    let eu : u ≡ unlocked = cc in
    let eo : os ≡ owners = cc in
    (
      subst (λ x. is_unique_ℤ x ≡ true) eo (and_true (require-eq-ok _ _ unique)).1,
      subst (λ x. member_ℤ unlocked x ≡ false) eo
          (subst (λ x. member_ℤ x os ≡ false) eu (refuse-eq-ok _ _ apart)),
      refuse-eq-ok _ _ untouched,
    )
check_explicit-OwnersChecked spec m lock (some u) (some os) none unlocked owners ea eb h = cc
check_explicit-OwnersChecked spec m lock (some u) none c unlocked owners ea eb h = cc
check_explicit-OwnersChecked spec m lock none b c unlocked owners ea eb h = cc

check_lock_state-OwnersChecked :
    (spec : DomainSpec) (m : LockProtocolMetadata) (v : Option StateVariable) (unlocked : ℤ)
    (owners : List ℤ)
    → m.unlocked_value ≡ some unlocked
    → m.actor_lock_values ≡ some owners
    → IsOk (check_lock_state spec m v)
    → OwnersChecked spec m.lock_variable unlocked owners
unfolding check_lock_state
check_lock_state-OwnersChecked spec m none unlocked owners ea eb h = cc
check_lock_state-OwnersChecked spec m (some (bool_variable v)) unlocked owners ea eb h = cc
check_lock_state-OwnersChecked spec m (some (int_variable v)) unlocked owners ea eb h =
    check_explicit-OwnersChecked spec m v _ _ _ unlocked owners ea eb h

check_concurrency-OwnersChecked :
    (spec : DomainSpec) (given : Option LockProtocolMetadata) (m : LockProtocolMetadata)
    (unlocked : ℤ) (owners : List ℤ)
    → given ≡ some m
    → m.unlocked_value ≡ some unlocked
    → m.actor_lock_values ≡ some owners
    → IsOk (check_concurrency spec given)
    → OwnersChecked spec m.lock_variable unlocked owners
unfolding check_concurrency
check_concurrency-OwnersChecked spec none m unlocked owners e ea eb h = cc
check_concurrency-OwnersChecked spec (some n) m unlocked owners e ea eb h =
    let same : n ≡ m = cc in
    let (_, (_, (state, _))) = in_order-All _ h in
    check_lock_state-OwnersChecked spec m _ unlocked owners ea eb (
      subst
        (λ x. IsOk (check_lock_state spec x (find_variable x.lock_variable spec.state_variables)))
        same state)

-- In an accepted domain with explicit lock metadata the owner values are distinct and differ from the
-- unlocked value, and no operation assigns the lock variable.
pub model_validate-IsLockMetadata :
    (spec : DomainSpec) (lock : Lock)
    → IsAccepted spec
    → lock_of spec ≡ ok lock
    → IsLockMetadata spec lock
unfolding lock_of
model_validate-IsLockMetadata spec lock accepted known =
    let (m, given, a) = >>=-eq-ok (or_raise spec.concurrency _) _ known in
    let (owners, owned, b) = >>=-eq-ok (or_raise m.actor_lock_values _) _ a in
    let (unlocked, free, c) = >>=-eq-ok (or_raise m.unlocked_value _) _ b in
    let same = ok_injective c in
    let (unique, apart, untouched) =
      check_concurrency-OwnersChecked spec spec.concurrency m unlocked owners
        (or_raise-eq-ok _ _ given) (or_raise-eq-ok _ _ free) (or_raise-eq-ok _ _ owned)
        accepted.concurrency in
    let eo : owners ≡ lock.owners = ap (λ x. x.owners) same in
    let eu : unlocked ≡ lock.unlocked = ap (λ x. x.unlocked) same in
    let ev : m.lock_variable ≡ lock.variable = ap (λ x. x.variable) same in
    record {
      known = known;
      distinct = λ i j z p q.
          is_unique_ℤ-get_elem? lock.owners i j z (subst (λ x. is_unique_ℤ x ≡ true) eo unique) p q;
      separate = λ i z p e.
          let held = member_ℤ-get_elem? lock.owners i z p in
          let free' : member_ℤ z lock.owners ≡ false =
            subst (λ x. member_ℤ x lock.owners ≡ false) (eu ∙ sym e)
              (subst (λ x. member_ℤ unlocked x ≡ false) eo apart) in
          cc (held, free');
      untouched = λ op i. All-of _ op.effects (λ e h t.
          let framed = In-member e.target op.frame (target_framed spec accepted op e i h) in
          let absent = any-false _ spec.operations op untouched i in
          let absent' : member e.target op.frame ≡ false =
            subst (λ x. member x op.frame ≡ false) (ev ∙ sym t) absent in
          cc (framed, absent'));
    }
