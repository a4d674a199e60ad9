-- ===== src/Model/Simulate.antt =====
-- The step relation of Model.Reach on two states that agree on the declared variables.
use mathlib.Core.Path.{subst}
use formalspecgen.Domain.{DomainSpec, Invariant, Operation}
use formalspecgen.Model.Agree.{
  AgreeOn, RefersTo, all_hold-AgreeOn, compute_effects-AgreeOn, insert-AgreeOn, update-AgreeOn,
}
use formalspecgen.Model.Atomic.{fired, has_results, record_success, stuttered}
use formalspecgen.Model.Evaluate.{
  Fields, apply_effects, compute_effects, guards_hold, insert, update,
}
use formalspecgen.Model.Lock.{Lock, find_operation, lock_of, moved}
use formalspecgen.Model.Reach.{
  AtomicStep, LockStep, Step, acquires, atomic, commits, fires, invokes, locked, refuses, rejects,
  releases, responds,
}
use formalspecgen.Model.Safe.{declared}
use formalspecgen.Model.Same.{Agree}
use formalspecgen.Model.State.{Phase, State, acquired, failure, idle, invoked, linearized, released}
use formalspecgen.Model.Value.{int}
use formalspecgen.Prelude.{
  All, Bool-cases, In, List, Option, String, [], ap, get_elem?, inl, inr, refl, set, some, str_eq,
  sym, ℕ, ℤ, ◌∙◌, ◌∷◌, ◌≡◌,
}
use formalspecgen.Result.{>>=-eq-ok, ok, ok_injective}

-- The expressions of the domain refer to declared variables, and so does the lock. The schema of
-- pipeline/domain_v2.py refuses other domains.
pub record IsClosed (spec : DomainSpec) : Type 0 where
  pub guards :
      (op : Operation)
      → In op spec.operations
      → All (λ g. RefersTo (declared spec) g.expression) op.guards
  pub effects :
      (op : Operation)
      → In op spec.operations
      → All (λ e. RefersTo (declared spec) e.value) op.effects
  pub invariants :
      (i : Invariant) → In i spec.tlc_invariants → RefersTo (declared spec) i.expression
  pub lock : (l : Lock) → lock_of spec ≡ ok l → In l.variable (declared spec)

pub find_operation-In :
    (name : String) (ops : List Operation) (op : Operation)
    → find_operation name ops ≡ some op
    → In op ops
unfolding find_operation
find_operation-In name [] op h = cc
find_operation-In name (o ∷ ops) op h = elim (Bool-cases (str_eq o.name name)) [
  | inl same ↦ inl (let r = rw same at h in cc r)
  | inr other ↦ inr (find_operation-In name ops op (let r = rw other at h in r))
]

module _ (spec : DomainSpec) (closed : IsClosed spec) (s t : State) (agree : Agree spec s t) where
  guards_hold-Agree :
      (op : Operation) → In op spec.operations → guards_hold op s.fields ≡ guards_hold op t.fields
  unfolding guards_hold
  guards_hold-Agree op m =
      all_hold-AgreeOn (declared spec) s.fields t.fields agree.fields op.guards (closed.guards op m)

  apply_effects-Agree :
      (op : Operation) (post : Fields)
      → In op spec.operations
      → apply_effects op s.fields ≡ ok post
      → (post' : Fields) × (apply_effects op t.fields ≡ ok post')
        × AgreeOn (declared spec) post post'
  unfolding apply_effects
  apply_effects-Agree op post m h =
      let (computed, run, done) = >>=-eq-ok (compute_effects op.effects s.fields) _ h in
      let same =
        compute_effects-AgreeOn (declared spec) s.fields t.fields agree.fields op.effects
          (closed.effects op m) in
      (
        update t.fields computed,
        rw (sym same ∙ run),
        subst (λ p. AgreeOn (declared spec) p (update t.fields computed)) (ok_injective done)
            (update-AgreeOn (declared spec) computed s.fields t.fields agree.fields),
      )

  AtomicStep-Agree :
      (op : Operation) (u : State)
      → In op spec.operations
      → AtomicStep spec s op u
      → (w : State) × AtomicStep spec t op w × Agree spec u w
  unfolding fired stuttered
  AtomicStep-Agree op u m (fires post caller held applied mc e) =
      let (post', applied', same) = apply_effects-Agree op post m applied in
      (
        fired spec t post' caller,
        fires post' caller (sym (guards_hold-Agree op m) ∙ held) applied' mc refl,
        rw e (record {
          fields = same;
          pcs = agree.pcs;
          pending = agree.pending;
          results = ap (record_success (has_results spec) caller) agree.results;
        }),
      )
  AtomicStep-Agree op u m (refuses actor held stut ma e) = (
    stuttered t actor,
    refuses actor (sym (guards_hold-Agree op m) ∙ held) stut ma refl,
    rw e (record {
      fields = agree.fields;
      pcs = agree.pcs;
      pending = agree.pending;
      results = ap (λ r. set r actor failure) agree.results;
    }),
  )

  moved-Agree :
      (actor : ℕ) (phase : Phase) (a b : Fields)
      → AgreeOn (declared spec) a b
      → Agree spec (moved s actor phase a) (moved t actor phase b)
  unfolding moved
  moved-Agree actor phase a b h = record {
    fields = h;
    pcs = ap (λ p. set p actor phase) agree.pcs;
    pending = agree.pending;
    results = agree.results;
  }

  with_pending-Agree :
      (actor : ℕ) (phase : Phase) (name : String)
      → Agree spec
          (record (moved s actor phase s.fields) { pending = set s.pending actor name })
          (record (moved t actor phase t.fields) { pending = set t.pending actor name })
  unfolding moved
  with_pending-Agree actor phase name = record {
    fields = agree.fields;
    pcs = ap (λ p. set p actor phase) agree.pcs;
    pending = ap (λ p. set p actor name) agree.pending;
    results = agree.results;
  }

  at_pcs : (actor : ℕ) (o : Option Phase) → get_elem? s.pcs actor ≡ o → get_elem? t.pcs actor ≡ o
  at_pcs actor o h = ap (λ p. get_elem? p actor) (sym agree.pcs) ∙ h

  at_pending :
      (actor : ℕ) (o : Option String)
      → get_elem? s.pending actor ≡ o
      → get_elem? t.pending actor ≡ o
  at_pending actor o h = ap (λ p. get_elem? p actor) (sym agree.pending) ∙ h

  insert_lock :
      (lock : Lock) (z : ℤ)
      → AgreeOn
          (declared spec)
          (insert lock.variable (int z) s.fields)
          (insert lock.variable (int z) t.fields)
  insert_lock lock z =
      insert-AgreeOn (declared spec) lock.variable (int z) s.fields t.fields agree.fields

  LockStep-Agree :
      (lock : Lock) (actor : ℕ) (u : State)
      → In lock.variable (declared spec)
      → LockStep spec lock s actor u
      → (w : State) × LockStep spec lock t actor w × Agree spec u w
  LockStep-Agree lock actor u ml (invokes op m phase e) =
      (_, invokes op m (at_pcs _ _ phase) refl, rw e (with_pending-Agree actor invoked op.name))
  LockStep-Agree lock actor u ml (acquires value owner phase found free owned e) = (
    _,
    acquires value owner (at_pcs _ _ phase) (sym (agree.fields _ ml) ∙ found) free owned refl,
    rw e (moved-Agree actor acquired _ _ (insert_lock lock owner)),
  )
  LockStep-Agree lock actor u ml (commits name op post phase n known held applied e) =
      let m = find_operation-In name spec.operations op known in
      let (post', applied', same) = apply_effects-Agree op post m applied in
      (
        _,
        commits name op post' (at_pcs _ _ phase) (at_pending _ _ n) known
            (sym (guards_hold-Agree op m) ∙ held) applied' refl,
        rw e (moved-Agree actor linearized post post' same),
      )
  LockStep-Agree lock actor u ml (rejects name op phase n known held e) =
      let m = find_operation-In name spec.operations op known in
      (
        _,
        rejects name op (at_pcs _ _ phase) (at_pending _ _ n) known
            (sym (guards_hold-Agree op m) ∙ held) refl,
        rw e (moved-Agree actor released _ _ (insert_lock lock lock.unlocked)),
      )
  LockStep-Agree lock actor u ml (releases phase e) = (
    _,
    releases (at_pcs _ _ phase) refl,
    rw e (moved-Agree actor released _ _ (insert_lock lock lock.unlocked)),
  )
  LockStep-Agree lock actor u ml (responds phase e) =
      (_, responds (at_pcs _ _ phase) refl, rw e (with_pending-Agree actor idle "none"))

  pub Step-Agree : (u : State) → Step spec s u → (w : State) × Step spec t w × Agree spec u w
  Step-Agree u (atomic op no_lock m st) =
      let (w, st', same) = AtomicStep-Agree op u m st in (w, atomic op no_lock m st', same)
  Step-Agree u (locked lock actor has known m st) =
      let (w, st', same) = LockStep-Agree lock actor u (closed.lock lock known) st in
      (w, locked lock actor has known m st', same)
