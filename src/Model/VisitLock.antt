-- ===== src/Model/VisitLock.antt =====
-- One visit of a state by the lock protocol: `_enqueue_lock_protocol_successors` of
-- pipeline/domain_v2_model.py.

use mathlib.Core.Path.{subst}
use formalspecgen.Domain.{DomainSpec, Operation}
use formalspecgen.Model.Atomic.{range}
use formalspecgen.Model.Evaluate.{apply_effects, guards_hold, insert}
use formalspecgen.Model.Frontier.{Frontier, step}
use formalspecgen.Model.Growth.{
  Covered, Grows, Grows-refl, Grows-trans, append-Grows, for_each-Covered, for_each-Grows,
  step-Grows,
}
use formalspecgen.Model.Lock.{
  Lock, checked_append, dispatch, find_operation, invoke, move_actor, moved, release, respond,
}
use formalspecgen.Model.Reach.{LockStep, acquires, commits, invokes, rejects, releases, responds}
use formalspecgen.Model.Runs.{acquire-eq-ok, linearize-eq-ok, move_actor-eq-ok}
use formalspecgen.Model.Safe.{IsSafe, checks-IsSafe}
use formalspecgen.Model.State.{
  Phase, State, acquired, check_bounds, check_invariants, idle, invoked, linearized, released,
}
use formalspecgen.Model.Value.{int}
use formalspecgen.Prelude.{In, Option, String, ap, get_elem?, inl, inr, set, some, ℕ, ◌≡◌}
use formalspecgen.Result.{>>=-eq-ok, for_each, ok}

module _ (spec : DomainSpec) (lock : Lock) (s : State) (safe : IsSafe spec s.fields) where
  invoke-Grows :
      (actor : ℕ) (op : Operation) (f g : Frontier)
      → invoke s actor op f ≡ ok g
      → Grows spec f g
        × Covered spec
            (record (moved s actor invoked s.fields) { pending = set s.pending actor op.name })
            g
  unfolding invoke moved
  invoke-Grows actor op f g h =
      let (f₁, stepped, appended) = >>=-eq-ok (step f) _ h in
      let (grows, covered) = append-Grows spec _ f₁ g safe appended in
      (Grows-trans spec f f₁ g (step-Grows spec f f₁ stepped) grows, covered)

  checked_append-Grows :
      (post : State) (label : String) (f g : Frontier)
      → checked_append spec post label f ≡ ok g
      → Grows spec f g × Covered spec post g
  unfolding checked_append
  checked_append-Grows post label f g h =
      let (_, bounded, rest) = >>=-eq-ok (check_bounds spec post.fields label) _ h in
      let (_, kept, appended) = >>=-eq-ok (check_invariants spec post.fields label) _ rest in
      append-Grows spec post f g (checks-IsSafe spec post.fields label bounded kept) appended

  release-Grows :
      (actor : ℕ) (name : String) (f g : Frontier)
      → release spec lock s actor name f ≡ ok g
      → Grows spec f g
        × Covered spec
            (moved s actor released (insert lock.variable (int lock.unlocked) s.fields))
            g
  unfolding release moved
  release-Grows actor name f g h = checked_append-Grows _ _ f g h

  respond-Grows :
      (actor : ℕ) (f g : Frontier)
      → respond s actor f ≡ ok g
      → Grows spec f g
        × Covered spec
            (record (moved s actor idle s.fields) { pending = set s.pending actor "none" })
            g
  unfolding respond moved
  respond-Grows actor f g h = append-Grows spec _ f g safe h

  dispatch-Grows :
      (actor : ℕ) (name : String) (pc : Phase) (f g : Frontier)
      → dispatch spec lock s actor name pc f ≡ ok g
      → Grows spec f g
  unfolding dispatch
  dispatch-Grows actor name idle f g h =
      for_each-Grows spec (invoke s actor) spec.operations
        (λ op _ a b r. (invoke-Grows actor op a b r).0) f g h
  dispatch-Grows actor name invoked f g h =
      let (_, _, rest) = acquire-eq-ok spec lock s actor name f g h in
      elim rest [
        | inl (_, (_, label, _, run)) ↦ (checked_append-Grows _ label f g run).0
        | inr (_, e) ↦ subst (Grows spec f) e (Grows-refl spec f)
      ]
  dispatch-Grows actor name acquired f g h =
      let (_, _, rest) = linearize-eq-ok spec lock s actor name f g h in
      elim rest [
        | inl (_, (_, label, _, run)) ↦ (checked_append-Grows _ label f g run).0
        | inr (_, (label, run)) ↦ (checked_append-Grows _ label f g run).0
      ]
  dispatch-Grows actor name linearized f g h = (release-Grows actor name f g h).0
  dispatch-Grows actor name released f g h = (respond-Grows actor f g h).0

  move_actor-Grows :
      (actor : ℕ) (f g : Frontier) → move_actor spec lock s actor f ≡ ok g → Grows spec f g
  move_actor-Grows actor f g h =
      let (f₁, stepped, (pc, _, (name, _, run))) = move_actor-eq-ok spec lock s actor f g h in
      Grows-trans spec f f₁ g (step-Grows spec f f₁ stepped) (dispatch-Grows actor name pc f₁ g run)

  some_phase : {a b : Phase} {o : Option Phase} → o ≡ some a → o ≡ some b → a ≡ b
  some_phase p q = cc

  dispatch-Covered :
      (actor : ℕ) (name : String) (pc : Phase) (t : State) (f g : Frontier)
      → get_elem? s.pcs actor ≡ some pc
      → get_elem? s.pending actor ≡ some name
      → LockStep spec lock s actor t
      → dispatch spec lock s actor name pc f ≡ ok g
      → Covered spec t g
  unfolding dispatch
  dispatch-Covered actor name pc t f g at_pc at_name (invokes op m phase e) h =
      let run = rw (some_phase at_pc phase) at h in
      for_each-Covered spec (invoke s actor) spec.operations op t
        (λ o _ a b r. (invoke-Grows actor o a b r).0) m
        (λ a b r. rw e (invoke-Grows actor op a b r).1) f g run
  dispatch-Covered actor name pc t f g at_pc at_name (acquires value owner phase found free owned e)
        h =
      let run = rw (some_phase at_pc phase) at h in
      let (value', found', rest) = acquire-eq-ok spec lock s actor name f g run in
      let same : value' ≡ value = cc in
      elim rest [
        | inl (_, (owner', label, owned', done)) ↦
            let o : owner ≡ owner' = cc in rw (e, o) (checked_append-Grows _ label f g done).1
        | inr (taken, _) ↦ cc
      ]
  dispatch-Covered actor name pc t f g at_pc at_name
        (commits name' op post phase n known held applied e) h =
      let run = rw (some_phase at_pc phase) at h in
      let (op', known', rest) = linearize-eq-ok spec lock s actor name f g run in
      let nm : name' ≡ name = cc in
      let same : op' ≡ op = cc (known, known', ap (λ x. find_operation x spec.operations) nm) in
      elim rest [
        | inl (_, (post', label, applied', done)) ↦
            let o : post ≡ post' =
              cc (applied, applied', ap (λ x. apply_effects x s.fields) same) in
            rw (e, o) (checked_append-Grows _ label f g done).1
        | inr (off, _) ↦ cc (off, held, ap (λ x. guards_hold x s.fields) same)
      ]
  dispatch-Covered actor name pc t f g at_pc at_name (rejects name' op phase n known held e) h =
      let run = rw (some_phase at_pc phase) at h in
      let (op', known', rest) = linearize-eq-ok spec lock s actor name f g run in
      let nm : name' ≡ name = cc in
      let same : op' ≡ op = cc (known, known', ap (λ x. find_operation x spec.operations) nm) in
      elim rest [
        | inl (on, _) ↦ cc (on, held, ap (λ x. guards_hold x s.fields) same)
        | inr (_, (label, done)) ↦ rw e (checked_append-Grows _ label f g done).1
      ]
  dispatch-Covered actor name pc t f g at_pc at_name (releases phase e) h =
      let run = rw (some_phase at_pc phase) at h in rw e (release-Grows actor name f g run).1
  dispatch-Covered actor name pc t f g at_pc at_name (responds phase e) h =
      let run = rw (some_phase at_pc phase) at h in rw e (respond-Grows actor f g run).1

  pub move_actors-Grows :
      (f g : Frontier)
      → for_each (move_actor spec lock s) (range spec.actors) f ≡ ok g
      → Grows spec f g
  move_actors-Grows =
      for_each-Grows spec (move_actor spec lock s) (range spec.actors) (λ a _. move_actor-Grows a)

  pub move_actors-Covered :
      (actor : ℕ) (t : State) (f g : Frontier)
      → In actor (range spec.actors)
      → LockStep spec lock s actor t
      → for_each (move_actor spec lock s) (range spec.actors) f ≡ ok g
      → Covered spec t g
  move_actors-Covered actor t f g m st =
      for_each-Covered spec (move_actor spec lock s) (range spec.actors) actor t
        (λ a _. move_actor-Grows a) m
        (λ a b r.
          let (f₁, _, (pc, at_pc, (name, at_name, run))) =
            move_actor-eq-ok spec lock s actor a b r in
          dispatch-Covered actor name pc t f₁ b at_pc at_name st run)
        f g
