-- ===== src/Model/Budget.antt =====
-- The accounts of `_BoundedFrontier` of pipeline/domain_v2_model.py: its limits, its counts, and the
-- discovered states that are no longer in the queue.

use mathlib.Core.Path.{subst}
use formalspecgen.Domain.{DomainSpec, Operation}
use formalspecgen.Model.Atomic.{
  atomic_successors, attempt, callers, fire, has_lock_protocol, range, stutter,
}
use formalspecgen.Model.Evaluate.{Error, Fields}
use formalspecgen.Model.Explore.{successors}
use formalspecgen.Model.Frontier.{
  Frontier, append, append-eq-ok, counted, discover, discover-eq-ok, step, step-eq-ok,
}
use formalspecgen.Model.Lock.{
  Lock, checked_append, dispatch, invoke, lock_of, lock_successors, move_actor, release, respond,
}
use formalspecgen.Model.Runs.{acquire-eq-ok, attempt-eq-ok, linearize-eq-ok, move_actor-eq-ok}
use formalspecgen.Model.State.{
  Phase, State, acquired, check_bounds, check_invariants, idle, invoked, linearized, released,
}
use formalspecgen.Prelude.{
  Bool-cases, List, Option, String, [], arith, inl, inr, length, length-append, refl, ℕ, ◌+◌, ◌∷◌,
  ◌≡◌, ◌≤◌,
}
use formalspecgen.Result.{>>=-eq-ok, Result, for_each, for_each-rel, ok}

pub record Accounts (f g : Frontier) : Type 0 where
  pub limits :
      (g.max_states ≡ f.max_states)
      × (g.max_transitions ≡ f.max_transitions)
      × (g.max_work_items ≡ f.max_work_items)
  pub states : length f.discovered ≤ f.max_states → length g.discovered ≤ f.max_states
  pub edges : f.transitions ≤ f.max_transitions → g.transitions ≤ f.max_transitions
  pub work : f.work_items ≤ f.max_work_items → g.work_items ≤ f.max_work_items
  pub waiting : length g.discovered + length f.queue ≡ length f.discovered + length g.queue

pub Accounts-refl : (f : Frontier) → Accounts f f
Accounts-refl f = record {
  limits = (refl, refl, refl);
  states = λ h. h;
  edges = λ h. h;
  work = λ h. h;
  waiting = refl;
}

pub Accounts-trans : (f g h : Frontier) → Accounts f g → Accounts g h → Accounts f h
Accounts-trans f g h a b =
    ground (arith, a.limits, b.limits, a.states, b.states, a.edges, b.edges, a.work, b.work)

step-Accounts : (f g : Frontier) → step f ≡ ok g → Accounts f g
step-Accounts f g h =
    let (room, e) = step-eq-ok f g h in
    rw e (record {
      limits = (refl, refl, refl);
      states = λ p. p;
      edges = λ p. p;
      work = λ p. omega arith;
      waiting = refl;
    })

pub discover-Accounts : (s : State) (f g : Frontier) → discover s f ≡ ok g → Accounts f g
discover-Accounts s f g h = elim (discover-eq-ok s f g h) [
  | inl (_, e) ↦ rw e (Accounts-refl f)
  | inr (room, e) ↦ rw e (record {
    limits = (refl, refl, refl);
    states = λ p. room;
    edges = λ p. p;
    work = λ p. p;
    waiting = omega (arith, length-append f.queue (s ∷ []));
  })
]

append-Accounts : (s : State) (f g : Frontier) → append s f ≡ ok g → Accounts f g
append-Accounts s f g h =
    let (room, found) = append-eq-ok s f g h in
    let a = discover-Accounts s (counted f) g found in
    record {
      limits = a.limits;
      states = a.states;
      edges = λ p. a.edges (omega arith);
      work = a.work;
      waiting = a.waiting;
    }

module _ {A : Type 0} (body : A → Frontier → Result Error Frontier) where
  for_each-Accounts :
      (xs : List A)
      → ((x : A) → (f g : Frontier) → body x f ≡ ok g → Accounts f g)
      → (f g : Frontier) → for_each body xs f ≡ ok g
      → Accounts f g
  for_each-Accounts xs each =
      for_each-rel Accounts Accounts-refl Accounts-trans body xs (λ x _. each x)

module _ (spec : DomainSpec) where
  fire-Accounts :
      (s : State) (op : Operation) (post : Fields) (caller : Option ℕ) (f g : Frontier)
      → fire spec s op post caller f ≡ ok g
      → Accounts f g
  unfolding fire
  fire-Accounts s op post caller f g h =
      let (f₁, stepped, rest) = >>=-eq-ok (step f) _ h in
      let (_, _, rest₂) = >>=-eq-ok (check_bounds spec _ op.name) _ rest in
      let (_, _, appended) = >>=-eq-ok (check_invariants spec _ op.name) _ rest₂ in
      Accounts-trans f f₁ g (step-Accounts f f₁ stepped) (append-Accounts _ f₁ g appended)

  stutter-Accounts :
      (s : State) (actor : ℕ) (f g : Frontier) → stutter s actor f ≡ ok g → Accounts f g
  unfolding stutter
  stutter-Accounts s actor f g h =
      let (f₁, stepped, appended) = >>=-eq-ok (step f) _ h in
      Accounts-trans f f₁ g (step-Accounts f f₁ stepped) (append-Accounts _ f₁ g appended)

  attempt-Accounts :
      (s : State) (op : Operation) (f g : Frontier) → attempt spec s op f ≡ ok g → Accounts f g
  attempt-Accounts s op f g h =
      let (f₁, stepped, rest) = attempt-eq-ok spec s op f g h in
      Accounts-trans f f₁ g (step-Accounts f f₁ stepped) (elim rest [
        | inl (_, (post, _, run)) ↦
            for_each-Accounts (fire spec s op post) (callers spec op) (fire-Accounts s op post) f₁ g
              run
        | inr (_, inl (_, run)) ↦
            for_each-Accounts (stutter s) (range spec.actors) (stutter-Accounts s) f₁ g run
        | inr (_, inr (_, e)) ↦ subst (Accounts f₁) e (Accounts-refl f₁)
      ])

  checked_append-Accounts :
      (post : State) (label : String) (f g : Frontier)
      → checked_append spec post label f ≡ ok g
      → Accounts f g
  unfolding checked_append
  checked_append-Accounts post label f g h =
      let (_, _, rest) = >>=-eq-ok (check_bounds spec post.fields label) _ h in
      let (_, _, appended) = >>=-eq-ok (check_invariants spec post.fields label) _ rest in
      append-Accounts post f g appended

  invoke-Accounts :
      (s : State) (actor : ℕ) (op : Operation) (f g : Frontier)
      → invoke s actor op f ≡ ok g
      → Accounts f g
  unfolding invoke
  invoke-Accounts s actor op f g h =
      let (f₁, stepped, appended) = >>=-eq-ok (step f) _ h in
      Accounts-trans f f₁ g (step-Accounts f f₁ stepped) (append-Accounts _ f₁ g appended)

  dispatch-Accounts :
      (lock : Lock) (s : State) (actor : ℕ) (name : String) (pc : Phase) (f g : Frontier)
      → dispatch spec lock s actor name pc f ≡ ok g
      → Accounts f g
  unfolding dispatch release respond
  dispatch-Accounts lock s actor name idle f g h =
      for_each-Accounts (invoke s actor) spec.operations (invoke-Accounts s actor) f g h
  dispatch-Accounts lock s actor name invoked f g h =
      let (_, _, rest) = acquire-eq-ok spec lock s actor name f g h in
      elim rest [
        | inl (_, (_, label, _, run)) ↦ checked_append-Accounts _ label f g run
        | inr (_, e) ↦ subst (Accounts f) e (Accounts-refl f)
      ]
  dispatch-Accounts lock s actor name acquired f g h =
      let (_, _, rest) = linearize-eq-ok spec lock s actor name f g h in
      elim rest [
        | inl (_, (_, label, _, run)) ↦ checked_append-Accounts _ label f g run
        | inr (_, (label, run)) ↦ checked_append-Accounts _ label f g run
      ]
  dispatch-Accounts lock s actor name linearized f g h = checked_append-Accounts _ _ f g h
  dispatch-Accounts lock s actor name released f g h = append-Accounts _ f g h

  move_actor-Accounts :
      (lock : Lock) (s : State) (actor : ℕ) (f g : Frontier)
      → move_actor spec lock s actor f ≡ ok g
      → Accounts f g
  move_actor-Accounts lock s actor f g h =
      let (f₁, stepped, (pc, _, (name, _, run))) = move_actor-eq-ok spec lock s actor f g h in
      Accounts-trans f f₁ g (step-Accounts f f₁ stepped)
        (dispatch-Accounts lock s actor name pc f₁ g run)

  pub successors-Accounts : (s : State) (f g : Frontier) → successors spec s f ≡ ok g → Accounts f g
  unfolding successors lock_successors atomic_successors
  successors-Accounts s f g h = elim (Bool-cases (has_lock_protocol spec)) [
    | inl locks ↦
        let r = rw locks at h in
        let (lock, _, run) = >>=-eq-ok (lock_of spec) _ r in
        for_each-Accounts (move_actor spec lock s) (range spec.actors) (move_actor-Accounts lock s)
          f g run
    | inr plain ↦
        let r = rw plain at h in
        for_each-Accounts (attempt spec s) spec.operations (attempt-Accounts s) f g r
  ]
