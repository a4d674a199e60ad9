-- ===== src/Model/Verdict.antt =====
-- The verdict of `validate_transitions_and_invariants` of pipeline/domain_v2_model.py.

use mathlib.Core.Option
use formalspecgen.Domain.{DomainSpec, Operation}
use formalspecgen.Domain.Accepted.{model_validate-IsAccepted}
use formalspecgen.Domain.Schema.{model_validate}
use formalspecgen.Model.Accepted.{model_validate-IsClosed}
use formalspecgen.Model.Atomic.{initial_state}
use formalspecgen.Model.Budget.{Accounts, discover-Accounts}
use formalspecgen.Model.Closure.{continue-eq-ok}
use formalspecgen.Model.Evaluate.{Error, Fields, apply_effects, guards_hold}
use formalspecgen.Model.Explore.{
  continue, enter, finish, traverse, validate_transitions_and_invariants,
}
use formalspecgen.Model.Frontier.{Frontier, counted, new_frontier}
use formalspecgen.Model.Progress.{HasValue-IsTyped, apply_effects-IsTyped}
use formalspecgen.Model.Reach.{Reach}
use formalspecgen.Model.Safe.{IsSafe, IsSafe-AgreeOn}
use formalspecgen.Model.Simulate.{IsClosed}
use formalspecgen.Model.Soundness.{Reach-discovered, enter-eq-ok, finish-eq-ok, run-Explored}
use formalspecgen.Model.State.{State}
use formalspecgen.Model.Termination.{
  Accounts-WithinLimits, continue-some, new_frontier-eq-ok, new_frontier_empty, traverse-Accounts,
  traverse_total,
}
use formalspecgen.Prelude.{
  Bool, In, Option, ap, arith, length, none, refl, some, sym, ℕ, ◌<◌, ◌∙◌, ◌≡◌, ◌≤◌,
}
use formalspecgen.Result.{Result, err, ok}

map-eq-some :
    {A B : Type 0} (g : A → B) (o : Option A) {b : B}
    → Option.map g o ≡ some b
    → (a : A) × (o ≡ some a) × (g a ≡ b)
map-eq-some g none h = cc
map-eq-some g (some a) h = (a, refl, cc)

module _ (spec : DomainSpec) (a b c : ℕ) where
  -- The run behind a successful verdict.
  validate-eq-ok :
      (counts : ℕ × ℕ)
      → validate_transitions_and_invariants spec a b c ≡ some (ok counts)
      → (new : Frontier) × (new_frontier a b c ≡ ok new)
        × ((f : Frontier) × (continue (traverse a spec) (enter spec new) ≡ some (ok f))
            × (0 < f.transitions)
            × (counts ≡ (length f.discovered, f.transitions)))
  unfolding validate_transitions_and_invariants
  validate-eq-ok counts h =
      let (new, fresh, rest) = continue-eq-ok _ (new_frontier a b c) h in
      let (r, run, done) = map-eq-some finish _ rest in
      let (f, is_ok, moved_on, counted) = finish-eq-ok r counts done in
      (new, fresh, (f, run ∙ ap some is_ok, moved_on, counted))

  -- If the validation succeeds on a domain whose expressions and lock refer to declared variables,
  -- every state that the operations or the lock protocol can reach has all declared variables within
  -- their bounds and satisfies all invariants.
  pub validate-IsSafe :
      (counts : ℕ × ℕ)
      → IsClosed spec
      → validate_transitions_and_invariants spec a b c ≡ some (ok counts)
      → {s : State} → Reach spec s
      → IsSafe spec s.fields
  validate-IsSafe counts closed h {s} r =
      let (new, fresh, (f, run, _, _)) = validate-eq-ok counts h in
      let (no_queue, nothing) = new_frontier_empty a b c new fresh in
      let (done, empty, first) = run-Explored spec closed a new f no_queue nothing run in
      let (d, m, same) = Reach-discovered spec closed f done empty first r in
      IsSafe-AgreeOn spec d.fields s.fields closed.invariants (λ k n. sym (same.fields k n))
        (done.safe d m)

  enter-Accounts : (f g : Frontier) → enter spec f ≡ ok g → Accounts f g
  enter-Accounts f g h = discover-Accounts (initial_state spec) f g (enter-eq-ok spec f g h).1

  -- The validation has a verdict on every domain and under all limits: the number of rounds that
  -- the loop is given is never used up.
  pub validate_total :
      (r : Result Error (ℕ × ℕ)) × (validate_transitions_and_invariants spec a b c ≡ some r)
  unfolding validate_transitions_and_invariants
  validate_total = total (new_frontier a b c) refl
    where
      total :
          (m : Result Error Frontier)
          → new_frontier a b c ≡ m
          → (r : Result Error (ℕ × ℕ)) × (continue
                (λ new. Option.map finish (continue (traverse a spec) (enter spec new)))
                m
              ≡ some r)
      total (err e) h = (err e, unfold continue in refl)
      total (ok new) h =
          let (w, ea, _, _, empty) = new_frontier-eq-ok a b c new h in
          let (r, run) = continue-some spec (traverse a spec) (enter spec new) (λ g entered.
            let acc = enter-Accounts new g entered in
            traverse_total spec a g (Accounts-WithinLimits new g acc w)
              (omega (arith, acc.waiting, acc.limits, ea, empty))) in
          (finish r, unfold continue in rw run)

  -- The counts of a successful validation are within the limits, and there is a transition.
  pub validate_bounds :
      (n m : ℕ)
      → validate_transitions_and_invariants spec a b c ≡ some (ok (n, m))
      → (n ≤ a) × (m ≤ b) × (0 < m)
  validate_bounds n m h =
      let (new, fresh, (f, run, moved_on, counted)) = validate-eq-ok (n, m) h in
      let (g, entered, looped) = continue-eq-ok (traverse a spec) (enter spec new) run in
      let (w, ea, eb, ec, _) = new_frontier-eq-ok a b c new fresh in
      let acc = enter-Accounts new g entered in
      let (wf, es, et) = traverse-Accounts spec a g f (Accounts-WithinLimits new g acc w) looped in
      let en = ap (λ (p : ℕ × ℕ). p.0) counted in
      let em = ap (λ (p : ℕ × ℕ). p.1) counted in
      omega (arith, wf.states, wf.edges, acc.limits, en, em)

-- An accepted domain that is validated keeps its promises: every state that the operations or the
-- lock protocol can reach has all declared variables within their bounds and satisfies all
-- invariants, and in it the guards and the effects of every operation are evaluated without an
-- exception.
pub model_validate-IsSafe :
    (spec read : DomainSpec) (a b c : ℕ) (counts : ℕ × ℕ)
    → model_validate spec ≡ ok read
    → validate_transitions_and_invariants spec a b c ≡ some (ok counts)
    → {s : State} → Reach spec s
    → IsSafe spec s.fields
      × ((op : Operation)
          → In op spec.operations
          → ((enabled : Bool) × (guards_hold op s.fields ≡ ok enabled))
            × ((post : Fields) × (apply_effects op s.fields ≡ ok post)))
model_validate-IsSafe spec read a b c counts valid run {s} r =
    let accepted = model_validate-IsAccepted spec valid in
    let safe = validate-IsSafe spec a b c counts (model_validate-IsClosed spec accepted) run r in
    (
      safe,
      λ op m.
          let typed = HasValue-IsTyped spec s.fields safe.bounds in
          let (guards, (post, done, _)) = apply_effects-IsTyped spec accepted s.fields op m typed in
          (guards, (post, done)),
    )
