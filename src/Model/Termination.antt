-- ===== src/Model/Termination.antt =====
-- The number of rounds of the loop of pipeline/domain_v2_model.py against its budgets.
use mathlib.Core.Path.{subst}
use formalspecgen.Domain.{DomainSpec}
use formalspecgen.Model.Budget.{Accounts, successors-Accounts}
use formalspecgen.Model.Closure.{last_round-eq-ok, next_round-eq-ok}
use formalspecgen.Model.Evaluate.{Error}
use formalspecgen.Model.Explore.{continue, last_round, next_round, successors, traverse}
use formalspecgen.Model.Frontier.{Frontier, new_frontier}
use formalspecgen.Model.State.{State}
use formalspecgen.Prelude.{
  List, Option, [], ap, arith, inl, inr, length, ltb, refl, some, suc, zero, ℕ, ◌+◌, ◌∙◌, ◌∷◌, ◌≡◌,
  ◌≤◌,
}
use formalspecgen.Result.{>>=-eq-ok, Result, err, ok, ok_injective, require}

-- No count has passed its limit.
pub record WithinLimits (f : Frontier) : Type 0 where
  pub states : length f.discovered ≤ f.max_states
  pub edges : f.transitions ≤ f.max_transitions
  pub work : f.work_items ≤ f.max_work_items

pub Accounts-WithinLimits : (f g : Frontier) → Accounts f g → WithinLimits f → WithinLimits g
Accounts-WithinLimits f g a w =
    ground (arith, a.limits, a.states w.states, a.edges w.edges, a.work w.work)

abbrev popped : Frontier → List State → Frontier
popped f rest = record f { queue = rest }

module _ (spec : DomainSpec) where
  -- Every round leaves one state fewer to visit among those that the limit allows.
  abbrev pub Enough : ℕ → Frontier → Type 0
  Enough fuel f = f.max_states + length f.queue ≤ fuel + length f.discovered

  round-Enough :
      (fuel : ℕ) (s : State) (rest : List State) (f g : Frontier)
      → f.queue ≡ s ∷ rest
      → Enough (suc fuel) f
      → Accounts (popped f rest) g
      → Enough fuel g
  round-Enough fuel s rest f g q h a = omega (arith, a.waiting, a.limits, ap (length {A = State}) q)

  pub continue-some :
      (loop : Frontier → Option (Result Error Frontier)) (m : Result Error Frontier)
      → ((f : Frontier) → m ≡ ok f → (r : Result Error Frontier) × (loop f ≡ some r))
      → (r : Result Error Frontier) × (continue loop m ≡ some r)
  unfolding continue
  continue-some loop (ok f) h = h f refl
  continue-some loop (err e) h = (err e, refl)

  pub traverse_total :
      (fuel : ℕ) (f : Frontier)
      → WithinLimits f
      → Enough fuel f
      → (r : Result Error Frontier) × (traverse fuel spec f ≡ some r)
  unfolding traverse last_round next_round
  traverse_total zero f w enough = last f.queue refl
    where
      last :
          (q : List State) → f.queue ≡ q → (r : Result Error Frontier) × (last_round f q ≡ some r)
      last [] e = (ok f, refl)
      last (s ∷ rest) e = absurd (omega (arith, w.states, enough, ap (length {A = State}) e))
  traverse_total (suc fuel) f w enough = round f.queue refl (traverse_total fuel)
    where
      round :
          (q : List State)
          → f.queue ≡ q
          → ((g : Frontier)
              → WithinLimits g
              → Enough fuel g
              → (r : Result Error Frontier) × (traverse fuel spec g ≡ some r))
          → (r : Result Error Frontier) × (next_round (traverse fuel spec) spec f q ≡ some r)
      round [] e again = (ok f, refl)
      round (s ∷ rest) e again =
          continue-some (traverse fuel spec) (successors spec s (popped f rest)) (λ g run.
            let a = successors-Accounts spec s (popped f rest) g run in
            again g
              (Accounts-WithinLimits (popped f rest) g a
                (record { states = w.states; edges = w.edges; work = w.work }))
              (round-Enough fuel s rest f g e enough a))

pub new_frontier_empty :
    (a b c : ℕ) (f : Frontier) → new_frontier a b c ≡ ok f → (f.queue ≡ []) × (f.discovered ≡ [])
unfolding new_frontier
new_frontier_empty a b c f h =
    let (_, _, rest) = >>=-eq-ok (require (ltb 0 a) _) _ h in
    let (_, _, rest₂) = >>=-eq-ok (require (ltb 0 b) _) _ rest in
    let (_, _, last) = >>=-eq-ok (require (ltb 0 c) _) _ rest₂ in
    subst (λ x. (x.queue ≡ []) × (x.discovered ≡ [])) (ok_injective last) (refl, refl)

pub new_frontier-eq-ok :
    (a b c : ℕ) (f : Frontier)
    → new_frontier a b c ≡ ok f
    → WithinLimits f
      × (f.max_states ≡ a)
      × (f.max_transitions ≡ b)
      × (f.max_work_items ≡ c)
      × (length f.queue ≡ length f.discovered)
unfolding new_frontier
new_frontier-eq-ok a b c f h =
    let (_, _, rest) = >>=-eq-ok (require (ltb 0 a) _) _ h in
    let (_, _, rest₂) = >>=-eq-ok (require (ltb 0 b) _) _ rest in
    let (_, _, last) = >>=-eq-ok (require (ltb 0 c) _) _ rest₂ in
    subst
      (λ x.
        WithinLimits x
        × (x.max_states ≡ a)
        × (x.max_transitions ≡ b)
        × (x.max_work_items ≡ c)
        × (length x.queue ≡ length x.discovered))
      (ok_injective last)
      (
        record { states = omega arith; edges = omega arith; work = omega arith },
        refl,
        refl,
        refl,
        refl,
      )

-- The loop keeps the accounts of its rounds, but for the queue that it empties.
pub traverse-Accounts :
    (spec : DomainSpec) (fuel : ℕ) (f g : Frontier)
    → WithinLimits f
    → traverse fuel spec f ≡ some (ok g)
    → WithinLimits g × (g.max_states ≡ f.max_states) × (g.max_transitions ≡ f.max_transitions)
unfolding traverse
traverse-Accounts spec zero f g w h =
    let (_, same) = last_round-eq-ok spec f g f.queue h in
    subst
      (λ x.
        WithinLimits x × (x.max_states ≡ f.max_states) × (x.max_transitions ≡ f.max_transitions))
      same (w, refl, refl)
traverse-Accounts spec (suc fuel) f g w h =
    elim (next_round-eq-ok spec (traverse fuel spec) f g f.queue h) [
      | inl (_, same) ↦
          subst
            (λ x.
              WithinLimits x
              × (x.max_states ≡ f.max_states)
              × (x.max_transitions ≡ f.max_transitions))
            same (w, refl, refl)
      | inr (s, rest, q, (u, run, again)) ↦
          let acc = successors-Accounts spec s (popped f rest) u run in
          let w' : WithinLimits (popped f rest) = record {
            states = w.states;
            edges = w.edges;
            work = w.work;
          } in
          let (wg, es, et) =
            traverse-Accounts spec fuel u g (Accounts-WithinLimits (popped f rest) u acc w')
              again in
          (wg, es ∙ acc.limits.0, et ∙ acc.limits.1)
    ]
