-- ===== src/Agentic/Runs.antt =====
-- The updates of a run by the controllers of pipeline/agentic/supervisor.py, as a step relation on its
-- record.

use mathlib.Core.Path.{subst}
use formalspecgen.Agentic.{
  DoneAction, Goal, Observation, PlannedAction, Receipt, RunRecord, RunState, is_terminal,
}
use formalspecgen.Agentic.Acceptance.{Review, action_succeeded}
use formalspecgen.Agentic.Planner.{
  completed_workflows, is_prefix, next_action, planned_action, within_budget,
}
use formalspecgen.Agentic.Store.{Codec, new_record}
use formalspecgen.Agentic.Supervisor.{
  is_active, mutate_block, mutate_cancel, mutate_claim, mutate_finalize, mutate_observe,
  with_observation,
}
use formalspecgen.Prelude.{
  All, Bool-cases, false, ℕ, List, Option, Option-cases, String, [], ap, arith, get_elem?, inl, inr,
  is_some, leb, length, map, none, refl, some, some_injective, suc, sym, ◌++◌, ◌+◌, ◌<◌, ◌∙◌, ◌∷◌,
  ◌≡◌,
}
use formalspecgen.Result.{>>=-eq-ok, ok, ok_injective, refuse, refuse-eq-ok, require}

-- The updates, by any number of controllers. An action is claimed or observed by a controller that planned
-- it from a record that it read before, and that need not be the record it is claimed or observed in.
pub data RunStep (goal : Goal) (r r' : RunRecord) : Type 0 where
  claims :
      (read : RunRecord) (action : PlannedAction)
      → next_action goal read ≡ ok (some action)
      → mutate_claim action r ≡ ok r'
      → RunStep goal r r'
  observes :
      (read : RunRecord) (action : PlannedAction) (result : Observation)
      → next_action goal read ≡ ok (some action)
      → mutate_observe action result r ≡ ok r'
      → RunStep goal r r'
  blocks : (code message : String) → mutate_block code message r ≡ ok r' → RunStep goal r r'
  cancels : mutate_cancel r ≡ ok r' → RunStep goal r r'
  finalizes :
      (terminal_state : RunState) (receipt : Receipt) (review : Review)
      → mutate_finalize terminal_state receipt review r ≡ ok r'
      → RunStep goal r r'

pub data RunReach (goal : Goal) (principal_id : String) (codec : Codec) : RunRecord → Type 0 where
  created : RunReach goal principal_id codec (new_record codec goal principal_id)
  stepped :
      {r r' : RunRecord}
      → RunReach goal principal_id codec r
      → RunStep goal r r'
      → RunReach goal principal_id codec r'

-- The action is the next of the proposed ones, and the budget has room for it.
abbrev pub IsNext : Goal → List DoneAction → PlannedAction → Type 0
IsNext goal actions a =
    (a.sequence ≡ length actions + 1)
    × (get_elem? goal.proposed_actions (length actions) ≡ some a.workflow)
    × (length actions < goal.max_actions)

-- The workflow that a plan has under a number, counted from one and within the budget.
abbrev pub IsProposed : Goal → ℕ → String → Type 0
IsProposed goal n workflow =
    (i : ℕ) × (n ≡ i + 1)
    × (get_elem? goal.proposed_actions i ≡ some workflow)
    × (i < goal.max_actions)

abbrev pub IsProposedDone : Goal → DoneAction → Type 0
IsProposedDone goal a =
    IsProposed goal a.sequence a.workflow × (a.succeeded ≡ action_succeeded a.workflow a.result)

abbrev pub IsProposedClaim : Goal → Option PlannedAction → Type 0
IsProposedClaim goal none = Unit
IsProposedClaim goal (some a) = IsProposed goal a.sequence a.workflow

pub record IsPlanned (goal : Goal) (r : RunRecord) : Type 0 where
  pub completed : All (IsProposedDone goal) r.actions
  pub claimed : IsProposedClaim goal r.active_action

length-map : {A B : Type 0} (f : A → B) (xs : List A) → length (map f xs) ≡ length xs
length-map f [] = refl
length-map f (x ∷ xs) = ap suc (length-map f xs)

planned_action-IsNext :
    (goal : Goal) (r : RunRecord) (action : PlannedAction)
    → planned_action goal r ≡ some action
    → length r.actions < goal.max_actions
    → IsNext goal r.actions action
unfolding planned_action completed_workflows
planned_action-IsNext goal r action h room =
    let count = length-map (λ (a : DoneAction). a.workflow) r.actions in
    elim (Option-cases
      (get_elem? goal.proposed_actions (length (map (λ (a : DoneAction). a.workflow) r.actions)))) [
        | inl nothing ↦ let q = rw nothing at h in cc q
        | inr (w, found) ↦
            let q = rw found at h in
            let made = some_injective q in
            (
              sym (ap (λ (a : PlannedAction). a.sequence) made) ∙ ap (λ n. n + 1) count,
              ap (get_elem? goal.proposed_actions) (sym count)
                  ∙ found
                  ∙ ap (λ (a : PlannedAction). some a.workflow) made,
              room,
            )
      ]

within_budget-eq-ok :
    (goal : Goal) (r : RunRecord) (p : Option PlannedAction) (action : PlannedAction)
    → within_budget goal r p ≡ ok (some action)
    → (p ≡ some action) × (length r.actions < goal.max_actions)
unfolding within_budget
within_budget-eq-ok goal r none action h = cc
within_budget-eq-ok goal r (some p) action h =
    let (_, room, done) = >>=-eq-ok (refuse (leb goal.max_actions (length r.actions)) _) _ h in
    (
      ok_injective done,
      let f = refuse-eq-ok (leb goal.max_actions (length r.actions)) _ room in ground arith,
    )

pub next_action-IsNext :
    (goal : Goal) (r : RunRecord) (action : PlannedAction)
    → next_action goal r ≡ ok (some action)
    → IsNext goal r.actions action
unfolding next_action
next_action-IsNext goal r action h =
    let (_, _, a) =
      >>=-eq-ok (require (is_prefix (completed_workflows r) goal.proposed_actions) _) _ h in
    let (_, _, b) = >>=-eq-ok (refuse (is_some r.active_action) _) _ a in
    let (found, room) = within_budget-eq-ok goal r (planned_action goal r) action b in
    planned_action-IsNext goal r action found room

-- A claimed action is not planned over.
pub next_action-idle :
    (goal : Goal) (r : RunRecord) (action : PlannedAction)
    → next_action goal r ≡ ok (some action)
    → is_some r.active_action ≡ false
unfolding next_action
next_action-idle goal r action h =
    let (_, _, a) =
      >>=-eq-ok (require (is_prefix (completed_workflows r) goal.proposed_actions) _) _ h in
    let (_, idle, _) = >>=-eq-ok (refuse (is_some r.active_action) _) _ a in
    refuse-eq-ok (is_some r.active_action) _ idle

next_action-IsProposed :
    (goal : Goal) (r : RunRecord) (action : PlannedAction)
    → next_action goal r ≡ ok (some action)
    → IsProposed goal action.sequence action.workflow
next_action-IsProposed goal r action h =
    let (number, proposed, room) = next_action-IsNext goal r action h in
    (length r.actions, number, proposed, room)

mutate_claim-IsPlanned :
    (goal : Goal) (r r' : RunRecord) (action : PlannedAction)
    → IsPlanned goal r
    → IsProposed goal action.sequence action.workflow
    → mutate_claim action r ≡ ok r'
    → IsPlanned goal r'
unfolding mutate_claim
mutate_claim-IsPlanned goal r r' action o n h = elim (Bool-cases (is_some r.active_action)) [
  | inl busy ↦ let q = rw busy at h in cc q
  | inr still ↦ elim (Bool-cases (is_terminal r.state)) [
    | inl over ↦ let q = rw (still, over) at h in cc q
    | inr live ↦
        let q = ok_injective (rw (still, live) at h) in
        subst (IsPlanned goal) q (record { completed = o.completed; claimed = n })
  ]
]

All-append_last :
    {A : Type 0} (P : A → Type 0) (xs : List A) (x : A) → All P xs → P x → All P (xs ++ x ∷ [])
All-append_last P [] x h p = (p, tt)
All-append_last P (y ∷ ys) x h p = (h.0, All-append_last P ys x h.1 p)

mutate_observe-IsPlanned :
    (goal : Goal) (r r' : RunRecord) (action : PlannedAction) (result : Observation)
    → IsPlanned goal r
    → IsProposed goal action.sequence action.workflow
    → mutate_observe action result r ≡ ok r'
    → IsPlanned goal r'
unfolding mutate_observe with_observation
mutate_observe-IsPlanned goal r r' action result o n h =
    elim (Bool-cases (is_active action r.active_action)) [
      | inr stale ↦ let q = rw stale at h in cc q
      | inl fresh ↦
          let q = ok_injective (rw fresh at h) in
          subst (IsPlanned goal) q (record {
            completed = All-append_last (IsProposedDone goal) r.actions _ o.completed (n, refl);
            claimed = tt;
          })
    ]

RunStep-IsPlanned :
    (goal : Goal) (r r' : RunRecord) → RunStep goal r r' → IsPlanned goal r → IsPlanned goal r'
unfolding mutate_block mutate_cancel mutate_finalize
RunStep-IsPlanned goal r r' (claims read action next h) o =
    mutate_claim-IsPlanned goal r r' action o (next_action-IsProposed goal read action next) h
RunStep-IsPlanned goal r r' (observes read action result next h) o =
    mutate_observe-IsPlanned goal r r' action result o
      (next_action-IsProposed goal read action next) h
RunStep-IsPlanned goal r r' (blocks code message h) o =
    subst (IsPlanned goal) (ok_injective h) (record { completed = o.completed; claimed = tt })
RunStep-IsPlanned goal r r' (cancels h) o = elim (Bool-cases (is_terminal r.state)) [
  | inl over ↦ subst (IsPlanned goal) (ok_injective (rw over at h)) o
  | inr live ↦
      subst (IsPlanned goal) (ok_injective (rw live at h))
        (record { completed = o.completed; claimed = o.claimed })
]
RunStep-IsPlanned goal r r' (finalizes state receipt review h) o =
    elim (Bool-cases (is_some r.review)) [
      | inl reviewed ↦ subst (IsPlanned goal) (ok_injective (rw reviewed at h)) o
      | inr open_run ↦
          subst (IsPlanned goal) (ok_injective (rw open_run at h))
            (record { completed = o.completed; claimed = tt })
    ]

-- Nothing is claimed or completed that was not proposed, with any number of controllers. In every record
-- that a run can reach, each completed action has the workflow that the goal proposes under its number,
-- the number is within the budget of actions, and its success is that of its result; and a claimed action
-- has the workflow that the goal proposes under its number, within the budget.
pub RunReach-IsPlanned :
    (goal : Goal) (principal_id : String) (codec : Codec) {r : RunRecord}
    → RunReach goal principal_id codec r
    → IsPlanned goal r
unfolding new_record
RunReach-IsPlanned goal principal_id codec created = record { completed = tt; claimed = tt }
RunReach-IsPlanned goal principal_id codec (stepped {r} {r'} reached step) =
    RunStep-IsPlanned goal r r' step (RunReach-IsPlanned goal principal_id codec reached)
