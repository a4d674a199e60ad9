-- ===== src/Agentic/Planner.antt =====
-- pipeline/agentic/planner.py: the next action of a run.
use mathlib.Core.Option
use formalspecgen.Agentic.{AgentError, DoneAction, Goal, PlannedAction, RunRecord, fail}
use formalspecgen.Prelude.{
  Bool, List, Option, String, [], false, get_elem?, is_some, leb, length, map, none, some, str_eq,
  true, ◌&&◌, ◌+◌, ◌∷◌,
}
use formalspecgen.Result.{Result, ok, refuse, require, ◌>>◌}

-- `completed == proposed[:len(completed)]`
unfoldable pub is_prefix : List String → List String → Bool
is_prefix [] names = true
is_prefix (x ∷ xs) [] = false
is_prefix (x ∷ xs) (y ∷ ys) = str_eq x y && is_prefix xs ys

unfoldable pub completed_workflows : RunRecord → List String
completed_workflows r = map (λ (a : DoneAction). a.workflow) r.actions

-- `proposed[len(completed)]`, if there is one.
unfoldable pub planned_action : Goal → RunRecord → Option PlannedAction
planned_action goal r =
    Option.map (λ w. record { sequence = length (completed_workflows r) + 1; workflow = w })
      (get_elem? goal.proposed_actions (length (completed_workflows r)))

-- The budget is tested once there is an action.
unfoldable pub within_budget :
    Goal → RunRecord → Option PlannedAction → Result AgentError (Option PlannedAction)
within_budget goal r none = ok none
within_budget goal r (some action) =
    refuse (leb goal.max_actions (length r.actions))
      (fail "ACTION_BUDGET_EXHAUSTED" "agent action budget exhausted")
    >> ok (some action)

unfoldable pub next_action : Goal → RunRecord → Result AgentError (Option PlannedAction)
next_action goal r = do
  require (is_prefix (completed_workflows r) goal.proposed_actions)
      (fail "RUN_STATE_INVALID" "completed action order is invalid")
  refuse (is_some r.active_action)
      (fail "ACTION_OUTCOME_UNKNOWN" "an action was interrupted; automatic replay is not permitted")
  within_budget goal r (planned_action goal r)
