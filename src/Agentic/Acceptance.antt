-- ===== src/Agentic/Acceptance.antt =====
-- pipeline/agentic/acceptance.py: when an action succeeded, and the review of a run.

use formalspecgen.Agentic.{Finding}
use formalspecgen.Agentic.{DoneAction, Goal, Observation, RunRecord, RunState, completed}
use formalspecgen.Prelude.{
  Bool, List, Option, String, [], false, if◌then◌else◌, length, none, some, str_eq, ◌&&◌, ◌==◌, ◌∷◌,
}

abbrev pub is_text : String → Option String → Bool
is_text text none = false
is_text text (some s) = str_eq s text

unfoldable pub action_succeeded : String → Observation → Bool
action_succeeded workflow result =
    if str_eq workflow "inspect"
    then is_text "INSPECTED" result.status
    else if str_eq workflow "verify"
    then result.request_satisfied && is_text "COMMITTED" result.evidence
    else false

-- `{}`
abbrev pub nothing_observed : Observation
nothing_observed = record {
  status = none;
  request_satisfied = false;
  evidence = none;
  claim = none;
  code = none;
  message = none;
}

-- The result of the first action of a workflow, or `{}`.
unfoldable pub first_result : String → List DoneAction → Observation
first_result workflow [] = nothing_observed
first_result workflow (a ∷ rest) =
    if str_eq a.workflow workflow then a.result else first_result workflow rest

-- The parts of the review that depend on the run.
pub record Review : Type 0 where
  pub goal_sha256 : String
  pub satisfied : Bool
  pub state : RunState
  pub claim : String
  pub inspection : Observation
  pub verification : Observation
  pub findings : List Finding
  pub actions : List DoneAction

abbrev pub or_else : Option String → String → String
or_else none text = text
or_else (some s) text = s

-- The status is "COMPLETED" for a satisfied request, and else the name of the state.
unfoldable pub review_status : Review → RunState
review_status review = if review.satisfied then completed else review.state

unfoldable pub build_review : Goal → RunRecord → Review
build_review goal r =
    let verification = first_result "verify" r.actions in
    let inspection = first_result "inspect" r.actions in
    record {
      goal_sha256 = goal.request_sha256;
      satisfied =
          (length r.actions == 2)
          && (action_succeeded "inspect" inspection && action_succeeded "verify" verification);
      state = r.state;
      claim = or_else verification.claim "NO_PROOF";
      inspection = inspection;
      verification = verification;
      findings = r.unresolved_findings;
      actions = r.actions;
    }
