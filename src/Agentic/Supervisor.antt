-- ===== src/Agentic/Supervisor.antt =====
-- pipeline/agentic/supervisor.py: the state machine of a run, over the store. The gateway, which calls
-- the workflows, and the admission of effects are parameters.
use mathlib.Core.Option
use formalspecgen.Agentic.{
  AgentError, DoneAction, Finding, Goal, Observation, PlannedAction, Receipt, RunRecord, RunState,
  blocked, cancellation_pending, cancelled, completed, fail, failed, is_terminal, planned, running,
}
use formalspecgen.Agentic.Acceptance.{Review, action_succeeded, build_review}
use formalspecgen.Agentic.Planner.{next_action}
use formalspecgen.Agentic.Store.{Codec, M, create, get, publish_review, pure, update, ◌>>=◌, ◌>>◌}
use formalspecgen.Prelude.{
  Bool, Option, String, [], false, if◌then◌else◌, is_some, none, not, some, suc, true, zero, ℕ,
  ◌&&◌, ◌++◌, ◌+◌, ◌==◌, ◌||◌, ◌∷◌,
}
use formalspecgen.Result.{Result, err, ok, require}

-- The bodies of `mutate` in the five updates of a run.
unfoldable pub mutate_cancel : RunRecord → Result AgentError RunRecord
mutate_cancel r = ok (
    if is_terminal r.state then r else record r {
      cancel_requested = true;
      state = if is_some r.active_action then cancellation_pending else cancelled;
    })

unfoldable pub mutate_claim : PlannedAction → RunRecord → Result AgentError RunRecord
mutate_claim action r =
    if is_some r.active_action
    then err (fail "RUN_BUSY" "another action is already active")
    else if is_terminal r.state
    then err (fail "RUN_TERMINAL" "agent run is already terminal")
    else ok (record r { state = running; active_action = some action })

abbrev pub is_active : PlannedAction → Option PlannedAction → Bool
is_active action none = false
is_active action (some active) = active.sequence == action.sequence

abbrev pub or_unknown : Option String → String
or_unknown none = "UNKNOWN"
or_unknown (some s) = s

-- The record with a completed action, and the finding of one that failed.
unfoldable pub with_observation : PlannedAction → Observation → RunRecord → RunRecord
with_observation action result r =
    let succeeded = action_succeeded action.workflow result in
    let done : DoneAction = record {
      sequence = action.sequence;
      workflow = action.workflow;
      succeeded = succeeded;
      result = result;
    } in
    let finding : Finding = record {
      workflow = some action.workflow;
      status = or_unknown result.status;
      code = result.code;
      message = result.message;
    } in
    record r {
      actions = r.actions ++ done ∷ [];
      active_action = none;
      failure_count = if succeeded then r.failure_count else r.failure_count + 1;
      unresolved_findings =
          if succeeded then r.unresolved_findings else r.unresolved_findings ++ finding ∷ [];
      state = planned;
    }

unfoldable pub mutate_observe :
    PlannedAction → Observation → RunRecord → Result AgentError RunRecord
mutate_observe action result r =
    if is_active action r.active_action
    then ok (with_observation action result r)
    else err (fail "RUN_STATE_INVALID" "active action identity changed")

unfoldable pub mutate_block : String → String → RunRecord → Result AgentError RunRecord
mutate_block code message r = ok (record r {
  unresolved_findings =
      r.unresolved_findings
      ++ record {
        workflow = Option.map (λ (a : PlannedAction). a.workflow) r.active_action;
        status = "BLOCKED";
        code = some code;
        message = some message;
      }
        ∷ [];
  active_action = none;
})

unfoldable pub mutate_finalize :
    RunState → Receipt → Review → RunRecord → Result AgentError RunRecord
mutate_finalize terminal_state receipt review r =
    if is_some r.review
    then ok r
    else ok (record r {
      state = terminal_state;
      active_action = none;
      review = some receipt;
      request_satisfied = some review.satisfied;
      claim = some review.claim;
    })

-- What `error.as_dict()` says to the planner's record.
unfoldable pub error_result : AgentError → Observation
error_result e = record {
  status = some "FAIL";
  request_satisfied = false;
  evidence = none;
  claim = some "NO_PROOF";
  code = some e.code;
  message = some e.message;
}

module _ (codec : Codec) (permits : String → Bool)
    (execute : Goal → PlannedAction → Result AgentError Observation) where
  -- `require_mcp_effect`, whose `MCPPolicyViolation` nothing here handles
  unfoldable pub require_effect : String → M (Unit {0})
  require_effect effect d = (require (permits effect) (fail "EFFECT_NOT_AUTHORIZED" effect), d)

  unfoldable pub publish_and_finish : Goal → String → RunState → RunRecord → M RunRecord
  publish_and_finish goal principal_id terminal_state r =
      let review = build_review goal (record r { state = terminal_state }) in
      do
        receipt ← publish_review codec principal_id review
        update codec principal_id (mutate_finalize terminal_state receipt review)

  -- `_finalize`
  unfoldable pub finalize : Goal → String → RunState → M RunRecord
  finalize goal principal_id terminal_state = do
    require_effect "evidence_publication"
    r ← get codec principal_id
    if is_some r.review then pure r else publish_and_finish goal principal_id terminal_state r

  -- `_block`
  unfoldable pub block : Goal → String → String → String → M RunRecord
  block goal principal_id code message = do
    update codec principal_id (mutate_block code message)
    finalize goal principal_id blocked

  -- `_claim_action`, `_record_observation`, `_record_failure`
  unfoldable pub claim_action : String → PlannedAction → M RunRecord
  claim_action principal_id action = update codec principal_id (mutate_claim action)

  unfoldable pub record_observation : String → PlannedAction → Observation → M RunRecord
  record_observation principal_id action result =
      update codec principal_id (mutate_observe action result)

  unfoldable pub record_failure : Goal → String → PlannedAction → AgentError → M RunRecord
  record_failure goal principal_id action e = do
    record_observation principal_id action (error_result e)
    finalize goal principal_id blocked

  -- What follows an action that was executed: the run ends, or goes on.
  unfoldable pub after_result :
      (M (Option RunRecord)) → Goal → String → PlannedAction → Observation → M (Option RunRecord)
  after_result loop goal principal_id action result = do
    r ← record_observation principal_id action result
    if r.cancel_requested
        then (finalize goal principal_id cancelled >>= λ x. pure (some x))
        else if action_succeeded action.workflow result
        then loop
        else (finalize goal principal_id failed >>= λ x. pure (some x))

  unfoldable pub perform :
      (M (Option RunRecord)) → Goal → String → PlannedAction → M (Option RunRecord)
  perform loop goal principal_id action = do
    claim_action principal_id action
    elim (execute goal action) [
      | ok result ↦ after_result loop goal principal_id action result
      | err e ↦ record_failure goal principal_id action e >>= λ x. pure (some x)
    ]

  unfoldable pub proceed : (M (Option RunRecord)) → Goal → String → RunRecord → M (Option RunRecord)
  proceed loop goal principal_id r = elim (next_action goal r) [
    | err e ↦ block goal principal_id e.code e.message >>= λ x. pure (some x)
    | ok none ↦ finalize goal principal_id completed >>= λ x. pure (some x)
    | ok (some action) ↦ perform loop goal principal_id action
  ]

  -- `_advance`: `none` is the end of the fuel.
  unfoldable pub advance : ℕ → Goal → String → M (Option RunRecord)
  advance zero goal principal_id = pure none
  advance (suc fuel) goal principal_id =
      let loop = advance fuel goal principal_id in
      get codec principal_id >>= λ r.
      if is_terminal r.state
      then pure (some r)
      else if r.cancel_requested
      then (finalize goal principal_id cancelled >>= λ x. pure (some x))
      else proceed loop goal principal_id r

  unfoldable pub start : ℕ → Goal → String → M (Option RunRecord)
  start fuel goal principal_id = do
    require_effect "service_state_read"
    require_effect "service_state_write"
    r ← create codec goal principal_id
    if is_terminal r.state || is_some r.active_action
        then pure (some r)
        else advance fuel goal principal_id

  unfoldable pub resume : ℕ → String → M (Option RunRecord)
  resume fuel principal_id = do
    require_effect "service_state_read"
    require_effect "service_state_write"
    r ← get codec principal_id
    if is_terminal r.state
        then pure (some r)
        else if is_some r.active_action
        then (block r.goal principal_id "ACTION_OUTCOME_UNKNOWN"
              "an interrupted action requires operator reconciliation"
            >>= λ x. pure (some x))
        else advance fuel r.goal principal_id

  abbrev pub is_cancelled : RunState → Bool
  is_cancelled cancelled = true
  is_cancelled _ = false

  unfoldable pub cancel : String → M RunRecord
  cancel principal_id = do
    require_effect "service_state_read"
    require_effect "service_state_write"
    r ← update codec principal_id mutate_cancel
    if is_cancelled r.state && not (is_some r.review)
        then finalize r.goal principal_id cancelled
        else pure r
