-- ===== src/Agentic.antt =====
-- pipeline/agentic: the supervised two-step workflow. The goal, the record of a run, and what an
-- action observed, from contracts.py, planner.py and supervisor.py. Times are left out of records.
pub mod Acceptance
pub mod Bound
pub mod Access
pub mod Chain
pub mod Gateway
pub mod Execution
pub mod Planner
pub mod Store
pub mod Runs
pub mod Supervisor
pub mod Termination
use formalspecgen.Prelude.{Bool, List, Option, String, false, true, ℕ}

-- `AgentRunError`: a code and a message.
pub record AgentError : Type 0 where
  pub code : String
  pub message : String

abbrev pub fail : String → String → AgentError
fail code message = record { code = code; message = message }

-- The fields of `AgentGoal` that steer a run.
pub record Goal : Type 0 where
  pub run_id : String
  pub request_sha256 : String
  pub permitted_workflows : List String
  pub proposed_actions : List String
  pub source_sha256 : String
  pub max_actions : ℕ

pub data RunState : Type 0 where
  planned running cancellation_pending : RunState
  completed failed blocked cancelled : RunState

-- `state in TERMINAL_RUN_STATES`
unfoldable pub is_terminal : RunState → Bool
is_terminal completed = true
is_terminal failed = true
is_terminal blocked = true
is_terminal cancelled = true
is_terminal _ = false

pub record PlannedAction : Type 0 where
  pub sequence : ℕ
  pub workflow : String

-- The result of a workflow, as far as it is read: `evidence` is the publication status of an evidence
-- that is a mapping.
pub record Observation : Type 0 where
  pub status : Option String
  pub request_satisfied : Bool
  pub evidence : Option String
  pub claim : Option String
  pub code : Option String
  pub message : Option String

pub record DoneAction : Type 0 where
  pub sequence : ℕ
  pub workflow : String
  pub succeeded : Bool
  pub result : Observation

pub record Finding : Type 0 where
  pub workflow : Option String
  pub status : String
  pub code : Option String
  pub message : Option String

-- What `publish_review` answers, for the one review file of the run.
pub record Receipt : Type 0 where
  pub size : ℕ
  pub sha256 : String

-- The record of a run. The state of an action is always "completed".
pub record RunRecord : Type 0 where
  pub run_id : String
  pub principal_id : String
  pub request_sha256 : String
  pub goal : Goal
  pub state : RunState
  pub active_action : Option PlannedAction
  pub actions : List DoneAction
  pub failure_count : ℕ
  pub cancel_requested : Bool
  pub unresolved_findings : List Finding
  pub review : Option Receipt
  pub request_satisfied : Option Bool
  pub claim : Option String
