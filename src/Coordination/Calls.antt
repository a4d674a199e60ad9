-- ===== src/Coordination/Calls.antt =====
-- `A2ACoordinator` of pipeline/a2a_coordination.py: the operations that work on the store and call the
-- client of the workers. A call of the client is a computation on the tasks, since other coordinators,
-- and the thread that renews the lease, use the store while it waits.
use formalspecgen.Coordination.{
  AuthorityGrant, Budget, Observation, Task, TaskError, WorkItem, WorkerProfile, WorkerResult, deny,
  is_terminal, limit_of, text_in, truthy,
}
use formalspecgen.Coordination.Authority.{Policy, entry_of, validate_result}
use formalspecgen.Coordination.Items.{checked_item, sorted_texts}
use formalspecgen.Coordination.Reports.{RemoteEvent, apply_event}
use formalspecgen.Coordination.Store.{TaskEvent, Tasks, get, transact}
use formalspecgen.Prelude.{
  List, Option, String, [], if◌then◌else◌, leb, none, not, pos, some, ℕ, ℤ, ◌&&◌, ◌++◌, ◌∷◌,
}
use formalspecgen.Result.{Result, err, ok, or_raise}

-- An exception: an `A2ACoordinationError`, or another one with its text.
pub data Failure : Type 0 where
  coordination : TaskError → Failure
  foreign : String → Failure

abbrev pub Call : Type 0 → Type 0
Call A = Tasks → Result Failure A × Tasks

infixl 5 ◌>>=◌ ◌>>◌
abbrev pub ◌>>=◌ : {A B : Type 0} → Call A → (A → Call B) → Call B
◌>>=◌ m f tasks =
    let (r, tasks') = m tasks in elim r [ ok a ↦ f a tasks' | err e ↦ (err e, tasks') ]

abbrev pub ◌>>◌ : {A B : Type 0} → Call A → Call B → Call B
m >> k = m >>= λ _. k

abbrev pub pure : {A : Type 0} → A → Call A
pure a tasks = (ok a, tasks)

abbrev pub as_failure : {A : Type 0} → Result TaskError A → Result Failure A
as_failure (ok a) = ok a
as_failure (err e) = err (coordination e)

abbrev pub from : {A : Type 0} → Result TaskError A → Call A
from r tasks = (as_failure r, tasks)

-- A method of the store.
abbrev pub stored : {A : Type 0} → (Tasks → Result TaskError A × Tasks) → Call A
stored m tasks = let (r, tasks') = m tasks in (as_failure r, tasks')

-- `try`: the exception becomes a value.
abbrev pub attempted : {A : Type 0} → Call A → Call (Result Failure A)
attempted m tasks = let (r, tasks') = m tasks in (ok r, tasks')

abbrev pub failure_message : Failure → String
failure_message (coordination e) = e.message
failure_message (foreign s) = s

abbrev pub failure_code : Failure → String
failure_code (coordination e) = e.code
failure_code (foreign s) = "WORKER_UNAVAILABLE"

-- `str` of an entry that may be None.
abbrev pub text_of : Option String → String
text_of none = "None"
text_of (some s) = s

-- `WorkerClient`; `reconcile` may be missing.
pub record Client : Type 0 where
  pub submit : WorkerProfile → WorkItem → Call Observation
  pub get : WorkerProfile → String → Call Observation
  pub cancel : WorkerProfile → String → Call Observation
  pub reconcile : Option (WorkerProfile → WorkItem → Call (Option Observation))

-- The coordinator, and what it calls of the standard library: digests, `str.strip`, the state without
-- its prefix in lower case, and the identifier that is derived from a request.
pub record Coordinator : Type 0 where
  pub policy : Policy
  pub project_root : String
  pub coordinator_id : String
  pub lease : ℕ
  pub digest : TaskEvent → String
  pub request_sha256 : WorkItem → String
  pub grant_sha256 : AuthorityGrant → String
  pub worker_sha256 : WorkerProfile → String
  pub strip : String → String
  pub state_name : String → String
  pub derived_id : String → String

abbrev pub supported_states : List String
supported_states =
    "submitted" ∷ "working" ∷ "input_required" ∷ "auth_required" ∷ "completed" ∷ "failed"
    ∷ "cancelled" ∷ "rejected" ∷ []

-- The ceilings that grant and worker both have.
unfoldable pub common_ceilings : Budget → Budget → Budget
unfolding limit_of
common_ceilings [] others = []
common_ceilings ((key, n) ∷ rest) others =
    let more = common_ceilings rest others in
    elim (limit_of key others) [ none ↦ more | some m ↦ (key, if leb n m then n else m) ∷ more ]

abbrev pub as_ints : Budget → List (String × ℤ)
as_ints [] = []
as_ints ((key, n) ∷ rest) = (key, pos n) ∷ as_ints rest

abbrev pub protocol_event : String → Observation → String → TaskError → RemoteEvent
protocol_event attempt_id o state e = record {
  attempt_id = attempt_id;
  event_kind = "protocol_error";
  remote_task_id = some o.remote_task_id;
  remote_state = some state;
  worker_result = none;
  operation = none;
  code = some e.code;
  message = e.message;
}

abbrev pub observation_event : String → Observation → String → Option WorkerResult → RemoteEvent
observation_event attempt_id o state result = record {
  attempt_id = attempt_id;
  event_kind = "observation";
  remote_task_id = some o.remote_task_id;
  remote_state = some state;
  worker_result = result;
  operation = none;
  code = none;
  message = o.message;
}

abbrev pub transport_event : String → Option String → String → String → String → RemoteEvent
transport_event attempt_id remote_task_id operation code message = record {
  attempt_id = attempt_id;
  event_kind = "transport_error";
  remote_task_id = remote_task_id;
  remote_state = none;
  worker_result = none;
  operation = some operation;
  code = some code;
  message = message;
}

module _ (c : Coordinator) (client : Client) where
  abbrev pub transition : String → String → RemoteEvent → Call Task
  transition id principal_id e =
      stored (transact c.digest id principal_id (apply_event e)) >>= λ x. pure x.0

  -- `self.policy.workers[...]`
  abbrev pub worker_of : String → Call WorkerProfile
  worker_of id tasks = (or_raise (entry_of id c.policy.workers) (foreign "KeyError"), tasks)

  -- `_item`
  abbrev pub item_of : Task → Call WorkItem
  item_of t = from (checked_item c.strip t.work_item (as_ints t.work_item.resource_budget))

  -- `_effective_item`
  unfoldable pub effective_item : WorkItem → String → Call WorkItem
  effective_item item principal_id = elim item.parent_work_item_id [
    | none ↦ pure item
    | some parent_id ↦ do
      r ← stored (λ tasks. (get c.digest parent_id principal_id tasks, tasks))
      parent ← item_of r
      from (
          checked_item c.strip
            (record item {
              protected_paths = sorted_texts (item.protected_paths ++ parent.protected_paths);
            })
            (as_ints item.resource_budget))
  ]

  -- The state and the result of an observation, or what is wrong with them.
  unfoldable pub judged : WorkItem → Observation → Result TaskError (Option WorkerResult)
  unfolding validate_result text_in
  judged item o =
      if text_in (c.state_name o.state) supported_states
      then validate_result item o.result
      else err (deny "WORKER_RESULT_INVALID" "unknown worker task state")

  -- `_apply_observation` with no remote cancellation.
  unfoldable pub note_observation : WorkItem → String → String → Observation → Call Task
  note_observation item principal_id attempt_id o =
      transition item.work_item_id principal_id (elim (judged item o) [
        | err e ↦ protocol_event attempt_id o (c.state_name o.state) e
        | ok result ↦ observation_event attempt_id o (c.state_name o.state) result
      ])

  -- The answer of a worker to a cancellation.
  unfoldable pub note_cancellation :
      WorkItem → String → Task → String → Result Failure Observation → Call Task
  note_cancellation item principal_id t remote_task_id (err f) =
      transition item.work_item_id principal_id (
        transport_event (text_of t.dispatch_attempt_id) (some remote_task_id) "cancel"
          "WORKER_UNAVAILABLE" (failure_message f))
  note_cancellation item principal_id t remote_task_id (ok o) =
      note_observation item principal_id (text_of t.dispatch_attempt_id) o

  unfoldable pub cancel_bound : WorkItem → String → Task → String → Call Task
  cancel_bound item principal_id t remote_task_id = do
    worker ← worker_of t.worker_id
    reply ← attempted (client.cancel worker remote_task_id)
    note_cancellation item principal_id t remote_task_id reply

  -- `_cancel_remote`
  unfoldable pub cancel_remote : WorkItem → String → Task → Call Task
  cancel_remote item principal_id t =
      if truthy t.remote_task_id
      then cancel_bound item principal_id t (text_of t.remote_task_id)
      else pure t

  -- A cancellation that was requested is passed on, unless the task is over.
  unfoldable pub pass_on_cancellation : WorkItem → String → Task → Call Task
  pass_on_cancellation item principal_id t =
      if t.cancellation_requested && not (is_terminal t.state)
      then cancel_remote item principal_id t
      else pure t

  -- `_apply_observation`: a protocol error is noted, and ends it.
  unfoldable pub apply_observation : WorkItem → String → String → Observation → Call Task
  apply_observation item principal_id attempt_id o = elim (judged item o) [
    | err e ↦
        transition item.work_item_id principal_id
          (protocol_event attempt_id o (c.state_name o.state) e)
    | ok result ↦
        transition item.work_item_id principal_id
          (observation_event attempt_id o (c.state_name o.state) result)
        >>= pass_on_cancellation item principal_id
  ]
