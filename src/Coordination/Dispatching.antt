-- ===== src/Coordination/Dispatching.antt =====
-- The entry points `submit`, `get` and `cancel` of `A2ACoordinator` of pipeline/a2a_coordination.py. The clock and new identifiers of attempts are arguments.
use formalspecgen.Coordination.{
  AuthorityGrant, Observation, Task, WorkItem, WorkerProfile, is_terminal, truthy,
}
use formalspecgen.Coordination.Authority.{authorize_item}
use formalspecgen.Coordination.Calls.{
  Call, Client, Coordinator, Failure, apply_observation, attempted, cancel_remote, common_ceilings,
  effective_item, failure_code, failure_message, from, item_of, pure, stored, text_of, transition,
  transport_event, worker_of, ◌>>=◌,
}
use formalspecgen.Coordination.Create.{create}
use formalspecgen.Coordination.Sound.{queued}
use formalspecgen.Coordination.Store.{get, transact}
use formalspecgen.Coordination.Transitions.{cancellation, claim, dispatch}
use formalspecgen.Prelude.{
  Bool, Option, String, false, if◌then◌else◌, none, not, some, true, ℕ, ◌||◌,
}
use formalspecgen.Result.{Result, err, ok}

module _ (c : Coordinator) (client : Client) where
  -- The reply of a worker to a submission.
  unfoldable pub note_submission :
      WorkItem → String → String → Result Failure Observation → Call Task
  note_submission item principal_id attempt_id (err f) =
      transition c client item.work_item_id principal_id
        (transport_event attempt_id none "submit" (failure_code f) (failure_message f))
  note_submission item principal_id attempt_id (ok o) =
      apply_observation c client item principal_id attempt_id o

  -- What follows a dispatch that was claimed, or not.
  unfoldable pub after_dispatch : WorkItem → String → WorkerProfile → Task × Bool → Call Task
  after_dispatch item principal_id worker (t, false) = pure t
  after_dispatch item principal_id worker (t, true) = do
    reply ← attempted (client.submit worker item)
    note_submission item principal_id (text_of t.dispatch_attempt_id) reply

  -- What follows a record that was created, or found.
  unfoldable pub after_create :
      WorkItem → String → WorkerProfile → String → ℕ → Task × Bool → Call Task
  after_create item principal_id worker attempt_id deadline (t, false) = pure t
  after_create item principal_id worker attempt_id deadline (t, true) = do
    begun ← stored (
        transact c.digest item.work_item_id principal_id
          (λ x. ok (dispatch attempt_id c.coordinator_id deadline x)))
    after_dispatch item principal_id worker begun

  abbrev pub new_record : WorkItem → String → AuthorityGrant → WorkerProfile → Task
  new_record item principal_id grant worker =
      queued (c.request_sha256 item) item principal_id worker (c.grant_sha256 grant)
        (c.worker_sha256 worker)

  -- `submit`
  unfoldable pub submit : WorkItem → String → Option String → ℕ → String → ℕ → Call Task
  submit raw principal_id worker_id now attempt_id deadline = do
    item ← effective_item c client raw principal_id
    granted ← from (authorize_item c.policy c.project_root now item principal_id worker_id)
    created_task ← stored (
        create c.digest (new_record item principal_id granted.0 granted.1)
          (common_ceilings granted.0.max_budget granted.1.max_budget))
    after_create item principal_id granted.1 attempt_id deadline created_task

  -- The reply of a worker to a reconciliation.
  unfoldable pub note_reconciliation :
      String → WorkItem → String → String → Result Failure (Option Observation) → Call Task
  note_reconciliation id item principal_id attempt_id (err f) =
      transition c client id principal_id
        (transport_event attempt_id none "reconcile" "WORKER_UNAVAILABLE" (failure_message f))
  note_reconciliation id item principal_id attempt_id (ok none) =
      transition c client id principal_id (
        transport_event attempt_id none "reconcile" "REMOTE_TASK_NOT_OBSERVED"
          "the worker did not report the dispatch attempt")
  note_reconciliation id item principal_id attempt_id (ok (some o)) =
      apply_observation c client item principal_id attempt_id o

  unfoldable pub after_claim :
      String → WorkItem → String → Call (Option Observation) → Task × Bool → Call Task
  after_claim id item principal_id ask (t, false) = pure t
  after_claim id item principal_id ask (t, true) = do
    reply ← attempted ask
    note_reconciliation id item principal_id (text_of t.dispatch_attempt_id) reply

  -- A task without a bound remote task is reconciled, if the client can.
  unfoldable pub recover : String → WorkItem → String → WorkerProfile → Task → ℕ → Call Task
  recover id item principal_id worker t now = elim client.reconcile [
    | none ↦ pure t
    | some ask ↦
        stored (
          transact c.digest id principal_id
            (claim (c.derived_id t.request_sha256) c.coordinator_id now c.lease))
        >>= after_claim id item principal_id (ask worker item)
  ]

  -- A task with a bound remote task is cancelled or observed.
  unfoldable pub observe : WorkItem → String → WorkerProfile → Task → Call Task
  observe item principal_id worker t = do
    o ← client.get worker (text_of t.remote_task_id)
    apply_observation c client item principal_id (text_of t.dispatch_attempt_id) o

  unfoldable pub refresh : String → String → ℕ → Task → Call Task
  refresh id principal_id now t = do
    worker ← worker_of c client t.worker_id
    item ← item_of c client t
    if not (truthy t.remote_task_id)
        then recover id item principal_id worker t now
        else if t.cancellation_requested
        then cancel_remote c client item principal_id t
        else observe item principal_id worker t

  -- `get`
  unfoldable pub get_task : String → String → Bool → ℕ → Call Task
  get_task id principal_id with_refresh now = do
    t ← stored (λ tasks. (get c.digest id principal_id tasks, tasks))
    if not with_refresh || is_terminal t.state then pure t else refresh id principal_id now t

  -- `cancel`
  unfoldable pub cancel : String → String → Call Task
  cancel id principal_id = do
    found ← stored (transact c.digest id principal_id (λ x. ok (cancellation x)))
    if is_terminal found.0.state || not (truthy found.0.remote_task_id)
        then pure found.0
        else (item_of c client found.0 >>= λ item. cancel_remote c client item principal_id found.0)
