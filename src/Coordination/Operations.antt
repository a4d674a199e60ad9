-- ===== src/Coordination/Operations.antt =====
-- Reading, recovering and cancelling through the coordinator of pipeline/a2a_coordination.py.
use formalspecgen.Coordination.{Observation, Task, WorkItem, WorkerProfile, is_terminal, truthy}
use formalspecgen.Coordination.Calls.{
  Call, Client, Coordinator, Failure, apply_observation, attempted, cancel_remote, item_of, pure,
  stored, text_of, worker_of, ◌>>=◌,
}
use formalspecgen.Coordination.Composed.{>>=-Keeps, Keeps}
use formalspecgen.Coordination.Dispatching.{
  after_claim, cancel, get_task, note_reconciliation, observe, recover, refresh, submit,
}
use formalspecgen.Coordination.Evolution.{Evolves-refl, GoesOn, WellNamed}
use formalspecgen.Coordination.Refines.{
  IsPatient, Kept, apply_observation-Keeps, cancel_remote-Keeps, if-Keeps, item_of-Keeps, still,
  submit-Keeps, transact-Keeps, transition-Keeps,
}
use formalspecgen.Coordination.Reported.{failed_call, takes}
use formalspecgen.Coordination.Steps.{reclaims, withdraws}
use formalspecgen.Coordination.Store.{Tasks, get, transact}
use formalspecgen.Coordination.Transitions.{cancellation, claim, record_of}
use formalspecgen.Prelude.{
  Bool, Option, Option-cases, String, ap, false, if◌then◌else◌, inl, inr, none, not, refl, some,
  true, ℕ, ◌||◌,
}
use formalspecgen.Result.{Result, err, ok, ok_injective}

module _ (c : Coordinator) (client : Client) (patient : IsPatient c.digest client) where
  note_reconciliation-Keeps :
      (id : String) (item : WorkItem) (principal_id attempt_id : String)
      (reply : Result Failure (Option Observation))
      → Kept c client patient (note_reconciliation c client id item principal_id attempt_id reply)
  unfolding note_reconciliation
  note_reconciliation-Keeps id item principal_id attempt_id (err f) =
      transition-Keeps c client patient id principal_id _
        (failed_call "reconcile" refl refl (inr (inr (inl refl))))
  note_reconciliation-Keeps id item principal_id attempt_id (ok none) =
      transition-Keeps c client patient id principal_id _
        (failed_call "reconcile" refl refl (inr (inr (inl refl))))
  note_reconciliation-Keeps id item principal_id attempt_id (ok (some o)) =
      apply_observation-Keeps c client patient item principal_id attempt_id o

  after_claim-Keeps :
      (id : String) (item : WorkItem) (principal_id : String) (ask : Call (Option Observation))
      (found : Task × Bool)
      → Keeps c.digest ask
      → Kept c client patient (after_claim c client id item principal_id ask found)
  unfolding after_claim
  after_claim-Keeps id item principal_id ask (t, false) asks = still c client patient (ok t)
  after_claim-Keeps id item principal_id ask (t, true) asks =
      >>=-Keeps c.digest (attempted ask)
        (λ reply.
          note_reconciliation c client id item principal_id (text_of t.dispatch_attempt_id) reply)
        asks
        (λ reply.
          note_reconciliation-Keeps id item principal_id (text_of t.dispatch_attempt_id) reply)

  recover-Keeps :
      (id : String) (item : WorkItem) (principal_id : String) (w : WorkerProfile) (t : Task)
      (now : ℕ)
      → Kept c client patient (recover c client id item principal_id w t now)
  unfolding recover
  recover-Keeps id item principal_id w t now = elim (Option-cases client.reconcile) [
    | inl nothing ↦ rw (nothing, recover) (still c client patient (ok t))
    | inr (ask, found) ↦
        rw (found, recover)
          (>>=-Keeps c.digest
            (stored (
              transact c.digest id principal_id
                (claim (c.derived_id t.request_sha256) c.coordinator_id now c.lease)))
            (after_claim c client id item principal_id (ask w item))
            (transact-Keeps c client patient id principal_id _ (λ x d h.
              takes (reclaims (c.derived_id t.request_sha256) c.coordinator_id now c.lease d h refl)
                tt))
            (λ claimed_task.
              after_claim-Keeps id item principal_id (ask w item) claimed_task
                (patient.reconciles ask w item found)))
  ]

  observe-Keeps :
      (item : WorkItem) (principal_id : String) (w : WorkerProfile) (t : Task)
      → Kept c client patient (observe c client item principal_id w t)
  unfolding observe
  observe-Keeps item principal_id w t =
      >>=-Keeps c.digest (client.get w (text_of t.remote_task_id))
        (λ o. apply_observation c client item principal_id (text_of t.dispatch_attempt_id) o)
        (patient.gets w (text_of t.remote_task_id))
        (λ o.
          apply_observation-Keeps c client patient item principal_id (text_of t.dispatch_attempt_id)
            o)

  abbrev refreshed : String → String → ℕ → Task → WorkerProfile → WorkItem → Call Task
  refreshed id principal_id now t w item =
      if not (truthy t.remote_task_id)
      then recover c client id item principal_id w t now
      else if t.cancellation_requested
      then cancel_remote c client item principal_id t
      else observe c client item principal_id w t

  refreshed-Keeps :
      (id principal_id : String) (now : ℕ) (t : Task) (w : WorkerProfile) (item : WorkItem)
      → Kept c client patient (refreshed id principal_id now t w item)
  refreshed-Keeps id principal_id now t w item =
      if-Keeps c client patient (not (truthy t.remote_task_id)) _ _
        (recover-Keeps id item principal_id w t now)
        (if-Keeps c client patient t.cancellation_requested _ _
          (cancel_remote-Keeps c client patient item principal_id t)
          (observe-Keeps item principal_id w t))

  refresh-Keeps :
      (id principal_id : String) (now : ℕ) (t : Task)
      → Kept c client patient (refresh c client id principal_id now t)
  unfolding refresh
  refresh-Keeps id principal_id now t =
      >>=-Keeps c.digest (worker_of c client t.worker_id)
        (λ w. item_of c client t >>= λ item. refreshed id principal_id now t w item)
        (λ tasks. Evolves-refl c.digest tasks)
        (λ w.
          >>=-Keeps c.digest (item_of c client t) (λ item. refreshed id principal_id now t w item)
            (item_of-Keeps c client patient t)
            (λ item. refreshed-Keeps id principal_id now t w item))

  get_task-Keeps :
      (id principal_id : String) (with_refresh : Bool) (now : ℕ)
      → Kept c client patient (get_task c client id principal_id with_refresh now)
  unfolding get_task
  get_task-Keeps id principal_id with_refresh now =
      >>=-Keeps c.digest (stored (λ tasks. (get c.digest id principal_id tasks, tasks)))
        (λ t.
          if not with_refresh || is_terminal t.state
          then pure t
          else refresh c client id principal_id now t)
        (λ tasks. Evolves-refl c.digest tasks)
        (λ t.
          if-Keeps c client patient (not with_refresh || is_terminal t.state) (pure t)
            (refresh c client id principal_id now t) (still c client patient (ok t))
            (refresh-Keeps id principal_id now t))

  cancel-Keeps :
      (id principal_id : String) → Kept c client patient (cancel c client id principal_id)
  unfolding cancel
  cancel-Keeps id principal_id =
      >>=-Keeps c.digest (stored (transact c.digest id principal_id (λ x. ok (cancellation x))))
        (λ found.
          if is_terminal found.0.state || not (truthy found.0.remote_task_id)
          then pure found.0
          else (item_of c client found.0 >>= λ item.
              cancel_remote c client item principal_id found.0))
        (transact-Keeps c client patient id principal_id _
          (λ x d h. takes (withdraws (ap record_of (ok_injective h))) tt))
        (λ found.
          if-Keeps c client patient
            (is_terminal found.0.state || not (truthy found.0.remote_task_id)) (pure found.0)
            (item_of c client found.0 >>= λ item. cancel_remote c client item principal_id found.0)
            (still c client patient (ok found.0))
            (>>=-Keeps c.digest (item_of c client found.0)
              (λ item. cancel_remote c client item principal_id found.0)
              (item_of-Keeps c client patient found.0)
              (λ item. cancel_remote-Keeps c client patient item principal_id found.0)))

-- The operations of a coordinator.
pub data Operation : Type 0 where
  submits_item : WorkItem → String → Option String → ℕ → String → ℕ → Operation
  reads_task : String → String → Bool → ℕ → Operation
  cancels_task : String → String → Operation

unfoldable pub perform_operation : Coordinator → Client → Operation → Call Task
perform_operation c client (submits_item item principal_id worker_id now attempt_id deadline) =
    submit c client item principal_id worker_id now attempt_id deadline
perform_operation c client (reads_task id principal_id with_refresh now) =
    get_task c client id principal_id with_refresh now
perform_operation c client (cancels_task id principal_id) = cancel c client id principal_id

-- The coordinator refines the steps of its tasks. If tasks are stored under their own names, and evolve by
-- the steps of coordinators only while a worker is called, then after every operation of the coordinator,
-- one that raises an exception too, tasks are stored under their own names, and every task that could be
-- loaded before can be loaded, as a record that is reached from the one before by dispatches, renewals of
-- leases, claims of a reconciliation, requests for cancellation and events of a worker, each an observation
-- of a supported state, a protocol error without a result, or the failure of a call of the worker.
pub perform_operation-GoesOn :
    (c : Coordinator) (client : Client) (operation : Operation) (tasks : Tasks)
    → IsPatient c.digest client
    → WellNamed c.digest tasks
    → WellNamed c.digest (perform_operation c client operation tasks).1
      × GoesOn c.digest tasks (perform_operation c client operation tasks).1
unfolding perform_operation
perform_operation-GoesOn c client (submits_item item principal_id worker_id now attempt_id deadline)
      tasks patient =
    submit-Keeps c client patient item principal_id worker_id now attempt_id deadline tasks
perform_operation-GoesOn c client (reads_task id principal_id with_refresh now) tasks patient =
    get_task-Keeps c client patient id principal_id with_refresh now tasks
perform_operation-GoesOn c client (cancels_task id principal_id) tasks patient =
    cancel-Keeps c client patient id principal_id tasks
