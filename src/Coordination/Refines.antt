-- ===== src/Coordination/Refines.antt =====
-- The coordinator of pipeline/a2a_coordination.py refines the steps of its tasks.
use formalspecgen.Coordination.{
  text_in, Budget, Observation, Task, TaskError, WorkItem, WorkerProfile, WorkerResult, is_terminal,
  truthy,
}
use formalspecgen.Coordination.Authority.{authorize_item}
use formalspecgen.Coordination.Calls.{
  Call, Client, Coordinator, Failure, apply_observation, as_ints, attempted, cancel_bound,
  cancel_remote, common_ceilings, effective_item, from, item_of, note_cancellation, judged,
  note_observation, observation_event, pass_on_cancellation, protocol_event, pure, stored,
  supported_states, text_of, transition, worker_of, ◌>>=◌,
}
use formalspecgen.Coordination.Composed.{>>=-Keeps, Keeps, create-Evolves}
use formalspecgen.Coordination.Create.{create}
use formalspecgen.Coordination.Dispatching.{
  after_create, after_dispatch, new_record, note_submission, submit,
}
use formalspecgen.Coordination.Evolution.{Evolves-refl}
use formalspecgen.Coordination.Items.{checked_item, sorted_texts}
use formalspecgen.Coordination.Keeping.{transact-Evolves}
use formalspecgen.Coordination.Reports.{RemoteEvent, apply_event}
use formalspecgen.Coordination.Reported.{
  CoordinatorStep, IsReport, failed_call, supported_observation, refused_answer, takes,
}
use formalspecgen.Coordination.Steps.{dispatches, reports}
use formalspecgen.Coordination.Store.{TaskEvent, get, transact}
use formalspecgen.Coordination.Transitions.{Change, dispatch, record_of}
use formalspecgen.Prelude.{
  Bool, Bool-cases, Option, String, ap, false, if◌then◌else◌, inl, inr, none, not, refl, some, true,
  ℕ, ◌&&◌, ◌++◌, ◌≡◌,
}
use formalspecgen.Result.{Result, err, ok, ok_injective}

-- While a call of the client waits, the tasks evolve by the steps of coordinators only.
pub record IsPatient (digest : TaskEvent → String) (client : Client) : Type 0 where
  pub submits : (w : WorkerProfile) (item : WorkItem) → Keeps digest (client.submit w item)
  pub gets : (w : WorkerProfile) (id : String) → Keeps digest (client.get w id)
  pub cancels : (w : WorkerProfile) (id : String) → Keeps digest (client.cancel w id)
  pub reconciles :
      (ask : WorkerProfile → WorkItem → Call (Option Observation)) (w : WorkerProfile)
      (item : WorkItem)
      → client.reconcile ≡ some ask
      → Keeps digest (ask w item)

module _ (c : Coordinator) (client : Client) (patient : IsPatient c.digest client) where
  abbrev pub Kept : {A : Type 0} → Call A → Type 0
  Kept m = Keeps c.digest m

  pub still : {A : Type 0} (r : Result Failure A) → Kept (λ tasks. (r, tasks))
  still r tasks = Evolves-refl c.digest tasks

  -- Both branches of a test.
  pub if-Keeps : (b : Bool) (m k : Call Task) → Kept m → Kept k → Kept (if b then m else k)
  if-Keeps true m k first second = first
  if-Keeps false m k first second = second

  pub transact-Keeps :
      (id principal_id : String) (change : Task → Result TaskError Change)
      → ((t : Task) (d : Change) → change t ≡ ok d → CoordinatorStep t (record_of d))
      → Kept (stored (transact c.digest id principal_id change))
  transact-Keeps id principal_id change steps tasks =
      transact-Evolves c.digest id principal_id change tasks steps

  pub transition-Keeps :
      (id principal_id : String) (e : RemoteEvent)
      → IsReport e
      → Kept (transition c client id principal_id e)
  transition-Keeps id principal_id e own =
      >>=-Keeps c.digest (stored (transact c.digest id principal_id (apply_event e)))
        (λ x. pure x.0)
        (transact-Keeps id principal_id (apply_event e) (λ t d h. takes (reports e d h refl) own))
        (λ x. still (ok x.0))

  pub item_of-Keeps : (t : Task) → Kept (item_of c client t)
  item_of-Keeps t tasks = Evolves-refl c.digest tasks

  effective_item-Keeps :
      (item : WorkItem) (principal_id : String) → Kept (effective_item c client item principal_id)
  unfolding effective_item
  effective_item-Keeps item principal_id = by_parent item.parent_work_item_id
    where
      by_parent :
          (p : Option String)
          → Kept (elim p [
            | none ↦ pure item
            | some parent_id ↦
                stored (λ tasks. (get c.digest parent_id principal_id tasks, tasks)) >>= λ r.
                item_of c client r >>= λ parent. from (
                  checked_item c.strip
                    (record item {
                      protected_paths =
                          sorted_texts (item.protected_paths ++ parent.protected_paths);
                    })
                    (as_ints item.resource_budget))
          ])
      by_parent none = still (ok item)
      by_parent (some parent_id) =
          >>=-Keeps c.digest (stored (λ tasks. (get c.digest parent_id principal_id tasks, tasks)))
            _ (λ tasks. Evolves-refl c.digest tasks)
            (λ r.
              >>=-Keeps c.digest (item_of c client r) _ (item_of-Keeps r)
                (λ parent tasks. Evolves-refl c.digest tasks))

  judged-supported :
      (item : WorkItem) (o : Observation) (result : Option WorkerResult)
      → judged c client item o ≡ ok result
      → text_in (c.state_name o.state) supported_states ≡ true
  unfolding judged
  judged-supported item o result h =
      elim (Bool-cases (text_in (c.state_name o.state) supported_states)) [
        | inl supported ↦ supported
        | inr other ↦ let q = rw other at h in cc q
      ]

  note_observation-Keeps :
      (item : WorkItem) (principal_id attempt_id : String) (o : Observation)
      → Kept (note_observation c client item principal_id attempt_id o)
  unfolding note_observation
  note_observation-Keeps item principal_id attempt_id o = by_judgement (judged c client item o) refl
    where
      by_judgement :
          (r : Result TaskError (Option WorkerResult))
          → judged c client item o ≡ r
          → Kept (
              transition c client item.work_item_id principal_id (elim r [
                | err e ↦ protocol_event attempt_id o (c.state_name o.state) e
                | ok result ↦ observation_event attempt_id o (c.state_name o.state) result
              ]))
      by_judgement (err e) h =
          transition-Keeps item.work_item_id principal_id
            (protocol_event attempt_id o (c.state_name o.state) e) (refused_answer refl refl)
      by_judgement (ok result) h =
          transition-Keeps item.work_item_id principal_id
            (observation_event attempt_id o (c.state_name o.state) result)
            (supported_observation (c.state_name o.state) refl refl
              (judged-supported item o result h))

  note_cancellation-Keeps :
      (item : WorkItem) (principal_id : String) (t : Task) (id : String)
      (reply : Result Failure Observation)
      → Kept (note_cancellation c client item principal_id t id reply)
  unfolding note_cancellation
  note_cancellation-Keeps item principal_id t id (err f) =
      transition-Keeps item.work_item_id principal_id _
        (failed_call "cancel" refl refl (inr (inl refl)))
  note_cancellation-Keeps item principal_id t id (ok o) =
      note_observation-Keeps item principal_id (text_of t.dispatch_attempt_id) o

  pub cancel_remote-Keeps :
      (item : WorkItem) (principal_id : String) (t : Task)
      → Kept (cancel_remote c client item principal_id t)
  unfolding cancel_remote cancel_bound
  cancel_remote-Keeps item principal_id t = elim (Bool-cases (truthy t.remote_task_id)) [
    | inr unbound ↦ rw unbound (still (ok t))
    | inl bound ↦
        let id = text_of t.remote_task_id in
        rw bound (
          >>=-Keeps c.digest (worker_of c client t.worker_id)
            (λ w. attempted (client.cancel w id) >>= λ reply.
              note_cancellation c client item principal_id t id reply)
            (λ tasks. Evolves-refl c.digest tasks)
            (λ w.
              >>=-Keeps c.digest (attempted (client.cancel w id))
                (λ reply. note_cancellation c client item principal_id t id reply)
                (patient.cancels w id)
                (λ reply. note_cancellation-Keeps item principal_id t id reply)))
  ]

  pass_on_cancellation-Keeps :
      (item : WorkItem) (principal_id : String) (t : Task)
      → Kept (pass_on_cancellation c client item principal_id t)
  unfolding pass_on_cancellation
  pass_on_cancellation-Keeps item principal_id t =
      if-Keeps (t.cancellation_requested && not (is_terminal t.state))
        (cancel_remote c client item principal_id t) (pure t)
        (cancel_remote-Keeps item principal_id t) (still (ok t))

  pub apply_observation-Keeps :
      (item : WorkItem) (principal_id attempt_id : String) (o : Observation)
      → Kept (apply_observation c client item principal_id attempt_id o)
  unfolding apply_observation
  apply_observation-Keeps item principal_id attempt_id o =
      by_judgement (judged c client item o) refl
    where
      by_judgement :
          (r : Result TaskError (Option WorkerResult))
          → judged c client item o ≡ r
          → Kept (elim r [
            | err e ↦
                transition c client item.work_item_id principal_id
                  (protocol_event attempt_id o (c.state_name o.state) e)
            | ok result ↦
                transition c client item.work_item_id principal_id
                  (observation_event attempt_id o (c.state_name o.state) result)
                >>= pass_on_cancellation c client item principal_id
          ])
      by_judgement (err e) h =
          transition-Keeps item.work_item_id principal_id _ (refused_answer refl refl)
      by_judgement (ok result) h =
          >>=-Keeps c.digest
            (transition c client item.work_item_id principal_id
              (observation_event attempt_id o (c.state_name o.state) result))
            (pass_on_cancellation c client item principal_id)
            (transition-Keeps item.work_item_id principal_id _ (
              supported_observation (c.state_name o.state) refl refl
                (judged-supported item o result h)))
            (pass_on_cancellation-Keeps item principal_id)

  note_submission-Keeps :
      (item : WorkItem) (principal_id attempt_id : String) (reply : Result Failure Observation)
      → Kept (note_submission c client item principal_id attempt_id reply)
  unfolding note_submission
  note_submission-Keeps item principal_id attempt_id (err f) =
      transition-Keeps item.work_item_id principal_id _ (failed_call "submit" refl refl (inl refl))
  note_submission-Keeps item principal_id attempt_id (ok o) =
      apply_observation-Keeps item principal_id attempt_id o

  after_dispatch-Keeps :
      (item : WorkItem) (principal_id : String) (w : WorkerProfile) (begun : Task × Bool)
      → Kept (after_dispatch c client item principal_id w begun)
  unfolding after_dispatch
  after_dispatch-Keeps item principal_id w (t, false) = still (ok t)
  after_dispatch-Keeps item principal_id w (t, true) =
      >>=-Keeps c.digest (attempted (client.submit w item))
        (λ reply. note_submission c client item principal_id (text_of t.dispatch_attempt_id) reply)
        (patient.submits w item)
        (λ reply. note_submission-Keeps item principal_id (text_of t.dispatch_attempt_id) reply)

  after_create-Keeps :
      (item : WorkItem) (principal_id : String) (w : WorkerProfile) (attempt_id : String)
      (deadline : ℕ) (found : Task × Bool)
      → Kept (after_create c client item principal_id w attempt_id deadline found)
  unfolding after_create
  after_create-Keeps item principal_id w attempt_id deadline (t, false) = still (ok t)
  after_create-Keeps item principal_id w attempt_id deadline (t, true) =
      >>=-Keeps c.digest
        (stored (
          transact c.digest item.work_item_id principal_id
            (λ x. ok (dispatch attempt_id c.coordinator_id deadline x))))
        (λ begun. after_dispatch c client item principal_id w begun)
        (transact-Keeps item.work_item_id principal_id _ (λ x d h.
          takes (dispatches attempt_id c.coordinator_id deadline (ap record_of (ok_injective h)))
            tt))
        (λ begun. after_dispatch-Keeps item principal_id w begun)

  create-Keeps : (new : Task) (ceilings : Budget) → Kept (stored (create c.digest new ceilings))
  create-Keeps new ceilings tasks = create-Evolves c.digest new ceilings tasks

  pub submit-Keeps :
      (raw : WorkItem) (principal_id : String) (worker_id : Option String) (now : ℕ)
      (attempt_id : String) (deadline : ℕ)
      → Kept (submit c client raw principal_id worker_id now attempt_id deadline)
  unfolding submit
  submit-Keeps raw principal_id worker_id now attempt_id deadline =
      >>=-Keeps c.digest (effective_item c client raw principal_id)
        (λ item.
          from (authorize_item c.policy c.project_root now item principal_id worker_id) >>= λ g.
          stored (
            create c.digest (new_record c client item principal_id g.0 g.1)
              (common_ceilings g.0.max_budget g.1.max_budget))
          >>= λ found. after_create c client item principal_id g.1 attempt_id deadline found)
        (effective_item-Keeps raw principal_id)
        (λ item.
          >>=-Keeps c.digest
            (from (authorize_item c.policy c.project_root now item principal_id worker_id))
            (λ g.
              stored (
                create c.digest (new_record c client item principal_id g.0 g.1)
                  (common_ceilings g.0.max_budget g.1.max_budget))
              >>= λ found. after_create c client item principal_id g.1 attempt_id deadline found)
            (λ tasks. Evolves-refl c.digest tasks)
            (λ g.
              >>=-Keeps c.digest
                (stored (
                  create c.digest (new_record c client item principal_id g.0 g.1)
                    (common_ceilings g.0.max_budget g.1.max_budget)))
                (λ found. after_create c client item principal_id g.1 attempt_id deadline found)
                (create-Keeps (new_record c client item principal_id g.0 g.1)
                  (common_ceilings g.0.max_budget g.1.max_budget))
                (λ found. after_create-Keeps item principal_id g.1 attempt_id deadline found)))
