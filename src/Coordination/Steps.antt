-- ===== src/Coordination/Steps.antt =====
-- The methods of `TaskStore` of pipeline/a2a_coordination.py that a coordinator calls on a task, as a step
-- relation on its record, in any order, by any number of coordinators: `begin_dispatch`,
-- `renew_dispatch_lease`, `claim_reconciliation`, `transition_remote_event` and `request_cancellation`. The
-- method `update`, which sets any entry of a record and which no coordinator calls, is no step.
use formalspecgen.Coordination.{Acceptance, Outcome, Task, WorkItem, WorkerResult}
use formalspecgen.Coordination.Reports.{RemoteEvent, apply_event}
use formalspecgen.Coordination.Transitions.{Change, cancellation, claim, dispatch, record_of, renew}
use formalspecgen.Prelude.{Option, String, ℕ, ◌≡◌}
use formalspecgen.Result.{ok}

pub data TaskStep (t t' : Task) : Type 0 where
  dispatches :
      (attempt_id owner_id : String) (deadline : ℕ)
      → record_of (dispatch attempt_id owner_id deadline t) ≡ t'
      → TaskStep t t'
  renews :
      (attempt_id owner_id : String) (deadline : ℕ)
      → record_of (renew attempt_id owner_id deadline t) ≡ t'
      → TaskStep t t'
  reclaims :
      (derived_id owner_id : String) (now lease : ℕ) (c : Change)
      → claim derived_id owner_id now lease t ≡ ok c
      → record_of c ≡ t'
      → TaskStep t t'
  reports :
      (e : RemoteEvent) (c : Change) → apply_event e t ≡ ok c → record_of c ≡ t' → TaskStep t t'
  withdraws : record_of (cancellation t) ≡ t' → TaskStep t t'

pub data TaskSteps (t : Task) : Task → Type 0 where
  unmoved : TaskSteps t t
  extended : {u v : Task} → TaskSteps t u → TaskStep u v → TaskSteps t v

pub TaskSteps-trans : {t u v : Task} → TaskSteps t u → TaskSteps u v → TaskSteps t v
TaskSteps-trans first unmoved = first
TaskSteps-trans first (extended rest last) = extended (TaskSteps-trans first rest) last

-- A property that every step keeps is kept by all steps.
pub TaskSteps-keep :
    (P : Task → Type 0)
    → ((t t' : Task) → TaskStep t t' → P t → P t')
    → {t t' : Task} → TaskSteps t t'
    → P t
    → P t'
TaskSteps-keep P keep unmoved p = p
TaskSteps-keep P keep (extended {u} {v} steps last) p =
    keep u v last (TaskSteps-keep P keep steps p)

-- What the updates of a record do not touch.
abbrev pub identity_of : Task → String × String × String × String × WorkItem × String × String
identity_of t = (
  t.work_item_id, t.request_sha256, t.principal_id, t.worker_id, t.work_item, t.authority_sha256,
  t.worker_profile_sha256,
)

-- The outcome of a task, and its acceptance.
abbrev pub outcome_of :
    Task
    → String × Option String × Option WorkerResult × Option Outcome × Option String × Acceptance
outcome_of t =
    (t.state, t.remote_state, t.worker_result, t.worker_outcome, t.remote_task_id, t.acceptance)
