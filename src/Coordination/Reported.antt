-- ===== src/Coordination/Reported.antt =====
-- The steps that a coordinator of pipeline/a2a_coordination.py makes on the record of a task: of the events
-- of a worker only those that it can pass to `transition_remote_event`.
use formalspecgen.Coordination.{Task, text_in}
use formalspecgen.Coordination.Calls.{supported_states}
use formalspecgen.Coordination.Reports.{RemoteEvent}
use formalspecgen.Coordination.Steps.{
  TaskStep, TaskSteps, dispatches, extended, reclaims, renews, reports, unmoved, withdraws,
}
use formalspecgen.Prelude.{In, List, String, [], none, some, true, ◌∷◌, ◌≡◌}

-- The calls of a worker whose failure is an event.
abbrev pub failing_operations : List String
failing_operations = "submit" ∷ "cancel" ∷ "reconcile" ∷ []

-- An observation has a supported state, a protocol error no result, and a transport error the call that
-- failed.
pub data IsReport (e : RemoteEvent) : Type 0 where
  supported_observation :
      (state : String)
      → e.event_kind ≡ "observation"
      → e.remote_state ≡ some state
      → text_in state supported_states ≡ true
      → IsReport e
  refused_answer : e.event_kind ≡ "protocol_error" → e.worker_result ≡ none → IsReport e
  failed_call :
      (operation : String)
      → e.event_kind ≡ "transport_error"
      → e.operation ≡ some operation
      → In operation failing_operations
      → IsReport e

abbrev pub IsOwn : {t t' : Task} → TaskStep t t' → Type 0
IsOwn (dispatches a o d h) = Unit
IsOwn (renews a o d h) = Unit
IsOwn (reclaims i o now lease c h k) = Unit
IsOwn (reports e c h k) = IsReport e
IsOwn (withdraws h) = Unit

pub data CoordinatorStep (t t' : Task) : Type 0 where
  takes : (s : TaskStep t t') → IsOwn s → CoordinatorStep t t'

pub data CoordinatorSteps (t : Task) : Task → Type 0 where
  idle : CoordinatorSteps t t
  moved : {u v : Task} → CoordinatorSteps t u → CoordinatorStep u v → CoordinatorSteps t v

pub CoordinatorStep-TaskStep : {t t' : Task} → CoordinatorStep t t' → TaskStep t t'
CoordinatorStep-TaskStep (takes s own) = s

-- What holds after all steps of tasks holds after those of coordinators.
pub CoordinatorSteps-TaskSteps : {t t' : Task} → CoordinatorSteps t t' → TaskSteps t t'
CoordinatorSteps-TaskSteps idle = unmoved
CoordinatorSteps-TaskSteps (moved steps last) =
    extended (CoordinatorSteps-TaskSteps steps) (CoordinatorStep-TaskStep last)

pub CoordinatorSteps-trans :
    {t u v : Task} → CoordinatorSteps t u → CoordinatorSteps u v → CoordinatorSteps t v
CoordinatorSteps-trans first idle = first
CoordinatorSteps-trans first (moved rest last) = moved (CoordinatorSteps-trans first rest) last
