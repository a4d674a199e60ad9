-- ===== src/Coordination/Reports.antt =====
-- The events of the worker of a task: `transition_remote_event` and `_add_diagnostic` of `TaskStore` of
-- pipeline/a2a_coordination.py.
use formalspecgen.Coordination.{
  Task, TaskError, WorkerResult, confirmed, deny, is_terminal, no_proof, option_eq, truthy,
  uncertain,
}
use formalspecgen.Coordination.Transitions.{Change, kept, outcome, pending_or, saved}
use formalspecgen.Prelude.{
  Bool, List, Option, String, [], false, if◌then◌else◌, length, none, not, some, str_eq, suc, true,
  zero, ℕ, ◌&&◌, ◌++◌, ◌+◌, ◌-◌, ◌∷◌,
}
use formalspecgen.Result.{Result, err, ok}

unfoldable pub drop : {A : Type 0} → ℕ → List A → List A
drop zero xs = xs
drop (suc n) [] = []
drop (suc n) (x ∷ xs) = drop n xs

-- `xs[-n:]`
abbrev pub keep_last : {A : Type 0} → ℕ → List A → List A
keep_last n xs = drop (length xs - n) xs

-- `_add_diagnostic`
unfoldable pub add_diagnostic : String → String → Task → Task
unfolding drop
add_diagnostic code message t = record t {
  diagnostics = keep_last 64 (t.diagnostics ++ record { code = code; message = message } ∷ []);
  diagnostic_count = t.diagnostic_count + 1;
}

-- The arguments of `transition_remote_event`.
pub record RemoteEvent : Type 0 where
  pub attempt_id : String
  pub event_kind : String
  pub remote_task_id : Option String
  pub remote_state : Option String
  pub worker_result : Option WorkerResult
  pub operation : Option String
  pub code : Option String
  pub message : String

abbrev pub terminal_option : Option String → Bool
terminal_option none = false
terminal_option (some s) = is_terminal s

abbrev pub result_eq : Option WorkerResult → Option WorkerResult → Bool
result_eq none none = true
result_eq (some r) (some s) = str_eq r.text s.text
result_eq _ _ = false

unfoldable pub conflicting_id : RemoteEvent → Task → Bool
conflicting_id e t =
    truthy e.remote_task_id
    && (truthy t.remote_task_id && not (option_eq e.remote_task_id t.remote_task_id))

abbrev pub mark_inconsistent : Task → Task
mark_inconsistent t = record t { coordination_status = "inconsistent" }

-- An event behind a terminal outcome.
unfoldable pub after_outcome : RemoteEvent → Task → Change
unfolding add_diagnostic is_terminal
after_outcome e t =
    if str_eq e.event_kind "observation"
    then (if option_eq e.remote_state t.remote_state && result_eq e.worker_result t.worker_result
        then kept t
        else if terminal_option e.remote_state
        then saved (
            mark_inconsistent (
              add_diagnostic "TERMINAL_STATE_CONFLICT"
                "remote event cannot replace a terminal outcome" t))
        else saved (
            add_diagnostic "STALE_REMOTE_OBSERVATION"
              "remote event cannot replace a terminal outcome" t))
    else saved (
        add_diagnostic
          (if str_eq e.event_kind "protocol_error"
            then "LATE_PROTOCOL_ERROR"
            else "LATE_TRANSPORT_ERROR")
          "remote error arrived after a terminal outcome" t)

abbrev pub code_or : Option String → String → String
code_or none s = s
code_or (some c) s = if str_eq c "" then s else c

unfoldable pub protocol_error : RemoteEvent → Task → Task
unfolding add_diagnostic is_terminal
protocol_error e t = add_diagnostic (code_or e.code "WORKER_RESULT_INVALID") e.message (record t {
  state = if terminal_option e.remote_state then "failed" else "dispatch_uncertain";
  dispatch_state = confirmed;
  remote_state = e.remote_state;
  remote_task_id = e.remote_task_id;
  worker_outcome =
      outcome (if terminal_option e.remote_state then "failed" else "remote_observation_invalid")
        e.code e.message;
  acceptance = no_proof;
})

unfoldable pub transport_error : RemoteEvent → Task → Task
unfolding add_diagnostic
transport_error e t = add_diagnostic (code_or e.code "REMOTE_TRANSPORT_ERROR") e.message (
    if option_eq e.operation (some "cancel")
    then record t {
      state = "cancellation_pending";
      cancellation_status = "uncertain";
      worker_outcome = outcome "cancellation_uncertain" e.code e.message;
    }
    else record t {
      state = pending_or t "dispatch_uncertain";
      dispatch_state = uncertain;
      worker_outcome =
          outcome
            (if option_eq e.operation (some "reconcile")
              then "reconciliation_failed"
              else "dispatch_uncertain")
            e.code e.message;
    })

unfoldable pub observed_state : String → RemoteEvent → Task → Task
unfolding is_terminal
observed_state remote_state e t = record t {
  state = if is_terminal remote_state then remote_state else pending_or t remote_state;
  dispatch_state = confirmed;
  remote_state = some remote_state;
  remote_task_id = e.remote_task_id;
  worker_result = e.worker_result;
  worker_outcome = outcome remote_state none e.message;
  acceptance = no_proof;
  cancellation_status =
      if t.cancellation_requested
      then (if is_terminal remote_state then "remote_terminal" else "pending")
      else t.cancellation_status;
}

abbrev pub invalid_event : Result TaskError Change
invalid_event = err (deny "TASK_EVIDENCE_INVALID" "invalid remote transition event")

-- An event of the current attempt, before a terminal outcome.
unfoldable pub before_outcome : RemoteEvent → Task → Result TaskError Change
unfolding protocol_error transport_error observed_state
before_outcome e t =
    if str_eq e.event_kind "protocol_error"
    then ok (saved (protocol_error e t))
    else if str_eq e.event_kind "transport_error"
    then ok (saved (transport_error e t))
    else if str_eq e.event_kind "observation"
    then elim e.remote_state [
      | some remote_state ↦ ok (saved (observed_state remote_state e t))
      | none ↦ invalid_event
    ]
    else invalid_event

-- `transition_remote_event`
unfoldable pub apply_event : RemoteEvent → Task → Result TaskError Change
unfolding conflicting_id add_diagnostic after_outcome before_outcome
apply_event e t =
    if not (option_eq t.dispatch_attempt_id (some e.attempt_id))
    then ok (
        saved
          (add_diagnostic "STALE_DISPATCH_ATTEMPT" "event belongs to another dispatch attempt" t))
    else if conflicting_id e t
    then ok (
        saved (
          mark_inconsistent
            (add_diagnostic "REMOTE_TASK_ID_CONFLICT" "event identifies another remote task" t)))
    else if is_terminal t.state
    then ok (after_outcome e t)
    else before_outcome e t
