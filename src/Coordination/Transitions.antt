-- ===== src/Coordination/Transitions.antt =====
-- The updates of the record of one task by `TaskStore` of pipeline/a2a_coordination.py: what each of its
-- methods does between loading the record and appending it. Clocks, identifiers of attempts and deadlines
-- are arguments.
use formalspecgen.Coordination.{
  DispatchState, Outcome, Task, TaskError, confirmed, deny, in_flight, is_terminal, not_started,
  option_eq, recovering, truthy, uncertain,
}
use formalspecgen.Prelude.{
  Bool, Option, String, false, if◌then◌else◌, leb, none, not, some, true, ℕ, ◌&&◌, ◌+◌, ◌||◌,
}
use formalspecgen.Result.{Result, err, ok, ◌>>=◌}

-- The record as it was, or the record to append.
pub data Change : Type 0 where
  kept : Task → Change
  saved : Task → Change

abbrev pub record_of : Change → Task
record_of (kept t) = t
record_of (saved t) = t

abbrev pub is_saved : Change → Bool
is_saved (kept t) = false
is_saved (saved t) = true

abbrev pub is_not_started : DispatchState → Bool
is_not_started not_started = true
is_not_started _ = false

abbrev pub is_in_flight : DispatchState → Bool
is_in_flight in_flight = true
is_in_flight _ = false

abbrev pub outcome : String → Option String → String → Option Outcome
outcome status code message = some (record { status = status; code = code; message = message })

-- `begin_dispatch`: the attempt gets a new identifier, an owner and a lease.
unfoldable pub dispatch : String → String → ℕ → Task → Change
dispatch attempt_id owner_id deadline t =
    if is_terminal t.state || not (is_not_started t.dispatch_state)
    then kept t
    else saved (record t {
      state = "dispatching";
      dispatch_state = in_flight;
      dispatch_attempt_id = some attempt_id;
      dispatch_owner_id = some owner_id;
      dispatch_lease = some deadline;
      worker_outcome = outcome "dispatching" none "worker submission is in flight";
    })

-- `renew_dispatch_lease`
unfoldable pub renew : String → String → ℕ → Task → Change
renew attempt_id owner_id deadline t =
    if not (is_terminal t.state)
      && (is_in_flight t.dispatch_state
          && (option_eq t.dispatch_attempt_id (some attempt_id)
              && option_eq t.dispatch_owner_id (some owner_id)))
    then saved (record t { dispatch_lease = some deadline })
    else kept t

-- `_lease_expired`: an absent deadline cannot be read.
unfoldable pub lease_expired : Option ℕ → ℕ → Result TaskError Bool
lease_expired none now = err (deny "TASK_EVIDENCE_INVALID" "dispatch lease is invalid")
lease_expired (some deadline) now = ok (leb deadline now)

-- Whether the state of the dispatch, and the deadlines of its leases, let a reconciliation be claimed.
unfoldable pub claimable_in : DispatchState → Option ℕ → Option ℕ → ℕ → Result TaskError Bool
unfolding lease_expired
claimable_in in_flight dispatch_lease recovery_lease now = lease_expired dispatch_lease now
claimable_in recovering dispatch_lease recovery_lease now = lease_expired recovery_lease now
claimable_in uncertain dispatch_lease recovery_lease now = ok true
claimable_in not_started dispatch_lease recovery_lease now = ok false
claimable_in confirmed dispatch_lease recovery_lease now = ok false

abbrev pub claimable : ℕ → Task → Result TaskError Bool
claimable now t = claimable_in t.dispatch_state t.dispatch_lease t.recovery_lease now

abbrev pub or_else : Option String → String → Option String
or_else o s = if truthy o then o else some s

abbrev pub pending_or : Task → String → String
pending_or t other = if t.cancellation_requested then "cancellation_pending" else other

-- The record of a claimed reconciliation. `derived_id` is the digest of the request as an identifier.
unfoldable pub recovered : String → String → ℕ → Task → Task
recovered derived_id owner_id deadline t = record t {
  dispatch_attempt_id = or_else t.dispatch_attempt_id derived_id;
  state = pending_or t "dispatch_uncertain";
  dispatch_state = recovering;
  recovery_owner_id = some owner_id;
  recovery_lease = some deadline;
  worker_outcome = outcome "reconciling" none "reconciling an unresolved dispatch attempt";
}

-- `claim_reconciliation`
unfoldable pub claim : String → String → ℕ → ℕ → Task → Result TaskError Change
unfolding claimable_in recovered
claim derived_id owner_id now lease t =
    if is_terminal t.state || truthy t.remote_task_id
    then ok (kept t)
    else claimable now t >>= λ free.
        ok (if free then saved (recovered derived_id owner_id (now + lease) t) else kept t)

-- `request_cancellation`
unfoldable pub cancellation : Task → Change
cancellation t =
    if is_terminal t.state
    then kept t
    else if is_not_started t.dispatch_state
    then saved (record t {
      cancellation_requested = true;
      state = "cancelled";
      cancellation_status = "confirmed_local";
      worker_outcome = outcome "cancelled" none "cancelled before dispatch began";
    })
    else saved (record t {
      cancellation_requested = true;
      state = "cancellation_pending";
      cancellation_status = "pending";
      worker_outcome =
          outcome "cancellation_pending" none "remote cancellation has not been confirmed";
    })
