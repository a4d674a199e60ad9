-- ===== src/Coordination/Sound.antt =====
-- The records of tasks of pipeline/a2a_coordination.py that can be reached from a submitted one.
use mathlib.Core.Path.{subst}
use formalspecgen.Coordination.{
  Diagnostic, Task, WorkItem, WorkerProfile, is_terminal, no_proof, not_started, option_eq,
}
use formalspecgen.Coordination.Events.{
  EventBranch, apply_event-EventBranch, flagged, lost_in_transport, noted, refused_by_protocol,
  repeated, told,
}
use formalspecgen.Coordination.Once.{claim-cases}
use formalspecgen.Coordination.Reports.{
  RemoteEvent, add_diagnostic, drop, keep_last, observed_state, protocol_error, transport_error,
}
use formalspecgen.Coordination.Steps.{
  TaskStep, TaskSteps, TaskSteps-keep, dispatches, identity_of, reclaims, renews, reports,
  withdraws,
}
use formalspecgen.Coordination.Transitions.{
  Change, cancellation, claim, dispatch, is_in_flight, is_not_started, record_of, recovered, renew,
}
use formalspecgen.Prelude.{
  Bool-cases, List, String, [], arith, false, inl, inr, length, length-append, none, not, refl,
  some, suc, zero, ℕ, ◌&&◌, ◌++◌, ◌+◌, ◌-◌, ◌||◌, ◌∙◌, ◌∷◌, ◌≡◌, ◌≤◌,
}
use formalspecgen.Result.{ok}

-- The record that a submission creates.
unfoldable pub queued : String → WorkItem → String → WorkerProfile → String → String → Task
queued request_sha256 item principal_id worker authority_sha256 worker_profile_sha256 = record {
  work_item_id = item.work_item_id;
  request_sha256 = request_sha256;
  principal_id = principal_id;
  worker_id = worker.worker_id;
  state = "queued";
  dispatch_state = not_started;
  dispatch_attempt_id = none;
  dispatch_owner_id = none;
  dispatch_lease = none;
  recovery_owner_id = none;
  recovery_lease = none;
  remote_task_id = none;
  remote_state = none;
  cancellation_requested = false;
  cancellation_status = "not_requested";
  work_item = item;
  worker_result = none;
  worker_outcome = none;
  coordination_status = "consistent";
  diagnostics = [];
  diagnostic_count = 0;
  acceptance = no_proof;
  authority_sha256 = authority_sha256;
  worker_profile_sha256 = worker_profile_sha256;
}

-- The identity is that of a first record, the task is never more than a proposal, and the diagnostics
-- are bounded. A task that was not dispatched has no attempt, no remote task and no result.
pub record IsSound (first t : Task) : Type 0 where
  pub identity : identity_of t ≡ identity_of first
  pub proposal : t.acceptance ≡ no_proof
  pub bounded : length t.diagnostics ≤ 64
  pub counted : length t.diagnostics ≤ t.diagnostic_count
  pub undispatched :
      t.dispatch_state ≡ not_started
      → (t.dispatch_attempt_id ≡ none) × (t.remote_task_id ≡ none) × (t.worker_result ≡ none)

length-drop : {A : Type 0} (n : ℕ) (xs : List A) → length (drop n xs) ≡ length xs - n
unfolding drop
length-drop zero xs = omega arith
length-drop (suc n) [] = omega arith
length-drop (suc n) (x ∷ xs) = omega (arith, length-drop n xs)

length-keep_last_snoc :
    {A : Type 0} (xs : List A) (x : A)
    → (length (keep_last 64 (xs ++ x ∷ [])) ≤ 64)
      × (length (keep_last 64 (xs ++ x ∷ [])) ≤ length xs + 1)
length-keep_last_snoc xs x =
    let whole = xs ++ x ∷ [] in
    let size = length-append {0} xs (x ∷ []) in
    let shorter = length-drop (length whole - 64) whole in
    (omega (arith, size, shorter), omega (arith, size, shorter))

add_diagnostic-IsSound :
    (first t : Task) (code message : String)
    → IsSound first t
    → IsSound first (add_diagnostic code message t)
unfolding add_diagnostic
add_diagnostic-IsSound first t code message s =
    let entry : Diagnostic = record { code = code; message = message } in
    let sizes = length-keep_last_snoc t.diagnostics entry in
    let before = s.counted in
    record {
      identity = s.identity;
      proposal = s.proposal;
      bounded = sizes.0;
      counted = omega (arith, sizes.1, before);
      undispatched = s.undispatched;
    }

-- A record that differs from a sound one in its progress only is sound, if it was dispatched or if it has
-- no attempt, remote task or result either.
begun-IsSound :
    (first t u : Task)
    → IsSound first t
    → identity_of u ≡ identity_of t
    → u.acceptance ≡ no_proof
    → u.diagnostics ≡ t.diagnostics
    → u.diagnostic_count ≡ t.diagnostic_count
    → is_not_started u.dispatch_state ≡ false
    → IsSound first u
begun-IsSound first t u s identity proposal notes count begun = record {
  identity = identity ∙ s.identity;
  proposal = proposal;
  bounded = rw notes s.bounded;
  counted = rw (notes, count) s.counted;
  undispatched = λ e. let q = rw e at begun in cc q;
}

dispatch-IsSound :
    (first t : Task) (a o : String) (d : ℕ)
    → IsSound first t
    → IsSound first (record_of (dispatch a o d t))
unfolding dispatch
dispatch-IsSound first t a o d s =
    elim (Bool-cases (is_terminal t.state || not (is_not_started t.dispatch_state))) [
      | inl closed ↦ rw (closed, dispatch) s
      | inr fresh ↦ rw (fresh, dispatch) (begun-IsSound first t _ s refl s.proposal refl refl refl)
    ]

renew-IsSound :
    (first t : Task) (a o : String) (d : ℕ)
    → IsSound first t
    → IsSound first (record_of (renew a o d t))
unfolding renew
renew-IsSound first t a o d s =
    elim (Bool-cases (
      not (is_terminal t.state)
      && (is_in_flight t.dispatch_state
          && (option_eq t.dispatch_attempt_id (some a)
              && option_eq t.dispatch_owner_id (some o))))) [
                | inr other ↦ rw (other, renew) s
                | inl owned ↦
                    rw (owned, renew)
                      (record {
                        identity = s.identity;
                        proposal = s.proposal;
                        bounded = s.bounded;
                        counted = s.counted;
                        undispatched = s.undispatched;
                      })
              ]

claim-IsSound :
    (first t : Task) (i o : String) (now lease : ℕ) (c : Change)
    → claim i o now lease t ≡ ok c
    → IsSound first t
    → IsSound first (record_of c)
unfolding recovered
claim-IsSound first t i o now lease c h s = elim (claim-cases i o now lease t c h) [
  | inl same ↦ subst (λ x. IsSound first (record_of x)) same s
  | inr (made, free, live, unbound) ↦
      subst (λ x. IsSound first (record_of x)) made
        (begun-IsSound first t _ s refl s.proposal refl refl refl)
]

transport_error-IsSound :
    (first t : Task) (e : RemoteEvent) → IsSound first t → IsSound first (transport_error e t)
unfolding transport_error
transport_error-IsSound first t e s = elim (Bool-cases (option_eq e.operation (some "cancel"))) [
  | inl cancels_it ↦
      rw (cancels_it, transport_error)
        (add_diagnostic-IsSound first _ _ e.message (record {
          identity = s.identity;
          proposal = s.proposal;
          bounded = s.bounded;
          counted = s.counted;
          undispatched = s.undispatched;
        }))
  | inr other ↦
      rw (other, transport_error)
        (add_diagnostic-IsSound first _ _ e.message
          (begun-IsSound first t _ s refl s.proposal refl refl refl))
]

EventBranch-IsSound :
    (first t : Task) (e : RemoteEvent) (c : Change)
    → EventBranch e t c
    → IsSound first t
    → IsSound first (record_of c)
unfolding protocol_error observed_state
EventBranch-IsSound first t e c (repeated q) s = subst (λ x. IsSound first (record_of x)) q s
EventBranch-IsSound first t e c (noted code message q) s =
    subst (λ x. IsSound first (record_of x)) q (add_diagnostic-IsSound first t code message s)
EventBranch-IsSound first t e c (flagged code message q) s =
    let noted_too = add_diagnostic-IsSound first t code message s in
    subst (λ x. IsSound first (record_of x)) q
      (record {
        identity = noted_too.identity;
        proposal = noted_too.proposal;
        bounded = noted_too.bounded;
        counted = noted_too.counted;
        undispatched = noted_too.undispatched;
      })
EventBranch-IsSound first t e c (refused_by_protocol current q) s =
    subst (λ x. IsSound first (record_of x)) q
      (add_diagnostic-IsSound first _ _ e.message
        (begun-IsSound first t _ s refl refl refl refl refl))
EventBranch-IsSound first t e c (lost_in_transport current q) s =
    subst (λ x. IsSound first (record_of x)) q (transport_error-IsSound first t e s)
EventBranch-IsSound first t e c (told state current found q) s =
    subst (λ x. IsSound first (record_of x)) q (begun-IsSound first t _ s refl refl refl refl refl)

cancellation-IsSound :
    (first t : Task) → IsSound first t → IsSound first (record_of (cancellation t))
unfolding cancellation
cancellation-IsSound first t s = elim (Bool-cases (is_terminal t.state)) [
  | inl over ↦ rw (over, cancellation) s
  | inr live ↦ elim (Bool-cases (is_not_started t.dispatch_state)) [
    | inl fresh ↦
        rw (live, fresh, cancellation)
          (record {
            identity = s.identity;
            proposal = s.proposal;
            bounded = s.bounded;
            counted = s.counted;
            undispatched = s.undispatched;
          })
    | inr begun ↦
        rw (live, begun, cancellation) (begun-IsSound first t _ s refl s.proposal refl refl begun)
  ]
]

TaskStep-IsSound : (first t t' : Task) → TaskStep t t' → IsSound first t → IsSound first t'
TaskStep-IsSound first t t' (dispatches a o d q) s =
    subst (IsSound first) q (dispatch-IsSound first t a o d s)
TaskStep-IsSound first t t' (renews a o d q) s =
    subst (IsSound first) q (renew-IsSound first t a o d s)
TaskStep-IsSound first t t' (reclaims i o now lease c q k) s =
    subst (IsSound first) k (claim-IsSound first t i o now lease c q s)
TaskStep-IsSound first t t' (reports e c q k) s =
    subst (IsSound first) k (EventBranch-IsSound first t e c (apply_event-EventBranch e t c q) s)
TaskStep-IsSound first t t' (withdraws q) s =
    subst (IsSound first) q (cancellation-IsSound first t s)

-- In every record that dispatches, renewals of leases, claims of a reconciliation, events of a worker and
-- requests for cancellation can reach from a submitted one, the identity of the task is as submitted, its
-- acceptance is still pending with no proof, whatever the worker reported, at most 64 diagnostics are
-- kept, no more than were counted, and a task that was not dispatched has no attempt, no remote task and
-- no result.
pub TaskSteps-IsSound :
    (request_sha256 : String) (item : WorkItem) (principal_id : String) (worker : WorkerProfile)
    (authority_sha256 worker_profile_sha256 : String) {t : Task}
    → TaskSteps
        (queued request_sha256 item principal_id worker authority_sha256 worker_profile_sha256)
        t
    → IsSound
        (queued request_sha256 item principal_id worker authority_sha256 worker_profile_sha256)
        t
unfolding queued
TaskSteps-IsSound request_sha256 item principal_id worker authority_sha256 worker_profile_sha256
      steps =
    let first =
      queued request_sha256 item principal_id worker authority_sha256 worker_profile_sha256 in
    TaskSteps-keep (IsSound first) (TaskStep-IsSound first) steps (record {
      identity = refl;
      proposal = refl;
      bounded = omega arith;
      counted = omega arith;
      undispatched = λ e. (refl, refl, refl);
    })
