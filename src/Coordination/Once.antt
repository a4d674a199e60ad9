-- ===== src/Coordination/Once.antt =====
-- The attempt of a task of pipeline/a2a_coordination.py, and the remote task that it is bound to.
use mathlib.Core.Path.{subst}
use formalspecgen.Coordination.{Task, is_terminal, option_eq, truthy}
use formalspecgen.Coordination.Events.{
  EventBranch, apply_event-EventBranch, flagged, lost_in_transport, noted, option_eq_sound,
  refused_by_protocol, repeated, told,
}
use formalspecgen.Coordination.Reports.{
  RemoteEvent, add_diagnostic, apply_event, conflicting_id, observed_state, protocol_error,
  transport_error,
}
use formalspecgen.Coordination.Steps.{
  TaskStep, TaskSteps, TaskSteps-keep, dispatches, reclaims, renews, reports, withdraws,
}
use formalspecgen.Coordination.Transitions.{
  Change, cancellation, claim, claimable, dispatch, is_in_flight, is_not_started, kept, record_of,
  recovered, renew, saved,
}
use formalspecgen.Prelude.{
  Bool-cases, Option, String, ap, arith, false, inl, inr, none, not, refl, some, str_eq, sym, true,
  ℕ, ◌&&◌, ◌+◌, ◌||◌, ◌∙◌, ◌≡◌, ◌⊎◌,
}
use formalspecgen.Result.{>>=-eq-ok, ok, ok_injective}

-- A task that is dispatched, by an attempt.
abbrev pub IsAttempt : String → Task → Type 0
IsAttempt a t =
    (is_not_started t.dispatch_state ≡ false)
    × (t.dispatch_attempt_id ≡ some a)
    × (str_eq a "" ≡ false)

pub dispatch-begun :
    (attempt_id owner_id : String) (deadline : ℕ) (t : Task)
    → is_not_started t.dispatch_state ≡ false
    → dispatch attempt_id owner_id deadline t ≡ kept t
unfolding dispatch
dispatch-begun attempt_id owner_id deadline t begun = elim (Bool-cases (is_terminal t.state)) [
  | inl over ↦ rw over
  | inr live ↦ rw (live, begun)
]

renew-IsAttempt :
    (a : String) (t : Task) (attempt_id owner_id : String) (deadline : ℕ)
    → IsAttempt a t
    → IsAttempt a (record_of (renew attempt_id owner_id deadline t))
unfolding renew
renew-IsAttempt a t attempt_id owner_id deadline h =
    elim (Bool-cases (
      not (is_terminal t.state)
      && (is_in_flight t.dispatch_state
          && (option_eq t.dispatch_attempt_id (some attempt_id)
              && option_eq t.dispatch_owner_id (some owner_id))))) [
                | inl owned ↦ rw (owned, renew) h
                | inr other ↦ rw (other, renew) h
              ]

-- A claim keeps the record, or it recovers a task without a terminal state and without a bound remote
-- task, whose lease has run out or was given back.
pub claim-cases :
    (derived_id owner_id : String) (now lease : ℕ) (t : Task) (c : Change)
    → claim derived_id owner_id now lease t ≡ ok c
    → (kept t ≡ c)
      ⊎ ((saved (recovered derived_id owner_id (now + lease) t) ≡ c)
          × (claimable now t ≡ ok true)
          × (is_terminal t.state ≡ false)
          × (truthy t.remote_task_id ≡ false))
unfolding claim
claim-cases derived_id owner_id now lease t c h =
    elim (Bool-cases (is_terminal t.state || truthy t.remote_task_id)) [
      | inl closed ↦ inl (ok_injective (rw closed at h))
      | inr open_task ↦
          let q = rw open_task at h in
          let (free, is_free, made) = >>=-eq-ok (claimable now t) _ q in
          elim (Bool-cases free) [
            | inr busy ↦ inl (ok_injective (rw busy at made))
            | inl able ↦
                inr
                  (ok_injective (rw able at made), is_free ∙ ap ok able, ground arith, ground arith)
          ]
    ]

recovered-IsAttempt :
    (a derived_id owner_id : String) (deadline : ℕ) (t : Task)
    → IsAttempt a t
    → IsAttempt a (recovered derived_id owner_id deadline t)
unfolding recovered
recovered-IsAttempt a derived_id owner_id deadline t (begun, current, named) =
    (refl, rw (current, named), named)

transport_error-begun :
    (e : RemoteEvent) (t : Task)
    → is_not_started t.dispatch_state ≡ false
    → is_not_started (transport_error e t).dispatch_state ≡ false
unfolding transport_error add_diagnostic
transport_error-begun e t h = elim (Bool-cases (option_eq e.operation (some "cancel"))) [
  | inl cancels_it ↦ rw cancels_it h
  | inr other ↦ rw other
]

transport_error-attempt :
    (e : RemoteEvent) (t : Task) → (transport_error e t).dispatch_attempt_id ≡ t.dispatch_attempt_id
unfolding transport_error add_diagnostic
transport_error-attempt e t = elim (Bool-cases (option_eq e.operation (some "cancel"))) [
  | inl cancels_it ↦ rw cancels_it
  | inr other ↦ rw other
]

EventBranch-IsAttempt :
    (a : String) (e : RemoteEvent) (t : Task) (c : Change)
    → EventBranch e t c
    → IsAttempt a t
    → IsAttempt a (record_of c)
unfolding add_diagnostic protocol_error observed_state
EventBranch-IsAttempt a e t c (repeated q) h = subst (λ x. IsAttempt a (record_of x)) q h
EventBranch-IsAttempt a e t c (noted code message q) h = subst (λ x. IsAttempt a (record_of x)) q h
EventBranch-IsAttempt a e t c (flagged code message q) h =
    subst (λ x. IsAttempt a (record_of x)) q h
EventBranch-IsAttempt a e t c (refused_by_protocol current q) h =
    subst (λ x. IsAttempt a (record_of x)) q (refl, h.1, h.2)
EventBranch-IsAttempt a e t c (lost_in_transport current q) h =
    subst (λ x. IsAttempt a (record_of x)) q
      (transport_error-begun e t h.0, transport_error-attempt e t ∙ h.1, h.2)
EventBranch-IsAttempt a e t c (told s current found q) h =
    subst (λ x. IsAttempt a (record_of x)) q (refl, h.1, h.2)

cancellation-IsAttempt :
    (a : String) (t : Task) → IsAttempt a t → IsAttempt a (record_of (cancellation t))
unfolding cancellation
cancellation-IsAttempt a t h = elim (Bool-cases (is_terminal t.state)) [
  | inl over ↦ rw (over, cancellation) h
  | inr live ↦ let begun = h.0 in rw (live, begun, cancellation) h
]

TaskStep-IsAttempt : (a : String) (t t' : Task) → TaskStep t t' → IsAttempt a t → IsAttempt a t'
TaskStep-IsAttempt a t t' (dispatches b o d q) h =
    subst (IsAttempt a) (ap record_of (sym (dispatch-begun b o d t h.0)) ∙ q) h
TaskStep-IsAttempt a t t' (renews b o d q) h = subst (IsAttempt a) q (renew-IsAttempt a t b o d h)
TaskStep-IsAttempt a t t' (reclaims i o now lease c q k) h =
    elim (claim-cases i o now lease t c q) [
      | inl same ↦ subst (IsAttempt a) (ap record_of same ∙ k) h
      | inr claimed ↦
          subst (IsAttempt a) (ap record_of claimed.0 ∙ k)
            (recovered-IsAttempt a i o (now + lease) t h)
    ]
TaskStep-IsAttempt a t t' (reports e c q k) h =
    subst (IsAttempt a) k (EventBranch-IsAttempt a e t c (apply_event-EventBranch e t c q) h)
TaskStep-IsAttempt a t t' (withdraws q) h = subst (IsAttempt a) q (cancellation-IsAttempt a t h)

-- A task is dispatched at most once. If a dispatch with a non-empty identifier saves a record, then after
-- any further dispatches, renewals of leases, claims of a reconciliation, events of a worker and requests
-- for cancellation the task still carries that attempt, and every other dispatch leaves it as it is.
pub dispatched_once :
    (attempt_id owner_id : String) (deadline : ℕ) (t : Task) {u v : Task}
    → dispatch attempt_id owner_id deadline t ≡ saved u
    → str_eq attempt_id "" ≡ false
    → TaskSteps u v
    → (v.dispatch_attempt_id ≡ some attempt_id)
      × ((other owner : String) (until : ℕ) → dispatch other owner until v ≡ kept v)
unfolding dispatch
dispatched_once attempt_id owner_id deadline t {u} {v} h named steps =
    elim (Bool-cases (is_terminal t.state || not (is_not_started t.dispatch_state))) [
      | inl closed ↦ let q = rw closed at h in cc q
      | inr fresh ↦
          let q = rw fresh at h in
          let first : IsAttempt attempt_id u =
            subst (λ c. IsAttempt attempt_id (record_of c)) q (refl, refl, named) in
          let last =
            TaskSteps-keep (IsAttempt attempt_id) (TaskStep-IsAttempt attempt_id) steps first in
          (last.1, λ other owner until. dispatch-begun other owner until v last.0)
    ]

truthy-is_some : (o : Option String) → truthy o ≡ true → (s : String) × (o ≡ some s)
truthy-is_some none h = cc
truthy-is_some (some s) h = (s, refl)

conflicting_id-false :
    (e : RemoteEvent) (t : Task)
    → conflicting_id e t ≡ false
    → truthy e.remote_task_id ≡ true
    → truthy t.remote_task_id ≡ true
    → e.remote_task_id ≡ t.remote_task_id
unfolding conflicting_id
conflicting_id-false e t h named bound =
    option_eq_sound e.remote_task_id t.remote_task_id
      (let q = rw (named, bound) at h in ground arith)

transport_error-remote :
    (e : RemoteEvent) (t : Task) → (transport_error e t).remote_task_id ≡ t.remote_task_id
unfolding transport_error add_diagnostic
transport_error-remote e t = elim (Bool-cases (option_eq e.operation (some "cancel"))) [
  | inl cancels_it ↦ rw cancels_it
  | inr other ↦ rw other
]

-- A bound remote task stays bound. An event that names a remote task, with an identifier that is not
-- empty, does not change the remote task that the record names already.
pub apply_event-remote_task_id :
    (e : RemoteEvent) (t : Task) (c : Change)
    → apply_event e t ≡ ok c
    → truthy e.remote_task_id ≡ true
    → truthy t.remote_task_id ≡ true
    → (record_of c).remote_task_id ≡ t.remote_task_id
unfolding add_diagnostic protocol_error observed_state
apply_event-remote_task_id e t c h named bound = elim (apply_event-EventBranch e t c h) [
  | repeated q ↦ ap (λ x. (record_of x).remote_task_id) (sym q)
  | noted code message q ↦ ap (λ x. (record_of x).remote_task_id) (sym q)
  | flagged code message q ↦ ap (λ x. (record_of x).remote_task_id) (sym q)
  | refused_by_protocol current q ↦
      ap (λ x. (record_of x).remote_task_id) (sym q)
      ∙ conflicting_id-false e t current.same_task named bound
  | lost_in_transport current q ↦
      ap (λ x. (record_of x).remote_task_id) (sym q) ∙ transport_error-remote e t
  | told s current found q ↦
      ap (λ x. (record_of x).remote_task_id) (sym q)
      ∙ conflicting_id-false e t current.same_task named bound
]
