-- ===== src/Coordination/Outcomes.antt =====
-- Terminal outcomes of tasks of pipeline/a2a_coordination.py.

use mathlib.Core.Path.{subst}
use formalspecgen.Coordination.{Task, is_terminal, option_eq}
use formalspecgen.Coordination.Reports.{
  RemoteEvent, add_diagnostic, after_outcome, apply_event, conflicting_id, result_eq,
  terminal_option,
}
use formalspecgen.Coordination.Steps.{
  TaskStep, TaskSteps, dispatches, extended, outcome_of, reclaims, renews, reports, unmoved,
  withdraws,
}
use formalspecgen.Coordination.Transitions.{
  Change, cancellation, claim, dispatch, kept, record_of, renew,
}
use formalspecgen.Prelude.{
  Bool-cases, String, ap, inl, inr, not, refl, some, str_eq, sym, true, ℕ, ◌&&◌, ◌∙◌, ◌≡◌,
}
use formalspecgen.Result.{ok, ok_injective}

module _ (t : Task) (over : is_terminal t.state ≡ true) where
  dispatch-terminal :
      (attempt_id owner_id : String) (deadline : ℕ)
      → dispatch attempt_id owner_id deadline t ≡ kept t
  unfolding dispatch
  dispatch-terminal attempt_id owner_id deadline = rw over

  renew-terminal :
      (attempt_id owner_id : String) (deadline : ℕ) → renew attempt_id owner_id deadline t ≡ kept t
  unfolding renew
  renew-terminal attempt_id owner_id deadline = rw over

  claim-terminal :
      (derived_id owner_id : String) (now lease : ℕ)
      → claim derived_id owner_id now lease t ≡ ok (kept t)
  unfolding claim
  claim-terminal derived_id owner_id now lease = rw over

  cancellation-terminal : cancellation t ≡ kept t
  unfolding cancellation
  cancellation-terminal = rw over

  after_outcome-outcome_of :
      (e : RemoteEvent) → outcome_of (record_of (after_outcome e t)) ≡ outcome_of t
  unfolding after_outcome add_diagnostic
  after_outcome-outcome_of e = elim (Bool-cases (str_eq e.event_kind "observation")) [
    | inr other ↦ rw other
    | inl observation ↦
        elim (Bool-cases
          (option_eq e.remote_state t.remote_state && result_eq e.worker_result t.worker_result)) [
            | inl same ↦ rw (observation, same)
            | inr differs ↦ elim (Bool-cases (terminal_option e.remote_state)) [
              | inl terminal ↦ rw (observation, differs, terminal)
              | inr stale ↦ rw (observation, differs, stale)
            ]
          ]
  ]

  apply_event-outcome_of :
      (e : RemoteEvent) (c : Change)
      → apply_event e t ≡ ok c
      → outcome_of (record_of c) ≡ outcome_of t
  unfolding apply_event add_diagnostic
  apply_event-outcome_of e c h =
      elim (Bool-cases (not (option_eq t.dispatch_attempt_id (some e.attempt_id)))) [
        | inl stale ↦
            let q = ok_injective (rw stale at h) in ap (λ x. outcome_of (record_of x)) (sym q)
        | inr current ↦ elim (Bool-cases (conflicting_id e t)) [
          | inl conflict ↦
              let q = ok_injective (rw (current, conflict) at h) in
              ap (λ x. outcome_of (record_of x)) (sym q)
          | inr bound ↦
              let q = ok_injective (rw (current, bound, over) at h) in
              ap (λ x. outcome_of (record_of x)) (sym q) ∙ after_outcome-outcome_of e
        ]
      ]

TaskStep-outcome_of :
    (t t' : Task) → TaskStep t t' → is_terminal t.state ≡ true → outcome_of t' ≡ outcome_of t
TaskStep-outcome_of t t' (dispatches a o d h) over =
    ap outcome_of (sym h) ∙ ap (λ c. outcome_of (record_of c)) (dispatch-terminal t over a o d)
TaskStep-outcome_of t t' (renews a o d h) over =
    ap outcome_of (sym h) ∙ ap (λ c. outcome_of (record_of c)) (renew-terminal t over a o d)
TaskStep-outcome_of t t' (reclaims d o now lease c h k) over =
    ap outcome_of (sym k)
    ∙ ap (λ x. outcome_of (record_of x))
        (ok_injective (sym h ∙ claim-terminal t over d o now lease))
TaskStep-outcome_of t t' (reports e c h k) over =
    ap outcome_of (sym k) ∙ apply_event-outcome_of t over e c h
TaskStep-outcome_of t t' (withdraws h) over =
    ap outcome_of (sym h) ∙ ap (λ c. outcome_of (record_of c)) (cancellation-terminal t over)

-- A terminal outcome is final for coordinators. Whatever dispatches, renewals of leases, claims of a
-- reconciliation, events of a worker and requests for cancellation follow on a task in a terminal state,
-- its state, its remote state, the result and the outcome of the worker, the bound remote task and the
-- acceptance stay as they are.
pub outcome_final :
    {t t' : Task} → TaskSteps t t' → is_terminal t.state ≡ true → outcome_of t' ≡ outcome_of t
outcome_final unmoved over = refl
outcome_final {t} (extended {u} {v} steps last) over =
    let ih = outcome_final steps over in
    let still : is_terminal u.state ≡ true =
      subst (λ s. is_terminal s ≡ true) (sym (ap (λ x. x.0) ih)) over in
    TaskStep-outcome_of u v last still ∙ ih
