-- ===== src/Coordination/Events.antt =====
-- The branches of `transition_remote_event` of pipeline/a2a_coordination.py, taken apart.
use mathlib.Core.Path.{subst}
use formalspecgen.Coordination.{Task, is_terminal, option_eq}
use formalspecgen.Coordination.Reports.{
  RemoteEvent, add_diagnostic, after_outcome, apply_event, before_outcome, conflicting_id,
  mark_inconsistent, observed_state, protocol_error, result_eq, terminal_option, transport_error,
}
use formalspecgen.Coordination.Transitions.{Change, kept, saved}
use formalspecgen.Prelude.{
  Bool-cases, Option, Option-cases, String, ap, eq_iff, false, inl, inr, none, refl, some, str_eq,
  true, ◌&&◌, ◌≡◌,
}
use formalspecgen.Result.{ok, ok_injective}

-- An event of the current attempt, about no other remote task, before a terminal outcome.
pub record IsCurrent (e : RemoteEvent) (t : Task) : Type 0 where
  pub attempt : t.dispatch_attempt_id ≡ some e.attempt_id
  pub same_task : conflicting_id e t ≡ false
  pub open_task : is_terminal t.state ≡ false

pub data EventBranch (e : RemoteEvent) (t : Task) (c : Change) : Type 0 where
  repeated : kept t ≡ c → EventBranch e t c
  noted : (code message : String) → saved (add_diagnostic code message t) ≡ c → EventBranch e t c
  flagged :
      (code message : String)
      → saved (mark_inconsistent (add_diagnostic code message t)) ≡ c
      → EventBranch e t c
  refused_by_protocol : IsCurrent e t → saved (protocol_error e t) ≡ c → EventBranch e t c
  lost_in_transport : IsCurrent e t → saved (transport_error e t) ≡ c → EventBranch e t c
  told :
      (s : String)
      → IsCurrent e t
      → e.remote_state ≡ some s
      → saved (observed_state s e t) ≡ c
      → EventBranch e t c

after_outcome-EventBranch : (e : RemoteEvent) (t : Task) → EventBranch e t (after_outcome e t)
unfolding after_outcome
after_outcome-EventBranch e t = elim (Bool-cases (str_eq e.event_kind "observation")) [
  | inr other ↦ rw (other, after_outcome) (noted _ _ refl)
  | inl observation ↦
      elim (Bool-cases
        (option_eq e.remote_state t.remote_state && result_eq e.worker_result t.worker_result)) [
          | inl same ↦ rw (observation, same, after_outcome) (repeated refl)
          | inr differs ↦ elim (Bool-cases (terminal_option e.remote_state)) [
            | inl terminal ↦ rw (observation, differs, terminal, after_outcome) (flagged _ _ refl)
            | inr stale ↦ rw (observation, differs, stale, after_outcome) (noted _ _ refl)
          ]
        ]
]

before_outcome-EventBranch :
    (e : RemoteEvent) (t : Task) (c : Change)
    → IsCurrent e t
    → before_outcome e t ≡ ok c
    → EventBranch e t c
unfolding before_outcome
before_outcome-EventBranch e t c current h =
    elim (Bool-cases (str_eq e.event_kind "protocol_error")) [
      | inl protocol ↦ refused_by_protocol current (ok_injective (rw protocol at h))
      | inr other ↦ elim (Bool-cases (str_eq e.event_kind "transport_error")) [
        | inl transport ↦ lost_in_transport current (ok_injective (rw (other, transport) at h))
        | inr neither ↦ elim (Bool-cases (str_eq e.event_kind "observation")) [
          | inr unknown ↦ let q = rw (other, neither, unknown) at h in cc q
          | inl observation ↦ elim (Option-cases e.remote_state) [
            | inl nothing ↦ let q = rw (other, neither, observation, nothing) at h in cc q
            | inr (s, found) ↦
                told s current found (ok_injective (rw (other, neither, observation, found) at h))
          ]
        ]
      ]
    ]

pub option_eq_sound : (o p : Option String) → option_eq o p ≡ true → o ≡ p
option_eq_sound none none h = refl
option_eq_sound none (some t) h = cc
option_eq_sound (some s) none h = cc
option_eq_sound (some s) (some t) h = ap some ((eq_iff s t).0 h)

-- Every event that is accepted takes one of these branches.
pub apply_event-EventBranch :
    (e : RemoteEvent) (t : Task) (c : Change) → apply_event e t ≡ ok c → EventBranch e t c
unfolding apply_event
apply_event-EventBranch e t c h =
    elim (Bool-cases (option_eq t.dispatch_attempt_id (some e.attempt_id))) [
      | inr stale ↦ noted _ _ (ok_injective (rw stale at h))
      | inl matching ↦ elim (Bool-cases (conflicting_id e t)) [
        | inl conflict ↦ flagged _ _ (ok_injective (rw (matching, conflict) at h))
        | inr bound ↦ elim (Bool-cases (is_terminal t.state)) [
          | inl over ↦
              subst (EventBranch e t) (ok_injective (rw (matching, bound, over) at h))
                (after_outcome-EventBranch e t)
          | inr running_task ↦
              let current : IsCurrent e t = record {
                attempt = option_eq_sound t.dispatch_attempt_id (some e.attempt_id) matching;
                same_task = bound;
                open_task = running_task;
              } in
              before_outcome-EventBranch e t c current (rw (matching, bound, running_task) at h)
        ]
      ]
    ]
