-- ===== src/Coordination/Evolution.antt =====
-- How the tasks of pipeline/a2a_coordination.py evolve under the methods of the store that a coordinator
-- calls: each task by the steps of its record.
use formalspecgen.Coordination.{Task, is_terminal, option_eq}
use formalspecgen.Coordination.Events.{
  apply_event-EventBranch, flagged, lost_in_transport, noted, refused_by_protocol, repeated, told,
}
use formalspecgen.Coordination.Once.{claim-cases}
use formalspecgen.Coordination.Reports.{
  RemoteEvent, add_diagnostic, apply_event, observed_state, protocol_error, transport_error,
}
use formalspecgen.Coordination.Reported.{CoordinatorSteps, CoordinatorSteps-trans, idle}
use formalspecgen.Coordination.Steps.{TaskStep, dispatches, reclaims, renews, reports, withdraws}
use formalspecgen.Coordination.Store.{TaskEvent, Tasks, events_of, load}
use formalspecgen.Coordination.Transitions.{
  Change, cancellation, dispatch, is_in_flight, is_not_started, record_of, recovered, renew,
}
use formalspecgen.Prelude.{
  Bool-cases, String, ap, eq_iff, false, inl, inr, not, some, str_eq, sym, ℕ, ◌&&◌, ◌||◌, ◌∙◌, ◌≡◌,
}
use formalspecgen.Result.{ok, ok_injective}

dispatch-work_item_id :
    (a o : String) (d : ℕ) (t : Task) → (record_of (dispatch a o d t)).work_item_id ≡ t.work_item_id
unfolding dispatch
dispatch-work_item_id a o d t =
    elim (Bool-cases (is_terminal t.state || not (is_not_started t.dispatch_state))) [
      | inl closed ↦ rw (closed, dispatch)
      | inr open_task ↦ rw (open_task, dispatch)
    ]

renew-work_item_id :
    (a o : String) (d : ℕ) (t : Task) → (record_of (renew a o d t)).work_item_id ≡ t.work_item_id
unfolding renew
renew-work_item_id a o d t =
    elim (Bool-cases (
      not (is_terminal t.state)
      && (is_in_flight t.dispatch_state
          && (option_eq t.dispatch_attempt_id (some a)
              && option_eq t.dispatch_owner_id (some o))))) [
                | inl owned ↦ rw (owned, renew)
                | inr other ↦ rw (other, renew)
              ]

cancellation-work_item_id : (t : Task) → (record_of (cancellation t)).work_item_id ≡ t.work_item_id
unfolding cancellation
cancellation-work_item_id t = elim (Bool-cases (is_terminal t.state)) [
  | inl over ↦ rw (over, cancellation)
  | inr live ↦ elim (Bool-cases (is_not_started t.dispatch_state)) [
    | inl fresh ↦ rw (live, fresh, cancellation)
    | inr begun ↦ rw (live, begun, cancellation)
  ]
]

transport_error-work_item_id :
    (e : RemoteEvent) (t : Task) → (transport_error e t).work_item_id ≡ t.work_item_id
unfolding transport_error add_diagnostic
transport_error-work_item_id e t = elim (Bool-cases (option_eq e.operation (some "cancel"))) [
  | inl cancels_it ↦ rw cancels_it
  | inr other ↦ rw other
]

apply_event-work_item_id :
    (e : RemoteEvent) (t : Task) (c : Change)
    → apply_event e t ≡ ok c
    → (record_of c).work_item_id ≡ t.work_item_id
unfolding add_diagnostic protocol_error observed_state
apply_event-work_item_id e t c h = elim (apply_event-EventBranch e t c h) [
  | repeated q ↦ ap (λ x. (record_of x).work_item_id) (sym q)
  | noted code message q ↦ ap (λ x. (record_of x).work_item_id) (sym q)
  | flagged code message q ↦ ap (λ x. (record_of x).work_item_id) (sym q)
  | refused_by_protocol current q ↦ ap (λ x. (record_of x).work_item_id) (sym q)
  | lost_in_transport current q ↦
      ap (λ x. (record_of x).work_item_id) (sym q) ∙ transport_error-work_item_id e t
  | told s current found q ↦ ap (λ x. (record_of x).work_item_id) (sym q)
]

pub TaskStep-work_item_id : (t t' : Task) → TaskStep t t' → t'.work_item_id ≡ t.work_item_id
unfolding recovered
TaskStep-work_item_id t t' (dispatches a o d q) =
    ap (λ (x : Task). x.work_item_id) (sym q) ∙ dispatch-work_item_id a o d t
TaskStep-work_item_id t t' (renews a o d q) =
    ap (λ (x : Task). x.work_item_id) (sym q) ∙ renew-work_item_id a o d t
TaskStep-work_item_id t t' (reclaims i o now lease c h k) =
    ap (λ (x : Task). x.work_item_id) (sym k) ∙ elim (claim-cases i o now lease t c h) [
      | inl same ↦ ap (λ x. (record_of x).work_item_id) (sym same)
      | inr (made, free, live, unbound) ↦ ap (λ x. (record_of x).work_item_id) (sym made)
    ]
TaskStep-work_item_id t t' (reports e c h k) =
    ap (λ (x : Task). x.work_item_id) (sym k) ∙ apply_event-work_item_id e t c h
TaskStep-work_item_id t t' (withdraws q) =
    ap (λ (x : Task). x.work_item_id) (sym q) ∙ cancellation-work_item_id t

module _ (digest : TaskEvent → String) where
  -- A task is stored under its own name.
  abbrev pub WellNamed : Tasks → Type 0
  WellNamed tasks = (id : String) (t : Task) → load digest id tasks ≡ ok t → t.work_item_id ≡ id

  -- Every task that could be loaded still can, and went on by steps of coordinators.
  abbrev pub GoesOn : Tasks → Tasks → Type 0
  GoesOn tasks tasks' =
      (id : String) (t : Task)
      → load digest id tasks ≡ ok t
      → (t' : Task) × (load digest id tasks' ≡ ok t') × CoordinatorSteps t t'

  abbrev pub Evolves : Tasks → Tasks → Type 0
  Evolves tasks tasks' = WellNamed tasks → WellNamed tasks' × GoesOn tasks tasks'

  pub Evolves-refl : (tasks : Tasks) → Evolves tasks tasks
  Evolves-refl tasks named = (named, λ id t h. (t, h, idle))

  pub Evolves-trans : (a b d : Tasks) → Evolves a b → Evolves b d → Evolves a d
  Evolves-trans a b d first second named =
      let (named', on) = first named in
      let (named'', on') = second named' in
      (
        named'',
        λ id t h.
            let (u, k, steps) = on id t h in
            let (v, l, more) = on' id u k in (v, l, CoordinatorSteps-trans steps more),
      )

  pub load-events_of :
      (id : String) (tasks tasks' : Tasks)
      → events_of id tasks' ≡ events_of id tasks
      → load digest id tasks' ≡ load digest id tasks
  unfolding load
  load-events_of id tasks tasks' e = rw e

  -- Every name loads as before.
  pub Evolves-same :
      (tasks tasks' : Tasks)
      → ((id : String) → load digest id tasks' ≡ load digest id tasks)
      → Evolves tasks tasks'
  Evolves-same tasks tasks' same named =
      (λ id t h. named id t (sym (same id) ∙ h), λ id t h. (t, same id ∙ h, idle))

  -- One name has another record, and the others are as before.
  pub Evolves-one :
      (tasks tasks' : Tasks) (new : Task)
      → load digest new.work_item_id tasks' ≡ ok new
      → ((other : String)
          → str_eq new.work_item_id other ≡ false
          → events_of other tasks' ≡ events_of other tasks)
      → ((old : Task) → load digest new.work_item_id tasks ≡ ok old → CoordinatorSteps old new)
      → Evolves tasks tasks'
  Evolves-one tasks tasks' new read others steps named = (
    λ id t h. elim (Bool-cases (str_eq new.work_item_id id)) [
      | inl same ↦
          let e = (eq_iff new.work_item_id id).0 same in
          let q : new ≡ t = ok_injective (sym read ∙ ap (λ n. load digest n tasks') e ∙ h) in
          ap (λ (x : Task). x.work_item_id) (sym q) ∙ e
      | inr differ ↦ named id t (sym (load-events_of id tasks tasks' (others id differ)) ∙ h)
    ],
    λ id t h. elim (Bool-cases (str_eq new.work_item_id id)) [
      | inl same ↦
          let e = (eq_iff new.work_item_id id).0 same in
          (
            new,
            ap (λ n. load digest n tasks') (sym e) ∙ read,
            steps t (ap (λ n. load digest n tasks) e ∙ h),
          )
      | inr differ ↦ (t, load-events_of id tasks tasks' (others id differ) ∙ h, idle)
    ],
  )
