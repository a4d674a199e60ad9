-- ===== src/Coordination/Keeping.antt =====
-- The methods of the store of pipeline/a2a_coordination.py evolve the tasks.
use mathlib.Core.Path.{subst}
use formalspecgen.Coordination.{Task, TaskError, deny, option_eq}
use formalspecgen.Coordination.Evolution.{
  Evolves, Evolves-one, Evolves-refl, Evolves-same, TaskStep-work_item_id, load-events_of,
}
use formalspecgen.Coordination.Readback.{
  Reads, append-full, append-other, append-short, load-events, load_task-Reads, with_flag-tasks,
}
use formalspecgen.Coordination.Reported.{
  CoordinatorStep, CoordinatorStep-TaskStep, CoordinatorSteps, idle, moved,
}
use formalspecgen.Coordination.Store.{
  Events, TaskEvent, Tasks, append, audit_schema, authorize, events_of, load, load_task, read_chain,
  settle, transact, write_change,
}
use formalspecgen.Coordination.Transitions.{Change, kept, record_of, saved}
use formalspecgen.Prelude.{
  Bool-cases, eq_iff, event_files, event_files-eq-nil, room_cases, Option, String, [], ap, inl, inr,
  none, refl, some, str_eq, suc, sym, true, ℕ, ◌&&◌, ◌==◌, ◌∙◌, ◌∷◌, ◌≡◌,
}
use formalspecgen.Prelude.Text.{is_run_identifier}
use formalspecgen.Result.{Result, err, ok, ok_injective, or_raise, ◌>>=◌, ◌>>◌}

module _ (digest : TaskEvent → String) where
  -- An appended record is the last of its name, or the name loads as before.
  pub append-Evolves :
      (tasks : Tasks) (new : Task) (last : Option Task)
      → is_run_identifier new.work_item_id ≡ true
      → Reads digest 1 none none (event_files (events_of new.work_item_id tasks)) last
      → ((old : Task) → load digest new.work_item_id tasks ≡ ok old → CoordinatorSteps old new)
      → Evolves digest tasks (append digest new tasks).1
  append-Evolves tasks new last named read steps =
      let tasks' = (append digest new tasks).1 in
      elim (room_cases (events_of new.work_item_id tasks)) [
        | inl room ↦
            let (answer, found) = append-short digest tasks new last named read room in
            Evolves-one digest tasks tasks' new found (append-other digest tasks new) steps
        | inr full ↦
            let here_same = append-full digest tasks new last named read full in
            Evolves-same digest tasks tasks' (λ id. elim (Bool-cases (str_eq new.work_item_id id)) [
              | inl same ↦
                  subst (λ n. load digest n tasks' ≡ load digest n tasks)
                    ((eq_iff new.work_item_id id).0 same) here_same
              | inr differ ↦
                  load-events_of digest id tasks tasks' (append-other digest tasks new id differ)
            ])
      ]

  write_change-Evolves :
      (tasks : Tasks) (old : Task) (c : Change)
      → load digest old.work_item_id tasks ≡ ok old
      → CoordinatorStep old (record_of c)
      → Evolves digest tasks (write_change digest c tasks).1
  unfolding write_change
  write_change-Evolves tasks old (kept t) h s = Evolves-refl digest tasks
  write_change-Evolves tasks old (saved new) h s =
      let same : old.work_item_id ≡ new.work_item_id =
        sym (TaskStep-work_item_id old new (CoordinatorStep-TaskStep s)) in
      let found = ap (λ n. load digest n tasks) (sym same) ∙ h in
      let (named, read) = load-events digest new.work_item_id tasks old found in
      subst (Evolves digest tasks) (sym (with_flag-tasks digest true (append digest new tasks))) (
        append-Evolves tasks new (some old) named
          (load_task-Reads digest (event_files (events_of new.work_item_id tasks)) old read)
          (λ u k.
            subst (λ x. CoordinatorSteps x new) (ok_injective (sym found ∙ k)) (moved idle s)))

  settle-Evolves :
      (tasks : Tasks) (t : Task) (owner : Result TaskError (Unit {0}))
      (changed : Result TaskError Change)
      → load digest t.work_item_id tasks ≡ ok t
      → ((c : Change) → changed ≡ ok c → CoordinatorStep t (record_of c))
      → Evolves digest tasks (settle digest (owner >> changed) tasks).1
  unfolding settle
  settle-Evolves tasks t (err e) changed h steps = Evolves-refl digest tasks
  settle-Evolves tasks t (ok u) (err e) h steps = Evolves-refl digest tasks
  settle-Evolves tasks t (ok u) (ok c) h steps = write_change-Evolves tasks t c h (steps c refl)

  loaded-Evolves :
      (id principal_id : String) (change : Task → Result TaskError Change) (tasks : Tasks)
      (found : Result TaskError Task)
      → ((t : Task) (c : Change) → change t ≡ ok c → CoordinatorStep t (record_of c))
      → load digest id tasks ≡ found
      → Evolves digest tasks
          (settle digest (found >>= λ t. authorize digest t principal_id >> change t) tasks).1
  unfolding settle
  loaded-Evolves id principal_id change tasks (err e) steps h named =
      Evolves-refl digest tasks named
  loaded-Evolves id principal_id change tasks (ok t) steps h named =
      settle-Evolves tasks t (authorize digest t principal_id) (change t)
        (ap (λ n. load digest n tasks) (named id t h) ∙ h) (steps t) named

  -- A change of a loaded task, made by steps, evolves the tasks.
  pub transact-Evolves :
      (id principal_id : String) (change : Task → Result TaskError Change) (tasks : Tasks)
      → ((t : Task) (c : Change) → change t ≡ ok c → CoordinatorStep t (record_of c))
      → Evolves digest tasks (transact digest id principal_id change tasks).1
  unfolding transact
  transact-Evolves id principal_id change tasks steps =
      loaded-Evolves id principal_id change tasks (load digest id tasks) steps refl

  read_chain-error :
      (n : ℕ) (previous : Option String) (latest : Option Task) (events : Events) (e : TaskError)
      → read_chain digest n previous latest events ≡ err e
      → e.code ≡ "TASK_EVIDENCE_INVALID"
  unfolding read_chain
  read_chain-error n previous latest [] e h = cc
  read_chain-error n previous latest ((f, observed) ∷ rest) e h =
      elim (Bool-cases (
        str_eq f.schema audit_schema
        && ((f.sequence == n) && option_eq f.previous_sha256 previous))) [
          | inr bad ↦ let q = rw (bad, read_chain) at h in error_code q
          | inl header ↦ elim (Bool-cases (str_eq observed (digest f))) [
            | inr altered ↦ let q = rw (header, read_chain, altered) at h in error_code q
            | inl whole ↦
                let q = rw (header, read_chain, whole) at h in
                read_chain-error (suc n) (some observed) f.content rest e q
          ]
        ]
    where
      error_code :
          {A : Type 0} {a b : TaskError}
          → ◌≡◌ {A = Result TaskError A} (err a) (err b)
          → b.code ≡ a.code
      error_code p = cc

  load_task-absent :
      (events : Events) (e : TaskError)
      → load_task digest events ≡ err e
      → str_eq e.code "TASK_NOT_FOUND" ≡ true
      → events ≡ []
  unfolding load_task
  load_task-absent [] e h k = refl
  load_task-absent (x ∷ xs) e h k = by_chain (read_chain digest 1 none none (x ∷ xs)) refl h
    where
      impossible :
          (a : TaskError)
          → a.code ≡ "TASK_EVIDENCE_INVALID"
          → str_eq a.code "TASK_NOT_FOUND" ≡ true
          → x ∷ xs ≡ []
      impossible a c t =
          let q : str_eq "TASK_EVIDENCE_INVALID" "TASK_NOT_FOUND" ≡ true =
            subst (λ s. str_eq s "TASK_NOT_FOUND" ≡ true) c t in
          cc q

      by_chain :
          (r : Result TaskError (Option Task))
          → read_chain digest 1 none none (x ∷ xs) ≡ r
          → (r >>= λ latest.
              or_raise latest (deny "TASK_EVIDENCE_INVALID" "task record is missing"))
            ≡ err e
          → x ∷ xs ≡ []
      by_chain (err d) ran q =
          impossible e
            (let p : d ≡ e = cc in
              ap (λ (z : TaskError). z.code) (sym p) ∙ read_chain-error 1 none none (x ∷ xs) d ran)
            k
      by_chain (ok none) ran q =
          impossible e
            (let p : deny "TASK_EVIDENCE_INVALID" "task record is missing" ≡ e = cc in
              ap (λ (z : TaskError). z.code) (sym p))
            k
      by_chain (ok (some t)) ran q = cc q

  pub load-absent :
      (id : String) (tasks : Tasks) (e : TaskError)
      → load digest id tasks ≡ err e
      → str_eq e.code "TASK_NOT_FOUND" ≡ true
      → (is_run_identifier id ≡ true) × (events_of id tasks ≡ [])
  unfolding load
  load-absent id tasks e h k = elim (Bool-cases (is_run_identifier id)) [
    | inl named ↦ (
      named,
      event_files-eq-nil (events_of id tasks)
          (load_task-absent (event_files (events_of id tasks)) e (rw named at h) k),
    )
    | inr unnamed ↦
        let q = rw unnamed at h in
        let p : deny "INVALID_WORK_ITEM" "invalid work_item_id" ≡ e = cc q in
        let absurd_code : str_eq "INVALID_WORK_ITEM" "TASK_NOT_FOUND" ≡ true =
          subst (λ (z : TaskError). str_eq z.code "TASK_NOT_FOUND" ≡ true) (sym p) k in
        cc absurd_code
  ]
