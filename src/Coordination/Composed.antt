-- ===== src/Coordination/Composed.antt =====
-- `create` of the store of pipeline/a2a_coordination.py, and computations in sequence, as changes of the
-- tasks by steps of their records.
use mathlib.Core.Path.{subst}
use formalspecgen.Coordination.{Budget, Task, TaskError}
use formalspecgen.Coordination.Calls.{Call, Failure, ◌>>=◌}
use formalspecgen.Coordination.Create.{check_budget, create, create_new, reopen}
use formalspecgen.Coordination.Evolution.{Evolves, Evolves-refl, Evolves-trans}
use formalspecgen.Coordination.Keeping.{append-Evolves, load-absent}
use formalspecgen.Coordination.Readback.{with_flag-tasks}
use formalspecgen.Coordination.Reported.{CoordinatorSteps}
use formalspecgen.Coordination.Store.{
  TaskEvent, Tasks, append, events_of, load, load_task, read_chain, with_flag,
}
use formalspecgen.Prelude.{
  Bool, Bool-cases, String, [], ap, event_files, event_files-nil, ◌∙◌, if◌then◌else◌, inl, inr,
  none, refl, str_eq, sym, true, ◌≡◌,
}
use formalspecgen.Prelude.Text.{is_run_identifier}
use formalspecgen.Result.{Result, err, ok}

module _ (digest : TaskEvent → String) (new : Task) (ceilings : Budget) (tasks : Tasks) where
  abbrev pub EvolvesTo : Result TaskError (Task × Bool) × Tasks → Type 0
  EvolvesTo x = Evolves digest tasks x.1

  create_new-Evolves :
      is_run_identifier new.work_item_id ≡ true
      → events_of new.work_item_id tasks ≡ []
      → EvolvesTo (create_new digest new ceilings tasks)
  unfolding create_new read_chain load load_task
  create_new-Evolves named absent = by_check (check_budget digest new ceilings tasks)
    where
      nothing :
          (old : Task) → load digest new.work_item_id tasks ≡ ok old → CoordinatorSteps old new
      nothing old h = let q = rw (named, load, absent, event_files-nil) at h in cc q

      by_check :
          (r : Result TaskError (Unit {0}))
          → EvolvesTo (elim r [
            | ok _ ↦ with_flag digest true (append digest new tasks)
            | err e ↦ (err e, tasks)
          ])
      by_check (err e) = Evolves-refl digest tasks
      by_check (ok u) =
          subst (Evolves digest tasks) (sym (with_flag-tasks digest true (append digest new tasks)))
            (append-Evolves digest tasks new none named
              (ap (read_chain digest 1 none none) (ap event_files absent ∙ event_files-nil))
              nothing)

  pub create-Evolves : EvolvesTo (create digest new ceilings tasks)
  unfolding create
  create-Evolves = by_load (load digest new.work_item_id tasks) refl
    where
      by_load :
          (r : Result TaskError Task)
          → load digest new.work_item_id tasks ≡ r
          → EvolvesTo (elim r [
            | ok existing ↦ (reopen digest new existing, tasks)
            | err e ↦
                if str_eq e.code "TASK_NOT_FOUND"
                then create_new digest new ceilings tasks
                else (err e, tasks)
          ])
      by_load (ok existing) h = Evolves-refl digest tasks
      by_load (err e) h = elim (Bool-cases (str_eq e.code "TASK_NOT_FOUND")) [
        | inl absent ↦
            let (named, empty) = load-absent digest new.work_item_id tasks e h absent in
            rw absent (create_new-Evolves named empty)
        | inr other ↦ rw other (Evolves-refl digest tasks)
      ]

module _ (digest : TaskEvent → String) where
  -- A computation that evolves the tasks, wherever it starts.
  abbrev pub Keeps : {A : Type 0} → Call A → Type 0
  Keeps m = (tasks : Tasks) → Evolves digest tasks (m tasks).1

  abbrev continued :
      {A B : Type 0} → Result Failure A × Tasks → (A → Call B) → Result Failure B × Tasks
  continued (ok a, tasks) f = f a tasks
  continued (err e, tasks) f = (err e, tasks)

  continued-Evolves :
      {A B : Type 0} (tasks : Tasks) (x : Result Failure A × Tasks) (f : A → Call B)
      → Evolves digest tasks x.1
      → ((a : A) → Keeps (f a))
      → Evolves digest tasks (continued x f).1
  continued-Evolves tasks (err e, tasks') f first rest = first
  continued-Evolves tasks (ok a, tasks') f first rest =
      Evolves-trans digest tasks tasks' (f a tasks').1 first (rest a tasks')

  continued-eq :
      {A B : Type 0} (m : Call A) (f : A → Call B) (tasks : Tasks)
      → (m >>= f) tasks ≡ continued (m tasks) f
  continued-eq {A} {B} m f tasks = by_result (m tasks)
    where
      by_result :
          (x : Result Failure A × Tasks)
          → ◌≡◌ {A = Result Failure B × Tasks}
              (elim x.0 [ ok a ↦ f a x.1 | err e ↦ (err e, x.1) ])
              (continued x f)
      by_result (ok a, t) = refl
      by_result (err e, t) = refl

  pub >>=-Keeps :
      {A B : Type 0} (m : Call A) (f : A → Call B)
      → Keeps m
      → ((a : A) → Keeps (f a))
      → Keeps (m >>= f)
  >>=-Keeps m f first rest tasks =
      subst (λ x. Evolves digest tasks x.1) (sym (continued-eq m f tasks))
        (continued-Evolves tasks (m tasks) f (first tasks) rest)
