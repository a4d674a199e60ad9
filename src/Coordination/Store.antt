-- ===== src/Coordination/Store.antt =====
-- `TaskStore` of pipeline/a2a_coordination.py: the event chains of the tasks. The directory of the tasks is
-- a value, its entries in the order of their names, the events of each in the order of the numbers of their
-- files, as the text of the file is read back; what was written stays when an exception is raised.
-- Each method holds the lock of the store. The digest of an event is a parameter.
use formalspecgen.Coordination.{Task, TaskError, deny, option_eq}
use formalspecgen.Coordination.Transitions.{Change, kept, saved}
use formalspecgen.Prelude.{
  Bool, List, Option, String, [], event_files, next_exists, not, false, if◌then◌else◌, length, ltb,
  none, some, str_eq, suc, true, ℕ, ◌&&◌, ◌++◌, ◌+◌, ◌==◌, ◌||◌, ◌∷◌,
}
use formalspecgen.Prelude.Text.{codes, is_run_identifier}
use formalspecgen.Result.{Result, err, ok, or_raise, require, ◌>>=◌, ◌>>◌}

-- An event without its own digest; a record that is no mapping is `none`.
pub record TaskEvent : Type 0 where
  pub schema : String
  pub sequence : ℕ
  pub previous_sha256 : Option String
  pub content : Option Task

abbrev pub Events : Type 0
Events = List (TaskEvent × String)

abbrev pub Tasks : Type 0
Tasks = List (String × Events)

abbrev pub TaskResult : Type 0 → Type 0
TaskResult A = Result TaskError A

abbrev pub audit_schema : String
audit_schema = "formalspecgen-a2a-task-event-v1"

abbrev pub not_found : TaskError
not_found = deny "TASK_NOT_FOUND" "work item does not exist"

-- `FileExistsError`, by its class: an exception that is no `A2ACoordinationError`, and that nothing catches.
abbrev pub file_exists : TaskError
file_exists = deny "FileExistsError" "the file of the next event exists"

-- The events of a directory, none if there is no directory.
unfoldable pub events_of : String → Tasks → Events
events_of name [] = []
events_of name ((n, events) ∷ rest) = if str_eq n name then events else events_of name rest

-- The order of names, by code points.
unfoldable pub comes_before : List ℕ → List ℕ → Bool
comes_before [] [] = false
comes_before [] (b ∷ bs) = true
comes_before (a ∷ cs) [] = false
comes_before (a ∷ cs) (b ∷ bs) = let rest = comes_before cs bs in ltb a b || ((a == b) && rest)

-- The directory with new events for one name.
unfoldable pub put_events : String → Events → Tasks → Tasks
unfolding comes_before
put_events name new [] = (name, new) ∷ []
put_events name new ((n, events) ∷ rest) =
    let later = put_events name new rest in
    if str_eq n name
    then (name, new) ∷ rest
    else if comes_before (codes name) (codes n)
    then (name, new) ∷ (n, events) ∷ rest
    else (n, events) ∷ later

module _ (digest : TaskEvent → String) where
  -- The loop of `_load_unlocked`: the number and the digest that the next event must carry, and the last
  -- record so far.
  unfoldable pub read_chain : ℕ → Option String → Option Task → Events → TaskResult (Option Task)
  read_chain index previous latest [] = ok latest
  read_chain index previous latest ((e, observed) ∷ rest) =
      elim (str_eq e.schema audit_schema
        && ((e.sequence == index) && option_eq e.previous_sha256 previous)) [
          | false ↦ err (deny "TASK_EVIDENCE_INVALID" "task event chain is invalid")
          | true ↦ elim (str_eq observed (digest e)) [
            | false ↦ err (deny "TASK_EVIDENCE_INVALID" "task event was altered")
            | true ↦ read_chain (suc index) (some observed) e.content rest
          ]
        ]

  -- `_load_unlocked` on the events of a directory.
  unfoldable pub load_task : Events → TaskResult Task
  unfolding read_chain
  load_task [] = err not_found
  load_task (e ∷ rest) = do
    latest ← read_chain 1 none none (e ∷ rest)
    or_raise latest (deny "TASK_EVIDENCE_INVALID" "task record is missing")

  -- `_load_unlocked`
  unfoldable pub load : String → Tasks → TaskResult Task
  unfolding load_task events_of
  load id tasks =
      if is_run_identifier id
      then load_task (event_files (events_of id tasks))
      else err (deny "INVALID_WORK_ITEM" "invalid work_item_id")

  unfoldable pub last_sha256 : Events → Option String
  last_sha256 [] = none
  last_sha256 ((e, observed) ∷ []) = some observed
  last_sha256 (e ∷ f ∷ rest) = last_sha256 (f ∷ rest)

  unfoldable pub task_event : Events → Task → TaskEvent
  unfolding last_sha256
  task_event events t = record {
    schema = audit_schema;
    sequence = length events + 1;
    previous_sha256 = last_sha256 events;
    content = some t;
  }

  -- `_append_unlocked`: `os.link` does not replace a file.
  unfoldable pub append : Task → Tasks → TaskResult Task × Tasks
  unfolding task_event events_of put_events
  append t tasks =
      let events = events_of t.work_item_id tasks in
      let e = task_event (event_files events) t in
      if not (is_run_identifier t.work_item_id)
      then (err (deny "INVALID_WORK_ITEM" "invalid work_item_id"), tasks)
      else if next_exists events
      then (err file_exists, tasks)
      else (ok t, put_events t.work_item_id (events ++ (e, digest e) ∷ []) tasks)

  -- `_authorize`: another principal's task looks like no task.
  unfoldable pub authorize : Task → String → TaskResult (Unit {0})
  authorize t principal_id = require (str_eq t.principal_id principal_id) not_found

  -- The record, and whether it was appended.
  abbrev pub with_flag : Bool → TaskResult Task × Tasks → TaskResult (Task × Bool) × Tasks
  with_flag b (ok t, tasks) = (ok (t, b), tasks)
  with_flag b (err e, tasks) = (err e, tasks)

  unfoldable pub write_change : Change → Tasks → TaskResult (Task × Bool) × Tasks
  unfolding append
  write_change (kept t) tasks = (ok (t, false), tasks)
  write_change (saved t) tasks = with_flag true (append t tasks)

  unfoldable pub settle : TaskResult Change → Tasks → TaskResult (Task × Bool) × Tasks
  unfolding write_change
  settle (err e) tasks = (err e, tasks)
  settle (ok c) tasks = write_change c tasks

  -- A method of the store on one task: load, authorise, change, append.
  unfoldable pub transact :
      String → String → (Task → TaskResult Change) → Tasks → TaskResult (Task × Bool) × Tasks
  unfolding load authorize settle
  transact id principal_id change tasks =
      settle (load id tasks >>= λ t. authorize t principal_id >> change t) tasks

  -- `get`
  unfoldable pub get : String → String → Tasks → TaskResult Task
  unfolding load authorize
  get id principal_id tasks = load id tasks >>= λ t. authorize t principal_id >> ok t

  -- `update`
  abbrev pub update : String → String → (Task → Task) → Tasks → TaskResult (Task × Bool) × Tasks
  update id principal_id changes = transact id principal_id (λ t. ok (saved (changes t)))

  abbrev pub both : TaskResult Task → TaskResult (List Task) → TaskResult (List Task)
  both first others = first >>= λ t. others >>= λ ts. ok (t ∷ ts)

  -- `_all_latest_unlocked`
  unfoldable pub all_latest : Tasks → TaskResult (List Task)
  unfolding load_task
  all_latest [] = ok []
  all_latest ((name, events) ∷ rest) =
      let others = all_latest rest in
      if is_run_identifier name then both (load_task (event_files events)) others else others
