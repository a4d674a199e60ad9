-- ===== src/Coordination/Readback.antt =====
-- What `TaskStore` of pipeline/a2a_coordination.py reads back after a write.
use mathlib.Core.Path.{subst}
use formalspecgen.Coordination.{Task, TaskError, option_eq}
use formalspecgen.Coordination.Store.{
  Events, TaskEvent, Tasks, append, audit_schema, comes_before, events_of, last_sha256, load,
  load_task, put_events, read_chain, task_event, with_flag, write_change,
}
use formalspecgen.Coordination.Transitions.{saved}
use formalspecgen.Prelude.{
  Bool, Bool-cases, Option, String, event_files, event_files-short, event_files-snoc_full,
  event_files-snoc_short, next_exists, next_exists-short, room_cases, ◌<◌, ◌≤◌, ◌⊎◌, [], ap, arith,
  eq_iff, false, inl, inr, length, none, refl, some, str_eq, suc, sym, true, ℕ, ◌&&◌, ◌++◌, ◌+◌,
  ◌==◌, ◌∙◌, ◌∷◌, ◌≡◌,
}
use formalspecgen.Prelude.Text.{codes, is_run_identifier}
use formalspecgen.Result.{>>=-eq-ok, Result, err, ok, ok_injective, or_raise-eq-ok}

events_of-put_self :
    (name : String) (new : Events) (tasks : Tasks)
    → events_of name (put_events name new tasks) ≡ new
unfolding events_of put_events
events_of-put_self name new [] = let e = (eq_iff name name).1 refl in rw e
events_of-put_self name new ((n, events) ∷ rest) =
    let same = (eq_iff name name).1 refl in
    let ih = events_of-put_self name new rest in
    elim (Bool-cases (str_eq n name)) [
      | inl here_is ↦ rw (here_is, same)
      | inr other ↦ elim (Bool-cases (comes_before (codes name) (codes n))) [
        | inl sooner ↦ rw (other, sooner, same)
        | inr later ↦ rw (other, later, other) ih
      ]
    ]

pub events_of-put_other :
    (name other : String) (new : Events) (tasks : Tasks)
    → str_eq name other ≡ false
    → events_of other (put_events name new tasks) ≡ events_of other tasks
unfolding events_of put_events
events_of-put_other name other new [] differ = rw differ
events_of-put_other name other new ((n, events) ∷ rest) differ =
    let ih = events_of-put_other name other new rest differ in
    elim (Bool-cases (str_eq n name)) [
      | inl found ↦
          let e : n ≡ name = (eq_iff n name).0 found in
          let d : str_eq n other ≡ false = rw e differ in rw (found, differ, d)
      | inr absent ↦ elim (Bool-cases (comes_before (codes name) (codes n))) [
        | inl sooner ↦ rw (absent, sooner, differ)
        | inr later ↦ elim (Bool-cases (str_eq n other)) [
          | inl is_other ↦ rw (absent, later, is_other)
          | inr not_other ↦ rw (absent, later, not_other) ih
        ]
      ]
    ]

abbrev digest_after : Option String → Events → Option String
digest_after previous [] = previous
digest_after previous ((e, observed) ∷ rest) = digest_after (some observed) rest

digest_after-last_sha256 :
    (digest : TaskEvent → String) (previous : Option String) (e : TaskEvent × String)
    (rest : Events)
    → digest_after previous (e ∷ rest) ≡ last_sha256 digest (e ∷ rest)
unfolding last_sha256
digest_after-last_sha256 digest previous e [] = refl
digest_after-last_sha256 digest previous e (f ∷ rest) =
    digest_after-last_sha256 digest (some e.1) f rest

option_eq_refl : (o : Option String) → option_eq o o ≡ true
option_eq_refl none = refl
option_eq_refl (some s) = (eq_iff s s).1 refl

module _ (digest : TaskEvent → String) where
  abbrev pub Reads : ℕ → Option String → Option Task → Events → Option Task → Type 0
  Reads index previous latest events last = read_chain digest index previous latest events ≡ ok last

  read_chain-append :
      (index : ℕ) (previous : Option String) (latest last : Option Task) (events : Events)
      (e : TaskEvent)
      → Reads index previous latest events last
      → str_eq e.schema audit_schema ≡ true
      → e.sequence ≡ index + length events
      → e.previous_sha256 ≡ digest_after previous events
      → Reads index previous latest (events ++ (e, digest e) ∷ []) e.content
  unfolding read_chain
  read_chain-append index previous latest last [] e h schema number carried =
      let count : (e.sequence == index) ≡ true = ground arith in
      let before : option_eq e.previous_sha256 previous ≡ true =
        rw carried (option_eq_refl previous) in
      let own = (eq_iff (digest e) (digest e)).1 refl in
      let header : (str_eq e.schema audit_schema
            && ((e.sequence == index) && option_eq e.previous_sha256 previous))
          ≡ true =
        rw (schema, count, before) in
      rw (header, read_chain, own)
  read_chain-append index previous latest last ((f, observed) ∷ rest) e h schema number carried =
      elim (Bool-cases (
        str_eq f.schema audit_schema
        && ((f.sequence == index) && option_eq f.previous_sha256 previous))) [
          | inr bad ↦ let q = rw (bad, read_chain) at h in cc q
          | inl header ↦ elim (Bool-cases (str_eq observed (digest f))) [
            | inr altered ↦ let q = rw (header, read_chain, altered) at h in cc q
            | inl whole ↦
                let q = rw (header, read_chain, whole) at h in
                rw (header, read_chain, whole)
                  (read_chain-append (suc index) (some observed) f.content last rest e q schema
                    (omega arith) carried)
          ]
        ]

  pub load_task-append :
      (events : Events) (last : Option Task) (t : Task)
      → Reads 1 none none events last
      → load_task digest
          (events ++ (task_event digest events t, digest (task_event digest events t)) ∷ [])
        ≡ ok t
  unfolding load_task task_event read_chain last_sha256
  load_task-append [] last t h =
      let e = task_event digest [] t in
      let read = read_chain-append 1 none none none [] e refl refl refl refl in rw read
  load_task-append (x ∷ xs) last t h =
      let e = task_event digest (x ∷ xs) t in
      let read =
        read_chain-append 1 none none last (x ∷ xs) e h refl (omega arith)
          (sym (digest_after-last_sha256 digest none x xs)) in
      rw read

  pub load_task-Reads :
      (events : Events) (t : Task)
      → load_task digest events ≡ ok t
      → Reads 1 none none events (some t)
  unfolding load_task
  load_task-Reads [] t h = cc
  load_task-Reads (x ∷ xs) t h =
      let (latest, read, is_record) = >>=-eq-ok (read_chain digest 1 none none (x ∷ xs)) _ h in
      read ∙ ap ok (or_raise-eq-ok latest _ is_record)

  pub load-events :
      (id : String) (tasks : Tasks) (t : Task)
      → load digest id tasks ≡ ok t
      → (is_run_identifier id ≡ true) × (load_task digest (event_files (events_of id tasks)) ≡ ok t)
  unfolding load
  load-events id tasks t h = elim (Bool-cases (is_run_identifier id)) [
    | inl named ↦ (named, rw named at h)
    | inr unnamed ↦ let q = rw unnamed at h in cc q
  ]

  pub load-put_self :
      (id : String) (tasks : Tasks) (new : Events) (t : Task)
      → is_run_identifier id ≡ true
      → load_task digest (event_files new) ≡ ok t
      → load digest id (put_events id new tasks) ≡ ok t
  unfolding load
  load-put_self id tasks new t named h = rw (named, events_of-put_self id new tasks) h

pub with_flag-tasks :
    (digest : TaskEvent → String) (b : Bool) (x : Result TaskError Task × Tasks)
    → (with_flag digest b x).1 ≡ x.1
with_flag-tasks digest b (ok t, tasks) = refl
with_flag-tasks digest b (err e, tasks) = refl

with_flag-answer :
    (digest : TaskEvent → String) (b : Bool) (x : Result TaskError Task × Tasks) (t : Task)
    → x.0 ≡ ok t
    → (with_flag digest b x).0 ≡ ok (t, b)
with_flag-answer digest b (ok s, tasks) t h = ap (λ x. ok (x, b)) (ok_injective h)
with_flag-answer digest b (err e, tasks) t h = cc h

-- What an append leaves of the events of a name: a new one that is read, or events that read as before.
module _ (digest : TaskEvent → String) (tasks : Tasks) (new : Task) (last : Option Task)
    (named : is_run_identifier new.work_item_id ≡ true)
    (read : Reads digest 1 none none (event_files (events_of new.work_item_id tasks)) last) where
  abbrev Appended : Result TaskError Task × Tasks → Type 0
  Appended answer = (answer.0 ≡ ok new) × (load digest new.work_item_id answer.1 ≡ ok new)

  pub append-short :
      length (events_of new.work_item_id tasks) < 999999
      → ((append digest new tasks).0 ≡ ok new)
        × (load digest new.work_item_id (append digest new tasks).1 ≡ ok new)
  unfolding append
  append-short room =
      let events = events_of new.work_item_id tasks in
      let all_read = event_files-short events room in
      let e = task_event digest events new in
      let more =
        load_task-append digest events last new
          (subst (λ l. Reads digest 1 none none l last) all_read read) in
      let written = put_events new.work_item_id (events ++ (e, digest e) ∷ []) tasks in
      let done : append digest new tasks ≡ (ok new, written) =
        rw (named, append, next_exists-short events room, all_read) in
      subst Appended (sym done) (
        refl,
        load-put_self digest new.work_item_id tasks (events ++ (e, digest e) ∷ []) new named
            (ap (load_task digest) (event_files-snoc_short events (e, digest e) room) ∙ more),
      )

  pub append-full :
      999999 ≤ length (events_of new.work_item_id tasks)
      → load digest new.work_item_id (append digest new tasks).1
        ≡ load digest new.work_item_id tasks
  unfolding append load
  append-full full =
      let events = events_of new.work_item_id tasks in
      elim (Bool-cases (next_exists events)) [
        | inl there ↦ rw (named, append, there)
        | inr free ↦
            let e = task_event digest (event_files events) new in
            let written = put_events new.work_item_id (events ++ (e, digest e) ∷ []) tasks in
            rw (named, append, free)
              (ap (load_task digest) (
                ap event_files
                  (events_of-put_self new.work_item_id (events ++ (e, digest e) ∷ []) tasks)
                ∙ event_files-snoc_full events (e, digest e) full))
      ]

pub append-other :
    (digest : TaskEvent → String) (tasks : Tasks) (new : Task) (other : String)
    → str_eq new.work_item_id other ≡ false
    → events_of other (append digest new tasks).1 ≡ events_of other tasks
unfolding append
append-other digest tasks new other differ =
    let events = events_of new.work_item_id tasks in
    let e = task_event digest (event_files events) new in
    elim (Bool-cases (is_run_identifier new.work_item_id)) [
      | inr unnamed ↦ rw (unnamed, append)
      | inl named ↦ elim (Bool-cases (next_exists events)) [
        | inl there ↦ rw (named, append, there)
        | inr free ↦
            rw (named, append, free)
              (events_of-put_other new.work_item_id other (events ++ (e, digest e) ∷ []) tasks
                differ)
      ]
    ]

-- What is read after a change is saved under a name that loads. If the name has fewer than 999,999 events,
-- then the saved record is answered, and loading the name gives it; otherwise loading the name still gives
-- the old record. The events of every other name are as before.
pub write_change-load :
    (digest : TaskEvent → String) (tasks : Tasks) (old new : Task) (other : String)
    → load digest new.work_item_id tasks ≡ ok old
    → str_eq new.work_item_id other ≡ false
    → (((length (events_of new.work_item_id tasks) < 999999)
          × ((write_change digest (saved new) tasks).0 ≡ ok (new, true))
          × (load digest new.work_item_id (write_change digest (saved new) tasks).1 ≡ ok new))
        ⊎ ((999999 ≤ length (events_of new.work_item_id tasks))
            × (load digest new.work_item_id (write_change digest (saved new) tasks).1 ≡ ok old)))
      × (events_of other (write_change digest (saved new) tasks).1 ≡ events_of other tasks)
unfolding write_change
write_change-load digest tasks old new other h differ =
    let (named, read) = load-events digest new.work_item_id tasks old h in
    let reads = load_task-Reads digest (event_files (events_of new.work_item_id tasks)) old read in
    let same = with_flag-tasks digest true (append digest new tasks) in
    let at_name = ap (load digest new.work_item_id) same in
    (
      elim (room_cases (events_of new.work_item_id tasks)) [
        | inl room ↦
            let (answer, found) = append-short digest tasks new (some old) named reads room in
            inl (
              room,
              with_flag-answer digest true (append digest new tasks) new answer,
              at_name ∙ found,
            )
        | inr full ↦
            inr (full, at_name ∙ append-full digest tasks new (some old) named reads full ∙ h)
      ],
      ap (events_of other) same ∙ append-other digest tasks new other differ,
    )
