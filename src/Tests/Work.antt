-- ===== src/Tests/Work.antt =====
-- Work items that are dispatched, observed and cancelled, and the theorems about them applied.
use mathlib.Core.Path.{subst}
use formalspecgen.Coordination.{
  Task, WorkItem, WorkerProfile, confirmed, in_flight, is_terminal, limit_of, no_proof, not_started,
  recovering, text_in, uncertain,
}
use formalspecgen.Coordination.Admission.{create-IsChild, create-IsWithin}
use formalspecgen.Coordination.Create.{
  amount, check_budget, check_parent, create, create_new, filter_tasks, is_active, is_sibling,
  total, within_ceilings,
}
use formalspecgen.Coordination.Inclusion.{IsScopedBy, path_allowed-contained}
use formalspecgen.Coordination.OpenTasks.{committed}
use formalspecgen.Coordination.Leases.{claims_apart, dispatch-claim_apart, quiet}
use formalspecgen.Coordination.Once.{apply_event-remote_task_id, dispatched_once}
use formalspecgen.Coordination.Outcomes.{outcome_final}
use formalspecgen.Coordination.Readback.{write_change-load}
use formalspecgen.Coordination.Reports.{
  RemoteEvent, apply_event, before_outcome, conflicting_id, observed_state,
}
use formalspecgen.Coordination.Scope.{
  before_tree, count_wild, join_slashes, last_part, names_of, parts, path_allowed, same_text, scope,
  scope_contains, scope_matches, scope_prefix, split_slashes, starts_with, strip_slashes,
  wildcards_allowed,
}
use formalspecgen.Coordination.Sound.{IsSound, TaskSteps-IsSound, queued}
use formalspecgen.Coordination.Steps.{
  TaskSteps, dispatches, extended, outcome_of, renews, unmoved, withdraws,
}
use formalspecgen.Coordination.Store.{
  Events, TaskEvent, Tasks, all_latest, append, authorize, comes_before, events_of, last_sha256,
  load, load_task, put_events, read_chain, task_event, write_change,
}
use formalspecgen.Coordination.Transitions.{
  cancellation, claim, claimable_in, dispatch, kept, lease_expired, outcome, recovered, renew,
  saved,
}
use formalspecgen.Prelude.{
  All, event_files, length, next_exists, ◌<◌, In, List, String, [], false, inl, inr, none, refl,
  some, sym, true, ℕ, ◌+◌, ◌∷◌, ◌≡◌, ◌≤◌, ◌⊎◌,
}
use formalspecgen.Prelude.Text.{codes, is_run_identifier, starts_then}
use formalspecgen.Result.{each, ok}

abbrev pub src_tree : List ℕ
src_tree = codes "src/**"

abbrev pub src_main : List ℕ
src_main = codes "src/main.py"

abbrev pub work : WorkItem
work = record {
  work_item_id = "w1";
  base_revision = "0000000000000000000000000000000000000000";
  objective = "repair";
  workflow = "repair";
  variant = [];
  allowed_paths = src_tree ∷ [];
  protected_paths = [];
  acceptance_plan_ref = "plan";
  authority_ref = "grant";
  deliverables = "patch" ∷ [];
  requested_effects = "workspace_read" ∷ [];
  resource_budget = ("tokens", 5) ∷ [];
  parent_work_item_id = none;
}

abbrev child_work : WorkItem
child_work = record work {
  work_item_id = "w2";
  allowed_paths = src_main ∷ [];
  resource_budget = ("tokens", 3) ∷ [];
  parent_work_item_id = some "w1";
}

abbrev pub worker : WorkerProfile
worker = record {
  worker_id = "worker-1";
  endpoint = "https://worker.test";
  agent_card_sha256 = "card";
  workflows = "repair" ∷ [];
  effects = "workspace_read" ∷ [];
  allowed_paths = src_tree ∷ [];
  max_budget = ("tokens", 10) ∷ [];
  auth_token_env = none;
}

abbrev pub task : Task
task = record {
  work_item_id = "w1";
  request_sha256 = "request";
  principal_id = "someone";
  worker_id = "worker-1";
  state = "queued";
  dispatch_state = not_started;
  dispatch_attempt_id = none;
  dispatch_owner_id = none;
  dispatch_lease = none;
  recovery_owner_id = none;
  recovery_lease = none;
  remote_task_id = none;
  remote_state = none;
  cancellation_requested = false;
  cancellation_status = "not_requested";
  work_item = work;
  worker_result = none;
  worker_outcome = none;
  coordination_status = "consistent";
  diagnostics = [];
  diagnostic_count = 0;
  acceptance = no_proof;
  authority_sha256 = "authority";
  worker_profile_sha256 = "profile";
}

abbrev completed_task : Task
completed_task = record task { state = "completed"; dispatch_state = confirmed }

completed_stays : TaskSteps completed_task completed_task
unfolding cancellation is_terminal
completed_stays = extended unmoved (withdraws refl)

outcome_final_example : outcome_of completed_task ≡ outcome_of completed_task
unfolding is_terminal
outcome_final_example = outcome_final completed_stays refl

abbrev dispatched_task : Task
dispatched_task = record task {
  state = "dispatching";
  dispatch_state = in_flight;
  dispatch_attempt_id = some "a1";
  dispatch_owner_id = some "me";
  dispatch_lease = some 10;
  worker_outcome = outcome "dispatching" none "worker submission is in flight";
}

task-dispatched : dispatch "a1" "me" 10 task ≡ saved dispatched_task
unfolding dispatch is_terminal
task-dispatched = refl

abbrev renewed_task : Task
renewed_task = record dispatched_task { dispatch_lease = some 20 }

task-renewed : TaskSteps dispatched_task renewed_task
unfolding renew is_terminal
task-renewed = extended unmoved (renews "a1" "me" 20 refl)

dispatched_once_example :
    (renewed_task.dispatch_attempt_id ≡ some "a1")
    × ((other owner : String) (until : ℕ)
        → dispatch other owner until renewed_task ≡ kept renewed_task)
dispatched_once_example = dispatched_once "a1" "me" 10 task task-dispatched refl task-renewed

task-reached :
    TaskSteps (queued "request" work "someone" worker "authority" "profile") dispatched_task
unfolding dispatch is_terminal queued
task-reached = extended unmoved (dispatches "a1" "me" 10 refl)

TaskSteps-IsSound_example :
    IsSound (queued "request" work "someone" worker "authority" "profile") dispatched_task
TaskSteps-IsSound_example =
    TaskSteps-IsSound "request" work "someone" worker "authority" "profile" task-reached

abbrev lost_task : Task
lost_task = record dispatched_task { state = "dispatch_uncertain"; dispatch_state = uncertain }

abbrev reclaimed : ℕ → Task → Task
reclaimed deadline t = record t {
  state = "dispatch_uncertain";
  dispatch_state = recovering;
  recovery_owner_id = some "me";
  recovery_lease = some deadline;
  worker_outcome = outcome "reconciling" none "reconciling an unresolved dispatch attempt";
}

lost-claimed : claim "d" "me" 10 5 lost_task ≡ ok (saved (reclaimed 15 lost_task))
unfolding claim claimable_in recovered is_terminal
lost-claimed = refl

lost-claimed_again :
    claim "d" "me" 15 5 (reclaimed 15 lost_task) ≡ ok (saved (reclaimed 20 lost_task))
unfolding claim claimable_in recovered is_terminal lease_expired
lost-claimed_again = refl

claims_apart_example : 10 + 5 ≤ 15
claims_apart_example =
    claims_apart "d" "me" "d" "me" 10 5 15 5 lost_task (reclaimed 15 lost_task) lost-claimed quiet
      lost-claimed_again

dispatched-claimed : claim "d" "me" 12 5 dispatched_task ≡ ok (saved (reclaimed 17 dispatched_task))
unfolding claim claimable_in recovered is_terminal lease_expired
dispatched-claimed = refl

dispatch-claim_apart_example : 10 ≤ 12
dispatch-claim_apart_example =
    dispatch-claim_apart "a1" "me" "d" "me" 10 12 5 task dispatched_task task-dispatched quiet
      dispatched-claimed

abbrev working_event : RemoteEvent
working_event = record {
  attempt_id = "a1";
  event_kind = "observation";
  remote_task_id = some "r1";
  remote_state = some "working";
  worker_result = none;
  operation = none;
  code = none;
  message = "";
}

abbrev pub bound_task : Task
bound_task = record dispatched_task { remote_task_id = some "r1" }

abbrev working_task : Task
working_task = record bound_task {
  state = "working";
  dispatch_state = confirmed;
  remote_state = some "working";
  worker_outcome = outcome "working" none "";
}

bound-told : apply_event working_event bound_task ≡ ok (saved working_task)
unfolding apply_event conflicting_id before_outcome observed_state is_terminal
bound-told = refl

apply_event-remote_task_id_example : working_task.remote_task_id ≡ some "r1"
apply_event-remote_task_id_example =
    apply_event-remote_task_id working_event bound_task (saved working_task) bound-told refl refl

src_tree-scope : scope src_tree ≡ ok src_tree
unfolding scope parts wildcards_allowed join_slashes same_text split_slashes names_of last_part
    count_wild
src_tree-scope = refl

pub src_tree-normal : (s : List ℕ) → In s (src_tree ∷ []) → (raw : List ℕ) × (scope raw ≡ ok s)
src_tree-normal s (inl e) = (src_tree, subst (λ x. scope src_tree ≡ ok x) (sym e) src_tree-scope)
src_tree-normal s (inr m) = elim m [ ]

path_allowed-contained_example :
    (path_allowed src_main (src_tree ∷ []) ≡ true)
    ⊎ ((s : List ℕ) × In s (src_tree ∷ []) × (before_tree s ≡ some src_main))
unfolding scope_contains scope_prefix before_tree strip_slashes starts_with same_text scope_matches
path_allowed-contained_example =
    path_allowed-contained (src_tree ∷ []) (src_main ∷ []) src_main src_tree-normal refl refl

abbrev pub constant_digest : TaskEvent → String
constant_digest e = "digest"

abbrev pub first_log : Events
first_log =
    (
      record {
        schema = "formalspecgen-a2a-task-event-v1";
        sequence = 1;
        previous_sha256 = none;
        content = some task;
      },
      "digest",
    )
    ∷ []

abbrev pub one_task : Tasks
one_task = ("w1", first_log) ∷ []

abbrev child_task : Task
child_task = record task { work_item_id = "w2"; request_sha256 = "other"; work_item = child_work }

abbrev child_log : Events
child_log =
    (
      record {
        schema = "formalspecgen-a2a-task-event-v1";
        sequence = 1;
        previous_sha256 = none;
        content = some child_task;
      },
      "digest",
    )
    ∷ []

abbrev two_tasks : Tasks
two_tasks = ("w1", first_log) ∷ ("w2", child_log) ∷ []

child-recorded :
    create constant_digest child_task (("tokens", 10) ∷ []) one_task
    ≡ (ok (child_task, true), two_tasks)
unfolding create event_files next_exists load load_task read_chain events_of create_new check_budget
    all_latest within_ceilings filter_tasks is_active is_sibling is_terminal amount total limit_of
    check_parent authorize append task_event put_events comes_before last_sha256 is_run_identifier
    starts_then text_in scope_contains scope_prefix before_tree strip_slashes starts_with same_text
    each
child-recorded = refl

pub one_task-loads : load constant_digest "w1" one_task ≡ ok task
unfolding event_files load load_task read_chain events_of is_run_identifier starts_then
one_task-loads = refl

create-IsWithin_example :
    (current : List Task) × (all_latest constant_digest one_task ≡ ok current)
    × (amount "tokens" (("tokens", 3) ∷ []) + committed "tokens" "authority" "someone" current ≤ 10)
create-IsWithin_example =
    create-IsWithin constant_digest child_task (("tokens", 10) ∷ []) one_task two_tasks child_task
      "tokens" 10 child-recorded (inl refl)

create-IsChild_example :
    (◌≡◌ {A = String} "someone" "someone")
    × All (λ effect. In effect work.requested_effects) child_work.requested_effects
    × IsScopedBy src_main child_work.allowed_paths work.allowed_paths
create-IsChild_example =
    create-IsChild constant_digest child_task (("tokens", 10) ∷ []) one_task two_tasks child_task
      task "w1" src_main child-recorded refl one_task-loads src_tree-normal

write_change-load_example :
    (((length (events_of "w1" one_task) < 999999)
        × ((write_change constant_digest (saved dispatched_task) one_task).0
            ≡ ok (dispatched_task, true))
        × (load constant_digest "w1"
              (write_change constant_digest (saved dispatched_task) one_task).1
            ≡ ok dispatched_task))
      ⊎ ((999999 ≤ length (events_of "w1" one_task))
          × (load constant_digest "w1"
                (write_change constant_digest (saved dispatched_task) one_task).1
              ≡ ok task)))
    × (events_of "w2" (write_change constant_digest (saved dispatched_task) one_task).1
        ≡ events_of "w2" one_task)
write_change-load_example =
    write_change-load constant_digest one_task task dispatched_task "w2" one_task-loads refl
