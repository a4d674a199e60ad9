-- ===== src/Tests/Coordinators.antt =====
-- A coordinator with one grant and one worker, and the theorems about it applied.
use formalspecgen.Coordination.{
  AuthorityGrant, Task, WorkItem, WorkerResult, limit_of, listed, missing, text_in,
}
use formalspecgen.Coordination.Authority.{
  Policy, affordable, authorize_item, candidates, check_artifact, check_file, check_result,
  check_worker, entry_of, first_worker, is_candidate, validate_result,
}
use formalspecgen.Coordination.Calls.{Call, Client, Coordinator, foreign}
use formalspecgen.Coordination.Checked.{SameScopes, checked_item-SameScopes}
use formalspecgen.Coordination.Evolution.{Evolves-refl, GoesOn, WellNamed}
use formalspecgen.Coordination.Grants.{validate_result-IsWithin}
use formalspecgen.Coordination.Inclusion.{IsInScope}
use formalspecgen.Coordination.Items.{
  check_parent_id, check_texts, checked_budget, checked_item, insert_name, insert_text, scopes,
  sorted_names, sorted_texts,
}
use formalspecgen.Coordination.Operations.{
  Operation, cancels_task, perform_operation, perform_operation-GoesOn,
}
use formalspecgen.Coordination.Refines.{IsPatient}
use formalspecgen.Coordination.Scope.{
  before_tree, count_wild, join_slashes, last_part, names_of, parts, path_allowed, same_text, scope,
  scope_contains, scope_matches, scope_prefix, split_slashes, starts_with, strip_slashes,
  wildcards_allowed,
}
use formalspecgen.Coordination.Store.{
  Events, Tasks, comes_before, events_of, load, load_task, read_chain,
}
use formalspecgen.Prelude.{
  ap, eq_iff, event_files, event_files-nil, str_eq, sym, String, ◌∙◌, Bool-cases, List, [], false,
  inl, inr, none, pos, refl, some, true, ℕ, ◌∷◌, ◌≡◌,
}
use formalspecgen.Prelude.Text.{is_hex_digest, is_run_identifier, starts_then}
use formalspecgen.Result.{each, err, ok, ok_injective}
use formalspecgen.Tests.Work.{
  bound_task, constant_digest, src_main, src_tree, src_tree-normal, work, worker,
}

abbrev grant : AuthorityGrant
grant = record {
  ref = "grant";
  principal_id = "someone";
  project_root = "/project";
  workers = "worker-1" ∷ [];
  workflows = "repair" ∷ [];
  effects = "workspace_read" ∷ [];
  allowed_paths = src_tree ∷ [];
  max_budget = ("tokens", 8) ∷ [];
  expires_at = some 100;
}

abbrev policy : Policy
policy = record { authorities = ("grant", grant) ∷ []; workers = ("worker-1", worker) ∷ [] }

work-authorized : authorize_item policy "/project" 50 work "someone" none ≡ ok (grant, worker)
unfolding authorize_item entry_of candidates is_candidate first_worker check_worker affordable
    text_in limit_of scope_contains scope_prefix before_tree strip_slashes starts_with same_text
    comes_before
work-authorized = refl

abbrev repaired : WorkerResult
repaired = record {
  schema = some "formalspecgen-worker-result-v1";
  work_item_id = some "w1";
  base_revision = some "0000000000000000000000000000000000000000";
  patch_sha256 = none;
  changed_files = listed (src_main ∷ []);
  artifacts = missing;
  text = "{}";
}

repaired-valid : validate_result work (some repaired) ≡ ok (some repaired)
unfolding validate_result check_result check_file check_artifact scope parts wildcards_allowed
    join_slashes same_text split_slashes names_of last_part count_wild scope_matches before_tree
    starts_with each
repaired-valid = refl

validate_result-IsWithin_example :
    (path : List ℕ) × (scope src_main ≡ ok path)
    × (path_allowed path work.allowed_paths ≡ true)
    × (path_allowed path work.protected_paths ≡ false)
    × IsInScope path grant.allowed_paths
validate_result-IsWithin_example =
    validate_result-IsWithin policy "/project" 50 work "someone" none grant worker repaired
      (src_main ∷ []) src_main work-authorized src_tree-normal repaired-valid refl (inl refl)

abbrev guarded_work : WorkItem
guarded_work = record work { protected_paths = src_main ∷ [] }

guarded_work-checked : checked_item (λ s. s) guarded_work (("tokens", pos 5) ∷ []) ≡ ok guarded_work
unfolding checked_item check_texts scopes sorted_texts sorted_names checked_budget check_parent_id
    insert_text insert_name scope parts wildcards_allowed join_slashes same_text split_slashes
    names_of last_part count_wild text_in is_run_identifier is_hex_digest starts_then
guarded_work-checked = refl

checked_item-SameScopes_example :
    SameScopes guarded_work.allowed_paths guarded_work.allowed_paths
    × SameScopes guarded_work.protected_paths guarded_work.protected_paths
checked_item-SameScopes_example =
    checked_item-SameScopes (λ s. s) guarded_work guarded_work (("tokens", pos 5) ∷ [])
      guarded_work-checked

-- Workers that do not answer.
abbrev unreachable : {A : Type 0} → Call A
unreachable tasks = (err (foreign "unreachable"), tasks)

abbrev silent : Client
silent = record {
  submit = λ w item. unreachable;
  get = λ w id. unreachable;
  cancel = λ w id. unreachable;
  reconcile = none;
}

silent-IsPatient : IsPatient constant_digest silent
silent-IsPatient = record {
  submits = λ w item tasks. Evolves-refl constant_digest tasks;
  gets = λ w id tasks. Evolves-refl constant_digest tasks;
  cancels = λ w id tasks. Evolves-refl constant_digest tasks;
  reconciles = λ ask w item h. cc h;
}

abbrev coordinator : Coordinator
coordinator = record {
  policy = policy;
  project_root = "/project";
  coordinator_id = "me";
  lease = 60;
  digest = constant_digest;
  request_sha256 = λ item. item.work_item_id;
  grant_sha256 = λ g. "grant";
  worker_sha256 = λ w. "worker";
  strip = λ s. s;
  state_name = λ s. s;
  derived_id = λ s. s;
}

-- The task that is stored has been dispatched, and its worker has named it.
abbrev bound_log : Events
bound_log =
    (
      record {
        schema = "formalspecgen-a2a-task-event-v1";
        sequence = 1;
        previous_sha256 = none;
        content = some bound_task;
      },
      "digest",
    )
    ∷ []

abbrev bound_tasks : Tasks
bound_tasks = ("w1", bound_log) ∷ []

bound_tasks-load : load constant_digest "w1" bound_tasks ≡ ok bound_task
unfolding event_files load load_task read_chain events_of is_run_identifier starts_then
bound_tasks-load = refl

bound_tasks-absent :
    (id : String) (t : Task)
    → str_eq "w1" id ≡ false
    → load constant_digest id bound_tasks ≡ ok t
    → ⊥
unfolding load load_task events_of
bound_tasks-absent id t other h = elim (Bool-cases (is_run_identifier id)) [
  | inl named ↦ let q = rw (named, load, other, event_files-nil) at h in cc q
  | inr unnamed ↦ let q = rw (unnamed, load) at h in cc q
]

bound_tasks-WellNamed : WellNamed constant_digest bound_tasks
bound_tasks-WellNamed id t h = elim (Bool-cases (str_eq "w1" id)) [
  | inl same ↦
      let e = (eq_iff "w1" id).0 same in
      let q : bound_task ≡ t =
        ok_injective (sym bound_tasks-load ∙ ap (λ n. load constant_digest n bound_tasks) e ∙ h) in
      ap (λ (x : Task). x.work_item_id) (sym q) ∙ e
  | inr other ↦ absurd (bound_tasks-absent id t other h)
]

-- The cancellation reaches the worker, which does not answer.
abbrev cancellation_request : Operation
cancellation_request = cancels_task "w1" "someone"

perform_operation-GoesOn_example :
    WellNamed constant_digest
      (perform_operation coordinator silent cancellation_request bound_tasks).1
    × GoesOn constant_digest bound_tasks
        (perform_operation coordinator silent cancellation_request bound_tasks).1
perform_operation-GoesOn_example =
    perform_operation-GoesOn coordinator silent cancellation_request bound_tasks silent-IsPatient
      bound_tasks-WellNamed
