-- ===== src/Coordination/Authority.antt =====
-- The policy of pipeline/a2a_coordination.py, and the decisions of `A2ACoordinator` that need no store:
-- `_authorize` and `_validate_result`.
use formalspecgen.Coordination.{
  Artifact, AuthorityGrant, Listing, TaskError, WorkItem, WorkerProfile, WorkerResult, deny,
  is_subset, limit_of, listed, missing, not_a_list, option_eq, text_in,
}
use formalspecgen.Coordination.Create.{covered}
use formalspecgen.Coordination.Scope.{path_allowed, scope, scope_matches}
use formalspecgen.Coordination.Store.{comes_before}
use formalspecgen.Prelude.{
  Bool, List, Option, String, [], all, false, if◌then◌else◌, is_some, leb, none, not, some, str_eq,
  true, ℕ, ◌&&◌, ◌||◌, ◌∷◌,
}
use formalspecgen.Prelude.Text.{codes, is_hex_digest, is_run_identifier}
use formalspecgen.Result.{Result, each, err, ok, or_raise, refuse, require, ◌>>=◌, ◌>>◌}

-- `CoordinationPolicy`: grants by their reference, workers by their identifier.
pub record Policy : Type 0 where
  pub authorities : List (String × AuthorityGrant)
  pub workers : List (String × WorkerProfile)

unfoldable pub entry_of : {A : Type 0} → String → List (String × A) → Option A
entry_of key [] = none
entry_of key ((k, a) ∷ rest) = if str_eq k key then some a else entry_of key rest

-- `grant.expires_at is not None and ... <= now`
abbrev pub expired : Option ℕ → ℕ → Bool
expired none now = false
expired (some at_) now = leb at_ now

-- A worker that the grant names, that does the workflow, and is the requested one, if there is one.
unfoldable pub is_candidate : AuthorityGrant → WorkItem → Option String → WorkerProfile → Bool
unfolding text_in
is_candidate grant item worker_id worker =
    (text_in worker.worker_id grant.workers && text_in item.workflow worker.workflows)
    && (not (is_some worker_id) || option_eq (some worker.worker_id) worker_id)

unfoldable pub candidates :
    (WorkerProfile → Bool) → List (String × WorkerProfile) → List WorkerProfile
candidates p [] = []
candidates p ((id, w) ∷ rest) = let others = candidates p rest in if p w then w ∷ others else others

-- `sorted(candidates, key=lambda value: value.worker_id)[0]`: the first of the least.
unfoldable pub first_worker : List WorkerProfile → Option WorkerProfile
unfolding comes_before
first_worker [] = none
first_worker (w ∷ ws) = elim (first_worker ws) [
  | none ↦ some w
  | some v ↦ some (if comes_before (codes v.worker_id) (codes w.worker_id) then v else w)
]

-- Whether an amount is within the ceilings of grant and worker, of which there is one.
unfoldable pub affordable : AuthorityGrant → WorkerProfile → String → ℕ → Bool
unfolding limit_of
affordable grant worker key requested =
    let granted = limit_of key grant.max_budget in
    let supported = limit_of key worker.max_budget in
    elim granted [
      | none ↦ elim supported [ none ↦ false | some m ↦ leb requested m ]
      | some n ↦ elim supported [
        | none ↦ leb requested n
        | some m ↦ leb requested n && leb requested m
      ]
    ]

abbrev pub denied_for : String → TaskError
denied_for message = deny "AUTHORITY_DENIED" message

-- The checks of `_authorize` on the chosen worker.
unfoldable pub check_worker :
    WorkItem → AuthorityGrant → WorkerProfile → Result TaskError (Unit {0})
unfolding affordable text_in
check_worker item grant worker = do
  require
      (is_subset item.requested_effects grant.effects
        && is_subset item.requested_effects worker.effects)
      (denied_for "requested effects exceed worker grant")
  require
      (all (λ s. covered grant.allowed_paths s && covered worker.allowed_paths s)
        item.allowed_paths)
      (denied_for "path scope is not granted")
  require (all (λ (b : String × ℕ). affordable grant worker b.0 b.1) item.resource_budget)
      (deny "BUDGET_DENIED" "budget exceeds ceiling")

-- `_authorize` of the coordinator, for a project at a time.
unfoldable pub authorize_item :
    Policy
    → String
    → ℕ
    → WorkItem
    → String
    → Option String
    → Result TaskError (AuthorityGrant × WorkerProfile)
unfolding entry_of candidates is_candidate first_worker check_worker text_in
authorize_item policy project_root now item principal_id worker_id = do
  grant ←
      or_raise (entry_of item.authority_ref policy.authorities)
        (denied_for "authority reference is unavailable")
  require (str_eq grant.principal_id principal_id) (denied_for "authority reference is unavailable")
  require (str_eq grant.project_root project_root)
      (denied_for "authority belongs to another project")
  refuse (expired grant.expires_at now) (deny "AUTHORITY_EXPIRED" "authority reference has expired")
  require (text_in item.workflow grant.workflows)
      (denied_for "workflow or worker is not authorized")
  worker ←
      or_raise (first_worker (candidates (is_candidate grant item worker_id) policy.workers))
        (denied_for "workflow or worker is not authorized")
  check_worker item grant worker
  ok (grant, worker)

abbrev pub invalid_result : String → TaskError
invalid_result message = deny "WORKER_RESULT_INVALID" message

-- An entry that is a list, or missing.
abbrev pub entries : {A : Type 0} → String → Listing A → Result TaskError (List A)
entries message missing = ok []
entries message not_a_list = err (invalid_result message)
entries message (listed xs) = ok xs

-- A changed file is in the scopes of the item, and in no protected one.
unfoldable pub check_file : WorkItem → List ℕ → Result TaskError (Unit {0})
unfolding scope scope_matches
check_file item raw = do
  path ← scope raw
  require (path_allowed path item.allowed_paths && not (path_allowed path item.protected_paths))
      (deny "WORKER_SCOPE_VIOLATION" "worker changed an unauthorized path")

unfoldable pub check_artifact : Option Artifact → Result TaskError (Unit {0})
check_artifact none = err (invalid_result "invalid artifact reference")
check_artifact (some a) =
    require (is_run_identifier a.artifact_id && is_hex_digest 64 a.sha256)
      (invalid_result "invalid artifact reference")

abbrev pub digest_or_none : Option String → Bool
digest_or_none none = true
digest_or_none (some d) = is_hex_digest 64 d

unfoldable pub check_result : WorkItem → WorkerResult → Result TaskError (Unit {0})
unfolding check_file check_artifact
check_result item r = do
  require
      (option_eq r.schema (some "formalspecgen-worker-result-v1")
        && (option_eq r.work_item_id (some item.work_item_id)
            && option_eq r.base_revision (some item.base_revision)))
      (invalid_result "worker result binding is invalid")
  require (digest_or_none r.patch_sha256) (invalid_result "invalid patch digest")
  changed ← entries "changed_files must be a list" r.changed_files
  each (check_file item) changed
  artifacts ← entries "artifacts must be a list" r.artifacts
  each check_artifact artifacts

-- `_validate_result`
unfoldable pub validate_result :
    WorkItem → Option WorkerResult → Result TaskError (Option WorkerResult)
unfolding check_result
validate_result item none = ok none
validate_result item (some r) = check_result item r >> ok (some r)
