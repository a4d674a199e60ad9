-- ===== src/Coordination.antt =====
-- pipeline/a2a_coordination.py: work items that are dispatched to remote workers. The error, the work
-- item, the grants and worker profiles of a policy, and the record of a task. Times but the deadlines of
-- leases are left out of records. A path is the list of its code points.
pub mod Containment
pub mod Normal
pub mod Inclusion
pub mod Scope
pub mod Reports
pub mod Transitions
pub mod Leases
pub mod Events
pub mod Once
pub mod Outcomes
pub mod Sound
pub mod Create
pub mod OpenTasks
pub mod Admission
pub mod Readback
pub mod Items
pub mod Authority
pub mod Grants
pub mod Checked
pub mod Calls
pub mod Dispatching
pub mod Evolution
pub mod Reported
pub mod Keeping
pub mod Composed
pub mod Refines
pub mod Operations
pub mod Steps
pub mod Store
use formalspecgen.Prelude.{
  Bool, List, Option, String, [], all, false, if◌then◌else◌, none, not, some, str_eq, true, ℕ, ◌||◌,
  ◌∷◌,
}

-- `A2ACoordinationError`
pub record TaskError : Type 0 where
  pub code : String
  pub message : String

abbrev pub deny : String → String → TaskError
deny code message = record { code = code; message = message }

-- A dict of budgets.
abbrev pub Budget : Type 0
Budget = List (String × ℕ)

pub record WorkItem : Type 0 where
  pub work_item_id : String
  pub base_revision : String
  pub objective : String
  pub workflow : String
  pub variant : List (String × String)
  pub allowed_paths : List (List ℕ)
  pub protected_paths : List (List ℕ)
  pub acceptance_plan_ref : String
  pub authority_ref : String
  pub deliverables : List String
  pub requested_effects : List String
  pub resource_budget : Budget
  pub parent_work_item_id : Option String

pub record AuthorityGrant : Type 0 where
  pub ref : String
  pub principal_id : String
  pub project_root : String
  pub workers : List String
  pub workflows : List String
  pub effects : List String
  pub allowed_paths : List (List ℕ)
  pub max_budget : Budget
  pub expires_at : Option ℕ

pub record WorkerProfile : Type 0 where
  pub worker_id : String
  pub endpoint : String
  pub agent_card_sha256 : String
  pub workflows : List String
  pub effects : List String
  pub allowed_paths : List (List ℕ)
  pub max_budget : Budget
  pub auth_token_env : Option String

-- An entry of a mapping that should hold a list.
pub data Listing (A : Type 0) : Type 0 where
  missing : Listing A
  not_a_list : Listing A
  listed : List A → Listing A

pub record Artifact : Type 0 where
  pub artifact_id : String
  pub sha256 : String

-- The result of a worker, a mapping: what is read of it, and its canonical text. An artifact that is
-- not a mapping is `none`.
pub record WorkerResult : Type 0 where
  pub schema : Option String
  pub work_item_id : Option String
  pub base_revision : Option String
  pub patch_sha256 : Option String
  pub changed_files : Listing (List ℕ)
  pub artifacts : Listing (Option Artifact)
  pub text : String

pub record Observation : Type 0 where
  pub remote_task_id : String
  pub state : String
  pub result : Option WorkerResult
  pub message : String

pub record Outcome : Type 0 where
  pub status : String
  pub code : Option String
  pub message : String

pub record Acceptance : Type 0 where
  pub status : String
  pub claim : String

abbrev pub no_proof : Acceptance
no_proof = record { status = "pending"; claim = "NO_PROOF" }

-- A diagnostic, without its details.
pub record Diagnostic : Type 0 where
  pub code : String
  pub message : String

pub data DispatchState : Type 0 where
  not_started in_flight recovering uncertain confirmed : DispatchState

-- The record of a task.
pub record Task : Type 0 where
  pub work_item_id : String
  pub request_sha256 : String
  pub principal_id : String
  pub worker_id : String
  pub state : String
  pub dispatch_state : DispatchState
  pub dispatch_attempt_id : Option String
  pub dispatch_owner_id : Option String
  pub dispatch_lease : Option ℕ
  pub recovery_owner_id : Option String
  pub recovery_lease : Option ℕ
  pub remote_task_id : Option String
  pub remote_state : Option String
  pub cancellation_requested : Bool
  pub cancellation_status : String
  pub work_item : WorkItem
  pub worker_result : Option WorkerResult
  pub worker_outcome : Option Outcome
  pub coordination_status : String
  pub diagnostics : List Diagnostic
  pub diagnostic_count : ℕ
  pub acceptance : Acceptance
  pub authority_sha256 : String
  pub worker_profile_sha256 : String

-- `state in TERMINAL_STATES`
unfoldable pub is_terminal : String → Bool
is_terminal s =
    str_eq s "completed" || (str_eq s "failed" || (str_eq s "cancelled" || str_eq s "rejected"))

-- Whether an entry that may be None is true: a text is true if it is not empty.
abbrev pub truthy : Option String → Bool
truthy none = false
truthy (some s) = not (str_eq s "")

abbrev pub option_eq : Option String → Option String → Bool
option_eq none none = true
option_eq (some s) (some t) = str_eq s t
option_eq _ _ = false

unfoldable pub text_in : String → List String → Bool
text_in s [] = false
text_in s (t ∷ ts) = str_eq s t || text_in s ts

-- `set(xs).issubset(ys)`
abbrev pub is_subset : List String → List String → Bool
is_subset xs ys = all (λ x. text_in x ys) xs

-- `budget.get(key)`
unfoldable pub limit_of : String → Budget → Option ℕ
limit_of key [] = none
limit_of key ((k, n) ∷ rest) = if str_eq k key then some n else limit_of key rest
