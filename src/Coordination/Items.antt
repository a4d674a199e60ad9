-- ===== src/Coordination/Items.antt =====
-- `WorkItem.__post_init__` of pipeline/a2a_coordination.py. `str.strip` is a parameter.
use formalspecgen.Coordination.Scope.{is_empty}
use formalspecgen.Coordination.{Budget, TaskError, WorkItem, deny, is_subset}
use formalspecgen.Coordination.Scope.{same_text, scope}
use formalspecgen.Coordination.Store.{comes_before}
use formalspecgen.Prelude.{
  List, Option, String, [], if◌then◌else◌, leb, length, negsuc, none, not, pos, some, str_eq, ℕ, ℤ,
  ◌&&◌, ◌∷◌,
}
use formalspecgen.Prelude.Text.{codes, is_hex_digest, is_run_identifier}
use formalspecgen.Result.{Result, err, ok, refuse, require, ◌>>=◌, ◌>>◌}

-- `sorted(set(xs))`, for texts by their code points.
unfoldable pub insert_text : List ℕ → List (List ℕ) → List (List ℕ)
unfolding comes_before same_text
insert_text x [] = x ∷ []
insert_text x (y ∷ ys) =
    let rest = insert_text x ys in
    if same_text x y then y ∷ ys else if comes_before x y then x ∷ y ∷ ys else y ∷ rest

unfoldable pub sorted_texts : List (List ℕ) → List (List ℕ)
unfolding insert_text
sorted_texts [] = []
sorted_texts (x ∷ xs) = insert_text x (sorted_texts xs)

unfoldable pub insert_name : String → List String → List String
unfolding comes_before
insert_name x [] = x ∷ []
insert_name x (y ∷ ys) =
    let rest = insert_name x ys in
    if str_eq x y then y ∷ ys else if comes_before (codes x) (codes y) then x ∷ y ∷ ys else y ∷ rest

unfoldable pub sorted_names : List String → List String
unfolding insert_name
sorted_names [] = []
sorted_names (x ∷ xs) = insert_name x (sorted_names xs)

-- `MCP_EFFECTS` of pipeline/capability_registry.py.
abbrev pub mcp_effects : List String
mcp_effects =
    "workspace_read" ∷ "workspace_write_new" ∷ "external_execution" ∷ "provider_access"
    ∷ "evidence_publication" ∷ "service_state_read" ∷ "service_state_write"
    ∷ "remote_worker_dispatch" ∷ "protected_signing" ∷ "protected_publication" ∷ []

abbrev pub supported_deliverables : List String
supported_deliverables =
    "patch" ∷ "changed-file-manifest" ∷ "test-results" ∷ "evidence-references" ∷ []

-- The scopes of some paths.
unfoldable pub scopes : List (List ℕ) → Result TaskError (List (List ℕ))
unfolding scope
scopes [] = ok []
scopes (p ∷ ps) = do s ← scope p; rest ← scopes ps; ok (s ∷ rest)

abbrev pub budget_error : TaskError
budget_error = deny "INVALID_BUDGET" "invalid resource budget"

-- A budget without negative amounts, whose keys are identifiers.
unfoldable pub checked_budget : List (String × ℤ) → Result TaskError Budget
checked_budget [] = ok []
checked_budget ((key, negsuc n) ∷ rest) = err budget_error
checked_budget ((key, pos n) ∷ rest) = do
  require (is_run_identifier key) budget_error
  others ← checked_budget rest
  ok ((key, n) ∷ others)

-- `parent_work_item_id`
unfoldable pub check_parent_id : String → Option String → Result TaskError (Unit {0})
check_parent_id id none = ok tt
check_parent_id id (some parent) =
    require (is_run_identifier parent && not (str_eq parent id))
      (deny "INVALID_WORK_ITEM" "invalid parent_work_item_id")

abbrev pub item_error : String → TaskError
item_error message = deny "INVALID_WORK_ITEM" message

module _ (strip : String → String) where
  -- The checks on the texts of an item.
  unfoldable pub check_texts : WorkItem → Result TaskError (Unit {0})
  check_texts item = do
    require (is_run_identifier item.work_item_id) (item_error "invalid work_item_id")
    require (is_hex_digest 40 item.base_revision)
        (deny "INVALID_BASE_REVISION" "base_revision must be a full Git SHA-1")
    require (not (str_eq (strip item.objective) "") && leb (length (codes item.objective)) 8192)
        (item_error "objective is empty or too large")
    require (is_run_identifier item.workflow) (item_error "invalid workflow")
    require (is_run_identifier item.acceptance_plan_ref) (item_error "invalid acceptance_plan_ref")
    require (is_run_identifier item.authority_ref) (item_error "invalid authority_ref")

  -- `WorkItem.__post_init__`: the budget, which may be negative, stands apart from the other fields.
  unfoldable pub checked_item : WorkItem → List (String × ℤ) → Result TaskError WorkItem
  unfolding check_texts scopes sorted_texts sorted_names checked_budget check_parent_id
  checked_item item budget = do
    check_texts item
    allowed ← scopes item.allowed_paths
    protected ← scopes item.protected_paths
    refuse (is_empty allowed) (item_error "allowed_paths cannot be empty")
    require (is_subset item.requested_effects mcp_effects)
        (deny "UNKNOWN_EFFECT" "unknown requested effects")
    require (not (is_empty item.deliverables) && is_subset item.deliverables supported_deliverables)
        (item_error "unsupported deliverable set")
    resource_budget ← checked_budget budget
    check_parent_id item.work_item_id item.parent_work_item_id
    ok (record item {
      objective = strip item.objective;
      allowed_paths = sorted_texts allowed;
      protected_paths = sorted_texts protected;
      deliverables = sorted_names item.deliverables;
      requested_effects = sorted_names item.requested_effects;
      resource_budget = resource_budget;
    })
