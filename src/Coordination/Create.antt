-- ===== src/Coordination/Create.antt =====
-- `TaskStore.create` of pipeline/a2a_coordination.py, and the budgets that it checks.
use formalspecgen.Coordination.{
  Budget, Task, TaskError, deny, is_subset, is_terminal, limit_of, option_eq,
}
use formalspecgen.Coordination.Scope.{scope_contains}
use formalspecgen.Coordination.Store.{
  TaskEvent, Tasks, all_latest, append, authorize, load, with_flag,
}
use formalspecgen.Prelude.{
  Bool, List, String, [], all, any, false, if◌then◌else◌, ltb, none, not, some, str_eq, true, ℕ,
  ◌&&◌, ◌+◌, ◌∷◌,
}
use formalspecgen.Result.{Result, each, err, ok, refuse, require, ◌>>=◌, ◌>>◌}

-- `int(budget.get(key, 0))`
unfoldable pub amount : String → Budget → ℕ
unfolding limit_of
amount key budget = elim (limit_of key budget) [ none ↦ 0 | some n ↦ n ]

unfoldable pub total : String → List Task → ℕ
unfolding amount
total key [] = 0
total key (t ∷ ts) = amount key t.work_item.resource_budget + total key ts

unfoldable pub filter_tasks : (Task → Bool) → List Task → List Task
filter_tasks p [] = []
filter_tasks p (t ∷ ts) = let rest = filter_tasks p ts in if p t then t ∷ rest else rest

-- The tasks that count against the budget of the authority of a new one.
unfoldable pub is_active : Task → Task → Bool
unfolding is_terminal
is_active new t =
    not (is_terminal t.state)
    && (str_eq t.authority_sha256 new.authority_sha256 && str_eq t.principal_id new.principal_id)

unfoldable pub is_sibling : String → Task → Bool
unfolding is_terminal
is_sibling parent_id t =
    not (is_terminal t.state) && option_eq t.work_item.parent_work_item_id (some parent_id)

-- The loop over the ceilings: what is requested and what the other tasks have is within each.
unfoldable pub within_ceilings :
    TaskError → Budget → List Task → Budget → Result TaskError (Unit {0})
unfolding amount total
within_ceilings over_limit requested others ceilings =
    each (λ (c : String × ℕ). refuse (ltb c.1 (amount c.0 requested + total c.0 others)) over_limit)
      ceilings

-- `any(_scope_contains(outer, scope) for outer in outers)`
abbrev pub covered : List (List ℕ) → List ℕ → Bool
covered outers path = any (λ outer. scope_contains outer path) outers

module _ (digest : TaskEvent → String) where
  -- The part of `_check_aggregate_budget_unlocked` about the parent.
  unfoldable pub check_parent : Task → String → List Task → Tasks → Result TaskError (Unit {0})
  unfolding load authorize filter_tasks is_sibling within_ceilings
  check_parent new parent_id current tasks = do
    parent ← load digest parent_id tasks
    authorize digest parent new.principal_id
    require (is_subset new.work_item.requested_effects parent.work_item.requested_effects)
        (deny "PARENT_AUTHORITY_DENIED" "child task widens parent effects")
    require (all (covered parent.work_item.allowed_paths) new.work_item.allowed_paths)
        (deny "PARENT_AUTHORITY_DENIED" "child task widens parent path scope")
    require (all (covered new.work_item.protected_paths) parent.work_item.protected_paths)
        (deny "PARENT_AUTHORITY_DENIED" "child task drops a parent protected path scope")
    within_ceilings (deny "PARENT_BUDGET_DENIED" "child tasks exceed parent budget")
        new.work_item.resource_budget (filter_tasks (is_sibling parent_id) current)
        parent.work_item.resource_budget

  -- `_check_aggregate_budget_unlocked`
  unfoldable pub check_budget : Task → Budget → Tasks → Result TaskError (Unit {0})
  unfolding all_latest filter_tasks is_active within_ceilings check_parent
  check_budget new aggregate_ceiling tasks = do
    current ← all_latest digest tasks
    within_ceilings (deny "AGGREGATE_BUDGET_DENIED" "active worker tasks exceed aggregate budget")
        new.work_item.resource_budget (filter_tasks (is_active new) current) aggregate_ceiling
    elim new.work_item.parent_work_item_id [
      | none ↦ ok tt
      | some parent_id ↦ check_parent new parent_id current tasks
    ]

  -- A name that is bound already.
  unfoldable pub reopen : Task → Task → Result TaskError (Task × Bool)
  reopen new existing = do
    require (str_eq existing.request_sha256 new.request_sha256)
        (deny "IDEMPOTENCY_CONFLICT" "work_item_id is already bound to a different request")
    ok (existing, false)

  -- A new name.
  unfoldable pub create_new : Task → Budget → Tasks → Result TaskError (Task × Bool) × Tasks
  unfolding check_budget append
  create_new new aggregate_ceiling tasks = elim (check_budget new aggregate_ceiling tasks) [
    | ok _ ↦ with_flag digest true (append digest new tasks)
    | err e ↦ (err e, tasks)
  ]

  -- `create`
  unfoldable pub create : Task → Budget → Tasks → Result TaskError (Task × Bool) × Tasks
  unfolding load reopen create_new
  create new aggregate_ceiling tasks = elim (load digest new.work_item_id tasks) [
    | ok existing ↦ (reopen new existing, tasks)
    | err e ↦
        if str_eq e.code "TASK_NOT_FOUND"
        then create_new new aggregate_ceiling tasks
        else (err e, tasks)
  ]
