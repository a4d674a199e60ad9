-- ===== src/Coordination/Admission.antt =====
-- What `TaskStore.create` of pipeline/a2a_coordination.py admits.
use mathlib.Core.Path.{subst}
use formalspecgen.Coordination.{Budget, Task, TaskError, is_subset, text_in}
use formalspecgen.Coordination.Create.{
  amount, check_budget, check_parent, covered, create, create_new, filter_tasks, is_active, reopen,
  total, within_ceilings,
}
use formalspecgen.Coordination.Inclusion.{IsScopedBy, path_allowed-IsScopedBy}
use formalspecgen.Coordination.OpenTasks.{committed, total-committed}
use formalspecgen.Coordination.Scope.{scope}
use formalspecgen.Coordination.Store.{
  TaskEvent, Tasks, all_latest, append, authorize, load, with_flag,
}
use formalspecgen.Prelude.{
  All, All-of_all, [], or_true, ◌∷◌, Bool, Bool-cases, In, List, Option, String, all, ap, arith,
  eq_iff, if◌then◌else◌, inl, inr, ltb, none, refl, some, some_injective, str_eq, sym, true, ℕ, ◌+◌,
  ◌∙◌, ◌≡◌, ◌≤◌,
}
use formalspecgen.Result.{
  >>=-eq-ok, IsOk, Result, each-In, err, ok, ok_injective, ok_unit, refuse-eq-ok, require,
  require-eq-ok,
}

within_ceilings-In :
    (over_limit : TaskError) (requested : Budget) (others : List Task) (ceilings : Budget)
    (key : String) (ceiling : ℕ)
    → IsOk (within_ceilings over_limit requested others ceilings)
    → In (key, ceiling) ceilings
    → amount key requested + total key others ≤ ceiling
unfolding within_ceilings
within_ceilings-In over_limit requested others ceilings key ceiling h m =
    let one = each-In _ ceilings h (key, ceiling) m in
    let f = refuse-eq-ok (ltb ceiling (amount key requested + total key others)) over_limit one in
    ground arith

text_in-In : (s : String) (ts : List String) → text_in s ts ≡ true → In s ts
unfolding text_in
text_in-In s [] h = cc
text_in-In s (t ∷ ts) h = elim (or_true {a = str_eq s t} h) [
  | inl same ↦ inl ((eq_iff s t).0 same)
  | inr later ↦ inr (text_in-In s ts later)
]

pub is_subset-All : (xs ys : List String) → is_subset xs ys ≡ true → All (λ s. In s ys) xs
is_subset-All xs ys h = All-of_all (λ s. In s ys) (λ s. text_in s ys) xs (λ s. text_in-In s ys) h

-- What a check of the budgets that passes has found.
abbrev IsWithin : Task → Budget → List Task → Type 0
IsWithin new ceilings current =
    (key : String) (ceiling : ℕ)
    → In (key, ceiling) ceilings
    → amount key new.work_item.resource_budget + total key (filter_tasks (is_active new) current)
      ≤ ceiling

parent_checked :
    (digest : TaskEvent → String) (new : Task) (current : List Task) (tasks : Tasks)
    (parent_id : String) (p : Option String)
    → p ≡ some parent_id
    → IsOk (elim p [ none ↦ ok tt | some id ↦ check_parent digest new id current tasks ])
    → IsOk (check_parent digest new parent_id current tasks)
parent_checked digest new current tasks parent_id none e h = cc
parent_checked digest new current tasks parent_id (some id) e h =
    subst (λ i. IsOk (check_parent digest new i current tasks)) (some_injective e) h

-- The answer that a new task was recorded.
abbrev IsNewTask : Result TaskError (Task × Bool) × Tasks → Task → Tasks → Type 0
IsNewTask answer t tasks = answer ≡ (ok (t, true), tasks)

module _ (digest : TaskEvent → String) (new : Task) (ceilings : Budget) (tasks tasks' : Tasks)
    (t : Task) (fresh_task : create digest new ceilings tasks ≡ (ok (t, true), tasks')) where
  create_new-of :
      (tried : Result TaskError (Unit {0}))
      → check_budget digest new ceilings tasks ≡ tried
      → IsNewTask
          (elim tried [
            | ok _ ↦ with_flag digest true (append digest new tasks)
            | err e ↦ (err e, tasks)
          ])
          t
          tasks'
      → IsOk (check_budget digest new ceilings tasks)
        × IsNewTask (with_flag digest true (append digest new tasks)) t tasks'
  create_new-of (ok tt) ran h = (ran, h)
  create_new-of (err e) ran h = cc

  reopen-not_new : (existing : Task) → IsNewTask (reopen digest new existing, tasks) t tasks' → ⊥
  unfolding reopen
  reopen-not_new existing h =
      let (u, first, rest) =
        >>=-eq-ok (require (str_eq existing.request_sha256 new.request_sha256) _) _
          (ap (λ x. x.0) h) in
      cc rest

  create-inversion :
      (found : Result TaskError Task)
      → IsNewTask
          (elim found [
            | ok existing ↦ (reopen digest new existing, tasks)
            | err e ↦
                if str_eq e.code "TASK_NOT_FOUND"
                then create_new digest new ceilings tasks
                else (err e, tasks)
          ])
          t
          tasks'
      → IsOk (check_budget digest new ceilings tasks)
        × IsNewTask (with_flag digest true (append digest new tasks)) t tasks'
  unfolding create_new
  create-inversion (ok existing) h = absurd (reopen-not_new existing h)
  create-inversion (err e) h = elim (Bool-cases (str_eq e.code "TASK_NOT_FOUND")) [
    | inr other ↦ let q = rw other at h in cc q
    | inl absent ↦
        let q = rw absent at h in create_new-of (check_budget digest new ceilings tasks) refl q
  ]

  create-checked :
      IsOk (check_budget digest new ceilings tasks)
      × IsNewTask (with_flag digest true (append digest new tasks)) t tasks'
  unfolding create
  create-checked = create-inversion (load digest new.work_item_id tasks) fresh_task

  create_ceilings :
      (current : List Task) × (all_latest digest tasks ≡ ok current) × IsWithin new ceilings current
  unfolding check_budget
  create_ceilings =
      let (current, read, a) = >>=-eq-ok (all_latest digest tasks) _ create-checked.0 in
      let (u, fits, b) =
        >>=-eq-ok
          (within_ceilings _ new.work_item.resource_budget (filter_tasks (is_active new) current)
            ceilings)
          _ a in
      (
        current,
        read,
        λ key ceiling m.
            within_ceilings-In _ new.work_item.resource_budget
              (filter_tasks (is_active new) current) ceilings key ceiling (ok_unit _ fits) m,
      )

  create-parent :
      (parent_id : String)
      → new.work_item.parent_work_item_id ≡ some parent_id
      → (parent : Task) × (load digest parent_id tasks ≡ ok parent)
        × (parent.principal_id ≡ new.principal_id)
        × (is_subset new.work_item.requested_effects parent.work_item.requested_effects ≡ true)
        × (all (covered parent.work_item.allowed_paths) new.work_item.allowed_paths ≡ true)
        × (all (covered new.work_item.protected_paths) parent.work_item.protected_paths ≡ true)
  unfolding check_budget check_parent authorize
  create-parent parent_id child =
      let (current, read, a) = >>=-eq-ok (all_latest digest tasks) _ create-checked.0 in
      let (u, fits, b) =
        >>=-eq-ok
          (within_ceilings _ new.work_item.resource_budget (filter_tasks (is_active new) current)
            ceilings)
          _ a in
      let c =
        parent_checked digest new current tasks parent_id new.work_item.parent_work_item_id child
          b in
      let (parent, found, d) = >>=-eq-ok (load digest parent_id tasks) _ c in
      let (v, owned, e) = >>=-eq-ok (require (str_eq parent.principal_id new.principal_id) _) _ d in
      let (w, effects, f) =
        >>=-eq-ok
          (require (is_subset new.work_item.requested_effects parent.work_item.requested_effects) _)
          _ e in
      let (x, paths, g) =
        >>=-eq-ok
          (require (all (covered parent.work_item.allowed_paths) new.work_item.allowed_paths) _) _
          f in
      let (y, kept_paths, h) =
        >>=-eq-ok
          (require (all (covered new.work_item.protected_paths) parent.work_item.protected_paths) _)
          _ g in
      (
        parent,
        found,
        (eq_iff parent.principal_id new.principal_id).0 (require-eq-ok _ _ owned),
        require-eq-ok _ _ effects,
        require-eq-ok _ _ paths,
        require-eq-ok _ _ kept_paths,
      )

-- A task is created within the budget of its authority. If a new task is created, then for every key of
-- the ceilings what it requests, with what the tasks of the same authority and principal request that are
-- in no final state, is at most the ceiling.
pub create-IsWithin :
    (digest : TaskEvent → String) (new : Task) (ceilings : Budget) (tasks tasks' : Tasks) (t : Task)
    (key : String) (ceiling : ℕ)
    → create digest new ceilings tasks ≡ (ok (t, true), tasks')
    → In (key, ceiling) ceilings
    → (current : List Task) × (all_latest digest tasks ≡ ok current)
      × (amount key new.work_item.resource_budget
            + committed key new.authority_sha256 new.principal_id current
          ≤ ceiling)
create-IsWithin digest new ceilings tasks tasks' t key ceiling fresh_task m =
    let (current, read, within) = create_ceilings digest new ceilings tasks tasks' t fresh_task in
    let fits = within key ceiling m in
    (current, read, omega (arith, fits, total-committed key new current))

-- A child task stays within its parent. If a new task is created and its parent loads, then the parent has
-- the same principal, all effects that the child requests are among those of the parent, and if the
-- allowed scopes of the parent come from the normalisation of scopes, then every path is not allowed by
-- the child, or allowed by the parent, or the root of a tree that the parent allows.
pub create-IsChild :
    (digest : TaskEvent → String) (new : Task) (ceilings : Budget) (tasks tasks' : Tasks)
    (t parent : Task) (parent_id : String) (path : List ℕ)
    → create digest new ceilings tasks ≡ (ok (t, true), tasks')
    → new.work_item.parent_work_item_id ≡ some parent_id
    → load digest parent_id tasks ≡ ok parent
    → ((s : List ℕ) → In s parent.work_item.allowed_paths → (raw : List ℕ) × (scope raw ≡ ok s))
    → (parent.principal_id ≡ new.principal_id)
      × All (λ effect. In effect parent.work_item.requested_effects) new.work_item.requested_effects
      × IsScopedBy path new.work_item.allowed_paths parent.work_item.allowed_paths
create-IsChild digest new ceilings tasks tasks' t parent parent_id path fresh_task child
      reads_parent normal =
    let (found, read, same, effects, paths, rest) =
      create-parent digest new ceilings tasks tasks' t fresh_task parent_id child in
    let e : found ≡ parent = ok_injective (sym read ∙ reads_parent) in
    (
      ap (λ (x : Task). x.principal_id) (sym e) ∙ same,
      is_subset-All new.work_item.requested_effects parent.work_item.requested_effects (
          subst
            (λ (x : Task).
              is_subset new.work_item.requested_effects x.work_item.requested_effects ≡ true)
            e effects),
      path_allowed-IsScopedBy parent.work_item.allowed_paths new.work_item.allowed_paths path normal
          (subst
            (λ (x : Task).
              all (covered x.work_item.allowed_paths) new.work_item.allowed_paths ≡ true)
            e paths),
    )
