-- ===== src/Coordination/OpenTasks.antt =====
-- What the open tasks of an authority request, described apart from the filters with which
-- `_check_aggregate_budget_unlocked` of pipeline/a2a_coordination.py counts them.
use formalspecgen.Coordination.{Task, is_terminal, text_in}
use formalspecgen.Coordination.Create.{amount, filter_tasks, is_active, total}
use formalspecgen.Prelude.{
  Bool-cases, List, String, [], arith, if◌then◌else◌, inl, inr, refl, str_eq, ℕ, ◌+◌, ◌∙◌, ◌∷◌, ◌≡◌,
}

-- The states in which nothing of a task is left to do.
abbrev pub final_states : List String
final_states = "completed" ∷ "failed" ∷ "cancelled" ∷ "rejected" ∷ []

-- The amounts of a key that the tasks of an authority and a principal ask for, those in a final state
-- left out.
abbrev pub committed : String → String → String → List Task → ℕ
committed key authority_sha256 principal_id [] = 0
committed key authority_sha256 principal_id (t ∷ ts) =
    (if text_in t.state final_states
      then 0
      else if str_eq t.authority_sha256 authority_sha256
      then (if str_eq t.principal_id principal_id
          then amount key t.work_item.resource_budget
          else 0)
      else 0)
    + committed key authority_sha256 principal_id ts

final_states-is_terminal : (s : String) → text_in s final_states ≡ is_terminal s
unfolding text_in is_terminal
final_states-is_terminal s = ground arith

-- A task counts for a new one exactly if it is in no final state and has its authority and principal.
pub total-committed :
    (key : String) (new : Task) (ts : List Task)
    → total key (filter_tasks (is_active new) ts)
      ≡ committed key new.authority_sha256 new.principal_id ts
unfolding total filter_tasks is_active
total-committed key new [] = refl
total-committed key new (t ∷ ts) =
    let ih = total-committed key new ts in
    let final = final_states-is_terminal t.state in
    elim (Bool-cases (is_terminal t.state)) [
      | inl over ↦ let out = final ∙ over in rw (is_active, over, out) (omega (arith, ih))
      | inr live ↦
          let inside = final ∙ live in
          elim (Bool-cases (str_eq t.authority_sha256 new.authority_sha256)) [
            | inr other ↦ rw (is_active, live, inside, other) (omega (arith, ih))
            | inl same ↦ elim (Bool-cases (str_eq t.principal_id new.principal_id)) [
              | inr other ↦ rw (is_active, live, inside, same, other) (omega (arith, ih))
              | inl owner ↦ rw (is_active, live, inside, same, owner) (omega (arith, ih))
            ]
          ]
    ]
