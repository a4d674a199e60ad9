-- ===== src/Agentic/Gateway.antt =====
-- pipeline/agentic/action_gateway.py: the execution of a planned action on one snapshot of the source.
-- The file system and the two workflows are a value: what they answer at one execution.

use formalspecgen.Agentic.{AgentError, Goal, Observation, PlannedAction, fail}
use formalspecgen.Domain.References.{member}
use formalspecgen.Prelude.{Bool, List, [], ◌++◌, ◌∷◌, Option, String, if◌then◌else◌, leb, str_eq, ℕ}
use formalspecgen.Result.{Result, err, ok, or_raise, require}

pub record Snapshot : Type 0 where
  -- Whether the resolved source stays inside the workspace, and whether it is a file.
  pub inside : Bool
  pub is_file : Bool
  -- The digest of the source before and behind the workflow.
  pub before : String
  pub behind : String
  -- The results of the workflows; `none` is one that is no mapping.
  pub inspect : Option Observation
  pub verify : Option Observation
  pub encoded_size : Observation → ℕ

-- A result or an exception, and the workflows that were called until then.
abbrev pub Calls : Type 0 → Type 0
Calls A = Result AgentError A × List String

infixl 5 ◌>>=◌ ◌>>◌
abbrev pub ◌>>=◌ : {A B : Type 0} → Calls A → (A → Calls B) → Calls B
(ok a, calls) >>= f = let (r, more) = f a in (r, calls ++ more)
(err e, calls) >>= f = (err e, calls)

abbrev pub ◌>>◌ : {A B : Type 0} → Calls A → Calls B → Calls B
m >> k = m >>= λ _. k

-- A test, or an exception.
abbrev pub demand : Bool → AgentError → Calls (Unit {0})
demand b e = (require b e, [])

abbrev pub called : String → Option Observation → Calls (Option Observation)
called workflow answer = (ok answer, workflow ∷ [])

abbrev pub structured : Option Observation → Calls Observation
structured answer =
    (or_raise answer (fail "ACTION_RESULT_INVALID" "workflow result is not structured"), [])

module _ (permits : String → Bool) (world : Snapshot) where
  -- `_require`
  unfoldable pub require_permission : String → Calls (Unit {0})
  require_permission effect = demand (permits effect) (fail "EFFECT_NOT_AUTHORIZED" effect)

  unfoldable pub run_workflow : String → Calls (Option Observation)
  unfolding require_permission
  run_workflow workflow =
      if str_eq workflow "inspect"
      then called "inspect" world.inspect
      else if str_eq workflow "verify"
      then require_permission "external_execution"
        >> (require_permission "evidence_publication" >> called "verify" world.verify)
      else (err (fail "UNKNOWN_ACTION" "the plan requested an unknown action"), [])

  unfoldable pub bounded_result : Observation → Calls Observation
  bounded_result result =
      demand (leb (world.encoded_size result) 2097152)
        (fail "ACTION_RESULT_LIMIT_EXCEEDED" "workflow result exceeds the run limit")
      >> (ok result, [])

  -- What follows a workflow.
  unfoldable pub check_answer : Goal → Option Observation → Calls Observation
  unfolding bounded_result
  check_answer goal answer = do
    result ← structured answer
    demand (str_eq world.behind goal.source_sha256)
        (fail "SOURCE_SNAPSHOT_MISMATCH" "source changed while the action was running")
    bounded_result result

  unfoldable pub execute : Goal → PlannedAction → Calls Observation
  unfolding require_permission run_workflow check_answer
  execute goal action = do
    demand (member action.workflow goal.permitted_workflows)
        (fail "ACTION_NOT_AUTHORIZED" "planned workflow is not permitted")
    demand world.inside (fail "PATH_SCOPE_DENIED" "source escapes the workspace")
    demand world.is_file (fail "SOURCE_UNAVAILABLE" "approved source is unavailable")
    require_permission "workspace_read"
    demand (str_eq world.before goal.source_sha256)
        (fail "SOURCE_SNAPSHOT_MISMATCH" "source bytes changed after the goal was approved")
    answer ← run_workflow action.workflow
    check_answer goal answer
