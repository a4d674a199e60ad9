-- ===== src/Tests/Agents.antt =====
-- A run of the supervised workflow, step by step.

use formalspecgen.Agentic.{
  AgentError, Goal, Observation, PlannedAction, RunRecord, is_terminal, planned, running,
}
use formalspecgen.Agentic.Acceptance.{Review, action_succeeded, build_review, nothing_observed}
use formalspecgen.Agentic.Access.{denied, foreign_run_denied}
use formalspecgen.Agentic.Chain.{TellsApart, load-append, load_events_injective}
use formalspecgen.Agentic.Execution.{Executed, IsCleared, OnlyIf, execute-Executed, execute-calls}
use formalspecgen.Agentic.Gateway.{
  Snapshot, bounded_result, check_answer, execute, require_permission, run_workflow,
}
use formalspecgen.Agentic.Planner.{
  completed_workflows, is_prefix, next_action, planned_action, within_budget,
}
use formalspecgen.Agentic.Runs.{
  IsPlanned, RunReach, RunReach-IsPlanned, claims, created, observes, stepped,
}
use formalspecgen.Agentic.Store.{
  Codec, Directory, Event, append, check_chain, create, get, last_of, load_events, new_record,
  publish_review, update,
}
use formalspecgen.Agentic.Supervisor.{
  advance, mutate_cancel, mutate_claim, mutate_observe, with_observation,
}
use formalspecgen.Agentic.Termination.{advance_total}
use formalspecgen.Domain.References.{member}
use formalspecgen.Prelude.{
  Bool, In, String, [], ap, eq_iff, event_files, length, ◌<◌, ◌≤◌, ◌⊎◌, inl, inr, none, refl, some,
  str_eq, sym, true, ◌∙◌, ◌∷◌, ◌≡◌, ◌≢◌,
}
use formalspecgen.Result.{err, ok}

abbrev goal : Goal
goal = record {
  run_id = "run-1";
  request_sha256 = "request";
  permitted_workflows = "inspect" ∷ "verify" ∷ [];
  proposed_actions = "inspect" ∷ "verify" ∷ [];
  source_sha256 = "source";
  max_actions = 2;
}

abbrev plain_codec : Codec
plain_codec = record {
  digest = λ e. e.content.run_id;
  encode = λ r. r.claim;
  sha256 = λ s. s;
  size = λ s. 0;
  is_blank = λ s. str_eq s "";
}

abbrev inspect : PlannedAction
inspect = record { sequence = 1; workflow = "inspect" }

abbrev fresh : RunRecord
fresh = new_record plain_codec goal "someone"

abbrev inspected : Observation
inspected = record nothing_observed { status = some "INSPECTED" }

abbrev claimed : RunRecord
claimed = record fresh { state = running; active_action = some inspect }

-- A second controller planned the same action from the fresh record, and observes it first.
abbrev observed : RunRecord
observed = record claimed {
  state = planned;
  active_action = none;
  actions =
      record { sequence = 1; workflow = "inspect"; succeeded = true; result = inspected } ∷ [];
}

observed-RunReach : RunReach goal "someone" plain_codec observed
unfolding new_record next_action mutate_claim mutate_observe with_observation action_succeeded
    is_prefix completed_workflows within_budget planned_action is_terminal
observed-RunReach =
    stepped (stepped created (claims fresh inspect refl refl))
      (observes fresh inspect inspected refl refl)

RunReach-IsPlanned_example : IsPlanned goal observed
RunReach-IsPlanned_example = RunReach-IsPlanned goal "someone" plain_codec observed-RunReach

abbrev first_event : Event
first_event = record { sequence = 1; previous_sha256 = none; content = fresh }

abbrev one_event : Directory
one_event = record { events = (first_event, "run-1") ∷ []; review = none }

one_event_loads : load_events plain_codec (event_files one_event.events) ≡ ok fresh
unfolding event_files load_events check_chain last_of new_record
one_event_loads = refl

load-append_example :
    ((length one_event.events < 999999)
      × ((append plain_codec claimed one_event).0 ≡ ok claimed)
      × (load_events plain_codec (event_files (append plain_codec claimed one_event).1.events)
          ≡ ok claimed))
    ⊎ ((999999 ≤ length one_event.events)
        × (load_events plain_codec (event_files (append plain_codec claimed one_event).1.events)
            ≡ ok fresh))
load-append_example = load-append plain_codec one_event fresh claimed one_event_loads

one_event_reads : load_events plain_codec one_event.events ≡ ok fresh
unfolding load_events check_chain last_of new_record
one_event_reads = refl

one_event_apart : TellsApart plain_codec one_event.events one_event.events
one_event_apart e f o u i j h = elim i [
  | inl p ↦ elim j [
    | inl q ↦ ap (λ (x : Event × String). x.0) (p ∙ sym q)
    | inr none_left ↦ absurd none_left
  ]
  | inr none_left ↦ absurd none_left
]

load_events_injective_example : one_event.events ≡ one_event.events
load_events_injective_example =
    load_events_injective plain_codec (first_event, "run-1") (first_event, "run-1") [] [] fresh
      fresh one_event_apart one_event_reads one_event_reads refl refl

someone_else : fresh.principal_id ≢ "other"
unfolding new_record
someone_else e = let q = (eq_iff "someone" "other").1 e in cc q

abbrev review : Review
review = build_review goal fresh

foreign_run_denied_example :
    (get plain_codec "other" one_event ≡ (err denied, one_event))
    × (update plain_codec "other" mutate_cancel one_event ≡ (err denied, one_event))
    × (publish_review plain_codec "other" review one_event ≡ (err denied, one_event))
    × ((e : AgentError) × (create plain_codec goal "other" one_event ≡ (err e, one_event))
        × (e.code ≡ "RUN_ACCESS_DENIED"))
foreign_run_denied_example =
    foreign_run_denied plain_codec one_event fresh "other" mutate_cancel review goal one_event_loads
      someone_else

abbrev world : Snapshot
world = record {
  inside = true;
  is_file = true;
  before = "source";
  behind = "source";
  inspect = some inspected;
  verify = none;
  encoded_size = λ o. 100;
}

abbrev may_read : String → Bool
may_read effect = str_eq effect "workspace_read"

inspect_executed : (execute may_read world goal inspect).0 ≡ ok inspected
unfolding execute require_permission run_workflow check_answer bounded_result member
inspect_executed = refl

execute-calls_example :
    OnlyIf
      (IsCleared may_read world goal "inspect")
      (execute may_read world goal inspect).1
      "inspect"
execute-calls_example = execute-calls may_read world goal inspect

execute-Executed_example :
    In "inspect" goal.permitted_workflows
    × (may_read "workspace_read" ≡ true)
    × (world.before ≡ goal.source_sha256)
    × (world.behind ≡ goal.source_sha256)
    × Executed may_read world "inspect" inspected
execute-Executed_example = execute-Executed may_read world goal inspect inspected inspect_executed

advance_total_example :
    (advance plain_codec (λ s. true) (λ g a. ok nothing_observed) 3 goal "someone" one_event).0
    ≢ ok none
advance_total_example =
    advance_total plain_codec (λ s. true) (λ g a. ok nothing_observed) goal "someone" one_event
