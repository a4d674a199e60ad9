-- ===== src/Lib.antt =====
-- formalspecgen turns a reviewed candidate domain (state variables with bounds, operations with
-- guards and effects, invariants, and possibly a lock protocol among actors) into specifications
-- and certificates. This library models the part that decides what is certified: the typed schema
-- of the domain, its evaluator, the bounded exploration of its states, the static deadlock
-- analysis, the canonical form of its invariants, the injection of network faults, the supervisor
-- that runs inspection and verification for an agent, and the coordination of tasks that are
-- dispatched to remote workers, the ledger of evidence, and the liveness check of a declared graph.
--
-- The parts and the files.
--   pipeline/domain_v2.py, the schema. Domain: the pydantic models as records, the expression union
--   as a data type with one constructor for each `kind`. Domain.References: `_referenced_fields`.
--   Domain.Typing: `_expression_type`. Domain.Fields: the validators of the single models.
--   Domain.Schema: `DomainSpecV2.unique_names`, the validation across the fields of a domain.
--   Domain.Accepted takes its checks apart, and Model.Accepted and Model.Progress relate an
--   accepted domain to the evaluator.
--   pipeline/domain_v2_model.py, the bounded evaluator. Model.Value: the operators on Python's
--   scalars. Model.Evaluate: `evaluate_expression`, `guards_hold`, `apply_effects`. Model.State:
--   `_freeze`, `_check_bounds`, `_check_invariants`. Model.Frontier: `_BoundedFrontier`.
--   Model.Atomic: the initial state and the body of the loop for atomic operations. Model.Lock:
--   `_enqueue_lock_protocol_successors`. Model.Explore: `validate_transitions_and_invariants`.
--   Model.Deadlock: `_evaluate3` and `static_deadlock_findings`. The other files under Model are
--   about these: Model.Reach is the step relation that the exploration is compared with, Model.Safe
--   says what a checked state is, and Model.Agree, Model.Same, Model.Simulate, Model.Runs,
--   Model.Growth, Model.Visit, Model.VisitLock, Model.Closure, Model.Budget and Model.Termination
--   hold the lemmas on the loop.
--   pipeline/v2_invariants.py, the canonical conjunctions that the serialisers print. Invariants:
--   `_normalize_comparison` and `_conjuncts`. Invariants.Canonical:
--   `canonical_invariant_expressions`, with the text that pydantic dumps as a parameter.
--   Invariants.Meaning and Invariants.Equivalence relate them to the evaluator.
--   pipeline/distributed.py, message loss, duplication and reordering. Distributed:
--   `inject_fault_actions`. Distributed.Verify: `verify_distributed` and `state_space_upper_bound`.
--   Distributed.Faults says what a fault of the network is, Distributed.Refines relates the two.
--   pipeline/agentic, the supervised two-step workflow. Agentic: the goal and the record of a run.
--   Agentic.Planner: planner.py. Agentic.Gateway: action_gateway.py. Agentic.Acceptance:
--   acceptance.py. Agentic.Store: state_store.py. Agentic.Supervisor: supervisor.py. Agentic.Runs:
--   the updates of a run as a step relation. Agentic.Chain: the chain of events. Agentic.Access:
--   runs of another principal. Agentic.Execution: what the gateway calls and returns.
--   Agentic.Bound and Agentic.Termination: the loop of the supervisor.
--   pipeline/a2a_coordination.py, work items for remote workers. Coordination: work items, grants,
--   worker profiles and the record of a task. Coordination.Scope: `_scope`, `_scope_prefix`,
--   `_scope_contains` and `_path_allowed`; Coordination.Containment, Coordination.Normal and
--   Coordination.Inclusion are about them. Coordination.Transitions: what `begin_dispatch`,
--   `renew_dispatch_lease`, `claim_reconciliation` and `request_cancellation` of `TaskStore` do to
--   a record. Coordination.Reports: what `transition_remote_event` does to it. Coordination.Steps:
--   these as a step relation, without `update`, which no coordinator calls, with
--   Coordination.Events, Coordination.Outcomes, Coordination.Once, Coordination.Leases and
--   Coordination.Sound about it. Coordination.Store: the event chains, `_load_unlocked`,
--   `_append_unlocked`, `_authorize`, and how a method loads, changes and appends;
--   Coordination.Readback is about it. Coordination.Create: `_check_aggregate_budget_unlocked` and
--   `create`, with Coordination.OpenTasks and Coordination.Admission about them.
--   Coordination.Items: `WorkItem.__post_init__`, with Coordination.Checked about it.
--   Coordination.Authority: `_authorize` and `_validate_result` of `A2ACoordinator`, with
--   Coordination.Grants about them. Coordination.Calls: `_effective_item`, `_apply_observation` and
--   `_cancel_remote`. Coordination.Dispatching: `submit`, `get` and `cancel`, without `artifacts`.
--   Coordination.Reported: the steps and events of a coordinator. Coordination.Evolution,
--   Coordination.Keeping, Coordination.Composed, Coordination.Refines and Coordination.Operations
--   relate the coordinator to the steps of its tasks.
--   pipeline/lifecycle.py, the ledger of a run. Ledger: `_validate_artifacts` and
--   `validate_captured`. Ledger.Publish: `_publish_json`, `record`, `commit` and `validate`.
--   Ledger.Chained, Ledger.Committed and Ledger.Captured are about them.
--   pipeline/realtime.py: Liveness, `liveness_check` and what it shows.
--   Prelude, Result: shared lists, integers, tests, the files of events, and exceptions. Samples,
--   Tests: concrete domains, runs, and the theorems applied to them.
-- The schema's expressions are read by all parts up to the supervisor, which calls them through
-- its gateway only; the coordination, the ledger and the liveness check do not know of them. The
-- exploration calls the evaluator for guards, effects and invariants, and passes every new state
-- to the frontier, which charges the budgets, checks bounds and invariants, and queues the state.
--
-- How the code is modelled.
--   An exception is an error of Result, with one constructor for each place that raises. A Python
--   `int` is an integer, a `bool` counts as an `int` in comparisons and arithmetic, and a dict is
--   an association list that is updated in place. The bookkeeping keys of a state, "__pc",
--   "__pending" and "callResult", are fields of a record. Sets are lists whose order does not
--   matter. Two states are the same if `_freeze` gives the same key, which the model tests field by
--   field.
--   The loop over the queue takes `max_states` as fuel, and its result is an Option whose `none`
--   means that the fuel ran out with states still queued. Every round removes a discovered state
--   from the queue, and no more than `max_states` are discovered. The limits are natural numbers.
--   The recursion of `_conjuncts` on a normalised operand takes fuel too: the depth of the
--   expression is enough. The search under network faults has no budget in the source: its fuel is
--   an argument, and nothing is claimed of the rounds that it needs. The loop of the supervisor
--   takes fuel for its rounds.
--   The directory of a run is a value, and what was written stays when an exception is raised. The
--   digest of an event, the text of a review, the gateway that executes an action, and the
--   admission of effects are parameters. Times and paths are left out of records.
--   The tasks are a list of directories in the order of their names, each with its events. Clocks,
--   identifiers of attempts, deadlines and the digest of an event are arguments; of the times a
--   record keeps the deadlines of its leases. The client of the workers is a parameter, a call of
--   it a computation on the tasks, since other coordinators use the store while it waits; so are
--   `str.strip`, the name of a state in lower case, and derived identifiers. A budget is a list of
--   natural numbers, a path scope the list of its code points. A scope that is normalised has no
--   wildcard but "**" at its end, for which the pattern matching of the standard library is a test
--   of a beginning. Prelude.Files has the limit of `_events`: of the files of events only those
--   with names of six digits are read. An event stands for the text of its file: that JSON reads
--   back what it wrote is taken for granted, and a file that was put there by others is not
--   modelled.
--   The bytes of a file of the ledger are a type of their own, whose formats, digest and size are
--   parameters. The values of a graph, their equality and the text of a sorted state are
--   parameters.
--
-- Not modelled: text, files, signatures and network (the serialisers, the command line, the MCP
-- server, approvals, the registry of keys), the front ends that read source text, and the calls of
-- TLC, OpenJML, Frama-C and other provers. Of pipeline/domain_v2.py the parsing by pydantic, of
-- pipeline/agentic the validation of a goal and the run reader, of pipeline/a2a_coordination.py the
-- reading of the policy file and the client of the A2A protocol, of pipeline/lifecycle.py the
-- normalisation of diagnostics, and of pipeline/realtime.py the deadlines.
pub mod Prelude
pub mod Result
pub mod Domain
pub mod Model
pub mod Invariants
pub mod Distributed
pub mod Agentic
pub mod Coordination
pub mod Liveness
pub mod Ledger
pub mod Samples
pub mod Tests
