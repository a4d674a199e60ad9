-- ===== src/Distributed/Verify.antt =====
-- `verify_distributed` of pipeline/distributed.py, and `state_space_upper_bound` of
-- pipeline/domain_v2_model.py. Reading the file is not modelled: what it gave is an argument. The
-- search has no budget of its own in the source: it takes fuel, one round for each state taken from
-- the queue, and `none` is the end of the fuel.
use mathlib.Core.Option
use formalspecgen.Distributed.{FaultError, inject_fault_actions, span}
use formalspecgen.Domain.{
  DomainSpec, ExecutionModel, Invariant, Operation, StateVariable, async_message_passing,
  bool_variable, int_variable,
}
use formalspecgen.Domain.Fields.{is_empty}
use formalspecgen.Domain.References.{member}
use formalspecgen.Domain.Schema.{declared_names}
use formalspecgen.Model.Atomic.{has_lock_protocol, has_results, initial_fields}
use formalspecgen.Model.Evaluate.{Error, Fields, apply_effects, evaluate_expression, guards_hold}
use formalspecgen.Model.State.{fields_eq}
use formalspecgen.Model.Value.{truth}
use formalspecgen.Prelude.{
  Bool, List, Option, String, [], any, false, if◌then◌else◌, length, ltb, map, none, some, suc,
  true, zero, ℕ, ◌*◌, ◌++◌, ◌+◌, ◌^◌, ◌∷◌,
}
use formalspecgen.Result.{Result, each, err, for_each, ok, require, ◌>>=◌}

-- Bounds are not empty, as the schema demands; a factor is a natural number.
unfoldable pub range_size : StateVariable → ℕ
range_size (bool_variable _) = 2
range_size (int_variable v) = span v.lower v.upper

unfoldable pub product : List ℕ → ℕ
product [] = 1
product (n ∷ ns) = n * product ns

unfoldable pub state_space_upper_bound : DomainSpec → ℕ
state_space_upper_bound spec =
    product (map range_size spec.state_variables)
    * (if has_results spec then 3 ^ spec.actors else 1)
    * (if has_lock_protocol spec then (1 + 4 * length spec.operations) ^ spec.actors else 1)

-- What ends the search early: an exception of the evaluator, or a violated invariant with the
-- operation and the state.
pub data Halt : Type 0 where
  raised : Error → Halt
  violated : String → String → Fields → Halt

pub record Search : Type 0 where
  pub seen : List Fields
  pub queue : List Fields

unfoldable pub lift : {A : Type 0} → Result Error A → Result Halt A
lift (ok a) = ok a
lift (err e) = err (raised e)

unfoldable pub enqueue : Fields → Search → Search
enqueue s search =
    if any (fields_eq s) search.seen
    then search
    else record { seen = search.seen ++ s ∷ []; queue = search.queue ++ s ∷ [] }

unfoldable pub check_successor : String → Fields → Invariant → Result Halt (Unit {0})
check_successor name s i = do
  v ← lift (evaluate_expression i.expression s)
  require (truth v) (violated i.id name s)

-- One operation at one state.
unfoldable pub try_operation : DomainSpec → Fields → Operation → Search → Result Halt Search
try_operation spec s op search = do
  enabled ← lift (guards_hold op s)
  if enabled
      then (lift (apply_effects op s) >>= λ successor.
          each (check_successor op.name successor) spec.tlc_invariants >>= λ _.
          ok (enqueue successor search))
      else ok search

unfoldable pub explore_round :
    (Search → Option (Result Halt Search))
    → DomainSpec
    → List Fields
    → List Fields
    → Option (Result Halt Search)
explore_round loop spec seen [] = some (ok (record { seen = seen; queue = [] }))
explore_round loop spec seen (s ∷ rest) =
    elim (for_each (try_operation spec s) spec.operations (record { seen = seen; queue = rest })) [
      | ok search ↦ loop search
      | err halt ↦ some (err halt)
    ]

unfoldable pub explore : ℕ → DomainSpec → Search → Option (Result Halt Search)
explore zero spec search = none
explore (suc fuel) spec search = explore_round (explore fuel spec) spec search.seen search.queue

-- What reading the file gave.
pub data Source : Type 0 where
  unavailable_file unreadable : Source
  loaded : DomainSpec → Source

pub data Verdict : Type 0 where
  input_unavailable domain_unreadable async_model_required state_space_exceeded : Verdict
  unknown_fault unknown_message_field : List String → Verdict
  injection_failed : FaultError → Verdict
  evaluation_failed : Error → Verdict
  invariant_violated : String → String → Fields → Verdict
  safety_proved : ℕ → ℕ → Verdict

abbrev pub known_faults : List String
known_faults = "message_loss" ∷ "duplication" ∷ "reordering" ∷ []

-- `[x for x in xs if x not in names]`
unfoldable pub absent_from : List String → List String → List String
absent_from names [] = []
absent_from names (x ∷ xs) =
    let rest = absent_from names xs in if member x names then rest else x ∷ rest

abbrev pub is_async : Option ExecutionModel → Bool
is_async none = false
is_async (some async_message_passing) = true

unfoldable pub with_operations : DomainSpec → List Operation → DomainSpec
with_operations spec ops = record spec { operations = spec.operations ++ ops }

unfoldable pub initial_search : DomainSpec → Search
initial_search spec =
    let initial = initial_fields spec.state_variables in
    record { seen = initial ∷ []; queue = initial ∷ [] }

unfoldable pub search_verdict : ℕ → Result Halt Search → Verdict
search_verdict injected (ok search) = safety_proved injected (length search.seen)
search_verdict injected (err (raised e)) = evaluation_failed e
search_verdict injected (err (violated i name s)) = invariant_violated i name s

unfoldable pub verify_injected :
    ℕ → DomainSpec → Result FaultError (List Operation) → Option Verdict
verify_injected fuel spec (err e) = some (injection_failed e)
verify_injected fuel spec (ok fault_ops) =
    let faulted = with_operations spec fault_ops in
    if ltb 100000 (state_space_upper_bound faulted)
    then some state_space_exceeded
    else Option.map (search_verdict (length fault_ops)) (explore fuel faulted (initial_search spec))

unfoldable pub verify_loaded : ℕ → DomainSpec → List String → List String → Option Verdict
verify_loaded fuel spec faults message_fields =
    if is_async spec.execution_model
    then (if is_empty (absent_from (declared_names spec) message_fields)
        then verify_injected fuel spec (inject_fault_actions spec faults message_fields)
        else some (unknown_message_field (absent_from (declared_names spec) message_fields)))
    else some async_model_required

unfoldable pub verify_distributed : ℕ → Source → List String → List String → Option Verdict
verify_distributed fuel unavailable_file faults message_fields = some input_unavailable
verify_distributed fuel source faults message_fields =
    if is_empty (absent_from known_faults faults)
    then (elim source [
      | loaded spec ↦ verify_loaded fuel spec faults message_fields
      | _ ↦ some domain_unreadable
    ])
    else some (unknown_fault (absent_from known_faults faults))
