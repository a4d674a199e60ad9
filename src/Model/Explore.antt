-- ===== src/Model/Explore.antt =====
-- `validate_transitions_and_invariants` and `_enqueue_lock_protocol_successors` of
-- pipeline/domain_v2_model.py. The breadth-first loop takes fuel, which is `max_states`: every round
-- removes a discovered state from the queue. After the last round the queue must be empty.
use mathlib.Core.Option
use formalspecgen.Domain.{DomainSpec}
use formalspecgen.Model.Atomic.{atomic_successors, has_lock_protocol, initial_state}
use formalspecgen.Model.Evaluate.{Error, no_enabled_transition}
use formalspecgen.Model.Frontier.{Frontier, discover, new_frontier}
use formalspecgen.Model.Lock.{lock_successors}
use formalspecgen.Model.State.{State, check_bounds, check_invariants}
use formalspecgen.Prelude.{
  List, Option, [], if◌then◌else◌, length, none, some, suc, zero, ℕ, ◌==◌, ◌∷◌,
}
use formalspecgen.Result.{Result, err, ok, ◌>>◌}

unfoldable pub successors : DomainSpec → State → Frontier → Result Error Frontier
successors spec s f =
    if has_lock_protocol spec then lock_successors spec s f else atomic_successors spec s f

-- What follows a computation that may raise; `none` is the end of the fuel.
unfoldable pub continue :
    {A : Type 0}
    → (Frontier → Option (Result Error A))
    → Result Error Frontier
    → Option (Result Error A)
continue k (ok f) = k f
continue k (err e) = some (err e)

-- The test of the queue when no fuel is left.
unfoldable pub last_round : Frontier → List State → Option (Result Error Frontier)
last_round f [] = some (ok f)
last_round f (_ ∷ _) = none

-- A round pops the head of the queue and adds its successors.
unfoldable pub next_round :
    (Frontier → Option (Result Error Frontier))
    → DomainSpec
    → Frontier
    → List State
    → Option (Result Error Frontier)
unfolding continue
next_round loop spec f [] = some (ok f)
next_round loop spec f (s ∷ rest) = continue loop (successors spec s (record f { queue = rest }))

-- `while frontier.queue`
unfoldable pub traverse : ℕ → DomainSpec → Frontier → Option (Result Error Frontier)
unfolding last_round next_round
traverse zero spec f = last_round f f.queue
traverse (suc fuel) spec f = next_round (traverse fuel spec) spec f f.queue

-- The initial state is checked and discovered.
unfoldable pub enter : DomainSpec → Frontier → Result Error Frontier
enter spec f = do
  let initial = initial_state spec
  check_bounds spec initial.fields "Init"
  check_invariants spec initial.fields "Init"
  discover initial f

-- The numbers of discovered states and of transitions.
unfoldable pub finish : Result Error Frontier → Result Error (ℕ × ℕ)
finish (err e) = err e
finish (ok f) =
    if f.transitions == 0
    then err no_enabled_transition
    else ok (length f.discovered, f.transitions)

unfoldable pub validate_transitions_and_invariants :
    DomainSpec → ℕ → ℕ → ℕ → Option (Result Error (ℕ × ℕ))
unfolding continue finish
validate_transitions_and_invariants spec max_states max_transitions max_work_items =
    continue (λ new. Option.map finish (continue (traverse max_states spec) (enter spec new)))
      (new_frontier max_states max_transitions max_work_items)
