-- ===== src/Model/Lock.antt =====
-- `_enqueue_lock_protocol_successors` of pipeline/domain_v2_model.py: invocation, acquisition,
-- commit or rejection, release and response of every actor.
use formalspecgen.Prelude.{
  ℕ, ℤ, String, Option, none, some, List, [], ◌∷◌, set, get_elem?, str_eq, if◌then◌else◌,
}
use Prim.Native.String.{◌++◌ as text_append}
use formalspecgen.Result.{Result, ok, ◌>>=◌, ◌>>◌, or_raise, for_each}
use formalspecgen.Domain.{Operation, DomainSpec}
use formalspecgen.Model.Value.{int, value_eq}
use formalspecgen.Model.Evaluate.{
  Error, key_error, index_error, stop_iteration, assertion_error, Fields, lookup, insert,
  guards_hold, apply_effects,
}
use formalspecgen.Model.State.{
  Phase, idle, invoked, acquired, linearized, released, State, check_bounds, check_invariants,
}
use formalspecgen.Model.Frontier.{Frontier, step, append}
use formalspecgen.Model.Atomic.{range}

-- The metadata that the lock protocol asserts to be there.
pub record Lock : Type 0 where
  pub variable : String
  pub unlocked : ℤ
  pub owners : List ℤ

unfoldable pub lock_of : DomainSpec → Result Error Lock
lock_of spec = do
  metadata ← or_raise spec.concurrency assertion_error
  owners ← or_raise metadata.actor_lock_values assertion_error
  unlocked ← or_raise metadata.unlocked_value assertion_error
  ok (record { variable = metadata.lock_variable; unlocked = unlocked; owners = owners })

-- `next(item for item in spec.operations if item.name == pending)`
unfoldable pub find_operation : String → List Operation → Option Operation
find_operation name [] = none
find_operation name (op ∷ ops) = if str_eq op.name name then some op else find_operation name ops

-- The state in which one actor has moved to a phase, and the fields are new.
unfoldable pub moved : State → ℕ → Phase → Fields → State
moved s actor phase fields = record s { fields = fields; pcs = set s.pcs actor phase }

unfoldable pub invoke : State → ℕ → Operation → Frontier → Result Error Frontier
unfolding moved
invoke s actor op f = do
  f₁ ← step f
  append (record (moved s actor invoked s.fields) { pending = set s.pending actor op.name }) f₁

-- The checks of a move and its edge.
unfoldable pub checked_append : DomainSpec → State → String → Frontier → Result Error Frontier
checked_append spec post label f = do
  check_bounds spec post.fields label
  check_invariants spec post.fields label
  append post f

unfoldable pub acquire : DomainSpec → Lock → State → ℕ → String → Frontier → Result Error Frontier
unfolding moved
acquire spec lock s actor name f = do
  op ← or_raise (find_operation name spec.operations) stop_iteration
  value ← or_raise (lookup lock.variable s.fields) (key_error lock.variable)
  if value_eq value (int lock.unlocked)
      then (or_raise (get_elem? lock.owners actor) index_error >>= λ owner.
          checked_append spec (moved s actor acquired (insert lock.variable (int owner) s.fields))
            (text_append op.name "Acquire") f)
      else ok f

-- The commit of the operation's effects, or its rejection, which gives the lock back.
unfoldable pub linearize : DomainSpec → Lock → State → ℕ → String → Frontier → Result Error Frontier
unfolding moved
linearize spec lock s actor name f = do
  op ← or_raise (find_operation name spec.operations) stop_iteration
  enabled ← guards_hold op s.fields
  if enabled
      then (apply_effects op s.fields >>= λ post.
          checked_append spec (moved s actor linearized post) (text_append op.name "Linearize") f)
      else checked_append spec
          (moved s actor released (insert lock.variable (int lock.unlocked) s.fields))
          (text_append op.name "Reject") f

unfoldable pub release : DomainSpec → Lock → State → ℕ → String → Frontier → Result Error Frontier
unfolding moved
release spec lock s actor name f =
    checked_append spec (moved s actor released (insert lock.variable (int lock.unlocked) s.fields))
      (text_append name "Release") f

unfoldable pub respond : State → ℕ → Frontier → Result Error Frontier
unfolding moved
respond s actor f =
    append (record (moved s actor idle s.fields) { pending = set s.pending actor "none" }) f

-- What one actor does, by its program counter.
unfoldable pub dispatch :
    DomainSpec → Lock → State → ℕ → String → Phase → Frontier → Result Error Frontier
dispatch spec lock s actor name idle f = for_each (invoke s actor) spec.operations f
dispatch spec lock s actor name invoked f = acquire spec lock s actor name f
dispatch spec lock s actor name acquired f = linearize spec lock s actor name f
dispatch spec lock s actor name linearized f = release spec lock s actor name f
dispatch spec lock s actor name released f = respond s actor f

unfoldable pub move_actor : DomainSpec → Lock → State → ℕ → Frontier → Result Error Frontier
move_actor spec lock s actor f = do
  f₁ ← step f
  pc ← or_raise (get_elem? s.pcs actor) index_error
  name ← or_raise (get_elem? s.pending actor) index_error
  dispatch spec lock s actor name pc f₁

-- The count that the source also returns is used by no caller.
unfoldable pub lock_successors : DomainSpec → State → Frontier → Result Error Frontier
lock_successors spec s f = do
  lock ← lock_of spec
  for_each (move_actor spec lock s) (range spec.actors) f
