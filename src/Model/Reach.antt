-- ===== src/Model/Reach.antt =====
-- The transition system that `validate_transitions_and_invariants` explores, as a step relation
-- with no frontier, no budget and no check: the specification of the exploration.
use formalspecgen.Domain.{DomainSpec, Operation, stutters}
use formalspecgen.Model.Atomic.{callers, fired, has_lock_protocol, initial_state, range, stuttered}
use formalspecgen.Model.Evaluate.{Fields, apply_effects, guards_hold, insert, lookup}
use formalspecgen.Model.Lock.{Lock, find_operation, lock_of, moved}
use formalspecgen.Model.State.{State, acquired, idle, invoked, linearized, released}
use formalspecgen.Model.Value.{Value, int, value_eq}
use formalspecgen.Prelude.{In, Option, String, false, get_elem?, set, some, true, ℕ, ℤ, ◌≡◌}
use formalspecgen.Result.{ok}

pub data AtomicStep (spec : DomainSpec) (s : State) (op : Operation) (t : State) : Type 0 where
  fires :
      (post : Fields) (caller : Option ℕ)
      → guards_hold op s.fields ≡ ok true
      → apply_effects op s.fields ≡ ok post
      → In caller (callers spec op)
      → t ≡ fired spec s post caller
      → AtomicStep spec s op t
  refuses :
      (actor : ℕ)
      → guards_hold op s.fields ≡ ok false
      → stutters op.failure_semantics ≡ true
      → In actor (range spec.actors)
      → t ≡ stuttered s actor
      → AtomicStep spec s op t

pub data LockStep (spec : DomainSpec) (lock : Lock) (s : State) (actor : ℕ) (t : State)
    : Type 0 where
  invokes :
      (op : Operation)
      → In op spec.operations
      → get_elem? s.pcs actor ≡ some idle
      → t ≡ record (moved s actor invoked s.fields) { pending = set s.pending actor op.name }
      → LockStep spec lock s actor t
  acquires :
      (value : Value) (owner : ℤ)
      → get_elem? s.pcs actor ≡ some invoked
      → lookup lock.variable s.fields ≡ some value
      → value_eq value (int lock.unlocked) ≡ true
      → get_elem? lock.owners actor ≡ some owner
      → t ≡ moved s actor acquired (insert lock.variable (int owner) s.fields)
      → LockStep spec lock s actor t
  commits :
      (name : String) (op : Operation) (post : Fields)
      → get_elem? s.pcs actor ≡ some acquired
      → get_elem? s.pending actor ≡ some name
      → find_operation name spec.operations ≡ some op
      → guards_hold op s.fields ≡ ok true
      → apply_effects op s.fields ≡ ok post
      → t ≡ moved s actor linearized post
      → LockStep spec lock s actor t
  rejects :
      (name : String) (op : Operation)
      → get_elem? s.pcs actor ≡ some acquired
      → get_elem? s.pending actor ≡ some name
      → find_operation name spec.operations ≡ some op
      → guards_hold op s.fields ≡ ok false
      → t ≡ moved s actor released (insert lock.variable (int lock.unlocked) s.fields)
      → LockStep spec lock s actor t
  releases :
      get_elem? s.pcs actor ≡ some linearized
      → t ≡ moved s actor released (insert lock.variable (int lock.unlocked) s.fields)
      → LockStep spec lock s actor t
  responds :
      get_elem? s.pcs actor ≡ some released
      → t ≡ record (moved s actor idle s.fields) { pending = set s.pending actor "none" }
      → LockStep spec lock s actor t

pub data Step (spec : DomainSpec) (s : State) (t : State) : Type 0 where
  atomic :
      (op : Operation)
      → has_lock_protocol spec ≡ false
      → In op spec.operations
      → AtomicStep spec s op t
      → Step spec s t
  locked :
      (lock : Lock) (actor : ℕ)
      → has_lock_protocol spec ≡ true
      → lock_of spec ≡ ok lock
      → In actor (range spec.actors)
      → LockStep spec lock s actor t
      → Step spec s t

pub data Reach (spec : DomainSpec) : State → Type 0 where
  start : Reach spec (initial_state spec)
  next : {s t : State} → Reach spec s → Step spec s t → Reach spec t
