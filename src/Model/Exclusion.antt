-- ===== src/Model/Exclusion.antt =====
-- The lock protocol of pipeline/domain_v2_model.py under metadata that the schema accepts.

use mathlib.Core.Path.{subst}
use native.Mathlib.Decide.{ℕ_discrete}
use formalspecgen.Domain.{DomainSpec, Operation}
use formalspecgen.Model.Atomic.{has_lock_protocol, initial_state}
use formalspecgen.Model.Effects.{NotTarget, apply_effects_frame, lookup-insert_self}
use formalspecgen.Model.Evaluate.{insert, lookup}
use formalspecgen.Model.Lock.{Lock, lock_of, moved}
use formalspecgen.Model.Reach.{
  LockStep, Reach, acquires, atomic, commits, invokes, locked, next, rejects, releases, responds,
  start,
}
use formalspecgen.Model.Simulate.{find_operation-In}
use formalspecgen.Model.State.{Phase, State, acquired, idle, invoked, linearized, released}
use formalspecgen.Model.Value.{Value, int, value_eq}
use formalspecgen.Prelude.{
  In, List, ap, get_elem?, get_elem?-set_ne, get_elem?-set_self, inl, inr, replicate, set, some,
  suc, sym, true, zero, ℕ, ℤ, ◌∙◌, ◌≡◌, ◌≢◌, ◌⊎◌,
}
use formalspecgen.Prelude.Int.{eqb_ℤ, eqb_ℤ_iff}
use formalspecgen.Result.{ok, ok_injective}

abbrev pub IsCritical : State → ℕ → Type 0
IsCritical s actor =
    (get_elem? s.pcs actor ≡ some acquired) ⊎ (get_elem? s.pcs actor ≡ some linearized)

-- The requirements of `DomainSpecV2` on explicit lock metadata.
pub record IsLockMetadata (spec : DomainSpec) (lock : Lock) : Type 0 where
  pub known : lock_of spec ≡ ok lock
  pub distinct :
      (i j : ℕ) (z : ℤ)
      → get_elem? lock.owners i ≡ some z
      → get_elem? lock.owners j ≡ some z
      → i ≡ j
  pub separate : (i : ℕ) (z : ℤ) → get_elem? lock.owners i ≡ some z → z ≢ lock.unlocked
  pub untouched : (op : Operation) → In op spec.operations → NotTarget lock.variable op.effects

abbrev Holds : Lock → State → ℕ → Type 0
Holds lock s i =
    (z : ℤ) × (get_elem? lock.owners i ≡ some z) × (lookup lock.variable s.fields ≡ some (int z))

-- An actor in its critical section owns the lock.
abbrev IsOwned : Lock → State → Type 0
IsOwned lock s = (i : ℕ) → IsCritical s i → Holds lock s i

-- The phases after one actor has moved.
moved_self :
    (s : State) (actor : ℕ) (phase old : Phase) (p : Phase)
    → get_elem? s.pcs actor ≡ some old
    → get_elem? (set s.pcs actor phase) actor ≡ some p
    → phase ≡ p
moved_self s actor phase old p h q = let e = get_elem?-set_self s.pcs actor phase old h in cc

moved_others :
    (pcs : List Phase) (actor i : ℕ) (phase : Phase)
    → actor ≢ i
    → get_elem? (set pcs actor phase) i ≡ get_elem? pcs i
moved_others pcs actor i phase n = get_elem?-set_ne pcs actor i phase n

IsCritical-of_moved :
    (s : State) (actor i : ℕ) (phase : Phase)
    → actor ≢ i
    → (get_elem? (set s.pcs actor phase) i ≡ some acquired)
      ⊎ (get_elem? (set s.pcs actor phase) i ≡ some linearized)
    → IsCritical s i
IsCritical-of_moved s actor i phase n (inl h) = inl (sym (moved_others s.pcs actor i phase n) ∙ h)
IsCritical-of_moved s actor i phase n (inr h) = inr (sym (moved_others s.pcs actor i phase n) ∙ h)

-- An actor that moved to a phase outside the critical section is not in it.
not_IsCritical-of_moved :
    (s : State) (actor : ℕ) (phase old : Phase)
    → get_elem? s.pcs actor ≡ some old
    → phase ≢ acquired
    → phase ≢ linearized
    → ¬ (
        (get_elem? (set s.pcs actor phase) actor ≡ some acquired)
        ⊎ (get_elem? (set s.pcs actor phase) actor ≡ some linearized))
not_IsCritical-of_moved s actor phase old h na nl (inl q) =
    na (moved_self s actor phase old acquired h q)
not_IsCritical-of_moved s actor phase old h na nl (inr q) =
    nl (moved_self s actor phase old linearized h q)

module _ (spec : DomainSpec) (lock : Lock) (meta : IsLockMetadata spec lock) where
  -- Two owners of the lock are one.
  Holds-unique : (s : State) (i j : ℕ) → Holds lock s i → Holds lock s j → i ≡ j
  Holds-unique s i j (z, at_i, found_i) (w, at_j, found_j) =
      let same : z ≡ w = cc in meta.distinct i j z at_i (rw same at_j)

  -- A move that leaves the fields alone and is not into the critical section.
  outside-IsOwned :
      (s t : State) (actor : ℕ) (phase old : Phase)
      → get_elem? s.pcs actor ≡ some old
      → phase ≢ acquired
      → phase ≢ linearized
      → t.pcs ≡ set s.pcs actor phase
      → t.fields ≡ s.fields
      → IsOwned lock s
      → IsOwned lock t
  outside-IsOwned s t actor phase old h na nl ep ef owned i c =
      let c' = rw ep at c in
      elim (ℕ_discrete actor i) [
        | yes e ↦ absurd (not_IsCritical-of_moved s actor phase old h na nl (rw (sym e) at c'))
        | no n ↦
            let (z, at_i, found) = owned i (IsCritical-of_moved s actor i phase n c') in
            (z, at_i, rw ef found)
      ]

  -- The owner leaves the critical section and frees the lock.
  freed-IsOwned :
      (s t : State) (actor : ℕ) (old : Phase)
      → get_elem? s.pcs actor ≡ some old
      → IsCritical s actor
      → t.pcs ≡ set s.pcs actor released
      → IsOwned lock s
      → IsOwned lock t
  freed-IsOwned s t actor old h crit ep owned i c =
      let c' = rw ep at c in
      elim (ℕ_discrete actor i) [
        | yes e ↦
            absurd (
              not_IsCritical-of_moved s actor released old h (λ q. cc) (λ q. cc) (rw (sym e) at c'))
        | no n ↦ absurd (
            n (
              Holds-unique s actor i (owned actor crit)
                (owned i (IsCritical-of_moved s actor i released n c'))))
      ]

  acquired-IsOwned :
      (s t : State) (actor : ℕ) (value : Value) (owner : ℤ)
      → lookup lock.variable s.fields ≡ some value
      → value_eq value (int lock.unlocked) ≡ true
      → get_elem? lock.owners actor ≡ some owner
      → t.pcs ≡ set s.pcs actor acquired
      → t.fields ≡ insert lock.variable (int owner) s.fields
      → IsOwned lock s
      → IsOwned lock t
  unfolding value_eq
  acquired-IsOwned s t actor value owner found free own ep ef owned i c =
      elim (ℕ_discrete actor i) [
        | yes e ↦
            (owner, rw (sym e) own, rw ef (lookup-insert_self lock.variable (int owner) s.fields))
        | no n ↦
            let (z, at_i, held) = owned i (IsCritical-of_moved s actor i acquired n (rw ep at c)) in
            let same : value ≡ int z = cc in
            let free' : eqb_ℤ z lock.unlocked ≡ true = (rw same at free) in
            absurd (meta.separate i z at_i ((eqb_ℤ_iff z lock.unlocked).0 free'))
      ]

  committed-IsOwned :
      (s t : State) (actor : ℕ)
      → get_elem? s.pcs actor ≡ some acquired
      → lookup lock.variable t.fields ≡ lookup lock.variable s.fields
      → t.pcs ≡ set s.pcs actor linearized
      → IsOwned lock s
      → IsOwned lock t
  committed-IsOwned s t actor h kept ep owned i c = elim (ℕ_discrete actor i) [
    | yes e ↦ let (z, at_i, held) = owned actor (inl h) in (z, rw (sym e) at_i, kept ∙ held)
    | no n ↦
        let (z, at_i, held) = owned i (IsCritical-of_moved s actor i linearized n (rw ep at c)) in
        (z, at_i, kept ∙ held)
  ]

  LockStep-IsOwned :
      (s t : State) (actor : ℕ) → LockStep spec lock s actor t → IsOwned lock s → IsOwned lock t
  unfolding moved
  LockStep-IsOwned s t actor (invokes op m phase e) owned =
      outside-IsOwned s t actor invoked idle phase (λ q. cc) (λ q. cc) (ap (λ (x : State). x.pcs) e)
        (ap (λ (x : State). x.fields) e) owned
  LockStep-IsOwned s t actor (acquires value owner phase found free own e) owned =
      acquired-IsOwned s t actor value owner found free own (ap (λ (x : State). x.pcs) e)
        (ap (λ (x : State). x.fields) e) owned
  LockStep-IsOwned s t actor (commits name op post phase n known held applied e) owned =
      committed-IsOwned s t actor phase
        (ap (λ (x : State). lookup lock.variable x.fields) e
          ∙ apply_effects_frame op s.fields post lock.variable applied
              (meta.untouched op (find_operation-In name spec.operations op known)))
        (ap (λ (x : State). x.pcs) e) owned
  LockStep-IsOwned s t actor (rejects name op phase n known held e) owned =
      freed-IsOwned s t actor acquired phase (inl phase) (ap (λ (x : State). x.pcs) e) owned
  LockStep-IsOwned s t actor (releases phase e) owned =
      freed-IsOwned s t actor linearized phase (inr phase) (ap (λ (x : State). x.pcs) e) owned
  LockStep-IsOwned s t actor (responds phase e) owned =
      outside-IsOwned s t actor idle released phase (λ q. cc) (λ q. cc)
        (ap (λ (x : State). x.pcs) e) (ap (λ (x : State). x.fields) e) owned

  replicate_idle : (n i : ℕ) (p : Phase) → get_elem? (replicate n idle) i ≡ some p → p ≡ idle
  replicate_idle zero i p h = cc
  replicate_idle (suc n) zero p h = cc
  replicate_idle (suc n) (suc i) p h = replicate_idle n i p h

  initial-IsOwned : has_lock_protocol spec ≡ true → IsOwned lock (initial_state spec)
  unfolding initial_state
  initial-IsOwned locks i (inl h) =
      absurd (let q = rw locks at h in let e = replicate_idle spec.actors i acquired q in cc)
  initial-IsOwned locks i (inr h) =
      absurd (let q = rw locks at h in let e = replicate_idle spec.actors i linearized q in cc)

  Reach-IsOwned : {s : State} → has_lock_protocol spec ≡ true → Reach spec s → IsOwned lock s
  Reach-IsOwned locks start = initial-IsOwned locks
  Reach-IsOwned locks (next r (atomic op plain m st)) = cc (locks, plain)
  Reach-IsOwned locks (next {s} {t} r (locked lock' actor _ known m st)) =
      let same : lock' ≡ lock = ok_injective (sym known ∙ meta.known) in
      LockStep-IsOwned s t actor (subst (λ l. LockStep spec l s actor t) same st)
        (Reach-IsOwned locks r)

  -- Mutual exclusion. Under lock metadata that the schema accepts, in every reachable state at most
  -- one actor is between acquiring the lock and giving it back, and the lock variable holds that
  -- actor's own value.
  pub Reach-exclusive :
      {s : State} (i j : ℕ)
      → has_lock_protocol spec ≡ true
      → Reach spec s
      → IsCritical s i
      → IsCritical s j
      → (i ≡ j)
        × ((z : ℤ) × (get_elem? lock.owners i ≡ some z)
            × (lookup lock.variable s.fields ≡ some (int z)))
  Reach-exclusive {s} i j locks r ci cj =
      let owned = Reach-IsOwned locks r in
      (Holds-unique s i j (owned i ci) (owned j cj), owned i ci)
