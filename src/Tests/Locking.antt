-- ===== src/Tests/Locking.antt =====
-- Two actors at a lock: one has acquired it.

use mathlib.Core.Path.{subst}
use formalspecgen.Domain.{Operation, variable_name}
use formalspecgen.Model.Atomic.{has_lock_protocol, initial_state}
use formalspecgen.Model.Effects.{NotTarget}
use formalspecgen.Model.Evaluate.{insert, lookup}
use formalspecgen.Model.Exclusion.{IsLockMetadata, Reach-exclusive}
use formalspecgen.Model.Lock.{Lock, lock_of, moved}
use formalspecgen.Model.Reach.{Reach, acquires, invokes, locked, next, start}
use formalspecgen.Model.State.{State, acquired, idle, invoked}
use formalspecgen.Model.Value.{int, value_eq}
use formalspecgen.Prelude.{
  [], arith, eq_iff, get_elem?, inl, inr, pos, refl, set, some, suc, sym, true, zero, ℕ, ℤ, ◌∷◌,
  ◌≡◌, ◌≢◌,
}
use formalspecgen.Samples.{locked_counter}

abbrev pub lock : Lock
lock = record { variable = "lock"; unlocked = pos 0; owners = pos 1 ∷ pos 2 ∷ [] }

owners_distinct :
    (i j : ℕ) (z : ℤ) → get_elem? lock.owners i ≡ some z → get_elem? lock.owners j ≡ some z → i ≡ j
owners_distinct zero zero z p q = refl
owners_distinct zero (suc zero) z p q = ground arith
owners_distinct (suc zero) zero z p q = ground arith
owners_distinct (suc zero) (suc zero) z p q = refl
owners_distinct zero (suc (suc j)) z p q = cc
owners_distinct (suc zero) (suc (suc j)) z p q = cc
owners_distinct (suc (suc i)) j z p q = cc

owners_separate : (i : ℕ) (z : ℤ) → get_elem? lock.owners i ≡ some z → z ≢ lock.unlocked
owners_separate zero z p e = ground arith
owners_separate (suc zero) z p e = ground arith
owners_separate (suc (suc i)) z p e = cc

locked_counter-IsLockMetadata : IsLockMetadata locked_counter lock
unfolding lock_of
locked_counter-IsLockMetadata = record {
  known = refl;
  distinct = owners_distinct;
  separate = owners_separate;
  untouched = λ op m. elim m [
    | inl e ↦
        subst (λ (o : Operation). NotTarget lock.variable o.effects) (sym e)
          (λ q. ground (arith, eq_iff "x" "lock"), tt)
    | inr none_left ↦ elim none_left [ ]
  ];
}

abbrev calling : State
calling = record {
  fields = ("x", int (pos 0)) ∷ ("lock", int (pos 0)) ∷ [];
  pcs = invoked ∷ idle ∷ [];
  pending = "Increment" ∷ "none" ∷ [];
  results = [];
}

abbrev pub holding : State
holding = record {
  fields = ("x", int (pos 0)) ∷ ("lock", int (pos 1)) ∷ [];
  pcs = acquired ∷ idle ∷ [];
  pending = "Increment" ∷ "none" ∷ [];
  results = [];
}

has_protocol : has_lock_protocol locked_counter ≡ true
unfolding has_lock_protocol
has_protocol = refl

pub holding-Reach : Reach locked_counter holding
unfolding lock_of has_lock_protocol initial_state variable_name moved value_eq lookup insert
holding-Reach =
    next (next start (locked lock 0 refl refl (inl refl) (invokes _ (inl refl) refl (calling_eq))))
      (locked lock 0 refl refl (inl refl)
        (acquires (int (pos 0)) (pos 1) refl refl refl refl holding_eq))
  where
    calling_eq :
        calling
        ≡ record (moved
            (initial_state locked_counter)
            0
            invoked
            (initial_state locked_counter).fields) {
              pending = set (initial_state locked_counter).pending 0 "Increment";
            }
    calling_eq = refl

    holding_eq : holding ≡ moved calling 0 acquired (insert "lock" (int (pos 1)) calling.fields)
    holding_eq = refl

Reach-exclusive_example :
    (◌≡◌ {A = ℕ} 0 0)
    × ((z : ℤ) × (get_elem? lock.owners 0 ≡ some z)
        × (lookup lock.variable holding.fields ≡ some (int z)))
Reach-exclusive_example =
    Reach-exclusive locked_counter lock locked_counter-IsLockMetadata 0 0 has_protocol holding-Reach
      (inl refl) (inl refl)
