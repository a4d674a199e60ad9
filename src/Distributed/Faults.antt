-- ===== src/Distributed/Faults.antt =====
-- The injected operations of pipeline/distributed.py against what a network fault does to the message
-- slots.
use mathlib.Core.List.{flat_map}
use mathlib.Core.Path.{subst}
use formalspecgen.Distributed.{
  FaultError, equals, gather, occupied_values, pairs, range_ℤ, slot_of, slot_values, span, without,
}
use formalspecgen.Domain.{DomainSpec, Guard, IntStateVariable, Operation}
use formalspecgen.Model.Evaluate.{Fields, all_hold, evaluate_expression, insert, lookup}
use formalspecgen.Model.Value.{Value, apply_kind, as_int, bool, int, truth, value_eq}
use formalspecgen.Prelude.{
  Bool-cases, In, In-append_cases, List, String, [], ap, arith, inl, inr, map, pos, refl, some, suc,
  sym, true, zero, ℕ, ℤ, ◌∙◌, ◌∷◌, ◌≡◌, ◌≢◌,
}
use formalspecgen.Prelude.Int.{
  +ℤ_parts, -ℤ_parts, eqb_ℤ, eqb_ℤ_iff, parts_cases, pos_part, ◌+ℤ◌, ◌-ℤ◌, ◌<ℤ◌, ◌≤ℤ◌,
}
use formalspecgen.Result.{>>=-eq-ok, Result, ok, ok_injective, or_raise, or_raise-eq-ok}

-- The slot holds a message: a declared value other than the empty one.
abbrev pub IsOccupied : IntStateVariable → ℤ → Type 0
IsOccupied v z = (v.lower ≤ℤ z) × (z ≤ℤ v.upper) × (z ≢ v.initial)

pub data NetworkFault (spec : DomainSpec) (fields : List String) (s t : Fields) : Type 0 where
  loses :
      (field : String) (v : IntStateVariable) (x : Value)
      → In field fields
      → slot_of spec field ≡ ok v
      → lookup field s ≡ some x
      → IsOccupied v (as_int x)
      → t ≡ insert field (int v.initial) s
      → NetworkFault spec fields s t
  duplicates :
      (source target : String) (v w : IntStateVariable) (x y : Value)
      → In source fields
      → In target fields
      → slot_of spec source ≡ ok v
      → slot_of spec target ≡ ok w
      → lookup source s ≡ some x
      → lookup target s ≡ some y
      → IsOccupied v (as_int x)
      → as_int y ≡ w.initial
      → t ≡ insert target (int (as_int x)) s
      → NetworkFault spec fields s t
  reorders :
      (left right : String) (v w : IntStateVariable) (x y : Value)
      → In left fields
      → In right fields
      → slot_of spec left ≡ ok v
      → slot_of spec right ≡ ok w
      → lookup left s ≡ some x
      → lookup right s ≡ some y
      → IsOccupied v (as_int x)
      → IsOccupied w (as_int y)
      → t ≡ insert right (int (as_int x)) (insert left (int (as_int y)) s)
      → NetworkFault spec fields s t

range_ℤ-bounds :
    (lower : ℤ) (n : ℕ) (z : ℤ) → In z (range_ℤ lower n) → (lower ≤ℤ z) × (z <ℤ lower +ℤ pos n)
unfolding range_ℤ
range_ℤ-bounds lower zero z m = elim m [ ]
range_ℤ-bounds lower (suc n) z (inl e) = rw e (omega (arith, +ℤ_parts lower (pos (suc n))))
range_ℤ-bounds lower (suc n) z (inr m) =
    let (low, high) = range_ℤ-bounds (lower +ℤ pos 1) n z m in
    omega (
      arith,
      +ℤ_parts lower (pos 1),
      +ℤ_parts lower (pos (suc n)),
      +ℤ_parts (lower +ℤ pos 1) (pos n),
    )

within_span : (lower upper z : ℤ) → lower ≤ℤ z → z <ℤ lower +ℤ pos (span lower upper) → z ≤ℤ upper
unfolding span
within_span lower upper z low high =
    let size = upper -ℤ lower +ℤ pos 1 in
    elim (parts_cases size) [
      | inl empty ↦ absurd (omega (arith, empty, +ℤ_parts lower (pos (pos_part size))))
      | inr full ↦ omega (
        arith,
        full,
        +ℤ_parts lower (pos (pos_part size)),
        +ℤ_parts (upper -ℤ lower) (pos 1),
        -ℤ_parts upper lower,
      )
    ]

without-In :
    (sentinel : ℤ) (zs : List ℤ) (z : ℤ) → In z (without sentinel zs) → In z zs × (z ≢ sentinel)
unfolding without
without-In sentinel [] z m = elim m [ ]
without-In sentinel (w ∷ zs) z m = elim (Bool-cases (eqb_ℤ w sentinel)) [
  | inl same ↦ let m' = rw same at m in let (h, n) = without-In sentinel zs z m' in (inr h, n)
  | inr other ↦
      let m' = rw other at m in
      elim m' [
        | inl e ↦ (inl e, λ q. let r = (eqb_ℤ_iff w sentinel).1 (sym e ∙ q) in cc (r, other))
        | inr k ↦ let (h, n) = without-In sentinel zs z k in (inr h, n)
      ]
]

pub occupied_values-IsOccupied :
    (v : IntStateVariable) (z : ℤ) → In z (occupied_values v) → IsOccupied v z
unfolding occupied_values slot_values
occupied_values-IsOccupied v z m =
    let (h, n) = without-In v.initial (slot_values v) z m in
    let (low, high) = range_ℤ-bounds v.lower (span v.lower v.upper) z h in
    (low, within_span v.lower v.upper z low high, n)

pub gather-In :
    {A : Type 0} (body : A → Result FaultError (List Operation)) (xs : List A)
    {ops : List Operation} (op : Operation)
    → gather body xs ≡ ok ops
    → In op ops
    → (x : A) × In x xs × ((part : List Operation) × (body x ≡ ok part) × In op part)
unfolding gather
gather-In body [] op h m = elim (subst (In op) (sym (ok_injective h)) m) [ ]
gather-In body (x ∷ xs) op h m =
    let (first, ran, rest) = >>=-eq-ok (body x) _ h in
    let (others, looped, done) = >>=-eq-ok (gather body xs) _ rest in
    elim (In-append_cases op first others (subst (In op) (sym (ok_injective done)) m)) [
      | inl here ↦ (x, inl refl, (first, ran, here))
      | inr later ↦ let (y, i, part) = gather-In body xs op looped later in (y, inr i, part)
    ]

pub In-map_cases :
    {A B : Type 0} (f : A → B) (xs : List A) (b : B)
    → In b (map f xs)
    → (a : A) × In a xs × (b ≡ f a)
In-map_cases f [] b m = elim m [ ]
In-map_cases f (x ∷ xs) b (inl e) = (x, inl refl, e)
In-map_cases f (x ∷ xs) b (inr m) = let (a, i, e) = In-map_cases f xs b m in (a, inr i, e)

pub pairs-In : (xs : List String) (x y : String) → In (x, y) (pairs xs) → In x xs × In y xs
unfolding pairs
pairs-In [] x y m = elim m [ ]
pairs-In (w ∷ xs) x y m = elim (In-append_cases (x, y) (map (λ z. (w, z)) xs) (pairs xs) m) [
  | inl first ↦
      let (z, i, e) = In-map_cases (λ z. (w, z)) xs (x, y) first in
      (
        inl (ap (λ (p : String × String). p.0) e),
        inr (subst (λ k. In k xs) (sym (ap (λ (p : String × String). p.1) e)) i),
      )
  | inr later ↦ let (i, j) = pairs-In xs x y later in (inr i, inr j)
]

-- The guard of a slot, and the assignment of a literal.
pub equals-true :
    (field : String) (z : ℤ) (s : Fields) (v : Value)
    → evaluate_expression (equals field z) s ≡ ok v
    → truth v ≡ true
    → (x : Value) × (lookup field s ≡ some x) × (as_int x ≡ z)
unfolding equals evaluate_expression apply_kind value_eq truth
equals-true field z s v h t =
    let (x, found, rest) = >>=-eq-ok (or_raise (lookup field s) _) _ h in
    let e : bool (eqb_ℤ (as_int x) z) ≡ v = ok_injective rest in
    (x, or_raise-eq-ok _ _ found, (eqb_ℤ_iff (as_int x) z).0 (rw (← e) at t))

pub all_hold-first :
    (g : Guard) (gs : List Guard) (s : Fields)
    → all_hold (g ∷ gs) s ≡ ok true
    → ((v : Value) × (evaluate_expression g.expression s ≡ ok v) × (truth v ≡ true))
      × (all_hold gs s ≡ ok true)
unfolding all_hold
all_hold-first g gs s h =
    let (v, ran, rest) = >>=-eq-ok (evaluate_expression g.expression s) _ h in
    elim (Bool-cases (truth v)) [
      | inl t ↦ ((v, ran, t), let q = rw t at rest in q)
      | inr f ↦ let q = rw f at rest in cc q
    ]

pub In-flat_map_cases :
    {A B : Type 0} (f : A → List B) (xs : List A) (b : B)
    → In b (flat_map f xs)
    → (a : A) × In a xs × In b (f a)
unfolding flat_map
In-flat_map_cases f [] b m = elim m [ ]
In-flat_map_cases f (x ∷ xs) b m = elim (In-append_cases b (f x) (flat_map f xs) m) [
  | inl here ↦ (x, inl refl, here)
  | inr later ↦ let (a, i, j) = In-flat_map_cases f xs b later in (a, inr i, j)
]
