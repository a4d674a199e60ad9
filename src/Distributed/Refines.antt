-- ===== src/Distributed/Refines.antt =====
-- `inject_fault_actions` of pipeline/distributed.py against the faults of Distributed.Faults.

use mathlib.Core.Path.{ap₂, subst}
use formalspecgen.Distributed.{
  FaultError, drop_faults, drop_operation, duplicate_faults, duplicate_operation, equals,
  fault_actions, fault_operation, gather, inject_fault_actions, occupied_values, pairs,
  reorder_faults, reorder_operation, slot_of,
}
use formalspecgen.Distributed.Faults.{
  In-flat_map_cases, In-map_cases, IsOccupied, NetworkFault, all_hold-first, duplicates,
  equals-true, gather-In, loses, occupied_values-IsOccupied, pairs-In, reorders,
}
use formalspecgen.Domain.{DomainSpec, Guard, IntStateVariable, Operation}
use formalspecgen.Model.Evaluate.{
  Fields, apply_effects, evaluate_expression, guards_hold, insert, update,
}
use formalspecgen.Model.Value.{int}
use formalspecgen.Prelude.{
  Bool-cases, In, In-append_cases, List, String, [], ap, inl, inr, map, str_eq, sym, true, ℤ, ◌∙◌,
  ◌∷◌, ◌≡◌,
}
use formalspecgen.Result.{>>=-eq-ok, Result, ok, ok_injective, refuse}

abbrev test : String → String → ℤ → Guard
test id field z = record { id = id; expression = equals field z }

module _ (spec : DomainSpec) (fields : List String) (s t : Fields) where
  drop_operation-loses :
      (field : String) (v : IntStateVariable) (z : ℤ)
      → In field fields
      → slot_of spec field ≡ ok v
      → In z (occupied_values v)
      → guards_hold (drop_operation field v.initial z) s ≡ ok true
      → apply_effects (drop_operation field v.initial z) s ≡ ok t
      → NetworkFault spec fields s t
  unfolding drop_operation fault_operation guards_hold apply_effects update evaluate_expression
  drop_operation-loses field v z m slot free h a =
      let ((b, ran, holds), _) = all_hold-first (test "fg" field z) [] s h in
      let (x, found, same) = equals-true field z s b ran holds in
      loses field v x m slot found
        (subst (IsOccupied v) (sym same) (occupied_values-IsOccupied v z free))
        (sym (ok_injective a))

  duplicate_operation-duplicates :
      (source target : String) (v w : IntStateVariable) (z : ℤ)
      → In source fields
      → In target fields
      → slot_of spec source ≡ ok v
      → slot_of spec target ≡ ok w
      → In z (occupied_values v)
      → guards_hold (duplicate_operation source target w.initial z) s ≡ ok true
      → apply_effects (duplicate_operation source target w.initial z) s ≡ ok t
      → NetworkFault spec fields s t
  unfolding duplicate_operation fault_operation guards_hold apply_effects update evaluate_expression
  duplicate_operation-duplicates source target v w z ms mt slot_v slot_w used h a =
      let ((b, ran, holds), rest) =
        all_hold-first (test "fg1" source z) (test "fg2" target w.initial ∷ []) s h in
      let ((c, ran', holds'), _) = all_hold-first (test "fg2" target w.initial) [] s rest in
      let (x, found, same) = equals-true source z s b ran holds in
      let (y, found', empty) = equals-true target w.initial s c ran' holds' in
      duplicates source target v w x y ms mt slot_v slot_w found found'
        (subst (IsOccupied v) (sym same) (occupied_values-IsOccupied v z used)) empty
        (sym (ok_injective a) ∙ ap (λ k. insert target (int k) s) (sym same))

  reorder_operation-reorders :
      (left right : String) (v w : IntStateVariable) (lv rv : ℤ)
      → In left fields
      → In right fields
      → slot_of spec left ≡ ok v
      → slot_of spec right ≡ ok w
      → In lv (occupied_values v)
      → In rv (occupied_values w)
      → guards_hold (reorder_operation left right lv rv) s ≡ ok true
      → apply_effects (reorder_operation left right lv rv) s ≡ ok t
      → NetworkFault spec fields s t
  unfolding reorder_operation fault_operation guards_hold apply_effects update evaluate_expression
  reorder_operation-reorders left right v w lv rv ml mr slot_v slot_w used_l used_r h a =
      let ((b, ran, holds), rest) =
        all_hold-first (test "fg1" left lv) (test "fg2" right rv ∷ []) s h in
      let ((c, ran', holds'), _) = all_hold-first (test "fg2" right rv) [] s rest in
      let (x, found, same) = equals-true left lv s b ran holds in
      let (y, found', same') = equals-true right rv s c ran' holds' in
      reorders left right v w x y ml mr slot_v slot_w found found'
        (subst (IsOccupied v) (sym same) (occupied_values-IsOccupied v lv used_l))
        (subst (IsOccupied w) (sym same') (occupied_values-IsOccupied w rv used_r))
        (sym (ok_injective a)
          ∙ ap₂ (λ k l. insert right (int k) (insert left (int l) s)) (sym same) (sym same'))

  -- What an operation does when it is enabled.
  abbrev Faulty : Operation → Type 0
  Faulty op = guards_hold op s ≡ ok true → apply_effects op s ≡ ok t → NetworkFault spec fields s t

  from_map :
      {A : Type 0} (f : A → Operation) (xs : List A) (op : Operation)
      → ((x : A) → In x xs → Faulty (f x))
      → In op (map f xs)
      → Faulty op
  from_map f xs op each_x m =
      let (x, i, e) = In-map_cases f xs op m in subst Faulty (sym e) (each_x x i)

  drop_faults-Faulty :
      (field : String) {ops : List Operation} (op : Operation)
      → In field fields
      → drop_faults spec field ≡ ok ops
      → In op ops
      → Faulty op
  unfolding drop_faults
  drop_faults-Faulty field op m h i =
      let (v, slot, done) = >>=-eq-ok (slot_of spec field) _ h in
      from_map (drop_operation field v.initial) (occupied_values v) op
        (λ z used. drop_operation-loses field v z m slot used)
        (subst (In op) (sym (ok_injective done)) i)

  duplicate_faults-Faulty :
      (source target : String) {ops : List Operation} (op : Operation)
      → In source fields
      → In target fields
      → duplicate_faults spec (source, target) ≡ ok ops
      → In op ops
      → Faulty op
  unfolding duplicate_faults
  duplicate_faults-Faulty source target op ms mt h i =
      let (v, slot_v, rest) = >>=-eq-ok (slot_of spec source) _ h in
      let (w, slot_w, done) = >>=-eq-ok (slot_of spec target) _ rest in
      elim (In-append_cases op
        (map (duplicate_operation source target w.initial) (occupied_values v)) _
        (subst (In op) (sym (ok_injective done)) i)) [
          | inl there ↦
              from_map (duplicate_operation source target w.initial) _ op
                (λ z used.
                  duplicate_operation-duplicates source target v w z ms mt slot_v slot_w used)
                there
          | inr back ↦
              from_map (duplicate_operation target source v.initial) _ op
                (λ z used.
                  duplicate_operation-duplicates target source w v z mt ms slot_w slot_v used)
                back
        ]

  reorder_faults-Faulty :
      (left right : String) {ops : List Operation} (op : Operation)
      → In left fields
      → In right fields
      → reorder_faults spec (left, right) ≡ ok ops
      → In op ops
      → Faulty op
  unfolding reorder_faults
  reorder_faults-Faulty left right op ml mr h i =
      let (v, slot_v, rest) = >>=-eq-ok (slot_of spec left) _ h in
      let (w, slot_w, rest') = >>=-eq-ok (slot_of spec right) _ rest in
      let (_, _, done) = >>=-eq-ok (refuse (str_eq left right) _) _ rest' in
      let (lv, used, j) =
        In-flat_map_cases (λ lv. map (reorder_operation left right lv) (occupied_values w))
          (occupied_values v) op (subst (In op) (sym (ok_injective done)) i) in
      from_map (reorder_operation left right lv) (occupied_values w) op
        (λ rv used'. reorder_operation-reorders left right v w lv rv ml mr slot_v slot_w used used')
        j

  pair_faults-Faulty :
      (body : String × String → Result FaultError (List Operation)) {ops : List Operation}
      (op : Operation)
      → ((x y : String) (part : List Operation)
          → In x fields
          → In y fields
          → body (x, y) ≡ ok part
          → In op part
          → Faulty op)
      → gather body (pairs fields) ≡ ok ops
      → In op ops
      → Faulty op
  pair_faults-Faulty body op one h i =
      let ((x, y), m, (part, ran, j)) = gather-In body (pairs fields) op h i in
      let (mx, my) = pairs-In fields x y m in one x y part mx my ran j

  fault_actions-Faulty :
      (fault : String) {ops : List Operation} (op : Operation)
      → fault_actions spec fields fault ≡ ok ops
      → In op ops
      → Faulty op
  unfolding fault_actions
  fault_actions-Faulty fault op h i = elim (Bool-cases (str_eq fault "message_loss")) [
    | inl is ↦
        let h' = rw is at h in
        let (field, m, (part, ran, j)) = gather-In (drop_faults spec) fields op h' i in
        drop_faults-Faulty field op m ran j
    | inr no₁ ↦ elim (Bool-cases (str_eq fault "duplication")) [
      | inl is ↦
          pair_faults-Faulty (duplicate_faults spec) op
            (λ x y part mx my ran j. duplicate_faults-Faulty x y op mx my ran j)
            (let q = rw (no₁, is) at h in q) i
      | inr no₂ ↦ elim (Bool-cases (str_eq fault "reordering")) [
        | inl is ↦
            pair_faults-Faulty (reorder_faults spec) op
              (λ x y part mx my ran j. reorder_faults-Faulty x y op mx my ran j)
              (let q = rw (no₁, no₂, is) at h in q) i
        | inr no₃ ↦
            let q = rw (no₁, no₂, no₃) at h in elim (subst (In op) (sym (ok_injective q)) i) [ ]
      ]
    ]
  ]

-- Every enabled injected operation is a fault of the network: it empties an occupied slot, copies a
-- message into an empty slot, or swaps the messages of two occupied slots.
pub inject_fault_actions-NetworkFault :
    (spec : DomainSpec) (faults fields : List String) (ops : List Operation) (op : Operation)
    (s t : Fields)
    → inject_fault_actions spec faults fields ≡ ok ops
    → In op ops
    → guards_hold op s ≡ ok true
    → apply_effects op s ≡ ok t
    → NetworkFault spec fields s t
unfolding inject_fault_actions
inject_fault_actions-NetworkFault spec faults fields ops op s t h i =
    let (fault, _, (part, ran, j)) = gather-In (fault_actions spec fields) faults op h i in
    fault_actions-Faulty spec fields s t fault op ran j
