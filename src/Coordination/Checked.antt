-- ===== src/Coordination/Checked.antt =====
-- What `WorkItem.__post_init__` of pipeline/a2a_coordination.py leaves of the paths of an item.

use formalspecgen.Coordination.Scope.{is_empty}
use mathlib.Core.Path.{subst}
use formalspecgen.Coordination.{WorkItem, is_subset}
use formalspecgen.Coordination.Containment.{same_text_sound}
use formalspecgen.Coordination.Items.{
  check_parent_id, check_texts, checked_budget, checked_item, insert_text, mcp_effects, scopes,
  sorted_texts, supported_deliverables,
}
use formalspecgen.Coordination.Scope.{same_text, scope}
use formalspecgen.Coordination.Store.{comes_before}
use formalspecgen.Prelude.{
  All, All-of, Bool-cases, In, List, String, [], ap, inl, inr, not, refl, sym, ℕ, ℤ, ◌&&◌, ◌∙◌, ◌∷◌,
  ◌≡◌, ◌⊎◌,
}
use formalspecgen.Result.{>>=-eq-ok, ok, ok_injective, refuse, require}

In-insert_text :
    (x : List ℕ) (ys : List (List ℕ)) (s : List ℕ) → In s (insert_text x ys) → (s ≡ x) ⊎ In s ys
unfolding insert_text
In-insert_text x [] s m = m
In-insert_text x (y ∷ ys) s m = elim (Bool-cases (same_text x y)) [
  | inl same ↦ let q = rw same at m in inr q
  | inr other ↦ elim (Bool-cases (comes_before x y)) [
    | inl sooner ↦ let q = rw (other, sooner) at m in q
    | inr later ↦
        let q : (s ≡ y) ⊎ In s (insert_text x ys) = rw (other, later) at m in
        elim q [
          | inl first ↦ inr (inl first)
          | inr rest ↦ elim (In-insert_text x ys s rest) [ inl e ↦ inl e | inr n ↦ inr (inr n) ]
        ]
  ]
]

insert_text-In :
    (x : List ℕ) (ys : List (List ℕ)) (s : List ℕ) → (s ≡ x) ⊎ In s ys → In s (insert_text x ys)
unfolding insert_text
insert_text-In x [] s m = m
insert_text-In x (y ∷ ys) s m = elim (Bool-cases (same_text x y)) [
  | inl same ↦ rw same (elim m [ inl e ↦ inl (e ∙ same_text_sound x y same) | inr n ↦ n ])
  | inr other ↦ elim (Bool-cases (comes_before x y)) [
    | inl sooner ↦ rw (other, sooner) m
    | inr later ↦
        let found : (s ≡ y) ⊎ In s (insert_text x ys) = elim m [
          | inl e ↦ inr (insert_text-In x ys s (inl e))
          | inr n ↦ elim n [
            | inl first ↦ inl first
            | inr rest ↦ inr (insert_text-In x ys s (inr rest))
          ]
        ] in
        rw (other, later) found
  ]
]

-- Sorting keeps the elements.
In-sorted_texts : (xs : List (List ℕ)) (s : List ℕ) → In s (sorted_texts xs) → In s xs
unfolding sorted_texts
In-sorted_texts [] s m = m
In-sorted_texts (x ∷ xs) s m = elim (In-insert_text x (sorted_texts xs) s m) [
  | inl e ↦ inl e
  | inr n ↦ inr (In-sorted_texts xs s n)
]

sorted_texts-In : (xs : List (List ℕ)) (s : List ℕ) → In s xs → In s (sorted_texts xs)
unfolding sorted_texts
sorted_texts-In [] s m = m
sorted_texts-In (x ∷ xs) s (inl e) = insert_text-In x (sorted_texts xs) s (inl e)
sorted_texts-In (x ∷ xs) s (inr m) =
    insert_text-In x (sorted_texts xs) s (inr (sorted_texts-In xs s m))

module _ (p : List ℕ) (ps ss : List (List ℕ)) (h : scopes (p ∷ ps) ≡ ok ss) where
  scopes-cons :
      (s : List ℕ) × ((rest : List (List ℕ)) × (scope p ≡ ok s)
        × (scopes ps ≡ ok rest)
        × (s ∷ rest ≡ ss))
  unfolding scopes
  scopes-cons =
      let (s, first, a) = >>=-eq-ok (scope p) _ h in
      let (rest, others, b) = >>=-eq-ok (scopes ps) _ a in
      (s, (rest, first, others, ok_injective b))

In-scopes :
    (ps ss : List (List ℕ)) (s : List ℕ)
    → scopes ps ≡ ok ss
    → In s ss
    → (raw : List ℕ) × In raw ps × (scope raw ≡ ok s)
unfolding scopes
In-scopes [] ss s h m = let q = subst (In s) (sym (ok_injective h)) m in elim q [ ]
In-scopes (p ∷ ps) ss s h m =
    let (t, (rest, first, others, e)) = scopes-cons p ps ss h in
    let n : In s (t ∷ rest) = subst (In s) (sym e) m in
    elim n [
      | inl same ↦ (p, inl refl, first ∙ ap ok (sym same))
      | inr later ↦ let (raw, m, made) = In-scopes ps rest s others later in (raw, inr m, made)
    ]

scopes-In :
    (ps ss : List (List ℕ)) (raw : List ℕ)
    → scopes ps ≡ ok ss
    → In raw ps
    → (s : List ℕ) × (scope raw ≡ ok s) × In s ss
scopes-In [] ss raw h m = elim m [ ]
scopes-In (p ∷ ps) ss raw h m =
    let (t, (rest, first, others, e)) = scopes-cons p ps ss h in
    elim m [
      | inl same ↦ (t, ap scope same ∙ first, subst (In t) e (inl refl))
      | inr later ↦
          let (s, scoped, n) = scopes-In ps rest raw others later in
          (s, scoped, subst (In s) e (inr n))
    ]

checked_item-paths :
    (strip : String → String) (item checked : WorkItem) (budget : List (String × ℤ))
    → checked_item strip item budget ≡ ok checked
    → (allowed : List (List ℕ)) × ((protected : List (List ℕ)) × (scopes item.allowed_paths
          ≡ ok allowed)
        × (scopes item.protected_paths ≡ ok protected)
        × (checked.allowed_paths ≡ sorted_texts allowed)
        × (checked.protected_paths ≡ sorted_texts protected))
unfolding checked_item
checked_item-paths strip item checked budget h =
    let (_, _, a) = >>=-eq-ok (check_texts strip item) _ h in
    let (allowed, reads_allowed, b) = >>=-eq-ok (scopes item.allowed_paths) _ a in
    let (protected, reads_protected, c) = >>=-eq-ok (scopes item.protected_paths) _ b in
    let (_, _, d) = >>=-eq-ok (refuse (is_empty allowed) _) _ c in
    let (_, _, e) = >>=-eq-ok (require (is_subset item.requested_effects mcp_effects) _) _ d in
    let (_, _, f) =
      >>=-eq-ok
        (require
          (not (is_empty item.deliverables) && is_subset item.deliverables supported_deliverables)
          _)
        _ e in
    let (_, _, g) = >>=-eq-ok (checked_budget budget) _ f in
    let (_, _, k) = >>=-eq-ok (check_parent_id item.work_item_id item.parent_work_item_id) _ g in
    let q = ok_injective k in
    (
      allowed,
      (
        protected,
        reads_allowed,
        reads_protected,
        ap (λ (x : WorkItem). x.allowed_paths) (sym q),
        ap (λ (x : WorkItem). x.protected_paths) (sym q),
      ),
    )

-- The normalised scope of a path is among some scopes.
abbrev pub IsKept : List (List ℕ) → List ℕ → Type 0
IsKept checked raw = (s : List ℕ) × (scope raw ≡ ok s) × In s checked

-- A scope is the normalised one of a path that was listed.
abbrev pub IsMade : List (List ℕ) → List ℕ → Type 0
IsMade listed s = (raw : List ℕ) × In raw listed × (scope raw ≡ ok s)

-- Two lists of paths are the same after normalisation.
abbrev pub SameScopes : List (List ℕ) → List (List ℕ) → Type 0
SameScopes listed checked = All (IsMade listed) checked × All (IsKept checked) listed

scopes-SameScopes :
    (listed ss checked : List (List ℕ))
    → scopes listed ≡ ok ss
    → checked ≡ sorted_texts ss
    → SameScopes listed checked
scopes-SameScopes listed ss checked made e = (
  All-of (IsMade listed) checked
      (λ s m. In-scopes listed ss s made (In-sorted_texts ss s (subst (In s) e m))),
  All-of (IsKept checked) listed (λ raw m.
      let (s, scoped, n) = scopes-In listed ss raw made m in
      (s, scoped, subst (In s) (sym e) (sorted_texts-In ss s n))),
)

-- Checking an item normalises its paths, and neither drops nor invents one. If an item passes its checks,
-- then every allowed scope is the normalised one of an allowed path that the item lists, the normalised
-- scope of every allowed path that it lists is among them, and the same holds of its protected paths.
pub checked_item-SameScopes :
    (strip : String → String) (item checked : WorkItem) (budget : List (String × ℤ))
    → checked_item strip item budget ≡ ok checked
    → SameScopes item.allowed_paths checked.allowed_paths
      × SameScopes item.protected_paths checked.protected_paths
checked_item-SameScopes strip item checked budget h =
    let (allowed, (protected, all_allowed, all_protected, e, f)) =
      checked_item-paths strip item checked budget h in
    (
      scopes-SameScopes item.allowed_paths allowed checked.allowed_paths all_allowed e,
      scopes-SameScopes item.protected_paths protected checked.protected_paths all_protected f,
    )
