-- ===== src/Coordination/Inclusion.antt =====
-- Contained scopes of pipeline/a2a_coordination.py allow no further paths: `_scope_contains` against
-- `_path_allowed`.

use mathlib.Core.Path.{subst}
use formalspecgen.Coordination.Containment.{
  same_text_refl, same_text_sound, starts_with-append_left, starts_with-strip_slashes,
  starts_with_trans,
}
use formalspecgen.Coordination.Normal.{scope-before_tree}
use formalspecgen.Coordination.Scope.{
  before_tree, path_allowed, same_text, scope, scope_contains, scope_matches, scope_prefix, slash,
  strip_slashes,
}
use formalspecgen.Prelude.{
  Bool, Bool-cases, In, List, Option-cases, [], all, all-In, any, any-In, ap, false, inl, inr, none,
  or_true, some, sym, true, ℕ, ◌++◌, ◌∙◌, ◌∷◌, ◌≡◌, ◌⊎◌,
}
use formalspecgen.Result.{ok}

scope_prefix-plain : (s : List ℕ) → before_tree s ≡ none → scope_prefix s ≡ (s, false)
unfolding scope_prefix
scope_prefix-plain s h = rw (h, scope_prefix)

scope_prefix-tree :
    (s p : List ℕ) → before_tree s ≡ some p → strip_slashes p ≡ p → scope_prefix s ≡ (p, true)
unfolding scope_prefix
scope_prefix-tree s p h e = rw (h, scope_prefix, e)

scope_prefix-stripped :
    (s p : List ℕ) → before_tree s ≡ some p → scope_prefix s ≡ (strip_slashes p, true)
unfolding scope_prefix
scope_prefix-stripped s p h = rw (h, scope_prefix)

-- One scope: the only further path is the root of a tree.
scope_contains-scope_matches :
    (raw container candidate path : List ℕ)
    → scope raw ≡ ok container
    → scope_contains container candidate ≡ true
    → scope_matches path candidate ≡ true
    → (scope_matches path container ≡ true) ⊎ (before_tree container ≡ some path)
unfolding scope_contains scope_matches
scope_contains-scope_matches raw container candidate path normal inside matches =
    elim (Option-cases (before_tree container)) [
      | inl plain ↦ elim (Option-cases (before_tree candidate)) [
        | inl plain' ↦
            let q =
              rw
                (
                  scope_prefix-plain container plain,
                  scope_prefix-plain candidate plain',
                  scope_contains,
                )
                at inside in
            let m = rw (plain', scope_matches) at matches in
            let e : path ≡ container =
              same_text_sound path candidate m ∙ sym (same_text_sound container candidate q) in
            inl (rw (plain, scope_matches, e) (same_text_refl container))
        | inr (c, tree') ↦
            let q =
              rw
                (
                  scope_prefix-plain container plain,
                  scope_prefix-stripped candidate c tree',
                  scope_contains,
                )
                at inside in
            cc q
      ]
      | inr (p, tree) ↦
          let stripped = scope-before_tree raw container p normal tree in
          elim (Option-cases (before_tree candidate)) [
            | inl plain' ↦
                let q =
                  rw
                    (
                      scope_prefix-tree container p tree stripped,
                      scope_prefix-plain candidate plain',
                      scope_contains,
                    )
                    at inside in
                let m = same_text_sound path candidate (rw (plain', scope_matches) at matches) in
                elim (or_true {a = same_text candidate p} q) [
                  | inl same ↦ inr (tree ∙ ap some (sym (m ∙ same_text_sound candidate p same)))
                  | inr under ↦ inl (rw (tree, scope_matches, m) under)
                ]
            | inr (c, tree') ↦
                let q =
                  rw
                    (
                      scope_prefix-tree container p tree stripped,
                      scope_prefix-stripped candidate c tree',
                      scope_contains,
                    )
                    at inside in
                let m =
                  starts_with_trans (strip_slashes c ++ slash) (c ++ slash) path
                    (starts_with-strip_slashes c) (rw (tree', scope_matches) at matches) in
                elim (or_true {a = same_text (strip_slashes c) p} q) [
                  | inl same ↦
                      let e = sym (same_text_sound (strip_slashes c) p same) in
                      inl (rw (tree, scope_matches, e) m)
                  | inr under ↦ inl (
                      rw (tree, scope_matches)
                        (starts_with_trans (p ++ slash) (strip_slashes c) path under
                          (starts_with-append_left (strip_slashes c) slash path m)))
                ]
          ]
    ]

any-of-In :
    (p : List ℕ → Bool) (xs : List (List ℕ)) (a : List ℕ) → In a xs → p a ≡ true → any p xs ≡ true
any-of-In p [] a m h = elim m [ ]
any-of-In p (x ∷ xs) a (inl e) h = let q : p x ≡ true = subst (λ y. p y ≡ true) e h in rw q
any-of-In p (x ∷ xs) a (inr m) h =
    let ih = any-of-In p xs a m h in elim (Bool-cases (p x)) [ inl t ↦ rw t | inr f ↦ rw f ih ]

-- If every scope of a list is contained in a scope of another list, whose scopes `_scope` returned, then
-- a path that the first list allows is allowed by the second, or it is the root of one of its trees.
pub path_allowed-contained :
    (outer inner : List (List ℕ)) (path : List ℕ)
    → ((s : List ℕ) → In s outer → (raw : List ℕ) × (scope raw ≡ ok s))
    → all (λ s. any (λ o. scope_contains o s) outer) inner ≡ true
    → path_allowed path inner ≡ true
    → (path_allowed path outer ≡ true) ⊎ ((s : List ℕ) × In s outer × (before_tree s ≡ some path))
path_allowed-contained outer inner path normal inside allowed =
    let (s, s_in, matches) = any-In (scope_matches path) inner allowed in
    let (o, o_in, contains) =
      any-In (λ o. scope_contains o s) outer
        (all-In (λ t. any (λ o. scope_contains o t) outer) inner s inside s_in) in
    let (raw, made) = normal o o_in in
    elim (scope_contains-scope_matches raw o s path made contains matches) [
      | inl m ↦ inl (any-of-In (scope_matches path) outer o o_in m)
      | inr root ↦ inr (o, o_in, root)
    ]

-- A path that scopes allow, or the root of one of their trees.
abbrev pub IsInScope : List ℕ → List (List ℕ) → Type 0
IsInScope path paths =
    (path_allowed path paths ≡ true) ⊎ ((s : List ℕ) × In s paths × (before_tree s ≡ some path))

-- A path that the inner scopes do not allow, or that is in the outer ones.
abbrev pub IsScopedBy : List ℕ → List (List ℕ) → List (List ℕ) → Type 0
IsScopedBy path inner outer = (path_allowed path inner ≡ false) ⊎ IsInScope path outer

pub path_allowed-IsScopedBy :
    (outer inner : List (List ℕ)) (path : List ℕ)
    → ((s : List ℕ) → In s outer → (raw : List ℕ) × (scope raw ≡ ok s))
    → all (λ s. any (λ o. scope_contains o s) outer) inner ≡ true
    → IsScopedBy path inner outer
path_allowed-IsScopedBy outer inner path normal inside =
    elim (Bool-cases (path_allowed path inner)) [
      | inl allowed ↦ inr (path_allowed-contained outer inner path normal inside allowed)
      | inr denied ↦ inl denied
    ]
