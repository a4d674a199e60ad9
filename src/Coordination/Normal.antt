-- ===== src/Coordination/Normal.antt =====
-- The form of the scopes that `_scope` of pipeline/a2a_coordination.py returns: no two slashes in a row.

use formalspecgen.Coordination.Scope.{is_empty}
use mathlib.Core.Path.{subst}
use formalspecgen.Coordination.Containment.{same_text_sound}
use formalspecgen.Coordination.Scope.{
  add_first, before_tree, is_absolute, is_metadata, is_name, is_parent_step, join_slashes, names_of,
  parts, same_text, scope, split_slashes, strip_slashes, tree_mark, wildcards_allowed,
}
use formalspecgen.Prelude.{
  All, Bool, Bool-cases, List, Option-cases, [], and_true, any, ap, false, inl, inr, not, refl,
  some, some_injective, true, ℕ, ◌&&◌, ◌++◌, ◌==◌, ◌||◌, ◌∙◌, ◌∷◌, ◌≡◌,
}
use formalspecgen.Result.{>>=-eq-ok, ok, ok_injective, refuse, require}

abbrev HasNoSlash : List ℕ → Type 0
HasNoSlash = All (λ c. (c == b'/') ≡ false)

abbrev IsPart : List ℕ → Type 0
IsPart p = HasNoSlash p × (is_empty p ≡ false)

abbrev no_double : List ℕ → Bool
no_double [] = true
no_double (c ∷ cs) = not ((c == b'/') && is_absolute cs) && no_double cs

add_first-HasNoSlash :
    (c : ℕ) (ps : List (List ℕ))
    → (c == b'/') ≡ false
    → All HasNoSlash ps
    → All HasNoSlash (add_first c ps)
add_first-HasNoSlash c [] h all_ps = ((h, tt), tt)
add_first-HasNoSlash c (p ∷ ps) h all_ps = ((h, all_ps.0), all_ps.1)

split_slashes-HasNoSlash : (cs : List ℕ) → All HasNoSlash (split_slashes cs)
unfolding split_slashes
split_slashes-HasNoSlash [] = (tt, tt)
split_slashes-HasNoSlash (c ∷ cs) = elim (Bool-cases (c == b'/')) [
  | inl t ↦ rw t (tt, split_slashes-HasNoSlash cs)
  | inr f ↦ rw f (add_first-HasNoSlash c _ f (split_slashes-HasNoSlash cs))
]

is_name-not_empty : (p : List ℕ) → is_name p ≡ true → is_empty p ≡ false
is_name-not_empty [] h = cc
is_name-not_empty (c ∷ cs) h = refl

names_of-IsPart : (ps : List (List ℕ)) → All HasNoSlash ps → All IsPart (names_of ps)
unfolding names_of
names_of-IsPart [] h = tt
names_of-IsPart (p ∷ ps) h = elim (Bool-cases (is_name p)) [
  | inl t ↦ rw t ((h.0, is_name-not_empty p t), names_of-IsPart ps h.1)
  | inr f ↦ rw f (names_of-IsPart ps h.1)
]

-- A part, a slash, and a text that does not start with one.
no_double-append :
    (p rest : List ℕ)
    → IsPart p
    → is_absolute rest ≡ false
    → no_double rest ≡ true
    → (no_double (p ++ b'/' ∷ rest) ≡ true) × (is_absolute (p ++ b'/' ∷ rest) ≡ false)
no_double-append [] rest h first clean = cc h.1
no_double-append (c ∷ []) rest h first clean = let at_c = h.0.0 in (rw (at_c, first, clean), at_c)
no_double-append (c ∷ d ∷ p) rest h first clean =
    let at_c = h.0.0 in
    let ih = no_double-append (d ∷ p) rest (h.0.1, refl) first clean in (rw at_c ih.0, at_c)

HasNoSlash-no_double : (p : List ℕ) → HasNoSlash p → no_double p ≡ true
HasNoSlash-no_double [] h = refl
HasNoSlash-no_double (c ∷ cs) h = let at_c = h.0 in rw at_c (HasNoSlash-no_double cs h.1)

IsPart-relative : (p : List ℕ) → IsPart p → is_absolute p ≡ false
IsPart-relative [] h = refl
IsPart-relative (c ∷ cs) h = h.0.0

join_slashes-no_double :
    (ps : List (List ℕ))
    → All IsPart ps
    → (no_double (join_slashes ps) ≡ true) × (is_absolute (join_slashes ps) ≡ false)
unfolding join_slashes
join_slashes-no_double [] h = (refl, refl)
join_slashes-no_double (p ∷ []) h = (HasNoSlash-no_double p h.0.0, IsPart-relative p h.0)
join_slashes-no_double (p ∷ q ∷ ps) h =
    let ih = join_slashes-no_double (q ∷ ps) h.1 in
    no_double-append p (join_slashes (q ∷ ps)) h.0 ih.1 ih.0

-- What `_scope` returns has no two slashes in a row.
scope-no_double : (raw s : List ℕ) → scope raw ≡ ok s → no_double s ≡ true
unfolding scope parts
scope-no_double raw s h =
    let ps = parts raw in
    let (_, _, a) =
      >>=-eq-ok (refuse (is_absolute raw || (is_empty ps || any is_parent_step ps)) _) _ h in
    let (_, _, b) = >>=-eq-ok (refuse (any is_metadata ps) _) _ a in
    let (_, _, c) = >>=-eq-ok (require (wildcards_allowed ps) _) _ b in
    subst (λ text. no_double text ≡ true) (ok_injective c)
      (join_slashes-no_double ps
        (names_of-IsPart (split_slashes raw) (split_slashes-HasNoSlash raw))).0

strip_slashes-no_double :
    (p rest : List ℕ) → no_double (p ++ b'/' ∷ rest) ≡ true → strip_slashes p ≡ p
unfolding strip_slashes
strip_slashes-no_double [] rest h = refl
strip_slashes-no_double (c ∷ []) rest h = elim (Bool-cases (c == b'/')) [
  | inl t ↦ let q = rw t at h in cc q
  | inr f ↦ rw f
]
strip_slashes-no_double (c ∷ d ∷ p) rest h =
    let tail = (and_true {b = no_double (d ∷ p ++ b'/' ∷ rest)} h).1 in
    let ih = strip_slashes-no_double (d ∷ p) rest tail in rw ih

pub before_tree-append : (s p : List ℕ) → before_tree s ≡ some p → s ≡ p ++ tree_mark
unfolding before_tree
before_tree-append [] p h = cc
before_tree-append (c ∷ cs) p h = elim (Bool-cases (same_text (c ∷ cs) tree_mark)) [
  | inl t ↦
      let q = some_injective (rw t at h) in
      same_text_sound (c ∷ cs) tree_mark t ∙ ap (λ (l : List ℕ). l ++ tree_mark) q
  | inr f ↦ elim (Option-cases (before_tree cs)) [
    | inl nothing ↦ let q = rw (f, nothing) at h in cc q
    | inr (p', found) ↦
        let q = some_injective (rw (f, found) at h) in
        ap (λ l. c ∷ l) (before_tree-append cs p' found) ∙ ap (λ (l : List ℕ). l ++ tree_mark) q
  ]
]

-- Nothing is stripped from the tree of a scope that `_scope` returns.
pub scope-before_tree :
    (raw s p : List ℕ) → scope raw ≡ ok s → before_tree s ≡ some p → strip_slashes p ≡ p
scope-before_tree raw s p h found =
    strip_slashes-no_double p (b'*' ∷ b'*' ∷ []) (
      subst (λ text. no_double text ≡ true) (before_tree-append s p found)
        (scope-no_double raw s h))
