-- ===== src/Coordination/Containment.antt =====
-- What it means in pipeline/a2a_coordination.py that one path scope contains another.

use formalspecgen.Coordination.Scope.{is_empty, same_text, slash, starts_with, strip_slashes}
use formalspecgen.Prelude.{
  Bool-cases, List, [], and_true, arith, inl, inr, refl, true, ℕ, ◌&&◌, ◌++◌, ◌==◌, ◌∷◌, ◌≡◌,
}

pub same_text_sound : (xs ys : List ℕ) → same_text xs ys ≡ true → xs ≡ ys
unfolding same_text
same_text_sound [] [] h = refl
same_text_sound [] (y ∷ ys) h = cc
same_text_sound (x ∷ xs) [] h = cc
same_text_sound (x ∷ xs) (y ∷ ys) h =
    let both = and_true {a = x == y} h in
    let tails = same_text_sound xs ys both.1 in
    let heads : x ≡ y = (let q = both.0 in ground arith) in cc (heads, tails)

pub same_text_refl : (xs : List ℕ) → same_text xs xs ≡ true
unfolding same_text
same_text_refl [] = refl
same_text_refl (x ∷ xs) = let e : (x == x) ≡ true = ground arith in rw e (same_text_refl xs)

pub starts_with_trans :
    (xs ys text : List ℕ)
    → starts_with xs ys ≡ true
    → starts_with ys text ≡ true
    → starts_with xs text ≡ true
unfolding starts_with
starts_with_trans [] ys text h k = refl
starts_with_trans (x ∷ xs) [] text h k = cc
starts_with_trans (x ∷ xs) (y ∷ ys) [] h k = cc
starts_with_trans (x ∷ xs) (y ∷ ys) (c ∷ text) h k =
    let first = and_true {a = x == y} h in
    let second = and_true {a = y == c} k in
    let tails = starts_with_trans xs ys text first.1 second.1 in
    let heads : (x == c) ≡ true = (let p = first.0 in let q = second.0 in ground arith) in
    rw heads tails

pub starts_with-append_left :
    (xs ys text : List ℕ) → starts_with (xs ++ ys) text ≡ true → starts_with xs text ≡ true
unfolding starts_with
starts_with-append_left [] ys text h = refl
starts_with-append_left (x ∷ xs) ys [] h = cc
starts_with-append_left (x ∷ xs) ys (c ∷ text) h =
    let both = and_true {a = x == c} h in rw both.0 (starts_with-append_left xs ys text both.1)

-- Dropping slashes at the end leaves a text that, with one slash behind it, is a beginning of the whole.
pub starts_with-strip_slashes :
    (xs : List ℕ) → starts_with (strip_slashes xs ++ slash) (xs ++ slash) ≡ true
unfolding starts_with strip_slashes
starts_with-strip_slashes [] = refl
starts_with-strip_slashes (x ∷ xs) =
    let ih = starts_with-strip_slashes xs in
    elim (Bool-cases (is_empty (strip_slashes xs) && (x == b'/'))) [
      | inl t ↦
          let both = and_true {a = is_empty (strip_slashes xs)} t in
          let e : (b'/' == x) ≡ true = (let q = both.1 in ground arith) in rw (t, e)
      | inr f ↦ let e : (x == x) ≡ true = ground arith in rw (f, e) ih
    ]
