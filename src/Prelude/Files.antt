-- ===== src/Prelude/Files.antt =====
-- The event files of a directory, as `_events` of pipeline/a2a_coordination.py and of
-- pipeline/agentic/state_store.py lists them. The files are named by their numbers, padded to six digits,
-- and only names of six digits are read: the millionth file is written, and not read.
use Prim.Native.Nat.{suc, zero, ℕ, ◌<◌, ◌≤◌}
use mathlib.Core.Bool.{Bool, false}
use mathlib.Core.List.{List, [], ◌++◌, ◌∷◌}
use mathlib.Core.Logic.{inl, inr, ◌⊎◌}
use mathlib.Core.Path.{ap, refl, ◌≡◌}
use native.Mathlib.Decide.{dec_lt}
use native.Mathlib.Omega.{arith}
use formalspecgen.Prelude.Lists.{length, length-append}
use formalspecgen.Prelude.Tests.{ltb}

ltb_irrefl : (n : ℕ) → ltb n n ≡ false
ltb_irrefl n = ground arith

module _ {A : Type 0} where
  unfoldable pub take : ℕ → List A → List A
  take zero xs = []
  take (suc n) [] = []
  take (suc n) (x ∷ xs) = x ∷ take n xs

  take-all : (n : ℕ) (xs : List A) → length xs ≤ n → take n xs ≡ xs
  unfolding take
  take-all zero [] h = refl
  take-all zero (x ∷ xs) h = absurd (omega arith)
  take-all (suc n) [] h = refl
  take-all (suc n) (x ∷ xs) h = ap (λ l. x ∷ l) (take-all n xs (omega arith))

  take-append : (n : ℕ) (xs ys : List A) → n ≤ length xs → take n (xs ++ ys) ≡ take n xs
  unfolding take
  take-append zero xs ys h = refl
  take-append (suc n) [] ys h = absurd (omega arith)
  take-append (suc n) (x ∷ xs) ys h = ap (λ l. x ∷ l) (take-append n xs ys (omega arith))

  unfoldable pub event_files : List A → List A
  unfolding take
  event_files xs = take 999999 xs

  -- Whether the file that the next event is written to exists: `os.link` does not replace it.
  unfoldable pub next_exists : List A → Bool
  unfolding event_files
  next_exists xs = ltb (length (event_files xs)) (length xs)

  -- There is room for one more event, or there is none.
  pub room_cases : (xs : List A) → (length xs < 999999) ⊎ (999999 ≤ length xs)
  room_cases xs = elim (dec_lt (length xs) 999999) [ yes h ↦ inl h | no h ↦ inr (omega arith) ]

  pub event_files-short : (xs : List A) → length xs < 999999 → event_files xs ≡ xs
  unfolding event_files
  event_files-short xs h = take-all 999999 xs (omega arith)

  pub event_files-snoc_short :
      (xs : List A) (x : A) → length xs < 999999 → event_files (xs ++ x ∷ []) ≡ xs ++ x ∷ []
  unfolding event_files
  event_files-snoc_short xs x h =
      take-all 999999 (xs ++ x ∷ []) (omega (arith, length-append {0} xs (x ∷ [])))

  pub event_files-snoc_full :
      (xs : List A) (x : A) → 999999 ≤ length xs → event_files (xs ++ x ∷ []) ≡ event_files xs
  unfolding event_files
  event_files-snoc_full xs x h = take-append 999999 xs (x ∷ []) h

  pub next_exists-short : (xs : List A) → length xs < 999999 → next_exists xs ≡ false
  unfolding next_exists
  next_exists-short xs h = rw (event_files-short xs h) (ltb_irrefl (length xs))

  take-eq-nil : (n : ℕ) (xs : List A) → 0 < n → take n xs ≡ [] → xs ≡ []
  unfolding take
  take-eq-nil zero xs pos h = absurd (omega arith)
  take-eq-nil (suc n) [] pos h = refl
  take-eq-nil (suc n) (x ∷ xs) pos h = cc h

  pub event_files-nil : event_files [] ≡ []
  unfolding event_files
  event_files-nil = take-all 999999 [] (omega arith)

  pub event_files-eq-nil : (xs : List A) → event_files xs ≡ [] → xs ≡ []
  unfolding event_files
  event_files-eq-nil xs h = take-eq-nil 999999 xs (omega arith) h
