-- ===== src/Result.antt =====
-- Python's exceptions as values: a computation returns a value or raises an error of its own kind.
-- `for_each` is a `for` loop whose body updates a state and may raise.
use formalspecgen.Prelude.{
  ◌≡◌, refl, Bool, true, false, Option, none, some, List, [], ◌∷◌, In, All, inl, inr,
}
use mathlib.Core.Path.{subst}

pub data Result {ℓ} (E A : Type ℓ) : Type ℓ where
  ok : A → Result E A
  err : E → Result E A

module _ {ℓ} {E A B : Type ℓ} where
  infixl 5 ◌>>=◌
  abbrev pub ◌>>=◌ : Result E A → (A → Result E B) → Result E B
  err raised >>= next = err raised
  ok value >>= next = next value

  -- A sequence that returns has a first part that returns.
  pub >>=-eq-ok :
      (first : Result E A) (next : A → Result E B) {last : B}
      (returned : (first >>= next) ≡ ok last)
      → (value : A) × (first ≡ ok value) × (next value ≡ ok last)
  >>=-eq-ok (err raised) next returned = cc
  >>=-eq-ok (ok value) next returned = (value, refl, returned)

pub ok_injective : {E A : Type 0} {a b : A} → ◌≡◌ {A = Result E A} (ok a) (ok b) → a ≡ b
ok_injective p = cc

infixl 5 ◌>>◌
abbrev pub ◌>>◌ : {E B : Type 0} → Result E (Unit {0}) → Result E B → Result E B
m >> k = m >>= λ _. k

module _ {E : Type 0} where
  -- `if not test: raise e`
  abbrev pub require : Bool → E → Result E (Unit {0})
  require true e = ok tt
  require false e = err e

  -- `if test: raise e`
  abbrev pub refuse : Bool → E → Result E (Unit {0})
  refuse true e = err e
  refuse false e = ok tt

  abbrev pub or_raise : {A : Type 0} → Option A → E → Result E A
  or_raise none e = err e
  or_raise (some a) e = ok a

  pub require-eq-ok : (b : Bool) (e : E) {u : Unit} → require b e ≡ ok u → b ≡ true
  require-eq-ok true e h = refl
  require-eq-ok false e h = cc

  pub refuse-eq-ok : (b : Bool) (e : E) {u : Unit} → refuse b e ≡ ok u → b ≡ false
  refuse-eq-ok true e h = cc
  refuse-eq-ok false e h = refl

  pub or_raise-eq-ok :
      {A : Type 0} (o : Option A) (e : E) {a : A} → or_raise o e ≡ ok a → o ≡ some a
  or_raise-eq-ok none e h = cc
  or_raise-eq-ok (some a) e h = cc

module _ {E S A : Type 0} where
  unfoldable pub for_each : (A → S → Result E S) → List A → S → Result E S
  for_each body [] s = ok s
  for_each body (x ∷ xs) s = body x s >>= for_each body xs

  -- A relation that every round keeps, reflexive and transitive, holds from start to end.
  pub for_each-rel :
      (R : S → S → Type 0)
      → ((s : S) → R s s)
      → ((s t u : S) → R s t → R t u → R s u)
      → (body : A → S → Result E S) (xs : List A)
      → ((x : A) → In x xs → (s t : S) → body x s ≡ ok t → R s t)
      → (s t : S) → for_each body xs s ≡ ok t
      → R s t
  unfolding for_each
  for_each-rel R refl_R trans_R body [] step s t h = subst (R s) (ok_injective h) (refl_R s)
  for_each-rel R refl_R trans_R body (x ∷ xs) step s t h =
      let (u, first, rest) = >>=-eq-ok (body x s) (for_each body xs) h in
      trans_R s u t (step x (inl refl) s u first)
        (for_each-rel R refl_R trans_R body xs (λ y m. step y (inr m)) u t rest)

-- Checks made one after the other: the first that raises ends the run.
unfoldable pub in_order : {E : Type 0} → List (Result E (Unit {0})) → Result E (Unit {0})
in_order [] = ok tt
in_order (m ∷ ms) = m >> in_order ms

module _ {E : Type 0} where
  abbrev pub IsOk : Result E (Unit {0}) → Type 0
  IsOk m = m ≡ ok tt

  pub ok_unit : (m : Result E (Unit {0})) {u : Unit {0}} → m ≡ ok u → IsOk m
  ok_unit (ok tt) h = refl
  ok_unit (err e) h = cc

  pub in_order-All : (ms : List (Result E (Unit {0}))) → IsOk (in_order ms) → All IsOk ms
  unfolding in_order
  in_order-All [] h = tt
  in_order-All (m ∷ ms) h =
      let (u, first, rest) = >>=-eq-ok m (λ _. in_order ms) h in
      (ok_unit m first, in_order-All ms rest)

-- `for x in xs: check(x)`
unfoldable pub each : {E A : Type 0} → (A → Result E (Unit {0})) → List A → Result E (Unit {0})
each check [] = ok tt
each check (x ∷ xs) = check x >> each check xs

module _ {E A : Type 0} where
  pub each-In :
      (check : A → Result E (Unit {0})) (xs : List A)
      → IsOk (each check xs)
      → (x : A) → In x xs
      → IsOk (check x)
  unfolding each
  each-In check [] h x m = elim m [ ]
  each-In check (y ∷ ys) h x m =
      let (u, first, rest) = >>=-eq-ok (check y) (λ _. each check ys) h in
      elim m [ inl e ↦ rw e (ok_unit (check y) first) | inr m' ↦ each-In check ys rest x m' ]

module _ {E S A : Type 0} where
  -- Every element of a loop that returns had a round that returned.
  pub for_each-In :
      (body : A → S → Result E S) (xs : List A) (s t : S)
      → for_each body xs s ≡ ok t
      → (x : A) → In x xs
      → (u v : S) × (body x u ≡ ok v)
  unfolding for_each
  for_each-In body [] s t h x m = elim m [ ]
  for_each-In body (y ∷ ys) s t h x m =
      let (u, first, rest) = >>=-eq-ok (body y s) (for_each body ys) h in
      elim m [ inl e ↦ (s, u, rw e first) | inr m' ↦ for_each-In body ys u t rest x m' ]
