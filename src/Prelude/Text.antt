-- ===== src/Prelude/Text.antt =====
-- The patterns of Python's `re` that the sources match whole texts against, over code points.
use Prim.Native.Nat.{ℕ}
use Prim.Native.Char.{code}
use Prim.Native.String.{String}
use mathlib.Core.Bool.{Bool, false, ◌&&◌, ◌||◌}
use mathlib.Core.List.{List, [], ◌∷◌}
use formalspecgen.Prelude.Tests.{leb, ◌==◌}
use formalspecgen.Prelude.Lists.{length, all}

abbrev pub codes : String → List ℕ
codes String.[] = []
codes (String.◌∷◌ c s) = code c ∷ codes s

abbrev pub is_upper : ℕ → Bool
is_upper c = leb b'A' c && leb c b'Z'

abbrev pub is_lower : ℕ → Bool
is_lower c = leb b'a' c && leb c b'z'

abbrev pub is_digit : ℕ → Bool
is_digit c = leb b'0' c && leb c b'9'

abbrev pub is_letter : ℕ → Bool
is_letter c = is_upper c || is_lower c

-- One code point of a first class, and any number of a second.
unfoldable pub starts_then : (ℕ → Bool) → (ℕ → Bool) → List ℕ → Bool
starts_then first rest [] = false
starts_then first rest (c ∷ cs) = first c && all rest cs

-- `[A-Za-z_][A-Za-z0-9_]*`
unfoldable pub is_identifier : String → Bool
unfolding starts_then
is_identifier s =
    starts_then (λ c. is_letter c || c == b'_') (λ c. is_letter c || (is_digit c || c == b'_'))
      (codes s)

-- `[A-Z][A-Za-z0-9]*`
unfoldable pub is_pascal_case : String → Bool
unfolding starts_then
is_pascal_case s = starts_then is_upper (λ c. is_letter c || is_digit c) (codes s)

-- `[a-z_][a-z0-9_]*`
unfoldable pub is_module_name : String → Bool
unfolding starts_then
is_module_name s =
    starts_then (λ c. is_lower c || c == b'_') (λ c. is_lower c || (is_digit c || c == b'_'))
      (codes s)

abbrev pub is_hex : ℕ → Bool
is_hex c = is_digit c || (leb b'a' c && leb c b'f')

-- `[0-9a-f]{n}`
unfoldable pub is_hex_digest : ℕ → String → Bool
is_hex_digest n s = (length (codes s) == n) && all is_hex (codes s)

-- `[A-Za-z0-9][A-Za-z0-9._-]{0,127}`
unfoldable pub is_run_identifier : String → Bool
unfolding starts_then
is_run_identifier s =
    starts_then (λ c. is_letter c || is_digit c)
      (λ c. is_letter c || (is_digit c || (c == b'.' || (c == b'_' || c == b'-')))) (codes s)
    && leb (length (codes s)) 128
