-- ===== src/Coordination/Scope.antt =====
-- The path scopes of pipeline/a2a_coordination.py: `_scope`, `_scope_prefix`, `_scope_contains` and
-- `_path_allowed`, over code points.

use formalspecgen.Coordination.{TaskError, deny}
use formalspecgen.Prelude.{
  Bool, List, Option, [], any, false, if◌then◌else◌, none, not, some, true, ℕ, ◌&&◌, ◌++◌, ◌+◌,
  ◌==◌, ◌||◌, ◌∷◌,
}
use formalspecgen.Prelude.Text.{codes}
use formalspecgen.Result.{Result, ok, refuse, require, ◌>>◌}

unfoldable pub same_text : List ℕ → List ℕ → Bool
same_text [] [] = true
same_text (a ∷ as_) (b ∷ bs) = (a == b) && same_text as_ bs
same_text _ _ = false

unfoldable pub starts_with : List ℕ → List ℕ → Bool
starts_with [] text = true
starts_with (a ∷ p) [] = false
starts_with (a ∷ p) (b ∷ text) = (a == b) && starts_with p text

abbrev pub slash : List ℕ
slash = b'/' ∷ []

abbrev pub tree_mark : List ℕ
tree_mark = b'/' ∷ b'*' ∷ b'*' ∷ []

-- A code point before the first of some parts.
abbrev pub add_first : ℕ → List (List ℕ) → List (List ℕ)
add_first c [] = (c ∷ []) ∷ []
add_first c (p ∷ ps) = (c ∷ p) ∷ ps

-- `split("/")`
unfoldable pub split_slashes : List ℕ → List (List ℕ)
split_slashes [] = [] ∷ []
split_slashes (c ∷ cs) =
    let rest = split_slashes cs in if c == b'/' then [] ∷ rest else add_first c rest

abbrev pub is_name : List ℕ → Bool
is_name [] = false
is_name (c ∷ cs) = not (same_text (c ∷ cs) (b'.' ∷ []))

unfoldable pub names_of : List (List ℕ) → List (List ℕ)
names_of [] = []
names_of (p ∷ ps) = if is_name p then p ∷ names_of ps else names_of ps

-- `PurePosixPath(value).parts` of a relative path: empty parts and "." are dropped.
unfoldable pub parts : List ℕ → List (List ℕ)
unfolding split_slashes names_of same_text
parts value = names_of (split_slashes value)

-- `as_posix` of parts.
unfoldable pub join_slashes : List (List ℕ) → List ℕ
join_slashes [] = []
join_slashes (p ∷ []) = p
join_slashes (p ∷ q ∷ ps) = p ++ (b'/' ∷ join_slashes (q ∷ ps))

abbrev pub is_wild : List ℕ → Bool
is_wild = any (λ c. c == b'*' || (c == b'?' || c == b'['))

unfoldable pub last_part : List (List ℕ) → List ℕ
last_part [] = []
last_part (p ∷ []) = p
last_part (p ∷ q ∷ ps) = last_part (q ∷ ps)

unfoldable pub count_wild : List (List ℕ) → ℕ
count_wild [] = 0
count_wild (p ∷ ps) = if is_wild p then 1 + count_wild ps else count_wild ps

-- No part has a wildcard, or only the last, which is "**".
unfoldable pub wildcards_allowed : List (List ℕ) → Bool
unfolding last_part count_wild same_text
wildcards_allowed ps =
    (count_wild ps == 0) || ((count_wild ps == 1) && same_text (last_part ps) (b'*' ∷ b'*' ∷ []))

abbrev pub is_absolute : List ℕ → Bool
is_absolute [] = false
is_absolute (c ∷ cs) = c == b'/'

abbrev pub is_empty : {A : Type 0} → List A → Bool
is_empty [] = true
is_empty (x ∷ xs) = false

abbrev pub is_parent_step : List ℕ → Bool
is_parent_step p = same_text p (b'.' ∷ b'.' ∷ [])

abbrev pub is_metadata : List ℕ → Bool
is_metadata p = same_text p (codes ".git") || same_text p (codes ".formalspecgen")

-- `_scope`
unfoldable pub scope : List ℕ → Result TaskError (List ℕ)
unfolding parts wildcards_allowed join_slashes same_text
scope value = do
  let ps = parts value
  refuse (is_absolute value || (is_empty ps || any is_parent_step ps))
      (deny "INVALID_PATH_SCOPE" "unsafe path scope")
  refuse (any is_metadata ps)
      (deny "PROTECTED_PATH_SCOPE" "service or repository metadata is protected")
  require (wildcards_allowed ps)
      (deny "INVALID_PATH_SCOPE" "only a trailing '/**' wildcard is supported")
  ok (join_slashes ps)

abbrev pub onto : ℕ → Option (List ℕ) → Option (List ℕ)
onto c none = none
onto c (some p) = some (c ∷ p)

-- What stands before "/**" at the end of a scope.
unfoldable pub before_tree : List ℕ → Option (List ℕ)
unfolding same_text
before_tree [] = none
before_tree (c ∷ cs) =
    let rest = before_tree cs in if same_text (c ∷ cs) tree_mark then some [] else onto c rest

-- `rstrip("/")`
unfoldable pub strip_slashes : List ℕ → List ℕ
strip_slashes [] = []
strip_slashes (c ∷ cs) =
    let rest = strip_slashes cs in if is_empty rest && (c == b'/') then [] else c ∷ rest

-- `_scope_prefix`
unfoldable pub scope_prefix : List ℕ → List ℕ × Bool
unfolding before_tree strip_slashes
scope_prefix value = elim (before_tree value) [
  | none ↦ (value, false)
  | some p ↦ (strip_slashes p, true)
]

-- `_scope_contains`
unfoldable pub scope_contains : List ℕ → List ℕ → Bool
unfolding scope_prefix same_text starts_with
scope_contains container candidate =
    let (container_value, container_tree) = scope_prefix container in
    let (candidate_value, candidate_tree) = scope_prefix candidate in
    if container_tree
    then same_text candidate_value container_value
      || starts_with (container_value ++ slash) candidate_value
    else not candidate_tree && same_text container_value candidate_value

-- The test of one scope in `_path_allowed`. A scope that `_scope` returns and that ends with "/**" has no
-- other wildcard, and `fnmatchcase` lets a "*" stand for any text, slashes too.
unfoldable pub scope_matches : List ℕ → List ℕ → Bool
unfolding before_tree same_text starts_with
scope_matches path item = elim (before_tree item) [
  | none ↦ same_text path item
  | some p ↦ starts_with (p ++ slash) path
]

-- `_path_allowed`
abbrev pub path_allowed : List ℕ → List (List ℕ) → Bool
path_allowed path scopes = any (scope_matches path) scopes
