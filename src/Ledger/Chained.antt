-- ===== src/Ledger/Chained.antt =====
-- The files of a ledger of pipeline/lifecycle.py stay, and the validation of its artifacts with them.
use mathlib.Core.Path.{subst}
use formalspecgen.Coordination.{option_eq}
use formalspecgen.Ledger.{
  Files, Format, Inventory, Payload, check_first, check_inventory, check_links, is_intact, part_in,
  payload_of, read_file, single_part,
}
use formalspecgen.Ledger.Publish.{publish}
use formalspecgen.Prelude.{
  Bool-cases, List, Option, Option-cases, String, [], ap, eq_iff, inl, inr, none, refl, some,
  str_eq, true, ℕ, ◌&&◌, ◌++◌, ◌∷◌, ◌≡◌,
}
use formalspecgen.Result.{
  >>=-eq-ok, IsOk, ok, ok_injective, or_raise, or_raise-eq-ok, refuse, refuse-eq-ok, require,
  require-eq-ok,
}

-- What one reader reads, the other reads too.
abbrev pub Extends : {T : Type 0} → (String → Option T) → (String → Option T) → Type 0
Extends {T} read more = (name : String) (text : T) → read name ≡ some text → more name ≡ some text

read_file-append :
    {T : Type 0} (files : Files T) (name : String) (text : T)
    → Extends (read_file files) (read_file (files ++ (name, text) ∷ []))
unfolding read_file
read_file-append [] name text n t h = cc h
read_file-append ((m, u) ∷ rest) name text n t h = elim (Bool-cases (str_eq m n)) [
  | inl found ↦ let q = rw found at h in rw found q
  | inr other ↦ let q = rw other at h in rw other (read_file-append rest name text n t q)
]

read_file-new :
    {T : Type 0} (files : Files T) (name : String) (text : T)
    → read_file files name ≡ none
    → read_file (files ++ (name, text) ∷ []) name ≡ some text
unfolding read_file
read_file-new [] name text h = let e = (eq_iff name name).1 refl in rw e
read_file-new ((m, u) ∷ rest) name text h = elim (Bool-cases (str_eq m name)) [
  | inl found ↦ let q = rw found at h in cc q
  | inr other ↦ let q = rw other at h in rw other (read_file-new rest name text q)
]

-- A file that is published is new, is read back, and replaces none.
pub publish-eq-ok :
    {T : Type 0} (name : String) (text : T) (files files' : Files T)
    → publish name text files ≡ ok files'
    → (read_file files' name ≡ some text) × Extends (read_file files) (read_file files')
unfolding publish
publish-eq-ok name text files files' h = elim (Option-cases (read_file files name)) [
  | inr (t, found) ↦ let q = rw found at h in cc q
  | inl new_name ↦
      let q = ok_injective (rw new_name at h) in
      (
        subst (λ l. read_file l name ≡ some text) q (read_file-new files name text new_name),
        subst (λ l. Extends (read_file files) (read_file l)) q (read_file-append files name text),
      )
]

or_raise_more :
    {T : Type 0} (o p : Option T) (e : String) (text : T)
    → or_raise o e ≡ ok text
    → ((t : T) → o ≡ some t → p ≡ some t)
    → or_raise p e ≡ ok text
or_raise_more o p e text h more =
    let q = more text (or_raise-eq-ok o e h) in ap (λ x. or_raise x e) q

module _ {T : Type 0} (format : Format T) (read more : String → Option T)
    (extends : Extends read more) where
  payload_of-Extends :
      (run_id : String) (a : Inventory) (p : Payload)
      → payload_of format read run_id a ≡ ok p
      → payload_of format more run_id a ≡ ok p
  unfolding payload_of
  payload_of-Extends run_id a p h =
      let (text, found, rest) = >>=-eq-ok (or_raise (read a.path) _) _ h in
      let q =
        or_raise_more (read a.path) (more a.path) "evidence artifact unavailable" text found
          (extends a.path) in
      rw q rest

  check_links-Extends :
      (run_id previous : String) (as_ : List Inventory)
      → IsOk (check_links format read run_id previous as_)
      → IsOk (check_links format more run_id previous as_)
  unfolding check_links
  check_links-Extends run_id previous [] h = refl
  check_links-Extends run_id previous (a ∷ rest) h =
      let (p, found, k) = >>=-eq-ok (payload_of format read run_id a) _ h in
      let (u, linked, l) =
        >>=-eq-ok (require (option_eq p.previous_artifact_sha256 (some previous)) _) _ k in
      let q = payload_of-Extends run_id a p found in
      let b = require-eq-ok (option_eq p.previous_artifact_sha256 (some previous)) _ linked in
      rw (q, b) (check_links-Extends run_id a.sha256 rest l)

  pub check_first-Extends :
      (run_id : String) (as_ : List Inventory)
      → IsOk (check_first format read run_id as_)
      → IsOk (check_first format more run_id as_)
  unfolding check_first
  check_first-Extends run_id [] h = refl
  check_first-Extends run_id (a ∷ rest) h =
      let (p, found, k) = >>=-eq-ok (payload_of format read run_id a) _ h in
      let test = str_eq a.path "run.json" && option_eq p.schema (some "formalspecgen-run-v1") in
      let (u, is_run, l) = >>=-eq-ok (require test _) _ k in
      let q = payload_of-Extends run_id a p found in
      let b = require-eq-ok test _ is_run in rw (q, b) (check_links-Extends run_id a.sha256 rest l)

  pub check_inventory-Extends :
      (seen : List (List ℕ)) (as_ : List (Option Inventory))
      → IsOk (check_inventory format read seen as_)
      → IsOk (check_inventory format more seen as_)
  unfolding check_inventory
  check_inventory-Extends seen [] h = refl
  check_inventory-Extends seen (none ∷ rest) h = cc h
  check_inventory-Extends seen (some a ∷ rest) h =
      let (name, plain, k) = >>=-eq-ok (or_raise (single_part a.path) _) _ h in
      let (_, fresh, l) = >>=-eq-ok (refuse (part_in name seen) _) _ k in
      let (text, found, m) = >>=-eq-ok (or_raise (read a.path) _) _ l in
      let (_, intact, n) = >>=-eq-ok (require (is_intact format read a text) _) _ m in
      let q =
        or_raise_more (read a.path) (more a.path) "evidence artifact unavailable" text found
          (extends a.path) in
      let b = refuse-eq-ok (part_in name seen) _ fresh in
      let d = require-eq-ok (is_intact format read a text) _ intact in
      rw (plain, b, q, d) (check_inventory-Extends (name ∷ seen) rest n)

-- One more artifact, whose payload names the digest of the last.
abbrev pub link_after : String → List Inventory → String
link_after previous [] = previous
link_after previous (a ∷ rest) = link_after a.sha256 rest

pub check_links-append :
    {T : Type 0} (format : Format T) (read : String → Option T) (run_id previous : String)
    (as_ : List Inventory) (a : Inventory) (p : Payload)
    → IsOk (check_links format read run_id previous as_)
    → payload_of format read run_id a ≡ ok p
    → option_eq p.previous_artifact_sha256 (some (link_after previous as_)) ≡ true
    → IsOk (check_links format read run_id previous (as_ ++ a ∷ []))
unfolding check_links
check_links-append format read run_id previous [] a p h found linked = rw (found, linked)
check_links-append format read run_id previous (b ∷ rest) a p h found linked =
    let (q, first, k) = >>=-eq-ok (payload_of format read run_id b) _ h in
    let test = option_eq q.previous_artifact_sha256 (some previous) in
    let (_, joined, l) = >>=-eq-ok (require test _) _ k in
    let t = require-eq-ok test _ joined in
    rw (first, t) (check_links-append format read run_id b.sha256 rest a p l found linked)
