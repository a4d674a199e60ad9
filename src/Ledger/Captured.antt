-- ===== src/Ledger/Captured.antt =====
-- What a valid manifest of pipeline/lifecycle.py says of the artifacts that it lists.

use mathlib.Core.Path.{subst}
use formalspecgen.Coordination.{option_eq}
use formalspecgen.Ledger.{
  Format, Inventory, Manifest, check_inventory, is_intact, part_in, single_part, size_matches,
  validate_artifacts, validate_captured,
}
use formalspecgen.Prelude.{
  In, List, Option, String, [], and_true, ap, eq_iff, inl, inr, none, some, some_injective, sym,
  true, ℕ, ◌∙◌, ◌∷◌, ◌≡◌,
}
use formalspecgen.Prelude.Text.{is_hex_digest}
use formalspecgen.Result.{
  >>=-eq-ok, IsOk, ok, ok_unit, or_raise, or_raise-eq-ok, refuse, require, require-eq-ok,
}

module _ {T : Type 0} (format : Format T) (read : String → Option T) where
  check_inventory-In :
      (seen : List (List ℕ)) (as_ : List (Option Inventory)) (a : Inventory)
      → IsOk (check_inventory format read seen as_)
      → In (some a) as_
      → (text : T) × (read a.path ≡ some text) × (is_intact format read a text ≡ true)
  unfolding check_inventory
  check_inventory-In seen [] a h m = elim m [ ]
  check_inventory-In seen (none ∷ rest) a h m = cc
  check_inventory-In seen (some b ∷ rest) a h m =
      let (name, plain, k) = >>=-eq-ok (or_raise (single_part b.path) _) _ h in
      let (_, fresh, l) = >>=-eq-ok (refuse (part_in name seen) _) _ k in
      let (text, found, n) = >>=-eq-ok (or_raise (read b.path) _) _ l in
      let (_, intact, o) = >>=-eq-ok (require (is_intact format read b text) _) _ n in
      elim m [
        | inr later ↦ check_inventory-In (name ∷ seen) rest a o later
        | inl e ↦
            let same : b ≡ a = some_injective (sym e) in
            subst
              (λ (x : Inventory).
                (t : T) × (read x.path ≡ some t) × (is_intact format read x t ≡ true))
              same (text, or_raise-eq-ok (read b.path) _ found, require-eq-ok _ _ intact)
      ]

  validate_artifacts-checked :
      (as_ : List (Option Inventory)) (bs : List Inventory)
      → validate_artifacts format read (some as_) ≡ ok bs
      → IsOk (check_inventory format read [] as_)
  unfolding validate_artifacts
  validate_artifacts-checked [] bs h = cc
  validate_artifacts-checked (a ∷ rest) bs h =
      let (_, checked, _) = >>=-eq-ok (check_inventory format read [] (a ∷ rest)) _ h in
      ok_unit _ checked

  validate_captured-checked :
      (m : Manifest) (as_ : List (Option Inventory)) (answer : String × String)
      → validate_captured format read m ≡ ok answer
      → m.artifacts ≡ some as_
      → IsOk (check_inventory format read [] as_)
  unfolding validate_captured
  validate_captured-checked m as_ answer h lists =
      let test = option_eq m.schema (some "formalspecgen-evidence-manifest-v1") in
      let (_, schema, a) = >>=-eq-ok (require test _) _ h in
      let (run_id, named, b) = >>=-eq-ok (or_raise m.run_id _) _ a in
      let (terminal, ends, d) = >>=-eq-ok (or_raise m.terminal _) _ b in
      let (bs, checked, e) = >>=-eq-ok (validate_artifacts format read m.artifacts) _ d in
      validate_artifacts-checked as_ bs
        (subst (λ x. validate_artifacts format read x ≡ ok bs) lists checked)

-- A valid manifest fixes its artifacts. If a manifest is valid for two readers, and the digest tells the texts
-- that they read apart, then they read the same text for every artifact that the manifest lists.
pub validate_captured_injective :
    {T : Type 0} (format : Format T) (read other : String → Option T) (m : Manifest)
    (as_ : List (Option Inventory)) (a : Inventory) (answer answer' : String × String)
    → ((t u : T)
        → read a.path ≡ some t
        → other a.path ≡ some u
        → format.sha256 t ≡ format.sha256 u
        → t ≡ u)
    → validate_captured format read m ≡ ok answer
    → validate_captured format other m ≡ ok answer'
    → m.artifacts ≡ some as_
    → In (some a) as_
    → read a.path ≡ other a.path
unfolding is_intact
validate_captured_injective format read other m as_ a answer answer' apart h k lists listed_one =
    let (t, reads, intact) =
      check_inventory-In format read [] as_ a
        (validate_captured-checked format read m as_ answer h lists) listed_one in
    let (u, reads', intact') =
      check_inventory-In format other [] as_ a
        (validate_captured-checked format other m as_ answer' k lists) listed_one in
    let digest_t =
      (and_true {a = is_hex_digest 64 a.sha256}
        (and_true {a = size_matches a.size (format.size t)} intact).1).1 in
    let digest_u =
      (and_true {a = is_hex_digest 64 a.sha256}
        (and_true {a = size_matches a.size (format.size u)} intact').1).1 in
    let e = (eq_iff (format.sha256 t) a.sha256).0 digest_t in
    let f = (eq_iff (format.sha256 u) a.sha256).0 digest_u in
    reads ∙ ap some (apart t u reads reads' (e ∙ sym f)) ∙ sym reads'
