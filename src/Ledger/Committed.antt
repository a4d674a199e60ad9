-- ===== src/Ledger/Committed.antt =====
-- A run that was recorded and committed by pipeline/lifecycle.py, read back by its validation.
use mathlib.Core.Path.{subst}
use formalspecgen.Coordination.{option_eq}
use formalspecgen.Ledger.{
  EvidenceClaim, Format, Inventory, Manifest, Payload, PipelineState, RunLedger, check_first,
  check_inventory, check_links, payload_of, present, read_file, validate_artifacts,
  validate_captured,
}
use formalspecgen.Ledger.Chained.{
  Extends, check_first-Extends, check_inventory-Extends, check_links-append, link_after,
  publish-eq-ok,
}
use formalspecgen.Ledger.Publish.{
  commit, entries_of, inventory, last_sha256, manifest_of, new_ledger, publish, record_transition,
  run_payload, transition_payload, validate,
}
use formalspecgen.Prelude.{
  List, Option, String, [], ap, eq_iff, none, refl, some, str_eq, sym, true, ◌&&◌, ◌++◌, ◌+◌, ◌∙◌,
  ◌∷◌, ◌≡◌,
}
use formalspecgen.Result.{
  >>=-eq-ok, IsOk, ok, ok_injective, ok_unit, refuse, require, require-eq-ok,
}

-- The formats can be read back: what `json.loads` does with what `json.dumps` printed.
pub record IsReadable {T : Type 0} (format : Format T) : Type 0 where
  pub payloads : (p : Payload) → format.decode (format.encode p) ≡ some (some p)
  pub manifests : (m : Manifest) → format.decode_manifest (format.encode_manifest m) ≡ some (some m)

-- The ledgers that are opened for a run, and record transitions.
pub data Records {T : Type 0} (format : Format T) (run_id : String) : RunLedger T → Type 0 where
  opened : Records format run_id (new_ledger format run_id)
  recorded :
      {l k : RunLedger T} (state : PipelineState) (status : String) (claim : EvidenceClaim)
      (details : String)
      → Records format run_id l
      → record_transition format state status claim details l ≡ ok k
      → Records format run_id k

-- The artifacts start with that of the run, and each names the digest of the one before.
record IsChained {T : Type 0} (format : Format T) (run_id : String) (l : RunLedger T) : Type 0 where
  first : Inventory
  rest : List Inventory
  all_artifacts : l.artifacts ≡ first ∷ rest
  same_run : l.run_id ≡ run_id
  linked : IsOk (check_first format (read_file l.files) run_id l.artifacts)

last_sha256-link_after :
    (a : Inventory) (rest : List Inventory)
    → last_sha256 (a ∷ rest) ≡ some (link_after a.sha256 rest)
last_sha256-link_after a [] = refl
last_sha256-link_after a (b ∷ rest) = last_sha256-link_after b rest

option_eq_same : (o : Option String) → option_eq o o ≡ true
option_eq_same none = refl
option_eq_same (some s) = (eq_iff s s).1 refl

check_first-append :
    {T : Type 0} (format : Format T) (read : String → Option T) (run_id : String) (a b : Inventory)
    (rest : List Inventory) (p : Payload)
    → IsOk (check_first format read run_id (a ∷ rest))
    → payload_of format read run_id b ≡ ok p
    → option_eq p.previous_artifact_sha256 (some (link_after a.sha256 rest)) ≡ true
    → IsOk (check_first format read run_id (a ∷ (rest ++ b ∷ [])))
unfolding check_first
check_first-append format read run_id a b rest p h found joined =
    let (q, first, k) = >>=-eq-ok (payload_of format read run_id a) _ h in
    let test = str_eq a.path "run.json" && option_eq q.schema (some "formalspecgen-run-v1") in
    let (_, is_run, l) = >>=-eq-ok (require test _) _ k in
    let t = require-eq-ok test _ is_run in
    rw (first, t) (check_links-append format read run_id a.sha256 rest b p l found joined)

module _ {T : Type 0} (format : Format T) (readable : IsReadable format) where
  payload_of-published :
      (read : String → Option T) (run_id name : String) (p : Payload)
      → read name ≡ some (format.encode p)
      → p.run_id ≡ some run_id
      → payload_of format read run_id (inventory format name (format.encode p)) ≡ ok p
  unfolding payload_of
  payload_of-published read run_id name p found same =
      let decoded = readable.payloads p in
      let owner : option_eq p.run_id (some run_id) ≡ true =
        subst (λ o. option_eq o (some run_id) ≡ true) (sym same) (option_eq_same (some run_id)) in
      rw (found, decoded, owner)

  new_ledger-IsChained : (run_id : String) → IsChained format run_id (new_ledger format run_id)
  unfolding new_ledger check_first check_links read_file
  new_ledger-IsChained run_id =
      let text = format.encode (run_payload format run_id) in
      let found =
        payload_of-published (read_file (("run.json", text) ∷ [])) run_id "run.json"
          (run_payload format run_id) refl refl in
      record {
        first = inventory format "run.json" text;
        rest = [];
        all_artifacts = refl;
        same_run = refl;
        linked = rw found;
      }

  record_transition-IsChained :
      (run_id : String) (l k : RunLedger T) (state : PipelineState) (status : String)
      (claim : EvidenceClaim) (details : String)
      → record_transition format state status claim details l ≡ ok k
      → IsChained format run_id l
      → IsChained format run_id k
  unfolding record_transition transition_payload
  record_transition-IsChained run_id l k state status claim details h chained =
      let name = format.file_name (l.transitions + 1) state in
      let p = transition_payload format state status claim details l in
      let text = format.encode p in
      let (_, open_run, a) = >>=-eq-ok (refuse l.committed _) _ h in
      let (files, written, b) = >>=-eq-ok (publish name text l.files) _ a in
      let (found, extends) = publish-eq-ok name text l.files files written in
      let before =
        subst (λ as_. IsOk (check_first format (read_file files) run_id as_)) chained.all_artifacts
          (check_first-Extends format (read_file l.files) (read_file files) extends run_id
            l.artifacts chained.linked) in
      let joined : option_eq p.previous_artifact_sha256
            (some (link_after chained.first.sha256 chained.rest))
          ≡ true =
        subst (λ o. option_eq o (some (link_after chained.first.sha256 chained.rest)) ≡ true)
          (sym (
            ap last_sha256 chained.all_artifacts
            ∙ last_sha256-link_after chained.first chained.rest))
          (option_eq_same (some (link_after chained.first.sha256 chained.rest))) in
      let longer =
        check_first-append format (read_file files) run_id chained.first
          (inventory format name text) chained.rest p before
          (payload_of-published (read_file files) run_id name p found (ap some chained.same_run))
          joined in
      let shape : l.artifacts ++ inventory format name text ∷ []
          ≡ chained.first ∷ (chained.rest ++ inventory format name text ∷ []) =
        ap (λ (x : List Inventory). x ++ inventory format name text ∷ []) chained.all_artifacts in
      subst (IsChained format run_id) (ok_injective b) (record {
        first = chained.first;
        rest = chained.rest ++ inventory format name text ∷ [];
        all_artifacts = shape;
        same_run = chained.same_run;
        linked =
            subst (λ as_. IsOk (check_first format (read_file files) run_id as_)) (sym shape)
              longer;
      })

  Records-IsChained :
      (run_id : String) {l : RunLedger T} → Records format run_id l → IsChained format run_id l
  Records-IsChained run_id opened = new_ledger-IsChained run_id
  Records-IsChained run_id (recorded {l} {k} state status claim details before h) =
      record_transition-IsChained run_id l k state status claim details h
        (Records-IsChained run_id before)

present-entries_of : (as_ : List Inventory) → present (entries_of as_) ≡ as_
present-entries_of [] = refl
present-entries_of (a ∷ rest) = ap (λ l. a ∷ l) (present-entries_of rest)

validate_artifacts-Extends :
    {T : Type 0} (format : Format T) (read more : String → Option T) (as_ bs : List Inventory)
    → Extends read more
    → validate_artifacts format read (some (entries_of as_)) ≡ ok bs
    → validate_artifacts format more (some (entries_of as_)) ≡ ok as_
unfolding validate_artifacts
validate_artifacts-Extends format read more [] bs extends h = cc h
validate_artifacts-Extends format read more (a ∷ rest) bs extends h =
    let (_, checked, _) =
      >>=-eq-ok (check_inventory format read [] (some a ∷ entries_of rest)) _ h in
    let q =
      check_inventory-Extends format read more extends [] (some a ∷ entries_of rest)
        (ok_unit _ checked) in
    rw q (ap (λ l. ok (a ∷ l)) (present-entries_of rest))

-- A committed run is valid. If the texts of artifacts and manifests can be read back, then after any
-- transitions that are recorded in a new ledger, a commit that succeeds leaves a directory whose
-- validation answers the run and the terminal text that were committed.
pub commit-validate :
    {T : Type 0} (format : Format T) (run_id terminal : String) {l k : RunLedger T}
    → IsReadable format
    → Records format run_id l
    → commit format terminal l ≡ ok k
    → validate format k.files ≡ ok (run_id, terminal)
unfolding commit validate validate_captured
commit-validate {T} format run_id terminal {l} {k} readable records h =
    let chained = Records-IsChained format readable run_id records in
    let text = format.encode_manifest (manifest_of format terminal l) in
    let (_, open_run, a) = >>=-eq-ok (refuse l.committed _) _ h in
    let (bs, checked, b) =
      >>=-eq-ok (validate_artifacts format (read_file l.files) (some (entries_of l.artifacts))) _
        a in
    let (files, written, d) = >>=-eq-ok (publish "manifest.json" text l.files) _ b in
    let (found, extends) = publish-eq-ok "manifest.json" text l.files files written in
    let decoded = readable.manifests (manifest_of format terminal l) in
    let whole =
      validate_artifacts-Extends format (read_file l.files) (read_file files) l.artifacts bs extends
        checked in
    let linked =
      check_first-Extends format (read_file l.files) (read_file files) extends run_id l.artifacts
        chained.linked in
    let owner = chained.same_run in
    let linked' : IsOk (check_first format (read_file files) l.run_id l.artifacts) =
      subst (λ r. IsOk (check_first format (read_file files) r l.artifacts)) (sym owner) linked in
    let done : validate format files ≡ ok (l.run_id, terminal) =
      rw (found, decoded, whole, linked') in
    ap (λ (x : RunLedger T). validate format x.files) (sym (ok_injective d))
    ∙ done
    ∙ ap (λ r. ok (r, terminal)) owner
