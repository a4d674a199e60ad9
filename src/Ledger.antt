-- ===== src/Ledger.antt =====
-- pipeline/lifecycle.py: the ledger of a run, which publishes each transition of a pipeline as a file and
-- chains the files by their digests, and the validation of a committed run. A file is a name with its
-- bytes; the type of bytes, the format of what is written, the digest and the names are parameters.
pub mod Publish
pub mod Chained
pub mod Committed
pub mod Captured
use formalspecgen.Coordination.{option_eq}
use formalspecgen.Coordination.Scope.{is_absolute, parts, same_text}
use formalspecgen.Prelude.{
  Bool, List, Option, String, [], false, if◌then◌else◌, none, some, str_eq, true, ℕ, ◌&&◌, ◌==◌,
  ◌||◌, ◌∷◌,
}
use formalspecgen.Prelude.Text.{codes, is_hex_digest}
use formalspecgen.Result.{Result, err, ok, or_raise, refuse, require, ◌>>=◌, ◌>>◌}

pub data PipelineState : Type 0 where
  requirements contract candidate cheap_gates proof review_and_measure : PipelineState

pub data EvidenceClaim : Type 0 where
  transformation static_check deductive_proof counterexample_evidence : EvidenceClaim
  runtime_sample bounded_architecture_evidence bounded_evidence : EvidenceClaim
  bounded_cpp_proof claims_no_proof : EvidenceClaim

-- An entry of the inventory; a size that is no natural number is `none`.
pub record Inventory : Type 0 where
  pub path : String
  pub size : Option ℕ
  pub sha256 : String

-- The text of an artifact, as far as it is read: that of the run has a schema, that of a transition the
-- digest of the artifact before. The number of the run is 0.
pub record Payload : Type 0 where
  pub schema : Option String
  pub run_id : Option String
  pub previous_artifact_sha256 : Option String
  pub sequence : ℕ
  pub state : Option PipelineState
  pub claim : Option EvidenceClaim
  pub status : String
  pub details : String

-- The manifest; what has another shape than expected is `none`.
pub record Manifest : Type 0 where
  pub schema : Option String
  pub run_id : Option String
  pub terminal : Option String
  pub artifacts : Option (List (Option Inventory))

-- What the ledger uses of the standard library, and of the names of files.
pub record Format (T : Type 0) : Type 0 where
  pub encode : Payload → T
  pub decode : T → Option (Option Payload)
  pub encode_manifest : Manifest → T
  pub decode_manifest : T → Option (Option Manifest)
  pub sha256 : T → String
  pub size : T → ℕ
  pub file_name : ℕ → PipelineState → String

abbrev pub Files : Type 0 → Type 0
Files T = List (String × T)

unfoldable pub read_file : {T : Type 0} → Files T → String → Option T
read_file [] name = none
read_file ((n, text) ∷ rest) name = if str_eq n name then some text else read_file rest name

pub record RunLedger (T : Type 0) : Type 0 where
  pub files : Files T
  pub run_id : String
  pub transitions : ℕ
  pub artifacts : List Inventory
  pub committed : Bool

abbrev pub is_empty_list : {A : Type 0} → List A → Bool
is_empty_list [] = true
is_empty_list (x ∷ xs) = false

-- The only part of a relative path.
abbrev pub only : List (List ℕ) → Option (List ℕ)
only (p ∷ []) = some p
only _ = none

unfoldable pub single_part : String → Option (List ℕ)
unfolding parts
single_part path = if is_absolute (codes path) then none else only (parts (codes path))

unfoldable pub part_in : List ℕ → List (List ℕ) → Bool
unfolding same_text
part_in p [] = false
part_in p (q ∷ qs) = same_text p q || part_in p qs

abbrev pub size_matches : Option ℕ → ℕ → Bool
size_matches none n = false
size_matches (some m) n = m == n

-- The entries that have the right shape.
abbrev pub present : List (Option Inventory) → List Inventory
present [] = []
present (none ∷ rest) = present rest
present (some a ∷ rest) = a ∷ present rest

module _ {T : Type 0} (format : Format T) (read : String → Option T) where
  -- The size and the digest of an artifact.
  unfoldable pub is_intact : Inventory → T → Bool
  is_intact a text =
      size_matches a.size (format.size text)
      && (is_hex_digest 64 a.sha256 && str_eq (format.sha256 text) a.sha256)

  -- The loop of `_validate_artifacts`.
  unfoldable pub check_inventory :
      List (List ℕ) → List (Option Inventory) → Result String (Unit {0})
  unfolding single_part part_in is_intact
  check_inventory seen [] = ok tt
  check_inventory seen (none ∷ rest) = err "malformed evidence artifact record"
  check_inventory seen (some a ∷ rest) = do
    name ← or_raise (single_part a.path) "invalid evidence artifact path"
    refuse (part_in name seen) "duplicate evidence artifact path"
    text ← or_raise (read a.path) "evidence artifact unavailable"
    require (is_intact a text) "evidence artifact integrity failure"
    check_inventory (name ∷ seen) rest

  -- `_validate_artifacts`
  unfoldable pub validate_artifacts :
      Option (List (Option Inventory)) → Result String (List Inventory)
  unfolding check_inventory
  validate_artifacts none = err "evidence manifest has no artifact inventory"
  validate_artifacts (some []) = err "evidence manifest has no artifact inventory"
  validate_artifacts (some (a ∷ rest)) = do check_inventory [] (a ∷ rest); ok (present (a ∷ rest))

  -- The payload of an artifact, of the run.
  unfoldable pub payload_of : String → Inventory → Result String Payload
  payload_of run_id a = do
    text ← or_raise (read a.path) "evidence artifact unavailable"
    decoded ← or_raise (format.decode text) "evidence artifact is not JSON"
    payload ← or_raise decoded "evidence artifact payload is not an object"
    require (option_eq payload.run_id (some run_id)) "evidence artifact run identity mismatch"
    ok payload

  -- The artifacts behind the first: each names the digest of the one before.
  unfoldable pub check_links : String → String → List Inventory → Result String (Unit {0})
  unfolding payload_of
  check_links run_id previous [] = ok tt
  check_links run_id previous (a ∷ rest) = do
    payload ← payload_of run_id a
    require (option_eq payload.previous_artifact_sha256 (some previous))
        "evidence artifact hash chain is invalid"
    check_links run_id a.sha256 rest

  unfoldable pub check_first : String → List Inventory → Result String (Unit {0})
  unfolding payload_of check_links
  check_first run_id [] = ok tt
  check_first run_id (a ∷ rest) = do
    payload ← payload_of run_id a
    require (str_eq a.path "run.json" && option_eq payload.schema (some "formalspecgen-run-v1"))
        "run identity artifact is missing or invalid"
    check_links run_id a.sha256 rest

  -- `validate_captured`: the run and the terminal text of a valid manifest.
  unfoldable pub validate_captured : Manifest → Result String (String × String)
  unfolding validate_artifacts check_first
  validate_captured m = do
    require (option_eq m.schema (some "formalspecgen-evidence-manifest-v1"))
        "terminal evidence manifest schema is invalid"
    run_id ← or_raise m.run_id "terminal evidence manifest schema is invalid"
    terminal ← or_raise m.terminal "terminal evidence manifest schema is invalid"
    artifacts ← validate_artifacts m.artifacts
    check_first run_id artifacts
    ok (run_id, terminal)
