-- ===== src/Ledger/Publish.antt =====
-- The ledger of pipeline/lifecycle.py at work: `_publish_json`, the constructor, `record`, `commit` and
-- `validate`. An operation that raises an exception leaves the ledger as it was.
use formalspecgen.Ledger.{
  EvidenceClaim, Files, Format, Inventory, Manifest, Payload, PipelineState, RunLedger, read_file,
  validate_artifacts, validate_captured,
}
use formalspecgen.Prelude.{
  Bool, List, Option, String, [], false, if◌then◌else◌, none, some, true, ◌++◌, ◌+◌, ◌∷◌,
}
use formalspecgen.Result.{Result, err, ok, or_raise, refuse, ◌>>=◌, ◌>>◌}

abbrev pub absent_file : {T : Type 0} → Option T → Bool
absent_file none = true
absent_file (some t) = false

-- `os.link` does not replace a file.
unfoldable pub publish : {T : Type 0} → String → T → Files T → Result String (Files T)
unfolding read_file
publish name text files =
    if absent_file (read_file files name)
    then ok (files ++ (name, text) ∷ [])
    else err "File exists"

abbrev pub entries_of : List Inventory → List (Option Inventory)
entries_of [] = []
entries_of (a ∷ rest) = some a ∷ entries_of rest

abbrev pub last_sha256 : List Inventory → Option String
last_sha256 [] = none
last_sha256 (a ∷ []) = some a.sha256
last_sha256 (a ∷ b ∷ rest) = last_sha256 (b ∷ rest)

module _ {T : Type 0} (format : Format T) where
  abbrev pub inventory : String → T → Inventory
  inventory name text = record {
    path = name;
    size = some (format.size text);
    sha256 = format.sha256 text;
  }

  abbrev pub run_payload : String → Payload
  run_payload run_id = record {
    schema = some "formalspecgen-run-v1";
    run_id = some run_id;
    previous_artifact_sha256 = none;
    sequence = 0;
    state = none;
    claim = none;
    status = "";
    details = "";
  }

  -- `__init__`, in a new directory.
  unfoldable pub new_ledger : String → RunLedger T
  new_ledger run_id =
      let text = format.encode (run_payload run_id) in
      record {
        files = ("run.json", text) ∷ [];
        run_id = run_id;
        transitions = 0;
        artifacts = inventory "run.json" text ∷ [];
        committed = false;
      }

  unfoldable pub transition_payload :
      PipelineState → String → EvidenceClaim → String → RunLedger T → Payload
  transition_payload state status claim details l = record {
    schema = none;
    run_id = some l.run_id;
    previous_artifact_sha256 = last_sha256 l.artifacts;
    sequence = l.transitions + 1;
    state = some state;
    claim = some claim;
    status = status;
    details = details;
  }

  -- `record`
  unfoldable pub record_transition :
      PipelineState → String → EvidenceClaim → String → RunLedger T → Result String (RunLedger T)
  unfolding publish transition_payload
  record_transition state status claim details l =
      let name = format.file_name (l.transitions + 1) state in
      let text = format.encode (transition_payload state status claim details l) in
      refuse l.committed "cannot append evidence after terminal manifest publication"
      >> (publish name text l.files >>= λ files. ok (record l {
        files = files;
        artifacts = l.artifacts ++ inventory name text ∷ [];
        transitions = l.transitions + 1;
      }))

  abbrev pub manifest_of : String → RunLedger T → Manifest
  manifest_of terminal l = record {
    schema = some "formalspecgen-evidence-manifest-v1";
    run_id = some l.run_id;
    terminal = some terminal;
    artifacts = some (entries_of l.artifacts);
  }

  -- `commit`
  unfoldable pub commit : String → RunLedger T → Result String (RunLedger T)
  unfolding publish
  commit terminal l =
      refuse l.committed "evidence run is already committed"
      >> (validate_artifacts format (read_file l.files) (some (entries_of l.artifacts)) >>= λ _.
          publish "manifest.json" (format.encode_manifest (manifest_of terminal l)) l.files
          >>= λ files. ok (record l { files = files; committed = true }))

  -- `validate`: the directory as it is read, with the manifest and without the ledger.
  unfoldable pub validate : Files T → Result String (String × String)
  validate files = do
    text ← or_raise (read_file files "manifest.json") "terminal evidence manifest is absent"
    decoded ← or_raise (format.decode_manifest text) "the manifest is not JSON"
    m ← or_raise decoded "terminal evidence manifest schema is invalid"
    validate_captured format (read_file files) m
