-- ===== src/Tests/Published.antt =====
-- A graph of three states, a ledger with one transition, and the theorems about them applied.
use formalspecgen.Coordination.{option_eq}
use formalspecgen.Coordination.Scope.{names_of, parts, same_text, split_slashes}
use formalspecgen.Ledger.{
  Files, Format, Inventory, Manifest, Payload, RunLedger, check_first, check_inventory, check_links,
  contract, is_intact, part_in, payload_of, read_file, single_part, static_check,
  validate_artifacts, validate_captured,
}
use formalspecgen.Ledger.Captured.{validate_captured_injective}
use formalspecgen.Ledger.Committed.{IsReadable, commit-validate, opened, recorded}
use formalspecgen.Ledger.Publish.{
  commit, entries_of, manifest_of, new_ledger, publish, record_transition, run_payload,
  transition_payload, validate,
}
use formalspecgen.Liveness.{
  CanGoOn, Graph, Transition, check_edges, check_read, check_transitions, chosen_ready,
  count_distinct, edges_of, given, has_successor, has_value, is_ready, is_starving, liveness_check,
  liveness_check-CanGoOn, liveness_proved, member_text, unset,
}
use formalspecgen.Prelude.{
  List, Option, String, [], false, if◌then◌else◌, inl, length, none, refl, some, some_injective,
  sym, true, ◌++◌, ◌==◌, ◌∙◌, ◌∷◌, ◌≡◌,
}
use formalspecgen.Prelude.Text.{is_hex_digest}
use formalspecgen.Result.{ok}

abbrev Reading : Type 0
Reading = List (String × Option String)

abbrev graph_state : String → Reading
graph_state s = ("s", some s) ∷ []

abbrev first_text : Reading → String
first_text [] = ""
first_text ((k, none) ∷ rest) = "None"
first_text ((k, some v) ∷ rest) = v

abbrev edge : String → String → Transition Reading
edge s t = record {
  from_state = given (graph_state s);
  source = unset;
  to_state = given (graph_state t);
  target = unset;
}

abbrev loop_graph : Graph Reading
loop_graph = record {
  transitions = edge "idle" "busy" ∷ edge "busy" "idle" ∷ [];
  ready_state = [];
  initial = graph_state "idle";
}

abbrev loop_edges : List (Reading × Reading)
loop_edges =
    (graph_state "idle", graph_state "busy") ∷ (graph_state "busy", graph_state "idle") ∷ []

loop_graph-proved : liveness_check option_eq none first_text [] loop_graph ≡ liveness_proved 2 2
unfolding liveness_check check_transitions check_read edges_of check_edges is_starving is_ready
    has_value has_successor count_distinct member_text
loop_graph-proved = refl

loop_graph-edges : edges_of loop_graph.transitions ≡ some loop_edges
unfolding edges_of
loop_graph-edges = refl

liveness_check-CanGoOn_example :
    (2 ≡ length loop_edges)
    × CanGoOn option_eq none first_text
        (chosen_ready option_eq none first_text [] loop_graph)
        loop_edges
        5
        (graph_state "busy")
liveness_check-CanGoOn_example =
    liveness_check-CanGoOn option_eq none first_text [] loop_graph loop_edges 2 2 5
      (graph_state "idle", graph_state "busy") loop_graph-proved loop_graph-edges (inl refl)

-- Bytes that hold what was written.
data Bytes : Type 0 where
  payload_bytes : Payload → Bytes
  manifest_bytes : Manifest → Bytes

abbrev payload_in : Bytes → Option (Option Payload)
payload_in (payload_bytes p) = some (some p)
payload_in (manifest_bytes m) = none

abbrev manifest_in : Bytes → Option (Option Manifest)
manifest_in (payload_bytes p) = none
manifest_in (manifest_bytes m) = some (some m)

abbrev some_digest : String
some_digest = "0000000000000000000000000000000000000000000000000000000000000000"

abbrev other_digest : String
other_digest = "1111111111111111111111111111111111111111111111111111111111111111"

abbrev payload_digest : Bytes → String
payload_digest (payload_bytes p) = if p.sequence == 0 then some_digest else other_digest
payload_digest (manifest_bytes m) = some_digest

abbrev plain_format : Format Bytes
plain_format = record {
  encode = payload_bytes;
  decode = payload_in;
  encode_manifest = manifest_bytes;
  decode_manifest = manifest_in;
  sha256 = payload_digest;
  size = λ b. 7;
  file_name = λ n state. "001-contract.json";
}

plain_format-IsReadable : IsReadable plain_format
plain_format-IsReadable = record { payloads = λ p. refl; manifests = λ m. refl }

abbrev contract_payload : Payload
contract_payload = record {
  schema = none;
  run_id = some "run";
  previous_artifact_sha256 = some some_digest;
  sequence = 1;
  state = some contract;
  claim = some static_check;
  status = "PASS";
  details = "";
}

abbrev run_files : Files Bytes
run_files =
    ("run.json", payload_bytes (run_payload plain_format "run"))
    ∷ ("001-contract.json", payload_bytes contract_payload)
    ∷ []

abbrev run_artifacts : List Inventory
run_artifacts =
    record { path = "run.json"; size = some 7; sha256 = some_digest }
    ∷ record { path = "001-contract.json"; size = some 7; sha256 = other_digest }
    ∷ []

abbrev recorded_run : RunLedger Bytes
recorded_run = record {
  files = run_files;
  run_id = "run";
  transitions = 1;
  artifacts = run_artifacts;
  committed = false;
}

run-recorded :
    record_transition plain_format contract "PASS" static_check "" (new_ledger plain_format "run")
    ≡ ok recorded_run
unfolding record_transition transition_payload new_ledger publish read_file
run-recorded = refl

abbrev run_manifest : Manifest
run_manifest = manifest_of plain_format "{}" recorded_run

abbrev committed_run : RunLedger Bytes
committed_run = record recorded_run {
  files = run_files ++ ("manifest.json", manifest_bytes run_manifest) ∷ [];
  committed = true;
}

run-committed : commit plain_format "{}" recorded_run ≡ ok committed_run
unfolding commit validate_artifacts check_inventory single_part part_in is_intact publish read_file
    parts same_text split_slashes names_of is_hex_digest
run-committed = refl

commit-validate_example : validate plain_format committed_run.files ≡ ok ("run", "{}")
commit-validate_example =
    commit-validate plain_format "run" "{}" plain_format-IsReadable
      (recorded contract "PASS" static_check "" opened run-recorded) run-committed

run-captured : validate_captured plain_format (read_file run_files) run_manifest ≡ ok ("run", "{}")
unfolding validate_captured validate_artifacts check_inventory single_part part_in is_intact
    check_first check_links payload_of read_file parts same_text split_slashes names_of
    is_hex_digest
run-captured = refl

validate_captured_injective_example :
    read_file run_files "run.json" ≡ read_file run_files "run.json"
validate_captured_injective_example =
    validate_captured_injective plain_format (read_file run_files) (read_file run_files)
      run_manifest (entries_of run_artifacts)
      (record { path = "run.json"; size = some 7; sha256 = some_digest }) ("run", "{}")
      ("run", "{}") (λ t u h k e. some_injective (sym h ∙ k)) run-captured run-captured refl
      (inl refl)
