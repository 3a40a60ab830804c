-- ===== src/Audit/Run.antt =====
-- RunWithClient of internal/audit/audit.go as a whole. Before the state is loaded the code returns no
-- report beside an error, where the model has the one it started with.
use panpack.Base.{
  ℕ, String, str_eq, Bool, true, false, not, ◌&&◌, ◌||◌, none, some, message, wrapped, Result, ok,
  err, if◌then◌else◌, List, [], ◌∷◌, is_empty, length,
}
use panpack.Base.Programs.{Program, ◌>>=◌, ◌>>◌, lift, unless}
use panpack.Batch.{State, Os, load_state}
use panpack.Receipt.{Receipt, verify_succeeded}
use panpack.Audit.{
  Config, RemoteClient, System, Report, change, issue_if, is_safe_name, normalize_expected,
  check_expected, is_control_file, names_outside, outside_expected, missing, unexpected, duplicates,
  directories, wrong_sizes, no_metadata, wrong_checksums, unavailable, local_files, bad_receipt,
  state_changed,
}
use panpack.Audit.Records.{scan_state}
use panpack.Audit.Remote.{Remote, names_of, collect, missing_names, directory_names}
use panpack.Audit.Frozen.{Metadata, metadata_ids, check_all}

abbrev pub context {ℓ} : {A : Type ℓ} → String → Result A → Result A
context m (ok a) = ok a
context m (err e) = err (wrapped m e)

-- The base names of the matches that are not files of the run itself.
unfoldable pub local_names : Os → String → String → List String → List String
unfolding is_control_file
local_names os state_file receipt_file [] = []
local_names os state_file receipt_file (m ∷ ms) =
    let rest = local_names os state_file receipt_file ms in
    if is_control_file os m state_file receipt_file then rest else os.base m ∷ rest

module _ (cfg : Config) (sys : System) (client : RemoteClient) where
  unfoldable pub pattern_of : State → String
  pattern_of state = if str_eq cfg.remote_pattern "" then state.pattern else cfg.remote_pattern

  unfoldable pub safe_name : String → Bool
  unfolding is_safe_name
  safe_name n = is_safe_name sys.base sys.has_backslash n

  -- The frozen names against the expected ones.
  unfoldable pub compare_names : List String → List String → Report → Report
  unfolding names_outside issue_if
  compare_names expected names w =
      let outside = sys.os.sort (names_outside names expected) in
      issue_if (not (is_empty outside)) (outside_expected (length outside))
        (record w { expected_entries = length expected; frozen_not_expected = outside })

  -- The expected names against the remote ones.
  unfoldable pub compare_sets : List String → Remote → Report → Report
  unfolding names_outside missing_names directory_names names_of issue_if
  compare_sets expected remote w =
      let v = record w {
        remote_unique = length remote;
        duplicates = sys.os.sort w.duplicates;
        missing = sys.os.sort (missing_names remote expected);
        extra = sys.os.sort (names_outside (names_of remote) expected);
        type_mismatches = sys.os.sort (directory_names remote expected);
      } in
      let v1 = issue_if (not (is_empty v.missing)) (missing (length v.missing)) v in
      let v2 = issue_if (not (is_empty v.extra)) (unexpected (length v.extra)) v1 in
      let v3 = issue_if (not (is_empty v.duplicates)) (duplicates (length v.duplicates)) v2 in
      issue_if (not (is_empty v.type_mismatches)) (directories (length v.type_mismatches)) v3

  -- The metadata is asked for where some id needs it.
  unfoldable pub metadata_of : List ℕ → Result Metadata
  metadata_of ids =
      if is_empty ids
      then ok (λ i. none)
      else context "read frozen remote metadata" (client.metadata ids)

  -- The frozen files against their metadata.
  unfoldable pub compare_frozen : Metadata → Remote → State → Report → Report
  unfolding check_all issue_if
  compare_frozen metadata remote state w =
      let c = check_all metadata remote state.files w in
      let v = record c {
        frozen_size_mismatches = sys.sort_sizes c.frozen_size_mismatches;
        frozen_metadata_missing = sys.os.sort c.frozen_metadata_missing;
        frozen_checksum_unavailable = sys.os.sort c.frozen_checksum_unavailable;
        frozen_checksum_mismatches = sys.os.sort c.frozen_checksum_mismatches;
      } in
      let v1 =
        issue_if (not (is_empty v.frozen_size_mismatches))
          (wrong_sizes (length v.frozen_size_mismatches)) v in
      let v2 =
        issue_if (not (is_empty v.frozen_metadata_missing))
          (no_metadata (length v.frozen_metadata_missing)) v1 in
      let v3 =
        issue_if (not (is_empty v.frozen_checksum_mismatches))
          (wrong_checksums (length v.frozen_checksum_mismatches)) v2 in
      issue_if (cfg.require_checksum && not (is_empty v.frozen_checksum_unavailable))
        (unavailable (length v.frozen_checksum_unavailable)) v3

  unfoldable pub compare_local : List String → Report → Report
  unfolding issue_if
  compare_local locals w =
      let sorted = sys.os.sort locals in
      issue_if (cfg.require_local_empty && not (is_empty sorted)) (local_files (length sorted))
        (record w { local_matching = sorted })

  unfoldable pub enter_receipt : Result Receipt → Report → Report
  unfolding issue_if
  enter_receipt (ok r) w = record w { receipt_checked = true }
  enter_receipt (err e) w =
      issue_if true bad_receipt (record w { receipt_checked = true; receipt_error = some e })

  unfoldable pub receipt_of : String → String → Result Receipt
  unfolding verify_succeeded
  receipt_of state_file receipt_file =
      verify_succeeded sys.abs sys.os.clean sys.during receipt_file state_file "upload-batch"
        sys.receipts

  unfoldable pub compare_receipt : String → String → Report → Report
  unfolding enter_receipt receipt_of
  compare_receipt state_file receipt_file w =
      if str_eq receipt_file "" then w else enter_receipt (receipt_of state_file receipt_file) w

  -- The digest of the state file, before the audit and after it.
  unfoldable pub compare_digests : String → String → Report → Report
  unfolding issue_if
  compare_digests before after w = issue_if (not (str_eq before after)) state_changed w

  unfoldable pub conclude : Program Report (Unit {0})
  conclude w =
      if is_empty w.issues
      then (ok tt, record w { is_passed = true })
      else (err (message "batch audit failed"), record w { is_passed = false })

  -- What follows the comparison of the two sets.
  unfoldable pub audit_files : String → String → String → State → Remote → Program Report (Unit {0})
  unfolding metadata_ids metadata_of compare_frozen local_names compare_local compare_receipt
      compare_digests conclude change
  audit_files state_file receipt_file digest state remote = do
    metadata ← lift (metadata_of (metadata_ids remote state.files))
    change (compare_frozen metadata remote state)
    found ← lift (sys.os.glob (sys.os.join state.source_dir state.pattern))
    change (compare_local (local_names sys.os state_file receipt_file found))
    change (compare_receipt state_file receipt_file)
    after ← lift (context "hash upload state after audit" (sys.after state_file))
    change (compare_digests digest after)
    conclude

  -- What follows the loading of the state.
  unfoldable pub audit_state : String → String → String → State → Program Report (Unit {0})
  unfolding scan_state pattern_of safe_name normalize_expected check_expected compare_names collect
      compare_sets audit_files change
  audit_state state_file receipt_file digest state = do
    change (λ w. (scan_state sys.base digest state).report)
    unless
        (str_eq (pattern_of state) ""
          || not (str_eq (sys.base (pattern_of state)) (pattern_of state)))
        (message "remote pattern must match basenames only")
    valid ← lift (sys.matches (pattern_of state) "")
    change (λ w. record w { remote_pattern = pattern_of state })
    expected ← lift (normalize_expected safe_name cfg.expected_names state)
    lift (check_expected (sys.matches (pattern_of state)) expected)
    change (compare_names expected (scan_state sys.base digest state).names)
    entries ← lift (client.list_dir state.remote_dir)
    remote ← collect sys.base (sys.matches (pattern_of state)) entries []
    change (compare_sets expected remote)
    audit_files state_file receipt_file digest state remote

  -- `RunWithClient`
  unfoldable pub run_with_client : Program Report (Unit {0})
  unfolding audit_state load_state
  run_with_client = do
    unless (str_eq cfg.state_file "") (message "state file is required")
    state_file ← lift (sys.abs cfg.state_file)
    receipt_file ← lift (if str_eq cfg.receipt_file "" then ok "" else sys.abs cfg.receipt_file)
    digest ← lift (context "hash upload state before audit" (sys.before state_file))
    state ← lift (load_state state_file sys.states)
    audit_state state_file receipt_file digest state
