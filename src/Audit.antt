-- ===== src/Audit.antt =====
-- The audit of a batch upload: RunWithClient, isControlFile, normalizeExpected and
-- validateExpectedName of internal/audit/audit.go, as a program over the report that it fills. The
-- listing, the metadata, the digests and the functions of path and path/filepath are parameters. A
-- map is an association list, and the texts of the issues are left out.
pub mod Records
pub mod Remote
pub mod Frozen
pub mod Run
pub mod Clear
pub mod Passed
pub mod Expected
use panpack.Base.{
  ℕ, ◌+◌, ◌<>◌, String, str_eq, Bool, true, false, not, ◌&&◌, ◌||◌, Option, none, some, Error,
  message, wrapped, Result, ok, err, ◌==◌, if◌then◌else◌, List, [], ◌∷◌, ◌++◌, is_empty, Bytes,
  length, map,
}
use panpack.Base.Programs.{Program, continue, ◌>>=◌, ◌>>◌, give, raise, lift, unless}
use panpack.Files.{Disk}
use panpack.Baidu.Checksum.{equal_fold}
use panpack.Baidu.Listing.{RemoteInfo}
use panpack.Batch.{FileRecord, State, Os, load_state, member, clean_all}
use panpack.Receipt.{Receipt, verify_succeeded}

pub record Config : Type 0 where
  pub state_file : String
  pub remote_pattern : String
  pub expected_names : List String
  pub require_local_empty : Bool
  pub require_checksum : Bool
  pub receipt_file : String

-- What the audit asks of the remote client; the metadata is a map from the file ids.
pub record RemoteClient : Type 0 where
  pub list_dir : String → Result (List RemoteInfo)
  pub metadata : List ℕ → Result (ℕ → Option RemoteInfo)

pub record SizeMismatch : Type 0 where
  pub name : String
  pub expected : ℕ
  pub actual : ℕ

-- The local side: `matches` is path.Match, `base` path.Base, `has_backslash` the search of a
-- backslash, `sort_sizes` the sort of the size mismatches by name; `before` and `after` are the digests of the state file at
-- the two times, `during` the one that the receipt is compared with.
pub record System : Type 0 where
  pub os : Os
  pub abs : String → Result String
  pub matches : String → String → Result Bool
  pub base : String → String
  pub has_backslash : String → Bool
  pub sort_sizes : List SizeMismatch → List SizeMismatch
  pub before : String → Result String
  pub during : String → Result String
  pub after : String → Result String
  pub states : Disk State
  pub receipts : Disk Receipt

pub data Issue : Type 0 where
  incomplete : Issue
  unsafe_name : String → Issue
  duplicate_name : String → Issue
  no_checksum : String → Issue
  not_uploaded : ℕ → ℕ → Issue
  wrong_total : ℕ → ℕ → Issue
  outside_expected : ℕ → Issue
  missing : ℕ → Issue
  unexpected : ℕ → Issue
  duplicates : ℕ → Issue
  directories : ℕ → Issue
  wrong_sizes : ℕ → Issue
  no_metadata : ℕ → Issue
  wrong_checksums : ℕ → Issue
  unavailable : ℕ → Issue
  local_files : ℕ → Issue
  bad_receipt : Issue
  state_changed : Issue

-- `Result` of the package, less the receipt's status and exit code.
pub record Report : Type 0 where
  pub is_passed : Bool
  pub state_completed : Bool
  pub state_uploaded : ℕ
  pub state_files : ℕ
  pub state_sha256 : String
  pub verified_bytes : ℕ
  pub total_bytes : ℕ
  pub remote_pattern : String
  pub remote_entries : ℕ
  pub remote_unique : ℕ
  pub expected_entries : ℕ
  pub missing : List String
  pub extra : List String
  pub duplicates : List String
  pub type_mismatches : List String
  pub frozen_not_expected : List String
  pub frozen_size_matched : ℕ
  pub frozen_size_mismatches : List SizeMismatch
  pub frozen_metadata_missing : List String
  pub frozen_checksum_matched : ℕ
  pub frozen_checksum_unavailable : List String
  pub frozen_checksum_mismatches : List String
  pub local_matching : List String
  pub receipt_checked : Bool
  pub receipt_error : Option Error
  pub issues : List Issue

abbrev pub empty_report : Report
empty_report = record {
  is_passed = false;
  state_completed = false;
  state_uploaded = 0;
  state_files = 0;
  state_sha256 = "";
  verified_bytes = 0;
  total_bytes = 0;
  remote_pattern = "";
  remote_entries = 0;
  remote_unique = 0;
  expected_entries = 0;
  missing = [];
  extra = [];
  duplicates = [];
  type_mismatches = [];
  frozen_not_expected = [];
  frozen_size_matched = 0;
  frozen_size_mismatches = [];
  frozen_metadata_missing = [];
  frozen_checksum_matched = 0;
  frozen_checksum_unavailable = [];
  frozen_checksum_mismatches = [];
  local_matching = [];
  receipt_checked = false;
  receipt_error = none;
  issues = [];
}

-- `if b { result.Issues = append(result.Issues, …) }`
pub issue_if : Bool → Issue → Report → Report
issue_if b i w = if b then record w { issues = w.issues ++ (i ∷ []) } else w

pub change : (Report → Report) → Program Report (Unit {0})
change f w = (ok tt, f w)

-- `validateExpectedName`; `has_backslash` is strings.Contains of a backslash.
unfoldable pub is_safe_name : (String → String) → (String → Bool) → String → Bool
is_safe_name base has_backslash n = not (
    str_eq n ""
    || (str_eq n "." || (str_eq n ".." || (not (str_eq (base n) n) || has_backslash n))))

-- The loop of `normalizeExpected`, whose set is a list without repetition.
pub normalize_names : (String → Bool) → List String → List String → Result (List String)
normalize_names is_safe [] known = ok known
normalize_names is_safe (n ∷ ns) known =
    let rest = normalize_names is_safe ns (known ++ (n ∷ [])) in
    if not (is_safe n)
    then err (message "expected name must be a safe basename")
    else if member n known
    then err (message "duplicate expected name")
    else rest

abbrev pub record_name : FileRecord → String
record_name r = r.name

-- `normalizeExpected`
unfoldable pub normalize_expected : (String → Bool) → List String → State → Result (List String)
unfolding normalize_names
normalize_expected is_safe names state =
    normalize_names is_safe (if is_empty names then map record_name state.files else names) []

-- Every expected name matches the pattern.
pub check_expected : (String → Result Bool) → List String → Result (Unit {0})
check_expected matches [] = ok tt
check_expected matches (n ∷ ns) =
    let rest = check_expected matches ns in
    elim (matches n) [
      | err e ↦ err e
      | ok matched ↦
          if not matched then err (message "expected name does not match remote pattern") else rest
    ]

-- `isControlFile`
pub is_control_file : Os → String → String → String → Bool
is_control_file os file_path state_file receipt_file =
    let default_receipt = state_file <> ".receipt.json" in
    let always =
      state_file
      ∷ (state_file <> ".tmp")
      ∷ (state_file <> ".lock")
      ∷ default_receipt
      ∷ (default_receipt <> ".tmp")
      ∷ (default_receipt <> ".lock")
      ∷ [] in
    member (os.clean file_path) (
      clean_all os.clean (
        if str_eq receipt_file ""
        then always
        else always ++ (receipt_file ∷ (receipt_file <> ".tmp") ∷ (receipt_file <> ".lock") ∷ [])))

-- The names in the first list that are not in the second.
pub names_outside : List String → List String → List String
names_outside [] known = []
names_outside (n ∷ ns) known =
    let rest = names_outside ns known in if member n known then rest else n ∷ rest
