-- ===== src/Tests/Runs.antt =====
-- The theorems on policies, receipts, credentials and batches, at concrete values.
use panpack.Base.{
  ◌*◌, ◌/◌, ◌-◌, ◌+◌, ◌^◌, ◌<>◌, String, str_eq, true, false, ◌≡◌, ◌≢◌, refl, min, none, some,
  Result, ok, [], ◌∷◌, arith,
}
use panpack.Base.Int.{pos, negsuc}
use panpack.Files.{Content, whole, Disk, put, smooth}
use panpack.Resource.{Snapshot, Floats, Policy, default_limits, gib, cgroup_memory_available}
use panpack.Resource.Bounds.{cgroup_memory_available_lem}
use panpack.Receipt.{running, Receipt, Recorder, DirCalls, finish, verify_succeeded}
use panpack.Receipt.Verified.{finish-verify_succeeded, finish-success, success_of}
use panpack.Credentials as Creds
use panpack.Credentials.{Credentials, Environment, token_of, discover, save}
use panpack.Credentials.Found.{load-save, first_existing, discover-first_existing}
use panpack.Batch.{
  Config, FileRecord, State, Stat, Os, validate_state_files, retry_delay, delay_cap,
}
use panpack.Batch.Validated.{IsValid, validate_state_files-IsValid}
use panpack.Batch.Configured.{
  Given, Settled, Paths, IsSettled, resolve_config, resolve_config-IsSettled,
}
use panpack.Batch.Delay.{retry_delay_lem}

abbrev a_server : Snapshot
a_server = record {
  disk_free = 100 * gib;
  disk_total = 500 * gib;
  memory_limit = 8 * gib;
  memory_current = 2 * gib;
  memory_available = 6 * gib;
}

abbrev a_tenth : Floats
a_tenth = record { fraction = λ n. n / 10; cpu_requests = 8 }

abbrev a_policy : Policy
a_policy = record {
  reserve_bytes = 50 * gib;
  volume_bytes = 2 * gib;
  initial_concurrency = 4;
  max_concurrency = 8;
  memory_available = 6 * gib;
  disk_free = 100 * gib;
}

cgroup_memory_available_example :
    cgroup_memory_available 100 60 20 ≡ min 100 ((100 - 60) + min 20 60)
cgroup_memory_available_example = cgroup_memory_available_lem 100 60 20

abbrev same : String → Result String
same p = ok p

abbrev digest_of : String → Result String
digest_of p = ok "d1"

abbrev a_recorder : Recorder
a_recorder = record {
  path = "run.json";
  locked = true;
  receipt = record {
    format_version = 1;
    command = "backup";
    pid = 7;
    status = running;
    state_file = "state.json";
    state_sha256 = "";
    started_at = 1;
    finished_at = none;
    exit_code = none;
    error = "";
  };
}

abbrev dir_done : DirCalls
dir_done = record { open_dir = none; sync = none; close = none }

abbrev no_receipts : Disk Receipt
no_receipts p = none

finish-verify_succeeded_example :
    verify_succeeded same
      (λ p. p)
      digest_of
      "run.json"
      "state.json"
      "backup"
      (finish digest_of 5 smooth dir_done (pos 1) none a_recorder no_receipts).1
    ≢ ok (success_of 5 "d1" a_recorder.receipt)
finish-verify_succeeded_example =
    finish-verify_succeeded same (λ p. p) digest_of digest_of 5 smooth dir_done (pos 1) none
      a_recorder no_receipts refl (λ r e. ground arith) "state.json" "backup"
      (success_of 5 "d1" a_recorder.receipt)

finish-success_example :
    verify_succeeded same
      (λ p. p)
      digest_of
      "run.json"
      "state.json"
      "backup"
      (finish digest_of 5 smooth dir_done (pos 0) none a_recorder no_receipts).1
    ≡ ok (success_of 5 "d1" a_recorder.receipt)
unfolding finish panpack.Receipt.save panpack.Files.write_atomic
finish-success_example =
    finish-success same (λ p. p) digest_of 5 smooth dir_done a_recorder no_receipts "state.json"
      "d1" refl refl refl refl refl

abbrev no_files : Disk Credentials
no_files p = none

load-save_example :
    Creds.load 100 "c.json" (save "c.json" (token_of "t") none smooth no_files).1
    ≡ ok (token_of "t")
unfolding save Creds.is_expired panpack.Files.write_atomic
load-save_example = load-save 100 "c.json" (token_of "t") none smooth no_files refl refl

-- The file of the variable has expired credentials.
abbrev one_file : Disk Credentials
one_file = put "c.json" (some (whole (record (token_of "t") { expires_at = 90 }))) no_files

abbrev an_environment : Environment
an_environment = record {
  access_token = "";
  token_file = "c.json";
  home = "/home/u";
  now = 100;
  clean = λ p. p;
  default_path = λ h. h <> "/.config/panpack/credentials.json";
  bypy_path = λ h. h <> "/.bypy/bypy.json";
}

discover_example :
    discover an_environment "missing.json" one_file
    ≡ first_existing an_environment one_file (Creds.candidates an_environment "missing.json")
discover_example = discover-first_existing an_environment one_file "missing.json" refl

abbrev a_config : Config
a_config = record {
  source_dir = "/d";
  pattern = "*.tar";
  remote_dir = "/apps/p";
  state_file = "/d/s.json";
  receipt_file = "";
}

abbrev pending : FileRecord
pending = record {
  name = "a.tar";
  size = 10;
  md5 = [];
  remote_md5 = [];
  attempts = 0;
  uploaded = false;
  uploaded_at = 0;
  duration = 0;
  retries = 0;
  rate_limits = 0;
}

abbrev uploaded : FileRecord
uploaded = record pending { name = "b.tar"; size = 5; md5 = 109 ∷ []; uploaded = true }

abbrev a_state : State
a_state = record {
  format_version = 1;
  source_dir = "/d";
  pattern = "*.tar";
  remote_dir = "/apps/p";
  files = pending ∷ uploaded ∷ [];
  total_bytes = 15;
  completed = false;
  created_at = 0;
  updated_at = 0;
}

abbrev an_os : Os
an_os = record {
  lstat = λ p. ok (record { is_regular = true; size = 10 });
  glob = λ p. ok ("a.tar" ∷ []);
  sort = λ ps. ps;
  base = λ p. p;
  clean = λ p. p;
  join = λ d p. d <> ("/" <> p);
}

validate_state_files_example : IsValid an_os a_config a_state
unfolding validate_state_files panpack.Batch.is_control_file
validate_state_files_example = validate_state_files-IsValid an_os a_config a_state refl

abbrev given_config : Given
given_config = record {
  source_dir = "/d";
  pattern = "";
  remote_dir = "/apps/p";
  state_file = "";
  receipt_file = "";
  max_file_attempts = negsuc 0;
  retry_delay = pos 5;
  limits = default_limits;
}

abbrev some_paths : Paths
some_paths = record {
  abs = λ p. ok p;
  clean = λ p. p;
  base = λ p. p;
  join = λ d p. d <> ("/" <> p);
  dir = λ p. "/d";
  clean_remote = λ p. p;
  stat_is_dir = λ p. ok true;
  has_separator = λ p. false;
  is_under_apps = λ p. str_eq p "/apps/p";
  mkdir_all = λ p. none;
}

abbrev settled_config : Settled
settled_config = record {
  source_dir = "/d";
  pattern = "*.tar";
  remote_dir = "/apps/p";
  state_file = "/d/.panpack-upload-state.json";
  receipt_file = "";
  max_file_attempts = 20;
  retry_delay = 5;
  limits = default_limits;
}

resolve_config_example : IsSettled some_paths settled_config
unfolding resolve_config
resolve_config_example = resolve_config-IsSettled some_paths given_config settled_config refl

retry_delay_example : retry_delay 60000000000 3 ≡ min (60000000000 * 2 ^ (3 - 1)) delay_cap
retry_delay_example = retry_delay_lem 60000000000 3
