-- ===== src/Tests/Programs.antt =====
-- The theorems on the runs of an upload, of a backup and of an audit, at concrete values.
use panpack.Base.{
  ℕ, ◌+◌, ◌<>◌, true, false, refl, none, some, remote_not_found, ok, err, [], ◌∷◌, Bytes,
}
use panpack.Base.Programs as Steps
use panpack.Files.{whole, Disk, put, smooth}
use panpack.Baidu.Checksum.{Codec}
use panpack.Baidu.Concurrency.{UploadStats}
use panpack.Batch.{FileRecord, State, Tally, Os}
use panpack.Batch.Run.{UploadClient, Environment, RunConfig, Run, run_with_client}
use panpack.Batch.Run.Synced.{IsSafe}
use panpack.Batch.Run.Removal.{IsComplete, run_with_client-IsSafe, run_with_client-IsComplete}

abbrev some_digits : Bytes
some_digits =
    48 ∷ 49 ∷ 50 ∷ 51 ∷ 52 ∷ 53 ∷ 54 ∷ 55 ∷ 48 ∷ 49 ∷ 50 ∷ 51 ∷ 52 ∷ 53 ∷ 54 ∷ 55 ∷ 48 ∷ 49 ∷ 50
    ∷ 51 ∷ 52 ∷ 53 ∷ 54 ∷ 55 ∷ 48 ∷ 49 ∷ 50 ∷ 51 ∷ 52 ∷ 53 ∷ 54 ∷ 55 ∷ []

abbrev digits_codec : Codec
digits_codec = record { md5_hex = λ b. some_digits; marshal = λ bs. [] }

abbrev some_stats : UploadStats
some_stats = record {
  concurrency = 1;
  retries = 0;
  rate_limits = 0;
  duration = 5;
  rapid = false;
  size = 2;
  md5 = some_digits;
}

-- The remote side counts the uploads.
abbrev counting_client : UploadClient ℕ
counting_client = record {
  ensure_dir = λ dir n. (none, n);
  remote_info = λ path n. (err remote_not_found, n);
  upload_hashed_file = λ local_path remote_path size md5 blocks n. (ok some_stats, n + 1);
}

abbrev quiet : Environment
quiet = record {
  ctx_err = λ t. none;
  lstat = λ t path. ok (record { is_regular = true; size = 2 });
  read = λ t path. ok (7 ∷ 8 ∷ []);
  outcomes = λ t. smooth;
  remove = λ t path. none;
  wait = λ t delay. none;
  now = λ t. t;
}

abbrev run_config : RunConfig
run_config = record {
  source_dir = "/d";
  remote_dir = "/apps/p";
  state_file = "/d/s.json";
  delete_after_verify = true;
  max_file_attempts = 2;
  retry_delay = 1;
  slice_size = 2;
  join = λ d p. d <> ("/" <> p);
  join_remote = λ d p. d <> ("/" <> p);
}

abbrev waiting : FileRecord
waiting = record {
  name = "a.tar";
  size = 2;
  md5 = [];
  remote_md5 = [];
  attempts = 0;
  uploaded = false;
  uploaded_at = 0;
  duration = 0;
  retries = 0;
  rate_limits = 0;
}

abbrev sent : FileRecord
sent = record waiting { name = "b.tar"; md5 = some_digits; uploaded = true }

abbrev two_files : State
two_files = record {
  format_version = 1;
  source_dir = "/d";
  pattern = "*.tar";
  remote_dir = "/apps/p";
  files = waiting ∷ sent ∷ [];
  total_bytes = 4;
  completed = false;
  created_at = 0;
  updated_at = 0;
}

abbrev before_run : Run ℕ
before_run = record {
  state = two_files;
  disk = put "/d/s.json" (some (whole two_files)) (λ p. none);
  removals = [];
  remote = 0;
  tick = 0;
}

run_with_client-IsSafe_example :
    IsSafe run_config (run_with_client counting_client digits_codec quiet run_config before_run).1
run_with_client-IsSafe_example =
    run_with_client-IsSafe counting_client digits_codec quiet run_config before_run refl refl

abbrev the_tally : Tally
the_tally = record {
  total_files = 2;
  completed_files = 2;
  total_bytes = 4;
  completed_bytes = 4;
  state_file = "/d/s.json";
}

run_with_client-IsComplete_example :
    IsComplete counting_client digits_codec quiet run_config
      (run_with_client counting_client digits_codec quiet run_config before_run).1
unfolding run_with_client Steps.continue Steps.lift Steps.returned Steps.unless Steps.when
    panpack.Baidu.Blocks.hash_file panpack.Baidu.Checksum.remote_md5 panpack.Batch.save_state
    panpack.Files.write_atomic panpack.Batch.result_from_state panpack.Batch.complete_record
run_with_client-IsComplete_example =
    run_with_client-IsComplete counting_client digits_codec quiet run_config before_run refl refl
      the_tally refl
