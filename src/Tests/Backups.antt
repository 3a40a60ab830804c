-- ===== src/Tests/Backups.antt =====
-- The theorems on the run of a backup, at a snapshot of one volume.
use panpack.Base.{ℕ, ◌+◌, true, false, refl, arith, none, some, ok, [], ◌∷◌}
use panpack.Base.{if◌then◌else◌, if_intro, ◌≡◌, err, eof}
use panpack.Base.{str_eq, ◌<>◌, not}
use panpack.Backup.RemoteDir.{PathText}
use panpack.Base.Programs as Steps
use panpack.Files.{whole, put, smooth}
use panpack.Baidu.Concurrency.{UploadStats}
use panpack.Store.{Cursor, Volume, Backup, fresh}
use panpack.Store.Invariant.{fresh-IsWellFormed}
use panpack.Backup.{Uploader, Names, Environment, Machine, packed_of, run}
use panpack.Backup.Staging.{IsSafe}
use panpack.Backup.Fuel.{GetsOn, Shrinks, run-agrees}
use panpack.Backup.Rounds.{IsComplete, Seals, run-IsSafe, run-IsComplete}

abbrev stats : UploadStats
stats = record {
  concurrency = 1;
  retries = 0;
  rate_limits = 0;
  duration = 5;
  rapid = false;
  size = 2;
  md5 = [];
}

abbrev counting_uploader : Uploader ℕ
counting_uploader = record {
  upload_volume = λ v n. (ok stats, n + 1);
  upload_file = λ path name n. (ok stats, n + 1);
}

abbrev some_names : Names
some_names = record {
  state_file = "/st/state.json";
  snapshot_id = "s1";
  manifest_path = "/st/m.gz";
  manifest_name = "m.gz";
  snapshot_path = "/st/snapshot.json";
  snapshot_name = "snapshot-s1.json";
  index_path = "/st/index-s1.json";
  index_name = "index-s1.json";
  remote_dir = "/apps/p";
}

-- The only volume: after it the cursor is at the end.
abbrev volume_at : Cursor → Volume
volume_at c = record {
  index = c.next_volume;
  name = "v0.tar";
  local_path = "/st/staging/v0.tar";
  remote_path = "/apps/p/v0.tar";
  size = 4096;
  md5 = "m";
  block_md5s = "b" ∷ [];
  cursor_after = record {
    manifest_offset = 80;
    file_offset = 0;
    next_volume = c.next_volume + 1;
    is_done = true;
  };
  sealed_at = 3;
  uploaded_at = 0;
  uploaded = false;
  upload_attempts = 0;
}

abbrev calm : Environment
calm = record {
  outcomes = λ t. smooth;
  now = λ t. t;
  exists = λ t path. true;
  remove = λ t path. none;
  plan = λ t. ok 8192;
  pack_next = λ t c target. ok (volume_at c);
  hash_file = λ t path. ok (12, "m");
}

abbrev before_backup : Machine ℕ
before_backup = record {
  store = record {
    backup = fresh "s1" "/src" "/apps/p" 1;
    disk = put "/st/state.json" (some (whole (fresh "s1" "/src" "/apps/p" 1))) (λ p. none);
  };
  indexes = λ p. none;
  removals = [];
  remote = 0;
  tick = 0;
}

calm-Seals : Seals counting_uploader calm some_names
calm-Seals t c n = record { next = omega arith; hashed = λ e. cc }

run-IsSafe_example : IsSafe some_names (run counting_uploader calm some_names 3 before_backup).1
run-IsSafe_example =
    run-IsSafe counting_uploader calm some_names calm-Seals 3 before_backup refl refl
      (fresh-IsWellFormed "s1" "/src" "/apps/p" 1)

run-IsComplete_example :
    IsComplete counting_uploader calm some_names
      (run counting_uploader calm some_names 3 before_backup).1
unfolding run Steps.continue Steps.lift Steps.returned Steps.unless Steps.when
    panpack.Store.add_sealed panpack.Store.save_locked panpack.Files.write_atomic
    panpack.Store.increment_attempt panpack.Store.mark_uploaded panpack.Store.mark_complete
run-IsComplete_example =
    run-IsComplete counting_uploader calm some_names calm-Seals 3 before_backup refl refl
      (fresh-IsWellFormed "s1" "/src" "/apps/p" 1) refl

-- A round is left until the cursor is at the end.
abbrev rounds_left : Cursor → ℕ
rounds_left c = if c.is_done then 0 else 1

abbrev once : Environment
once = record calm { pack_next = λ t c target. if c.is_done then err eof else ok (volume_at c) }

once-GetsOn : GetsOn counting_uploader once some_names rounds_left
unfolding packed_of
once-GetsOn t c n =
    if_intro (λ r. Shrinks counting_uploader once some_names rounds_left c (packed_of r)) c.is_done
      (λ over. tt) (λ more. ground arith)

run-agrees_example :
    run counting_uploader once some_names (5 + 2) before_backup
    ≡ run counting_uploader once some_names 2 before_backup
run-agrees_example =
    run-agrees counting_uploader once some_names rounds_left once-GetsOn 2 5 before_backup
      (omega arith)

-- Every path is clean, and a join keeps its first part.
abbrev plain_text : PathText
plain_text = record {
  clean = λ p. p;
  is_under_apps = λ p. not (str_eq p "");
  join = λ d p. d <> ("/" <> p);
}

-- The state that was opened with the default directory.
abbrev opened : Backup
opened = fresh "s1" "/src" "/apps/bypy/panpack-s1" 1
