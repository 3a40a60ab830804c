-- ===== src/Batch/Run.antt =====
-- The run of a batch: runWithClient, removeIfPresent and waitContext of
-- internal/batchupload/batch.go, as a program over the state, its file, the local files that were
-- removed, and a remote side of any kind. What the system gives a call is read off an environment
-- by the number of calls before it.
pub mod Synced
pub mod Removal
use panpack.Base.{
  ℕ, zero, suc, ◌+◌, ◌-◌, ◌<>◌, String, str_eq, Bool, true, false, not, ◌&&◌, ◌||◌, Option, none,
  some, Error, message, wrapped, is_not_exist, is_remote_not_found, Result, ok, err, ltb, ◌==◌,
  if◌then◌else◌, List, [], ◌∷◌, ◌++◌, Bytes, is_empty,
}
use panpack.Base.Programs.{Program, ◌>>=◌, ◌>>◌, give, raise, lift, returned, unless, when}
use panpack.Files.{Content, whole, Disk, Outcomes}
use panpack.Baidu.Checksum.{Codec, equal_fold, remote_md5, remote_md5_matches}
use panpack.Baidu.Blocks.{Hashed, hash_file}
use panpack.Baidu.Concurrency.{UploadStats}
use panpack.Baidu.Listing.{RemoteInfo}
use panpack.Batch.{
  FileRecord, State, Stat, Tally, save_state, complete_record, result_from_state, retry_delay,
}

-- The methods of `uploadClient` that change or read the remote side.
pub record UploadClient {ℓ} (R : Type ℓ) : Type ℓ where
  pub ensure_dir : String → R → Option Error × R
  pub remote_info : String → R → Result RemoteInfo × R
  pub upload_hashed_file : String → String → ℕ → Bytes → List Bytes → R → Result UploadStats × R

-- What the system answers, by the number of calls before.
pub record Environment : Type 0 where
  pub ctx_err : ℕ → Option Error
  pub lstat : ℕ → String → Result Stat
  pub read : ℕ → String → Result Bytes
  pub outcomes : ℕ → Outcomes
  pub remove : ℕ → String → Option Error
  pub wait : ℕ → ℕ → Option Error
  pub now : ℕ → ℕ

-- The configuration as `resolveConfig` leaves it, with the two functions that join paths.
pub record RunConfig : Type 0 where
  pub source_dir : String
  pub remote_dir : String
  pub state_file : String
  pub delete_after_verify : Bool
  pub max_file_attempts : ℕ
  pub retry_delay : ℕ
  pub slice_size : ℕ
  pub join : String → String → String
  pub join_remote : String → String → String

-- `removals` are the local files whose removal was asked for, the last one first.
pub record Run {ℓ} (R : Type ℓ) : Type ℓ where
  pub state : State
  pub disk : Disk State
  pub removals : List String
  pub remote : R
  pub tick : ℕ

-- How one attempt on a file ends.
pub data Attempt : Type 0 where
  completed : FileRecord → Attempt
  failed : Error → Attempt

-- The stats of a file that is found on the remote side.
abbrev pub rapid_stats : ℕ → Bytes → UploadStats
rapid_stats size md5 = record {
  concurrency = 0;
  retries = 0;
  rate_limits = 0;
  duration = 0;
  rapid = true;
  size = size;
  md5 = md5;
}

module _ {ℓ} {R : Type ℓ} where
  -- A system call.
  pub ask {κ} : {A : Type κ} → (ℕ → A) → Program (Run R) A
  ask f w = (ok (f w.tick), record w { tick = w.tick + 1 })

  -- A call of the client.
  pub request {κ} : {A : Type κ} → (R → A × R) → Program (Run R) A
  request f w =
      let (a, remote) = f w.remote in (ok a, record w { remote = remote; tick = w.tick + 1 })

pub removed : Option Error → Result (Unit {0})
removed none = ok tt
removed (some x) = if is_not_exist x then ok tt else err (wrapped "remove verified file" x)

module _ {ℓ} {R : Type ℓ} (client : UploadClient R) (codec : Codec) (env : Environment)
    (cfg : RunConfig) where
  pub check_context : Program (Run R) (Unit {0})
  unfolding ask
  check_context = do e ← ask env.ctx_err; returned e

  -- The state with these records, stamped and saved.
  pub save_files : Bool → List FileRecord → Program (Run R) (Unit {0})
  save_files done files w =
      let s = record w.state {
        files = files;
        completed = w.state.completed || done;
        updated_at = env.now w.tick;
      } in
      let (e, d) = save_state cfg.state_file s (env.outcomes w.tick) w.disk in
      returned e (record w { state = s; disk = d; tick = w.tick + 1 })

  -- `os.Remove` of a file that may be gone: removeIfPresent.
  pub remove_if_present : String → Program (Run R) (Unit {0})
  unfolding removed
  remove_if_present path w = (
    removed (env.remove w.tick path),
    record w { removals = path ∷ w.removals; tick = w.tick + 1 },
  )

  abbrev pub local_path : FileRecord → String
  local_path r = cfg.join cfg.source_dir r.name

  abbrev pub remote_path : FileRecord → String
  remote_path r = cfg.join_remote cfg.remote_dir r.name

  -- The preflight request has answered, and the upload follows where nothing is there.
  pub upload_missing : FileRecord → Hashed → Program (Run R) Attempt
  unfolding request ask
  upload_missing r h = do
    started ← ask env.now
    uploaded ←
        request
          (client.upload_hashed_file (local_path r) (remote_path r) h.size h.full_md5 h.blocks)
    ended ← ask env.now
    give (elim uploaded [
      | ok stats ↦ completed (complete_record ended (ended - started) stats r)
      | err e ↦ failed e
    ])

  pub answered : FileRecord → Hashed → Result RemoteInfo → Program (Run R) Attempt
  unfolding ask upload_missing
  answered r h (ok remote) = do
    unless
        (not (remote.size == h.size)
          || not (remote_md5_matches codec remote.md5 h.full_md5 h.blocks))
        (message "refusing to overwrite remote collision: remote size/md5 differs")
    now ← ask env.now
    give (completed (complete_record now 0 (rapid_stats h.size h.full_md5) r))
  answered r h (err e) =
      if not (is_remote_not_found e)
      then give (failed (wrapped "preflight remote metadata" e))
      else upload_missing r h

  pub attempt_once : FileRecord → Hashed → Program (Run R) Attempt
  unfolding request answered
  attempt_once r h = do remote ← request (client.remote_info (remote_path r)); answered r h remote

  -- A completed record is saved before its file is removed.
  pub finish_file : List FileRecord → FileRecord → List FileRecord → Program (Run R) FileRecord
  unfolding save_files remove_if_present
  finish_file before r after = do
    save_files false (before ++ (r ∷ after))
    when cfg.delete_after_verify (remove_if_present (local_path r))
    give r

  pub pause : ℕ → Program (Run R) (Unit {0})
  unfolding ask
  pause attempt = do e ← ask (λ t. env.wait t (retry_delay cfg.retry_delay attempt)); returned e

  -- What follows an attempt; `again` are the attempts after it.
  pub after_attempt :
      List FileRecord
      → List FileRecord
      → ℕ
      → Attempt
      → (Error → Program (Run R) FileRecord)
      → Program (Run R) FileRecord
  unfolding finish_file pause
  after_attempt before after k (completed r) again = finish_file before r after
  after_attempt before after k (failed e) again = do
    when (ltb k cfg.max_file_attempts) (pause k)
    again e

  -- `left` attempts from the `k`-th on.
  pub attempts :
      ℕ
      → ℕ
      → List FileRecord
      → FileRecord
      → List FileRecord
      → Hashed
      → Error
      → Program (Run R) FileRecord
  unfolding check_context save_files attempt_once after_attempt
  attempts zero k before r after h last = raise (wrapped "upload failed after file attempts" last)
  attempts (suc left) k before r after h last =
      let r1 = record r { attempts = r.attempts + 1 } in
      do
        check_context
        save_files false (before ++ (r1 ∷ after))
        outcome ← attempt_once r1 h
        after_attempt before after k outcome (λ e. attempts left (k + 1) before r1 after h e)

  -- A file that is not marked as uploaded: it is hashed, its hashes are saved, and then it is tried.
  pub upload_file : List FileRecord → FileRecord → List FileRecord → Program (Run R) FileRecord
  unfolding check_context ask save_files attempts
  upload_file before r after = do
    check_context
    found ← ask (λ t. env.lstat t (local_path r))
    info ← lift found
    unless (not info.is_regular || not (info.size == r.size)) (message "pending file changed")
    content ← ask (λ t. env.read t (local_path r))
    h ← lift (hash_file codec cfg.slice_size content)
    unless (not (h.size == r.size) || (not (is_empty r.md5) && not (equal_fold r.md5 h.full_md5)))
        (message "pending file changed while hashing")
    composite ← lift (remote_md5 codec h.blocks)
    let r1 = record r { md5 = h.full_md5; remote_md5 = composite }
    save_files false (before ++ (r1 ∷ after))
    attempts cfg.max_file_attempts 1 before r1 after h (message "no attempt")

  pub run_file : List FileRecord → FileRecord → List FileRecord → Program (Run R) FileRecord
  unfolding remove_if_present upload_file
  run_file before r after =
      if r.uploaded
      then (do when cfg.delete_after_verify (remove_if_present (local_path r)); give r)
      else upload_file before r after

  -- The range over the files: those before are done with.
  pub run_files : List FileRecord → List FileRecord → Program (Run R) (List FileRecord)
  unfolding run_file
  run_files before [] = give before
  run_files before (r ∷ rs) = do r' ← run_file before r rs; run_files (before ++ (r' ∷ [])) rs

  -- `runWithClient`. The tally that the source returns beside an error is that of the world.
  unfoldable pub run_with_client : Program (Run R) Tally
  unfolding request run_files save_files
  run_with_client w =
      (do
        e ← request (client.ensure_dir cfg.remote_dir)
        returned e
        files ← run_files [] w.state.files
        save_files true files
        λ w'. (ok (result_from_state cfg.state_file w'.state), w'))
        w
