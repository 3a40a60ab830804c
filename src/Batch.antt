-- ===== src/Batch.antt =====
-- The state of a batch upload: the types, the loading, creation and validation of the state, and
-- the helpers of internal/batchupload/batch.go. The file system and the functions of path/filepath
-- that the code calls are parameters; sizes are int64 values that are not negative.
pub mod Delay
pub mod Run
pub mod Validated
pub mod Configured
use panpack.Base.{
  Bytes, is_empty, ℕ, zero, suc, ◌+◌, ◌-◌, ◌*◌, ◌<>◌, String, str_eq, Bool, true, false, not, ◌&&◌,
  ◌||◌, Option, none, some, Error, not_exist, message, wrapped, is_not_exist, Result, ok, err,
  ◌>>=◌, ◌>>◌, fail_if, ltb, ◌==◌, if◌then◌else◌, List, [], ◌∷◌, ◌++◌,
}
use panpack.Baidu.Concurrency.{UploadStats}
use panpack.Files.{Content, torn, whole, Disk, Outcomes, write_atomic}

abbrev pub format_version : ℕ
format_version = 1

pub record Config : Type 0 where
  pub source_dir : String
  pub pattern : String
  pub remote_dir : String
  pub state_file : String
  pub receipt_file : String

pub record FileRecord : Type 0 where
  pub name : String
  pub size : ℕ
  pub md5 : Bytes
  pub remote_md5 : Bytes
  pub attempts : ℕ
  pub uploaded : Bool
  pub uploaded_at : ℕ
  pub duration : ℕ
  pub retries : ℕ
  pub rate_limits : ℕ

pub record State : Type 0 where
  pub format_version : ℕ
  pub source_dir : String
  pub pattern : String
  pub remote_dir : String
  pub files : List FileRecord
  pub total_bytes : ℕ
  pub completed : Bool
  pub created_at : ℕ
  pub updated_at : ℕ

-- `Result` of the package.
pub record Tally : Type 0 where
  pub total_files : ℕ
  pub completed_files : ℕ
  pub total_bytes : ℕ
  pub completed_bytes : ℕ
  pub state_file : String

-- What os.Lstat gives of a file.
pub record Stat : Type 0 where
  pub is_regular : Bool
  pub size : ℕ

-- The file system, and path/filepath; `glob` is sorted where the code sorts it.
pub record Os : Type 0 where
  pub lstat : String → Result Stat
  pub glob : String → Result (List String)
  pub sort : List String → List String
  pub base : String → String
  pub clean : String → String
  pub join : String → String → String

-- `saveState`
unfoldable pub save_state : String → State → Outcomes → Disk State → Option Error × Disk State
save_state state_file state io d = write_atomic (state_file <> ".tmp") state_file state io d

decoded : Option (Content State) → Result State
decoded none = err not_exist
decoded (some torn) = err (message "decode upload state")
decoded (some (whole s)) =
    if s.format_version == format_version
    then ok s
    else err (message "unsupported upload state format")

-- `LoadState`
unfoldable pub load_state : String → Disk State → Result State
unfolding decoded
load_state state_file d = decoded (d state_file)

unfoldable pub member : String → List String → Bool
member x [] = false
member x (y ∷ ys) = str_eq x y || member x ys

pub clean_all : (String → String) → List String → List String
clean_all clean [] = []
clean_all clean (p ∷ ps) = clean p ∷ clean_all clean ps

-- The files that belong to the run itself.
control_files : Config → List String
control_files cfg =
    let receipt = cfg.state_file <> ".receipt.json" in
    let given = cfg.receipt_file in
    let always =
      cfg.state_file
      ∷ (cfg.state_file <> ".tmp")
      ∷ (cfg.state_file <> ".lock")
      ∷ receipt
      ∷ (receipt <> ".tmp")
      ∷ (receipt <> ".lock")
      ∷ [] in
    if str_eq given ""
    then always
    else always ++ (given ∷ (given <> ".tmp") ∷ (given <> ".lock") ∷ [])

-- `isControlFile`
unfoldable pub is_control_file : Os → Config → String → Bool
unfolding clean_all control_files member
is_control_file os cfg file_path =
    member (os.clean file_path) (clean_all os.clean (control_files cfg))

-- `filterControlFiles`
filter_control_files : Os → Config → List String → List String
filter_control_files os cfg [] = []
filter_control_files os cfg (m ∷ ms) =
    let rest = filter_control_files os cfg ms in if is_control_file os cfg m then rest else m ∷ rest

-- What the range over the records has found: the names so far, the bytes, and whether all are uploaded.
pub record Seen : Type 0 where
  pub known : List String
  pub total : ℕ
  pub all_uploaded : Bool

-- The test of one record whose file is pending, on what os.Lstat gives.
pub check_stat : FileRecord → Result Stat → Result (Unit {0})
check_stat r (err e) = err (wrapped "pending state file is unavailable" e)
check_stat r (ok info) =
    fail_if (not info.is_regular || not (info.size == r.size))
      (message "pending state file changed")

unfoldable pub check_pending : Os → Config → FileRecord → Result (Unit {0})
unfolding check_stat
check_pending os cfg r = check_stat r (os.lstat (os.join cfg.source_dir r.name))

unfoldable pub check_record : Os → Config → FileRecord → Seen → Result Seen
unfolding check_pending member
check_record os cfg r s =
    fail_if (str_eq r.name "" || not (str_eq (os.base r.name) r.name))
      (message "unsafe filename in upload state")
    >> (fail_if (member r.name s.known) (message "duplicate filename in upload state")
        >> ((if r.uploaded
              then fail_if (is_empty r.md5) (message "uploaded state file has no verified md5")
              else check_pending os cfg r)
            >> ok (record {
              known = r.name ∷ s.known;
              total = s.total + r.size;
              all_uploaded = r.uploaded && s.all_uploaded;
            })))

pub check_records : Os → Config → List FileRecord → Seen → Result Seen
unfolding check_record
check_records os cfg [] s = ok s
check_records os cfg (r ∷ rs) s = check_record os cfg r s >>= check_records os cfg rs

-- The range over the matches.
pub check_matches : Os → Config → List String → List String → Result (Unit {0})
unfolding member
check_matches os cfg known [] = ok tt
check_matches os cfg known (m ∷ ms) =
    fail_if (not (is_control_file os cfg m) && not (member (os.base m) known))
      (message "new matching file is absent from immutable upload state")
    >> check_matches os cfg known ms

abbrev pub nothing_seen : Seen
nothing_seen = record { known = []; total = 0; all_uploaded = true }

-- `validateStateFiles`
unfoldable pub validate_state_files : Os → Config → State → Result (Unit {0})
unfolding check_records check_matches
validate_state_files os cfg state = check_records os cfg state.files nothing_seen >>= λ s.
    (fail_if (not (s.total == state.total_bytes)) (message "upload state total bytes changed")
      >> (fail_if (state.completed && not s.all_uploaded)
            (message "upload state is marked complete but still has pending files")
          >> (os.glob (os.join cfg.source_dir cfg.pattern) >>= check_matches os cfg s.known)))

-- The record of a matched file, which must be a regular one.
record_of : Os → String → Result FileRecord
record_of os m = os.lstat m >>= λ info.
    (fail_if (not info.is_regular) (message "matched path is not a regular file")
      >> ok (record {
        name = os.base m;
        size = info.size;
        md5 = [];
        remote_md5 = [];
        attempts = 0;
        uploaded = false;
        uploaded_at = 0;
        duration = 0;
        retries = 0;
        rate_limits = 0;
      }))

records_of : Os → List String → Result (List FileRecord)
unfolding record_of
records_of os [] = ok []
records_of os (m ∷ ms) = record_of os m >>= λ r. (records_of os ms >>= λ rs. ok (r ∷ rs))

unfoldable pub bytes_of : List FileRecord → ℕ
bytes_of [] = 0
bytes_of (r ∷ rs) = r.size + bytes_of rs

-- The state of a new batch, from what is matched now.
create_state : Os → Config → ℕ → Result State
unfolding records_of filter_control_files bytes_of
create_state os cfg now = os.glob (os.join cfg.source_dir cfg.pattern) >>= λ matches.
    elim (filter_control_files os cfg (os.sort matches)) [
      | [] ↦ err (message "no files match")
      | m ∷ ms ↦ records_of os (m ∷ ms) >>= λ files. ok (record {
        format_version = format_version;
        source_dir = cfg.source_dir;
        pattern = cfg.pattern;
        remote_dir = cfg.remote_dir;
        files = files;
        total_bytes = bytes_of files;
        completed = false;
        created_at = now;
        updated_at = now;
      })
    ]

store_new : Config → Outcomes → Disk State → Result State → Result State × Disk State
store_new cfg io d (err e) = (err e, d)
store_new cfg io d (ok s) =
    let (failed, d') = save_state cfg.state_file s io d in
    (elim failed [ none ↦ ok s | some e ↦ err e ], d')

pub same_batch : Config → State → Bool
same_batch cfg s =
    s.format_version == format_version
    && (str_eq s.source_dir cfg.source_dir
        && (str_eq s.pattern cfg.pattern && str_eq s.remote_dir cfg.remote_dir))

load_or_create : Os → Config → ℕ → Outcomes → Disk State → Result State → Result State × Disk State
unfolding same_batch create_state store_new
load_or_create os cfg now io d (ok s) =
    (if same_batch cfg s then ok s else err (message "upload state does not match the request"), d)
load_or_create os cfg now io d (err e) =
    if is_not_exist e then store_new cfg io d (create_state os cfg now) else (err e, d)

-- `loadOrCreateState`
unfoldable pub load_or_create_state :
    Os → Config → ℕ → Outcomes → Disk State → Result State × Disk State
unfolding load_or_create
load_or_create_state os cfg now io d = load_or_create os cfg now io d (load_state cfg.state_file d)

-- `completeRecord`
unfoldable pub complete_record : ℕ → ℕ → UploadStats → FileRecord → FileRecord
complete_record now duration stats r = record r {
  md5 = stats.md5;
  uploaded = true;
  uploaded_at = now;
  duration = duration;
  retries = stats.retries;
  rate_limits = stats.rate_limits;
}

-- The loop of `resultFromState`.
pub tally : List FileRecord → Tally → Tally
tally [] t = t
tally (r ∷ rs) t = tally rs (
    if r.uploaded
    then record t {
      completed_files = t.completed_files + 1;
      completed_bytes = t.completed_bytes + r.size;
    }
    else t)

pub count_files : List FileRecord → ℕ
count_files [] = 0
count_files (r ∷ rs) = suc (count_files rs)

-- `resultFromState`
unfoldable pub result_from_state : String → State → Tally
unfolding tally count_files
result_from_state state_file s = tally s.files (record {
  total_files = count_files s.files;
  completed_files = 0;
  total_bytes = s.total_bytes;
  completed_bytes = 0;
  state_file = state_file;
})

-- `10 * time.Minute`, in nanoseconds.
abbrev pub delay_cap : ℕ
delay_cap = 600000000000

-- The loop of `retryDelay`, which makes at most `n` doublings.
pub doubling : ℕ → ℕ → ℕ
doubling zero delay = delay
doubling (suc n) delay =
    let rest = doubling n (delay * 2) in if ltb delay delay_cap then rest else delay

-- `retryDelay`
unfoldable pub retry_delay : ℕ → ℕ → ℕ
unfolding doubling
retry_delay base attempt =
    let delay = doubling (attempt - 1) base in if ltb delay_cap delay then delay_cap else delay
