-- ===== src/Receipt.antt =====
-- Run receipts: internal/runreceipt/receipt.go. Receipts are documents of a disk; the absolute and
-- the clean form of a path (path/filepath) and the digest of the state file (crypto/sha256) are
-- parameters, and so is how each system call ends.
pub mod Verified
use panpack.Base.{
  ℕ, ◌<>◌, String, str_eq, Bool, true, false, not, ◌&&◌, ◌||◌, Option, none, some, Error, not_exist,
  message, wrapped, is_not_exist, Result, ok, err, ◌>>=◌, ◌>>◌, fail_if, ◌==◌, if◌then◌else◌,
}
use panpack.Base.Int.{ℤ, pos, negsuc}
use panpack.Files.{Content, torn, whole, Disk, Outcomes, or_else, write_atomic}

abbrev pub format_version : ℕ
format_version = 1

pub data Status : Type 0 where
  running succeeded failed : Status

pub record Receipt : Type 0 where
  pub format_version : ℕ
  pub command : String
  pub pid : ℕ
  pub status : Status
  pub state_file : String
  pub state_sha256 : String
  pub started_at : ℕ
  pub finished_at : Option ℕ
  pub exit_code : Option ℤ
  pub error : String

-- The lock is held from `start` to the end of `finish`.
pub record Recorder : Type 0 where
  pub path : String
  pub locked : Bool
  pub receipt : Receipt

-- How the calls on the directory of the receipt end, after the rename.
pub record DirCalls : Type 0 where
  pub open_dir : Option Error
  pub sync : Option Error
  pub close : Option Error

-- How the calls of `Start` end, up to the lock.
pub record Setup : Type 0 where
  pub mkdir : Option Error
  pub open_lock : Option Error
  pub flock : Option Error
  pub getpid : ℕ

abbrev attempt : String → Option Error → Result (Unit {0})
attempt m none = ok tt
attempt m (some e) = err (wrapped m e)

abbrev context {ℓ} : {A : Type ℓ} → String → Result A → Result A
context m (ok a) = ok a
context m (err e) = err (wrapped m e)

-- `save`: the file, then its directory.
unfoldable pub save : Recorder → Outcomes → DirCalls → Disk Receipt → Option Error × Disk Receipt
save r io dir d =
    let (e, d') = write_atomic (r.path <> ".tmp") r.path r.receipt io d in
    (or_else e (or_else dir.open_dir (or_else dir.sync dir.close)), d')

-- What `Start` does before the save.
prepare : (String → Result String) → Setup → ℕ → String → String → String → Result Recorder
prepare abs sys now receipt_file command state_file =
    fail_if (str_eq receipt_file "") (message "receipt file is required")
    >> (fail_if (str_eq command "") (message "receipt command is required")
        >> (context "absolute receipt path" (abs receipt_file) >>= λ abs_receipt.
            (context "absolute state path" (abs state_file) >>= λ abs_state.
            (attempt "create receipt directory" sys.mkdir
              >> (attempt "open receipt lock" sys.open_lock
                  >> (attempt "another run holds receipt" sys.flock
                      >> ok (record {
                        path = abs_receipt;
                        locked = true;
                        receipt = record {
                          format_version = format_version;
                          command = command;
                          pid = sys.getpid;
                          status = running;
                          state_file = abs_state;
                          state_sha256 = "";
                          started_at = now;
                          finished_at = none;
                          exit_code = none;
                          error = "";
                        };
                      })))))))

saved : Option Error × Disk Receipt → Recorder → Result Recorder × Disk Receipt
saved (none, d) r = (ok r, d)
saved (some e, d) r = (err e, d)

started : Outcomes → DirCalls → Disk Receipt → Result Recorder → Result Recorder × Disk Receipt
unfolding saved
started io dir d (err e) = (err e, d)
started io dir d (ok r) = saved (save r io dir d) r

-- `Start`
unfoldable pub start :
    (String → Result String)
    → Setup
    → ℕ
    → Outcomes
    → DirCalls
    → String
    → String
    → String
    → Disk Receipt
    → Result Recorder × Disk Receipt
unfolding prepare started
start abs sys now io dir receipt_file command state_file d =
    started io dir d (prepare abs sys now receipt_file command state_file)

abbrev pub is_zero : ℤ → Bool
is_zero (pos n) = n == 0
is_zero (negsuc n) = false

abbrev pub is_nil : Option Error → Bool
is_nil none = true
is_nil (some e) = false

-- The end of the run, as it is entered in the receipt.
unfoldable pub ended : ℤ → Option Error → ℕ → Receipt → Receipt
ended exit_code run_err now r = record r {
  finished_at = some now;
  exit_code = some exit_code;
  status = if is_zero exit_code && is_nil run_err then succeeded else failed;
  error = elim run_err [ none ↦ r.error | some e ↦ "command failed; see process log" ];
}

-- The digest of the state file is entered unless there is no such file.
pub hashed : Result String → Receipt → Result Receipt
hashed (ok digest) r = ok (record r { state_sha256 = digest })
hashed (err e) r = if is_not_exist e then ok r else err (wrapped "hash receipt state file" e)

pub finished :
    Outcomes → DirCalls → Recorder → Disk Receipt → Result Receipt → Option Error × Disk Receipt
finished io dir r d (err e) = (some e, d)
finished io dir r d (ok new) = save (record r { receipt = new }) io dir d

-- `Finish` of a recorder that is not nil. The lock is released on each of its paths.
unfoldable pub finish :
    (String → Result String)
    → ℕ
    → Outcomes
    → DirCalls
    → ℤ
    → Option Error
    → Recorder
    → Disk Receipt
    → Option Error × Disk Receipt
unfolding hashed finished ended
finish sha256 now io dir exit_code run_err r d =
    finished io dir r d
      (hashed (sha256 r.receipt.state_file) (ended exit_code run_err now r.receipt))

pub decoded : Option (Content Receipt) → Result Receipt
decoded none = err not_exist
decoded (some torn) = err (message "decode run receipt")
decoded (some (whole r)) =
    if r.format_version == format_version
    then ok r
    else err (message "unsupported run receipt format")

-- `Load`
unfoldable pub load : String → Disk Receipt → Result Receipt
unfolding decoded
load receipt_file d = decoded (d receipt_file)

-- The test of the status, of the end and of the exit code.
pub is_terminal_success : Receipt → Bool
is_terminal_success r =
    elim r.status [ succeeded ↦ true | _ ↦ false ]
    && (elim r.finished_at [ none ↦ false | some t ↦ true ]
        && elim r.exit_code [ none ↦ false | some c ↦ is_zero c ])

-- What is checked once the receipt is loaded.
pub check :
    (String → Result String)
    → (String → String)
    → (String → Result String)
    → String
    → String
    → Receipt
    → Result Receipt
unfolding is_terminal_success
check abs clean sha256 state_file command r = abs state_file >>= λ abs_state.
    (fail_if (not (str_eq r.command command)) (message "receipt command differs")
      >> (fail_if (not (str_eq (clean r.state_file) (clean abs_state)))
            (message "receipt state file differs")
          >> (fail_if (not (is_terminal_success r))
                (message "receipt is not a successful terminal run")
              >> (sha256 abs_state >>= λ digest.
                  (fail_if (str_eq r.state_sha256 "" || not (str_eq r.state_sha256 digest))
                      (message "receipt state checksum does not match the current state file")
                    >> ok r)))))

-- `VerifySucceeded`; what it returns beside an error is dropped.
unfoldable pub verify_succeeded :
    (String → Result String)
    → (String → String)
    → (String → Result String)
    → String
    → String
    → String
    → Disk Receipt
    → Result Receipt
unfolding check
verify_succeeded abs clean sha256 receipt_file state_file command d =
    load receipt_file d >>= check abs clean sha256 state_file command
