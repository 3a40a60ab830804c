-- ===== src/Receipt/Verified.antt =====
-- The runs that leave a receipt which passes VerifySucceeded of internal/runreceipt/receipt.go, and
-- those that leave none.
use panpack.Base.{
  ℕ, ◌<>◌, String, str_eq, eq_iff, eq_refl, true, false, not, ◌&&◌, ◌||◌, Option, none, some, ◌≡◌,
  ◌≢◌, refl, subst, sym, ap, ◌∙◌, arith, Error, is_not_exist, Result, ok, err, IfOk, then-IfOk,
  guard-IfOk, ok-IfOk, if_intro, ◌>>=◌, ◌==◌, Option-cases, ◌⊎◌, inl, inr,
}
use mathlib.Core.Bool.{true≢false}
use panpack.Base.Int.{ℤ, pos}
use panpack.Files.{Content, torn, whole, Disk, Outcomes, write_atomic}
use panpack.Files.Atomic.{write_atomic-succeeds, write_atomic-fails}
use panpack.Store.Durable.{tmp-ne}
use panpack.Receipt.{
  is_zero, is_nil, hashed, finished, succeeded, Receipt, Recorder, DirCalls, format_version, save,
  ended, finish, load, decoded, check, is_terminal_success, verify_succeeded,
}

-- A save leaves the old receipt or the new one, the new one where it reports no error.
save-settles :
    (r : Recorder) (io : Outcomes) (dir : DirCalls) (d : Disk Receipt)
    → ((save r io dir d).1 r.path ≡ d r.path)
      ⊎ ((save r io dir d).1 r.path ≡ some (whole r.receipt))
unfolding save
save-settles r io dir d =
    elim (Option-cases (write_atomic (r.path <> ".tmp") r.path r.receipt io d).0) [
      | inl none_failed ↦ inr (
          write_atomic-succeeds (r.path <> ".tmp") r.path (tmp-ne r.path) r.receipt io d
            none_failed)
      | inr (e, failed_with) ↦ inl (
          write_atomic-fails (r.path <> ".tmp") r.path (tmp-ne r.path) r.receipt io d e failed_with)
    ]

save-succeeds :
    (r : Recorder) (io : Outcomes) (dir : DirCalls) (d : Disk Receipt)
    → (save r io dir d).0 ≡ none
    → (save r io dir d).1 r.path ≡ some (whole r.receipt)
unfolding save
save-succeeds r io dir d h =
    write_atomic-succeeds (r.path <> ".tmp") r.path (tmp-ne r.path) r.receipt io d (ground arith)

module _ (abs : String → Result String) (clean : String → String) where
  -- What a checked receipt says of the run and of the state file.
  record IsChecked (sha256 : String → Result String) (state_file command : String) (r : Receipt)
      : Type 0 where
    terminal : is_terminal_success r ≡ true
    same_command : r.command ≡ command
    state_path : String
    resolved : abs state_file ≡ ok state_path
    same_path : clean r.state_file ≡ clean state_path
    digest : sha256 state_path ≡ ok r.state_sha256
    nonempty : r.state_sha256 ≢ ""

  decoded-whole : (c : Option (Content Receipt)) → IfOk (λ r. c ≡ some (whole r)) (decoded c)
  unfolding decoded
  decoded-whole none = tt
  decoded-whole (some torn) = tt
  decoded-whole (some (whole r)) =
      if_intro (IfOk (λ r'. some (whole r) ≡ some (whole r'))) (r.format_version == format_version)
        (λ _. refl) (λ _. tt)

  load-whole :
      (receipt_file : String) (d : Disk Receipt)
      → IfOk (λ r. d receipt_file ≡ some (whole r)) (load receipt_file d)
  unfolding load
  load-whole receipt_file d = decoded-whole (d receipt_file)

  check-IfOk :
      (sha256 : String → Result String) (state_file command : String) (r : Receipt)
      (P : Receipt → Type 0)
      → (IsChecked sha256 state_file command r → P r)
      → IfOk P (check abs clean sha256 state_file command r)
  unfolding check
  check-IfOk sha256 state_file command r P k = then-IfOk P (abs state_file) _ λ path resolved.
      guard-IfOk P (not (str_eq r.command command)) _ _ λ same_command.
        guard-IfOk P (not (str_eq (clean r.state_file) (clean path))) _ _ λ same_path.
          guard-IfOk P (not (is_terminal_success r)) _ _ λ terminal.
            then-IfOk P (sha256 path) _ λ digest computed.
              guard-IfOk P (str_eq r.state_sha256 "" || not (str_eq r.state_sha256 digest)) _ _
                λ matches.
                  let same_digest : str_eq r.state_sha256 digest ≡ true = ground arith in
                  let present : str_eq r.state_sha256 "" ≡ false = ground arith in
                  k (record {
                    terminal = ground arith;
                    same_command = (eq_iff _ _).0 (ground arith);
                    state_path = path;
                    resolved = resolved;
                    same_path = (eq_iff _ _).0 (ground arith);
                    digest = computed ∙ ap ok (sym ((eq_iff _ _).0 same_digest));
                    nonempty = λ empty. true≢false (sym ((eq_iff _ _).1 empty) ∙ present);
                  })

  verify_succeeded-IsChecked :
      (sha256 : String → Result String) (receipt_file state_file command : String)
      (d : Disk Receipt) (r : Receipt)
      → verify_succeeded abs clean sha256 receipt_file state_file command d ≡ ok r
      → (d receipt_file ≡ some (whole r)) × IsChecked sha256 state_file command r
  unfolding verify_succeeded
  verify_succeeded-IsChecked sha256 receipt_file state_file command d r e =
      let P : Receipt → Type 0 =
        λ r'. (d receipt_file ≡ some (whole r')) × IsChecked sha256 state_file command r' in
      ok-IfOk P e (
        then-IfOk P (load receipt_file d) _ λ r' loaded.
          check-IfOk sha256 state_file command r' P λ c. (
            ok-IfOk (λ r''. d receipt_file ≡ some (whole r'')) loaded (load-whole receipt_file d),
            c,
          ))

-- A receipt that is no success under the check of `VerifySucceeded`.
abbrev Refused : Receipt → Type 0
Refused r = is_terminal_success r ≡ false

-- What a failed run enters is no success, whatever the digest is.
hashed-Refused :
    (sha : Result String) (code : ℤ) (run_err : Option Error) (now : ℕ) (r : Receipt)
    → is_zero code && is_nil run_err ≡ false
    → IfOk Refused (hashed sha (ended code run_err now r))
unfolding hashed ended is_terminal_success
hashed-Refused (ok digest) code run_err now r h = ground arith
hashed-Refused (err e) code run_err now r h =
    if_intro (IfOk Refused) (is_not_exist e) (λ _. ground arith) (λ _. tt)

-- No receipt under the path is one of a success.
abbrev pub HasNoSuccess : String → Disk Receipt → Type 0
HasNoSuccess path d = (r : Receipt) → d path ≡ some (whole r) → is_terminal_success r ≡ false

abbrev wrap : Receipt → Option (Content Receipt)
wrap r = some (whole r)

whole-injective : {r s : Receipt} → wrap r ≡ wrap s → r ≡ s
whole-injective {r} {s} e = cc

finished-HasNoSuccess :
    (io : Outcomes) (dir : DirCalls) (r : Recorder) (d : Disk Receipt) (new : Result Receipt)
    → IfOk Refused new
    → HasNoSuccess r.path d
    → HasNoSuccess r.path (finished io dir r d new).1
unfolding finished
finished-HasNoSuccess io dir r d (err e) h before s found = before s found
finished-HasNoSuccess io dir r d (ok new) h before s found =
    elim (save-settles (record r { receipt = new }) io dir d) [
      | inl old ↦ before s (sym old ∙ found)
      | inr put ↦ subst Refused (whole-injective (sym put ∙ found)) h
    ]

-- After a run that ended with another exit code than 0 or with an error, no check of the receipt
-- succeeds, whether or not the receipt of the end was saved, if none of a success was there before.
pub finish-verify_succeeded :
    (abs : String → Result String) (clean : String → String)
    (sha256 sha256_later : String → Result String) (now : ℕ) (io : Outcomes) (dir : DirCalls)
    (code : ℤ) (run_err : Option Error) (r : Recorder) (d : Disk Receipt)
    → is_zero code && is_nil run_err ≡ false
    → HasNoSuccess r.path d
    → (state_file command : String) (s : Receipt)
    → verify_succeeded abs clean sha256_later r.path state_file command
        (finish sha256 now io dir code run_err r d).1
      ≢ ok s
unfolding finish
finish-verify_succeeded abs clean sha256 sha256_later now io dir code run_err r d failed_run before
      state_file command s verified =
    let after =
      finished-HasNoSuccess io dir r d _
        (hashed-Refused (sha256 r.receipt.state_file) code run_err now r.receipt failed_run)
        before in
    let (found, checks) =
      verify_succeeded-IsChecked abs clean sha256_later r.path state_file command _ s verified in
    true≢false (sym checks.terminal ∙ after s found)

-- The receipt of a successful run.
abbrev pub success_of : ℕ → String → Receipt → Receipt
success_of now digest r = record r {
  finished_at = some now;
  exit_code = some (pos 0);
  status = succeeded;
  state_sha256 = digest;
}

check_success :
    (abs : String → Result String) (clean : String → String) (sha256 : String → Result String)
    (state_file digest : String) (now : ℕ) (r : Receipt)
    → abs state_file ≡ ok r.state_file
    → sha256 r.state_file ≡ ok digest
    → str_eq digest "" ≡ false
    → check abs clean sha256 state_file r.command (success_of now digest r)
      ≡ ok (success_of now digest r)
unfolding check is_terminal_success
check_success abs clean sha256 state_file digest now r a h n =
    rw (a, h, n, eq_refl r.command, eq_refl (clean r.state_file), eq_refl digest) refl

finished-success :
    (io : Outcomes) (dir : DirCalls) (digest : String) (now : ℕ) (r : Recorder) (d : Disk Receipt)
    → (finished io dir r d (hashed (ok digest) (ended (pos 0) none now r.receipt))).0 ≡ none
    → (finished io dir r d (hashed (ok digest) (ended (pos 0) none now r.receipt))).1 r.path
      ≡ some (whole (success_of now digest r.receipt))
unfolding finished hashed ended
finished-success io dir digest now r d h =
    save-succeeds (record r { receipt = success_of now digest r.receipt }) io dir d h

load_success :
    (path : String) (d : Disk Receipt) (r : Receipt)
    → d path ≡ some (whole r)
    → r.format_version ≡ format_version
    → load path d ≡ ok r
unfolding load decoded
load_success path d r h v = rw (h, v) refl

-- After a run that ended well and whose receipt, of the current format, was saved, the check of the
-- receipt returns it, for the same command and the same state file, unchanged since, whose digest is
-- not empty.
pub finish-success :
    (abs : String → Result String) (clean : String → String) (sha256 : String → Result String)
    (now : ℕ) (io : Outcomes) (dir : DirCalls) (r : Recorder) (d : Disk Receipt)
    (state_file digest : String)
    → r.receipt.format_version ≡ format_version
    → abs state_file ≡ ok r.receipt.state_file
    → sha256 r.receipt.state_file ≡ ok digest
    → str_eq digest "" ≡ false
    → (finish sha256 now io dir (pos 0) none r d).0 ≡ none
    → verify_succeeded abs clean sha256 r.path state_file r.receipt.command
        (finish sha256 now io dir (pos 0) none r d).1
      ≡ ok (success_of now digest r.receipt)
unfolding finish verify_succeeded
finish-success abs clean sha256 now io dir r d state_file digest version resolved hashes nonempty
      saved =
    let P : Result String → Type 0 =
      λ sha. (finished io dir r d (hashed sha (ended (pos 0) none now r.receipt))).0 ≡ none in
    let found = finished-success io dir digest now r d (subst P hashes saved) in
    let d' = (finished io dir r d (hashed (ok digest) (ended (pos 0) none now r.receipt))).1 in
    let loaded = load_success r.path d' (success_of now digest r.receipt) found version in
    let passes =
      check_success abs clean sha256 state_file digest now r.receipt resolved hashes nonempty in
    let Q : Result String → Type 0 = λ sha.
      (load r.path (finished io dir r d (hashed sha (ended (pos 0) none now r.receipt))).1
        >>= check abs clean sha256 state_file r.receipt.command)
      ≡ ok (success_of now digest r.receipt) in
    subst Q (sym hashes)
      (ap (λ m. m >>= check abs clean sha256 state_file r.receipt.command) loaded ∙ passes)
