-- ===== src/Batch/Validated.antt =====
-- The states that pass validateStateFiles of internal/batchupload/batch.go.
use panpack.Base.{
  is_empty, ◌+◌, String, str_eq, eq_iff, Bool, true, false, not, ◌&&◌, ◌||◌, ◌≡◌, ◌≢◌, ◌⊎◌, inl,
  inr, sym, subst, ap, ◌∙◌, refl, arith, Result, ok, err, IfOk, then-IfOk, guard-IfOk, fail_if-IfOk,
  map-IfOk, ok-IfOk, ◌==◌, Bool-cases, List, [], ◌∷◌, All, then-IfOk, if◌then◌else◌, fail_if,
  message,
}
use mathlib.Core.Bool.{true≢false}
use panpack.Batch.{
  Config, FileRecord, State, Stat, Os, Seen, check_stat, check_pending, check_record, check_records,
  check_matches, nothing_seen, validate_state_files, bytes_of, member, is_control_file,
}

-- The names of the records, before those given.
pub names_after : List FileRecord → List String → List String
names_after [] known = known
names_after (r ∷ rs) known = names_after rs (r.name ∷ known)

-- No name is one of those before it, nor of those given.
pub data Distinct : List String → List FileRecord → Type 0 where
  none_left : {known : List String} → Distinct known []
  and_then :
      {known : List String} {r : FileRecord} {rs : List FileRecord}
      → member r.name known ≡ false
      → Distinct (r.name ∷ known) rs
      → Distinct known (r ∷ rs)

module _ (os : Os) (cfg : Config) where
  -- The file of a pending record is there, regular and of the recorded size.
  pub record IsPending (r : FileRecord) : Type 0 where
    pub stat : Stat
    pub present : os.lstat (os.join cfg.source_dir r.name) ≡ ok stat
    pub regular : stat.is_regular ≡ true
    pub same_size : stat.size ≡ r.size

  -- A record has a safe name, and is verified or pending.
  pub record IsFine (r : FileRecord) : Type 0 where
    pub basename : os.base r.name ≡ r.name
    pub verified : r.uploaded ≡ true → r.md5 ≢ []
    pub pending : r.uploaded ≡ false → IsPending r

  stat-IfOk :
      (r : FileRecord) (found : Result Stat)
      → os.lstat (os.join cfg.source_dir r.name) ≡ found
      → IfOk (λ u. IsPending r) (check_stat r found)
  unfolding check_stat
  stat-IfOk r (err e) h = tt
  stat-IfOk r (ok info) h =
      fail_if-IfOk (λ u. IsPending r) (not info.is_regular || not (info.size == r.size)) _
        λ no. record { stat = info; present = h; regular = ground arith; same_size = ground arith }

  -- One record: what it is, and what has been seen after it.
  record AfterRecord (r : FileRecord) (s s' : Seen) : Type 0 where
    fine : IsFine r
    new_name : member r.name s.known ≡ false
    names : s'.known ≡ r.name ∷ s.known
    sizes : s'.total ≡ s.total + r.size
    uploads : s'.all_uploaded ≡ r.uploaded && s.all_uploaded

  Settled : FileRecord → Unit {0} → Type 0
  Settled r u = (r.uploaded ≡ true → r.md5 ≢ []) × (r.uploaded ≡ false → IsPending r)

  verified-IfOk :
      (r : FileRecord) (b : Bool)
      → r.uploaded ≡ b
      → IfOk (Settled r) (
          if b
          then fail_if (is_empty r.md5) (message "uploaded state file has no verified md5")
          else check_pending os cfg r)
  unfolding check_pending Settled
  verified-IfOk r true h = fail_if-IfOk (Settled r) (is_empty r.md5) _ λ filled. (
    (λ _ empty. true≢false (sym (ap is_empty empty) ∙ filled)),
    λ no. absurd (true≢false (sym h ∙ no)),
  )
  verified-IfOk r false h =
      map-IfOk (λ u. IsPending r) (Settled r) (check_pending os cfg r)
        (λ u pending. ((λ yes. absurd (true≢false (sym yes ∙ h))), λ _. pending))
        (stat-IfOk r (os.lstat (os.join cfg.source_dir r.name)) refl)

  record-IfOk : (r : FileRecord) (s : Seen) → IfOk (AfterRecord r s) (check_record os cfg r s)
  unfolding check_record Settled
  record-IfOk r s =
      let P = AfterRecord r s in
      guard-IfOk P (str_eq r.name "" || not (str_eq (os.base r.name) r.name)) _ _ λ safe.
        guard-IfOk P (member r.name s.known) _ _ λ new_name. then-IfOk P _ _ λ u passed.
          let (verified, pending) = ok-IfOk (Settled r) passed (verified-IfOk r r.uploaded refl) in
          let same_name : str_eq (os.base r.name) r.name ≡ true = ground arith in
          record {
            fine = record {
              basename = (eq_iff _ _).0 same_name;
              verified = verified;
              pending = pending;
            };
            new_name = new_name;
            names = refl;
            sizes = refl;
            uploads = refl;
          }

  -- What has been seen after some records.
  record AfterRecords (rs : List FileRecord) (s s' : Seen) : Type 0 where
    fine : All IsFine rs
    names : s'.known ≡ names_after rs s.known
    distinct : Distinct s.known rs
    sizes : s'.total ≡ s.total + bytes_of rs
    uploads : s'.all_uploaded ≡ true → All (λ r. r.uploaded ≡ true) rs
    earlier : s'.all_uploaded ≡ true → s.all_uploaded ≡ true

  join :
      {r : FileRecord} {rs : List FileRecord} {s s1 s2 : Seen}
      → AfterRecord r s s1
      → AfterRecords rs s1 s2
      → AfterRecords (r ∷ rs) s s2
  unfolding bytes_of names_after
  join {r} {rs} {s} {s1} {s2} first later = record {
    fine = (first.fine, later.fine);
    names = later.names ∙ ap (names_after rs) first.names;
    distinct =
        and_then first.new_name (subst (λ known. Distinct known rs) first.names later.distinct);
    sizes = omega (arith, first.sizes, later.sizes);
    uploads = λ h.
        let both : r.uploaded && s.all_uploaded ≡ true = sym first.uploads ∙ later.earlier h in
        (ground (arith, both), later.uploads h);
    earlier = λ h.
        let both : r.uploaded && s.all_uploaded ≡ true = sym first.uploads ∙ later.earlier h in
        ground (arith, both);
  }

  records-IfOk :
      (rs : List FileRecord) (s : Seen) → IfOk (AfterRecords rs s) (check_records os cfg rs s)
  unfolding check_records bytes_of names_after
  records-IfOk [] s = record {
    fine = tt;
    names = refl;
    distinct = none_left;
    sizes = omega arith;
    uploads = λ _. tt;
    earlier = λ h. h;
  }
  records-IfOk (r ∷ rs) s =
      then-IfOk (AfterRecords (r ∷ rs) s) (check_record os cfg r s) _ λ s1 checked.
        let first = ok-IfOk (AfterRecord r s) checked (record-IfOk r s) in
        map-IfOk (AfterRecords rs s1) (AfterRecords (r ∷ rs) s) (check_records os cfg rs s1)
          (λ s2 later. join first later) (records-IfOk rs s1)

  -- What an accepted state agrees with.
  pub record IsValid (s : State) : Type 0 where
    pub fine : All IsFine s.files
    pub distinct : Distinct [] s.files
    pub total : s.total_bytes ≡ bytes_of s.files
    pub complete : s.completed ≡ true → All (λ r. r.uploaded ≡ true) s.files
    pub matches : List String
    pub globbed : os.glob (os.join cfg.source_dir cfg.pattern) ≡ ok matches
    pub recorded :
        All
          (λ m.
            (is_control_file os cfg m ≡ true)
            ⊎ (member (os.base m) (names_after s.files []) ≡ true))
          matches

  Known : List String → String → Type 0
  Known known m = (is_control_file os cfg m ≡ true) ⊎ (member (os.base m) known ≡ true)

  recorded_or_own :
      (known : List String) (m : String)
      → not (is_control_file os cfg m) && not (member (os.base m) known) ≡ false
      → Known known m
  unfolding Known
  recorded_or_own known m h = elim (Bool-cases (is_control_file os cfg m)) [
    | inl own ↦ inl own
    | inr other ↦ inr (ground (arith, other))
  ]

  matches-IfOk :
      (known ms : List String) → IfOk (λ u. All (Known known) ms) (check_matches os cfg known ms)
  unfolding check_matches
  matches-IfOk known [] = tt
  matches-IfOk known (m ∷ ms) =
      guard-IfOk (λ u. All (Known known) (m ∷ ms))
        (not (is_control_file os cfg m) && not (member (os.base m) known)) _ _
        λ seen.
          map-IfOk (λ u. All (Known known) ms) (λ u. All (Known known) (m ∷ ms))
            (check_matches os cfg known ms) (λ u rest. (recorded_or_own known m seen, rest))
            (matches-IfOk known ms)

  validated-IfOk : (s : State) → IfOk (λ u. IsValid s) (validate_state_files os cfg s)
  unfolding validate_state_files Known
  validated-IfOk s =
      let P : Unit {0} → Type 0 = λ u. IsValid s in
      then-IfOk P (check_records os cfg s.files nothing_seen) _ λ seen checked.
        let all =
          ok-IfOk (AfterRecords s.files nothing_seen) checked (records-IfOk s.files nothing_seen) in
        guard-IfOk P (not (seen.total == s.total_bytes)) _ _ λ total.
          guard-IfOk P (s.completed && not seen.all_uploaded) _ _ λ complete.
            then-IfOk P (os.glob (os.join cfg.source_dir cfg.pattern)) _ λ matches globbed.
              map-IfOk (λ u. All (Known seen.known) matches) P
                (check_matches os cfg seen.known matches)
                (λ u recorded. record {
                  fine = all.fine;
                  distinct = all.distinct;
                  total = ground (arith, all.sizes);
                  complete = λ yes. all.uploads (ground (arith, yes));
                  matches = matches;
                  globbed = globbed;
                  recorded = subst (λ known. All (Known known) matches) all.names recorded;
                })
                (matches-IfOk seen.known matches)

  -- A state that `validateStateFiles` accepts: its names are basenames and distinct, its total is the
  -- sum of the sizes, uploaded files have a checksum and pending ones are there as recorded, it is only
  -- complete where all are uploaded, and each file that matches is recorded or one of the run's own.
  pub validate_state_files-IsValid : (s : State) → validate_state_files os cfg s ≡ ok tt → IsValid s
  validate_state_files-IsValid s passed = ok-IfOk (λ u. IsValid s) passed (validated-IfOk s)
