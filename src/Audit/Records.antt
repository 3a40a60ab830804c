-- ===== src/Audit/Records.antt =====
-- The range over the records of the state in RunWithClient of internal/audit/audit.go.
use panpack.Base.{
  ℕ, ◌+◌, ◌≤◌, String, str_eq, Bool, true, false, not, ◌||◌, ◌≡◌, refl, sym, subst, ◌∙◌, append-nil,
  append_assoc, ap, map, arith, if_intro, ◌==◌, if◌then◌else◌, List, [], ◌∷◌, ◌++◌, is_empty,
  length, All,
}
use panpack.Batch.{FileRecord, State, member, bytes_of}
use panpack.Audit.{
  Report, empty_report, Issue, unsafe_name, duplicate_name, no_checksum, not_uploaded, wrong_total,
  incomplete, issue_if, record_name,
}

-- The report, the names so far and the bytes so far.
pub record Scan : Type 0 where
  pub report : Report
  pub names : List String
  pub bytes : ℕ

uploaded_record : FileRecord → Report → Report
unfolding issue_if
uploaded_record r w =
    let counted = record w {
      state_uploaded = w.state_uploaded + 1;
      verified_bytes = w.verified_bytes + r.size;
    } in
    if is_empty r.md5
    then issue_if true (no_checksum r.name) (record counted {
      frozen_checksum_unavailable = counted.frozen_checksum_unavailable ++ (r.name ∷ []);
    })
    else counted

scan_record : (String → String) → FileRecord → Scan → Scan
unfolding uploaded_record issue_if
scan_record base r s =
    if str_eq r.name "" || not (str_eq (base r.name) r.name)
    then record s { report = issue_if true (unsafe_name r.name) s.report }
    else if member r.name s.names
    then record s { report = issue_if true (duplicate_name r.name) s.report }
    else record {
      report = if r.uploaded then uploaded_record r s.report else s.report;
      names = s.names ++ (r.name ∷ []);
      bytes = s.bytes + r.size;
    }

scan_all : (String → String) → List FileRecord → Scan → Scan
unfolding scan_record
scan_all base [] s = s
scan_all base (r ∷ rs) s = scan_all base rs (scan_record base r s)

abbrev opened : String → State → Report
opened digest state = record empty_report {
  state_completed = state.completed;
  state_files = length state.files;
  state_sha256 = digest;
  total_bytes = state.total_bytes;
}

abbrev begun : String → State → Scan
begun digest state = record {
  report = issue_if (not state.completed) incomplete (opened digest state);
  names = [];
  bytes = 0;
}

abbrev counted : Report → Report
counted w =
    issue_if (not (w.state_uploaded == w.state_files)) (not_uploaded w.state_uploaded w.state_files)
      w

-- What the audit finds in the state alone.
unfoldable pub scan_state : (String → String) → String → State → Scan
unfolding scan_all
scan_state base digest state =
    let scanned = scan_all base state.files (begun digest state) in
    record scanned {
      report =
          issue_if (not (scanned.bytes == state.total_bytes))
            (wrong_total state.total_bytes scanned.bytes) (counted scanned.report);
    }

-- A report without an issue.
abbrev pub is_clear : Report → Bool
is_clear w = is_empty w.issues

is_empty-snoc : (xs : List Issue) (i : Issue) → is_empty (xs ++ (i ∷ [])) ≡ false
is_empty-snoc [] i = refl
is_empty-snoc (x ∷ xs) i = refl

-- An issue that is entered stays: a clear report was clear before, and had no reason for the issue.
pub issue_if-is_clear :
    (b : Bool) (i : Issue) (w : Report)
    → is_clear (issue_if b i w) ≡ true
    → (is_clear w ≡ true) × (b ≡ false)
unfolding issue_if
issue_if-is_clear true i w h = ground (arith, is_empty-snoc w.issues i)
issue_if-is_clear false i w h = (h, refl)

-- A record that the audit has nothing against, where the names before it are `known`.
pub record IsSound (base : String → String) (known : List String) (r : FileRecord) : Type 0 where
  pub named : str_eq r.name "" || not (str_eq (base r.name) r.name) ≡ false
  pub fresh : member r.name known ≡ false
  pub summed : r.uploaded ≡ true → is_empty r.md5 ≡ false

abbrev one_if : Bool → ℕ
one_if true = 1
one_if false = 0

-- What a clear scan of one record says.
record Scanned (base : String → String) (r : FileRecord) (s t : Scan) : Type 0 where
  clear : is_clear s.report ≡ true
  sound : IsSound base s.names r
  uploaded : t.report.state_uploaded ≡ s.report.state_uploaded + one_if r.uploaded
  names : t.names ≡ s.names ++ (r.name ∷ [])
  bytes : t.bytes ≡ s.bytes + r.size
  files : t.report.state_files ≡ s.report.state_files

uploaded_record-clear :
    (r : FileRecord) (w : Report)
    → is_clear (uploaded_record r w) ≡ true
    → (is_clear w ≡ true)
      × ((is_empty r.md5 ≡ false)
          × (((uploaded_record r w).state_uploaded ≡ w.state_uploaded + 1)
              × ((uploaded_record r w).state_files ≡ w.state_files)))
unfolding uploaded_record issue_if
uploaded_record-clear r w h = ground (arith, is_empty-snoc w.issues (no_checksum r.name))

issue_true-clear : (i : Issue) (w : Report) → is_clear (issue_if true i w) ≡ false
unfolding issue_if
issue_true-clear i w = is_empty-snoc w.issues i

-- What is entered for a record that is uploaded, and for one that is not.
abbrev tallied : FileRecord → Report → Report
tallied r w = if r.uploaded then uploaded_record r w else w

record Tallied (r : FileRecord) (w v : Report) : Type 0 where
  clear : is_clear w ≡ true
  summed : r.uploaded ≡ true → is_empty r.md5 ≡ false
  uploaded : v.state_uploaded ≡ w.state_uploaded + one_if r.uploaded
  files : v.state_files ≡ w.state_files

tallied-Tallied :
    (r : FileRecord) (w : Report) → is_clear (tallied r w) ≡ true → Tallied r w (tallied r w)
tallied-Tallied r w =
    let P : Report → Type 0 = λ v. is_clear v ≡ true → Tallied r w v in
    if_intro P r.uploaded
      (λ up h.
        let (clear, (summed, (uploaded, files))) = uploaded_record-clear r w h in
        record { clear = clear; summed = λ _. summed; uploaded = ground arith; files = files })
      (λ pending h. record { clear = h; summed = λ up. cc; uploaded = ground arith; files = refl })

scan_record-Scanned :
    (base : String → String) (r : FileRecord) (s : Scan)
    → is_clear (scan_record base r s).report ≡ true
    → Scanned base r s (scan_record base r s)
unfolding scan_record
scan_record-Scanned base r s =
    let P : Scan → Type 0 = λ t. is_clear t.report ≡ true → Scanned base r s t in
    if_intro P (str_eq r.name "" || not (str_eq (base r.name) r.name))
      (λ unsafe h. cc (issue_true-clear (unsafe_name r.name) s.report))
      λ safe.
        if_intro P (member r.name s.names)
          (λ twice h. cc (issue_true-clear (duplicate_name r.name) s.report))
          λ fresh h.
            let t = tallied-Tallied r s.report h in
            record {
              clear = t.clear;
              sound = record { named = safe; fresh = fresh; summed = t.summed };
              uploaded = t.uploaded;
              names = refl;
              bytes = refl;
              files = t.files;
            }

-- The records that the audit has nothing against, one after the other.
abbrev pub AllSound : (String → String) → List String → List FileRecord → Type 0
AllSound base known [] = Unit
AllSound base known (r ∷ rs) = IsSound base known r × AllSound base (known ++ (r.name ∷ [])) rs

count_uploaded : List FileRecord → ℕ
count_uploaded [] = 0
count_uploaded (r ∷ rs) = one_if r.uploaded + count_uploaded rs

-- What a clear scan of all records says.
record ScannedAll (base : String → String) (rs : List FileRecord) (s t : Scan) : Type 0 where
  clear : is_clear s.report ≡ true
  sound : AllSound base s.names rs
  uploaded : t.report.state_uploaded ≡ s.report.state_uploaded + count_uploaded rs
  names : t.names ≡ s.names ++ map record_name rs
  bytes : t.bytes ≡ s.bytes + bytes_of rs
  files : t.report.state_files ≡ s.report.state_files

scan_all-ScannedAll :
    (base : String → String) (rs : List FileRecord) (s : Scan)
    → is_clear (scan_all base rs s).report ≡ true
    → ScannedAll base rs s (scan_all base rs s)
unfolding scan_all bytes_of count_uploaded
scan_all-ScannedAll base [] s h = record {
  clear = h;
  sound = tt;
  uploaded = omega arith;
  names = sym (append-nil s.names);
  bytes = omega arith;
  files = refl;
}
scan_all-ScannedAll base (r ∷ rs) s h =
    let rest = scan_all-ScannedAll base rs (scan_record base r s) h in
    let one = scan_record-Scanned base r s rest.clear in
    record {
      clear = one.clear;
      sound = (one.sound, subst (λ known. AllSound base known rs) one.names rest.sound);
      uploaded = omega (arith, rest.uploaded, one.uploaded);
      names =
          rest.names
          ∙ (ap (λ ns. ns ++ map record_name rs) one.names
              ∙ append_assoc s.names (r.name ∷ []) (map record_name rs));
      bytes = omega (arith, rest.bytes, one.bytes);
      files = rest.files ∙ one.files;
    }

count_uploaded-le : (rs : List FileRecord) → count_uploaded rs ≤ length rs
unfolding count_uploaded
count_uploaded-le [] = omega arith
count_uploaded-le (r ∷ rs) = ground (arith, count_uploaded-le rs)

all_of_count :
    (rs : List FileRecord) → count_uploaded rs ≡ length rs → All (λ r. r.uploaded ≡ true) rs
unfolding count_uploaded
all_of_count [] h = tt
all_of_count (r ∷ rs) h =
    (ground (arith, count_uploaded-le rs), all_of_count rs (ground (arith, count_uploaded-le rs)))

-- What the audit has established of the state, where it enters no issue: the upload is complete,
-- every record is uploaded under a name of its own that is safe, with a checksum, and the sizes add
-- up to the total.
pub record IsSoundState (base : String → String) (state : State) : Type 0 where
  pub completed : state.completed ≡ true
  pub sound : AllSound base [] state.files
  pub uploaded : All (λ r. r.uploaded ≡ true) state.files
  pub total : bytes_of state.files ≡ state.total_bytes

issue_if-state_files :
    (b : Bool) (i : Issue) (w : Report) → (issue_if b i w).state_files ≡ w.state_files
unfolding issue_if
issue_if-state_files true i w = refl
issue_if-state_files false i w = refl

issue_if-state_uploaded :
    (b : Bool) (i : Issue) (w : Report) → (issue_if b i w).state_uploaded ≡ w.state_uploaded
unfolding issue_if
issue_if-state_uploaded true i w = refl
issue_if-state_uploaded false i w = refl

pub scan_state-IsSoundState :
    (base : String → String) (digest : String) (state : State)
    → is_clear (scan_state base digest state).report ≡ true
    → IsSoundState base state × ((scan_state base digest state).names ≡ map record_name state.files)
unfolding scan_state
scan_state-IsSoundState base digest state h =
    let first = begun digest state in
    let scanned = scan_all base state.files first in
    let (h1, total) =
      issue_if-is_clear (not (scanned.bytes == state.total_bytes))
        (wrong_total state.total_bytes scanned.bytes) (counted scanned.report) h in
    let (h2, tallies) =
      issue_if-is_clear (not (scanned.report.state_uploaded == scanned.report.state_files))
        (not_uploaded scanned.report.state_uploaded scanned.report.state_files) scanned.report h1 in
    let all = scan_all-ScannedAll base state.files first h2 in
    let (h3, completed) =
      issue_if-is_clear (not state.completed) incomplete (opened digest state) all.clear in
    let none_before =
      issue_if-state_uploaded (not state.completed) incomplete (opened digest state) in
    let same_files = issue_if-state_files (not state.completed) incomplete (opened digest state) in
    let count : count_uploaded state.files ≡ length state.files =
      ground (arith, all.uploaded, all.files) in
    (
      record {
        completed = ground arith;
        sound = all.sound;
        uploaded = all_of_count state.files count;
        total = ground (arith, all.bytes);
      },
      all.names,
    )
