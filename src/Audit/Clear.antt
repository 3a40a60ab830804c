-- ===== src/Audit/Clear.antt =====
-- What each comparison of RunWithClient of internal/audit/audit.go says where it enters no issue.
use panpack.Base.{
  String, str_eq, eq_iff, true, false, not, ◌&&◌, ◌≡◌, refl, subst, arith, if_intro, Option, none,
  some, Result, ok, err, if◌then◌else◌, List, [], ◌∷◌, is_empty, length, All,
}
use panpack.Baidu.Listing.{RemoteInfo}
use panpack.Batch.{State, member}
use panpack.Receipt.{Receipt}
use panpack.Audit.{
  Config, RemoteClient, System, Report, SizeMismatch, issue_if, is_control_file, names_outside,
  outside_expected, missing, unexpected, duplicates, directories, wrong_sizes, no_metadata,
  wrong_checksums, unavailable, local_files, bad_receipt, state_changed,
}
use panpack.Audit.Records.{is_clear, issue_if-is_clear}
use panpack.Audit.Remote.{Remote, names_of, find, missing_names, directory_names, names_outside-All}
use panpack.Audit.Frozen.{
  Metadata, check_all, is_frozen_clear, check_all-clear, check_all-issues, Backed,
}
use panpack.Audit.Run.{
  local_names, compare_names, compare_sets, compare_frozen, compare_local, enter_receipt,
  receipt_of, compare_receipt, compare_digests,
}

-- What the audit relies on of the sorts: that they leave nothing out and add nothing.
pub record IsSorting (sys : System) : Type 0 where
  pub names : (xs : List String) → is_empty (sys.os.sort xs) ≡ is_empty xs
  pub sizes : (xs : List SizeMismatch) → is_empty (sys.sort_sizes xs) ≡ is_empty xs

-- An expected name that the remote set has, as a file.
abbrev pub Present : Remote → String → Type 0
Present remote n = (e : RemoteInfo) × ((find n remote ≡ some e) × (e.is_dir ≡ false))

missing_names-Present :
    (remote : Remote) (ns : List String)
    → is_empty (missing_names remote ns) ≡ true
    → is_empty (directory_names remote ns) ≡ true
    → All (Present remote) ns
unfolding missing_names directory_names
missing_names-Present remote [] m d = tt
missing_names-Present remote (n ∷ ns) m d =
    by_entry (find n remote) refl (missing_names-Present remote ns) m d
  where
    Empty : List String → Type 0
    Empty xs = is_empty xs ≡ true

    by_entry :
        (found : Option RemoteInfo)
        → find n remote ≡ found
        → (is_empty (missing_names remote ns) ≡ true
            → is_empty (directory_names remote ns) ≡ true
            → All (Present remote) ns)
        → Empty
            (elim found [ none ↦ n ∷ missing_names remote ns | some e ↦ missing_names remote ns ])
        → Empty (elim found [
          | none ↦ directory_names remote ns
          | some e ↦ if e.is_dir then n ∷ directory_names remote ns else directory_names remote ns
        ])
        → All (Present remote) (n ∷ ns)
    by_entry none same rest m d = cc
    by_entry (some e) same rest m d =
        if_intro (λ ds. Empty ds → All (Present remote) (n ∷ ns)) e.is_dir (λ dir h. cc)
          (λ file h. ((e, (same, file)), rest m h)) d

module _ (cfg : Config) (sys : System) (client : RemoteClient) where
  -- What no complaint about the local files says.
  abbrev pub Swept : String → String → List String → Type 0
  Swept state_file receipt_file = All (λ m. is_control_file sys.os m state_file receipt_file ≡ true)

  -- What no complaint about the receipt says: where one is asked for, it is verified.
  abbrev pub Receipted : String → String → Type 0
  Receipted state_file receipt_file =
      str_eq receipt_file "" ≡ false
      → (r : Receipt) × (receipt_of cfg sys client state_file receipt_file ≡ ok r)

module _ (cfg : Config) (sys : System) (client : RemoteClient) (sorting : IsSorting sys) where
  empty_of_sort : (xs : List String) → not (is_empty (sys.os.sort xs)) ≡ false → is_empty xs ≡ true
  empty_of_sort xs h = ground (arith, sorting.names xs)

  empty_of_sizes :
      (xs : List SizeMismatch) → not (is_empty (sys.sort_sizes xs)) ≡ false → is_empty xs ≡ true
  empty_of_sizes xs h = ground (arith, sorting.sizes xs)

  pub compare_names-clear :
      (expected names : List String) (w : Report)
      → is_clear (compare_names cfg sys client expected names w) ≡ true
      → (is_clear w ≡ true) × All (λ n. member n expected ≡ true) names
  unfolding compare_names
  compare_names-clear expected names w h =
      let outside = sys.os.sort (names_outside names expected) in
      let v = record w { expected_entries = length expected; frozen_not_expected = outside } in
      let (h1, inside) =
        issue_if-is_clear (not (is_empty outside)) (outside_expected (length outside)) v h in
      (h1, names_outside-All names expected (empty_of_sort (names_outside names expected) inside))

  -- What no complaint about the two sets says.
  pub record Matched (expected : List String) (remote : Remote) (w : Report) : Type 0 where
    pub clear : is_clear w ≡ true
    pub single : is_empty w.duplicates ≡ true
    pub present : All (Present remote) expected
    pub only : All (λ n. member n expected ≡ true) (names_of remote)

  pub compare_sets-Matched :
      (expected : List String) (remote : Remote) (w : Report)
      → is_clear (compare_sets cfg sys client expected remote w) ≡ true
      → Matched expected remote w
  unfolding compare_sets
  compare_sets-Matched expected remote w h =
      let ms = sys.os.sort (missing_names remote expected) in
      let xs = sys.os.sort (names_outside (names_of remote) expected) in
      let ds = sys.os.sort w.duplicates in
      let ts = sys.os.sort (directory_names remote expected) in
      let v = record w {
        remote_unique = length remote;
        duplicates = ds;
        missing = ms;
        extra = xs;
        type_mismatches = ts;
      } in
      let v1 = issue_if (not (is_empty ms)) (missing (length ms)) v in
      let v2 = issue_if (not (is_empty xs)) (unexpected (length xs)) v1 in
      let v3 = issue_if (not (is_empty ds)) (duplicates (length ds)) v2 in
      let (h3, no_dirs) = issue_if-is_clear (not (is_empty ts)) (directories (length ts)) v3 h in
      let (h2, no_twice) = issue_if-is_clear (not (is_empty ds)) (duplicates (length ds)) v2 h3 in
      let (h1, no_extra) = issue_if-is_clear (not (is_empty xs)) (unexpected (length xs)) v1 h2 in
      let (h0, no_missing) = issue_if-is_clear (not (is_empty ms)) (missing (length ms)) v h1 in
      record {
        clear = h0;
        single = empty_of_sort w.duplicates no_twice;
        present =
            missing_names-Present remote expected (empty_of_sort _ no_missing)
              (empty_of_sort _ no_dirs);
        only = names_outside-All (names_of remote) expected (empty_of_sort _ no_extra);
      }

  pub compare_frozen-clear :
      (metadata : Metadata) (remote : Remote) (state : State) (w : Report)
      → is_clear (compare_frozen cfg sys client metadata remote state w) ≡ true
      → (is_clear w ≡ true) × All (λ r. Backed cfg.require_checksum r metadata remote) state.files
  unfolding compare_frozen is_frozen_clear
  compare_frozen-clear metadata remote state w h =
      let c = check_all metadata remote state.files w in
      let ss = sys.sort_sizes c.frozen_size_mismatches in
      let ms = sys.os.sort c.frozen_metadata_missing in
      let us = sys.os.sort c.frozen_checksum_unavailable in
      let ks = sys.os.sort c.frozen_checksum_mismatches in
      let v = record c {
        frozen_size_mismatches = ss;
        frozen_metadata_missing = ms;
        frozen_checksum_unavailable = us;
        frozen_checksum_mismatches = ks;
      } in
      let v1 = issue_if (not (is_empty ss)) (wrong_sizes (length ss)) v in
      let v2 = issue_if (not (is_empty ms)) (no_metadata (length ms)) v1 in
      let v3 = issue_if (not (is_empty ks)) (wrong_checksums (length ks)) v2 in
      let (h3, available) =
        issue_if-is_clear (cfg.require_checksum && not (is_empty us)) (unavailable (length us)) v3
          h in
      let (h2, same_sums) =
        issue_if-is_clear (not (is_empty ks)) (wrong_checksums (length ks)) v2 h3 in
      let (h1, known) = issue_if-is_clear (not (is_empty ms)) (no_metadata (length ms)) v1 h2 in
      let (h0, same_sizes) = issue_if-is_clear (not (is_empty ss)) (wrong_sizes (length ss)) v h1 in
      let clear : is_frozen_clear cfg.require_checksum c ≡ true = ground (
        arith,
        available,
        sorting.names c.frozen_checksum_unavailable,
        empty_of_sort _ same_sums,
        empty_of_sort _ known,
        empty_of_sizes _ same_sizes,
      ) in
      (
        subst (λ i. is_empty i ≡ true) (check_all-issues metadata remote state.files w) h0,
        (check_all-clear cfg.require_checksum metadata remote state.files w clear).1,
      )

  local_names-All :
      (state_file receipt_file : String) (ms : List String)
      → is_empty (local_names sys.os state_file receipt_file ms) ≡ true
      → Swept cfg sys client state_file receipt_file ms
  unfolding local_names
  local_names-All state_file receipt_file [] h = tt
  local_names-All state_file receipt_file (m ∷ ms) h =
      if_intro {A = List String}
        (λ xs. is_empty xs ≡ true → Swept cfg sys client state_file receipt_file (m ∷ ms))
        (is_control_file sys.os m state_file receipt_file)
        (λ own g. (own, local_names-All state_file receipt_file ms g)) (λ foreign g. cc) h

  pub compare_local-clear :
      (state_file receipt_file : String) (ms : List String) (w : Report)
      → is_clear (compare_local cfg sys client (local_names sys.os state_file receipt_file ms) w)
        ≡ true
      → (is_clear w ≡ true)
        × (cfg.require_local_empty ≡ true → Swept cfg sys client state_file receipt_file ms)
  unfolding compare_local
  compare_local-clear state_file receipt_file ms w h =
      let locals = local_names sys.os state_file receipt_file ms in
      let sorted = sys.os.sort locals in
      let (h0, none_left) =
        issue_if-is_clear (cfg.require_local_empty && not (is_empty sorted))
          (local_files (length sorted)) (record w { local_matching = sorted }) h in
      (
        h0,
        λ required.
            local_names-All state_file receipt_file ms (empty_of_sort locals (ground arith)),
      )

  enter_receipt-clear :
      (found : Result Receipt) (w : Report)
      → is_clear (enter_receipt cfg sys client found w) ≡ true
      → (is_clear w ≡ true) × ((r : Receipt) × (found ≡ ok r))
  unfolding enter_receipt
  enter_receipt-clear (ok r) w h = (h, (r, refl))
  enter_receipt-clear (err e) w h =
      cc
        (issue_if-is_clear true bad_receipt
          (record w { receipt_checked = true; receipt_error = some e }) h).1

  pub compare_receipt-clear :
      (state_file receipt_file : String) (w : Report)
      → is_clear (compare_receipt cfg sys client state_file receipt_file w) ≡ true
      → (is_clear w ≡ true) × Receipted cfg sys client state_file receipt_file
  unfolding compare_receipt
  compare_receipt-clear state_file receipt_file w h =
      if_intro
        (λ v.
          is_clear v ≡ true
          → (is_clear w ≡ true) × Receipted cfg sys client state_file receipt_file)
        (str_eq receipt_file "") (λ unasked g. (g, λ asked. cc))
        (λ asked g.
          let (h0, found) =
            enter_receipt-clear (receipt_of cfg sys client state_file receipt_file) w g in
          (h0, λ _. found))
        h

  pub compare_digests-clear :
      (before after : String) (w : Report)
      → is_clear (compare_digests cfg sys client before after w) ≡ true
      → (is_clear w ≡ true) × (before ≡ after)
  unfolding compare_digests
  compare_digests-clear before after w h =
      let (h0, same) = issue_if-is_clear (not (str_eq before after)) state_changed w h in
      (h0, (eq_iff before after).0 (ground arith))
