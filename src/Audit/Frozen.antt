-- ===== src/Audit/Frozen.antt =====
-- The frozen files against their remote metadata: the last range over the state's records in
-- RunWithClient of internal/audit/audit.go.
use panpack.Base.{
  ℕ, ◌+◌, Bool, true, false, not, ◌&&◌, ◌||◌, ◌≡◌, refl, subst, sym, ◌∙◌, arith, if_intro, inl, inr,
  Bool-cases, Option, none, some, ◌==◌, if◌then◌else◌, List, [], ◌∷◌, ◌++◌, is_empty, All,
}
use panpack.Baidu.Checksum.{equal_fold}
use panpack.Baidu.Listing.{RemoteInfo}
use panpack.Batch.{FileRecord}
use panpack.Audit.{Report}
use panpack.Audit.Remote.{Remote, find}

abbrev pub Metadata : Type 0
Metadata = ℕ → Option RemoteInfo

-- The ids whose metadata is asked for.
unfoldable pub metadata_ids : Remote → List FileRecord → List ℕ
metadata_ids remote [] = []
metadata_ids remote (r ∷ rs) =
    let rest = metadata_ids remote rs in
    elim (find r.name remote) [
      | none ↦ rest
      | some e ↦ if e.is_dir || is_empty r.md5 then rest else e.fs_id ∷ rest
    ]

check_metadata : FileRecord → Option RemoteInfo → Report → Report
check_metadata r (some info) w = w
check_metadata r none w =
    if is_empty r.md5
    then w
    else record w { frozen_metadata_missing = w.frozen_metadata_missing ++ (r.name ∷ []) }

-- The size that counts: that of the metadata for a record with a checksum, if there is any.
actual_size : FileRecord → RemoteInfo → Option RemoteInfo → ℕ
actual_size r e none = e.size
actual_size r e (some info) = if is_empty r.md5 then e.size else info.size

check_size : ℕ → FileRecord → Report → Report
check_size actual r w =
    if actual == r.size
    then record w { frozen_size_matched = w.frozen_size_matched + 1 }
    else record w {
      frozen_size_mismatches =
          w.frozen_size_mismatches
          ++ (record { name = r.name; expected = r.size; actual = actual } ∷ []);
    }

-- The remote checksum is that of the record, as it is or as the remote side reports it.
pub is_same_checksum : FileRecord → RemoteInfo → Bool
is_same_checksum r info =
    equal_fold info.md5 r.md5 || (not (is_empty r.remote_md5) && equal_fold info.md5 r.remote_md5)

abbrev lacking : FileRecord → Report → Report
lacking r w = record w {
  frozen_checksum_unavailable = w.frozen_checksum_unavailable ++ (r.name ∷ []);
}

check_checksum : FileRecord → Option RemoteInfo → Report → Report
unfolding is_same_checksum
check_checksum r none w = if is_empty r.md5 then w else lacking r w
check_checksum r (some info) w =
    if is_empty r.md5
    then w
    else if is_empty info.md5
    then lacking r w
    else if is_same_checksum r info
    then record w { frozen_checksum_matched = w.frozen_checksum_matched + 1 }
    else if is_empty r.remote_md5
    then lacking r w
    else record w { frozen_checksum_mismatches = w.frozen_checksum_mismatches ++ (r.name ∷ []) }

abbrev check_entry : FileRecord → RemoteInfo → Option RemoteInfo → Report → Report
check_entry r e info w =
    check_checksum r info (check_size (actual_size r e info) r (check_metadata r info w))

check_frozen : Metadata → Remote → FileRecord → Report → Report
unfolding find check_metadata actual_size check_size check_checksum
check_frozen metadata remote r w = elim (find r.name remote) [
  | none ↦ w
  | some e ↦ if e.is_dir then w else check_entry r e (metadata e.fs_id) w
]

unfoldable pub check_all : Metadata → Remote → List FileRecord → Report → Report
unfolding check_frozen
check_all metadata remote [] w = w
check_all metadata remote (r ∷ rs) w =
    check_all metadata remote rs (check_frozen metadata remote r w)

-- Nothing was found against the frozen files; strictly, also no checksum is lacking.
unfoldable pub is_frozen_clear : Bool → Report → Bool
is_frozen_clear strict w =
    is_empty w.frozen_size_mismatches
    && (is_empty w.frozen_metadata_missing
        && (is_empty w.frozen_checksum_mismatches
            && (not strict || is_empty w.frozen_checksum_unavailable)))

snoc-nonempty {ℓ} : {A : Type ℓ} (xs : List A) (x : A) → is_empty (xs ++ (x ∷ [])) ≡ false
snoc-nonempty [] x = refl
snoc-nonempty (y ∷ xs) x = refl

module _ (strict : Bool) (r : FileRecord) where
  check_metadata-clear :
      (info : Option RemoteInfo) (w : Report)
      → is_frozen_clear strict (check_metadata r info w) ≡ true
      → (is_frozen_clear strict w ≡ true)
        × (is_empty r.md5 ≡ false → (i : RemoteInfo) × (info ≡ some i))
  unfolding check_metadata is_frozen_clear
  check_metadata-clear (some i) w h = (h, λ _. (i, refl))
  check_metadata-clear none w h = elim (Bool-cases (is_empty r.md5)) [
    | inl bare ↦ (ground arith, λ summed. cc)
    | inr summed ↦
        (let wrong : false ≡ true =
            ground (arith, snoc-nonempty w.frozen_metadata_missing r.name) in
          cc wrong)
  ]

  check_size-clear :
      (actual : ℕ) (w : Report)
      → is_frozen_clear strict (check_size actual r w) ≡ true
      → (is_frozen_clear strict w ≡ true) × (actual ≡ r.size)
  unfolding check_size is_frozen_clear
  check_size-clear actual w h = ground (
    arith,
    snoc-nonempty w.frozen_size_mismatches
        (record { name = r.name; expected = r.size; actual = actual }),
  )

  -- What no complaint about the checksum says.
  abbrev pub IsSummed : RemoteInfo → Type 0
  IsSummed i = strict ≡ true → is_same_checksum r i ≡ true

  abbrev pub SummedIf : Option RemoteInfo → Type 0
  SummedIf none = Unit
  SummedIf (some i) = is_empty r.md5 ≡ false → IsSummed i

  check_checksum-clear :
      (info : Option RemoteInfo) (w : Report)
      → is_frozen_clear strict (check_checksum r info w) ≡ true
      → (is_frozen_clear strict w ≡ true) × SummedIf info
  unfolding check_checksum is_frozen_clear
  check_checksum-clear none w h =
      (ground (arith, snoc-nonempty w.frozen_checksum_unavailable r.name), tt)
  check_checksum-clear (some info) w h =
      let a = snoc-nonempty w.frozen_checksum_unavailable r.name in
      let b = snoc-nonempty w.frozen_checksum_mismatches r.name in
      (ground (arith, a, b), λ summed is_strict. ground (arith, a, b))

  -- What is established of a record whose entry is `e`: there is metadata of the entry, its size is the
  -- record's, and strictly its checksum is the record's.
  pub record IsBacked (metadata : Metadata) (e : RemoteInfo) : Type 0 where
    pub info : RemoteInfo
    pub known : metadata e.fs_id ≡ some info
    pub size : info.size ≡ r.size
    pub summed : IsSummed info

  actual_size-IsBacked :
      (metadata : Metadata) (e : RemoteInfo) (i : RemoteInfo)
      → metadata e.fs_id ≡ some i
      → is_empty r.md5 ≡ false
      → actual_size r e (metadata e.fs_id) ≡ r.size
      → SummedIf (metadata e.fs_id)
      → IsBacked metadata e
  unfolding actual_size
  actual_size-IsBacked metadata e i known full size summed =
      let size' = subst (λ o. actual_size r e o ≡ r.size) known size in
      let summed' = subst SummedIf known summed in
      record { info = i; known = known; size = ground arith; summed = summed' full }

  check_entry-clear :
      (metadata : Metadata) (e : RemoteInfo) (w : Report)
      → is_frozen_clear strict (check_entry r e (metadata e.fs_id) w) ≡ true
      → (is_frozen_clear strict w ≡ true) × (is_empty r.md5 ≡ false → IsBacked metadata e)
  check_entry-clear metadata e w h =
      let info = metadata e.fs_id in
      let v = check_metadata r info w in
      let (h1, summed) = check_checksum-clear info (check_size (actual_size r e info) r v) h in
      let (h2, size) = check_size-clear (actual_size r e info) v h1 in
      let (h3, known) = check_metadata-clear info w h2 in
      (h3, λ full. actual_size-IsBacked metadata e (known full).0 (known full).1 full size summed)

  -- The same of a record, where its entry is a file.
  abbrev pub Backed : Metadata → Remote → Type 0
  Backed metadata remote =
      (e : RemoteInfo)
      → find r.name remote ≡ some e
      → e.is_dir ≡ false
      → is_empty r.md5 ≡ false
      → IsBacked metadata e

  of_some : (P : RemoteInfo → Type 0) (e f : RemoteInfo) → P e → some e ≡ some f → P f
  of_some P e f h same = subst (λ o. elim o [ none ↦ Unit | some x ↦ P x ]) same h

  check_frozen-clear :
      (metadata : Metadata) (remote : Remote) (w : Report)
      → is_frozen_clear strict (check_frozen metadata remote r w) ≡ true
      → (is_frozen_clear strict w ≡ true) × Backed metadata remote
  unfolding check_frozen
  check_frozen-clear metadata remote w = by_entry (find r.name remote) refl
    where
      Holds : RemoteInfo → Type 0
      Holds e = e.is_dir ≡ false → is_empty r.md5 ≡ false → IsBacked metadata e

      by_entry :
          (found : Option RemoteInfo)
          → find r.name remote ≡ found
          → is_frozen_clear strict (elim found [
            | none ↦ w
            | some e ↦ if e.is_dir then w else check_entry r e (metadata e.fs_id) w
          ])
            ≡ true
          → (is_frozen_clear strict w ≡ true) × Backed metadata remote
      by_entry none same h = (h, λ f found. cc)
      by_entry (some e) same h =
          if_intro
            (λ v.
              is_frozen_clear strict v ≡ true
              → (is_frozen_clear strict w ≡ true) × Backed metadata remote)
            e.is_dir (λ dir g. (g, λ f found. of_some Holds e f (λ file. cc) (sym same ∙ found)))
            (λ file g.
              let (h1, backed) = check_entry-clear metadata e w g in
              (h1, λ f found. of_some Holds e f (λ _. backed) (sym same ∙ found)))
            h

module _ (strict : Bool) (metadata : Metadata) (remote : Remote) where
  pub check_all-clear :
      (rs : List FileRecord) (w : Report)
      → is_frozen_clear strict (check_all metadata remote rs w) ≡ true
      → (is_frozen_clear strict w ≡ true) × All (λ r. Backed strict r metadata remote) rs
  unfolding check_all
  check_all-clear [] w h = (h, tt)
  check_all-clear (r ∷ rs) w h =
      let (h1, rest) = check_all-clear rs (check_frozen metadata remote r w) h in
      let (h2, one) = check_frozen-clear strict r metadata remote w h1 in (h2, (one, rest))

-- The range enters no issue.
check_checksum-issues :
    (r : FileRecord) (info : Option RemoteInfo) (w : Report)
    → (check_checksum r info w).issues ≡ w.issues
unfolding check_checksum
check_checksum-issues r none w = ground arith
check_checksum-issues r (some info) w = ground arith

check_metadata-issues :
    (r : FileRecord) (info : Option RemoteInfo) (w : Report)
    → (check_metadata r info w).issues ≡ w.issues
unfolding check_metadata
check_metadata-issues r none w = ground arith
check_metadata-issues r (some info) w = refl

check_size-issues :
    (actual : ℕ) (r : FileRecord) (w : Report) → (check_size actual r w).issues ≡ w.issues
unfolding check_size
check_size-issues actual r w = ground arith

check_entry-issues :
    (r : FileRecord) (e : RemoteInfo) (info : Option RemoteInfo) (w : Report)
    → (check_entry r e info w).issues ≡ w.issues
check_entry-issues r e info w =
    check_checksum-issues r info _
    ∙ (check_size-issues (actual_size r e info) r _ ∙ check_metadata-issues r info w)

found-issues :
    (metadata : Metadata) (r : FileRecord) (found : Option RemoteInfo) (w : Report)
    → (elim found as (λ o. Report) [
      | none ↦ w
      | some e ↦ if e.is_dir then w else check_entry r e (metadata e.fs_id) w
    ]).issues
      ≡ w.issues
found-issues metadata r none w = refl
found-issues metadata r (some e) w =
    if_intro {A = Report} (λ v. v.issues ≡ w.issues) e.is_dir (λ dir. refl)
      (λ file. check_entry-issues r e (metadata e.fs_id) w)

pub check_all-issues :
    (metadata : Metadata) (remote : Remote) (rs : List FileRecord) (w : Report)
    → (check_all metadata remote rs w).issues ≡ w.issues
unfolding check_all check_frozen
check_all-issues metadata remote [] w = refl
check_all-issues metadata remote (r ∷ rs) w =
    check_all-issues metadata remote rs (check_frozen metadata remote r w)
    ∙ found-issues metadata r (find r.name remote) w
