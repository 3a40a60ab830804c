-- ===== src/Baidu/Upload/Checked.antt =====
-- What an upload that returns no error has established: upload and uploadBlock of
-- internal/baidu/uploader.go.
use panpack.Base.{
  ℕ, ◌≡◌, ◌⊎◌, inl, inr, refl, subst, ap, ◌∙◌, String, Bool, true, false, not, Option, none, some,
  Error, Result, ok, err, ◌==◌, ==_iff, Bool-cases, Option-cases, List, [], ◌∷◌, Bytes, is_empty,
  length, Mem, take, drop,
}
use panpack.Base.Programs.{
  Program, give, Leaves, gives, raises, then-Leaves, lift-then, unless-then, lift-Leaves,
  map-Leaves, wrapping-Leaves, returned-Leaves, Leaves-ok, lift, wrapping, continue,
}
use panpack.Baidu.Checksum.{Codec}
use panpack.Baidu.Concurrency.{Client, feedback}
use panpack.Baidu.Retry.{retry, retry-ok}
use panpack.Baidu.Verify.{RemotePaths, validate_remote_path, verify}
use panpack.Baidu.Pool.{start, Steps, Pool, IsOver, outcome}
use panpack.Baidu.Pool.Safe.{uploaded-all}
use panpack.Baidu.Upload.{
  Api, Precreated, Created, UploadState, block_indexes, request, feed_error, feed_always, timed,
  upload_blocks, verified, check_created, upload_rapid, upload_rest, upload_precreated, upload,
  upload_block,
}

not-false : (b : Bool) → not b ≡ false → b ≡ true
not-false true h = refl
not-false false h = cc

is_empty-Mem : (xs : List ℕ) → is_empty xs ≡ true → (i : ℕ) → Mem i xs → ⊥
is_empty-Mem [] e i m = elim m [ ]
is_empty-Mem (x ∷ xs) e i m = cc

-- What a call gave back that ends with an error or with none.
abbrev pub result_of : Option Error → Result (Unit {0})
result_of none = ok tt
result_of (some e) = err e

module _ {W : Type 0} (paths : RemotePaths) (codec : Codec) (api : Api W) (fuel : ℕ) where
  abbrev Anywhere : UploadState W → Type 0
  Anywhere s = Unit

  abbrev HasClient : Client → UploadState W → Type 0
  HasClient c s = s.client ≡ c

  -- What a call of `fn` returned.
  abbrev pub Answered : {A : Type 0} → (W → Result A × W) → A → Type 0
  Answered fn a = (w : W) × ((w1 : W) × (fn w ≡ (ok a, w1)))

  request-Leaves :
      {A : Type 0} (fn : W → Result A × W) (c : Client) (s : UploadState W)
      → s.client ≡ c
      → Leaves (λ a s1. HasClient c s1 × Answered fn a) Anywhere (request paths codec api fuel fn s)
  unfolding request lift
  request-Leaves fn c s same =
      lift-Leaves (λ a s1. HasClient c s1 × Answered fn a) Anywhere
        (retry api.is_limit api.sleep s.client.max_retries api.ctx_err fn s.remote).outcome _
        (λ a e.
          let (w, called) =
            retry-ok api.is_limit api.sleep api.ctx_err fn s.client.max_retries s.remote a e in
          (same, (w, (_, called))))
        tt

  feed_error-Leaves :
      {A : Type 0} (P : A → UploadState W → Type 0) (r : Result A × UploadState W)
      → Leaves P Anywhere r
      → Leaves P Anywhere (feed_error paths codec api fuel r)
  unfolding Leaves feed_error
  feed_error-Leaves P (ok a, s) h = h
  feed_error-Leaves P (err e, s) h = tt

  timed_pair :
      (P : UploadState W → Type 0) {A : Type 0} (r : Result A × UploadState W)
      → ((t : UploadState W) (n : ℕ)
          → P t
          → P (record t { stats = record t.stats { duration = n } }))
      → Leaves (λ a s1. P s1) Anywhere r
      → Leaves
          (λ a s1. P s1)
          Anywhere
          (r.0, record r.1 { stats = record r.1.stats { duration = api.since r.1.remote } })
  unfolding Leaves
  timed_pair P (ok a, s) later h = later s _ h
  timed_pair P (err e, s) later h = tt

  timed-Leaves :
      (P : UploadState W → Type 0) {A : Type 0} (m : Program (UploadState W) A) (s : UploadState W)
      → ((t : UploadState W) (n : ℕ)
          → P t
          → P (record t { stats = record t.stats { duration = n } }))
      → Leaves (λ a s1. P s1) Anywhere (m s)
      → Leaves (λ a s1. P s1) Anywhere (timed paths codec api fuel m s)
  unfolding timed
  timed-Leaves P m s later h = timed_pair P (m s) later h

  -- uploadBlock has ended so for the block of this index, with its hash among those of all blocks.
  abbrev pub UploadsBlock : String → String → ℕ → List Bytes → ℕ → Option Error → Type 0
  UploadsBlock remote_path id size blocks i e =
      (expected : Bytes) × ((s : UploadState W) × ((take 1 (drop i blocks) ≡ expected ∷ [])
          × ((upload_block paths codec api fuel remote_path id size i expected s).0 ≡ result_of e)))

  module _ (remote_path : String) (size : ℕ) (md5 : Bytes) (blocks : List Bytes)
      -- workers that return no error took steps of the pool until all had returned
      (runs : (id : String) (concurrency : ℕ) (missing : List ℕ) (w : W)
        → (api.run_workers remote_path id size blocks concurrency missing w).0.1.1 ≡ none
        → (k : ℕ) × ((s : Pool) × (Steps
                (UploadsBlock remote_path id size blocks)
                (start concurrency missing)
                k
                s
              × (IsOver s × (outcome s ≡ none))))) where
    abbrev Uploads : String → ℕ → Option Error → Type 0
    Uploads id = UploadsBlock remote_path id size blocks

    -- The missing blocks are uploaded.
    AreUploaded : String → List ℕ → Type 0
    AreUploaded id missing = (i : ℕ) → Mem i missing → Uploads id i none

    all-AreUploaded :
        (id : String) (concurrency : ℕ) (missing : List ℕ) (w : W)
        → (api.run_workers remote_path id size blocks concurrency missing w).0.1.1 ≡ none
        → AreUploaded id missing
    unfolding AreUploaded
    all-AreUploaded id concurrency missing w well i m =
        let (k, (s, (steps, (over, no_error)))) = runs id concurrency missing w well in
        (uploaded-all (Uploads id) missing concurrency steps over no_error i m).1

    upload_blocks-Leaves :
        (id : String) (missing : List ℕ) (concurrency : ℕ) (c : Client) (s : UploadState W)
        → s.client ≡ c
        → Leaves
            (λ a s1. AreUploaded id missing × HasClient c s1)
            Anywhere
            (upload_blocks paths codec api fuel remote_path id size blocks missing concurrency s)
    unfolding upload_blocks AreUploaded
    upload_blocks-Leaves id missing concurrency c s same =
        let Q : Unit {0} → UploadState W → Type 0 =
          λ a s1. AreUploaded id missing × HasClient c s1 in
        elim (Bool-cases (is_empty missing)) [
          | inl nothing ↦
              rw nothing
                (gives Q Anywhere tt s ((λ i m. absurd (is_empty-Mem missing nothing i m)), same))
          | inr something ↦ elim (Option-cases (api.open_file s.remote)) [
            | inl opened ↦
                rw (something, opened)
                  (returned-Leaves Q Anywhere
                    (api.run_workers remote_path id size blocks concurrency missing s.remote).0.1.1
                    _ (λ well. (all-AreUploaded id concurrency missing s.remote well, same)) tt)
            | inr (e, failed) ↦ rw (something, failed) (raises Q Anywhere e s tt)
          ]
        ]

    -- Verify has succeeded with the remote file as it is left.
    abbrev pub IsChecked : UploadState W → Type 0
    IsChecked s =
        verify paths codec (api.requests s.remote) fuel remote_path size md5 blocks ≡ ok tt

    -- What the upload has put there by the answer of Precreate: nothing, as the content was known, or
    -- the blocks asked for.
    pub record HasSent (rapid : Bool) : Type 0 where
      pub pre : Precreated
      pub answered : Answered (api.precreate remote_path size blocks) pre
      pub sent :
          ((rapid ≡ true) × (pre.return_type ≡ 2))
          ⊎ ((missing : List ℕ) × ((block_indexes (length blocks) (api.sort pre.block_list)
                  ≡ ok missing)
                × ((i : ℕ)
                    → Mem i missing
                    → UploadsBlock remote_path pre.upload_id size blocks i none)))

    pub record IsUploaded (c : Client) (s : UploadState W) : Type 0 where
      pub is_checked : IsChecked s
      pub reported : s.client ≡ feedback s.stats c
      pub has_sent : HasSent s.stats.rapid

    verified-Leaves :
        (P : UploadState W → Type 0) (s : UploadState W)
        → P s
        → Leaves
            (λ a s1. P s1 × IsChecked s1)
            Anywhere
            (verified paths codec api fuel remote_path size md5 blocks s)
    unfolding verified lift
    verified-Leaves P s h =
        lift-Leaves (λ a s1. P s1 × IsChecked s1) Anywhere
          (verify paths codec (api.requests s.remote) fuel remote_path size md5 blocks) s
          (λ a e. (h, e)) tt

    check_created-Leaves :
        (P : UploadState W → Type 0) (created : Created) (s : UploadState W)
        → P s
        → Leaves
            (λ a s1. P s1 × IsChecked s1)
            Anywhere
            (check_created paths codec api fuel created remote_path size md5 blocks s)
    unfolding check_created
    check_created-Leaves P created s h =
        let Q : Unit {0} → UploadState W → Type 0 = λ a s1. P s1 × IsChecked s1 in
        unless-then Q Anywhere _ _ _ s
          (λ sized. unless-then Q Anywhere _ _ _ s (λ summed. verified-Leaves P s h) tt) tt

    upload_rest-Leaves :
        (pre : Precreated) (missing : List ℕ) (concurrency : ℕ) (c : Client) (s : UploadState W)
        → s.client ≡ c
        → Leaves
            (λ a s1. (AreUploaded pre.upload_id missing × HasClient c s1) × IsChecked s1)
            Anywhere
            (upload_rest paths codec api fuel pre missing concurrency remote_path size md5 blocks s)
    unfolding upload_rest
    upload_rest-Leaves pre missing concurrency c s same =
        let Q : Unit {0} → UploadState W → Type 0 =
          λ a s1. (AreUploaded pre.upload_id missing × HasClient c s1) × IsChecked s1 in
        let create : W → Result Created × W =
          api.create_file pre.upload_id remote_path size blocks in
        then-Leaves (λ a s1. AreUploaded pre.upload_id missing × HasClient c s1) Q Anywhere _ _
          (timed-Leaves (λ s1. AreUploaded pre.upload_id missing × HasClient c s1)
            (upload_blocks paths codec api fuel remote_path pre.upload_id size blocks missing
              concurrency)
            s (λ t n h. h) (upload_blocks-Leaves pre.upload_id missing concurrency c s same))
          λ a s1 (sent, same1).
            then-Leaves (λ created s2. HasClient c s2) Q Anywhere _ _
              (timed-Leaves (HasClient c)
                (wrapping "create remote file" (request paths codec api fuel create)) s1
                (λ t n h. h)
                (wrapping-Leaves (λ created s2. HasClient c s2) Anywhere "create remote file"
                  (request paths codec api fuel create) s1
                  (map-Leaves (λ created s2. HasClient c s2 × Answered create created)
                    (λ created s2. HasClient c s2) Anywhere _ (λ created s2 (h, a). h)
                    (request-Leaves create c s1 same1))))
              λ created s2 same2.
                check_created-Leaves (λ s3. AreUploaded pre.upload_id missing × HasClient c s3)
                  created s2 (sent, same2)

    upload_rapid-Leaves :
        (c : Client) (s : UploadState W)
        → s.client ≡ c
        → Leaves
            (λ a s1. ((s1.stats.rapid ≡ true) × HasClient c s1) × IsChecked s1)
            Anywhere
            (upload_rapid paths codec api fuel remote_path size md5 blocks s)
    unfolding upload_rapid continue
    upload_rapid-Leaves c s same =
        let P : UploadState W → Type 0 =
          λ s1. ((s1.stats.rapid ≡ true) × HasClient c s1) × IsChecked s1 in
        let s0 : UploadState W = record s { stats = record s.stats { rapid = true } } in
        then-Leaves (λ a s1. P s1) (λ a s1. P s1) Anywhere _
          (λ a. timed paths codec api fuel (give tt))
          (wrapping-Leaves (λ a s1. P s1) Anywhere "verify rapid upload"
            (verified paths codec api fuel remote_path size md5 blocks) s0
            (verified-Leaves (λ s1. (s1.stats.rapid ≡ true) × HasClient c s1) s0 (refl, same)))
          λ a s1 h. timed-Leaves P (give tt) s1 (λ t n p. p) (gives (λ b s2. P s2) Anywhere tt s1 h)

    fed-Leaves :
        (c : Client) (r : Result (Unit {0}) × UploadState W)
        → Leaves (λ a s1. (HasSent s1.stats.rapid × HasClient c s1) × IsChecked s1) Anywhere r
        → Leaves (λ a s1. IsUploaded c s1) Anywhere (feed_always paths codec api fuel r)
    unfolding Leaves feed_always
    fed-Leaves c (ok a, s) ((sent, same), checked) = record {
      is_checked = checked;
      reported = ap (feedback s.stats) same;
      has_sent = sent;
    }
    fed-Leaves c (err e, s) h = tt

    precreated-Leaves :
        (pre : Precreated) (concurrency : ℕ) (c : Client) (s : UploadState W)
        → Answered (api.precreate remote_path size blocks) pre
        → s.client ≡ c
        → Leaves
            (λ a s1. IsUploaded c s1)
            Anywhere
            (upload_precreated paths codec api fuel pre concurrency remote_path size md5 blocks s)
    unfolding upload_precreated AreUploaded
    precreated-Leaves pre concurrency c s answer same =
        let Q : Unit {0} → UploadState W → Type 0 = λ a s1. IsUploaded c s1 in
        elim (Bool-cases (pre.return_type == 2)) [
          | inl known ↦ rw known (
              fed-Leaves c (upload_rapid paths codec api fuel remote_path size md5 blocks s) (
                map-Leaves (λ a s1. ((s1.stats.rapid ≡ true) × HasClient c s1) × IsChecked s1)
                  (λ a s1. (HasSent s1.stats.rapid × HasClient c s1) × IsChecked s1) Anywhere _
                  (λ a s1 ((rapid, same1), checked). (
                    (
                      record {
                        pre = pre;
                        answered = answer;
                        sent = inl (rapid, (==_iff pre.return_type 2).0 known);
                      },
                      same1,
                    ),
                    checked,
                  ))
                  (upload_rapid-Leaves c s same)))
          | inr unknown ↦ rw unknown (
              unless-then Q Anywhere _ _ _ s
                (λ has_id.
                  lift-then Q Anywhere (block_indexes (length blocks) (api.sort pre.block_list)) _ s
                    (λ missing valid.
                      fed-Leaves c
                        (upload_rest paths codec api fuel pre missing concurrency remote_path size
                          md5 blocks s)
                        (map-Leaves
                          (λ a s1.
                            (AreUploaded pre.upload_id missing × HasClient c s1) × IsChecked s1)
                          (λ a s1. (HasSent s1.stats.rapid × HasClient c s1) × IsChecked s1)
                          Anywhere _
                          (λ a s1 ((all, same1), checked). (
                            (
                              record {
                                pre = pre;
                                answered = answer;
                                sent = inr (missing, (valid, all));
                              },
                              same1,
                            ),
                            checked,
                          ))
                          (upload_rest-Leaves pre missing concurrency c s same)))
                    tt)
                tt)
        ]

    upload-Leaves :
        (s : UploadState W)
        → Leaves
            (λ a s1. IsUploaded s.client s1 × (api.local_size s.remote ≡ ok size))
            Anywhere
            (upload paths codec api fuel remote_path size md5 blocks s)
    unfolding upload continue lift
    upload-Leaves s =
        let Q : Unit {0} → UploadState W → Type 0 =
          λ a s1. IsUploaded s.client s1 × (api.local_size s.remote ≡ ok size) in
        let pre_request : Program (UploadState W) Precreated =
          request paths codec api fuel (api.precreate remote_path size blocks) in
        lift-then Q Anywhere (validate_remote_path paths remote_path) _ s
          (λ clean valid.
            unless-then Q Anywhere _ _ _ s
              (λ some_block.
                lift-then Q Anywhere (api.local_size s.remote) _ s
                  (λ found stat.
                    unless-then Q Anywhere _ _ _ s
                      (λ sized.
                        let same : found ≡ size =
                          (==_iff found size).0 (not-false (found == size) sized) in
                        let P : Precreated → UploadState W → Type 0 = λ pre s1.
                          HasClient s.client s1
                          × Answered (api.precreate remote_path size blocks) pre in
                        then-Leaves P Q Anywhere _ _
                          (feed_error-Leaves P _ (
                            wrapping-Leaves P Anywhere "precreate" pre_request _ (
                              request-Leaves (api.precreate remote_path size blocks) s.client _
                                refl)))
                          λ pre s1 (same1, answer).
                            map-Leaves (λ a s2. IsUploaded s.client s2) Q Anywhere _
                              (λ a s2 up. (up, stat ∙ ap ok same))
                              (precreated-Leaves pre s.client.concurrency s.client s1 answer same1))
                      tt)
                  tt)
              tt)
          tt

    -- Where workers that return no error took steps of the pool until all had returned: an upload that
    -- returns no error has found a local file of the given size; Verify has succeeded with the remote
    -- file as it is left; Precreate has answered, and by its answer the upload was rapid, or each block
    -- that it asked for exists and uploadBlock returned no error for it; and the number of workers was
    -- adapted by what was counted.
    pub upload-IsUploaded :
        (s s1 : UploadState W)
        → upload paths codec api fuel remote_path size md5 blocks s ≡ (ok tt, s1)
        → IsUploaded s.client s1 × (api.local_size s.remote ≡ ok size)
    upload-IsUploaded s s1 e =
        let Q : UploadState W → Type 0 =
          λ s2. IsUploaded s.client s2 × (api.local_size s.remote ≡ ok size) in
        subst Q (ap (λ r. r.1) e) (
          Leaves-ok (λ a s2. Q s2) Anywhere
            (upload paths codec api fuel remote_path size md5 blocks s) tt (ap (λ r. r.0) e)
            (upload-Leaves s))
