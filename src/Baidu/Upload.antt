-- ===== src/Baidu/Upload.antt =====
-- An upload: upload, UploadVolume, UploadFile, UploadHashedFile, uploadBlock and EnsureDir of
-- internal/baidu/uploader.go over the retry loop, the workers and the check of the remote file. The
-- remote service and the disk are a world `W`; its requests are parameters.
pub mod Checked
pub mod Block
use panpack.Base.{
  ℕ, suc, ◌+◌, ◌-◌, ◌*◌, String, str_eq, Bool, true, false, not, ◌&&◌, ◌||◌, Option, none, some,
  Error, message, wrapped, Result, ok, err, ltb, ◌==◌, if◌then◌else◌, List, [], ◌∷◌, Bytes,
  is_empty, length,
}
use panpack.Base.Int.{ℤ, pos, negsuc}
use panpack.Base.Programs.{Program, wrapping, ◌>>=◌, ◌>>◌, give, raise, lift, returned, unless}
use panpack.Baidu.Blocks.{Hashed, hash_file}
use panpack.Baidu.Checksum.{Codec, equal_fold, remote_md5_matches}
use panpack.Baidu.Concurrency.{Client, UploadStats, feedback}
use panpack.Baidu.Retry.{Retried, retry}
use panpack.Baidu.Verify.{RemotePaths, Requests, validate_remote_path, verify}

pub record Precreated : Type 0 where
  pub return_type : ℕ
  pub upload_id : String
  pub block_list : List ℤ

pub record Created : Type 0 where
  pub size : ℕ
  pub md5 : Bytes

pub record Api {ℓ} (W : Type ℓ) : Type ℓ where
  pub ctx_err : W → Option Error
  pub is_limit : Error → Bool
  pub sleep : ℕ → W → Option Error × W
  pub precreate : String → ℕ → List Bytes → W → Result Precreated × W
  pub create_file : String → String → ℕ → List Bytes → W → Result Created × W
  pub slice_upload : String → String → ℕ → Bytes → W → Result Bytes × W
  pub mkdir : String → W → Option Error × W
  -- api.IsErrno(err, api.ErrnoFileAlreadyExist)
  pub is_existing : Error → Bool
  -- os.Stat, os.Open, and ReadAt of some bytes, those behind the end of the file being zero
  pub local_size : W → Result ℕ
  pub open_file : W → Option Error
  pub read_at : ℕ → ℕ → W → Result Bytes
  -- A run of the upload workers on the remote path, the upload id, the size, the hashes of all blocks,
  -- the concurrency and the missing blocks: the retries, the rate limits and the error
  pub run_workers : String → String → ℕ → List Bytes → ℕ → List ℕ → W → (ℕ × (ℕ × Option Error)) × W
  -- The requests of Verify, and the time since the start
  pub requests : W → Requests
  pub since : W → ℕ
  pub sort : List ℤ → List ℤ

pub record UploadState {ℓ} (W : Type ℓ) : Type ℓ where
  pub client : Client
  pub stats : UploadStats
  pub remote : W

-- The blocks that were asked for, unless one of them does not exist.
pub block_indexes : ℕ → List ℤ → Result (List ℕ)
block_indexes n [] = ok []
block_indexes n (negsuc i ∷ is) = err (message "precreate requested invalid block")
block_indexes n (pos i ∷ is) = elim (block_indexes n is) [
  | err e ↦ err e
  | ok rest ↦ if ltb i n then ok (i ∷ rest) else err (message "precreate requested invalid block")
]

unfoldable pub feed {ℓ} : {W : Type ℓ} → UploadState W → UploadState W
feed s = record s { client = feedback s.stats s.client }

module _ {ℓ} {W : Type ℓ} (paths : RemotePaths) (codec : Codec) (api : Api W) (fuel : ℕ) where
  -- A request with its retries.
  pub request {κ} : {A : Type κ} → (W → Result A × W) → Program (UploadState W) A
  request fn s =
      let r = retry api.is_limit api.sleep s.client.max_retries api.ctx_err fn s.remote in
      (
        r.outcome,
        record s {
          stats = record s.stats {
            retries = s.stats.retries + r.retries;
            rate_limits = s.stats.rate_limits + r.rate_limits;
          };
          remote = r.world;
        },
      )

  -- An error is reported to the client's number of workers before it is returned.
  pub feed_error {κ} : {A : Type κ} → Result A × UploadState W → Result A × UploadState W
  unfolding feed
  feed_error (ok a, s) = (ok a, s)
  feed_error (err e, s) = (err e, feed s)

  pub feed_always : Result (Unit {0}) × UploadState W → Result (Unit {0}) × UploadState W
  unfolding feed
  feed_always (r, s) = (r, feed s)

  -- `stats.Duration = time.Since(started)`, after a call that may have failed.
  pub timed {κ} : {A : Type κ} → Program (UploadState W) A → Program (UploadState W) A
  timed m s =
      let (r, s1) = m s in
      (r, record s1 { stats = record s1.stats { duration = api.since s1.remote } })

  -- `uploadBlocks`
  pub upload_blocks :
      String → String → ℕ → List Bytes → List ℕ → ℕ → Program (UploadState W) (Unit {0})
  unfolding returned
  upload_blocks remote_path upload_id size blocks missing concurrency s =
      if is_empty missing then (ok tt, s) else elim (api.open_file s.remote) [
        | some e ↦ (err e, s)
        | none ↦
            let ((retries, (rates, e)), w) =
              api.run_workers remote_path upload_id size blocks concurrency missing s.remote in
            returned e (record s {
              stats = record s.stats {
                retries = s.stats.retries + retries;
                rate_limits = s.stats.rate_limits + rates;
              };
              remote = w;
            })
      ]

  pub verified : String → ℕ → Bytes → List Bytes → Program (UploadState W) (Unit {0})
  verified remote_path size md5 blocks s =
      (verify paths codec (api.requests s.remote) fuel remote_path size md5 blocks, s)

  pub check_created : Created → String → ℕ → Bytes → List Bytes → Program (UploadState W) (Unit {0})
  unfolding verified
  check_created created remote_path size md5 blocks = do
    unless (not (created.size == size)) (message "remote size mismatch")
    unless (not (is_empty created.md5) && not (remote_md5_matches codec created.md5 md5 blocks))
        (message "remote md5 mismatch")
    verified remote_path size md5 blocks

  pub upload_rapid : String → ℕ → Bytes → List Bytes → Program (UploadState W) (Unit {0})
  unfolding verified timed wrapping
  upload_rapid remote_path size md5 blocks = do
    λ s. (ok tt, record s { stats = record s.stats { rapid = true } })
    wrapping "verify rapid upload" (verified remote_path size md5 blocks)
    timed (give tt)

  pub upload_rest :
      Precreated → List ℕ → ℕ → String → ℕ → Bytes → List Bytes → Program (UploadState W) (Unit {0})
  unfolding upload_blocks timed request wrapping check_created
  upload_rest pre missing concurrency remote_path size md5 blocks = do
    timed (upload_blocks remote_path pre.upload_id size blocks missing concurrency)
    created ← timed (
        wrapping "create remote file"
          (request (api.create_file pre.upload_id remote_path size blocks)))
    check_created created remote_path size md5 blocks

  pub upload_precreated :
      Precreated → ℕ → String → ℕ → Bytes → List Bytes → Program (UploadState W) (Unit {0})
  unfolding upload_rapid upload_rest feed_always block_indexes
  upload_precreated pre concurrency remote_path size md5 blocks =
      if pre.return_type == 2
      then (λ s. feed_always (upload_rapid remote_path size md5 blocks s))
      else (do
        unless (str_eq pre.upload_id "") (message "precreate returned no uploadid")
        missing ← lift (block_indexes (length blocks) (api.sort pre.block_list))
        λ s. feed_always (upload_rest pre missing concurrency remote_path size md5 blocks s))

  -- `upload`
  unfoldable pub upload : String → ℕ → Bytes → List Bytes → Program (UploadState W) (Unit {0})
  unfolding feed_error request wrapping upload_precreated
  upload remote_path size md5 blocks = do
    clean ← lift (validate_remote_path paths remote_path)
    unless (is_empty blocks) (message "file has no block hashes")
    found ← (λ s. (api.local_size s.remote, s))
    unless (not (found == size)) (message "local file size changed")
    concurrency ← (λ s. (
      ok s.client.concurrency,
      record s {
        stats = record {
          concurrency = s.client.concurrency;
          retries = 0;
          rate_limits = 0;
          duration = 0;
          rapid = false;
          size = size;
          md5 = md5;
        };
      },
    ))
    pre ←
        (λ s. feed_error (wrapping "precreate" (request (api.precreate remote_path size blocks)) s))
    upload_precreated pre concurrency remote_path size md5 blocks

  -- `UploadFile`, of a file with this content
  pub upload_file : Result Bytes → String → Program (UploadState W) (Unit {0})
  unfolding upload
  upload_file content remote_path s = elim (hash_file codec s.client.block_size content) [
    | err e ↦ (err e, s)
    | ok h ↦ upload remote_path h.size h.full_md5 h.blocks s
  ]

  -- The answer to the bytes of a block.
  pub block_answered : Bytes → Result Bytes × W → Result (Unit {0}) × W
  block_answered expected (err e, w) = (err e, w)
  block_answered expected (ok md5, w) =
      ((if equal_fold md5 expected then ok tt else err (message "server returned another md5")), w)

  pub block_size_at : ℕ → ℕ → ℕ → ℕ
  block_size_at block_size file_size offset =
      if ltb file_size (offset + block_size) then file_size - offset else block_size

  pub upload_bytes : String → String → ℕ → Bytes → Bytes → Program (UploadState W) (Unit {0})
  unfolding request block_answered wrapping
  upload_bytes remote_path upload_id index expected buf = do
    unless (not (equal_fold (codec.md5_hex buf) expected)) (message "local block md5 changed")
    wrapping "upload block" (
        request (λ w. block_answered expected (api.slice_upload remote_path upload_id index buf w)))

  pub read_block : ℕ → ℕ → Program (UploadState W) Bytes
  read_block offset size s = ((if size == 0 then ok [] else api.read_at offset size s.remote), s)

  -- `uploadBlock`: a range that begins behind the end of the file is refused like an empty one.
  unfoldable pub upload_block : String → String → ℕ → ℕ → Bytes → Program (UploadState W) (Unit {0})
  unfolding block_size_at read_block upload_bytes
  upload_block remote_path upload_id file_size index expected s =
      let offset = index * s.client.block_size in
      let size = block_size_at s.client.block_size file_size offset in
      (do
        unless (ltb file_size offset || (size == 0 && not (file_size == 0 && index == 0)))
            (message "invalid block range")
        buf ← read_block offset size
        upload_bytes remote_path upload_id index expected buf)
        s

  -- The parts of a directory below /apps/<app>, each joined to those above it.
  make_dirs : List String → Program W (Unit {0})
  make_dirs [] w = (ok tt, w)
  make_dirs (d ∷ ds) w =
      let (e, w1) = api.mkdir d w in
      let rest = make_dirs ds w1 in
      elim e [
        | none ↦ rest
        | some x ↦
            if api.is_existing x then rest else (err (wrapped "create remote directory" x), w1)
      ]

  -- `EnsureDir`, where `below` gives the directories between /apps/<app> and a path, and the path
  pub ensure_dir : (String → List String) → String → Program W (Unit {0})
  unfolding make_dirs
  ensure_dir below remote_dir = do
    clean ← lift (validate_remote_path paths remote_dir)
    make_dirs (below clean)
