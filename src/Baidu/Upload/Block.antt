-- ===== src/Baidu/Upload/Block.antt =====
-- What the upload of one block has established: uploadBlock of internal/baidu/uploader.go.
use panpack.Base.{
  ℕ, ◌*◌, ◌<◌, ◌⊎◌, arith, ◌&&◌, ◌==◌, ◌≡◌, refl, ap, Bool, true, false, not, ◌||◌, String, message,
  Result, ok, err, ltb, if◌then◌else◌, Bytes,
}
use panpack.Base.Programs.{
  Leaves, lift-then, unless-then, lift-Leaves, map-Leaves, wrapping-Leaves, Leaves-ok, lift,
}
use panpack.Baidu.Checksum.{Codec, equal_fold}
use panpack.Baidu.Retry.{retry, retry-ok}
use panpack.Baidu.Verify.{RemotePaths}
use panpack.Baidu.Upload.{
  Api, UploadState, request, block_answered, block_size_at, read_block, upload_bytes, upload_block,
}

not-false : (b : Bool) → not b ≡ false → b ≡ true
not-false true h = refl
not-false false h = cc

module _ {W : Type 0} (paths : RemotePaths) (codec : Codec) (api : Api W) (fuel : ℕ) where
  abbrev Anywhere : UploadState W → Type 0
  Anywhere s = Unit

  -- What a request returns is what one of its calls returned.
  pub request-from :
      {A : Type 0} (fn : W → Result A × W) (s : UploadState W)
      → Leaves
          (λ a s1. (w : W) × (fn w ≡ (ok a, s1.remote)))
          Anywhere
          (request paths codec api fuel fn s)
  unfolding request lift
  request-from fn s =
      lift-Leaves (λ a s1. (w : W) × (fn w ≡ (ok a, s1.remote))) Anywhere
        (retry api.is_limit api.sleep s.client.max_retries api.ctx_err fn s.remote).outcome _
        (λ a e. retry-ok api.is_limit api.sleep api.ctx_err fn s.client.max_retries s.remote a e) tt

  -- The answer to a block, and that it is the checksum that was expected.
  pub record IsAnswered (expected : Bytes) (x : Result Bytes × W) : Type 0 where
    pub answer : Bytes
    pub world : W
    pub called : x ≡ (ok answer, world)
    pub matches : equal_fold answer expected ≡ true

  when_ok :
      (b : Bool)
      → Path
          (Result (Unit {0}))
          (if b then ok tt else err (message "server returned another md5"))
          (ok tt)
      → b ≡ true
  when_ok true e = refl
  when_ok false e = cc

  block_answered-ok :
      (expected : Bytes) (x : Result Bytes × W) (w : W)
      → block_answered paths codec api fuel expected x ≡ (ok tt, w)
      → IsAnswered expected x
  unfolding block_answered
  block_answered-ok expected (err e, w1) w same = let bad : err e ≡ ok tt = ap (λ r. r.0) same in cc
  block_answered-ok expected (ok md5, w1) w same = record {
    answer = md5;
    world = w1;
    called = refl;
    matches = when_ok (equal_fold md5 expected) (ap (λ r. r.0) same);
  }

  module _ (remote_path upload_id : String) (file_size index : ℕ) (expected : Bytes) where
    -- The block begins before the end of the file, or is the only one of an empty file.
    abbrev pub IsInFile : ℕ → Type 0
    IsInFile block_size = (index * block_size < file_size) ⊎ ((file_size ≡ 0) × (index ≡ 0))

    -- A block that the server has: the bytes that were read, and the call that sent them.
    pub record IsSent (s : UploadState W) : Type 0 where
      pub buf : Bytes
      pub read_lem :
          (read_block paths codec api fuel
            (index * s.client.block_size)
            (block_size_at paths codec api fuel s.client.block_size file_size
              (index * s.client.block_size))
            s).0
          ≡ ok buf
      pub in_file : IsInFile s.client.block_size
      pub unchanged : equal_fold (codec.md5_hex buf) expected ≡ true
      pub before : W
      pub sent : IsAnswered expected (api.slice_upload remote_path upload_id index buf before)

    ranged-IsInFile :
        (block_size : ℕ)
        → (ltb file_size (index * block_size)
            || (block_size_at paths codec api fuel block_size file_size (index * block_size) == 0
                && not (file_size == 0 && index == 0)))
          ≡ false
        → IsInFile block_size
    unfolding block_size_at
    ranged-IsInFile block_size h = ground arith

    block-Leaves :
        (s : UploadState W)
        → Leaves
            (λ a s1. IsSent s)
            Anywhere
            (upload_block paths codec api fuel remote_path upload_id file_size index expected s)
    unfolding upload_block upload_bytes read_block lift
    block-Leaves s =
        let Q : Unit {0} → UploadState W → Type 0 = λ a s1. IsSent s in
        let fn : Bytes → W → Result (Unit {0}) × W = λ buf w.
          block_answered paths codec api fuel expected
            (api.slice_upload remote_path upload_id index buf w) in
        unless-then Q Anywhere _ _ _ s
          (λ ranged.
            lift-then Q Anywhere _ _ s
              (λ buf read.
                unless-then Q Anywhere _ _ _ s
                  (λ hashed.
                    wrapping-Leaves Q Anywhere "upload block"
                      (request paths codec api fuel (fn buf)) s
                      (map-Leaves (λ a s1. (w : W) × (fn buf w ≡ (ok a, s1.remote))) Q Anywhere _
                        (λ a s1 (w, same). record {
                          buf = buf;
                          read_lem = read;
                          in_file = ranged-IsInFile s.client.block_size ranged;
                          unchanged = not-false _ hashed;
                          before = w;
                          sent = block_answered-ok expected _ s1.remote same;
                        })
                        (request-from (fn buf) s)))
                  tt)
              tt)
          tt

    -- An upload of a block that returns no error: the block begins before the end of the file or is the
    -- only one of an empty file, the bytes that were read have the expected checksum, and they were
    -- sent in a call that the server answered with this checksum.
    pub upload_block-IsSent :
        (s : UploadState W)
        → (upload_block paths codec api fuel remote_path upload_id file_size index expected s).0
          ≡ ok tt
        → IsSent s
    upload_block-IsSent s e =
        Leaves-ok (λ a s1. IsSent s) Anywhere
          (upload_block paths codec api fuel remote_path upload_id file_size index expected s) tt e
          (block-Leaves s)
