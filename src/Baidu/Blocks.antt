-- ===== src/Baidu/Blocks.antt =====
-- The block hashes of a local file, and the bytes of one block: HashFile, and the range that
-- uploadBlock reads, of internal/baidu/uploader.go.
pub mod Cut
use panpack.Base.{
  ℕ, zero, suc, ◌+◌, ◌-◌, ◌*◌, ◌≤◌, ◌<◌, Bool, true, false, not, ◌&&◌, ◌||◌, ◌≡◌, refl, arith,
  Option, none, some, Error, message, Result, ok, err, ◌>>=◌, ltb, leb, ◌==◌, if◌then◌else◌, List,
  [], ◌∷◌, ◌++◌, Bytes, length, take, drop,
}
use panpack.Baidu.Checksum.{Codec, equal_fold}

pub record Hashed : Type 0 where
  pub size : ℕ
  pub full_md5 : Bytes
  pub blocks : List Bytes

module _ (codec : Codec) (block_size : ℕ) where
  -- The loop of `HashFile` over what is left of the file, with the size and the hashes so far. A
  -- round reads a block, or less at the end of the file. `none`: the fuel ran out.
  hash_loop : ℕ → Bytes → ℕ → List Bytes → Option (ℕ × List Bytes)
  hash_loop zero rest size blocks = none
  hash_loop (suc fuel) rest size blocks =
      let chunk = take block_size rest in
      let next =
        hash_loop fuel (drop block_size rest) (size + length chunk)
          (blocks ++ (codec.md5_hex chunk ∷ [])) in
      if length chunk == 0
      then some (size, blocks)
      else if ltb (length chunk) block_size
      then some (size + length chunk, blocks ++ (codec.md5_hex chunk ∷ []))
      else next

  -- The API requires a block list for an empty file too.
  unfoldable pub at_least_one : List Bytes → List Bytes
  at_least_one [] = codec.md5_hex [] ∷ []
  at_least_one (b ∷ bs) = b ∷ bs

  hash_content : Bytes → Option (ℕ × List Bytes) → Result Hashed
  unfolding at_least_one
  hash_content content none = err (message "out of fuel")
  hash_content content (some (size, blocks)) =
      ok (record { size = size; full_md5 = codec.md5_hex content; blocks = at_least_one blocks })

  -- `HashFile` of a file that opens to `content`, or does not open. A read error is not modelled.
  unfoldable pub hash_file : Result Bytes → Result Hashed
  unfolding hash_loop hash_content
  hash_file file =
      if block_size == 0
      then err (message "block size must be positive")
      else do content ← file; hash_content content (hash_loop (length content + 1) content 0 [])
