-- ===== src/Archive/Hashing.antt =====
-- The writer through which a volume passes to its file: hashingWriter of
-- internal/archive/packer.go. A hash is the bytes written to it since it was made or reset; the
-- writer below, the volume's file, is a function on a world `W`.
pub mod Blocks
use panpack.Base.{
  ℕ, zero, suc, ◌+◌, ◌-◌, Bool, true, false, ◌≡◌, refl, Option, none, some, min, Error, message,
  ltb, ◌==◌, if◌then◌else◌, List, [], ◌∷◌, ◌++◌, Bytes, length, take, drop,
}
use panpack.Baidu.Checksum.{Codec}

pub record HashingWriter : Type 0 where
  pub full : Bytes
  pub block : Bytes
  pub block_size : ℕ
  pub block_bytes : ℕ
  pub blocks : List Bytes
  pub size : ℕ
  pub finalized : Bool

unfoldable pub new_hashing_writer : ℕ → HashingWriter
new_hashing_writer block_size = record {
  full = [];
  block = [];
  block_size = block_size;
  block_bytes = 0;
  blocks = [];
  size = 0;
  finalized = false;
}

-- The bytes of a chunk that the file took: both hashes and both counters follow.
absorb : Bytes → HashingWriter → HashingWriter
absorb written w = record w {
  full = w.full ++ written;
  block = w.block ++ written;
  block_bytes = w.block_bytes + length written;
  size = w.size + length written;
}

-- The hash of a block that is complete is kept, and the next block begins.
seal_block : Codec → HashingWriter → HashingWriter
seal_block codec w =
    if w.block_bytes == w.block_size
    then record w { blocks = w.blocks ++ (codec.md5_hex w.block ∷ []); block = []; block_bytes = 0 }
    else w

pub record Wrote {ℓ} (W : Type ℓ) : Type ℓ where
  pub total : ℕ
  pub error : Option Error
  pub writer : HashingWriter
  pub world : W

-- The chunk that one round writes: at most what the block still takes.
next_chunk : Bytes → HashingWriter → Bytes
next_chunk p w = take (min (length p) (w.block_size - w.block_bytes)) p

module _ {ℓ} {W : Type ℓ} where
  -- The two returns behind the counters, and the next round.
  proceed : ℕ → Option Error → ℕ → HashingWriter → W → Wrote W → Wrote W
  proceed total (some e) written w s rest = record {
    total = total;
    error = some e;
    writer = w;
    world = s;
  }
  proceed total none zero w s rest = record {
    total = total;
    error = some (message "short write");
    writer = w;
    world = s;
  }
  proceed total none (suc written) w s rest = rest

module _ {ℓ} {W : Type ℓ} (codec : Codec)
    -- w.w.Write(chunk): how many bytes it took, and its error
    (sink : Bytes → W → (ℕ × Option Error) × W) where
  -- The loop of `Write`, on fuel.
  write_loop : ℕ → ℕ → Bytes → HashingWriter → W → Wrote W
  unfolding next_chunk absorb seal_block proceed
  write_loop zero total p w s = record {
    total = total;
    error = some (message "out of fuel");
    writer = w;
    world = s;
  }
  write_loop (suc fuel) total [] w s = record { total = total; error = none; writer = w; world = s }
  write_loop (suc fuel) total (b ∷ p) w s =
      let chunk = next_chunk (b ∷ p) w in
      let ((written, e), s1) = sink chunk s in
      let w1 = seal_block codec (absorb (take written chunk) w) in
      proceed (total + written) e written w1 s1
        (write_loop fuel (total + written) (drop written (b ∷ p)) w1 s1)

  unfoldable pub write : Bytes → HashingWriter → W → Wrote W
  unfolding write_loop
  write p w s =
      if w.finalized
      then record {
        total = 0;
        error = some (message "write after hash finalization");
        writer = w;
        world = s;
      }
      else write_loop (length p + 1) 0 p w s

  -- The writes of a volume, one after another, whatever they return.
  unfoldable pub writes : List Bytes → HashingWriter → W → HashingWriter × W
  unfolding write
  writes [] w s = (w, s)
  writes (p ∷ ps) w s = let r = write p w s in writes ps r.writer r.world

-- The first call closes the last block.
finalize : Codec → HashingWriter → HashingWriter
finalize codec w = if w.finalized then w else record w {
  blocks = if ltb 0 w.block_bytes then w.blocks ++ (codec.md5_hex w.block ∷ []) else w.blocks;
  finalized = true;
}

unfoldable pub sums : Codec → HashingWriter → (Bytes × List Bytes) × HashingWriter
unfolding finalize
sums codec w = let w1 = finalize codec w in ((codec.md5_hex w1.full, w1.blocks), w1)
