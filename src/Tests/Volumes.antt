-- ===== src/Tests/Volumes.antt =====
-- The theorems on volumes, at concrete values.
use panpack.Base.{ℕ, true, ◌≡◌, ap, Option, none, Error, ok, List, [], ◌∷◌, Bytes, length, arith}
use panpack.Base.Chunks.{concat}
use panpack.Baidu.Checksum.{Codec}
use panpack.Baidu.Blocks.{hash_file}
use panpack.Archive.Hashing.{new_hashing_writer, writes, sums}
use panpack.Archive.Hashing.Blocks.{sums-eq-hash_file}
use panpack.Archive.Pack.{Entry, file, Line, Source, Packer, Sealed, marker, whole}

abbrev a_codec : Codec
a_codec = record { md5_hex = λ b. b; marshal = concat }

-- A file that takes every byte.
abbrev take_all : Bytes → Bytes → (ℕ × Option Error) × Bytes
take_all b w = ((length b, none), w)

abbrev chunks : List Bytes
chunks = (1 ∷ 2 ∷ 3 ∷ []) ∷ (4 ∷ []) ∷ []

sums_example :
    let w = (writes a_codec take_all chunks (new_hashing_writer 2) []).0 in
    hash_file a_codec 2 (ok w.full)
    ≡ ok (record { size = w.size; full_md5 = (sums a_codec w).0.0; blocks = (sums a_codec w).0.1 })
unfolding writes new_hashing_writer
sums_example =
    sums-eq-hash_file a_codec 2 (omega arith) take_all chunks []
      (λ e. let n : 4 ≡ 0 = ap length e in absurd (omega arith))

abbrev a_file : Entry
a_file = record {
  id = 1;
  path = "a.bin";
  kind = file;
  size = 3000;
  mode = 420;
  mod_time = 9;
  link_target = "";
}

abbrev a_manifest : List Line
a_manifest = record { entry = a_file; start = 0; next = 80 } ∷ []

abbrev a_source : Source
a_source = record {
  ctx_err = λ n. none;
  read_err = λ n. none;
  safe_path = λ p. ok p;
  lstat = λ p. ok (record { mode = 420; mod_time = 9; size = 3000 });
  readlink = λ p. ok "";
  header = λ i. 512;
  write_header = λ i. none;
  copy = λ e offset n. none;
  marker_size = 60;
}

abbrev a_packer : Packer
a_packer = record { manifest_size = 80; block_size = 4096 }

abbrev a_volume : Sealed
a_volume = record {
  index = 0;
  items = marker ∷ whole a_file ∷ [];
  size = 5632;
  cursor_after = record { manifest_offset = 80; file_offset = 0; next_volume = 1; is_done = true };
  left = [];
}
