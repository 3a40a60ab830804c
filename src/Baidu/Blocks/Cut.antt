-- ===== src/Baidu/Blocks/Cut.antt =====
-- The cut of a file into blocks, as HashFile of internal/baidu/uploader.go hashes it.
use panpack.Base.{
  ℕ, zero, suc, ◌+◌, ◌<◌, ◌≡◌, refl, sym, ap, ap₂, if_intro, ◌∙◌, arith, Option, some, ok, ltb,
  ◌==◌, List, [], ◌∷◌, ◌++◌, append_assoc, append-nil, map, Bytes, length, length-take, length-drop,
  take, drop, take-append-drop, take_all,
}
use panpack.Base.Chunks.{Filled-cons, IsCut}
use panpack.Baidu.Checksum.{Codec}
use panpack.Baidu.Blocks.{Hashed, hash_loop, hash_content, at_least_one, hash_file}

module _ (codec : Codec) (block_size : ℕ) (positive : 0 < block_size) where
  -- What the loop gives of the rest of the file.
  record Loop (rest : Bytes) (size : ℕ) (hashes : List Bytes) (r : Option (ℕ × List Bytes))
      : Type 0 where
    cut : List Bytes
    runs : r ≡ some (size + length rest, hashes ++ map codec.md5_hex cut)
    is_cut : IsCut block_size rest cut

  Loop-nil :
      (rest : Bytes) (size : ℕ) (hashes : List Bytes)
      → length rest ≡ 0
      → Loop rest size hashes (some (size, hashes))
  Loop-nil [] size hashes e = record {
    cut = [];
    runs =
        ap some (ap₂ (λ (n : ℕ) (l : List Bytes). (n, l)) (omega arith) (sym (append-nil hashes)));
    is_cut = record { whole = refl; filled = tt };
  }
  Loop-nil (x ∷ rest) size hashes e = absurd (omega arith)

  Loop-last :
      (rest : Bytes) (size : ℕ) (hashes : List Bytes)
      → 0 < length rest
      → length rest < block_size
      → Loop rest size hashes (
          some (
            size + length (take block_size rest),
            hashes ++ (codec.md5_hex (take block_size rest) ∷ []),
          ))
  Loop-last rest size hashes p lt =
      let e = take_all block_size rest (omega arith) in
      record {
        cut = rest ∷ [];
        runs = rw e;
        is_cut = record { whole = append-nil rest; filled = (p, omega arith) };
      }

  Loop-cons :
      (rest : Bytes) (size : ℕ) (hashes : List Bytes) (r : Option (ℕ × List Bytes))
      → length (take block_size rest) ≡ block_size
      → Loop
          (drop block_size rest)
          (size + length (take block_size rest))
          (hashes ++ (codec.md5_hex (take block_size rest) ∷ []))
          r
      → Loop rest size hashes r
  Loop-cons rest size hashes r full l = record {
    cut = take block_size rest ∷ l.cut;
    runs =
        l.runs
        ∙ ap some (
            ap₂ (λ (n : ℕ) (t : List Bytes). (n, t))
              (omega (arith, length-take block_size rest, length-drop block_size rest))
              (append_assoc hashes (codec.md5_hex (take block_size rest) ∷ [])
                (map codec.md5_hex l.cut)));
    is_cut = record {
      whole = ap (λ t. take block_size rest ++ t) l.is_cut.whole ∙ take-append-drop block_size rest;
      filled = Filled-cons block_size (take block_size rest) l.cut positive full l.is_cut.filled;
    };
  }

  hash_loop-Loop :
      (fuel : ℕ) (rest : Bytes) (size : ℕ) (hashes : List Bytes)
      → length rest < fuel
      → Loop rest size hashes (hash_loop codec block_size fuel rest size hashes)
  unfolding hash_loop
  hash_loop-Loop zero rest size hashes lt = absurd (omega arith)
  hash_loop-Loop (suc fuel) rest size hashes lt =
      if_intro (Loop rest size hashes) (length (take block_size rest) == 0)
        (λ empty. Loop-nil rest size hashes (ground (arith, length-take block_size rest)))
        λ more.
          if_intro (Loop rest size hashes) (ltb (length (take block_size rest)) block_size)
            (λ short.
              Loop-last rest size hashes (ground (arith, length-take block_size rest))
                (ground (arith, length-take block_size rest)))
            λ full. Loop-cons rest size hashes _ (ground (arith, length-take block_size rest)) (
              hash_loop-Loop fuel (drop block_size rest) (size + length (take block_size rest))
                (hashes ++ (codec.md5_hex (take block_size rest) ∷ []))
                (ground (arith, length-drop block_size rest, length-take block_size rest)))

  -- The report on a file of `size` bytes whose blocks are `cut`.
  abbrev pub report : ℕ → Bytes → List Bytes → Hashed
  report size content cut = record {
    size = size;
    full_md5 = codec.md5_hex content;
    blocks = at_least_one codec block_size (map codec.md5_hex cut);
  }

  -- For a positive block size `HashFile` returns, and what it returns is the size of the file, the hash of the whole of it,
  -- and the hashes of its blocks: those of the file cut into blocks of the given size, of which
  -- only the last may be shorter, or the hash of no bytes for an empty file.
  pub hash_file-IsCut :
      (content : Bytes)
      → (cut : List Bytes) × IsCut block_size content cut
        × (hash_file codec block_size (ok content) ≡ ok (report (length content) content cut))
  unfolding hash_file
  hash_file-IsCut content =
      let l = hash_loop-Loop (length content + 1) content 0 [] (omega arith) in
      (
        l.cut,
        l.is_cut,
        if_intro (λ r. r ≡ ok (report (length content) content l.cut)) (block_size == 0)
            (λ zero_size. absurd (ground arith))
            λ sized.
              ap (hash_content codec block_size content) l.runs
              ∙ ap (λ (n : ℕ). ok (report n content l.cut)) (omega arith),
      )
