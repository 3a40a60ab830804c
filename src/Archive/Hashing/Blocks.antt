-- ===== src/Archive/Hashing/Blocks.antt =====
-- The hashes of the writer of internal/archive/packer.go, against those of HashFile of
-- internal/baidu/uploader.go.
use panpack.Base.{
  ℕ, zero, suc, ◌+◌, ◌-◌, ◌<◌, ◌≤◌, false, ◌≡◌, ◌≢◌, refl, sym, ap, ◌∙◌, arith, Option, none, some,
  min, if_intro, Error, Result, ok, ltb, ◌==◌, List, [], ◌∷◌, ◌++◌, append_assoc, append-nil, map,
  Bytes, length, length-append, length-take, take, drop,
}
use panpack.Base.Chunks.{
  concat, concat-append, Full, Full-append, Full-Filled, Full-Filled_append, IsCut, IsCut-unique,
}
use panpack.Baidu.Checksum.{Codec}
use panpack.Baidu.Blocks.{Hashed, at_least_one, hash_file}
use panpack.Baidu.Blocks.Cut.{hash_file-IsCut}
use panpack.Archive.Hashing.{
  HashingWriter, new_hashing_writer, absorb, seal_block, Wrote, proceed, next_chunk, write_loop,
  write, writes, finalize, sums,
}

map-append_one {ℓ κ} :
    {A : Type ℓ} {B : Type κ} (f : A → B) (xs : List A) (x : A)
    → map f (xs ++ (x ∷ [])) ≡ map f xs ++ (f x ∷ [])
map-append_one f [] x = refl
map-append_one f (y ∷ xs) x = ap (λ t. f y ∷ t) (map-append_one f xs x)

nil_of_length : (b : Bytes) → length b ≡ 0 → b ≡ []
nil_of_length [] e = refl
nil_of_length (x ∷ b) e = absurd (omega arith)

hashed_path :
    {n n' : ℕ} {f f' : Bytes} {bs bs' : List Bytes}
    → n ≡ n'
    → f ≡ f'
    → bs ≡ bs'
    → ◌≡◌ {A = Result Hashed}
        (ok (record { size = n; full_md5 = f; blocks = bs }))
        (ok (record { size = n'; full_md5 = f'; blocks = bs' }))
hashed_path p q r = λ i. ok (record { size = p i; full_md5 = q i; blocks = r i })

module _ (codec : Codec) (size : ℕ) (positive : 0 < size) where
  -- The state of the writer: whole blocks that are hashed, and a block that is begun.
  record Counts (w : HashingWriter) : Type 0 where
    block_size : w.block_size ≡ size
    counted : w.block_bytes ≡ length w.block
    total : w.size ≡ length w.full
    cut : List Bytes
    hashes : w.blocks ≡ map codec.md5_hex cut
    full : Full size cut
    content : concat cut ++ w.block ≡ w.full

  -- Between two rounds the block that is begun has room.
  record IsOpen (w : HashingWriter) : Type 0 where
    counts : Counts w
    room : w.block_bytes < size
    open_still : w.finalized ≡ false

  new-IsOpen : IsOpen (new_hashing_writer size)
  unfolding new_hashing_writer
  new-IsOpen = record {
    counts = record {
      block_size = refl;
      counted = refl;
      total = refl;
      cut = [];
      hashes = refl;
      full = tt;
      content = refl;
    };
    room = positive;
    open_still = refl;
  }

  absorb-Counts : (b : Bytes) (w : HashingWriter) → Counts w → Counts (absorb b w)
  unfolding absorb
  absorb-Counts b w h = record {
    block_size = h.block_size;
    counted = omega (arith, h.counted, length-append w.block b);
    total = omega (arith, h.total, length-append w.full b);
    cut = h.cut;
    hashes = h.hashes;
    full = h.full;
    content = sym (append_assoc (concat h.cut) w.block b) ∙ ap (λ t. t ++ b) h.content;
  }

  sealed-Counts :
      (w : HashingWriter)
      → w.block_bytes ≡ size
      → Counts w
      → Counts (record w {
        blocks = w.blocks ++ (codec.md5_hex w.block ∷ []);
        block = [];
        block_bytes = 0;
      })
  sealed-Counts w e h = record {
    block_size = h.block_size;
    counted = refl;
    total = h.total;
    cut = h.cut ++ (w.block ∷ []);
    hashes =
        ap (λ t. t ++ (codec.md5_hex w.block ∷ [])) h.hashes
        ∙ sym (map-append_one codec.md5_hex h.cut w.block);
    full = Full-append size h.cut w.block h.full (sym h.counted ∙ e);
    content =
        append-nil _
        ∙ concat-append h.cut (w.block ∷ [])
        ∙ ap (λ t. concat h.cut ++ t) (append-nil w.block)
        ∙ h.content;
  }

  seal_block-IsOpen :
      (w : HashingWriter)
      → w.block_bytes ≤ size
      → w.finalized ≡ false
      → Counts w
      → IsOpen (seal_block codec w)
  unfolding seal_block
  seal_block-IsOpen w le o h =
      if_intro IsOpen (w.block_bytes == w.block_size)
        (λ full. record {
          counts = sealed-Counts w (ground (arith, h.block_size)) h;
          room = positive;
          open_still = o;
        })
        λ begun. record { counts = h; room = ground (arith, h.block_size); open_still = o }

  -- One round stays within the block.
  round-IsOpen :
      (b : Bytes) (w : HashingWriter)
      → IsOpen w
      → length b ≤ size - w.block_bytes
      → IsOpen (seal_block codec (absorb b w))
  round-IsOpen b w h le =
      seal_block-IsOpen (absorb b w) (unfold absorb in omega (arith, h.room))
        (unfold absorb in h.open_still) (absorb-Counts b w h.counts)

  length-take_le : (n : ℕ) (b : Bytes) → length (take n b) ≤ length b
  length-take_le n b = omega (arith, length-take n b)

  length-next_chunk :
      (p : Bytes) (w : HashingWriter) → IsOpen w → length (next_chunk p w) ≤ size - w.block_bytes
  unfolding next_chunk
  length-next_chunk p w h =
      omega
        (arith, h.counts.block_size, length-take (min (length p) (w.block_size - w.block_bytes)) p)

  module _ {ℓ} {W : Type ℓ} (sink : Bytes → W → (ℕ × Option Error) × W) where
    proceed-IsOpen :
        (total : ℕ) (e : Option Error) (written : ℕ) (w : HashingWriter) (s : W) (rest : Wrote W)
        → IsOpen w
        → IsOpen rest.writer
        → IsOpen (proceed total e written w s rest).writer
    unfolding proceed
    proceed-IsOpen total (some e) written w s rest h k = h
    proceed-IsOpen total none zero w s rest h k = h
    proceed-IsOpen total none (suc written) w s rest h k = k

    write_loop-IsOpen :
        (fuel total : ℕ) (p : Bytes) (w : HashingWriter) (s : W)
        → IsOpen w
        → IsOpen (write_loop codec sink fuel total p w s).writer
    unfolding write_loop
    write_loop-IsOpen zero total p w s h = h
    write_loop-IsOpen (suc fuel) total [] w s h = h
    write_loop-IsOpen (suc fuel) total (b ∷ p) w s h =
        let chunk = next_chunk (b ∷ p) w in
        let ((written, e), s1) = sink chunk s in
        let w1 = seal_block codec (absorb (take written chunk) w) in
        let h1 =
          round-IsOpen (take written chunk) w h
            (omega (arith, length-take_le written chunk, length-next_chunk (b ∷ p) w h)) in
        proceed-IsOpen (total + written) e written w1 s1 _ h1
          (write_loop-IsOpen fuel (total + written) (drop written (b ∷ p)) w1 s1 h1)

    abbrev WrittenIsOpen : Wrote W → Type 0
    WrittenIsOpen r = IsOpen r.writer

    write-IsOpen :
        (p : Bytes) (w : HashingWriter) (s : W) → IsOpen w → IsOpen (write codec sink p w s).writer
    unfolding write
    write-IsOpen p w s h =
        if_intro WrittenIsOpen w.finalized (λ closed. h)
          λ still. write_loop-IsOpen (length p + 1) 0 p w s h

    writes-IsOpen :
        (ps : List Bytes) (w : HashingWriter) (s : W)
        → IsOpen w
        → IsOpen (writes codec sink ps w s).0
    unfolding writes
    writes-IsOpen [] w s h = h
    writes-IsOpen (p ∷ ps) w s h =
        let r = write codec sink p w s in writes-IsOpen ps r.writer r.world (write-IsOpen p w s h)

  -- Hashes of the cut of `content` into blocks.
  record HasCut (content : Bytes) (blocks : List Bytes) : Type 0 where
    cut : List Bytes
    is_cut : IsCut size content cut
    hashes : blocks ≡ map codec.md5_hex cut

  abbrev FinalHasCut : Bytes → HashingWriter → Type 0
  FinalHasCut content w = HasCut content w.blocks

  -- The last block, if one is begun, completes the cut.
  finalize-HasCut : (w : HashingWriter) → IsOpen w → HasCut w.full (finalize codec w).blocks
  unfolding finalize
  finalize-HasCut w h =
      let k = h.counts in
      if_intro (FinalHasCut w.full) w.finalized (λ closed. absurd (ground (arith, h.open_still)))
        λ still.
          if_intro (HasCut w.full) (ltb 0 w.block_bytes)
            (λ begun. record {
              cut = k.cut ++ (w.block ∷ []);
              is_cut = record {
                whole =
                    concat-append k.cut (w.block ∷ [])
                    ∙ ap (λ t. concat k.cut ++ t) (append-nil w.block)
                    ∙ k.content;
                filled =
                    Full-Filled_append size k.cut w.block k.full (ground (arith, k.counted))
                      (ground (arith, k.counted, h.room));
              };
              hashes =
                  ap (λ t. t ++ (codec.md5_hex w.block ∷ [])) k.hashes
                  ∙ sym (map-append_one codec.md5_hex k.cut w.block);
            })
            λ complete. record {
              cut = k.cut;
              is_cut = record {
                whole =
                    sym (append-nil (concat k.cut))
                    ∙ ap (λ t. concat k.cut ++ t)
                        (sym (nil_of_length w.block (ground (arith, k.counted))))
                    ∙ k.content;
                filled = Full-Filled size k.cut positive k.full;
              };
              hashes = k.hashes;
            }

  finalize-full : (w : HashingWriter) → (finalize codec w).full ≡ w.full
  unfolding finalize
  finalize-full w = ground arith

  at_least_one-cut :
      (cut : List Bytes)
      → concat cut ≢ []
      → at_least_one codec size (map codec.md5_hex cut) ≡ map codec.md5_hex cut
  unfolding at_least_one
  at_least_one-cut [] ne = absurd (ne refl)
  at_least_one-cut (b ∷ cut) ne = refl

  module _ {ℓ} {W : Type ℓ} (sink : Bytes → W → (ℕ × Option Error) × W) where
    -- A volume is written by any sequence of writes, each of which the file may cut short or fail.
    -- If the file took a byte at all, then the checksum, the block hashes and the size that the
    -- writer reports are those that HashFile computes from the bytes that the file took.
    pub sums-eq-hash_file :
        (ps : List Bytes) (s : W)
        → (writes codec sink ps (new_hashing_writer size) s).0.full ≢ []
        → let w = (writes codec sink ps (new_hashing_writer size) s).0 in
          hash_file codec size (ok w.full)
          ≡ ok
              (record { size = w.size; full_md5 = (sums codec w).0.0; blocks = (sums codec w).0.1 })
    unfolding sums
    sums-eq-hash_file ps s ne =
        let w = (writes codec sink ps (new_hashing_writer size) s).0 in
        let h = writes-IsOpen sink ps (new_hashing_writer size) s new-IsOpen in
        let f = finalize-HasCut w h in
        let (cut, is_cut, e) = hash_file-IsCut codec size positive w.full in
        let same = IsCut-unique size w.full cut f.cut positive is_cut f.is_cut in
        e
        ∙ hashed_path (sym h.counts.total) (ap codec.md5_hex (sym (finalize-full w))) (
            at_least_one-cut cut (λ none_left. ne (sym is_cut.whole ∙ none_left))
            ∙ ap (map codec.md5_hex) same
            ∙ sym f.hashes)
