-- ===== src/Baidu/Checksum/Decode.antt =====
-- The inverse of the encoding of a checksum, encodeBaiduMD5 of internal/baidu/uploader.go, by a table
-- of positions and a table of digits; it calls nothing of the encoder.
use Prim.Native.Nat.{bit_and, bit_xor}
use panpack.Base.{
  ℕ, zero, suc, ◌+◌, ◌-◌, ◌%◌, ◌≤◌, ◌<◌, Bool, true, false, ◌&&◌, ◌||◌, ◌≡◌, refl, ap, ap₂, ◌∙◌,
  arith, none, some, ok, leb, ◌==◌, ==_iff, if◌then◌else◌, List, [], ◌∷◌, All, All-append, Bytes,
  codes, length, take, drop, map,
}
use panpack.Baidu.Checksum.{
  hex_nibble, hex_digit, slice, reorder, scramble, set_ninth, encode_baidu_md5,
}

abbrev pub is_lower_hex : ℕ → Bool
is_lower_hex c = (leb b'0' c && leb c b'9') || (leb b'a' c && leb c b'f')

-- A character of a checksum in hexadecimal, as the encoding of Go's hex package writes it.
abbrev pub IsHex : ℕ → Type 0
IsHex c = is_lower_hex c ≡ true

abbrev digits : Bytes
digits = codes "0123456789abcdef"

-- The character at a position, 0 behind the end.
char_at : ℕ → Bytes → ℕ
char_at i [] = 0
char_at zero (c ∷ cs) = c
char_at (suc i) (c ∷ cs) = char_at i cs

-- The first position of a character, and that of the end where it does not occur.
position_of : ℕ → Bytes → ℕ
position_of c [] = 0
position_of c (d ∷ ds) = let rest = position_of c ds in if c == d then 0 else 1 + rest

nibble : ℕ → ℕ
unfolding position_of
nibble c = position_of c digits

digit : ℕ → ℕ
unfolding char_at
digit k = char_at k digits

-- The mask of each position is taken off.
unscramble : ℕ → Bytes → Bytes
unfolding nibble digit
unscramble i [] = []
unscramble i (c ∷ cs) = digit (bit_xor (nibble c) (i % 16)) ∷ unscramble (i + 1) cs

-- The mark of the ninth position is taken off.
unmark : ℕ → Bytes → Bytes
unfolding digit
unmark i [] = []
unmark zero (c ∷ cs) = digit (c - b'g') ∷ cs
unmark (suc i) (c ∷ cs) = c ∷ unmark i cs

-- Where each character of a checksum is found in an encoded one: the quarters change places in pairs.
abbrev places : List ℕ
places =
    8 ∷ 9 ∷ 10 ∷ 11 ∷ 12 ∷ 13 ∷ 14 ∷ 15 ∷ 0 ∷ 1 ∷ 2 ∷ 3 ∷ 4 ∷ 5 ∷ 6 ∷ 7 ∷ 24 ∷ 25 ∷ 26 ∷ 27 ∷ 28
    ∷ 29 ∷ 30 ∷ 31 ∷ 16 ∷ 17 ∷ 18 ∷ 19 ∷ 20 ∷ 21 ∷ 22 ∷ 23 ∷ []

in_place : Bytes → Bytes
unfolding char_at
in_place cs = map (λ i. char_at i cs) places

-- The checksum that an encoded one stands for.
pub decode_baidu_md5 : Bytes → Bytes
unfolding in_place unscramble unmark
decode_baidu_md5 encoded = in_place (unscramble 0 (unmark 9 encoded))

-- What one position of the loop writes.
written : ℕ → ℕ → ℕ
unfolding nibble
written i c = hex_digit (bit_xor (nibble c) (bit_and i 15))

-- The test passes at every number under the bound.
passes : (ℕ → Bool) → ℕ → Bool
passes test zero = true
passes test (suc bound) = passes test bound && test bound

passes_at :
    (test : ℕ → Bool) (at bound : ℕ) → at < bound → passes test bound ≡ true → test at ≡ true
unfolding passes
passes_at test at zero below all = absurd (omega arith)
passes_at test at (suc bound) below all = ground (arith, passes_at test at bound)

abbrev reads_nibble : ℕ → Bool
reads_nibble c = elim (hex_nibble c) [ none ↦ false | some n ↦ n == nibble c ]

-- At a position below 32 and a hexadecimal character: the character is read, what is written is
-- hexadecimal and reads back, and its ninth mark does too.
abbrev holds_at : ℕ → ℕ → Bool
holds_at i c =
    if is_lower_hex c
    then reads_nibble c
      && (digit (bit_xor (nibble (written i c)) (i % 16)) == c)
      && (is_lower_hex (written i c))
      && (reads_nibble (written i c))
      && (digit ((b'g' + nibble (written i c)) - b'g') == written i c)
    else true

table : passes (λ i. passes (λ c. holds_at i c) 128) 32 ≡ true
unfolding passes written hex_nibble hex_digit nibble digit
table = refl

at_position : (i c : ℕ) → i < 32 → IsHex c → holds_at i c ≡ true
at_position i c lt h =
    passes_at (λ c. holds_at i c) c 128 (ground arith)
      (passes_at (λ i. passes (λ c. holds_at i c) 128) i 32 lt table)

in_place-reorder : (v : Bytes) → length v ≡ 32 → in_place (reorder v) ≡ v
unfolding in_place reorder
in_place-reorder
      (x0 ∷ x1 ∷ x2 ∷ x3 ∷ x4 ∷ x5 ∷ x6 ∷ x7 ∷ x8 ∷ x9 ∷ x10 ∷ x11 ∷ x12 ∷ x13 ∷ x14 ∷ x15 ∷ x16
        ∷ x17 ∷ x18 ∷ x19 ∷ x20 ∷ x21 ∷ x22 ∷ x23 ∷ x24 ∷ x25 ∷ x26 ∷ x27 ∷ x28 ∷ x29 ∷ x30 ∷ x31
        ∷ [])
      h =
    refl
in_place-reorder _ h = absurd (omega arith)

length-reorder : (v : Bytes) → length v ≡ 32 → length (reorder v) ≡ 32
unfolding reorder
length-reorder
      (x0 ∷ x1 ∷ x2 ∷ x3 ∷ x4 ∷ x5 ∷ x6 ∷ x7 ∷ x8 ∷ x9 ∷ x10 ∷ x11 ∷ x12 ∷ x13 ∷ x14 ∷ x15 ∷ x16
        ∷ x17 ∷ x18 ∷ x19 ∷ x20 ∷ x21 ∷ x22 ∷ x23 ∷ x24 ∷ x25 ∷ x26 ∷ x27 ∷ x28 ∷ x29 ∷ x30 ∷ x31
        ∷ [])
      h =
    refl
length-reorder _ h = absurd (omega arith)

-- A character that survives the mark of the ninth position.
abbrev IsMarkable : ℕ → Type 0
IsMarkable c = (hex_nibble c ≡ some (nibble c)) × (digit ((b'g' + nibble c) - b'g') ≡ c)

record PositionFacts (i c : ℕ) : Type 0 where
  read : hex_nibble c ≡ some (nibble c)
  back : digit (bit_xor (nibble (written i c)) (i % 16)) ≡ c
  markable : IsMarkable (written i c)

some-nibble : (c : ℕ) → reads_nibble c ≡ true → hex_nibble c ≡ some (nibble c)
some-nibble c h = ground arith

position : (i c : ℕ) → i < 32 → IsHex c → PositionFacts i c
position i c lt h = record {
  read = some-nibble c (ground (arith, at_position i c lt h));
  back = (==_iff _ _).0 (ground (arith, at_position i c lt h));
  markable = (
    some-nibble (written i c) (ground (arith, at_position i c lt h)),
    (==_iff _ _).0 (ground (arith, at_position i c lt h)),
  );
}

record Scrambled (i : ℕ) (cs out : Bytes) : Type 0 where
  runs : scramble i cs ≡ ok out
  back : unscramble i out ≡ cs
  same_length : length out ≡ length cs
  markable : All IsMarkable out

scramble-cons :
    (i c n : ℕ) (cs out : Bytes)
    → hex_nibble c ≡ some n
    → scramble (i + 1) cs ≡ ok out
    → scramble i (c ∷ cs) ≡ ok (hex_digit (bit_xor n (bit_and i 15)) ∷ out)
unfolding scramble
scramble-cons i c n cs out e r = rw (e, scramble) (rw r)

scramble-unscramble :
    (i : ℕ) (cs : Bytes) → i + length cs ≤ 32 → All IsHex cs → (out : Bytes) × Scrambled i cs out
unfolding scramble unscramble written
scramble-unscramble i [] le h =
    ([], record { runs = refl; back = refl; same_length = refl; markable = tt })
scramble-unscramble i (c ∷ cs) le (hc, hs) =
    let f = position i c (omega arith) hc in
    let (out, s) = scramble-unscramble (i + 1) cs (omega arith) hs in
    (
      written i c ∷ out,
      record {
        runs = scramble-cons i c (nibble c) cs out f.read s.runs;
        back = ap₂ ◌∷◌ f.back s.back;
        same_length = ap suc s.same_length;
        markable = (f.markable, s.markable);
      },
    )

unmark-set_ninth :
    (out : Bytes) → length out ≡ 32 → All IsMarkable out → unmark 9 (set_ninth out) ≡ out
unfolding set_ninth unmark
unmark-set_ninth (x0 ∷ x1 ∷ x2 ∷ x3 ∷ x4 ∷ x5 ∷ x6 ∷ x7 ∷ x8 ∷ x9 ∷ rest) h m =
    let ninth = m.1.1.1.1.1.1.1.1.1.0 in
    rw (ninth.0) (ap (λ y. x0 ∷ x1 ∷ x2 ∷ x3 ∷ x4 ∷ x5 ∷ x6 ∷ x7 ∷ x8 ∷ y ∷ rest) ninth.1)
unmark-set_ninth _ h m = absurd (omega arith)

module _ (P : ℕ → Type 0) where
  All-take : (n : ℕ) (xs : Bytes) → All P xs → All P (take n xs)
  All-take zero xs h = tt
  All-take (suc n) [] h = tt
  All-take (suc n) (x ∷ xs) h = (h.0, All-take n xs h.1)

  All-drop : (n : ℕ) (xs : Bytes) → All P xs → All P (drop n xs)
  All-drop zero xs h = h
  All-drop (suc n) [] h = tt
  All-drop (suc n) (x ∷ xs) h = All-drop n xs h.1

  All-slice : (i j : ℕ) (xs : Bytes) → All P xs → All P (slice i j xs)
  All-slice i j xs h = All-take (j - i) (drop i xs) (All-drop i xs h)

  All-reorder : (xs : Bytes) → All P xs → All P (reorder xs)
  unfolding reorder
  All-reorder xs h =
      All-append P _ (slice 16 24 xs)
        (All-append P _ (slice 24 32 xs)
          (All-append P (slice 8 16 xs) (slice 0 8 xs) (All-slice 8 16 xs h) (All-slice 0 8 xs h))
          (All-slice 24 32 xs h))
        (All-slice 16 24 xs h)

encode_baidu_md5-ok :
    (value out : Bytes)
    → length value ≡ 32
    → scramble 0 (reorder value) ≡ ok out
    → encode_baidu_md5 value ≡ ok (set_ninth out)
unfolding encode_baidu_md5
encode_baidu_md5-ok value out len r = rw (len, r)

-- Every checksum of 32 lower-case hexadecimal characters is encoded, and decoding gives it back.
pub decode-encode :
    (value : Bytes)
    → length value ≡ 32
    → All IsHex value
    → (encoded : Bytes) × (encode_baidu_md5 value ≡ ok encoded) × (decode_baidu_md5 encoded ≡ value)
unfolding encode_baidu_md5 decode_baidu_md5
decode-encode value len hex =
    let (out, s) =
      scramble-unscramble 0 (reorder value) (omega (arith, length-reorder value len))
        (All-reorder IsHex value hex) in
    (
      set_ninth out,
      encode_baidu_md5-ok value out len s.runs,
      ap (λ v. in_place (unscramble 0 v))
            (unmark-set_ninth out (s.same_length ∙ length-reorder value len) s.markable)
          ∙ ap in_place s.back
          ∙ in_place-reorder value len,
    )
