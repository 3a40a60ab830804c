-- ===== src/Baidu/Checksum.antt =====
-- Baidu's encoding of a checksum, and the comparison of checksums: encodeBaiduMD5, hexNibble,
-- RemoteMD5 and RemoteMD5Matches of internal/baidu/uploader.go. Texts are lists of bytes.
pub mod Decode
use Prim.Native.Nat.{bit_and, bit_xor}
use panpack.Base.{
  ℕ, zero, suc, ◌+◌, ◌-◌, ◌≤◌, ◌<◌, Bool, true, false, not, ◌&&◌, ◌||◌, ◌≡◌, ◌≢◌, ◌↔◌, ◌⊎◌, refl,
  inl, inr, arith, Option, none, some, Error, message, Result, ok, err, ◌>>=◌, ltb, leb, ◌==◌,
  if◌then◌else◌, List, [], ◌∷◌, ◌++◌, All, Bytes, codes, length, take, drop, map,
}

pub hex_nibble : ℕ → Option ℕ
hex_nibble c =
    if leb b'0' c && leb c b'9'
    then some (c - b'0')
    else if leb b'a' c && leb c b'f'
    then some (c - b'a' + 10)
    else if leb b'A' c && leb c b'F'
    then some (c - b'A' + 10)
    else none

-- "0123456789abcdef"[k]
hex_digit : ℕ → ℕ
hex_digit k = if ltb k 10 then b'0' + k else b'a' + (k - 10)

-- value[from:to]
abbrev slice : ℕ → ℕ → Bytes → Bytes
slice from to value = take (to - from) (drop from value)

reorder : Bytes → Bytes
reorder value = slice 8 16 value ++ slice 0 8 value ++ slice 24 32 value ++ slice 16 24 value

-- The loop over the reordered text, from position `i`.
scramble : ℕ → Bytes → Result Bytes
scramble i [] = ok []
scramble i (c ∷ cs) = elim (hex_nibble c) [
  | none ↦ err (message "invalid md5 character")
  | some nibble ↦ do
    rest ← scramble (i + 1) cs
    ok (hex_digit (bit_xor nibble (bit_and i 15)) ∷ rest)
]

-- encoded[9] = 'g' + ninth, where a character that is no hexadecimal digit counts as 0.
set_ninth : Bytes → Bytes
set_ninth encoded = take 9 encoded ++ map mark (take 1 (drop 9 encoded)) ++ drop 10 encoded
  where
    mark : ℕ → ℕ
    mark c = b'g' + (elim (hex_nibble c) [ none ↦ 0 | some n ↦ n ])

unfoldable pub encode_baidu_md5 : Bytes → Result Bytes
unfolding hex_nibble hex_digit reorder scramble set_ninth
encode_baidu_md5 value =
    if not (length value == 32)
    then err (message "invalid md5 length")
    else do encoded ← scramble 0 (reorder value); ok (set_ninth encoded)

-- strings.EqualFold on the ASCII texts that checksums are.
lower : ℕ → ℕ
lower c = if leb b'A' c && leb c b'Z' then c + 32 else c

unfoldable pub equal_fold : Bytes → Bytes → Bool
unfolding lower
equal_fold [] [] = true
equal_fold [] (d ∷ t) = false
equal_fold (c ∷ s) [] = false
equal_fold (c ∷ s) (d ∷ t) = lower c == lower d && equal_fold s t

-- The MD5 of bytes in hexadecimal, and the compact JSON text of a list of texts.
pub record Codec : Type 0 where
  pub md5_hex : Bytes → Bytes
  pub marshal : List Bytes → Bytes

module _ (codec : Codec) where
  unfoldable pub remote_md5 : List Bytes → Result Bytes
  unfolding encode_baidu_md5
  remote_md5 [] = err (message "cannot calculate remote md5 without blocks")
  remote_md5 (b ∷ bs) = encode_baidu_md5 (codec.md5_hex (codec.marshal (b ∷ bs)))

  unfoldable pub remote_md5_matches : Bytes → Bytes → List Bytes → Bool
  unfolding remote_md5 equal_fold
  remote_md5_matches remote full blocks =
      if equal_fold remote full
      then true
      else elim (remote_md5 blocks) [ err e ↦ false | ok composite ↦ equal_fold remote composite ]
