-- ===== src/Tests/Uploads.antt =====
-- The theorems on the client, at concrete values.
use panpack.Base.{
  All, ◌&&◌, true, ℕ, zero, suc, ◌+◌, Bool, false, String, str_eq, if◌then◌else◌, ◌<◌, ◌≡◌, refl,
  Option, none, some, Error, message, Result, ok, err, List, [], ◌∷◌, Bytes, length, arith,
}
use panpack.Base.Chunks.{concat, IsCut}
use panpack.Baidu.Concurrency.{
  Client, UploadStats, new_with_api, IsBounded, reports, reports-bounds,
}
use panpack.Baidu.Retry.{IsSound, retry, retry-IsSound}
use panpack.Baidu.Checksum.{Codec, encode_baidu_md5}
use panpack.Baidu.Checksum.Decode.{is_lower_hex, IsHex, decode_baidu_md5, decode-encode}
use panpack.Baidu.Blocks.{hash_file}
use panpack.Baidu.Blocks.Cut.{report, hash_file-IsCut}
use panpack.Baidu.Listing.{RemoteInfo, list_dir}
use panpack.Baidu.Verify.{RemotePaths, IsVerified, verify, verify-IsVerified}
use panpack.Baidu.Listing.Pages.{serve, list_dir-serve}

abbrev a_client : Client
a_client = record { block_size = 4; concurrency = 2; max_concurrency = 3; max_retries = 5 }

abbrev a_report : UploadStats
a_report = record {
  concurrency = 2;
  retries = 0;
  rate_limits = 0;
  duration = 1;
  rapid = false;
  size = 9;
  md5 = 109 ∷ [];
}

reports_example :
    IsBounded (reports (a_report ∷ a_report ∷ record a_report { rate_limits = 1 } ∷ []) a_client)
unfolding new_with_api
reports_example =
    reports-bounds 4 2 3 (a_report ∷ a_report ∷ record a_report { rate_limits = 1 } ∷ [])
      {c = a_client} refl

-- A request that fails twice, then counts its calls.
abbrev flaky : ℕ → Result ℕ × ℕ
flaky zero = (err (message "reset"), 1)
flaky (suc zero) = (err (message "reset"), 2)
flaky (suc (suc w)) = (ok w, suc (suc (suc w)))

abbrev no_limit : Error → Bool
no_limit e = false

abbrev undisturbed : ℕ → ℕ → Option Error × ℕ
undisturbed seconds w = (none, w)

abbrev running : ℕ → Option Error
running w = none

retry_example :
    IsSound running undisturbed flaky 5 0 0 0 0 (retry no_limit undisturbed 5 running flaky 0)
retry_example = retry-IsSound no_limit undisturbed running flaky 4 0

abbrev a_checksum : Bytes
a_checksum =
    b'0' ∷ b'1' ∷ b'2' ∷ b'3' ∷ b'4' ∷ b'5' ∷ b'6' ∷ b'7' ∷ b'8' ∷ b'9' ∷ b'a' ∷ b'b' ∷ b'c' ∷ b'd'
    ∷ b'e' ∷ b'f' ∷ b'0' ∷ b'1' ∷ b'2' ∷ b'3' ∷ b'4' ∷ b'5' ∷ b'6' ∷ b'7' ∷ b'8' ∷ b'9' ∷ b'a'
    ∷ b'b' ∷ b'c' ∷ b'd' ∷ b'e' ∷ b'f' ∷ []

are_hex : Bytes → Bool
are_hex [] = true
are_hex (c ∷ s) = is_lower_hex c && are_hex s

are_hex-All : (s : Bytes) → are_hex s ≡ true → All IsHex s
unfolding are_hex
are_hex-All [] h = tt
are_hex-All (c ∷ s) h = (ground arith, are_hex-All s (ground arith))

decode-encode_example :
    (encoded : Bytes) × (encode_baidu_md5 a_checksum ≡ ok encoded)
    × (decode_baidu_md5 encoded ≡ a_checksum)
unfolding are_hex
decode-encode_example = decode-encode a_checksum refl (are_hex-All a_checksum refl)

abbrev a_codec : Codec
a_codec = record { md5_hex = λ b. b; marshal = concat }

abbrev a_content : Bytes
a_content = 1 ∷ 2 ∷ 3 ∷ []

hash_file_example :
    (cut : List Bytes) × IsCut 2 a_content cut
    × (hash_file a_codec 2 (ok a_content)
        ≡ ok (report a_codec 2 (omega arith) (length a_content) a_content cut))
hash_file_example = hash_file-IsCut a_codec 2 (omega arith) a_content

abbrev an_entry : RemoteInfo
an_entry = record { fs_id = 1; path = "/apps/p/a"; name = "a"; size = 3; md5 = []; is_dir = false }

list_dir_example :
    list_dir (serve (an_entry ∷ [])) (length (an_entry ∷ []) + 1) ≡ some (ok (an_entry ∷ []))
list_dir_example = list_dir-serve (an_entry ∷ [])

abbrev whole_paths : RemotePaths
whole_paths = record {
  clean = λ p. p;
  is_absolute = λ p. true;
  is_under_apps = λ p. true;
  segments = λ p. 3;
  dir_of = λ p. "/apps/p";
  name_of = λ p. "a";
}

abbrev summed_entry : RemoteInfo
summed_entry = record an_entry { md5 = 97 ∷ [] }

-- One directory has the file, and all others nothing.
abbrev directories : String → List RemoteInfo
directories dir = if str_eq dir "/apps/p" then an_entry ∷ [] else []

directories-bounded : (dir : String) → length (directories dir) < 2
directories-bounded dir = ground arith

verify_example :
    IsVerified whole_paths a_codec
      (λ ids. ok (summed_entry ∷ []))
      directories
      "/apps/p/a"
      3
      (65 ∷ [])
      []
unfolding verify panpack.Baidu.Verify.remote_info panpack.Baidu.Listing.metadata
verify_example =
    verify-IsVerified whole_paths a_codec (λ ids. ok (summed_entry ∷ [])) directories 2
      directories-bounded "/apps/p/a" 3 (65 ∷ []) [] refl
