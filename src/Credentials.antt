-- ===== src/Credentials.antt =====
-- The credentials and where they are found: internal/credentials/credentials.go. Credentials are
-- documents of a disk; times are Unix seconds. The environment is a record of what the code reads.
pub mod Found
use panpack.Base.{
  ℕ, ◌+◌, ◌-◌, ◌<>◌, String, str_eq, Bool, true, false, not, ◌&&◌, ◌||◌, Option, none, some, Error,
  not_exist, message, is_not_exist, Result, ok, err, ◌>>=◌, ◌>>◌, fail_if, ltb, leb, ◌==◌,
  if◌then◌else◌, List, [], ◌∷◌, ◌++◌,
}
use panpack.Files.{Content, torn, whole, Disk, Outcomes, write_atomic}

pub record Credentials : Type 0 where
  pub access_token : String
  pub refresh_token : String
  pub app_key : String
  pub secret_key : String
  pub expires_at : ℕ
  pub expires_in : ℕ
  pub scope : String

-- The variables PANPACK_ACCESS_TOKEN and PANPACK_TOKEN_FILE, the home directory, the clock, and the
-- functions of path/filepath.
pub record Environment : Type 0 where
  pub access_token : String
  pub token_file : String
  pub home : String
  pub now : ℕ
  pub clean : String → String
  pub default_path : String → String
  pub bypy_path : String → String

unfoldable pub expiry : Credentials → ℕ
expiry c = if c.expires_at == 0 && ltb 1000000000 c.expires_in then c.expires_in else c.expires_at

-- `Expired`: a minute before the time, where one is known.
unfoldable pub is_expired : Credentials → ℕ → Bool
unfolding expiry
is_expired c now = ltb 0 (expiry c) && leb (expiry c) (now + 60)

pub decoded : Option (Content Credentials) → Result Credentials
decoded none = err not_exist
decoded (some torn) = err (message "decode credentials")
decoded (some (whole c)) =
    if str_eq c.access_token "" then err (message "credentials contain no access_token") else ok c

-- `LoadUnchecked`
unfoldable pub load_unchecked : String → Disk Credentials → Result Credentials
unfolding decoded
load_unchecked path d = decoded (d path)

-- `Load`
unfoldable pub load : ℕ → String → Disk Credentials → Result Credentials
load now path d = load_unchecked path d >>= λ c.
    (fail_if (is_expired c now) (message "credentials have expired") >> ok c)

pub member : String → List String → Bool
member x [] = false
member x (y ∷ ys) = str_eq x y || member x ys

-- The files that are looked at, in their order.
unfoldable pub candidates : Environment → String → List String
candidates env explicit =
    (if str_eq explicit "" then [] else explicit ∷ [])
    ++ (if str_eq env.token_file "" then [] else env.token_file ∷ [])
    ++ (if str_eq env.home "" then [] else env.default_path env.home ∷ env.bypy_path env.home ∷ [])

abbrev pub no_credentials : Error
no_credentials = message "no credentials found"

-- One candidate that has not been seen: found, missing, or unusable.
pub try_next :
    String → Result Credentials → Result (Credentials × String) → Result (Credentials × String)
try_next path (ok c) rest = ok (c, path)
try_next path (err e) rest = if is_not_exist e then rest else err e

-- The loop of `Discover` over the candidates.
pub discover_loop :
    Environment → Disk Credentials → List String → List String → Result (Credentials × String)
unfolding member try_next
discover_loop env d seen [] = err no_credentials
discover_loop env d seen (p ∷ ps) =
    let path = env.clean p in
    let skipped = discover_loop env d seen ps in
    let rest = discover_loop env d (path ∷ seen) ps in
    if member path seen then skipped else try_next path (load env.now path d) rest

-- The credentials of the variable alone.
abbrev pub token_of : String → Credentials
token_of token = record {
  access_token = token;
  refresh_token = "";
  app_key = "";
  secret_key = "";
  expires_at = 0;
  expires_in = 0;
  scope = "";
}

-- `Discover`
unfoldable pub discover : Environment → String → Disk Credentials → Result (Credentials × String)
unfolding discover_loop
discover env explicit d =
    if not (str_eq env.access_token "")
    then ok (token_of env.access_token, "PANPACK_ACCESS_TOKEN")
    else discover_loop env d [] (candidates env explicit)

-- The save, on whether the token is empty and how the creation of the directory ends.
pub save_if :
    String
    → Credentials
    → Outcomes
    → Disk Credentials
    → Bool
    → Option Error
    → Option Error × Disk Credentials
save_if path c io d true mkdir = (some (message "refusing to save empty access token"), d)
save_if path c io d false (some e) = (some e, d)
save_if path c io d false none = write_atomic (path <> ".tmp") path c io d

-- `Save`
unfoldable pub save :
    String
    → Credentials
    → Option Error
    → Outcomes
    → Disk Credentials
    → Option Error × Disk Credentials
unfolding save_if
save path c mkdir io d = save_if path c io d (str_eq c.access_token "") mkdir
