-- ===== src/Baidu/Listing.antt =====
-- The paged listing of a remote directory, the batched request of metadata, and the check of a
-- remote file against them: ListDir, Metadata, RemoteInfo and Verify of
-- internal/baidu/uploader.go. The requests, each behind the retry loop, are functions given.
pub mod Pages
use panpack.Base.{
  ℕ, zero, suc, ◌+◌, ◌-◌, ◌≤◌, ◌<◌, Bool, true, false, not, ◌&&◌, ◌||◌, ◌≡◌, refl, arith, Option,
  none, some, Error, message, wrapped, remote_not_found, Result, ok, err, ◌>>=◌, ltb, leb, ◌==◌,
  if◌then◌else◌, List, [], ◌∷◌, ◌++◌, Bytes, length, take, drop, String, str_eq,
}
use panpack.Baidu.Checksum.{Codec, remote_md5_matches}

pub record RemoteInfo : Type 0 where
  pub fs_id : ℕ
  pub path : String
  pub name : String
  pub size : ℕ
  pub md5 : Bytes
  pub is_dir : Bool

-- One page of the listing: the entries from `start`, `limit` of them at most.
abbrev pub Lister : Type 0
Lister = ℕ → ℕ → Result (List RemoteInfo)

abbrev pub page_limit : ℕ
page_limit = 1000

-- The loop of `ListDir` from `start`, with what was listed before. `none`: the fuel ran out.
list_loop : Lister → ℕ → ℕ → List RemoteInfo → Option (Result (List RemoteInfo))
list_loop page zero start result = none
list_loop page (suc fuel) start result = elim (page start page_limit) [
  | err e ↦ some (err (wrapped "list remote directory" e))
  | ok listing ↦
      (let next = list_loop page fuel (start + length listing) (result ++ listing) in
        if ltb (length listing) page_limit then some (ok (result ++ listing)) else next)
]

-- `ListDir`, of a directory whose path is valid.
unfoldable pub list_dir : Lister → ℕ → Option (Result (List RemoteInfo))
unfolding list_loop
list_dir page fuel = list_loop page fuel 0 []

-- Metadata: the file ids without repetition, refusing any that is not positive.
member : ℕ → List ℕ → Bool
member x [] = false
member x (y ∷ ys) = x == y || member x ys

unique_from : List ℕ → List ℕ → Result (List ℕ)
unfolding member
unique_from [] unique = ok unique
unique_from (id ∷ ids) unique =
    let rest = unique_from ids (if member id unique then unique else unique ++ (id ∷ [])) in
    if id == 0 then err (message "invalid remote fs_id") else rest

abbrev pub batch_limit : ℕ
batch_limit = 100

-- The batches of at most a hundred ids that are asked for. `none`: the fuel ran out.
batches : ℕ → List ℕ → Option (List (List ℕ))
batches zero ids = none
batches (suc fuel) [] = some []
batches (suc fuel) (id ∷ ids) = elim (batches fuel (drop batch_limit (id ∷ ids))) [
  | none ↦ none
  | some rest ↦ some (take batch_limit (id ∷ ids) ∷ rest)
]

abbrev pub Metadata : Type 0
Metadata = ℕ → Option RemoteInfo

-- result[item.FsID] = …, for each item of an answer.
store_items : List RemoteInfo → Metadata → Metadata
store_items [] found = found
store_items (item ∷ items) found =
    store_items items (λ id. if item.fs_id == id then some item else found id)

fetch : (List ℕ → Result (List RemoteInfo)) → List (List ℕ) → Metadata → Result Metadata
unfolding store_items
fetch meta [] found = ok found
fetch meta (batch ∷ rest) found = do items ← meta batch; fetch meta rest (store_items items found)

fetch_all : (List ℕ → Result (List RemoteInfo)) → Option (List (List ℕ)) → Result Metadata
unfolding fetch
fetch_all meta none = err (message "out of fuel")
fetch_all meta (some bs) = fetch meta bs (λ id. none)

unfoldable pub metadata : (List ℕ → Result (List RemoteInfo)) → List ℕ → Result Metadata
unfolding unique_from batches fetch_all
metadata meta ids = do
  unique ← unique_from ids []
  fetch_all meta (batches (length unique + 1) unique)
