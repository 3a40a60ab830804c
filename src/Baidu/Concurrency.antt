-- ===== src/Baidu/Concurrency.antt =====
-- The client's adaptive number of upload workers: NewWithAPI and feedback of
-- internal/baidu/uploader.go.
use panpack.Base.{
  Bytes, ℕ, ◌+◌, ◌/◌, ◌≤◌, Bool, ◌&&◌, ◌||◌, ◌≡◌, arith, message, Result, ok, err, ltb, leb, ◌==◌,
  if◌then◌else◌, List, [], ◌∷◌,
}

-- The fields that change or bound the number of workers, and the retries of one request.
pub record Client : Type 0 where
  pub block_size : ℕ
  pub concurrency : ℕ
  pub max_concurrency : ℕ
  pub max_retries : ℕ

pub record UploadStats : Type 0 where
  pub concurrency : ℕ
  pub retries : ℕ
  pub rate_limits : ℕ
  pub duration : ℕ
  pub rapid : Bool
  pub size : ℕ
  pub md5 : Bytes

abbrev pub default_max_retries : ℕ
default_max_retries = 5

max_int : ℕ → ℕ → ℕ
max_int a b = if ltb b a then a else b

-- An API client is given: the source refuses a nil one first.
unfoldable pub new_with_api : ℕ → ℕ → ℕ → Result Client
new_with_api block_size initial max_concurrency =
    if block_size == 0
    then err (message "block size must be positive")
    else (let highest = if ltb max_concurrency 1 then 1 else max_concurrency in
        let first = if ltb initial 1 then 1 else initial in
        let first' = if ltb highest first then highest else first in
        ok (record {
          block_size = block_size;
          concurrency = first';
          max_concurrency = highest;
          max_retries = default_max_retries;
        }))

unfoldable pub feedback : UploadStats → Client → Client
unfolding max_int
feedback stats c =
    if ltb 0 stats.rate_limits || leb (max_int 2 (stats.concurrency / 2)) stats.retries
    then (let half = c.concurrency / 2 in record c { concurrency = if ltb half 1 then 1 else half })
    else if stats.retries == 0 && ltb c.concurrency c.max_concurrency
    then record c { concurrency = c.concurrency + 1 }
    else c

-- There is a worker, and no more of them than the policy allows.
pub record IsBounded (c : Client) : Type 0 where
  pub some_worker : 1 ≤ c.concurrency
  pub capped : c.concurrency ≤ c.max_concurrency

new_with_api-IsBounded :
    (block_size initial highest : ℕ) {c : Client}
    → new_with_api block_size initial highest ≡ ok c
    → IsBounded c
unfolding new_with_api
new_with_api-IsBounded b i h e = ground arith

feedback-IsBounded : (stats : UploadStats) (c : Client) → IsBounded c → IsBounded (feedback stats c)
unfolding feedback
feedback-IsBounded stats c h = ground arith

-- The uploads that one client makes, one report after another.
unfoldable pub reports : List UploadStats → Client → Client
unfolding feedback
reports [] c = c
reports (s ∷ ss) c = reports ss (feedback s c)

reports-IsBounded : (ss : List UploadStats) (c : Client) → IsBounded c → IsBounded (reports ss c)
unfolding reports
reports-IsBounded [] c h = h
reports-IsBounded (s ∷ ss) c h = reports-IsBounded ss (feedback s c) (feedback-IsBounded s c h)

-- A client that was created, whatever its uploads report one after another, keeps at least one
-- worker and at most the maximum it was created with.
pub reports-bounds :
    (block_size initial highest : ℕ) (ss : List UploadStats) {c : Client}
    → new_with_api block_size initial highest ≡ ok c
    → IsBounded (reports ss c)
reports-bounds b i h ss {c} e = reports-IsBounded ss c (new_with_api-IsBounded b i h e)
