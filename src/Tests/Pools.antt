-- ===== src/Tests/Pools.antt =====
-- The theorems on uploads and their workers, at concrete values: one worker uploads one block.
use panpack.Base.{
  ℕ, zero, suc, ◌+◌, ◌*◌, ◌≤◌, ◌≡◌, ◌⊎◌, refl, sym, subst, arith, String, Bool, true, false,
  Bool-cases, inl, inr, Option, none, some, Error, canceled, message, Result, ok, err, ◌==◌, ==_iff,
  if◌then◌else◌, List, [], ◌∷◌, Bytes, length, Mem, at_head,
}
use panpack.Base.Chunks.{concat}
use panpack.Base.Int.{pos}
use panpack.Baidu.Checksum.{Codec}
use panpack.Baidu.Listing.{RemoteInfo}
use panpack.Baidu.Listing.Pages.{serve}
use panpack.Baidu.Verify.{RemotePaths, Requests}
use panpack.Baidu.Pool.{
  Pool, stopped, closed, start, worker_count, here, send, next_block, end_loop, begin, succeed,
  return, Steps, no_step, step, IsOver, outcome,
}
use panpack.Baidu.Pool.Safe.{uploaded-all}
use panpack.Baidu.Pool.Moves.{Steps-end, GoesOn}
use panpack.Baidu.Upload.{Api, Precreated, Created, UploadState, upload, upload_block}
use panpack.Baidu.Upload.Checked.{UploadsBlock, IsUploaded, upload-IsUploaded}
use panpack.Baidu.Upload.Block.{IsSent, upload_block-IsSent}

abbrev zeros : List ℕ
zeros = 0 ∷ []

-- Every upload of a block succeeds.
abbrev Succeeds : ℕ → Option Error → Type 0
Succeeds i r = r ≡ none

abbrev last_pool : Pool
last_pool = record {
  feeder = closed;
  workers = stopped ∷ [];
  ctx_err = none;
  is_canceled = false;
  first_error = none;
  uploaded = 0 ∷ [];
}

one_block :
    (Uploads : ℕ → Option Error → Type 0)
    → Uploads 0 none
    → Steps Uploads (start 1 (0 ∷ [])) 6 last_pool
one_block Uploads well =
    step
      (step
        (step (step (step (step no_step (send refl here)) (begin refl here)) (next_block refl refl))
          (end_loop refl))
        (succeed well here))
      (return refl here)

last_pool-IsOver : IsOver last_pool
last_pool-IsOver = record { no_more = refl; returned = (refl, tt) }

uploaded-all_example : Mem 0 zeros × Succeeds 0 none
uploaded-all_example =
    uploaded-all Succeeds (0 ∷ []) 1 {k = 6} {s = last_pool} (one_block Succeeds refl)
      last_pool-IsOver refl 0 at_head

Steps-end_example :
    (6 ≤ 4 * length zeros + worker_count 1 zeros + 2)
    × (IsOver last_pool ⊎ GoesOn Succeeds last_pool)
Steps-end_example =
    Steps-end Succeeds (λ i. (none, refl)) 1 (0 ∷ []) {k = 6} {s = last_pool} (omega arith)
      (omega arith) (one_block Succeeds refl)

abbrev whole_paths : RemotePaths
whole_paths = record {
  clean = λ p. p;
  is_absolute = λ p. true;
  is_under_apps = λ p. true;
  segments = λ p. 3;
  dir_of = λ p. "/apps/p";
  name_of = λ p. "a";
}

abbrev a_codec : Codec
a_codec = record { md5_hex = λ b. b; marshal = concat }

abbrev an_entry : RemoteInfo
an_entry = record {
  fs_id = 1;
  path = "/apps/p/a";
  name = "a";
  size = 1;
  md5 = 65 ∷ [];
  is_dir = false;
}

-- Workers that end well with one block to upload and one worker.
run_workers : String → String → ℕ → List Bytes → ℕ → List ℕ → ℕ → (ℕ × (ℕ × Option Error)) × ℕ
run_workers p u size blocks c [] w = ((0, (0, some canceled)), w)
run_workers p u size blocks c (zero ∷ []) w =
    ((0, (0, (if c == 1 then none else some canceled))), suc w)
run_workers p u size blocks c (zero ∷ (j ∷ js)) w = ((0, (0, some canceled)), w)
run_workers p u size blocks c (suc i ∷ is) w = ((0, (0, some canceled)), w)

abbrev an_api : Api ℕ
an_api = record {
  ctx_err = λ w. none;
  is_limit = λ e. false;
  sleep = λ seconds w. (none, w);
  precreate = λ p size blocks w.
      (ok (record { return_type = 1; upload_id = "u"; block_list = pos 0 ∷ [] }), suc w);
  create_file = λ u p size blocks w. (ok (record { size = 1; md5 = [] }), suc w);
  slice_upload = λ p u i buf w. (ok buf, suc w);
  mkdir = λ p w. (none, w);
  is_existing = λ e. false;
  local_size = λ w. ok 1;
  open_file = λ w. none;
  read_at = λ offset size w. ok (65 ∷ []);
  run_workers = run_workers;
  requests = λ w. record { pages = λ dir. serve (an_entry ∷ []); meta = λ ids. ok (an_entry ∷ []) };
  since = λ w. w;
  sort = λ is. is;
}

abbrev first_state : UploadState ℕ
first_state = record {
  client = record { block_size = 4; concurrency = 1; max_concurrency = 3; max_retries = 5 };
  stats = record {
    concurrency = 0;
    retries = 0;
    rate_limits = 0;
    duration = 0;
    rapid = false;
    size = 0;
    md5 = [];
  };
  remote = 0;
}

-- The uploads of the block in every upload of this file.
abbrev Uploads : String → ℕ → Option Error → Type 0
Uploads id = UploadsBlock whole_paths a_codec an_api 2 "/apps/p/a" id 1 ((65 ∷ []) ∷ [])

uploads_block : (id : String) → Uploads id 0 none
unfolding upload_block panpack.Base.Programs.continue panpack.Base.Programs.unless
    panpack.Baidu.Checksum.equal_fold panpack.Baidu.Retry.retry
uploads_block id = (65 ∷ [], (first_state, (refl, refl)))

abbrev PoolRun : String → ℕ → List ℕ → Type 0
PoolRun id c missing =
    (k : ℕ) × ((s : Pool) × (Steps (Uploads id) (start c missing) k s
        × (IsOver s × (outcome s ≡ none))))

one_worker :
    (id : String) (c : ℕ) → (if c == 1 then none else some canceled) ≡ none → PoolRun id c (0 ∷ [])
one_worker id c e = elim (Bool-cases (c == 1)) [
  | inl one ↦
      subst (λ n. PoolRun id n (0 ∷ [])) (sym ((==_iff c 1).0 one))
        (6, (last_pool, (one_block (Uploads id) (uploads_block id), (last_pool-IsOver, refl))))
  | inr other ↦
      let bad : some canceled ≡ none =
        subst (λ b. (if b then none else some canceled) ≡ none) other e in
      cc
]

pool_runs :
    (id : String) (c : ℕ) (missing : List ℕ) (w : ℕ)
    → (run_workers "/apps/p/a" id 1 ((65 ∷ []) ∷ []) c missing w).0.1.1 ≡ none
    → PoolRun id c missing
unfolding run_workers
pool_runs id c [] w e = cc
pool_runs id c (zero ∷ []) w e = one_worker id c e
pool_runs id c (zero ∷ (j ∷ js)) w e = cc
pool_runs id c (suc i ∷ is) w e = cc

abbrev uploaded_state : UploadState ℕ
uploaded_state =
    (upload whole_paths a_codec an_api 2 "/apps/p/a" 1 (65 ∷ []) ((65 ∷ []) ∷ []) first_state).1

upload-IsUploaded_example :
    IsUploaded whole_paths a_codec an_api 2 "/apps/p/a" 1
      (65 ∷ [])
      ((65 ∷ []) ∷ [])
      pool_runs
      first_state.client
      uploaded_state
    × (an_api.local_size 0 ≡ ok 1)
unfolding upload run_workers panpack.Base.Programs.continue panpack.Base.Programs.lift
    panpack.Baidu.Verify.validate_remote_path panpack.Base.Programs.unless
    panpack.Base.Programs.returned panpack.Baidu.Verify.verify panpack.Baidu.Retry.retry
    panpack.Baidu.Checksum.remote_md5_matches panpack.Baidu.Upload.feed
upload-IsUploaded_example =
    upload-IsUploaded whole_paths a_codec an_api 2 "/apps/p/a" 1 (65 ∷ []) ((65 ∷ []) ∷ [])
      pool_runs first_state uploaded_state refl

upload_block-IsSent_example :
    IsSent whole_paths a_codec an_api 2 "/apps/p/a" "u" 1 0 (65 ∷ []) first_state
unfolding upload_block panpack.Base.Programs.continue panpack.Base.Programs.unless
    panpack.Baidu.Checksum.equal_fold panpack.Baidu.Retry.retry
upload_block-IsSent_example =
    upload_block-IsSent whole_paths a_codec an_api 2 "/apps/p/a" "u" 1 0 (65 ∷ []) first_state refl
