-- ===== src/Baidu/Pool.antt =====
-- The upload workers: uploadBlocks of internal/baidu/uploader.go as a step relation. The goroutines
-- and the loop that feeds them take their steps in any order; the channel is not buffered, so a block
-- goes from the loop to a worker in one step; a worker that fails sends its error, cancels and returns in
-- one step.
pub mod Safe
pub mod Ends
pub mod Moves
use panpack.Base.{
  ℕ, zero, suc, ◌+◌, ◌*◌, ◌≡◌, refl, Bool, true, false, Option, none, some, Error, List, [], ◌∷◌,
  ltb, if◌then◌else◌, length,
}

-- A worker waits for a block, has received one, uploads it, or has returned.
pub data Worker : Type 0 where
  waiting stopped : Worker
  received uploading : ℕ → Worker

-- The loop is at the select with the blocks that are left, behind it, or has closed the channel.
pub data Feeder : Type 0 where
  sending checking : List ℕ → Feeder
  closed : Feeder

-- `ctx_err` is the error of the caller's context, `is_canceled` whether workCtx is done, `first_error`
-- what errCh holds, and `uploaded` the blocks that uploadBlock returned no error for.
pub record Pool : Type 0 where
  pub feeder : Feeder
  pub workers : List Worker
  pub ctx_err : Option Error
  pub is_canceled : Bool
  pub first_error : Option Error
  pub uploaded : List ℕ

abbrev pub keep_first : Option Error → Error → Option Error
keep_first none e = some e
keep_first (some e) e' = some e

abbrev pub waiting_workers : ℕ → List Worker
waiting_workers zero = []
waiting_workers (suc n) = waiting ∷ waiting_workers n

-- `if concurrency > len(missing)`
abbrev pub worker_count : ℕ → List ℕ → ℕ
worker_count concurrency missing =
    if ltb (length missing) concurrency then length missing else concurrency

abbrev pub start : ℕ → List ℕ → Pool
start concurrency missing = record {
  feeder = sending missing;
  workers = waiting_workers (worker_count concurrency missing);
  ctx_err = none;
  is_canceled = false;
  first_error = none;
  uploaded = [];
}

-- One worker of the list becomes another.
pub data Changes (a b : Worker) : List Worker → List Worker → Type 0 where
  here : {ws : List Worker} → Changes a b (a ∷ ws) (b ∷ ws)
  there : {w : Worker} {ws ws' : List Worker} → Changes a b ws ws' → Changes a b (w ∷ ws) (w ∷ ws')

-- `Uploads i r`: uploadBlock may return `r` for block `i`.
pub data Step (Uploads : ℕ → Option Error → Type 0) : Pool → Pool → Type 0 where
  send :
      {s : Pool} {i : ℕ} {left : List ℕ} {ws : List Worker}
      → s.feeder ≡ sending (i ∷ left)
      → Changes waiting (received i) s.workers ws
      → Step Uploads s (record s { feeder = checking left; workers = ws })
  -- The select takes the context's end, and its `break` leaves the select only.
  drop_block :
      {s : Pool} {i : ℕ} {left : List ℕ}
      → s.feeder ≡ sending (i ∷ left)
      → s.is_canceled ≡ true
      → Step Uploads s (record s { feeder = checking left })
  leave_loop :
      {s : Pool} {left : List ℕ}
      → s.feeder ≡ checking left
      → s.is_canceled ≡ true
      → Step Uploads s (record s { feeder = closed })
  next_block :
      {s : Pool} {left : List ℕ}
      → s.feeder ≡ checking left
      → s.is_canceled ≡ false
      → Step Uploads s (record s { feeder = sending left })
  end_loop : {s : Pool} → s.feeder ≡ sending [] → Step Uploads s (record s { feeder = closed })
  begin :
      {s : Pool} {i : ℕ} {ws : List Worker}
      → s.is_canceled ≡ false
      → Changes (received i) (uploading i) s.workers ws
      → Step Uploads s (record s { workers = ws })
  quit :
      {s : Pool} {i : ℕ} {ws : List Worker}
      → s.is_canceled ≡ true
      → Changes (received i) stopped s.workers ws
      → Step Uploads s (record s { workers = ws })
  succeed :
      {s : Pool} {i : ℕ} {ws : List Worker}
      → Uploads i none
      → Changes (uploading i) waiting s.workers ws
      → Step Uploads s (record s { workers = ws; uploaded = i ∷ s.uploaded })
  fail :
      {s : Pool} {i : ℕ} {e : Error} {ws : List Worker}
      → Uploads i (some e)
      → Changes (uploading i) stopped s.workers ws
      → Step Uploads s
          (record s { workers = ws; first_error = keep_first s.first_error e; is_canceled = true })
  -- The range over a closed channel ends.
  return :
      {s : Pool} {ws : List Worker}
      → s.feeder ≡ closed
      → Changes waiting stopped s.workers ws
      → Step Uploads s (record s { workers = ws })
  cancel :
      {s : Pool} {e : Error}
      → s.ctx_err ≡ none
      → Step Uploads s (record s { ctx_err = some e; is_canceled = true })

-- A number of steps from a pool to another.
pub data Steps (Uploads : ℕ → Option Error → Type 0) (s : Pool) : ℕ → Pool → Type 0 where
  no_step : Steps Uploads s 0 s
  step : {k : ℕ} {t u : Pool} → Steps Uploads s k t → Step Uploads t u → Steps Uploads s (suc k) u

abbrev pub AllStopped : List Worker → Type 0
AllStopped [] = Unit
AllStopped (w ∷ ws) = (w ≡ stopped) × AllStopped ws

-- wg.Wait has returned.
pub record IsOver (s : Pool) : Type 0 where
  pub no_more : s.feeder ≡ closed
  pub returned : AllStopped s.workers

-- What uploadBlocks returns then.
abbrev pub outcome_of : Option Error → Option Error → Option Error
outcome_of (some e) ctx_err = some e
outcome_of none ctx_err = ctx_err

abbrev pub outcome : Pool → Option Error
outcome s = outcome_of s.first_error s.ctx_err
