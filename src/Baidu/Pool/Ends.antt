-- ===== src/Baidu/Pool/Ends.antt =====
-- The upload workers always end: uploadBlocks of internal/baidu/uploader.go.
use panpack.Base.{
  ℕ, zero, suc, ◌+◌, ◌*◌, ◌<◌, ◌≤◌, ◌≡◌, refl, ap, arith, Option, none, some, Error, List, [], ◌∷◌,
  length,
}
use panpack.Baidu.Pool.{
  Worker, waiting, stopped, received, uploading, Feeder, sending, checking, closed, Pool,
  waiting_workers, worker_count, start, Changes, here, there, Step, send, drop_block, leave_loop,
  next_block, end_loop, begin, quit, succeed, fail, return, cancel, Steps, no_step, step,
}

-- How many steps are left at most.
abbrev of_worker : Worker → ℕ
of_worker waiting = 1
of_worker stopped = 0
of_worker (received i) = 3
of_worker (uploading i) = 2

abbrev of_workers : List Worker → ℕ
of_workers [] = 0
of_workers (w ∷ ws) = of_worker w + of_workers ws

abbrev of_feeder : Feeder → ℕ
of_feeder (sending left) = 1 + 4 * length left
of_feeder (checking left) = 2 + 4 * length left
of_feeder closed = 0

abbrev of_context : Option Error → ℕ
of_context none = 1
of_context (some e) = 0

unfoldable pub steps_left : Pool → ℕ
steps_left s = of_feeder s.feeder + (of_workers s.workers + of_context s.ctx_err)

of_workers-change :
    {a b : Worker} {ws ws' : List Worker}
    → Changes a b ws ws'
    → of_workers ws' + of_worker a ≡ of_workers ws + of_worker b
of_workers-change here = omega arith
of_workers-change (there c) = omega (arith, of_workers-change c)

of_workers-waiting : (n : ℕ) → of_workers (waiting_workers n) ≡ n
of_workers-waiting zero = refl
of_workers-waiting (suc n) = omega (arith, of_workers-waiting n)

module _ (Uploads : ℕ → Option Error → Type 0) where
  step-decreases : {s t : Pool} → Step Uploads s t → steps_left t < steps_left s
  unfolding steps_left
  step-decreases (send {s} {i} {left} at c) = omega (arith, of_workers-change c, ap of_feeder at)
  step-decreases (drop_block {s} at canceled) = omega (arith, ap of_feeder at)
  step-decreases (leave_loop {s} at canceled) = omega (arith, ap of_feeder at)
  step-decreases (next_block {s} at free) = omega (arith, ap of_feeder at)
  step-decreases (end_loop {s} at) = omega (arith, ap of_feeder at)
  step-decreases (begin {s} free c) = omega (arith, of_workers-change c)
  step-decreases (quit {s} canceled c) = omega (arith, of_workers-change c)
  step-decreases (succeed {s} good c) = omega (arith, of_workers-change c)
  step-decreases (fail {s} bad c) = omega (arith, of_workers-change c)
  step-decreases (return {s} over c) = omega (arith, of_workers-change c)
  step-decreases (cancel {s} at) = omega (arith, ap of_context at)

  Steps-bounded : {s t : Pool} {k : ℕ} → Steps Uploads s k t → k + steps_left t ≤ steps_left s
  Steps-bounded no_step = omega arith
  Steps-bounded (step before last) = omega (arith, Steps-bounded before, step-decreases last)

  pub Steps-bound :
      (concurrency : ℕ) (missing : List ℕ) {k : ℕ} {s : Pool}
      → Steps Uploads (start concurrency missing) k s
      → k ≤ 4 * length missing + worker_count concurrency missing + 2
  unfolding steps_left
  Steps-bound concurrency missing steps =
      omega (arith, Steps-bounded steps, of_workers-waiting (worker_count concurrency missing))
