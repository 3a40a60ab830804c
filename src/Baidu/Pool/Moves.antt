-- ===== src/Baidu/Pool/Moves.antt =====
-- The upload workers are never stuck: uploadBlocks of internal/baidu/uploader.go has a step to take
-- until all of its goroutines have returned.
use panpack.Base.{
  ℕ, zero, suc, ◌+◌, ◌*◌, ◌≤◌, ◌≡◌, ◌≢◌, ◌⊎◌, inl, inr, refl, sym, subst, ap, arith, true,
  Bool-cases, Option, none, some, Error, List, [], ◌∷◌, length, Mem, at_head, in_tail,
}
use panpack.Baidu.Pool.{
  Worker, waiting, stopped, received, uploading, Feeder, sending, checking, closed, Pool,
  waiting_workers, worker_count, start, Changes, here, there, Step, send, drop_block, leave_loop,
  next_block, end_loop, begin, quit, succeed, fail, return, cancel, Steps, no_step, step,
  AllStopped, IsOver,
}
use panpack.Baidu.Pool.Ends.{Steps-bound}

-- A worker has returned only for a reason.
abbrev HasReason : Pool → Type 0
HasReason s = (s.is_canceled ≡ true) ⊎ (s.feeder ≡ closed)

record IsStaffed (s : Pool) : Type 0 where
  staffed : 1 ≤ length s.workers
  reason : Mem stopped s.workers → HasReason s

length-change : {a b : Worker} {ws ws' : List Worker} → Changes a b ws ws' → length ws' ≡ length ws
length-change here = refl
length-change (there c) = ap suc (length-change c)

Mem-change :
    {a b : Worker} {ws ws' : List Worker} (w : Worker)
    → Changes a b ws ws'
    → Mem w ws'
    → (w ≡ b) ⊎ Mem w ws
Mem-change w here at_head = inl refl
Mem-change w here (in_tail m) = inr (in_tail m)
Mem-change w (there c) at_head = inr at_head
Mem-change w (there c) (in_tail m) = elim (Mem-change w c m) [
  | inl e ↦ inl e
  | inr n ↦ inr (in_tail n)
]

Mem-Changes :
    {a : Worker} {ws : List Worker} (b : Worker)
    → Mem a ws
    → (ws' : List Worker) × Changes a b ws ws'
Mem-Changes {ws = []} b m = elim m [ ]
Mem-Changes {ws = a ∷ ws} b at_head = (b ∷ ws, here)
Mem-Changes {ws = w ∷ ws} b (in_tail m) = let (ws', c) = Mem-Changes b m in (w ∷ ws', there c)

-- What a look at the workers finds.
data Look (ws : List Worker) : Type 0 where
  one_received : {i : ℕ} → Mem (received i) ws → Look ws
  one_uploading : {i : ℕ} → Mem (uploading i) ws → Look ws
  one_waiting : Mem waiting ws → Look ws
  all_stopped : AllStopped ws → Look ws

Look-further : (w : Worker) (ws : List Worker) → w ≡ stopped → Look ws → Look (w ∷ ws)
Look-further w ws e (one_received m) = one_received (in_tail m)
Look-further w ws e (one_uploading m) = one_uploading (in_tail m)
Look-further w ws e (one_waiting m) = one_waiting (in_tail m)
Look-further w ws e (all_stopped a) = all_stopped (e, a)

look : (ws : List Worker) → Look ws
look [] = all_stopped tt
look (waiting ∷ ws) = one_waiting at_head
look (stopped ∷ ws) = Look-further stopped ws refl (look ws)
look (received i ∷ ws) = one_received at_head
look (uploading i ∷ ws) = one_uploading at_head

stopped_one : (ws : List Worker) → 1 ≤ length ws → AllStopped ws → Mem stopped ws
stopped_one [] h a = absurd (omega arith)
stopped_one (w ∷ ws) h (e, a) = subst (λ x. Mem stopped (x ∷ ws)) (sym e) at_head

-- Before the channel is closed there is one reason only.
open_reason : (s : Pool) → (s.feeder ≢ closed) → HasReason s → s.is_canceled ≡ true
open_reason s running (inl canceled) = canceled
open_reason s running (inr over) = absurd (running over)

length-waiting_workers : (n : ℕ) → length (waiting_workers n) ≡ n
length-waiting_workers zero = refl
length-waiting_workers (suc n) = ap suc (length-waiting_workers n)

some_one :
    (concurrency : ℕ) (missing : List ℕ)
    → 1 ≤ concurrency
    → 1 ≤ length missing
    → 1 ≤ length (waiting_workers (worker_count concurrency missing))
some_one concurrency missing some_worker some_block =
    let n : length (waiting_workers (worker_count concurrency missing))
        ≡ worker_count concurrency missing =
      length-waiting_workers (worker_count concurrency missing) in
    let h : 1 ≤ worker_count concurrency missing = ground arith in omega arith

waiting-stopped : (n : ℕ) → Mem stopped (waiting_workers n) → ⊥
waiting-stopped (suc n) (in_tail m) = waiting-stopped n m
waiting-stopped zero m = elim m [ ]

module _ (Uploads : ℕ → Option Error → Type 0) where
  staffed-change :
      {a b : Worker} {ws ws' : List Worker} → Changes a b ws ws' → 1 ≤ length ws → 1 ≤ length ws'
  staffed-change c h = omega (arith, length-change c)

  -- A worker that becomes one that has not returned.
  still-IsStaffed :
      {a b : Worker} {ws : List Worker} (s t : Pool)
      → IsStaffed s
      → Changes a b s.workers ws
      → t.workers ≡ ws
      → (b ≡ stopped → HasReason t)
      → (HasReason s → HasReason t)
      → IsStaffed t
  still-IsStaffed s t k c e stop later = record {
    staffed = subst (λ ws. 1 ≤ length ws) (sym e) (staffed-change c k.staffed);
    reason = λ m. elim (Mem-change stopped c (subst (Mem stopped) e m)) [
      | inl same ↦ stop (sym same)
      | inr n ↦ later (k.reason n)
    ];
  }

  step-IsStaffed : {s t : Pool} → Step Uploads s t → IsStaffed s → IsStaffed t
  step-IsStaffed (send {s} at c) k =
      still-IsStaffed s _ k c refl (λ e. absurd cc) (λ r. inl (open_reason s (λ f. cc) r))
  step-IsStaffed (drop_block {s} at canceled) k = record {
    staffed = k.staffed;
    reason = λ m. inl canceled;
  }
  step-IsStaffed (leave_loop {s} at canceled) k = record {
    staffed = k.staffed;
    reason = λ m. inl canceled;
  }
  step-IsStaffed (next_block {s} at free) k = record {
    staffed = k.staffed;
    reason = λ m. inl (open_reason s (λ f. cc) (k.reason m));
  }
  step-IsStaffed (end_loop {s} at) k = record { staffed = k.staffed; reason = λ m. inr refl }
  step-IsStaffed (begin {s} free c) k = still-IsStaffed s _ k c refl (λ e. absurd cc) (λ r. r)
  step-IsStaffed (quit {s} canceled c) k =
      still-IsStaffed s _ k c refl (λ e. inl canceled) (λ r. inl canceled)
  step-IsStaffed (succeed {s} good c) k = still-IsStaffed s _ k c refl (λ e. absurd cc) (λ r. r)
  step-IsStaffed (fail {s} bad c) k = still-IsStaffed s _ k c refl (λ e. inl refl) (λ r. inl refl)
  step-IsStaffed (return {s} over c) k = still-IsStaffed s _ k c refl (λ e. inr over) (λ r. r)
  step-IsStaffed (cancel {s} at) k = record { staffed = k.staffed; reason = λ m. inl refl }

  start-IsStaffed :
      (concurrency : ℕ) (missing : List ℕ)
      → 1 ≤ concurrency
      → 1 ≤ length missing
      → IsStaffed (start concurrency missing)
  start-IsStaffed concurrency missing some_worker some_block = record {
    staffed = some_one concurrency missing some_worker some_block;
    reason = λ m. absurd (waiting-stopped (worker_count concurrency missing) m);
  }

  Steps-IsStaffed : {s t : Pool} {k : ℕ} → Steps Uploads s k t → IsStaffed s → IsStaffed t
  Steps-IsStaffed no_step h = h
  Steps-IsStaffed (step before last) h = step-IsStaffed last (Steps-IsStaffed before h)

  -- A step of the workers or of the loop that feeds them: the context of the caller is as before.
  abbrev pub GoesOn : Pool → Type 0
  GoesOn s = (t : Pool) × (Step Uploads s t × (t.ctx_err ≡ s.ctx_err))

  module _ (answers : (i : ℕ) → (r : Option Error) × Uploads i r) where
    uploaded_one :
        (s : Pool) (i : ℕ) (r : Option Error) → Uploads i r → Mem (uploading i) s.workers → GoesOn s
    uploaded_one s i none u m = let (ws, c) = Mem-Changes waiting m in (_, (succeed u c, refl))
    uploaded_one s i (some e) u m = let (ws, c) = Mem-Changes stopped m in (_, (fail u c, refl))

    received_one : (s : Pool) (i : ℕ) → Mem (received i) s.workers → GoesOn s
    received_one s i m = elim (Bool-cases s.is_canceled) [
      | inl canceled ↦ let (ws, c) = Mem-Changes stopped m in (_, (quit canceled c, refl))
      | inr free ↦ let (ws, c) = Mem-Changes (uploading i) m in (_, (begin free c, refl))
    ]

    waiting_one : (s : Pool) (f : Feeder) → s.feeder ≡ f → Mem waiting s.workers → GoesOn s
    waiting_one s (sending []) at m = (_, (end_loop at, refl))
    waiting_one s (sending (i ∷ left)) at m =
        let (ws, c) = Mem-Changes (received i) m in (_, (send at c, refl))
    waiting_one s (checking left) at m = elim (Bool-cases s.is_canceled) [
      | inl canceled ↦ (_, (leave_loop at canceled, refl))
      | inr free ↦ (_, (next_block at free, refl))
    ]
    waiting_one s closed at m = let (ws, c) = Mem-Changes stopped m in (_, (return at c, refl))

    nobody_left :
        (s : Pool) (f : Feeder)
        → s.feeder ≡ f
        → IsStaffed s
        → AllStopped s.workers
        → IsOver s ⊎ GoesOn s
    nobody_left s (sending []) at k a = inr (_, (end_loop at, refl))
    nobody_left s (sending (i ∷ left)) at k a = inr (
      _,
      (
        drop_block at (open_reason s (λ f. cc) (k.reason (stopped_one s.workers k.staffed a))),
        refl,
      ),
    )
    nobody_left s (checking left) at k a = inr (
      _,
      (
        leave_loop at (open_reason s (λ f. cc) (k.reason (stopped_one s.workers k.staffed a))),
        refl,
      ),
    )
    nobody_left s closed at k a = inl (record { no_more = at; returned = a })

    moves_on : (s : Pool) → IsStaffed s → Look s.workers → IsOver s ⊎ GoesOn s
    moves_on s k (one_received {i} m) = inr (received_one s i m)
    moves_on s k (one_uploading {i} m) = inr (uploaded_one s i (answers i).0 (answers i).1 m)
    moves_on s k (one_waiting m) = inr (waiting_one s s.feeder refl m)
    moves_on s k (all_stopped a) = nobody_left s s.feeder refl k a

    -- With at least one worker and one block, and where each upload of a block returns: however the
    -- workers take turns, after four steps at most for each block, one for each worker and two more no
    -- step is left, and until all have returned a worker or the loop that feeds them has a step to take,
    -- without the context of the caller ending.
    pub Steps-end :
        (concurrency : ℕ) (missing : List ℕ) {k : ℕ} {s : Pool}
        → 1 ≤ concurrency
        → 1 ≤ length missing
        → Steps Uploads (start concurrency missing) k s
        → (k ≤ 4 * length missing + worker_count concurrency missing + 2) × (IsOver s ⊎ GoesOn s)
    Steps-end concurrency missing {s = s} some_worker some_block steps = (
      Steps-bound Uploads concurrency missing steps,
      moves_on s
          (Steps-IsStaffed steps (start-IsStaffed concurrency missing some_worker some_block))
          (look s.workers),
    )
