-- ===== src/Baidu/Pool/Safe.antt =====
-- What the upload workers have done when uploadBlocks of internal/baidu/uploader.go returns no error.
use panpack.Base.{
  ℕ, ◌≡◌, ◌≢◌, ◌⊎◌, inl, inr, refl, sym, subst, true, false, Option, none, some, Error, List, [],
  ◌∷◌, Bool-cases, Mem, at_head, in_tail, All,
}
use panpack.Baidu.Pool.{
  Worker, waiting, stopped, received, uploading, Feeder, sending, checking, closed, Pool,
  keep_first, start, Changes, here, there, Step, send, drop_block, leave_loop, next_block, end_loop,
  begin, quit, succeed, fail, return, cancel, Steps, no_step, step, AllStopped, IsOver, outcome,
  outcome_of,
}

abbrev queued : Feeder → List ℕ
queued (sending left) = left
queued (checking left) = left
queued closed = []

abbrev Holds : ℕ → Worker → Type 0
Holds i waiting = ⊥
Holds i stopped = ⊥
Holds i (received j) = i ≡ j
Holds i (uploading j) = i ≡ j

abbrev Held : ℕ → List Worker → Type 0
Held i [] = ⊥
Held i (w ∷ ws) = Holds i w ⊎ Held i ws

-- A change of a worker loses no block but the one that the worker held.
Held-change :
    {a b : Worker} {ws ws' : List Worker} (i : ℕ)
    → Changes a b ws ws'
    → Held i ws
    → Holds i a ⊎ Held i ws'
Held-change i here (inl h) = inl h
Held-change i here (inr h) = inr (inr h)
Held-change i (there c) (inl h) = inr (inl h)
Held-change i (there c) (inr h) = elim (Held-change i c h) [ inl a ↦ inl a | inr r ↦ inr (inr r) ]

Held-changed :
    {a b : Worker} {ws ws' : List Worker} (i : ℕ) → Changes a b ws ws' → Holds i b → Held i ws'
Held-changed i here h = inl h
Held-changed i (there c) h = inr (Held-changed i c h)

stopped-none : (i : ℕ) (ws : List Worker) → AllStopped ws → Held i ws → ⊥
stopped-none i [] all h = h
stopped-none i (w ∷ ws) (e, all) (inl h) = subst (Holds i) e h
stopped-none i (w ∷ ws) (e, all) (inr h) = stopped-none i ws all h

-- Where a block is.
abbrev IsSomewhere : ℕ → Feeder → List Worker → List ℕ → Type 0
IsSomewhere i feeder ws uploaded = Mem i (queued feeder) ⊎ (Held i ws ⊎ Mem i uploaded)

IsSomewhere-change :
    {a b : Worker} {ws ws' : List Worker} (i : ℕ) (f : Feeder) (uploaded : List ℕ)
    → Changes a b ws ws'
    → (Holds i a → IsSomewhere i f ws' uploaded)
    → IsSomewhere i f ws uploaded
    → IsSomewhere i f ws' uploaded
IsSomewhere-change i f uploaded c move (inl q) = inl q
IsSomewhere-change i f uploaded c move (inr (inr u)) = inr (inr u)
IsSomewhere-change i f uploaded c move (inr (inl h)) = elim (Held-change i c h) [
  | inl a ↦ move a
  | inr r ↦ inr (inl r)
]

IsSomewhere-fed :
    (i : ℕ) (f f' : Feeder) (ws : List Worker) (uploaded : List ℕ)
    → (Mem i (queued f) → IsSomewhere i f' ws uploaded)
    → IsSomewhere i f ws uploaded
    → IsSomewhere i f' ws uploaded
IsSomewhere-fed i f f' ws uploaded move (inl q) = move q
IsSomewhere-fed i f f' ws uploaded move (inr r) = inr r

-- Either the work was canceled for a reason that is returned, or no block is lost; and what counts as
-- uploaded was uploaded.
record IsKept (Uploads : ℕ → Option Error → Type 0) (missing : List ℕ) (s : Pool) : Type 0 where
  reason : s.is_canceled ≡ true → outcome s ≢ none
  kept :
      s.is_canceled ≡ false → (i : ℕ) → Mem i missing → IsSomewhere i s.feeder s.workers s.uploaded
  sound : All (λ i. Uploads i none) s.uploaded

outcome-reason : (f c : Option Error) (e : Error) → outcome_of (keep_first f e) c ≢ none
outcome-reason none c e same = cc
outcome-reason (some x) c e same = cc

canceled-reason : (f : Option Error) (e : Error) → outcome_of f (some e) ≢ none
canceled-reason none e same = cc
canceled-reason (some x) e same = cc

no_queue : {f : Feeder} {i : ℕ} → f ≡ sending [] → Mem i (queued f) → ⊥
no_queue {f} {i} e m = elim (subst (λ g. Mem i (queued g)) e m) [ ]

after_send :
    (i j : ℕ) (left : List ℕ) (ws ws' : List Worker) (uploaded : List ℕ)
    → Changes waiting (received j) ws ws'
    → IsSomewhere i (sending (j ∷ left)) ws uploaded
    → IsSomewhere i (checking left) ws' uploaded
after_send i j left ws ws' uploaded c (inl at_head) = inr (inl (Held-changed i c refl))
after_send i j left ws ws' uploaded c (inl (in_tail m)) = inl m
after_send i j left ws ws' uploaded c (inr r) =
    IsSomewhere-change i (checking left) uploaded c (λ none_held. absurd none_held) (inr r)

after_succeed :
    (j i : ℕ) (f : Feeder) (ws ws' : List Worker) (uploaded : List ℕ)
    → Changes (uploading i) waiting ws ws'
    → IsSomewhere j f ws uploaded
    → IsSomewhere j f ws' (i ∷ uploaded)
after_succeed j i f ws ws' uploaded c (inl q) = inl q
after_succeed j i f ws ws' uploaded c (inr (inr u)) = inr (inr (in_tail u))
after_succeed j i f ws ws' uploaded c (inr (inl h)) = elim (Held-change j c h) [
  | inl same ↦ inr (inr (subst (λ x. Mem x (i ∷ uploaded)) (sym same) at_head))
  | inr r ↦ inr (inl r)
]

Mem-All {ℓ} : {A : Type 0} (P : A → Type ℓ) (x : A) (xs : List A) → All P xs → Mem x xs → P x
Mem-All P x (y ∷ xs) (p, ps) at_head = p
Mem-All P x (y ∷ xs) (p, ps) (in_tail m) = Mem-All P x xs ps m
Mem-All P x [] ps m = elim m [ ]

module _ (Uploads : ℕ → Option Error → Type 0) (missing : List ℕ) where
  step-IsKept :
      {s t : Pool} → Step Uploads s t → IsKept Uploads missing s → IsKept Uploads missing t
  step-IsKept (send {s} {i} {left} {ws} at c) k = record {
    reason = k.reason;
    kept = λ free j m.
        after_send j i left s.workers ws s.uploaded c
          (subst (λ f. IsSomewhere j f s.workers s.uploaded) at (k.kept free j m));
    sound = k.sound;
  }
  step-IsKept (drop_block {s} at canceled) k = record {
    reason = k.reason;
    kept = λ free. cc;
    sound = k.sound;
  }
  step-IsKept (leave_loop {s} at canceled) k = record {
    reason = k.reason;
    kept = λ free. cc;
    sound = k.sound;
  }
  step-IsKept (next_block {s} {left} at free) k = record {
    reason = k.reason;
    kept = λ free j m. subst (λ f. IsSomewhere j f s.workers s.uploaded) at (k.kept free j m);
    sound = k.sound;
  }
  step-IsKept (end_loop {s} at) k = record {
    reason = k.reason;
    kept = λ free j m.
        IsSomewhere-fed j s.feeder closed s.workers s.uploaded (λ q. absurd (no_queue at q))
          (k.kept free j m);
    sound = k.sound;
  }
  step-IsKept (begin {s} {i} free c) k = record {
    reason = k.reason;
    kept = λ free j m.
        IsSomewhere-change j s.feeder s.uploaded c (λ h. inr (inl (Held-changed j c h)))
          (k.kept free j m);
    sound = k.sound;
  }
  step-IsKept (quit {s} canceled c) k = record {
    reason = k.reason;
    kept = λ free. cc;
    sound = k.sound;
  }
  step-IsKept (succeed {s} {i} good c) k = record {
    reason = k.reason;
    kept = λ free j m. after_succeed j i s.feeder s.workers _ s.uploaded c (k.kept free j m);
    sound = (good, k.sound);
  }
  step-IsKept (fail {s} {i} {e} bad c) k = record {
    reason = λ canceled. outcome-reason s.first_error s.ctx_err e;
    kept = λ free. cc;
    sound = k.sound;
  }
  step-IsKept (return {s} over c) k = record {
    reason = k.reason;
    kept = λ free j m. IsSomewhere-change j s.feeder s.uploaded c (λ h. absurd h) (k.kept free j m);
    sound = k.sound;
  }
  step-IsKept (cancel {s} {e} at) k = record {
    reason = λ canceled. canceled-reason s.first_error e;
    kept = λ free. cc;
    sound = k.sound;
  }

  start-IsKept : (concurrency : ℕ) → IsKept Uploads missing (start concurrency missing)
  start-IsKept concurrency = record {
    reason = λ canceled. cc;
    kept = λ free i m. inl m;
    sound = tt;
  }

  Steps-IsKept :
      (concurrency : ℕ) {k : ℕ} {s : Pool}
      → Steps Uploads (start concurrency missing) k s
      → IsKept Uploads missing s
  Steps-IsKept concurrency no_step = start-IsKept concurrency
  Steps-IsKept concurrency (step before last) = step-IsKept last (Steps-IsKept concurrency before)

  over-uploaded :
      (s : Pool)
      → IsOver s
      → outcome s ≡ none
      → IsKept Uploads missing s
      → (i : ℕ) → Mem i missing
      → Mem i s.uploaded
  over-uploaded s over well k i m = elim (Bool-cases s.is_canceled) [
    | inl canceled ↦ absurd (k.reason canceled well)
    | inr free ↦ elim (k.kept free i m) [
      | inl q ↦ elim (subst (λ f. Mem i (queued f)) over.no_more q) [ ]
      | inr (inl h) ↦ absurd (stopped-none i s.workers over.returned h)
      | inr (inr u) ↦ u
    ]
  ]

  -- However the workers and the loop that feeds them take turns, whatever their uploads return and
  -- whenever the caller's context ends: when all have returned and uploadBlocks returns no error, each
  -- of the missing blocks was taken by a worker whose upload of it returned no error.
  pub uploaded-all :
      (concurrency : ℕ) {k : ℕ} {s : Pool}
      → Steps Uploads (start concurrency missing) k s
      → IsOver s
      → outcome s ≡ none
      → (i : ℕ) → Mem i missing
      → Mem i s.uploaded × Uploads i none
  uploaded-all concurrency {s = s} steps over well i m =
      let k = Steps-IsKept concurrency steps in
      let u : Mem i s.uploaded = over-uploaded s over well k i m in
      (u, Mem-All (λ j. Uploads j none) i s.uploaded k.sound u)
