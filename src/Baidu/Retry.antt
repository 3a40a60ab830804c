-- ===== src/Baidu/Retry.antt =====
-- The retry loop that every request of the client goes through: retry of
-- internal/baidu/uploader.go. What the request changes is a world `W`, of which the context is a
-- part; a wait of so many seconds may end with the context.
use panpack.Base.{
  ℕ, zero, suc, ◌+◌, ◌≤◌, ◌<◌, ◌^◌, Bool, ◌≡◌, refl, sym, ap, ◌∙◌, min, arith, Option, none, some,
  Error, message, Result, ok, err, ltb, if◌then◌else◌,
}

pub record Retried {ℓ κ} (A : Type ℓ) (W : Type κ) : Type (ℓ ⊔ κ) where
  pub retries : ℕ
  pub rate_limits : ℕ
  pub outcome : Result A
  pub world : W

-- `time.Second << attempt`, at most thirty seconds.
backoff : ℕ → ℕ
backoff attempt = let wait = 2 ^ attempt in if ltb 30 wait then 30 else wait

module _ {ℓ κ} {A : Type ℓ} {W : Type κ} where
  ended : ℕ → ℕ → Result A → W → Retried A W
  ended retries rates r w = record {
    retries = retries;
    rate_limits = rates;
    outcome = r;
    world = w;
  }

  -- The select on the context and the timer.
  slept : ℕ → ℕ → Option Error × W → (W → Retried A W) → Retried A W
  unfolding ended
  slept retries rates (some c, w) again = ended retries rates (err c) w
  slept retries rates (none, w) again = again w

  -- The check of the context at the head of the loop.
  begun : ℕ → ℕ → W → Option Error → Retried A W → Retried A W
  unfolding ended
  begun retries rates w (some e) rest = ended retries rates (err e) w
  begun retries rates w none rest = rest

  module _ (ctx_err : W → Option Error) (sleep : ℕ → W → Option Error × W)
      (fn : W → Result A × W) where
    -- `Calls attempt n w r w'`: after `attempt` calls, `n` more from the world `w` on end with the
    -- result `r` in the world `w'`. Only a call that failed is followed by another, after a wait of
    -- 2 ^ attempt seconds, of thirty at most.
    pub data Calls : ℕ → ℕ → W → Result A → W → Type (ℓ ⊔ κ) where
      stopped : {attempt : ℕ} {w : W} {e : Error} → ctx_err w ≡ some e → Calls attempt 0 w (err e) w
      returned : {attempt : ℕ} {w w' : W} {r : Result A} → fn w ≡ (r, w') → Calls attempt 1 w r w'
      woken :
          {attempt : ℕ} {w w1 w' : W} {e c : Error}
          → fn w ≡ (err e, w1)
          → sleep (min 30 (2 ^ attempt)) w1 ≡ (some c, w')
          → Calls attempt 1 w (err c) w'
      tried_again :
          {attempt n : ℕ} {w w1 w2 w' : W} {e : Error} {r : Result A}
          → fn w ≡ (err e, w1)
          → sleep (min 30 (2 ^ attempt)) w1 ≡ (none, w2)
          → Calls (attempt + 1) n w2 r w'
          → Calls attempt (suc n) w r w'

    -- The calls that were made, no more than `attempts`: what they gave back, and what was counted.
    pub record IsSound (attempts attempt retries rates : ℕ) (w : W) (r : Retried A W)
        : Type (ℓ ⊔ κ) where
      pub calls : ℕ
      pub made : Calls attempt calls w r.outcome r.world
      pub few : calls ≤ attempts
      pub fewer : r.retries < retries + attempts
      pub counted : retries + calls ≤ r.retries + 1
      pub limits : r.rate_limits ≤ rates + calls

    -- A result is one that a call returned.
    Calls-ok :
        {attempt n : ℕ} {w w' : W} {r : Result A} (a : A)
        → r ≡ ok a
        → Calls attempt n w r w'
        → (w0 : W) × (fn w0 ≡ (ok a, w'))
    Calls-ok a e (stopped c) = cc
    Calls-ok {w = w} {w' = w'} a e (returned c) = (w, c ∙ ap (λ (x : Result A). (x, w')) e)
    Calls-ok a e (woken c s) = cc
    Calls-ok a e (tried_again c s more) = Calls-ok a e more

  module _
      -- api.IsErrno(err, api.ErrnoLimitExceeded)
      (is_limit : Error → Bool)
      -- the wait for the timer or the context
      (sleep : ℕ → W → Option Error × W) where
    -- What follows `err := fn()`, with `left` attempts after this one.
    called : ℕ → ℕ → ℕ → ℕ → Result A × W → (ℕ → W → Retried A W) → Retried A W
    unfolding slept backoff
    called left attempt retries rates (ok a, w) again = ended retries rates (ok a) w
    called zero attempt retries rates (err e, w) again =
        ended retries (if is_limit e then rates + 1 else rates) (err e) w
    called (suc left) attempt retries rates (err e, w) again =
        let rates1 = if is_limit e then rates + 1 else rates in
        slept (retries + 1) rates1 (sleep (backoff attempt) w) (again rates1)

    -- `left` attempts remain, `attempt` have been made. With no attempt at all the source returns
    -- nil; every client is created with five.
    retry_from : (W → Option Error) → (W → Result A × W) → ℕ → ℕ → ℕ → ℕ → W → Retried A W
    unfolding called begun
    retry_from ctx_err fn zero attempt retries rates w =
        ended retries rates (err (message "no attempt")) w
    retry_from ctx_err fn (suc left) attempt retries rates w = begun retries rates w (ctx_err w) (
        called left attempt retries rates (fn w)
          (λ rates1 w2. retry_from ctx_err fn left (attempt + 1) (retries + 1) rates1 w2))

    -- `retry`, for a client with `max_retries` attempts.
    unfoldable pub retry : ℕ → (W → Option Error) → (W → Result A × W) → W → Retried A W
    unfolding retry_from
    retry max_retries ctx_err fn w = retry_from ctx_err fn max_retries 0 0 0 w

    module _ (ctx_err : W → Option Error) (fn : W → Result A × W) where
      abbrev Sound : ℕ → ℕ → ℕ → ℕ → W → Retried A W → Type (ℓ ⊔ κ)
      Sound = IsSound ctx_err sleep fn

      slept-IsSound :
          (left attempt retries rates rates1 : ℕ) (w w1 : W) (e : Error) (next : W → Retried A W)
          → fn w ≡ (err e, w1)
          → rates1 ≤ rates + 1
          → ((w2 : W) → Sound (suc left) (attempt + 1) (retries + 1) rates1 w2 (next w2))
          → (s : Option Error × W) → sleep (min 30 (2 ^ attempt)) w1 ≡ s
          → Sound (suc (suc left)) attempt retries rates w (slept (retries + 1) rates1 s next)
      unfolding slept
      slept-IsSound left attempt retries rates rates1 w w1 e next c le ih (some x, w2) s = record {
        calls = 1;
        made = woken c s;
        few = omega arith;
        fewer = omega arith;
        counted = omega arith;
        limits = omega arith;
      }
      slept-IsSound left attempt retries rates rates1 w w1 e next c le ih (none, w2) s =
          let h = ih w2 in
          record {
            calls = suc h.calls;
            made = tried_again c s h.made;
            few = omega (arith, h.few);
            fewer = omega (arith, h.fewer);
            counted = omega (arith, h.counted);
            limits = omega (arith, h.limits);
          }

      backoff-min : (attempt : ℕ) → backoff attempt ≡ min 30 (2 ^ attempt)
      unfolding backoff
      backoff-min attempt = ground arith

      called-IsSound :
          (left attempt retries rates : ℕ) (w : W) (next : ℕ → W → Retried A W)
          → ((n : ℕ)
              → left ≡ suc n
              → (rates1 : ℕ) (w2 : W)
              → Sound left (attempt + 1) (retries + 1) rates1 w2 (next rates1 w2))
          → (c : Result A × W) → fn w ≡ c
          → Sound (suc left) attempt retries rates w (called left attempt retries rates c next)
      unfolding called
      called-IsSound left attempt retries rates w next ih (ok a, w1) e = record {
        calls = 1;
        made = returned e;
        few = omega arith;
        fewer = omega arith;
        counted = omega arith;
        limits = omega arith;
      }
      called-IsSound zero attempt retries rates w next ih (err x, w1) e = record {
        calls = 1;
        made = returned e;
        few = omega arith;
        fewer = omega arith;
        counted = omega arith;
        limits = ground arith;
      }
      called-IsSound (suc left) attempt retries rates w next ih (err x, w1) e =
          slept-IsSound left attempt retries rates _ w w1 x (next _) e (ground arith)
            (ih left refl _) (sleep (backoff attempt) w1)
            (ap (λ n. sleep n w1) (sym (backoff-min attempt)))

      begun-IsSound :
          (left attempt retries rates : ℕ) (w : W) (rest : Retried A W) (c : Option Error)
          → ctx_err w ≡ c
          → Sound (suc left) attempt retries rates w rest
          → Sound (suc left) attempt retries rates w (begun retries rates w c rest)
      unfolding begun
      begun-IsSound left attempt retries rates w rest none e h = h
      begun-IsSound left attempt retries rates w rest (some x) e h = record {
        calls = 0;
        made = stopped e;
        few = omega arith;
        fewer = omega arith;
        counted = omega arith;
        limits = omega arith;
      }

      retry_from-IsSound :
          (left attempt retries rates : ℕ) (w : W)
          → Sound
              (suc left)
              attempt
              retries
              rates
              w
              (retry_from ctx_err fn (suc left) attempt retries rates w)
      unfolding retry_from
      retry_from-IsSound zero attempt retries rates w =
          begun-IsSound zero attempt retries rates w _ (ctx_err w) refl (
            called-IsSound zero attempt retries rates w _ (λ n e rates1 w2. absurd (omega arith))
              (fn w) refl)
      retry_from-IsSound (suc left) attempt retries rates w =
          begun-IsSound (suc left) attempt retries rates w _ (ctx_err w) refl (
            called-IsSound (suc left) attempt retries rates w _
              (λ n e rates1 w2. retry_from-IsSound left (attempt + 1) (retries + 1) rates1 w2)
              (fn w) refl)

      -- A request that may be made `suc n` times makes `suc n` calls at most, each but the last one
      -- failed and followed by a wait, twice as long each time up to thirty seconds. What it gives
      -- back, with the world, is what the last call returned, or the error of the context before a
      -- call or in a wait; no more retries are counted than `n` and no fewer than calls after the
      -- first, and no more rate limits than calls.
      pub retry-IsSound : (n : ℕ) (w : W) → Sound (suc n) 0 0 0 w (retry (suc n) ctx_err fn w)
      unfolding retry
      retry-IsSound n w = retry_from-IsSound n 0 0 0 w

      -- A result, after however many attempts, is one that a call returned, with the world of it.
      pub retry-ok :
          (n : ℕ) (w : W) (a : A)
          → (retry n ctx_err fn w).outcome ≡ ok a
          → (w0 : W) × (fn w0 ≡ (ok a, (retry n ctx_err fn w).world))
      unfolding retry retry_from
      retry-ok zero w a e = cc
      retry-ok (suc n) w a e = Calls-ok ctx_err sleep fn a e (retry_from-IsSound n 0 0 0 w).made
