-- ===== src/Batch/Delay.antt =====
-- The delay between the attempts on one file: retryDelay of internal/batchupload/batch.go.
use panpack.Base.{ℕ, zero, suc, ◌-◌, ◌*◌, ◌^◌, ◌≡◌, ◌≤◌, min, arith}
use panpack.Batch.{delay_cap, doubling, retry_delay}

grows : (n delay : ℕ) → delay ≤ delay * 2 ^ n
grows zero delay = omega arith
grows (suc n) delay = grind (arith, grows n delay)

doubles : (n delay : ℕ) → delay * 2 * 2 ^ n ≡ delay * 2 ^ suc n
doubles n delay = grind arith

min-doubling : (n delay : ℕ) → min (doubling n delay) delay_cap ≡ min (delay * 2 ^ n) delay_cap
unfolding doubling
min-doubling zero delay = ground arith
min-doubling (suc n) delay =
    ground (arith, min-doubling n (delay * 2), grows (suc n) delay, doubles n delay)

-- The delay is the first one, doubled for every attempt after the first, up to ten minutes.
pub retry_delay_lem :
    (base attempt : ℕ) → retry_delay base attempt ≡ min (base * 2 ^ (attempt - 1)) delay_cap
unfolding retry_delay
retry_delay_lem base attempt = ground (arith, min-doubling (attempt - 1) base)
