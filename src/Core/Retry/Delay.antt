-- ===== src/Core/Retry/Delay.antt =====
-- Bounds on the delay between two attempts.
use idm_mw.Prelude.{ℕ, ◌+◌, ◌*◌, ◌/◌, ◌^◌, ◌≤◌, ◌<◌, min, ◌≡◌, arith, false}
use idm_mw.Core.Retry.{RetryOptions, calculate_delay}

jittered-le : (capped r : ℕ) → r < 2 ^ 53 → capped * (2 ^ 53 + r) / 2 ^ 54 ≤ capped
jittered-le capped r h = grind arith

le-jittered : (capped r : ℕ) → capped ≤ 2 * (capped * (2 ^ 53 + r) / 2 ^ 54) + 1
le-jittered capped r = grind arith

-- With a draw in range the delay before the next attempt is at most the cap
-- `min(baseDelayMs * 2^attempt, maxDelayMs)` and at least half of it rounded down; without jitter it
-- is the cap.
pub calculate_delay_bounds :
    (attempt : ℕ) (opts : RetryOptions) (r : ℕ)
    → r < 2 ^ 53
    → (calculate_delay attempt opts r ≤ min (opts.base_delay_ms * 2 ^ attempt) opts.max_delay_ms)
      × (min (opts.base_delay_ms * 2 ^ attempt) opts.max_delay_ms
          ≤ 2 * calculate_delay attempt opts r + 1)
      × (calculate_delay attempt (record opts { jitter = false }) r
          ≡ min (opts.base_delay_ms * 2 ^ attempt) opts.max_delay_ms)
unfolding calculate_delay
calculate_delay_bounds attempt opts r h =
    let capped = min (opts.base_delay_ms * 2 ^ attempt) opts.max_delay_ms in
    ground (arith, jittered-le capped r h, le-jittered capped r)
