-- ===== src/Core/Retry/Cost.antt =====
-- How long the retry loop may keep a request waiting.
use idm_mw.Prelude.{ℕ, zero, suc, ◌+◌, ◌*◌, ◌^◌, ◌≤◌, ◌<◌, ◌≡◌, List, [], ◌∷◌, All, arith}
use idm_mw.Effects.{Result, Exec}
use idm_mw.Core.World.{World}
use idm_mw.Core.Retry.{RetryOptions, draw, undrawn, pause, execute}
use idm_mw.Core.Retry.Delay.{calculate_delay_bounds}
use idm_mw.Core.Retry.Loop.{Run, succeeded, exhausted, retried, execute-Run}

-- `Math.random` is below 1.
abbrev pub IsFair : List ℕ → Type 0
IsFair dice = All (λ r. r < 2 ^ 53) dice

draw-lt : (dice : List ℕ) → IsFair dice → draw dice < 2 ^ 53
draw-lt [] h = omega arith
draw-lt (r ∷ rs) h = h.0

undrawn-IsFair : (dice : List ℕ) → IsFair dice → IsFair (undrawn dice)
undrawn-IsFair [] h = h
undrawn-IsFair (r ∷ rs) h = h.1

module _ {E : Type 0} (attempt : ℕ) (opts : RetryOptions) (w : World E) (fair : IsFair w.dice) where
  pause-IsFair : IsFair (pause attempt opts w).dice
  unfolding pause
  pause-IsFair = ground (arith, undrawn-IsFair w.dice fair)

  clock-pause-le : (pause attempt opts w).clock ≤ w.clock + opts.max_delay_ms
  unfolding pause
  clock-pause-le =
      omega (arith, calculate_delay_bounds attempt opts (draw w.dice) (draw-lt w.dice fair))

-- The action takes at most `t` milliseconds, whether it returns or throws, and draws no random
-- number.
pub record IsPrompt {E A : Type 0} (fn : Exec (World E) A) (t : ℕ) : Type 0 where
  pub time : (w : World E) → (fn w).1.clock ≤ w.clock + t
  pub dice : (w : World E) → (fn w).1.dice ≡ w.dice

module _ {E A : Type 0} (fn : Exec (World E) A) (opts : RetryOptions) (t : ℕ)
    (prompt : IsPrompt fn t) where
  called :
      {w w' : World E} {r : Result A}
      → fn w ≡ (r, w')
      → (w'.clock ≤ w.clock + t) × (w'.dice ≡ w.dice)
  called {w} e = (rw e at (prompt.time w), rw e at (prompt.dice w))

  clock-Run-le :
      {attempt : ℕ} {w u : World E} {r : Result A} (k : ℕ)
      → Run fn opts attempt w r u
      → attempt + k ≡ opts.max_retries
      → IsFair w.dice
      → u.clock ≤ w.clock + (k * (t + opts.max_delay_ms) + t)
  clock-Run-le k (succeeded le e) h fair = omega (arith, (called e).0)
  clock-Run-le k (exhausted last e same) h fair = omega (arith, (called e).0)
  clock-Run-le zero (retried lt e rest) h fair = absurd (omega arith)
  clock-Run-le (suc k) (retried {attempt} {w} {w'} lt e rest) h fair =
      let (time, dice) = called e in
      let fair' : IsFair w'.dice = rw dice fair in
      omega (
        arith,
        time,
        clock-pause-le attempt opts w' fair',
        clock-Run-le k rest (omega arith) (pause-IsFair attempt opts w' fair'),
      )

-- If the action takes at most `t` milliseconds, an execution, whatever its outcome, takes at most
-- `maxRetries * (t + maxDelayMs) + t` milliseconds, the pauses included.
pub clock-execute-le :
    {E A : Type 0} (fn : Exec (World E) A) (opts : RetryOptions) (t : ℕ) (w : World E)
    → IsPrompt fn t
    → IsFair w.dice
    → (execute fn opts w).1.clock ≤ w.clock + (opts.max_retries * (t + opts.max_delay_ms) + t)
clock-execute-le fn opts t w prompt fair =
    clock-Run-le fn opts t prompt opts.max_retries (execute-Run fn opts w) (omega arith) fair
