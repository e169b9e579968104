-- ===== src/Core/Retry/Loop.antt =====
-- The retry loop.
use idm_mw.Prelude.{
  ℕ, zero, suc, ◌+◌, ◌≤◌, ◌<◌, ◌≡◌, refl, arith, eqb, eqb_iff, le→leb, Bool-cases, inl, inr,
}
use idm_mw.Effects.{Thrown, as_error, Result, ok, throw, Exec, outcome-cases}
use idm_mw.Core.World.{World}
use idm_mw.Core.Retry.{RetryOptions, pause, settle, attempt_loop, execute}

module _ {E A : Type 0} (fn : Exec (World E) A) (opts : RetryOptions) where
  -- The runs of the loop that the documentation promises, from the attempt of that number on: a
  -- success ends it, the last allowed attempt ends it with that attempt's error, and any other
  -- failure is followed by a pause and the next attempt.
  pub data Run : ℕ → World E → Result A → World E → Type 0 where
    succeeded :
        {attempt : ℕ} {w w' : World E} {a : A}
        → attempt ≤ opts.max_retries
        → fn w ≡ (ok a, w')
        → Run attempt w (ok a) w'
    exhausted :
        {attempt : ℕ} {w w' : World E} {e e' : Thrown}
        → attempt ≡ opts.max_retries
        → fn w ≡ (throw e, w')
        → e' ≡ as_error e
        → Run attempt w (throw e') w'
    retried :
        {attempt : ℕ} {w w' u : World E} {e : Thrown} {r : Result A}
        → attempt < opts.max_retries
        → fn w ≡ (throw e, w')
        → Run (suc attempt) (pause attempt opts w') r u
        → Run attempt w r u

  -- One round, for whatever the later rounds do.
  settle-Run :
      (attempt : ℕ) (w : World E) (again : World E → Result A × World E)
      → attempt ≤ opts.max_retries
      → (attempt < opts.max_retries
          → (w' : World E) → Run (suc attempt) (pause attempt opts w') (again w').0 (again w').1)
      → Run attempt w
          (settle (eqb attempt opts.max_retries) again (fn w)).0
          (settle (eqb attempt opts.max_retries) again (fn w)).1
  unfolding settle
  settle-Run attempt w again le rest = elim (outcome-cases (fn w)) [
    | inl (a, w', e) ↦ rw e (succeeded le e)
    | inr (t, w', e) ↦ rw e (elim (Bool-cases (eqb attempt opts.max_retries)) [
      | inl last ↦ rw last (exhausted ((eqb_iff _ _).0 last) e refl)
      | inr more ↦ rw more (retried (ground arith) e (rest (ground arith) w'))
    ])
  ]

  attempt_loop-Run :
      (fuel attempt : ℕ) (w : World E)
      → attempt + fuel ≡ opts.max_retries + 1
      → attempt ≤ opts.max_retries
      → Run attempt w
          (attempt_loop fuel attempt opts fn w).0
          (attempt_loop fuel attempt opts fn w).1
  unfolding attempt_loop
  attempt_loop-Run zero attempt w h k = absurd (omega arith)
  attempt_loop-Run (suc fuel) attempt w h k = rw (le→leb _ _ k) (
      settle-Run attempt w _ k
        (λ lt w'. attempt_loop-Run fuel (suc attempt) (pause attempt opts w') (omega arith) lt))

-- Every execution is a documented run from the first attempt on: the loop ends within
-- `maxRetries + 1` attempts by a success or by the error of attempt `maxRetries`, and its own error
-- "Retry exhausted" is never thrown in place of these.
pub execute-Run :
    {E A : Type 0} (fn : Exec (World E) A) (opts : RetryOptions) (w : World E)
    → Run fn opts 0 w (execute fn opts w).0 (execute fn opts w).1
unfolding execute
execute-Run fn opts w =
    attempt_loop-Run fn opts (suc opts.max_retries) 0 w (omega arith) (omega arith)
