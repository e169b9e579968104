-- ===== src/Core/Retry/Policy.antt =====
-- The retry policy that a target system's row gives.
use idm_mw.Prelude.{ℕ, ◌<◌, ◌≡◌, Option, none, some, arith}
use idm_mw.Json.{Json, Number, positive_int}
use idm_mw.Effects.{Exec, pure, ◌>>=◌}
use idm_mw.Effects.Results.{lift}
use idm_mw.Core.World.{World, TargetSystem, later}
use idm_mw.Core.Retry.{TargetRetryPolicy, normalize_policy, merge_policy, policy_value}

-- Every number of the policy is positive, so the loop makes a second attempt and leases run.
pub record IsUsable (p : TargetRetryPolicy) : Type 0 where
  pub retries : 0 < p.max_retries
  pub base : 0 < p.base_delay_ms
  pub longest : 0 < p.max_delay_ms
  pub lease : 0 < p.dlq_lease_seconds

-- The lease that an operator configured, where one is configured.
abbrev pub IsPositiveLease : Option ℕ → Type 0
IsPositiveLease none = Unit
IsPositiveLease (some n) = 0 < n

positive_int-pos : (n : Number) (k : ℕ) → positive_int n ≡ some k → 0 < k
positive_int-pos n k h = ground arith

module _ (to_number : Option Json → Number) where
  abbrev after : {E : Type 0} → World E → World E
  after w = record w { outages = later w.outages }

  abbrev policy_from :
      {E : Type 0} → Option ℕ → Option TargetSystem → Exec (World E) TargetRetryPolicy
  policy_from lease item = do
    value ← lift (policy_value item)
    pure (merge_policy to_number lease (normalize_policy to_number value))
