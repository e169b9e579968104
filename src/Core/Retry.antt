-- ===== src/Core/Retry.antt =====
-- core/retry: the retry loop of retry.service.ts and the policy of retry-policy.service.ts.
-- Delays are computed exactly; the source's doubles may round a delay, never above its cap.
pub mod Policy
pub mod Delay
pub mod Loop
pub mod Cost
use idm_mw.Prelude.{
  ℕ, zero, suc, ◌+◌, ◌*◌, ◌/◌, ◌^◌, String, Bool, true, Option, none, some, List, [], ◌∷◌, ◌==◌,
  min, leb, eqb, or_else, if◌then◌else◌,
}
use idm_mw.Json.{Json, Number, Fields, bool, positive_int, as_record, get_field}
use idm_mw.Effects.{error, as_error, Result, ok, throw, Exec, pure, gets, try_catch, ◌>>=◌}
use idm_mw.Effects.Results.{lift}
use idm_mw.Core.World.{World, TargetSystem, external}

pub record RetryOptions : Type 0 where
  pub max_retries : ℕ
  pub base_delay_ms : ℕ
  pub max_delay_ms : ℕ
  pub jitter : Bool

-- Required<TargetRetryPolicy>
pub record TargetRetryPolicy : Type 0 where
  pub options : RetryOptions
  pub open options use *
  pub dlq_lease_seconds : ℕ

-- Partial<TargetRetryPolicy>, as `normalizePolicy` returns it.
pub record PartialPolicy : Type 0 where
  pub max_retries : Option ℕ
  pub base_delay_ms : Option ℕ
  pub max_delay_ms : Option ℕ
  pub jitter : Option Bool
  pub dlq_lease_seconds : Option ℕ

abbrev pub default_retry_policy : TargetRetryPolicy
default_retry_policy = record {
  options = record { max_retries = 3; base_delay_ms = 1000; max_delay_ms = 30000; jitter = true };
  dlq_lease_seconds = 300;
}

-- `item.config['retryPolicy']`
abbrev pub policy_of : Option Fields → Option Json
policy_of none = none
policy_of (some fs) = get_field fs "retryPolicy"

-- `fromJson(item.config)` may throw.
abbrev pub policy_in : Result Json → Result (Option Json)
policy_in (throw e) = throw e
policy_in (ok config) = ok (policy_of (as_record (some config)))

abbrev pub policy_value : Option TargetSystem → Result (Option Json)
policy_value none = ok none
policy_value (some item) = policy_in item.config

unfoldable pub find_target : String → List TargetSystem → Option TargetSystem
find_target name [] = none
find_target name (t ∷ rest) = if t.name == name then some t else find_target name rest

-- `Number(value)`, JavaScript's coercion, is a parameter; it decides which texts are integers.
module _ (to_number : Option Json → Number) where
  abbrev pub positive_integer : Option Json → Option ℕ
  positive_integer value = positive_int (to_number value)

  abbrev boolean_of : Option Json → Option Bool
  boolean_of (some (bool b)) = some b
  boolean_of _ = none

  abbrev partial_of : Option Fields → PartialPolicy
  partial_of none = record {
    max_retries = none;
    base_delay_ms = none;
    max_delay_ms = none;
    jitter = none;
    dlq_lease_seconds = none;
  }
  partial_of (some raw) = record {
    max_retries = positive_integer (get_field raw "maxRetries");
    base_delay_ms = positive_integer (get_field raw "baseDelayMs");
    max_delay_ms = positive_integer (get_field raw "maxDelayMs");
    jitter = boolean_of (get_field raw "jitter");
    dlq_lease_seconds = positive_integer (get_field raw "dlqLeaseSeconds");
  }

  unfoldable pub normalize_policy : Option Json → PartialPolicy
  normalize_policy value = partial_of (as_record value)

  -- The three layers of `forTarget`'s result: defaults, the configured lease, the target's policy.
  unfoldable pub merge_policy : Option ℕ → PartialPolicy → TargetRetryPolicy
  merge_policy lease policy = record {
    options = record {
      max_retries = or_else policy.max_retries default_retry_policy.max_retries;
      base_delay_ms = or_else policy.base_delay_ms default_retry_policy.base_delay_ms;
      max_delay_ms = or_else policy.max_delay_ms default_retry_policy.max_delay_ms;
      jitter = or_else policy.jitter default_retry_policy.jitter;
    };
    dlq_lease_seconds =
        or_else policy.dlq_lease_seconds (or_else lease default_retry_policy.dlq_lease_seconds);
  }

  module _ {E : Type 0} where
    -- `lease` is DLQ_RETRY_LEASE_SECONDS. A failing lookup counts as a target that is not there;
    -- a configuration that can not be read is an error.
    unfoldable pub for_target : Option ℕ → String → Exec (World E) TargetRetryPolicy
    unfolding normalize_policy merge_policy find_target
    for_target lease target = do
      item ← try_catch (external (gets (λ w. find_target target w.target_systems))) (λ e. pure none)
      value ← lift (policy_value item)
      pure (merge_policy lease (normalize_policy value))

-- `calculateDelay` with the draw `r` of `Math.random`, in units of 2^-53.
unfoldable pub calculate_delay : ℕ → RetryOptions → ℕ → ℕ
calculate_delay attempt opts r =
    let exponential = opts.base_delay_ms * 2 ^ attempt in
    let capped = min exponential opts.max_delay_ms in
    if opts.jitter then capped * (2 ^ 53 + r) / 2 ^ 54 else capped

abbrev draw : List ℕ → ℕ
draw [] = 0
draw (r ∷ rs) = r

abbrev undrawn : List ℕ → List ℕ
undrawn [] = []
undrawn (r ∷ rs) = rs

module _ {E : Type 0} where
  -- `await this.sleep(this.calculateDelay(attempt, opts))`
  unfoldable pub pause : ℕ → RetryOptions → World E → World E
  unfolding calculate_delay
  pause attempt opts w = record w {
    dice = if opts.jitter then undrawn w.dice else w.dice;
    clock = w.clock + calculate_delay attempt opts (draw w.dice);
  }

module _ {E A : Type 0} where
  -- The body of the loop behind the call: the `try` and its `catch`.
  unfoldable pub settle :
      (is_last : Bool) → (World E → Result A × World E) → Result A × World E → Result A × World E
  settle is_last again (ok a, w) = (ok a, w)
  settle is_last again (throw e, w) = if is_last then (throw (as_error e), w) else again w

  -- The loop of `execute`, from `attempt` on; the first argument is fuel.
  unfoldable pub attempt_loop : ℕ → ℕ → RetryOptions → Exec (World E) A → Exec (World E) A
  unfolding settle
  attempt_loop zero attempt opts fn w = (throw (error "Retry exhausted"), w)
  attempt_loop (suc fuel) attempt opts fn w =
      let again =
        λ (w' : World E). attempt_loop fuel (suc attempt) opts fn (pause attempt opts w') in
      if leb attempt opts.max_retries
      then settle (eqb attempt opts.max_retries) again (fn w)
      else (throw (error "Retry exhausted"), w)

  unfoldable pub execute : Exec (World E) A → RetryOptions → Exec (World E) A
  unfolding attempt_loop
  execute fn opts = attempt_loop (suc opts.max_retries) 0 opts fn
