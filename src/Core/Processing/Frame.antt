-- ===== src/Core/Processing/Frame.antt =====
-- What executing an event on its connector leaves alone: the queue, the locks and the outbox.
use idm_mw.Prelude.{
  ℕ, zero, suc, ◌≡◌, refl, String, Bool, true, false, Option, none, some, inl, inr, Bool-cases, leb,
  eqb,
}
use idm_mw.Json.{Json, Number}
use idm_mw.Effects.{Result, ok, throw, Exec}
use idm_mw.Effects.Results.{lift}
use idm_mw.Effects.Preserves.{
  Preserves-lift, Preserves, Preserves-pure, Preserves-raise, Preserves-gets, Preserves-if,
  Preserves-bind, Preserves-then, Preserves-try,
}
use idm_mw.Core.World.{World}
use idm_mw.Core.World.Stable.{IsStable, Preserves-external}
use idm_mw.Core.Retry.{
  RetryOptions, policy_value, for_target, find_target, pause, settle, attempt_loop,
}
use idm_mw.Core.Retry
use idm_mw.Connectors.{Connector, ConnectorResult, on_target, Call}
use idm_mw.Core.Processing.{
  ProcessingPayload, require_success, execute_on, execute_with_retry, to_connector,
  count_connector_error,
}

-- `w` has the queue, the locks and the outbox of `base`.
pub record SameStores {E : Type 0} (base w : World E) : Type 0 where
  pub dlq : w.dlq ≡ base.dlq
  pub next_id : w.next_id ≡ base.next_id
  pub idempotency_keys : w.idempotency_keys ≡ base.idempotency_keys
  pub outbox : w.outbox ≡ base.outbox
  pub target_systems : w.target_systems ≡ base.target_systems

pub SameStores-refl : {E : Type 0} (w : World E) → SameStores w w
SameStores-refl w = record {
  dlq = refl;
  next_id = refl;
  idempotency_keys = refl;
  outbox = refl;
  target_systems = refl;
}

module _ {E : Type 0} {base : World E} where
  -- A change of the clock, the dice, the outages, the metrics or the environment.
  SameStores-stable : IsStable (SameStores base)
  SameStores-stable = record {
    at = λ w o h. record {
      dlq = h.dlq;
      next_id = h.next_id;
      idempotency_keys = h.idempotency_keys;
      outbox = h.outbox;
      target_systems = h.target_systems;
    };
  }

  pause-SameStores :
      (attempt : ℕ) (opts : RetryOptions) (w : World E)
      → SameStores base w
      → SameStores base (pause attempt opts w)
  unfolding pause
  pause-SameStores attempt opts w h = record {
    dlq = h.dlq;
    next_id = h.next_id;
    idempotency_keys = h.idempotency_keys;
    outbox = h.outbox;
    target_systems = h.target_systems;
  }

  pub for_target-SameStores :
      (to_number : Option Json → Number) (lease : Option ℕ) (target : String)
      → Preserves (SameStores base) (for_target to_number lease target)
  unfolding for_target
  for_target-SameStores to_number lease target =
      Preserves-bind _ _
        (Preserves-try _ _
          (Preserves-external _ SameStores-stable
            (Preserves-gets (λ w. find_target target w.target_systems)))
          (λ e. Preserves-pure none))
        (λ item.
          Preserves-bind (lift (policy_value item)) _ (Preserves-lift _)
            (λ value. Preserves-pure _))

  on_target-SameStores :
      {A : Type 0} (call : Call E A) → Preserves (SameStores base) (on_target call)
  on_target-SameStores call = record {
    at = λ w h. record {
      dlq = h.dlq;
      next_id = h.next_id;
      idempotency_keys = h.idempotency_keys;
      outbox = h.outbox;
      target_systems = h.target_systems;
    };
  }

  require_success-SameStores :
      (dto : ProcessingPayload) (result : ConnectorResult)
      → Preserves (SameStores base) (require_success dto result)
  unfolding require_success
  require_success-SameStores dto result = Preserves-if result.success _ _ (Preserves-pure result) (
      Preserves-then (count_connector_error dto.target_system dto.operation) _
        (record {
          at = λ w h. record {
            dlq = h.dlq;
            next_id = h.next_id;
            idempotency_keys = h.idempotency_keys;
            outbox = h.outbox;
            target_systems = h.target_systems;
          };
        })
        (Preserves-raise _))

module _ {E A : Type 0} {base : World E} (fn : Exec (World E) A)
    (kept : Preserves (SameStores base) fn) (opts : RetryOptions) where
  settle-SameStores :
      (is_last : Bool) (again : World E → Result A × World E) (p : Result A × World E)
      → ((w : World E) → SameStores base w → SameStores base (again w).1)
      → SameStores base p.1
      → SameStores base (settle is_last again p).1
  unfolding settle
  settle-SameStores is_last again (ok a, w) k h = h
  settle-SameStores true again (throw e, w) k h = h
  settle-SameStores false again (throw e, w) k h = k w h

  attempt_loop-SameStores :
      (fuel attempt : ℕ) (w : World E)
      → SameStores base w
      → SameStores base (attempt_loop fuel attempt opts fn w).1
  unfolding attempt_loop
  attempt_loop-SameStores zero attempt w h = h
  attempt_loop-SameStores (suc fuel) attempt w h =
      elim (Bool-cases (leb attempt opts.max_retries)) [
        | inl inside ↦ rw inside (
            settle-SameStores (eqb attempt opts.max_retries) _ (fn w)
              (λ u k.
                attempt_loop-SameStores fuel (suc attempt) (pause attempt opts u)
                  (pause-SameStores attempt opts u k))
              (kept.at w h))
        | inr outside ↦ rw outside h
      ]

  execute-SameStores : Preserves (SameStores base) (Retry.execute fn opts)
  unfolding Retry.execute
  execute-SameStores = record { at = attempt_loop-SameStores (suc opts.max_retries) 0 }

execute_with_retry-Preserves :
    {E : Type 0} (get : String → Option (Connector E)) (to_number : Option Json → Number)
    (lease : Option ℕ) (dto : ProcessingPayload) (base : World E)
    → Preserves (SameStores base) (execute_with_retry get to_number lease dto)
unfolding execute_with_retry
execute_with_retry-Preserves {E} get to_number lease dto base = on_connector (get dto.target_system)
  where
    on_connector :
        (c : Option (Connector E))
        → Preserves (SameStores base) (execute_on get to_number lease dto c)
    on_connector none = Preserves-raise _
    on_connector (some c) =
        Preserves-bind _ _ (for_target-SameStores to_number lease dto.target_system) (λ policy.
          Preserves-bind _ _
            (execute-SameStores _ (on_target-SameStores (c.execute (to_connector dto)))
              policy.options)
            (λ result. require_success-SameStores dto result))

-- Executing an event, retries included, changes neither the queue nor the locks nor the outbox nor the
-- rows of the target systems, whatever its outcome.
pub execute_with_retry-SameStores :
    {E : Type 0} (get : String → Option (Connector E)) (to_number : Option Json → Number)
    (lease : Option ℕ) (dto : ProcessingPayload) (w : World E)
    → SameStores w (execute_with_retry get to_number lease dto w).1
execute_with_retry-SameStores get to_number lease dto w =
    (execute_with_retry-Preserves get to_number lease dto w).at w (SameStores-refl w)
