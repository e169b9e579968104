-- ===== src/Core/Processing/Durable.antt =====
-- A write is executed or kept: the outcomes of `process`.
use idm_mw.Prelude.{
  ℕ, ◌≡◌, refl, ap, ◌∙◌, String, true, false, inl, inr, Option, none, some, [], ◌∷◌, ◌++◌, arith,
}
use idm_mw.Json.{Json, Number}
use idm_mw.Effects.{
  Thrown, processing_failure, message, Result, ok, throw, Exec, outcome-cases, >>=-eq-ok,
}
use idm_mw.Effects.Preserves.{Preserves, Preserves-bind}
use idm_mw.Core.World.{World, DlqItem, EventStatus, failed, success, pending}
use idm_mw.Core.Retry.{TargetRetryPolicy, for_target}
use idm_mw.Core.Retry
use idm_mw.Core.Dlq.{new_item}
use idm_mw.Core.Dlq.Locks.{SameKeys, add-SameKeys}
use idm_mw.Core.Dlq.Gauge.{add_lem}
use idm_mw.Connectors.{Connector, ConnectorResult, on_target}
use idm_mw.Core.Processing.{
  ProcessingPayload, require_success, execute_on, execute_with_retry, to_connector, dlq_data,
  store_failure, process_failed, process, count_event,
}
use idm_mw.Core.Processing.Frame.{
  SameStores, SameStores-refl, execute_with_retry-SameStores, for_target-SameStores,
}

-- The row that keeps the event for a later retry.
abbrev pub IsKept : ProcessingPayload → String → DlqItem → Type 0
IsKept dto msg i =
    (i.event_id ≡ dto.event_id)
    × (i.operation ≡ dto.operation)
    × (i.target_system ≡ dto.target_system)
    × (i.payload ≡ dto.payload)
    × (i.error ≡ msg)
    × (i.status ≡ pending)

module _ {E : Type 0} (dto : ProcessingPayload) (w u : World E) where
  -- The documented outcomes: the event was executed and the queue is as it was; or its execution
  -- failed and the queue holds it, pending, with the error that is thrown; or neither is promised,
  -- and the error says so.
  pub data Outcome : Result ConnectorResult → Type 0 where
    executed : {r : ConnectorResult} → r.success ≡ true → SameStores w u → Outcome (ok r)
    kept :
        {msg : String} {cause : Thrown} (i : DlqItem)
        → IsKept dto msg i
        → u.dlq ≡ w.dlq ++ i ∷ []
        → u.idempotency_keys ≡ w.idempotency_keys
        → Outcome (throw (processing_failure msg true cause))
    unkept :
        {msg : String} {cause : Thrown}
        → u.idempotency_keys ≡ w.idempotency_keys
        → Outcome (throw (processing_failure msg false cause))

require_success-ok :
    {E : Type 0} (dto : ProcessingPayload) (r r' : ConnectorResult) (w u : World E)
    → require_success dto r w ≡ (ok r', u)
    → r'.success ≡ true
unfolding require_success
require_success-ok dto r r' w u h = ground arith

SameKeys-of_SameStores :
    {E A : Type 0} (m : Exec (World E) A) (base : World E)
    → ((b : World E) → Preserves (SameStores b) m)
    → Preserves (SameKeys base) m
SameKeys-of_SameStores m base k = record {
  at = λ w h. ((k w).at w (SameStores-refl w)).idempotency_keys ∙ h;
}

module _ {E : Type 0} (get : String → Option (Connector E)) (to_number : Option Json → Number)
    (lease : Option ℕ) (dto : ProcessingPayload) where
  execute_on-ok :
      (c : Option (Connector E)) (w u : World E) (r : ConnectorResult)
      → execute_on get to_number lease dto c w ≡ (ok r, u)
      → r.success ≡ true
  unfolding execute_on
  execute_on-ok none w u r h = cc
  execute_on-ok (some c) w u r h =
      let (policy, t, _, rest) = >>=-eq-ok (for_target to_number lease dto.target_system) _ w h in
      let (result, v, _, last) =
        >>=-eq-ok (Retry.execute (on_target (c.execute (to_connector dto))) policy.options) _ t
          rest in
      require_success-ok dto result r v u last

  store_failure_lem :
      (msg : String) (w u : World E)
      → store_failure get to_number lease dto msg w ≡ (ok tt, u)
      → (i : DlqItem) × IsKept dto msg i × (u.dlq ≡ w.dlq ++ i ∷ [])
  unfolding store_failure
  store_failure_lem msg w u h =
      let (policy, t, asked, added) =
        >>=-eq-ok (for_target to_number lease dto.target_system) _ w h in
      let kept : SameStores w t =
        rw asked at
          ((for_target-SameStores to_number lease dto.target_system).at w (SameStores-refl w)) in
      let (rows, _) = add_lem (dlq_data get to_number lease dto msg policy) t u added in
      (
        new_item t.next_id (dlq_data get to_number lease dto msg policy),
        (refl, refl, refl, refl, refl, refl),
        rows
            ∙ ap (λ q. q ++ new_item t.next_id (dlq_data get to_number lease dto msg policy) ∷ [])
                kept.dlq,
      )

  store_failure-SameKeys :
      (msg : String) (base : World E)
      → Preserves (SameKeys base) (store_failure get to_number lease dto msg)
  unfolding store_failure
  store_failure-SameKeys msg base =
      Preserves-bind _ _
        (SameKeys-of_SameStores (for_target to_number lease dto.target_system) base
          (λ b. for_target-SameStores to_number lease dto.target_system))
        (λ policy. add-SameKeys base (dlq_data get to_number lease dto msg policy))

  process_failed-Outcome :
      (e : Thrown) (w t : World E)
      → SameStores w t
      → Outcome dto w
          (process_failed get to_number lease dto e t).1
          (process_failed get to_number lease dto e t).0
  unfolding process_failed
  process_failed-Outcome e w t same =
      let t' = (count_event failed dto.target_system t).1 in
      let keys : (store_failure get to_number lease dto (message e) t').1.idempotency_keys
          ≡ w.idempotency_keys =
        (store_failure-SameKeys (message e) w).at t' same.idempotency_keys in
      elim (outcome-cases (store_failure get to_number lease dto (message e) t')) [
        | inl (_, v, stored) ↦
            let (i, row, rows) = store_failure_lem (message e) t' v stored in
            rw stored (kept i row (rows ∙ ap (λ q. q ++ i ∷ []) same.dlq) (rw stored at keys))
        | inr (x, v, lost) ↦ rw lost (unkept (rw lost at keys))
      ]

counted-SameStores :
    {E : Type 0} (status : EventStatus) (target : String) {base w : World E}
    → SameStores base w
    → SameStores base (count_event status target w).1
counted-SameStores status target h = record {
  dlq = h.dlq;
  next_id = h.next_id;
  idempotency_keys = h.idempotency_keys;
  outbox = h.outbox;
  target_systems = h.target_systems;
}

-- A processed event was executed with success and the queue is as it was, or it was not and the error
-- tells what became of it: if the error says "durably accepted", exactly one row was appended to the
-- queue, pending, with the event's operation, target and payload. In no case does processing touch
-- the locks on events. This holds for every connector and whichever calls of the database fail.
pub process-Outcome :
    {E : Type 0} (get : String → Option (Connector E)) (to_number : Option Json → Number)
    (lease : Option ℕ) (dto : ProcessingPayload) (w : World E)
    → Outcome dto w (process get to_number lease dto w).1 (process get to_number lease dto w).0
unfolding process
process-Outcome get to_number lease dto w =
    let same = execute_with_retry-SameStores get to_number lease dto w in
    elim (outcome-cases (execute_with_retry get to_number lease dto w)) [
      | inl (r, t, e) ↦ rw e (
          executed (execute_on-ok get to_number lease dto (get dto.target_system) w t r e)
            (counted-SameStores success dto.target_system (rw e at same)))
      | inr (x, t, e) ↦ rw e (process_failed-Outcome get to_number lease dto x w t (rw e at same))
    ]
