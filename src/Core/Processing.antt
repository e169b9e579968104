-- ===== src/Core/Processing.antt =====
-- core/processing.service.ts: an event is executed by the connector of its target system; a write
-- that fails goes to the dead letter queue.

pub mod Frame
pub mod Durable
use idm_mw.Prelude.{
  ℕ, String, ◌==◌, Bool, true, false, not, ◌&&◌, ◌||◌, Option, none, some, List, if◌then◌else◌,
  or_else,
}
use Prim.Native.String
use idm_mw.Json.{Json, Number, Fields}
use idm_mw.Effects.{
  Thrown, error, processing_failure, message, Result, ok, throw, Exec, pure, raise, modify,
  try_catch, ◌>>=◌, ◌>>◌,
}
use idm_mw.Core.World.{World, EventStatus, success, failed, external}
use idm_mw.Core.Metrics.{record_event, record_connector_error}
use idm_mw.Core.Retry.{TargetRetryPolicy, for_target}
use idm_mw.Core.Retry
use idm_mw.Core.Dlq
use idm_mw.Connectors.{ConnectorPayload, ConnectorResult, Connector, Call, on_target}

pub record ProcessingPayload : Type 0 where
  pub event_id : String
  pub operation : String
  pub target_system : String
  pub payload : Fields

unfoldable pub is_durably_accepted_error : Thrown → Bool
is_durably_accepted_error (processing_failure m durable cause) = durable
is_durably_accepted_error _ = false

abbrev pub to_connector : ProcessingPayload → ConnectorPayload
to_connector dto = record {
  operation = dto.operation;
  target_system = dto.target_system;
  payload = dto.payload;
}

abbrev pub unsupported_target : String → Thrown
unsupported_target target = error (String.◌++◌ "Unsupported target system: " target)

module _ {E : Type 0} where
  abbrev pub count_event : EventStatus → String → Exec (World E) Unit
  count_event status target =
      modify (λ w. record w { metrics = record_event w.clock status target w.metrics })

  abbrev pub count_connector_error : String → String → Exec (World E) Unit
  count_connector_error target operation =
      modify (λ w. record w { metrics = record_connector_error target operation w.metrics })

  -- `if (!result.success) { … throw … }`
  unfoldable pub require_success :
      ProcessingPayload → ConnectorResult → Exec (World E) ConnectorResult
  unfolding record_connector_error
  require_success dto result =
      if result.success
      then pure result
      else (count_connector_error dto.target_system dto.operation
          >> raise (error (or_else result.error "Connector returned failure")))

-- `get` is ConnectorRegistry.get, `to_number` JavaScript's `Number`, `lease` the configured lease.
module _ {E : Type 0} (get : String → Option (Connector E)) (to_number : Option Json → Number)
    (lease : Option ℕ) where
  unfoldable pub execute_on :
      ProcessingPayload → Option (Connector E) → Exec (World E) ConnectorResult
  unfolding require_success Retry.execute for_target
  execute_on dto none = raise (unsupported_target dto.target_system)
  execute_on dto (some connector) = do
    policy ← for_target to_number lease dto.target_system
    result ← Retry.execute (on_target (connector.execute (to_connector dto))) policy.options
    require_success dto result

  unfoldable pub execute_with_retry : ProcessingPayload → Exec (World E) ConnectorResult
  unfolding execute_on
  execute_with_retry dto = execute_on dto (get dto.target_system)

  abbrev pub dlq_data : ProcessingPayload → String → TargetRetryPolicy → Dlq.DlqItemData
  dlq_data dto msg policy = record {
    event_id = dto.event_id;
    operation = dto.operation;
    target_system = dto.target_system;
    payload = dto.payload;
    error = msg;
    retry_count = some policy.max_retries;
  }

  -- The `try` around `dlq.add`.
  unfoldable pub store_failure : ProcessingPayload → String → Exec (World E) Unit
  unfolding Dlq.add for_target
  store_failure dto msg = do
    policy ← for_target to_number lease dto.target_system
    Dlq.add (dlq_data dto msg policy)

  unfoldable pub process_failed : ProcessingPayload → Thrown → Exec (World E) ConnectorResult
  unfolding store_failure record_event message
  process_failed dto e = do
    count_event failed dto.target_system
    try_catch (store_failure dto (message e)) (λ dlq_error. raise (
        processing_failure
          (String.◌++◌ "Processing failed before durable DLQ acceptance: " (message dlq_error))
          false e))
    raise (processing_failure (message e) true e)

  unfoldable pub process : ProcessingPayload → Exec (World E) ConnectorResult
  unfolding execute_with_retry process_failed record_event
  process dto =
      try_catch
        (do result ← execute_with_retry dto; count_event success dto.target_system; pure result)
        (process_failed dto)

  unfoldable pub process_retry : ProcessingPayload → ℕ → Exec (World E) Unit
  unfolding execute_with_retry record_event Dlq.resolve Dlq.mark_retry_failed message
  process_retry dto dlq_item_id =
      try_catch
        (do execute_with_retry dto; count_event success dto.target_system; Dlq.resolve dlq_item_id)
        (λ e. do
          count_event failed dto.target_system
          Dlq.mark_retry_failed dlq_item_id (message e)
          raise e)

  -- The three ways to a connector's answer: `getSchema`, `sync`, and `execute`.
  unfoldable pub answer_from :
      ProcessingPayload
      → Connector E
      → Option (ConnectorPayload → Call E ConnectorResult)
      → Option (ConnectorPayload → String → Call E ConnectorResult)
      → Exec (World E) ConnectorResult
  unfolding require_success
  answer_from dto connector (some get_schema) sync = on_target (get_schema (to_connector dto))
  answer_from dto connector none (some sync) = on_target (
      sync (to_connector dto)
        (if dto.operation == "sync.incremental" then "incremental" else "full"))
  answer_from dto connector none none = do
    result ← on_target (connector.execute (to_connector dto))
    require_success dto result

  unfoldable pub read_from : ProcessingPayload → Connector E → Exec (World E) ConnectorResult
  unfolding answer_from
  read_from dto connector =
      answer_from dto connector
        (if dto.operation == "schema.get" then connector.get_schema else none)
        (if dto.operation == "sync.full" || dto.operation == "sync.incremental"
          then connector.sync
          else none)

  unfoldable pub read_found :
      ProcessingPayload → Option (Connector E) → Exec (World E) ConnectorResult
  unfolding read_from record_event
  read_found dto none = raise (unsupported_target dto.target_system)
  read_found dto (some connector) =
      try_catch
        (do result ← read_from dto connector; count_event success dto.target_system; pure result)
        (λ e. do count_event failed dto.target_system; raise e)

  unfoldable pub process_with_result : ProcessingPayload → Exec (World E) ConnectorResult
  unfolding read_found
  process_with_result dto = read_found dto (get dto.target_system)
