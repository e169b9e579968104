-- ===== src/Inbound/Webhook.antt =====
-- inbound/webhooks/webhook.service.ts and the answer of webhook.controller.ts. Keys on which the
-- webhook locks are those that EncryptionService.idempotencyKeys returns for the event's key.
pub mod Lock
use Prim.Native.String
use idm_mw.Prelude.{
  ℕ, String, ◌==◌, Bool, true, false, ◌&&◌, Option, none, some, List, or_else, if◌then◌else◌,
}
use idm_mw.Json.{Json, Number, Fields, bool, str, obj, as_record, get_field}
use idm_mw.Effects.{Thrown, Result, ok, throw, Exec, pure, raise, try_catch, ◌>>=◌, ◌>>◌}
use idm_mw.Core.World.{World}
use idm_mw.Core.Idempotency.{IdempotencyStore, check_and_lock, release}
use idm_mw.Core.Processing.{ProcessingPayload, process_with_result, is_durably_accepted_error}
use idm_mw.Connectors.{Connector, ConnectorResult}
use idm_mw.Kafka.{Settings, KafkaProducer}
use idm_mw.Outbound.{dispatch}

pub record ProcessResult : Type 0 where
  pub processed : Bool
  pub data_value : Option Json

-- `value === 'email'`, `value === false`
abbrev pub is_text : String → Option Json → Bool
is_text s (some (str t)) = t == s
is_text s _ = false

abbrev pub is_false : Option Json → Bool
is_false (some (bool false)) = true
is_false _ = false

abbrev safe_metadata : Option Fields → Option Json
safe_metadata none = none
safe_metadata (some metadata) =
    if is_text "email" (get_field metadata "passwordDelivery")
      && is_false (get_field metadata "passwordKnown")
    then some (obj metadata)
    else none

unfoldable pub safe_write_response_data : Option Json → Option Json
safe_write_response_data data_value = safe_metadata (as_record data_value)

abbrev pub data_of : Option ConnectorResult → Option Json
data_of none = none
data_of (some r) = r.data_value

unfoldable pub idempotency_key : ProcessingPayload → String
idempotency_key dto =
    String.◌++◌ "avanpost:" (String.◌++◌ dto.target_system (String.◌++◌ ":" dto.event_id))

module _ {E : Type 0} (settings : Settings) (producer : KafkaProducer)
    (get : String → Option (Connector E)) (to_number : Option Json → Number)
    (store : IdempotencyStore E) (keys_of : String → List String) where
  -- The `try` block: a read is answered by the connector, a write goes through the dispatcher.
  unfoldable pub run_event : ProcessingPayload → Bool → Exec (World E) ProcessResult
  unfolding process_with_result dispatch safe_write_response_data
  run_event dto true = do
    result ← process_with_result get to_number settings.dlq_retry_lease_seconds dto
    pure (record { processed = result.success; data_value = result.data_value })
  run_event dto false = do
    result ← dispatch settings producer get to_number dto
    pure (record { processed = true; data_value = safe_write_response_data (data_of result) })

  -- The `catch` block.
  unfoldable pub event_failed : ProcessingPayload → Thrown → Exec (World E) ProcessResult
  unfolding release is_durably_accepted_error idempotency_key
  event_failed dto e = do
    if is_durably_accepted_error e then pure tt else release store (keys_of (idempotency_key dto))
    raise e

  unfoldable pub process_webhook : ProcessingPayload → Bool → Exec (World E) ProcessResult
  unfolding check_and_lock run_event event_failed idempotency_key
  process_webhook dto is_read = do
    is_new ← check_and_lock store (keys_of (idempotency_key dto)) 3600
    if is_new
        then try_catch (run_event dto is_read) (event_failed dto)
        else pure (record { processed = false; data_value = none })
