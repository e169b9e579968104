-- ===== src/Outbound.antt =====
-- outbound/dispatcher.service.ts: a write event is processed at once, or queued for the workers.
pub mod Locks
use idm_mw.Prelude.{
  ℕ, String, ◌==◌, Bool, true, false, not, Option, none, some, List, [], ◌∷◌, or_else,
  if◌then◌else◌,
}
use idm_mw.Json.{Json, Number, Fields, str, obj, from_entries}
use idm_mw.Effects.{
  Thrown, error, message, Result, ok, throw, Exec, pure, raise, try_catch, ◌>>=◌, ◌>>◌,
}
use idm_mw.Core.World.{World}
use idm_mw.Core.Processing.{ProcessingPayload, process}
use idm_mw.Connectors.{Connector, ConnectorResult}
use idm_mw.Kafka.{Settings, KafkaProducer, send, events_out, text_fields}

abbrev pub kafka_on : Settings → Bool
kafka_on settings = or_else settings.kafka_enabled false

module _ {E : Type 0} (settings : Settings) (producer : KafkaProducer)
    (get : String → Option (Connector E)) (to_number : Option Json → Number) where
  abbrev pub queued_event : ProcessingPayload → Fields
  queued_event dto = from_entries (
      ("eventId", str dto.event_id)
      ∷ ("operation", str dto.operation)
      ∷ ("targetSystem", str dto.target_system)
      ∷ ("payload", obj dto.payload)
      ∷ [])

  abbrev pub succeeded_event : ProcessingPayload → Fields
  succeeded_event dto = from_entries (
      text_fields (
        ("eventId", dto.event_id)
        ∷ ("operation", dto.operation)
        ∷ ("targetSystem", dto.target_system)
        ∷ ("status", "success")
        ∷ []))

  abbrev pub failed_event : ProcessingPayload → String → Fields
  failed_event dto msg = from_entries (
      text_fields (
        ("eventId", dto.event_id)
        ∷ ("operation", dto.operation)
        ∷ ("targetSystem", dto.target_system)
        ∷ ("status", "failed")
        ∷ ("error", msg)
        ∷ []))

  -- The branch of the asynchronous mode.
  unfoldable pub enqueue : ProcessingPayload → Exec (World E) (Option ConnectorResult)
  unfolding send
  enqueue dto =
      if not (kafka_on settings)
      then raise (error "Async processing mode requires KAFKA_ENABLED=true")
      else (do
        send producer (or_else settings.topic_events_in "idm.events.in") (queued_event dto)
        pure none)

  unfoldable pub dispatch_failed :
      ProcessingPayload → Thrown → Exec (World E) (Option ConnectorResult)
  unfolding send message
  dispatch_failed dto e = do
    if kafka_on settings
        then send producer (events_out settings) (failed_event dto (message e))
        else pure tt
    raise e

  -- The `try` block of the synchronous mode.
  unfoldable pub dispatch_now : ProcessingPayload → Exec (World E) (Option ConnectorResult)
  unfolding process send
  dispatch_now dto = do
    result ← process get to_number settings.dlq_retry_lease_seconds dto
    if kafka_on settings then send producer (events_out settings) (succeeded_event dto) else pure tt
    pure (some result)

  unfoldable pub dispatch : ProcessingPayload → Exec (World E) (Option ConnectorResult)
  unfolding enqueue dispatch_now dispatch_failed
  dispatch dto =
      if or_else settings.processing_mode "sync" == "async"
      then enqueue dto
      else try_catch (dispatch_now dto) (dispatch_failed dto)
