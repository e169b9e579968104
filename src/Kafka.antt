-- ===== src/Kafka.antt =====
-- kafka/kafka-producer.service.ts and the message handler of kafka/kafka-consumer.service.ts. Message
-- bodies are the values that the encoding gives back; the broker is not modelled beyond its outages.
use idm_mw.Prelude.{
  ℕ, String, Bool, Option, none, some, [], ◌∷◌, ◌++◌, Assoc, or_else, if◌then◌else◌,
}
use idm_mw.Json.{Json, Fields, str, from_entries, Number}
use idm_mw.Effects.{error, message, Result, Exec, pure, raise, modify, try_catch, ◌>>=◌, ◌>>◌}
use idm_mw.Core.World.{World, external}
use idm_mw.Core.Processing.{ProcessingPayload, process, process_retry}
use idm_mw.Connectors.{Connector}

-- The values of ConfigService that the pipeline reads.
pub record Settings : Type 0 where
  pub kafka_enabled : Option Bool
  pub processing_mode : Option String
  pub topic_events_in : Option String
  pub topic_events_out : Option String
  pub topic_dlq_retry : Option String
  pub dlq_retry_lease_seconds : Option ℕ

-- `enabled` and whether `onModuleInit` has made a producer.
pub record KafkaProducer : Type 0 where
  pub enabled : Bool
  pub available : Bool

abbrev pub text_fields : Assoc String → Assoc Json
text_fields [] = []
text_fields ((k, v) ∷ m) = (k, str v) ∷ text_fields m

module _ {E : Type 0} where
  unfoldable pub send : KafkaProducer → String → Fields → Exec (World E) Unit
  send producer topic body =
      if producer.available
      then external (
          modify
            (λ w. record w { outbox = w.outbox ++ record { topic = topic; body = body } ∷ [] }))
      else (if producer.enabled
          then raise (error "Kafka producer is enabled but not available")
          else pure tt)

-- A message of the in and retry topics, as `decodeKafkaMessage` returns it.
pub record Incoming : Type 0 where
  pub dlq_item_id : Option ℕ
  pub payload : ProcessingPayload

abbrev pub events_out : Settings → String
events_out settings = or_else settings.topic_events_out "idm.events.out"

module _ {E : Type 0} (settings : Settings) (producer : KafkaProducer)
    (get : String → Option (Connector E)) (to_number : Option Json → Number) where
  unfoldable pub handle_payload : Incoming → Exec (World E) Unit
  unfolding process process_retry
  handle_payload m = elim m.dlq_item_id [
    | some id ↦ process_retry get to_number settings.dlq_retry_lease_seconds m.payload id
    | none ↦ process get to_number settings.dlq_retry_lease_seconds m.payload >> pure tt
  ]

  abbrev pub success_status : String → ProcessingPayload → Fields
  success_status topic p = from_entries (
      text_fields (
        ("eventId", p.event_id)
        ∷ ("operation", p.operation)
        ∷ ("targetSystem", p.target_system)
        ∷ ("status", "success")
        ∷ ("sourceTopic", topic)
        ∷ []))

  abbrev pub failure_status : String → String → Fields
  failure_status topic msg =
      from_entries
        (text_fields (("status", "failed") ∷ ("sourceTopic", topic) ∷ ("error", msg) ∷ []))

  -- `eachMessage`; `decoded` is `throw` where the message cannot be decoded.
  unfoldable pub each_message : String → Result Incoming → Exec (World E) Unit
  unfolding handle_payload send message
  each_message topic decoded =
      try_catch
        (do
          m ← (λ w. (decoded, w))
          handle_payload m
          send producer (events_out settings) (success_status topic m.payload))
        (λ e.
          try_catch (send producer (events_out settings) (failure_status topic (message e)))
            (λ producer_error. pure tt))
