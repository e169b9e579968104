-- ===== src/Outbound/Locks.antt =====
-- Neither processing nor dispatching an event touches the locks on events.
use idm_mw.Prelude.{ℕ, ◌∙◌, String, ◌==◌, ◌||◌, Option, none, some, or_else, if◌then◌else◌, not}
use idm_mw.Json.{Json, Number, Fields}
use idm_mw.Effects.{Thrown, Result}
use idm_mw.Effects.Preserves.{
  Preserves, Preserves-pure, Preserves-raise, Preserves-if, Preserves-bind, Preserves-then,
  Preserves-try,
}
use idm_mw.Core.World.{World, EventStatus, success, failed}
use idm_mw.Core.World.Stable.{Preserves-external}
use idm_mw.Core.Dlq.Locks.{SameKeys, SameKeys-stable}
use idm_mw.Core.Processing.{
  ProcessingPayload, process, process_with_result, read_found, answer_from, require_success,
  count_event, count_connector_error, to_connector,
}
use idm_mw.Core.Processing.Durable.{Outcome, executed, kept, unkept, process-Outcome}
use idm_mw.Connectors.{Connector, ConnectorPayload, ConnectorResult, Call, on_target}
use idm_mw.Kafka.{Settings, KafkaProducer, send}
use idm_mw.Outbound.{dispatch, dispatch_now, dispatch_failed, enqueue, kafka_on}

module _ {E : Type 0} (base : World E) where
  Outcome-SameKeys :
      (dto : ProcessingPayload) (w u : World E) (r : Result ConnectorResult)
      → Outcome dto w u r
      → SameKeys base w
      → SameKeys base u
  Outcome-SameKeys dto w u _ (executed good same) h = same.idempotency_keys ∙ h
  Outcome-SameKeys dto w u _ (kept i row rows keys) h = keys ∙ h
  Outcome-SameKeys dto w u _ (unkept keys) h = keys ∙ h

  count_event-SameKeys :
      (status : EventStatus) (target : String)
      → Preserves (SameKeys base) (count_event status target)
  count_event-SameKeys status target = record { at = λ w h. h }

  on_target-SameKeys : {A : Type 0} (call : Call E A) → Preserves (SameKeys base) (on_target call)
  on_target-SameKeys call = record { at = λ w h. h }

  send-SameKeys :
      (producer : KafkaProducer) (topic : String) (body : Fields)
      → Preserves (SameKeys base) (send producer topic body)
  unfolding send
  send-SameKeys producer topic body =
      Preserves-if producer.available _ _
        (Preserves-external _ (SameKeys-stable base) (record { at = λ w h. h }))
        (Preserves-if producer.enabled _ _ (Preserves-raise _) (Preserves-pure tt))

  require_success-SameKeys :
      (dto : ProcessingPayload) (r : ConnectorResult)
      → Preserves (SameKeys base) (require_success dto r)
  unfolding require_success
  require_success-SameKeys dto r = Preserves-if r.success _ _ (Preserves-pure r) (
      Preserves-then (count_connector_error dto.target_system dto.operation) _
        (record { at = λ w h. h }) (Preserves-raise _))

  module _ (get : String → Option (Connector E)) (to_number : Option Json → Number)
      (lease : Option ℕ) where
    process-SameKeys :
        (dto : ProcessingPayload) → Preserves (SameKeys base) (process get to_number lease dto)
    process-SameKeys dto = record {
      at = λ w h. Outcome-SameKeys dto w _ _ (process-Outcome get to_number lease dto w) h;
    }

    answer_from-SameKeys :
        (dto : ProcessingPayload) (c : Connector E)
        (a : Option (ConnectorPayload → Call E ConnectorResult))
        (b : Option (ConnectorPayload → String → Call E ConnectorResult))
        → Preserves (SameKeys base) (answer_from get to_number lease dto c a b)
    unfolding answer_from
    answer_from-SameKeys dto c (some get_schema) b =
        on_target-SameKeys (get_schema (to_connector dto))
    answer_from-SameKeys dto c none (some sync) = on_target-SameKeys (sync (to_connector dto) _)
    answer_from-SameKeys dto c none none =
        Preserves-bind _ _ (on_target-SameKeys (c.execute (to_connector dto)))
          (require_success-SameKeys dto)

    read_found-SameKeys :
        (dto : ProcessingPayload) (c : Option (Connector E))
        → Preserves (SameKeys base) (read_found get to_number lease dto c)
    unfolding read_found
    read_found-SameKeys dto none = Preserves-raise _
    read_found-SameKeys dto (some c) =
        Preserves-try _ _
          (Preserves-bind _ _
            (answer_from-SameKeys dto c
              (if dto.operation == "schema.get" then c.get_schema else none)
              (if dto.operation == "sync.full" || dto.operation == "sync.incremental"
                then c.sync
                else none))
            (λ r.
              Preserves-then _ _ (count_event-SameKeys success dto.target_system)
                (Preserves-pure r)))
          (λ e.
            Preserves-then _ _ (count_event-SameKeys failed dto.target_system) (Preserves-raise e))

    pub process_with_result-SameKeys :
        (dto : ProcessingPayload)
        → Preserves (SameKeys base) (process_with_result get to_number lease dto)
    unfolding process_with_result
    process_with_result-SameKeys dto = read_found-SameKeys dto (get dto.target_system)

  module _ (settings : Settings) (producer : KafkaProducer) (get : String → Option (Connector E))
      (to_number : Option Json → Number) where
    enqueue-SameKeys :
        (dto : ProcessingPayload)
        → Preserves (SameKeys base) (enqueue settings producer get to_number dto)
    unfolding enqueue
    enqueue-SameKeys dto =
        Preserves-if (not (kafka_on settings)) _ _ (Preserves-raise _)
          (Preserves-then _ _ (send-SameKeys producer _ _) (Preserves-pure none))

    dispatch_now-SameKeys :
        (dto : ProcessingPayload)
        → Preserves (SameKeys base) (dispatch_now settings producer get to_number dto)
    unfolding dispatch_now
    dispatch_now-SameKeys dto =
        Preserves-bind _ _ (process-SameKeys get to_number settings.dlq_retry_lease_seconds dto)
          (λ r.
            Preserves-then _ _
              (Preserves-if (kafka_on settings) _ _ (send-SameKeys producer _ _)
                (Preserves-pure tt))
              (Preserves-pure (some r)))

    dispatch_failed-SameKeys :
        (dto : ProcessingPayload) (e : Thrown)
        → Preserves (SameKeys base) (dispatch_failed settings producer get to_number dto e)
    unfolding dispatch_failed
    dispatch_failed-SameKeys dto e =
        Preserves-then _ _
          (Preserves-if (kafka_on settings) _ _ (send-SameKeys producer _ _) (Preserves-pure tt))
          (Preserves-raise e)

    pub dispatch-SameKeys :
        (dto : ProcessingPayload)
        → Preserves (SameKeys base) (dispatch settings producer get to_number dto)
    unfolding dispatch
    dispatch-SameKeys dto =
        Preserves-if (or_else settings.processing_mode "sync" == "async") _ _ (enqueue-SameKeys dto)
          (Preserves-try _ _ (dispatch_now-SameKeys dto) (dispatch_failed-SameKeys dto))
