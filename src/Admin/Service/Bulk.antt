-- ===== src/Admin/Service/Bulk.antt =====
-- Retrying many items at once.
use idm_mw.Prelude.{ℕ, ◌+◌, ◌≡◌, String, true, false, Option, List, [], ◌∷◌, length}
use idm_mw.Json.{Json, Number}
use idm_mw.Effects.{Thrown, message, ok, throw}
use idm_mw.Core.World.{World, DlqItem}
use idm_mw.Core.Dlq
use idm_mw.Connectors.{Connector}
use idm_mw.Kafka.{Settings, KafkaProducer}
use idm_mw.Admin.Service.{
  RetryManyResult, ItemOutcome, queued, skipped, failed, retry_item, counted,
}

-- The number of attempts that a result tells of.
abbrev pub attempts : RetryManyResult → ℕ
attempts r = r.queued_count + (r.skipped_count + length r.errors)

module _ {E : Type 0} (settings : Settings) (producer : KafkaProducer)
    (get : String → Option (Connector E)) (to_number : Option Json → Number) (pid : String)
    (id_text : ℕ → String) where
  -- One attempt at an item: another process holds it, it is claimed and retried or queued, or the claim or
  -- what follows it fails.
  pub data Attempt (i : DlqItem) (w : World E) : ItemOutcome → World E → Type 0 where
    lost :
        {v : World E}
        → Dlq.retry to_number settings.dlq_retry_lease_seconds pid i.id w ≡ (ok false, v)
        → Attempt i w skipped v
    sent :
        {t v : World E}
        → Dlq.retry to_number settings.dlq_retry_lease_seconds pid i.id w ≡ (ok true, t)
        → retry_item settings producer get to_number pid id_text i t ≡ (ok tt, v)
        → Attempt i w queued v
    claim_failed :
        {v : World E} (e : Thrown)
        → Dlq.retry to_number settings.dlq_retry_lease_seconds pid i.id w ≡ (throw e, v)
        → Attempt i w (failed (message e)) v
    send_failed :
        {t v : World E} (e : Thrown)
        → Dlq.retry to_number settings.dlq_retry_lease_seconds pid i.id w ≡ (ok true, t)
        → retry_item settings producer get to_number pid id_text i t ≡ (throw e, v)
        → Attempt i w (failed (message e)) v

  -- Every item of the list is attempted in turn, and its outcome is counted.
  pub data Attempts
      : List DlqItem → RetryManyResult → World E → RetryManyResult → World E → Type 0 where
    finished : {r : RetryManyResult} {w : World E} → Attempts [] r w r w
    next :
        {i : DlqItem} {rest : List DlqItem} {r r' : RetryManyResult} {w v u : World E}
        {o : ItemOutcome}
        → Attempt i w o v
        → Attempts rest (counted i.id o r) v r' u
        → Attempts (i ∷ rest) r w r' u
