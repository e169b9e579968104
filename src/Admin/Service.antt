-- ===== src/Admin/Service.antt =====
-- admin/admin.service.ts: what administrators do with the items of the dead letter queue. Queries
-- return rows in the order in which they were created, or the reverse.
pub mod Bulk
use Prim.Native.String
use mathlib.Core.List.{reverse}
use idm_mw.Prelude.{
  ℕ, zero, suc, ◌+◌, ◌-◌, String, ◌==◌, Bool, true, false, not, ◌&&◌, Option, none, some, List, [],
  ◌∷◌, ◌++◌, min, map, drop, keep, count_of, includes, length, or_else, if◌then◌else◌,
}
use idm_mw.Json.{Json, Number, num, int, pos, str, obj, from_entries, Fields, positive_int}
use idm_mw.Effects.{
  Thrown, error, message, Result, ok, throw, Exec, pure, raise, gets, try_catch, ◌>>=◌, ◌>>◌,
}
use idm_mw.Core.World.{World, DlqItem, Status, external}
use idm_mw.Core.Dlq
use idm_mw.Core.Processing.{ProcessingPayload, process_retry}
use idm_mw.Connectors.{Connector}
use idm_mw.Kafka.{Settings, KafkaProducer, send}

-- A status, a target and the targets that the administrator may see.
pub record Scope : Type 0 where
  pub status : Option String
  pub target_system : Option String
  pub allowed_target_systems : Option (List String)

pub record RetryManyParams : Type 0 where
  pub scope : Scope
  pub limit : Option Json

pub data ItemOutcome : Type 0 where
  queued skipped : ItemOutcome
  failed : String → ItemOutcome

pub record RetryManyResult : Type 0 where
  pub requested : ℕ
  pub queued_count : ℕ
  pub skipped_count : ℕ
  pub errors : List (ℕ × String)

abbrev pub no_items : RetryManyResult
no_items = record { requested = 0; queued_count = 0; skipped_count = 0; errors = [] }

abbrev non_empty : Option String → Option String
non_empty none = none
non_empty (some s) = if s == "" then none else some s

abbrev pub is_allowed : Option (List String) → String → Bool
is_allowed none target = true
is_allowed (some targets) target = includes targets target

-- The condition on `targetSystem`: a target that was asked for stands in place of the allowed ones.
abbrev pub has_target : Option String → Option (List String) → String → Bool
has_target (some asked) allowed target = target == asked
has_target none allowed target = is_allowed allowed target

abbrev pub has_status : Option String → Status → Bool
has_status none s = true
has_status (some asked) s = Dlq.text s == asked

abbrev pub in_scope : Option String → Scope → DlqItem → Bool
in_scope status scope i =
    has_status status i.status
    && has_target (non_empty scope.target_system) scope.allowed_target_systems i.target_system

-- `allowedTargetSystems && allowedTargetSystems.length === 0`
abbrev pub sees_nothing : Scope → Bool
sees_nothing scope = elim scope.allowed_target_systems [
  | none ↦ false
  | some targets ↦ elim targets [ [] ↦ true | t ∷ ts ↦ false ]
]

abbrev pub take_rows : {A : Type 0} → ℕ → List A → List A
take_rows zero xs = []
take_rows (suc n) [] = []
take_rows (suc n) (x ∷ xs) = x ∷ take_rows n xs

module _ (to_number : Option Json → Number) where
  abbrev capped : Option ℕ → ℕ → ℕ → ℕ
  capped none default_value max_value = default_value
  capped (some n) default_value max_value = min n max_value

  unfoldable pub limit : Option Json → ℕ → ℕ → ℕ
  limit value default_value max_value =
      capped (positive_int (to_number value)) default_value max_value

  unfoldable pub offset : Option Json → ℕ
  offset value = or_else (positive_int (to_number value)) 0

module _ {E : Type 0} (to_number : Option Json → Number) where
  -- Newest first.
  unfoldable pub find_dlq_items : Scope → Option Json → Option Json → Exec (World E) (List DlqItem)
  unfolding limit offset includes
  find_dlq_items scope limit_value offset_value =
      if sees_nothing scope
      then pure []
      else external (
          gets (λ w. take_rows (limit to_number limit_value 50 200) (
            drop (offset to_number offset_value)
              (keep (in_scope (non_empty scope.status) scope) (reverse w.dlq)))))

abbrev pub counted : ℕ → ItemOutcome → RetryManyResult → RetryManyResult
counted id queued r = record r { queued_count = r.queued_count + 1 }
counted id skipped r = record r { skipped_count = r.skipped_count + 1 }
counted id (failed msg) r = record r { errors = r.errors ++ (id, msg) ∷ [] }

-- `pid` names this process, `id_text` how an id reads.
module _ {E : Type 0} (settings : Settings) (producer : KafkaProducer)
    (get : String → Option (Connector E)) (to_number : Option Json → Number) (pid : String)
    (id_text : ℕ → String) where
  abbrev retry_message : DlqItem → Fields
  retry_message i = from_entries (
      ("dlqItemId", num (int (pos i.id)))
      ∷ ("eventId", str i.event_id)
      ∷ ("operation", str i.operation)
      ∷ ("targetSystem", str i.target_system)
      ∷ ("payload", obj i.payload)
      ∷ [])

  abbrev payload_of : DlqItem → ProcessingPayload
  payload_of i = record {
    event_id = i.event_id;
    operation = i.operation;
    target_system = i.target_system;
    payload = i.payload;
  }

  unfoldable pub retry_item : DlqItem → Exec (World E) Unit
  unfolding send process_retry
  retry_item i =
      if or_else settings.kafka_enabled false
      then send producer (or_else settings.topic_dlq_retry "idm.dlq.retry") (retry_message i)
      else process_retry get to_number settings.dlq_retry_lease_seconds (payload_of i) i.id

  abbrev retry_found : Option DlqItem → Exec (World E) Unit
  retry_found none = pure tt
  retry_found (some i) = retry_item i

  unfoldable pub retry : ℕ → Exec (World E) Unit
  unfolding Dlq.retry Dlq.find Dlq.update_metrics retry_item
  retry id = do
    claimed ← Dlq.retry to_number settings.dlq_retry_lease_seconds pid id
    if claimed
        then pure tt
        else raise (
            error (
              String.◌++◌ "DLQ item "
                (String.◌++◌ (id_text id) " is already retrying, skipped, or resolved")))
    found ← external (gets (λ w. Dlq.find id w.dlq))
    retry_found found
    Dlq.update_metrics

  -- The body of the loop of `retryMany`.
  unfoldable pub attempt_item : DlqItem → Exec (World E) ItemOutcome
  unfolding Dlq.retry retry_item message
  attempt_item i =
      try_catch
        (do
          claimed ← Dlq.retry to_number settings.dlq_retry_lease_seconds pid i.id
          if claimed then retry_item i >> pure queued else pure skipped)
        (λ e. pure (failed (message e)))

  unfoldable pub retry_loop : List DlqItem → RetryManyResult → Exec (World E) RetryManyResult
  unfolding attempt_item
  retry_loop [] r w = (ok r, w)
  retry_loop (i ∷ rest) r w =
      (attempt_item i >>= (λ outcome. retry_loop rest (counted i.id outcome r))) w

  unfoldable pub retry_items : RetryManyParams → Exec (World E) (List DlqItem)
  unfolding limit includes
  retry_items params = external (
      gets (λ w.
        take_rows (limit to_number params.limit 25 100)
          (keep (in_scope (some (or_else params.scope.status "pending")) params.scope) w.dlq)))

  unfoldable pub retry_many : RetryManyParams → Exec (World E) RetryManyResult
  unfolding retry_items retry_loop Dlq.update_metrics
  retry_many params = if sees_nothing params.scope then pure no_items else (do
    items ← retry_items params
    result ← retry_loop items (record no_items { requested = length items })
    Dlq.update_metrics
    pure result)

module _ {E : Type 0} where
  unfoldable pub skip : ℕ → Exec (World E) Unit
  unfolding Dlq.skip Dlq.update_metrics
  skip id = do Dlq.skip id; Dlq.update_metrics
