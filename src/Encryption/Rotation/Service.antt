-- ===== src/Encryption/Rotation/Service.antt =====
-- security/encryption-rotation.service.ts: the checks before a rotation, and the rotation.
use idm_mw.Prelude.{
  ℕ, ◌+◌, ◌-◌, String, ◌==◌, Bool, false, not, ◌||◌, Option, List, [], ◌∷◌, ◌++◌, ltb, eqb, or_else,
  concat, join, count_of, if◌then◌else◌,
}
use idm_mw.Effects.{Thrown, error, Result, Exec, pure, raise, gets, try_catch, ◌>>=◌, ◌>>◌}
use idm_mw.Effects.Results.{lift}
use idm_mw.Core.World.{pending, retrying}
use idm_mw.Core.Dlq.{same}
use idm_mw.Encryption.Keyring.{Node, Settings, is_enabled, active_key_id, validate_configuration}
use idm_mw.Encryption.Rotation.{
  Row, DlqCells, EncryptionStateRow, Storage, database, load_state, mark_rotation,
  complete_rotation, rotate_audit_logs, rotate_dlq_items, rotate_target_systems,
}

-- The offsets of one topic: the end of each partition, and what the group has committed.
pub record TopicOffsets : Type 0 where
  pub ends : List (ℕ × ℕ)
  pub committed : List (ℕ × ℕ)

abbrev pub committed_of : ℕ → List (ℕ × ℕ) → ℕ
committed_of partition [] = 0
committed_of partition ((p, offset) ∷ rest) =
    if eqb p partition then offset else committed_of partition rest

-- `Math.max(0, end - Math.max(committed, 0))` over the partitions; no commit counts as 0.
unfoldable pub lag_of : List (ℕ × ℕ) → List (ℕ × ℕ) → ℕ
lag_of [] committed = 0
lag_of ((partition, last) ∷ rest) committed =
    (last - committed_of partition committed) + lag_of rest committed

-- The settings of the rotation that ConfigService holds.
pub record RotationConfig : Type 0 where
  pub kafka_enabled : Option Bool
  pub skip_kafka_lag_check : Option String
  pub topic_events_in : Option String
  pub topic_dlq_retry : Option String

abbrev pub rotation_topics : RotationConfig → List String
rotation_topics c =
    let first = or_else c.topic_events_in "idm.events.in" in
    let second = or_else c.topic_dlq_retry "idm.dlq.retry" in
    first ∷ (if second == first then [] else second ∷ [])

-- `fetch` asks Kafka for the offsets of a topic, in the group of the workers.
unfoldable pub total_lag : (String → Result TopicOffsets) → List String → ℕ → Exec Storage ℕ
unfolding lag_of
total_lag fetch [] lag = pure lag
total_lag fetch (topic ∷ topics) lag = do
  offsets ← lift (fetch topic)
  total_lag fetch topics (lag + lag_of offsets.ends offsets.committed)

unfoldable pub kafka_lag : (String → Result TopicOffsets) → RotationConfig → Exec Storage ℕ
unfolding total_lag
kafka_lag fetch c =
    if not (or_else c.kafka_enabled false) || or_else c.skip_kafka_lag_check "" == "true"
    then pure 0
    else total_lag fetch (rotation_topics c) 0

abbrev pub is_active_item : Row DlqCells → Bool
is_active_item r = same r.cells.status pending || same r.cells.status retrying

abbrev pub blocker : ℕ → String → List String
blocker n what = if ltb 0 n then what ∷ [] else []

abbrev pub refuse_if_blocked : List String → Exec Storage (Unit {0})
refuse_if_blocked [] = pure tt
refuse_if_blocked (b ∷ bs) = raise (
    error (
      concat
        ("Cannot rotate encryption key while processing is active: " ∷ join ", " (b ∷ bs) ∷ [])))

-- The counts in the message are left out. The three reads are made one after the other.
unfoldable pub assert_no_active_processing :
    (String → Result TopicOffsets) → RotationConfig → Exec Storage (Unit {0})
unfolding kafka_lag
assert_no_active_processing fetch c = do
  dlq_active ← database (gets (λ (w : Storage). count_of is_active_item w.dlq_items))
  keys_active ← database (gets (λ (w : Storage). count_of (ltb w.clock) w.key_expiries))
  lag ← kafka_lag fetch c
  refuse_if_blocked (
      blocker dlq_active "DLQ pending/retrying"
      ++ (blocker keys_active "active idempotency keys" ++ blocker lag "Kafka lag"))

module _ (node : Node) (s : Settings) where
  -- The body of the `try`.
  unfoldable pub rotate_tables : EncryptionStateRow → Exec Storage (Unit {0})
  rotate_tables state = do
    rotate_audit_logs node s
    rotate_dlq_items node s
    rotate_target_systems node s
    complete_rotation node s state.active_key_id state.previous_key_ids

  unfoldable pub rotation_failed : EncryptionStateRow → Thrown → Exec Storage (Unit {0})
  rotation_failed state e = do
    mark_rotation node "failed" state.active_key_id state.previous_key_ids
    raise e

  unfoldable pub rotate_from :
      (String → Result TopicOffsets) → RotationConfig → EncryptionStateRow → Exec Storage (Unit {0})
  rotate_from fetch c state = do
    assert_no_active_processing fetch c
    mark_rotation node "running" state.active_key_id state.previous_key_ids
    try_catch (rotate_tables state) (rotation_failed state)

  unfoldable pub rotate_if_other :
      (String → Result TopicOffsets)
      → RotationConfig
      → EncryptionStateRow
      → String
      → Exec Storage (Unit {0})
  rotate_if_other fetch c state next =
      if state.active_key_id == next then pure tt else rotate_from fetch c state

  unfoldable pub rotate_to_active_key :
      (String → Result TopicOffsets) → RotationConfig → Exec Storage (Unit {0})
  rotate_to_active_key fetch c =
      if is_enabled s
      then (do
        lift (validate_configuration node s)
        state ← load_state
        next ← lift (active_key_id s)
        rotate_if_other fetch c state next)
      else raise (error "ENCRYPTION_ENABLED=true is required for key rotation")
