-- ===== src/Core/World.antt =====
-- The state behind the pipeline: the rows of prisma/schema.prisma that it reads and writes, the
-- registered metrics, what was sent to Kafka, the clock, and the environment `E` that the connectors
-- act on. Identifiers that the database generates are numbers.
pub mod Stable
use idm_mw.Prelude.{ℕ, String, Bool, true, false, Option, List, [], ◌∷◌, Assoc}
use idm_mw.Json.{Json, Fields}
use idm_mw.Effects.{Thrown, error, Result, throw, Exec}

-- The values of the column `DlqItem.status`.
pub data Status : Type 0 where
  pending retrying skipped resolved : Status

-- model DlqItem
pub record DlqItem : Type 0 where
  pub id : ℕ
  pub event_id : String
  pub operation : String
  pub target_system : String
  pub payload : Fields
  pub error : String
  pub retry_count : ℕ
  pub status : Status
  pub locked_at : Option ℕ
  pub locked_by : Option String

-- model IdempotencyKey
pub record IdempotencyKey : Type 0 where
  pub key : String
  pub locked_at : ℕ
  pub expires_at : ℕ

-- The columns of model TargetSystem that the services read; `config` is what JsonHelper makes of
-- the column, the value that it reads back or what it throws where it can not decrypt or parse it.
pub record TargetSystem : Type 0 where
  pub id : ℕ
  pub name : String
  pub type : String
  pub label : String
  pub config : Result Json
  pub enabled : Bool
  pub updated_at : ℕ

pub data EventStatus : Type 0 where
  success failed : EventStatus

-- interface ProcessedEventSample
pub record Sample : Type 0 where
  pub timestamp : ℕ
  pub status : EventStatus
  pub target_system : String

-- The series of MetricsService: increments of its counters in order, the gauge of the DLQ's size,
-- and the samples of the last five minutes.
pub record Metrics : Type 0 where
  pub events_processed : List (EventStatus × String)
  pub connector_errors : List (String × String)
  pub dlq_size : Assoc ℕ
  pub processed_window : List Sample

-- A message for a Kafka topic.
pub record Message : Type 0 where
  pub topic : String
  pub body : Fields

-- `outages` foretells the calls of the database and of Kafka that are still to come: `true` is a
-- call that fails and changes nothing; once the list is used up no call fails.
-- `dice` foretells the values of `Math.random`, in units of 2^-53.
pub record World (E : Type 0) : Type 0 where
  pub clock : ℕ
  pub outages : List Bool
  pub dice : List ℕ
  pub dlq : List DlqItem
  pub next_id : ℕ
  pub idempotency_keys : List IdempotencyKey
  pub target_systems : List TargetSystem
  pub metrics : Metrics
  pub outbox : List Message
  pub env : E

-- Whether the next call fails, and the calls after it.
abbrev pub fails_now : List Bool → Bool
fails_now [] = false
fails_now (b ∷ bs) = b

abbrev pub later : List Bool → List Bool
later [] = []
later (b ∷ bs) = bs

abbrev pub unavailable : Thrown
unavailable = error "service unavailable"

module _ {E A : Type 0} where
  abbrev pub when_up : Bool → Exec (World E) A → Exec (World E) A
  when_up true call w = (throw unavailable, w)
  when_up false call w = call w

  -- One call of the database or of Kafka.
  abbrev pub external : Exec (World E) A → Exec (World E) A
  external call w = when_up (fails_now w.outages) call (record w { outages = later w.outages })
