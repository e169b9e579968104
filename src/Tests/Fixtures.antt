-- ===== src/Tests/Fixtures.antt =====
-- Inputs for the tests: a state, a directory as target system, one connector that works and one that
-- does not.
use idm_mw.Prelude.{
  ℕ, ◌+◌, String, ◌==◌, Bool, true, Option, none, some, List, [], ◌∷◌, if◌then◌else◌,
}
use idm_mw.Json.{Json, Number, nan, num, end, field, str}
use idm_mw.Effects.{ok, throw, error}
use idm_mw.Core.World.{World, Metrics, DlqItem, Status, pending, retrying}
use idm_mw.Core.Dlq.{DlqItemData}
use idm_mw.Core.Processing.{ProcessingPayload}
use idm_mw.Connectors.{Connector, ConnectorPayload, ConnectorResult, Call}
use idm_mw.Kafka.{Settings, KafkaProducer}

-- `Number` on a number is the number.
abbrev pub to_number : Option Json → Number
to_number (some (num n)) = n
to_number _ = nan

abbrev pub no_metrics : Metrics
no_metrics = record {
  events_processed = [];
  connector_errors = [];
  dlq_size = [];
  processed_window = [];
}

-- The directory counts its users.
abbrev pub start : World ℕ
start = record {
  clock = 1000000;
  outages = [];
  dice = [];
  dlq = [];
  next_id = 0;
  idempotency_keys = [];
  target_systems = [];
  metrics = no_metrics;
  outbox = [];
  env = 0;
}

abbrev pub row : ℕ → Status → Option ℕ → Option String → DlqItem
row id status locked_at locked_by = record {
  id = id;
  event_id = "e1";
  operation = "user.create";
  target_system = "directory";
  payload = end;
  error = "down";
  retry_count = 0;
  status = status;
  locked_at = locked_at;
  locked_by = locked_by;
}

-- One item waits, one is being retried.
abbrev pub queued : World ℕ
queued = record start {
  dlq = row 0 pending none none ∷ row 1 retrying (some 900000) (some "pid:7") ∷ [];
  next_id = 2;
}

abbrev pub item_data : DlqItemData
item_data = record {
  event_id = "e2";
  operation = "user.create";
  target_system = "directory";
  payload = end;
  error = "down";
  retry_count = some 3;
}

abbrev pub create_user : ProcessingPayload
create_user = record {
  event_id = "e1";
  operation = "user.create";
  target_system = "directory";
  payload = field "name" (str "ann") end;
}

abbrev pub created : ConnectorPayload → Call ℕ ConnectorResult
created p users = ((ok (record { success = true; data_value = none; error = none }), users + 1), 20)

abbrev pub refused : ConnectorPayload → Call ℕ ConnectorResult
refused p users = ((throw (error "connection refused"), users), 20)

abbrev pub connector_with : (ConnectorPayload → Call ℕ ConnectorResult) → Connector ℕ
connector_with execute = record {
  name = "directory";
  execute = execute;
  test_connection = λ config users. ((ok (record { success = true; message = "ok" }), users), 1);
  get_capabilities = none;
  get_schema = none;
  sync = none;
}

-- A registry with the one connector.
abbrev pub registry_with :
    (ConnectorPayload → Call ℕ ConnectorResult) → String → Option (Connector ℕ)
registry_with execute name = if name == "directory" then some (connector_with execute) else none

abbrev pub settings_of : Bool → String → Settings
settings_of kafka mode = record {
  kafka_enabled = some kafka;
  processing_mode = some mode;
  topic_events_in = none;
  topic_events_out = none;
  topic_dlq_retry = none;
  dlq_retry_lease_seconds = some 300;
}

abbrev pub producer_of : Bool → KafkaProducer
producer_of available = record { enabled = true; available = available }

abbrev pub keys_of : String → List String
keys_of key = key ∷ []
