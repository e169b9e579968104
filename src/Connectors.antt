-- ===== src/Connectors.antt =====
-- connectors/connector.interface.ts: what a connector to a target system is. Connectors act on an
-- environment `E`, the target systems, and take time.
pub mod Capabilities
pub mod Registry
use idm_mw.Prelude.{ℕ, ◌+◌, String, Bool, Option, List, Assoc, insert}
use idm_mw.Json.{Json, Fields, entries, from_entries}
use idm_mw.Effects.{Result, Exec}
use idm_mw.Core.World.{World}

pub record ConnectorPayload : Type 0 where
  pub operation : String
  pub target_system : String
  pub payload : Fields

pub record ConnectorResult : Type 0 where
  pub success : Bool
  pub data_value : Option Json
  pub error : Option String

-- The result of `testConnection`.
pub record TestResult : Type 0 where
  pub success : Bool
  pub message : String

pub data OperationStatus : Type 0 where
  implemented : OperationStatus
  partial unsupported : (reason : String) → OperationStatus

pub record CapabilityFlags : Type 0 where
  pub supports_read : Bool
  pub supports_write : Bool
  pub supports_sync : Bool
  pub supports_incremental_sync : Bool
  pub supports_schema : Bool

pub record ConnectorCapabilities : Type 0 where
  pub operations : List String
  pub read_operations : List String
  pub write_operations : List String
  pub capabilities : CapabilityFlags
  pub operation_status : Assoc OperationStatus
  pub partial_operations : Option (Assoc String)

-- A call of a target system: its outcome, the environment after it, and the milliseconds it took.
abbrev pub Call : Type 0 → Type 0 → Type 0
Call E A = E → (Result A × E) × ℕ

pub record Connector (E : Type 0) : Type 0 where
  pub name : String
  pub execute : ConnectorPayload → Call E ConnectorResult
  pub test_connection : Fields → Call E TestResult
  pub get_capabilities : Option ConnectorCapabilities
  pub get_schema : Option (ConnectorPayload → Call E ConnectorResult)
  pub sync : Option (ConnectorPayload → String → Call E ConnectorResult)

abbrev pub on_target : {E A : Type 0} → Call E A → Exec (World E) A
on_target call w = let ((r, e), ms) = call w.env in (r, record w { env = e; clock = w.clock + ms })

-- `{ ...fields, [key]: value }`
abbrev pub set_field : String → Json → Fields → Fields
set_field k v fs = from_entries (insert k v (entries fs))
