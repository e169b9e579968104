-- ===== src/Connectors/Capabilities.antt =====
-- connectors/connector.capabilities.ts: what a connector says of the operations it supports.
pub mod Status
use idm_mw.Prelude.{
  String, ◌==◌, Bool, true, false, Option, none, some, List, [], ◌∷◌, Assoc, lookup, or_else,
  if◌then◌else◌,
}
use idm_mw.Inbound.Operation.{avanpost_operations, read_operations, write_operations}
use idm_mw.Connectors.{
  OperationStatus, implemented, partial, unsupported, CapabilityFlags, ConnectorCapabilities,
}

-- Partial<ConnectorCapabilities['capabilities']>
pub record FlagOverrides : Type 0 where
  pub supports_read : Option Bool
  pub supports_write : Option Bool
  pub supports_sync : Option Bool
  pub supports_incremental_sync : Option Bool
  pub supports_schema : Option Bool

-- A reason counts where it is a text that is not empty.
abbrev pub reason_of : Option String → Option String
reason_of none = none
reason_of (some s) = if s == "" then none else some s

abbrev pub status_of : Option String → Option String → OperationStatus
status_of (some reason) _ = unsupported reason
status_of none (some reason) = partial reason
status_of none none = implemented

-- The entries for these operations.
unfoldable pub status_entries : Assoc String → Assoc String → List String → Assoc OperationStatus
status_entries partials unsupporteds [] = []
status_entries partials unsupporteds (op ∷ ops) =
    (op, status_of (reason_of (lookup op unsupporteds)) (reason_of (lookup op partials)))
    ∷ status_entries partials unsupporteds ops

abbrev partials_shown : Assoc String → Option (Assoc String)
partials_shown [] = none
partials_shown (entry ∷ rest) = some (entry ∷ rest)

unfoldable pub create_connector_capabilities :
    Assoc String → FlagOverrides → Assoc String → ConnectorCapabilities
unfolding status_entries
create_connector_capabilities partials overrides unsupporteds = record {
  operations = avanpost_operations;
  read_operations = read_operations;
  write_operations = write_operations;
  capabilities = record {
    supports_read = or_else overrides.supports_read true;
    supports_write = or_else overrides.supports_write true;
    supports_sync = or_else overrides.supports_sync true;
    supports_incremental_sync = or_else overrides.supports_incremental_sync true;
    supports_schema = or_else overrides.supports_schema true;
  };
  operation_status = status_entries partials unsupporteds avanpost_operations;
  partial_operations = partials_shown partials;
}
