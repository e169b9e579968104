-- ===== src/Connectors/Capabilities/Status.antt =====
-- The status of every operation.
use idm_mw.Prelude.{
  String, ◌==◌, ◌≡◌, refl, none, some, List, [], ◌∷◌, Assoc, lookup, includes, if◌then◌else◌,
  eq_iff, inl, inr, Bool-cases,
}
use idm_mw.Inbound.Operation.{avanpost_operations}
use idm_mw.Connectors.Capabilities.{
  FlagOverrides, reason_of, status_of, status_entries, create_connector_capabilities,
}

module _ (partials unsupporteds : Assoc String) (op : String) where
  lookup-status_entries :
      (ops : List String)
      → lookup op (status_entries partials unsupporteds ops) ≡ (
          if includes ops op
          then some
              (status_of (reason_of (lookup op unsupporteds)) (reason_of (lookup op partials)))
          else none)
  unfolding status_entries includes
  lookup-status_entries [] = refl
  lookup-status_entries (o ∷ ops) = elim (Bool-cases (o == op)) [
    | inl same ↦ rw (same, (eq_iff o op).0 same)
    | inr other ↦ rw (other, lookup-status_entries ops)
  ]

-- A connector reports a status for exactly the operations of the vocabulary: `unsupported` with its
-- reason where one is given, else `partial` with its reason where one is given, else `implemented`;
-- a reason that is an empty text counts as none.
create_connector_capabilities_lem :
    (partials : Assoc String) (overrides : FlagOverrides) (unsupporteds : Assoc String)
    (op : String)
    → lookup op (create_connector_capabilities partials overrides unsupporteds).operation_status ≡ (
        if includes avanpost_operations op
        then some (status_of (reason_of (lookup op unsupporteds)) (reason_of (lookup op partials)))
        else none)
unfolding create_connector_capabilities
create_connector_capabilities_lem partials overrides unsupporteds op =
    lookup-status_entries partials unsupporteds op avanpost_operations
