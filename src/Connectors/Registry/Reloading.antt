-- ===== src/Connectors/Registry/Reloading.antt =====
-- The polled reload.
use idm_mw.Prelude.{◌≡◌, refl, false, ◌⊎◌, inl, inr, Bool-cases, some, [], keep, Assoc}
use idm_mw.Effects.{ok}
use idm_mw.Effects.Results.{Result-cases}
use idm_mw.Connectors.{Connector}
use idm_mw.Core.World.{World, fails_now, later}
use idm_mw.Connectors.Registry.{
  RegistryConfig, ConnectorRegistry, next_connectors, version_of, registry_version, enabled_systems,
  same_version, reload, reload_if_changed,
}

module _ {E : Type 0} (config : RegistryConfig) (r : ConnectorRegistry E) (w : World E) where
  -- A poll never throws, and leaves the routing table as it was or as all the enabled rows of the database
  -- ask for, whichever calls of the database fail and whichever configurations can not be read: a
  -- reload that is stopped by one in the middle of the rows leaves the table as it was, not half built.
  pub reload_if_changed_safe :
      ((reload_if_changed config (r, w)).0 ≡ ok tt)
      × (((reload_if_changed config (r, w)).1.0.connectors ≡ r.connectors)
          ⊎ (next_connectors config r.static_connectors (keep (λ ts. ts.enabled) w.target_systems)
              ≡ ok (reload_if_changed config (r, w)).1.0.connectors))
  unfolding reload_if_changed registry_version reload enabled_systems
  reload_if_changed_safe = elim (Bool-cases (fails_now w.outages)) [
    | inl down ↦ rw down (refl, inl refl)
    | inr up ↦
        elim (Bool-cases (same_version (version_of w.target_systems) r.last_registry_version)) [
          | inl same ↦ rw (up, same) (refl, inl refl)
          | inr changed ↦ elim (Bool-cases (fails_now (later w.outages))) [
            | inl down ↦ rw (up, changed, down) (refl, inl refl)
            | inr up' ↦
                elim (Result-cases (
                  next_connectors config r.static_connectors
                    (keep (λ ts. ts.enabled) w.target_systems))) [
                      | inr (e, unread) ↦ rw (up, changed, up', unread) (refl, inl refl)
                      | inl (next, built) ↦
                          elim (Bool-cases (fails_now (later (later w.outages)))) [
                            | inl down ↦ rw (up, changed, up', built, down) (refl, inr refl)
                            | inr up'' ↦ rw (up, changed, up', built, up'') (refl, inr refl)
                          ]
                    ]
          ]
        ]
  ]

  -- While the database answers and every configuration can be read, a poll that sees another version than
  -- the last one builds the routing table from the rows and remembers their version, so that the next
  -- poll sees no change.
  reload_if_changed_lem :
      {next : Assoc (Connector E)}
      → w.outages ≡ []
      → same_version (version_of w.target_systems) r.last_registry_version ≡ false
      → next_connectors config r.static_connectors (keep (λ ts. ts.enabled) w.target_systems)
        ≡ ok next
      → ((reload_if_changed config (r, w)).1.0.connectors ≡ next)
        × ((reload_if_changed config (r, w)).1.0.last_registry_version
            ≡ some (version_of w.target_systems))
        × ((reload_if_changed config (r, w)).1.1.target_systems ≡ w.target_systems)
  unfolding reload_if_changed registry_version reload enabled_systems
  reload_if_changed_lem up changed built = rw (up, changed, built) (refl, refl, refl)
