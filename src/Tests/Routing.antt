-- ===== src/Tests/Routing.antt =====
-- The routing table on a small database.
use idm_mw.Prelude.{
  Assoc, String, ℕ, ◌≡◌, refl, true, none, some, [], ◌∷◌, lookup, includes, or_option, ◌⊎◌,
  if◌then◌else◌,
}
use idm_mw.Json.{Fields, obj, end, field, str}
use idm_mw.Effects.{ok}
use idm_mw.Core.World.{World, TargetSystem}
use idm_mw.Core.Retry.{find_target}
use idm_mw.Connectors.{Connector, ConnectorPayload}
use idm_mw.Connectors.Registry.{
  ConnectorRegistry, RegistryConfig, static_connector_allowlist, next_connectors, create_proxy,
  proxy_of, reload_if_changed,
}
use idm_mw.Connectors.Registry.Routing.{proxy_for, next_connectors_lem}
use idm_mw.Connectors.Registry.Proxies.{IsConfigured, create_proxy_lem}
use idm_mw.Connectors.Registry.Reloading.{reload_if_changed_safe}
use idm_mw.Tests.Fixtures.{start, connector_with, created}

abbrev directory : Connector ℕ
directory = connector_with created

abbrev config : RegistryConfig
config = record { static_connector_allowlist = some "fake, rest"; node_env = none }

abbrev url : Fields
url = field "baseUrl" (str "https://ldap") end

abbrev target : TargetSystem
target = record {
  id = 0;
  name = "ldap-prod";
  type = "directory";
  label = "LDAP";
  config = ok (obj url);
  enabled = true;
  updated_at = 5;
}

next_connectors_lem_example :
    (next : Assoc (Connector ℕ)) × (next_connectors config
        (("directory", directory) ∷ [])
        (target ∷ [])
      ≡ ok next)
    × ((name : String)
        → lookup name next
          ≡ or_option (proxy_for (("directory", directory) ∷ []) (find_target name (target ∷ []))) (
              if includes (static_connector_allowlist config) name
              then lookup name (("directory", directory) ∷ [])
              else none))
next_connectors_lem_example =
    next_connectors_lem config (("directory", directory) ∷ []) (target ∷ []) (tt, tt) (tt, tt)
      ((url, refl), tt)

abbrev event : ConnectorPayload
event = record {
  operation = "user.create";
  target_system = "ldap-prod";
  payload = field "config" (str "mine") end;
}

create_proxy_lem_example :
    (seen : ConnectorPayload) × IsConfigured url event seen
    × ((proxy_of "ldap-prod" url directory).execute event ≡ directory.execute seen)
    × ((proxy_of "ldap-prod" url directory).test_connection end ≡ directory.test_connection url)
    × ((proxy_of "ldap-prod" url directory).get_capabilities ≡ directory.get_capabilities)
    × ((proxy_of "ldap-prod" url directory).name ≡ "ldap-prod")
unfolding create_proxy
create_proxy_lem_example =
    create_proxy_lem (("directory", directory) ∷ []) "directory" "ldap-prod" url directory
      (proxy_of "ldap-prod" url directory) event end refl refl

abbrev empty_registry : ConnectorRegistry ℕ
empty_registry = record {
  connectors = [];
  static_connectors = ("directory", directory) ∷ [];
  last_registry_version = none;
}

abbrev configured : World ℕ
configured = record start { target_systems = target ∷ [] }

reload_if_changed_safe_example :
    ((reload_if_changed config (empty_registry, configured)).0 ≡ ok tt)
    × (((reload_if_changed config (empty_registry, configured)).1.0.connectors ≡ [])
        ⊎ (next_connectors config empty_registry.static_connectors (target ∷ [])
            ≡ ok (reload_if_changed config (empty_registry, configured)).1.0.connectors))
reload_if_changed_safe_example = reload_if_changed_safe config empty_registry configured
