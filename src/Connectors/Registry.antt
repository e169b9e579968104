-- ===== src/Connectors/Registry.antt =====
-- connectors/connector.registry.ts: the routing table of the target systems. A reload runs to its end
-- before the next one starts; the timer that polls is not modelled, its body is.
pub mod Routing
pub mod Proxies
pub mod Reloading
use Prim.Native.String
use idm_mw.Prelude.{
  ℕ, String, ◌==◌, Bool, true, false, not, ◌&&◌, Option, none, some, List, [], ◌∷◌, map, max, eqb,
  Assoc, lookup, insert, length, keep, trim, split_on, includes, if◌then◌else◌,
}
use idm_mw.Json.{Json, obj, Fields, end}
use idm_mw.Effects.{Result, ok, throw, Exec, pure, raise, gets, modify, try_catch, ◌>>=◌, ◌>>◌}
use idm_mw.Effects.Results
use idm_mw.Effects.Results.{lift}
use idm_mw.Core.World.{World, TargetSystem, external}
use idm_mw.Connectors.{Connector, ConnectorPayload, ConnectorResult, TestResult, Call, set_field}

-- What `registryVersion` writes into its text: the number of rows and the time of the last update.
pub record Version : Type 0 where
  pub count : ℕ
  pub last_update : Option ℕ

pub record ConnectorRegistry (E : Type 0) : Type 0 where
  pub connectors : Assoc (Connector E)
  pub static_connectors : Assoc (Connector E)
  -- none before the first reload
  pub last_registry_version : Option Version

-- STATIC_CONNECTOR_ALLOWLIST and NODE_ENV
pub record RegistryConfig : Type 0 where
  pub static_connector_allowlist : Option String
  pub node_env : Option String

abbrev pub is_production : Option String → Bool
is_production none = false
is_production (some env) = env == "production"

abbrev pub allowed_by : Option String → Bool → List String
allowed_by (some configured) _ = keep (λ v. not (v == "")) (map trim (split_on b',' configured))
allowed_by none true = []
allowed_by none false = "fake" ∷ []

unfoldable pub static_connector_allowlist : RegistryConfig → List String
unfolding trim split_on
static_connector_allowlist config =
    allowed_by config.static_connector_allowlist (is_production config.node_env)

-- `fromJson(ts.config) ?? {}`, which may throw; the column holds an object or null.
abbrev pub config_of : Result Json → Result Fields
config_of (throw e) = throw e
config_of (ok (obj fs)) = ok fs
config_of (ok _) = ok end

-- `{ ...payload, payload: { ...payload.payload, config } }`
abbrev pub with_config : Fields → ConnectorPayload → ConnectorPayload
with_config config p = record p { payload = set_field "config" (obj config) p.payload }

abbrev later_of : ℕ → Option ℕ → Option ℕ
later_of at none = some at
later_of at (some other) = some (max at other)

abbrev last_update_of : List TargetSystem → Option ℕ
last_update_of [] = none
last_update_of (ts ∷ rest) = later_of ts.updated_at (last_update_of rest)

unfoldable pub version_of : List TargetSystem → Version
version_of rows = record { count = length rows; last_update = last_update_of rows }

abbrev same_update : Option ℕ → Option ℕ → Bool
same_update none none = true
same_update (some a) (some b) = eqb a b
same_update _ _ = false

abbrev pub same_version : Version → Option Version → Bool
same_version v none = false
same_version v (some last) = eqb v.count last.count && same_update v.last_update last.last_update

abbrev pub missing_type : String → TestResult
missing_type type = record {
  success = false;
  message = String.◌++◌ "No connector found for type: " type;
}

module _ {E : Type 0} where
  abbrev pub with_config_schema :
      Fields
      → Option (ConnectorPayload → Call E ConnectorResult)
      → Option (ConnectorPayload → Call E ConnectorResult)
  with_config_schema config none = none
  with_config_schema config (some get_schema) = some (λ p. get_schema (with_config config p))

  abbrev pub with_config_sync :
      Fields
      → Option (ConnectorPayload → String → Call E ConnectorResult)
      → Option (ConnectorPayload → String → Call E ConnectorResult)
  with_config_sync config none = none
  with_config_sync config (some sync) = some (λ p mode. sync (with_config config p) mode)

  abbrev pub proxy_of : String → Fields → Connector E → Connector E
  proxy_of name config base = record {
    name = name;
    execute = λ p. base.execute (with_config config p);
    test_connection = λ _. base.test_connection config;
    get_capabilities = base.get_capabilities;
    get_schema = with_config_schema config base.get_schema;
    sync = with_config_sync config base.sync;
  }

  abbrev pub proxy_if : String → Fields → Option (Connector E) → Option (Connector E)
  proxy_if name config none = none
  proxy_if name config (some base) = some (proxy_of name config base)

  unfoldable pub create_proxy :
      Assoc (Connector E) → String → String → Fields → Option (Connector E)
  create_proxy statics type name config = proxy_if name config (lookup type statics)

  unfoldable pub register_static : Connector E → ConnectorRegistry E → ConnectorRegistry E
  register_static connector registry = record registry {
    static_connectors = insert connector.name connector registry.static_connectors;
  }

  -- The first loop of `reloadInternal`: from the static connectors, in their order.
  unfoldable pub allowed_statics :
      List String → Assoc (Connector E) → Assoc (Connector E) → Assoc (Connector E)
  unfolding includes
  allowed_statics allowlist [] next = next
  allowed_statics allowlist ((name, c) ∷ rest) next =
      allowed_statics allowlist rest (if includes allowlist name then insert name c next else next)

  abbrev pub set_proxy : String → Option (Connector E) → Assoc (Connector E) → Assoc (Connector E)
  set_proxy name none next = next
  set_proxy name (some proxy) next = insert name proxy next

  -- The second loop: from the rows that the query returns. A configuration that can not be read ends it.
  unfoldable pub register_rows :
      Assoc (Connector E) → List TargetSystem → Assoc (Connector E) → Result (Assoc (Connector E))
  unfolding create_proxy
  register_rows statics [] next = ok next
  register_rows statics (ts ∷ rest) next = Results.◌>>=◌ (config_of ts.config) (λ config.
      register_rows statics rest
        (set_proxy ts.name (create_proxy statics ts.type ts.name config) next))

  unfoldable pub next_connectors :
      RegistryConfig → Assoc (Connector E) → List TargetSystem → Result (Assoc (Connector E))
  unfolding static_connector_allowlist allowed_statics register_rows
  next_connectors config statics systems =
      register_rows statics systems (allowed_statics (static_connector_allowlist config) statics [])

  unfoldable pub get : String → ConnectorRegistry E → Option (Connector E)
  get name registry = lookup name registry.connectors

  -- Its two queries run together and fail together.
  unfoldable pub registry_version : Exec (World E) Version
  unfolding version_of
  registry_version = external (gets (λ w. version_of w.target_systems))

  -- `findMany({ where: { enabled: true } })`
  unfoldable pub enabled_systems : Exec (World E) (List TargetSystem)
  enabled_systems = external (gets (λ w. keep (λ ts. ts.enabled) w.target_systems))

  -- A call of the database by the registry, whose own state it leaves alone.
  abbrev pub on_database : {A : Type 0} → Exec (World E) A → Exec (ConnectorRegistry E × World E) A
  on_database call (registry, w) = let (r, u) = call w in (r, (registry, u))

  abbrev pub on_registry :
      (ConnectorRegistry E → ConnectorRegistry E) → Exec (ConnectorRegistry E × World E) Unit
  on_registry change (registry, w) = (ok tt, (change registry, w))

  unfoldable pub reload : RegistryConfig → Exec (ConnectorRegistry E × World E) Unit
  unfolding next_connectors enabled_systems registry_version
  reload config = do
    systems ← on_database enabled_systems
    statics ← gets (λ (s : ConnectorRegistry E × World E). s.0.static_connectors)
    next ← lift (next_connectors config statics systems)
    on_registry (λ r. record r { connectors = next })
    version ← on_database registry_version
    on_registry (λ r. record r { last_registry_version = some version })

  unfoldable pub reload_if_changed : RegistryConfig → Exec (ConnectorRegistry E × World E) Unit
  unfolding registry_version reload
  reload_if_changed config =
      try_catch
        (do
          version ← on_database registry_version
          last ← gets (λ (s : ConnectorRegistry E × World E). s.0.last_registry_version)
          if same_version version last then pure tt else reload config)
        (λ e. pure tt)

  abbrev pub test_if : String → Option (Connector E) → Fields → Call E TestResult
  test_if type none config = λ e. ((ok (missing_type type), e), 0)
  test_if type (some base) config = base.test_connection config

  unfoldable pub test_connection : String → Fields → ConnectorRegistry E → Call E TestResult
  test_connection type config registry =
      test_if type (lookup type registry.static_connectors) config
