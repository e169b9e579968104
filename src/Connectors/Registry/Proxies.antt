-- ===== src/Connectors/Registry/Proxies.antt =====
-- Which configuration a connector sees behind a proxy.
use idm_mw.Prelude.{
  String, ◌==◌, ◌≡◌, ◌≢◌, refl, ap, ◌∙◌, eq_iff, some, [], ◌∷◌, Assoc, lookup, insert,
  lookup-insert, if◌then◌else◌, inl, inr, Bool-cases,
}
use idm_mw.Json.{Json, obj, Fields, entries, from_entries, get_field}
use idm_mw.Connectors.{Connector, ConnectorPayload, set_field}
use idm_mw.Connectors.Registry.{with_config, create_proxy, proxy_of}

entries-from_entries : (m : Assoc Json) → entries (from_entries m) ≡ m
entries-from_entries [] = refl
entries-from_entries ((k, v) ∷ m) = ap (λ rest. (k, v) ∷ rest) (entries-from_entries m)

get_field-set_field :
    (k j : String) (v : Json) (fs : Fields)
    → get_field (set_field k v fs) j ≡ (if k == j then some v else get_field fs j)
get_field-set_field k j v fs =
    ap (lookup j) (entries-from_entries (insert k v (entries fs)))
    ∙ lookup-insert k j v (entries fs)

-- The payload that reaches a connector is the event's, except that its `config` is the one of the row.
pub record IsConfigured (config : Fields) (event seen : ConnectorPayload) : Type 0 where
  pub operation : seen.operation ≡ event.operation
  pub target_system : seen.target_system ≡ event.target_system
  pub injected : get_field seen.payload "config" ≡ some (obj config)
  pub others : (k : String) → "config" ≢ k → get_field seen.payload k ≡ get_field event.payload k

with_config-IsConfigured :
    (config : Fields) (p : ConnectorPayload) → IsConfigured config p (with_config config p)
with_config-IsConfigured config p = record {
  operation = refl;
  target_system = refl;
  injected = get_field-set_field "config" "config" (obj config) p.payload;
  others = λ k other.
      get_field-set_field "config" k (obj config) p.payload ∙ elim (Bool-cases ("config" == k)) [
        | inl same ↦ absurd (other ((eq_iff "config" k).0 same))
        | inr differs ↦ rw differs
      ];
}

-- The proxy of a row runs the connector of the row's type on a payload in which `config` is the row's
-- configuration, whatever the event carried under that name, and every other field is the event's;
-- it is tested with that configuration too, and it offers the connector's capabilities.
pub create_proxy_lem :
    {E : Type 0} (statics : Assoc (Connector E)) (type name : String) (config : Fields)
    (base proxy : Connector E) (p : ConnectorPayload) (ignored : Fields)
    → lookup type statics ≡ some base
    → create_proxy statics type name config ≡ some proxy
    → (seen : ConnectorPayload) × IsConfigured config p seen
      × (proxy.execute p ≡ base.execute seen)
      × (proxy.test_connection ignored ≡ base.test_connection config)
      × (proxy.get_capabilities ≡ base.get_capabilities)
      × (proxy.name ≡ name)
unfolding create_proxy
create_proxy_lem statics type name config base proxy p ignored known made =
    let same : some (proxy_of name config base) ≡ some proxy = rw known at made in
    let is_proxy : proxy_of name config base ≡ proxy = cc same in
    rw (← is_proxy)
      (with_config config p, with_config-IsConfigured config p, refl, refl, refl, refl)
