-- ===== src/Connectors/Registry/Routing.antt =====
-- To which connector a name leads after a reload.
use idm_mw.Prelude.{
  String, ◌==◌, ◌≡◌, ◌≢◌, refl, sym, ap, ◌∙◌, eq_iff, Bool, true, false, Option, none, some, List,
  [], ◌∷◌, Assoc, All, lookup, insert, lookup-insert, includes, or_option, if◌then◌else◌, inl, inr,
  Bool-cases,
}
use idm_mw.Json.{Fields}
use idm_mw.Effects.{Result, ok, throw}
use idm_mw.Effects.Results.{>>=-eq-ok}
use idm_mw.Core.World.{TargetSystem}
use idm_mw.Core.Retry.{find_target}
use idm_mw.Connectors.{Connector}
use idm_mw.Connectors.Registry.{
  RegistryConfig, static_connector_allowlist, allowed_statics, config_of, create_proxy, set_proxy,
  register_rows, next_connectors,
}

-- The unique column `name`, and the keys of a `Map`.
abbrev pub HasDistinctNames : List TargetSystem → Type 0
HasDistinctNames [] = Unit
HasDistinctNames (ts ∷ rest) = All (λ t. ts.name ≢ t.name) rest × HasDistinctNames rest

abbrev pub IsMap : {V : Type 0} → Assoc V → Type 0
IsMap [] = Unit
IsMap ((k, v) ∷ rest) = All (λ p. k ≢ p.0) rest × IsMap rest

find_target-none :
    (name : String) (rows : List TargetSystem)
    → All (λ t. name ≢ t.name) rows
    → find_target name rows ≡ none
unfolding find_target
find_target-none name [] h = refl
find_target-none name (t ∷ rest) (differs, h) = elim (Bool-cases (t.name == name)) [
  | inl same ↦ absurd (differs (sym ((eq_iff t.name name).0 same)))
  | inr other ↦ rw other (find_target-none name rest h)
]

module _ {E : Type 0} where
  lookup-none : (k : String) (m : Assoc (Connector E)) → All (λ p. k ≢ p.0) m → lookup k m ≡ none
  lookup-none k [] h = refl
  lookup-none k ((j, v) ∷ rest) (differs, h) = elim (Bool-cases (j == k)) [
    | inl same ↦ absurd (differs (sym ((eq_iff j k).0 same)))
    | inr other ↦ rw other (lookup-none k rest h)
  ]

  module _ (allowlist : List String) (name : String) where
    lookup-insert_if :
        (b : Bool) (k : String) (c : Connector E) (next : Assoc (Connector E))
        → lookup name (if b then insert k c next else next)
          ≡ (if k == name then (if b then some c else lookup name next) else lookup name next)
    lookup-insert_if true k c next = lookup-insert k name c next
    lookup-insert_if false k c next = elim (Bool-cases (k == name)) [
      | inl same ↦ rw same
      | inr other ↦ rw other
    ]

    lookup-allowed_statics :
        (statics next : Assoc (Connector E))
        → IsMap statics
        → lookup name (allowed_statics allowlist statics next)
          ≡ or_option
              (if includes allowlist name then lookup name statics else none)
              (lookup name next)
    unfolding allowed_statics
    lookup-allowed_statics [] next h = elim (Bool-cases (includes allowlist name)) [
      | inl a ↦ rw a
      | inr a ↦ rw a
    ]
    lookup-allowed_statics ((k, c) ∷ rest) next (distinct, h) =
        lookup-allowed_statics rest _ h
        ∙ rw (lookup-insert_if (includes allowlist k) k c next) (elim (Bool-cases (k == name)) [
          | inl same ↦
              rw
                (
                  same,
                  (eq_iff k name).0 same,
                  lookup-none name rest (rw ((eq_iff k name).0 same) at distinct),
                )
                (elim (Bool-cases (includes allowlist name)) [ inl a ↦ rw a | inr a ↦ rw a ])
          | inr other ↦ rw other
        ])

  abbrev pub proxy_with : Assoc (Connector E) → TargetSystem → Result Fields → Option (Connector E)
  proxy_with statics ts (throw e) = none
  proxy_with statics ts (ok config) = create_proxy statics ts.type ts.name config

  -- The proxy that a row asks for, if its configuration can be read.
  abbrev pub proxy_for : Assoc (Connector E) → Option TargetSystem → Option (Connector E)
  proxy_for statics none = none
  proxy_for statics (some ts) = proxy_with statics ts (config_of ts.config)

  lookup-set_proxy :
      (name k : String) (q : Option (Connector E)) (next : Assoc (Connector E))
      → lookup name (set_proxy k q next)
        ≡ (if k == name then or_option q (lookup name next) else lookup name next)
  lookup-set_proxy name k none next = elim (Bool-cases (k == name)) [
    | inl same ↦ rw same
    | inr other ↦ rw other
  ]
  lookup-set_proxy name k (some c) next = lookup-insert k name c next

  lookup-register_rows :
      (statics : Assoc (Connector E)) (name : String) (rows : List TargetSystem)
      (next : Assoc (Connector E)) {done : Assoc (Connector E)}
      → HasDistinctNames rows
      → register_rows statics rows next ≡ ok done
      → lookup name done ≡ or_option (proxy_for statics (find_target name rows)) (lookup name next)
  unfolding register_rows find_target
  lookup-register_rows statics name [] next h built = ap (lookup name) (sym (cc built))
  lookup-register_rows statics name (ts ∷ rest) next (distinct, h) built =
      let (config, read, others) = >>=-eq-ok (config_of ts.config) _ built in
      lookup-register_rows statics name rest _ h others
      ∙ rw (lookup-set_proxy name ts.name (create_proxy statics ts.type ts.name config) next)
          (elim (Bool-cases (ts.name == name)) [
            | inl same ↦ rw (
              same,
              read,
              find_target-none name rest (rw ((eq_iff ts.name name).0 same) at distinct),
            )
            | inr other ↦ rw other
          ])

-- The configuration of the row can be read.
abbrev pub IsReadable : TargetSystem → Type 0
IsReadable ts = (config : Fields) × (config_of ts.config ≡ ok config)

register_rows-ok :
    {E : Type 0} (statics : Assoc (Connector E)) (rows : List TargetSystem)
    (next : Assoc (Connector E))
    → All IsReadable rows
    → (done : Assoc (Connector E)) × (register_rows statics rows next ≡ ok done)
unfolding register_rows
register_rows-ok statics [] next h = (next, refl)
register_rows-ok statics (ts ∷ rest) next ((config, read), h) =
    let (done, others) =
      register_rows-ok statics rest
        (set_proxy ts.name (create_proxy statics ts.type ts.name config) next) h in
    (done, rw read others)

-- A reload builds its routing table if the configuration of every row can be read. In this table a name
-- leads to the proxy of the row of that name if the row's type has a connector; any other name leads to
-- the static connector of that name if it is on the allowlist, and to nothing otherwise. The
-- conditions: the rows have distinct names, as the column's constraint says, and so have the static
-- connectors, as the keys of a map.
pub next_connectors_lem :
    {E : Type 0} (config : RegistryConfig) (statics : Assoc (Connector E))
    (rows : List TargetSystem)
    → IsMap statics
    → HasDistinctNames rows
    → All IsReadable rows
    → (next : Assoc (Connector E)) × (next_connectors config statics rows ≡ ok next)
      × ((name : String)
          → lookup name next
            ≡ or_option (proxy_for statics (find_target name rows)) (
                if includes (static_connector_allowlist config) name
                then lookup name statics
                else none))
unfolding next_connectors
next_connectors_lem {E} config statics rows distinct unique readable =
    let (next, built) =
      register_rows-ok statics rows (allowed_statics (static_connector_allowlist config) statics [])
        readable in
    (
      next,
      built,
      λ name.
          lookup-register_rows statics name rows _ unique built
          ∙ ap (or_option (proxy_for statics (find_target name rows))) (
              lookup-allowed_statics (static_connector_allowlist config) name statics [] distinct
              ∙ or_none (
                  if includes (static_connector_allowlist config) name
                  then lookup name statics
                  else none)),
    )
  where
    or_none : (o : Option (Connector E)) → or_option o none ≡ o
    or_none none = refl
    or_none (some c) = refl
