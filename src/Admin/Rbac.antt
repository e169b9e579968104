-- ===== src/Admin/Rbac.antt =====
-- admin/admin-rbac.service.ts: the permissions of an administrator by the roles of his groups, and
-- the changes of a role's permissions. The rows of a query come with the role they refer to; what
-- `localeCompare` sorts is left in the order of the map.
pub mod Collecting
pub mod Grants
use Prim.Native.Char.{code}
use Prim.Native.String
use idm_mw.Prelude.{
  ℕ, suc, String, ◌==◌, Bool, true, false, not, ◌&&◌, ◌||◌, Option, none, some, List, [], ◌∷◌, map,
  any_of, keep, includes, Assoc, lookup, insert, eqb, leb, trim, length, or_else, if◌then◌else◌,
}
use idm_mw.Effects.{Thrown, http, Result, ok, throw}
use idm_mw.Core.World.{TargetSystem, unavailable}

pub record ConnectorPermission : Type 0 where
  pub connector_type : String
  pub can_read : Bool
  pub can_write : Bool

pub data AdminAuthProvider : Type 0 where
  local header_sso oidc saml disabled : AdminAuthProvider

-- The fields of AdminUserSession that the service reads.
pub record AdminUserSession : Type 0 where
  pub provider : AdminAuthProvider
  pub groups : Option (List String)

-- model AdminRole, with its permissions
pub record AdminRole : Type 0 where
  pub id : String
  pub code : String
  pub name : String
  pub enabled : Bool
  pub permissions : List ConnectorPermission

-- model AdminGroupRoleMapping, with its role
pub record AdminGroupRoleMapping : Type 0 where
  pub idp_group : String
  pub role : AdminRole
  pub enabled : Bool

-- The tables that are read, and whether the database answers.
pub record AdminTables : Type 0 where
  pub available : Bool
  pub mappings : List AdminGroupRoleMapping
  pub target_systems : List TargetSystem

pub record RoleSummary : Type 0 where
  pub id : String
  pub code : String
  pub name : String

pub record EffectiveAdminPermissions : Type 0 where
  pub superadmin : Bool
  pub provider : AdminAuthProvider
  pub groups : List String
  pub roles : List RoleSummary
  pub permissions : List ConnectorPermission

abbrev pub is_superadmin_session : AdminUserSession → Bool
is_superadmin_session session = elim session.provider [
  | local ↦ true
  | disabled ↦ true
  | header_sso ↦ false
  | oidc ↦ false
  | saml ↦ false
]

-- `[...new Set(groups)]`
unfoldable pub distinct : List String → List String
unfolding includes
distinct [] = []
distinct (g ∷ rest) = g ∷ keep (λ h. not (g == h)) (distinct rest)

abbrev pub is_granting : List String → AdminGroupRoleMapping → Bool
is_granting groups m = m.enabled && (includes groups m.idp_group && m.role.enabled)

abbrev pub or_no_permission : String → Option ConnectorPermission → ConnectorPermission
or_no_permission type none = record { connector_type = type; can_read = false; can_write = false }
or_no_permission type (some p) = p

-- The body of the loops over permissions: what was collected for the type, joined with `p`.
abbrev pub join : ConnectorPermission → ConnectorPermission → ConnectorPermission
join current p = record current {
  can_read = current.can_read || (p.can_read || p.can_write);
  can_write = current.can_write || p.can_write;
}

unfoldable pub collect :
    List ConnectorPermission → Assoc ConnectorPermission → Assoc ConnectorPermission
collect [] collected = collected
collect (p ∷ rest) collected = collect rest (
    insert p.connector_type
      (join (or_no_permission p.connector_type (lookup p.connector_type collected)) p) collected)

unfoldable pub collect_mappings :
    List AdminGroupRoleMapping → Assoc ConnectorPermission → Assoc ConnectorPermission
unfolding collect
collect_mappings [] collected = collected
collect_mappings (m ∷ rest) collected = collect_mappings rest (collect m.role.permissions collected)

unfoldable pub collect_roles : List AdminGroupRoleMapping → Assoc RoleSummary → Assoc RoleSummary
collect_roles [] collected = collected
collect_roles (m ∷ rest) collected =
    collect_roles rest (
      insert m.role.id (record { id = m.role.id; code = m.role.code; name = m.role.name })
        collected)

abbrev pub values : {V : Type 0} → Assoc V → List V
values [] = []
values ((k, v) ∷ rest) = v ∷ values rest

abbrev builtin_role : RoleSummary
builtin_role = record { id = "builtin-superadmin"; code = "superadmin"; name = "Superadmin" }

abbrev no_permissions : AdminAuthProvider → List String → EffectiveAdminPermissions
no_permissions provider groups = record {
  superadmin = false;
  provider = provider;
  groups = groups;
  roles = [];
  permissions = [];
}

abbrev pub granted :
    AdminAuthProvider → List String → List AdminGroupRoleMapping → EffectiveAdminPermissions
granted provider groups mappings = record {
  superadmin = false;
  provider = provider;
  groups = groups;
  roles = values (collect_roles mappings []);
  permissions = values (collect_mappings mappings []);
}

abbrev pub of_groups :
    AdminAuthProvider → List String → AdminTables → Result EffectiveAdminPermissions
of_groups provider [] tables = ok (no_permissions provider [])
of_groups provider (g ∷ groups) tables =
    if tables.available
    then ok (granted provider (g ∷ groups) (keep (is_granting (g ∷ groups)) tables.mappings))
    else throw unavailable

unfoldable pub effective_permissions :
    AdminUserSession → AdminTables → Result EffectiveAdminPermissions
unfolding distinct collect_roles collect_mappings includes
effective_permissions session tables =
    if is_superadmin_session session
    then ok (record {
      superadmin = true;
      provider = session.provider;
      groups = or_else session.groups [];
      roles = builtin_role ∷ [];
      permissions = [];
    })
    else of_groups session.provider (distinct (or_else session.groups [])) tables

abbrev pub then_ok : {A B : Type 0} → Result A → (A → Result B) → Result B
then_ok (ok a) f = f a
then_ok (throw e) f = throw e

abbrev pub reads : String → ConnectorPermission → Bool
reads type p = p.connector_type == type && (p.can_read || p.can_write)

abbrev pub writes : String → ConnectorPermission → Bool
writes type p = p.connector_type == type && p.can_write

unfoldable pub can_read : AdminUserSession → String → AdminTables → Result Bool
unfolding effective_permissions
can_read session type tables = then_ok (effective_permissions session tables) (λ effective.
    ok (if effective.superadmin then true else any_of (reads type) effective.permissions))

unfoldable pub can_write : AdminUserSession → String → AdminTables → Result Bool
unfolding effective_permissions
can_write session type tables = then_ok (effective_permissions session tables) (λ effective.
    ok (if effective.superadmin then true else any_of (writes type) effective.permissions))

unfoldable pub assert_read : AdminUserSession → String → AdminTables → Result {0} Unit
unfolding can_read
assert_read session type tables = then_ok (can_read session type tables) (λ allowed.
    if allowed then ok tt else throw (http 403 (String.◌++◌ "Missing read permission for " type)))

unfoldable pub assert_write : AdminUserSession → String → AdminTables → Result {0} Unit
unfolding can_write
assert_write session type tables = then_ok (can_write session type tables) (λ allowed.
    if allowed then ok tt else throw (http 403 (String.◌++◌ "Missing write permission for " type)))

unfoldable pub assert_superadmin : AdminUserSession → AdminTables → Result {0} Unit
unfolding effective_permissions
assert_superadmin session tables = then_ok (effective_permissions session tables) (λ effective.
    if effective.superadmin then ok tt else throw (http 403 "Superadmin permission required"))

pub data Access : Type 0 where
  read write : Access

abbrev pub passes : Access → ConnectorPermission → Bool
passes write p = p.can_write
passes read p = p.can_read || p.can_write

-- `none` is `undefined`: every type.
unfoldable pub allowed_connector_types :
    AdminUserSession → Access → AdminTables → Result (Option (List String))
unfolding effective_permissions
allowed_connector_types session access tables =
    then_ok (effective_permissions session tables) (λ effective. ok (
      if effective.superadmin
      then none
      else some (map (λ p. p.connector_type) (keep (passes access) effective.permissions))))

abbrev names_of : Option (List String) → AdminTables → Result (Option (List String))
names_of none tables = ok none
names_of (some []) tables = ok (some [])
names_of (some (t ∷ ts)) tables =
    if tables.available
    then ok (some (map (λ s. s.name) (keep (λ s. includes (t ∷ ts) s.type) tables.target_systems)))
    else throw unavailable

unfoldable pub target_system_names_for_access :
    AdminUserSession → Access → AdminTables → Result (Option (List String))
unfolding allowed_connector_types includes
target_system_names_for_access session access tables =
    then_ok (allowed_connector_types session access tables) (λ types. names_of types tables)

-- CONNECTOR_TYPE_PATTERN and ROLE_CODE_PATTERN
unfoldable pub is_code_text : String → Bool
is_code_text String.[] = true
is_code_text (String.◌∷◌ c s) =
    ((leb b'A' (code c) && leb (code c) b'Z')
      || ((leb b'a' (code c) && leb (code c) b'z')
          || ((leb b'0' (code c) && leb (code c) b'9')
              || (eqb (code c) b'_'
                  || (eqb (code c) b'.' || (eqb (code c) b':' || eqb (code c) b'-'))))))
    && is_code_text s

unfoldable pub size_of : String → ℕ
size_of String.[] = 0
size_of (String.◌∷◌ c s) = suc (size_of s)

unfoldable pub is_code : String → Bool
unfolding is_code_text size_of
is_code s = is_code_text s && (leb 1 (size_of s) && leb (size_of s) 96)

abbrev pub invalid_type : Thrown
invalid_type = http 400 "Invalid connector type permission"

unfoldable pub normalize_loop :
    List ConnectorPermission → Assoc ConnectorPermission → Result (Assoc ConnectorPermission)
unfolding is_code trim
normalize_loop [] collected = ok collected
normalize_loop (p ∷ rest) collected =
    let type = trim p.connector_type in
    let next =
      normalize_loop rest
        (insert type (join (or_no_permission type (lookup type collected)) p) collected) in
    if is_code type then next else throw invalid_type

unfoldable pub normalized_permissions : List ConnectorPermission → Result (List ConnectorPermission)
unfolding normalize_loop
normalized_permissions permissions =
    then_ok (normalize_loop permissions []) (λ collected. ok (values collected))
