-- ===== src/Auth/Config.antt =====
-- auth/auth.service.ts: its settings, requests and what it asks of Node.
use idm_mw.Prelude.{
  ℕ, String, ◌==◌, Bool, false, not, ◌||◌, Option, none, some, List, [], ◌∷◌, map, any_of, keep,
  Assoc, lookup, includes, or_else, trim, to_lower, split_on, truthy, if◌then◌else◌,
}
use idm_mw.Json.{Json, Number}
use idm_mw.Effects.{Result}
use idm_mw.Security.Addresses.{is_ip_allowed}

-- What the code uses of Node and of JSON; the texts of `to_base64url` and `hmac_base64url` are
-- base64url, and `fingerprint value purpose` is the HMAC that is compared in constant time.
pub record Crypto : Type 0 where
  pub stringify : Json → String
  pub parse : String → Result Json
  pub to_base64url : String → String
  pub from_base64url : String → String
  pub hmac_base64url : (secret payload : String) → String
  pub fingerprint : (value purpose : String) → String
  pub to_number : Json → Number

pub record AuthConfig : Type 0 where
  pub admin_auth_enabled : Option Bool
  pub admin_auth_mode : Option String
  pub sso_providers : Option String
  pub cookie_name : Option String
  pub local_username : Option String
  pub local_password : Option String
  pub session_secret : Option String
  pub session_ttl_seconds : Option ℕ
  pub cookie_samesite : Option String
  pub cookie_secure : Option Bool
  pub node_env : Option String
  pub http_tls_enabled : Option Bool
  pub sso_user_header : Option String
  pub sso_groups_header : Option String
  -- one character
  pub sso_groups_delimiter : Option ℕ
  pub trusted_proxy_cidrs : Option String
  pub allowlist : Option String
  pub allowed_groups : Option String

pub data HeaderValue : Type 0 where
  one : String → HeaderValue
  several : List String → HeaderValue

-- The names of headers are in lower case, as Node gives them.
pub record Request : Type 0 where
  pub headers : Assoc HeaderValue
  pub cookie : Option String
  pub ip : Option String
  pub remote_address : Option String

pub data AuthMode : Type 0 where
  local sso both : AuthMode

pub record ExternalAdminIdentity : Type 0 where
  pub user : String
  pub groups : List String

abbrev pub head_of : List String → Option String
head_of [] = none
head_of (v ∷ vs) = some v

abbrev pub header_text : Option HeaderValue → Option String
header_text none = none
header_text (some (one v)) = some v
header_text (some (several vs)) = head_of vs

unfoldable pub header : Request → String → Option String
unfolding to_lower
header req name = header_text (lookup (to_lower name) req.headers)

abbrev pub non_empty : List String → List String
non_empty texts = keep (λ t. not (t == "")) texts

-- `csv`, on the configured value.
unfoldable pub csv : Option String → List String
unfolding trim split_on
csv value = non_empty (map trim (split_on b',' (or_else value "")))

unfoldable pub is_auth_enabled : AuthConfig → Bool
is_auth_enabled c = or_else c.admin_auth_enabled false

abbrev pub mode_of : String → AuthMode
mode_of text = if text == "sso" then sso else (if text == "both" then both else local)

unfoldable pub mode : AuthConfig → AuthMode
mode c = mode_of (or_else c.admin_auth_mode "local")

abbrev pub or_header : List String → List String
or_header [] = "header" ∷ []
or_header (p ∷ ps) = p ∷ ps

unfoldable pub sso_providers_of : AuthConfig → List String
unfolding mode csv includes
sso_providers_of c = elim (mode c) [
  | local ↦ []
  | sso ↦ keep (includes ("header" ∷ "oidc" ∷ "saml" ∷ [])) (or_header (csv c.sso_providers))
  | both ↦ keep (includes ("header" ∷ "oidc" ∷ "saml" ∷ [])) (or_header (csv c.sso_providers))
]

unfoldable pub is_sso_provider_enabled : AuthConfig → String → Bool
unfolding sso_providers_of includes
is_sso_provider_enabled c provider = includes (sso_providers_of c) provider

unfoldable pub cookie_name_of : AuthConfig → String
cookie_name_of c = or_else c.cookie_name "idmmw_admin_session"

unfoldable pub ttl_seconds : AuthConfig → ℕ
ttl_seconds c = or_else c.session_ttl_seconds 28800

unfoldable pub same_site : AuthConfig → String
unfolding includes
same_site c =
    let configured = or_else c.cookie_samesite "Strict" in
    if includes ("Strict" ∷ "Lax" ∷ "None" ∷ []) configured then configured else "Strict"

abbrev pub is_production : Option String → Bool
is_production none = false
is_production (some env) = env == "production"

unfoldable pub secure_cookie : AuthConfig → Bool
secure_cookie c = elim c.cookie_secure [
  | none ↦ is_production c.node_env || or_else c.http_tls_enabled false
  | some explicit ↦ explicit
]

module _ (number_of_text : String → Number) where
  abbrev pub trusted_by : List String → Request → Bool
  trusted_by [] req = false
  trusted_by (cidr ∷ cidrs) req =
      is_ip_allowed number_of_text req.ip (cidr ∷ cidrs)
      || is_ip_allowed number_of_text req.remote_address (cidr ∷ cidrs)

  unfoldable pub is_trusted_sso_source : AuthConfig → Request → Bool
  unfolding csv is_ip_allowed
  is_trusted_sso_source c req = trusted_by (csv c.trusted_proxy_cidrs) req

abbrev pub identity_of : AuthConfig → Request → Option String → Option ExternalAdminIdentity
identity_of c req none = none
identity_of c req (some user) = some (record {
  user = user;
  groups = non_empty (
      map trim (
        split_on (or_else c.sso_groups_delimiter b',')
          (or_else (header req (or_else c.sso_groups_header "x-authenticated-groups")) "")));
})

unfoldable pub extract_sso_identity : AuthConfig → Request → Option ExternalAdminIdentity
unfolding header trim split_on
extract_sso_identity c req =
    identity_of c req (truthy (header req (or_else c.sso_user_header "x-authenticated-user")))

unfoldable pub is_sso_allowed : AuthConfig → ExternalAdminIdentity → Bool
unfolding csv includes
is_sso_allowed c identity =
    includes (csv c.allowlist) identity.user
    || any_of (includes (csv c.allowed_groups)) identity.groups
