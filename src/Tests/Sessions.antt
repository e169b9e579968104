-- ===== src/Tests/Sessions.antt =====
-- An administrator's request with a signed cookie, and toy cryptography: a signature is the secret.
use idm_mw.Prelude.{◌≡◌, refl, ◌⊎◌, true, false, none, some, [], trim, split_on, join}
use idm_mw.Json.{Json, int, nan, pos, str, num, obj, field, end}
use idm_mw.Effects.{ok}
use idm_mw.Auth.Config.{Crypto, AuthConfig, Request, is_auth_enabled, cookie_name_of}
use idm_mw.Auth.Sessions.{entries_from, cookies, disabled_session, safe_equal, sign, read_session}
use idm_mw.Auth.Logins.{authenticate_request}
use idm_mw.Auth.Logins.Safe.{IsSigned, IsVouchedFor, authenticate_request_safe}

abbrev stored_session : Json
stored_session = obj (field "sub" (str "anna") (field "expiresAt" (num (int (pos 5000))) end))

abbrev toy_crypto : Crypto
toy_crypto = record {
  stringify = λ v. "session";
  parse = λ t. ok stored_session;
  to_base64url = λ t. t;
  from_base64url = λ t. t;
  hmac_base64url = λ secret payload. secret;
  fingerprint = λ value purpose. value;
  to_number = λ v. nan;
}

abbrev settings : AuthConfig
settings = record {
  admin_auth_enabled = some true;
  admin_auth_mode = some "both";
  sso_providers = none;
  cookie_name = none;
  local_username = none;
  local_password = none;
  session_secret = some "s3cret";
  session_ttl_seconds = none;
  cookie_samesite = none;
  cookie_secure = none;
  node_env = none;
  http_tls_enabled = none;
  sso_user_header = none;
  sso_groups_header = none;
  sso_groups_delimiter = none;
  trusted_proxy_cidrs = some "10.0.0.1";
  allowlist = some "anna";
  allowed_groups = none;
}

abbrev with_cookie : Request
with_cookie = record {
  headers = [];
  cookie = some "theme=dark; idmmw_admin_session=session.s3cret";
  ip = some "10.0.0.9";
  remote_address = none;
}

accepts_cookie :
    authenticate_request toy_crypto
      (λ t. nan)
      settings
      (λ n. "28800")
      4000
      "t"
      with_cookie
      true
      (record { set_cookie = none })
    ≡ (ok (some stored_session), record { set_cookie = none })
unfolding authenticate_request is_auth_enabled read_session cookies entries_from trim split_on join
    cookie_name_of safe_equal sign
accepts_cookie = refl

authenticate_request_safe_example :
    ((is_auth_enabled settings ≡ false) × (stored_session ≡ disabled_session 4000))
    ⊎ (IsSigned toy_crypto settings with_cookie 4000 stored_session
        ⊎ IsVouchedFor settings (λ t. nan) with_cookie 4000 "t" stored_session)
authenticate_request_safe_example =
    authenticate_request_safe toy_crypto (λ t. nan) settings (λ n. "28800") 4000 "t" with_cookie
      true (record { set_cookie = none }) (record { set_cookie = none }) stored_session
      accepts_cookie
