-- ===== src/Auth/Logins.antt =====
-- auth/auth.service.ts: the logins and the check of each request.
pub mod Safe
use idm_mw.Prelude.{
  ℕ, String, ◌==◌, Bool, true, false, not, ◌&&◌, ◌||◌, Option, none, some, List, [], ◌∷◌, truthy,
  or_else, if◌then◌else◌,
}
use idm_mw.Json.{Json, Number, str, arr, nil}
use idm_mw.Effects.{Thrown, Result, ok, throw, Exec, pure, raise, ◌>>=◌, ◌>>◌}
use idm_mw.Effects.Results
use idm_mw.Effects.Results.{lift}
use idm_mw.Auth.Config.{
  Crypto, AuthConfig, Request, AuthMode, local, sso, both, ExternalAdminIdentity, header,
  is_auth_enabled, mode, sso_providers_of, is_sso_provider_enabled, is_trusted_sso_source,
  extract_sso_identity, is_sso_allowed,
}
use idm_mw.Auth.Sessions.{
  Response, SessionStatus, disabled_status, session_status_from_session, create_session,
  disabled_session, unauthorized, safe_equal, read_session, write_session_cookie, property,
}

abbrev pub is_mode : AuthMode → AuthMode → Bool
is_mode local local = true
is_mode sso sso = true
is_mode both both = true
is_mode _ _ = false

module _ (crypto : Crypto) (number_of_text : String → Number) (c : AuthConfig)
    (shown : ℕ → String) where
  -- `!expectedUser || !expectedPassword || !safeEqual(…) || !safeEqual(…)`, negated.
  abbrev pub credentials_match : String → String → Option String → Option String → Bool
  credentials_match username password (some user) (some secret) =
      safe_equal crypto c username user && safe_equal crypto c password secret
  credentials_match username password _ _ = false

  -- A new session is written to the cookie.
  abbrev pub start_session : Json → Exec Response SessionStatus
  start_session session = do
    write_session_cookie crypto c shown session
    pure (session_status_from_session c session)

  unfoldable pub login_local :
      (now : ℕ) (token username password : String) → Exec Response SessionStatus
  login_local now token username password =
      if not (is_auth_enabled c)
      then pure disabled_status
      else (if is_mode (mode c) sso
          then raise (unauthorized "Local admin login is disabled")
          else (if credentials_match username password (truthy c.local_username)
                (truthy c.local_password)
              then start_session (create_session c now token username username "local" [])
              else raise (unauthorized "Invalid admin credentials")))

  -- The session of an identity, if it is allowed to use the administration.
  abbrev pub sso_session : ℕ → String → String → Option ExternalAdminIdentity → Option Json
  sso_session now token provider none = none
  sso_session now token provider (some identity) =
      if is_sso_allowed c identity
      then some (create_session c now token identity.user identity.user provider identity.groups)
      else none

  abbrev pub start_or_refuse : Option Json → Exec Response SessionStatus
  start_or_refuse none = raise (unauthorized "SSO user is not allowed for Admin UI")
  start_or_refuse (some session) = start_session session

  unfoldable pub login_sso : (now : ℕ) (token : String) → Request → Exec Response SessionStatus
  login_sso now token req =
      if not (is_auth_enabled c)
      then pure disabled_status
      else (if is_mode (mode c) local
          then raise (unauthorized "SSO admin login is disabled")
          else (if not (is_sso_provider_enabled c "header")
              then raise (unauthorized "Header SSO admin login is disabled")
              else (if is_trusted_sso_source number_of_text c req
                  then start_or_refuse
                      (sso_session now token "header-sso" (extract_sso_identity c req))
                  else raise (unauthorized "SSO headers require a trusted proxy"))))

  unfoldable pub login_external :
      (now : ℕ) (token provider : String) → ExternalAdminIdentity → Exec Response SessionStatus
  login_external now token provider identity =
      if not (is_auth_enabled c)
      then pure disabled_status
      else (if is_mode (mode c) local
          then raise (unauthorized "SSO admin login is disabled")
          else start_or_refuse (sso_session now token provider (some identity)))

  -- The session of a request that a trusted proxy vouches for; `answers`: there is an answer to write
  -- the cookie to.
  abbrev pub proxy_session : ℕ → String → Request → Bool → Option Json
  proxy_session now token req answers =
      if not (is_mode (mode c) local)
        && answers
        && is_sso_provider_enabled c "header"
        && is_trusted_sso_source number_of_text c req
      then sso_session now token "header-sso" (extract_sso_identity c req)
      else none

  abbrev pub write_if : Option Json → Exec Response (Option Json)
  write_if none = pure none
  write_if (some session) = do write_session_cookie crypto c shown session; pure (some session)

  abbrev pub found_or_written : Option Json → Option Json → Exec Response (Option Json)
  found_or_written (some session) proxied = pure (some session)
  found_or_written none proxied = write_if proxied

  unfoldable pub authenticate_request :
      (now : ℕ) (token : String) → Request → (answers : Bool) → Exec Response (Option Json)
  authenticate_request now token req answers =
      if not (is_auth_enabled c) then pure (some (disabled_session now)) else (do
        session ← lift (read_session crypto c req now)
        found_or_written session (proxy_session now token req answers))

  abbrev pub status_of_session : Option Json → SessionStatus
  status_of_session none = record {
    auth_enabled = true;
    authenticated = false;
    mode = some (mode c);
    sso_providers = some (sso_providers_of c);
    csrf_token = none;
    user = none;
  }
  status_of_session (some session) = session_status_from_session c session

  unfoldable pub session_status : ℕ → Request → Result SessionStatus
  session_status now req =
      if not (is_auth_enabled c)
      then ok disabled_status
      else Results.◌>>=◌ (read_session crypto c req now) (λ session. ok (status_of_session session))

  -- The token of the session is a text, as `createSession` makes it.
  abbrev pub is_token : Option String → Option Json → Bool
  is_token (some value) (some (str token)) = safe_equal crypto c value token
  is_token _ _ = false

  unfoldable pub verify_csrf : Request → Json → Bool
  verify_csrf req session =
      if not (is_auth_enabled c)
      then true
      else is_token (truthy (header req "x-csrf-token")) (property session "csrfToken")
