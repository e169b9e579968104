-- ===== src/Auth/Logins/Safe.antt =====
-- Who gets a session.
use idm_mw.Prelude.{
  ℕ, String, ◌==◌, ◌≡◌, refl, sym, ap, ◌∙◌, Bool, true, false, Option, none, some, lookup, split_on,
  inl, inr, Bool-cases, Option-cases, ◌⊎◌,
}
use idm_mw.Json.{Json, Number}
use idm_mw.Effects.{ok, pure, >>-eq-ok}
use idm_mw.Effects.Results.{Result-cases}
use idm_mw.Auth.Config.{
  Crypto, AuthConfig, Request, local, ExternalAdminIdentity, is_auth_enabled, mode, cookie_name_of,
  is_sso_provider_enabled, is_trusted_sso_source, extract_sso_identity, is_sso_allowed,
}
use idm_mw.Auth.Sessions.{
  Response, cookies, create_session, disabled_session, property, safe_equal, sign, is_expired,
  signed_parts, session_of_parts, read_session, write_session_cookie,
}
use idm_mw.Auth.Logins.{
  is_mode, sso_session, proxy_session, write_if, found_or_written, authenticate_request,
}

-- The session is in the request's cookie, under a signature that this service makes, and has not expired.
pub record IsSigned (crypto : Crypto) (c : AuthConfig) (req : Request) (now : ℕ) (session : Json)
    : Type 0 where
  pub raw : String
  pub payload : String
  pub signature : String
  pub expected : String
  pub in_cookie : lookup (cookie_name_of c) (cookies req) ≡ some raw
  pub parts : signed_parts crypto c (split_on b'.' raw) ≡ some (payload, signature)
  pub signed : sign crypto c payload ≡ ok expected
  pub agrees : safe_equal crypto c signature expected ≡ true
  pub decoded : crypto.parse (crypto.from_base64url payload) ≡ ok session
  pub fresh : is_expired crypto c now (property session "expiresAt") ≡ false

-- A trusted proxy vouches for a user that is allowed, and the session is a new one for the user.
pub record IsVouchedFor (c : AuthConfig) (number_of_text : String → Number) (req : Request)
    (now : ℕ) (token : String) (session : Json) : Type 0 where
  pub identity : ExternalAdminIdentity
  pub not_local : is_mode (mode c) local ≡ false
  pub by_header : is_sso_provider_enabled c "header" ≡ true
  pub trusted : is_trusted_sso_source number_of_text c req ≡ true
  pub named : extract_sso_identity c req ≡ some identity
  pub allowed : is_sso_allowed c identity ≡ true
  pub created :
      session ≡ create_session c now token identity.user identity.user "header-sso" identity.groups

module _ (crypto : Crypto) (c : AuthConfig) (req : Request) (now : ℕ) where
  parts_IsSigned :
      (raw : String) (parts : Option (String × String)) (s : Json)
      → lookup (cookie_name_of c) (cookies req) ≡ some raw
      → signed_parts crypto c (split_on b'.' raw) ≡ parts
      → session_of_parts crypto c now parts ≡ ok (some s)
      → IsSigned crypto c req now s
  parts_IsSigned raw none s found split h = absurd (cc h)
  parts_IsSigned raw (some (payload, signature)) s found split h =
      elim (Result-cases (sign crypto c payload)) [
        | inr (x, bad) ↦ absurd (cc (rw bad at h))
        | inl (expected, signed) ↦ elim (Bool-cases (safe_equal crypto c signature expected)) [
          | inr forged ↦ absurd (cc (rw (signed, forged) at h))
          | inl agrees ↦ elim (Result-cases (crypto.parse (crypto.from_base64url payload))) [
            | inr (x, bad) ↦ absurd (cc (rw (signed, agrees, bad) at h))
            | inl (v, decoded) ↦
                elim (Bool-cases (is_expired crypto c now (property v "expiresAt"))) [
                  | inl old ↦ absurd (cc (rw (signed, agrees, decoded, old) at h))
                  | inr fresh ↦
                      let same : v ≡ s = cc (rw (signed, agrees, decoded, fresh) at h) in
                      record {
                        raw = raw;
                        payload = payload;
                        signature = signature;
                        expected = expected;
                        in_cookie = found;
                        parts = split;
                        signed = signed;
                        agrees = agrees;
                        decoded = decoded ∙ ap ok same;
                        fresh =
                            ap (λ x. is_expired crypto c now (property x "expiresAt")) (sym same)
                            ∙ fresh;
                      }
                ]
          ]
        ]
      ]

  read_session-IsSigned :
      (s : Json) → read_session crypto c req now ≡ ok (some s) → IsSigned crypto c req now s
  unfolding read_session
  read_session-IsSigned s h = elim (Option-cases (lookup (cookie_name_of c) (cookies req))) [
    | inl missing ↦ absurd (cc (rw missing at h))
    | inr (raw, found) ↦ elim (Bool-cases (raw == "")) [
      | inl empty ↦ absurd (cc (rw (found, empty) at h))
      | inr filled ↦ parts_IsSigned raw _ s found refl (rw (found, filled) at h)
    ]
  ]

module _ (crypto : Crypto) (number_of_text : String → Number) (c : AuthConfig) (shown : ℕ → String)
    (now : ℕ) (token : String) (req : Request) where
  sso_session-IsVouchedFor :
      (named : Option ExternalAdminIdentity) (s : Json)
      → is_mode (mode c) local ≡ false
      → is_sso_provider_enabled c "header" ≡ true
      → is_trusted_sso_source number_of_text c req ≡ true
      → extract_sso_identity c req ≡ named
      → sso_session crypto number_of_text c shown now token "header-sso" named ≡ some s
      → IsVouchedFor c number_of_text req now token s
  sso_session-IsVouchedFor none s not_local by_header trusted named h = absurd (cc h)
  sso_session-IsVouchedFor (some identity) s not_local by_header trusted named h =
      elim (Bool-cases (is_sso_allowed c identity)) [
        | inr refused ↦ absurd (cc (rw refused at h))
        | inl allowed ↦ record {
          identity = identity;
          not_local = not_local;
          by_header = by_header;
          trusted = trusted;
          named = named;
          allowed = allowed;
          created = sym (cc (rw allowed at h));
        }
      ]

  proxy_session-IsVouchedFor :
      (answers : Bool) (s : Json)
      → proxy_session crypto number_of_text c shown now token req answers ≡ some s
      → IsVouchedFor c number_of_text req now token s
  proxy_session-IsVouchedFor false s h = elim (Bool-cases (is_mode (mode c) local)) [
    | inl alone ↦ absurd (cc (rw alone at h))
    | inr more ↦ absurd (cc (rw more at h))
  ]
  proxy_session-IsVouchedFor true s h = elim (Bool-cases (is_mode (mode c) local)) [
    | inl alone ↦ absurd (cc (rw alone at h))
    | inr more ↦ elim (Bool-cases (is_sso_provider_enabled c "header")) [
      | inr off ↦ absurd (cc (rw (more, off) at h))
      | inl on ↦ elim (Bool-cases (is_trusted_sso_source number_of_text c req)) [
        | inr stranger ↦ absurd (cc (rw (more, on, stranger) at h))
        | inl trusted ↦
            sso_session-IsVouchedFor _ s more on trusted refl (rw (more, on, trusted) at h)
      ]
    ]
  ]

  -- What `write_if` returns is its argument.
  write_if-eq :
      (proxied : Option Json) (before after : Response) (s : Json)
      → write_if crypto number_of_text c shown proxied before ≡ (ok (some s), after)
      → proxied ≡ some s
  write_if-eq none before after s h = absurd (cc h)
  write_if-eq (some p) before after s h =
      let (u, middle, _, last) =
        >>-eq-ok (write_session_cookie crypto c shown p) (pure (some p)) before h in
      cc last

  given :
      (found : Option Json) (answers : Bool) (before after : Response) (s : Json)
      → read_session crypto c req now ≡ ok found
      → found_or_written crypto number_of_text c shown found
          (proxy_session crypto number_of_text c shown now token req answers)
          before
        ≡ (ok (some s), after)
      → IsSigned crypto c req now s ⊎ IsVouchedFor c number_of_text req now token s
  given (some v) answers before after s found h =
      let same : v ≡ s = cc h in
      inl (read_session-IsSigned crypto c req now s (found ∙ ap (λ x. ok (some x)) same))
  given none answers before after s found h =
      inr (proxy_session-IsVouchedFor answers s (write_if-eq _ before after s h))

-- A request is given a session only if authentication is disabled, or its cookie holds the session under
-- a signature that passes the comparison with the one made with the session secret, and the session has
-- not expired, or single sign-on by headers is on, the request comes from a trusted proxy, and the
-- proxy names a user that is allowed: then the session is a new one for this user.
pub authenticate_request_safe :
    (crypto : Crypto) (number_of_text : String → Number) (c : AuthConfig) (shown : ℕ → String)
    (now : ℕ) (token : String) (req : Request) (answers : Bool) (before after : Response)
    (session : Json)
    → authenticate_request crypto number_of_text c shown now token req answers before
      ≡ (ok (some session), after)
    → ((is_auth_enabled c ≡ false) × (session ≡ disabled_session now))
      ⊎ (IsSigned crypto c req now session ⊎ IsVouchedFor c number_of_text req now token session)
unfolding authenticate_request
authenticate_request_safe crypto number_of_text c shown now token req answers before after session
      h =
    elim (Bool-cases (is_auth_enabled c)) [
      | inr off ↦ inl (off, cc (rw off at h))
      | inl on ↦ elim (Result-cases (read_session crypto c req now)) [
        | inr (x, bad) ↦ absurd (cc (rw (on, bad) at h))
        | inl (read, found) ↦ inr (
            given crypto number_of_text c shown now token req read answers before after session
              found (rw (on, found) at h))
      ]
    ]
