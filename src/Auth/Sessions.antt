-- ===== src/Auth/Sessions.antt =====
-- auth/auth.service.ts: the sessions of administrators and the ways to get one. A session is the value
-- that the cookie holds as JSON; the bytes of `randomBytes` are the argument `token`.
use idm_mw.Prelude.{
  ℕ, zero, suc, ◌+◌, ◌*◌, String, ◌==◌, Bool, true, false, not, ◌||◌, Option, none, some, List, [],
  ◌∷◌, Assoc, lookup, insert, or_else, trim, split_on, concat, join, truthy, ltb, if◌then◌else◌,
}
use idm_mw.Json.{
  Json, Number, int, fraction, infinite, nan, pos, negsuc, null, bool, num, str, arr, obj, Items,
  nil, cons, end, field, get_field,
}
use idm_mw.Effects.{Thrown, error, http, Result, ok, throw, Exec, modify, ◌>>=◌}
use idm_mw.Effects.Results.{lift}
use idm_mw.Auth.Config.{
  Crypto, AuthConfig, Request, AuthMode, mode, sso_providers_of, cookie_name_of, ttl_seconds,
  same_site, secure_cookie,
}

-- The header that the answer sets.
pub record Response : Type 0 where
  pub set_cookie : Option String

abbrev pub items_of : List String → Items
items_of [] = nil
items_of (t ∷ ts) = cons (str t) (items_of ts)

-- The part of a cookie before the first `=`, and the rest.
abbrev pub cookie_entry : List String → String × String
cookie_entry [] = ("", "")
cookie_entry (key ∷ rest) = (key, join "=" rest)

unfoldable pub entries_from : List String → Assoc String → Assoc String
unfolding trim split_on join
entries_from [] found = found
entries_from (part ∷ parts) found =
    let (key, value) = cookie_entry (split_on b'=' (trim part)) in
    entries_from parts (insert key value found)

unfoldable pub cookies : Request → Assoc String
unfolding entries_from split_on
cookies req = elim (truthy req.cookie) [
  | none ↦ []
  | some raw ↦ entries_from (split_on b';' raw) []
]

-- Whether JavaScript takes the value for true.
abbrev pub is_truthy : Json → Bool
is_truthy null = false
is_truthy (bool b) = b
is_truthy (num (int (pos zero))) = false
is_truthy (num (int (pos (suc n)))) = true
is_truthy (num (int (negsuc n))) = true
is_truthy (num (fraction w d)) = true
is_truthy (num (infinite p)) = true
is_truthy (num nan) = false
is_truthy (str s) = not (s == "")
is_truthy (arr vs) = true
is_truthy (obj fs) = true

-- `n < now`; no comparison holds of NaN.
abbrev pub is_below : Number → ℕ → Bool
is_below (int (pos n)) now = ltb n now
is_below (int (negsuc n)) now = true
is_below (fraction (pos n) d) now = ltb n now
is_below (fraction (negsuc n) d) now = true
is_below (infinite positive) now = not positive
is_below nan now = false

abbrev pub text_or : Option String → String
text_or none = ""
text_or (some t) = t

pub record SessionUser : Type 0 where
  pub sub : Option Json
  pub name : Option Json
  pub provider : Option Json
  pub groups : Json

-- interface SessionStatus; no mode stands for 'disabled'.
pub record SessionStatus : Type 0 where
  pub auth_enabled : Bool
  pub authenticated : Bool
  pub mode : Option AuthMode
  pub sso_providers : Option (List String)
  pub csrf_token : Option Json
  pub user : Option SessionUser

-- `session[key]`
abbrev pub property : Json → String → Option Json
property (obj fs) key = get_field fs key
property _ key = none

abbrev pub disabled_status : SessionStatus
disabled_status = record {
  auth_enabled = false;
  authenticated = true;
  mode = none;
  sso_providers = none;
  csrf_token = none;
  user = some (record {
    sub = some (str "auth-disabled");
    name = some (str "Auth disabled");
    provider = some (str "disabled");
    groups = arr nil;
  });
}

unfoldable pub session_status_from_session : AuthConfig → Json → SessionStatus
unfolding mode sso_providers_of
session_status_from_session c session = record {
  auth_enabled = true;
  authenticated = true;
  mode = some (mode c);
  sso_providers = some (sso_providers_of c);
  csrf_token = property session "csrfToken";
  user = some (record {
    sub = property session "sub";
    name = property session "name";
    provider = property session "provider";
    groups = or_else (property session "groups") (arr nil);
  });
}

unfoldable pub create_session :
    AuthConfig → (now : ℕ) (token sub name provider : String) (groups : List String) → Json
unfolding ttl_seconds
create_session c now token sub name provider groups = obj (
    field "sub" (str sub) (
      field "name" (str name) (
        field "provider" (str provider) (
          field "groups" (arr (items_of groups)) (
            field "csrfToken" (str token)
              (field "expiresAt" (num (int (pos (now + ttl_seconds c * 1000)))) end))))))

abbrev pub disabled_session : ℕ → Json
disabled_session now = obj (
    field "sub" (str "auth-disabled") (
      field "name" (str "Auth disabled") (
        field "provider" (str "disabled") (
          field "groups" (arr nil) (
            field "csrfToken" (str "auth-disabled")
              (field "expiresAt" (num (int (pos (now + 60000)))) end))))))

-- UnauthorizedException
abbrev pub unauthorized : String → Thrown
unauthorized message = http 401 message

module _ (crypto : Crypto) (c : AuthConfig) where
  -- security/constant-time.ts, for the purpose of this service.
  unfoldable pub safe_equal : String → String → Bool
  safe_equal a b = crypto.fingerprint a "auth-service" == crypto.fingerprint b "auth-service"

  unfoldable pub sign : String → Result String
  sign payload = elim (truthy c.session_secret) [
    | none ↦ throw (error "ADMIN_AUTH_SESSION_SECRET is required when ADMIN_AUTH_ENABLED=true")
    | some secret ↦ ok (crypto.hmac_base64url secret payload)
  ]

  -- The value as a number, for a comparison.
  abbrev pub coerced : Json → Number
  coerced (num n) = n
  coerced v = crypto.to_number v

  -- `!session.expiresAt || session.expiresAt < Date.now()`
  abbrev pub is_expired : ℕ → Option Json → Bool
  is_expired now none = true
  is_expired now (some v) = not (is_truthy v) || is_below (coerced v) now

  -- The `try` of `readSession`: whatever fails in it, there is no session.
  abbrev pub unless_expired : ℕ → Result Json → Option Json
  unless_expired now (throw e) = none
  unless_expired now (ok session) =
      if is_expired now (property session "expiresAt") then none else some session

  abbrev pub verified : ℕ → String → String → String → Option Json
  verified now payload signature expected =
      if safe_equal signature expected
      then unless_expired now (crypto.parse (crypto.from_base64url payload))
      else none

  -- The payload and the signature, if neither is missing or empty.
  abbrev pub signed_parts : List String → Option (String × String)
  signed_parts (payload ∷ signature ∷ rest) =
      if payload == "" || signature == "" then none else some (payload, signature)
  signed_parts _ = none

  abbrev pub compared_with : ℕ → String → String → Result String → Result (Option Json)
  compared_with now payload signature (throw e) = throw e
  compared_with now payload signature (ok expected) = ok (verified now payload signature expected)

  abbrev pub session_of_parts : ℕ → Option (String × String) → Result (Option Json)
  session_of_parts now none = ok none
  session_of_parts now (some (payload, signature)) =
      compared_with now payload signature (sign payload)

  abbrev pub session_of_cookie : ℕ → Option String → Result (Option Json)
  session_of_cookie now none = ok none
  session_of_cookie now (some raw) = session_of_parts now (signed_parts (split_on b'.' raw))

  unfoldable pub read_session : Request → ℕ → Result (Option Json)
  read_session req now = session_of_cookie now (truthy (lookup (cookie_name_of c) (cookies req)))

  -- `shown` prints the seconds of the time to live.
  unfoldable pub write_session_cookie : (shown : ℕ → String) → Json → Exec Response (Unit {0})
  write_session_cookie shown session = do
    let payload = crypto.to_base64url (crypto.stringify session)
    signature ← lift (sign payload)
    modify (λ (r : Response). record r {
      set_cookie = some (
          concat (
            cookie_name_of c
            ∷ "="
            ∷ payload
            ∷ "."
            ∷ signature
            ∷ "; Max-Age="
            ∷ shown (ttl_seconds c)
            ∷ "; Path=/; HttpOnly; SameSite="
            ∷ same_site c
            ∷ (if secure_cookie c then "; Secure" else "")
            ∷ []));
    })

  unfoldable pub logout : Exec Response (Unit {0})
  logout = modify (λ (r : Response). record r {
    set_cookie = some (
        concat (cookie_name_of c ∷ "=; Max-Age=0; Path=/; HttpOnly; SameSite=" ∷ same_site c ∷ []));
  })
