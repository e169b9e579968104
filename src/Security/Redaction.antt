-- ===== src/Security/Redaction.antt =====
-- security/secret-redaction.ts: which keys hold secrets, how they are masked for a reader, and how a
-- masked configuration that comes back is merged into the stored one.
pub mod Masking
pub mod Restoring
use Prim.Native.Char.{Char, code}
use Prim.Native.String
use idm_mw.Prelude.{
  ℕ, String, ◌==◌, Bool, true, false, ◌&&◌, ◌||◌, Option, none, some, List, [], ◌∷◌, eqb, trim,
  to_lower, includes, if◌then◌else◌,
}
use idm_mw.Json.{
  Json, null, bool, num, str, arr, obj, Items, nil, cons, Fields, end, field, get_field,
}
use idm_mw.Connectors.{set_field}

-- The alternatives of SECRET_KEY_RE, in lower case, with `[-_]?` written out.
abbrev pub secret_words : List String
secret_words =
    "password" ∷ "passwd" ∷ "pwd" ∷ "token" ∷ "secret" ∷ "authorization" ∷ "cookie" ∷ "credential"
    ∷ "connectionstring" ∷ "connection-string" ∷ "connection_string" ∷ "apikey" ∷ "api-key"
    ∷ "api_key" ∷ "apitoken" ∷ "api-token" ∷ "api_token" ∷ "accesstoken" ∷ "access-token"
    ∷ "access_token" ∷ "refreshtoken" ∷ "refresh-token" ∷ "refresh_token" ∷ "masterkey"
    ∷ "master-key" ∷ "master_key" ∷ "masterkeyhash" ∷ "master-keyhash" ∷ "master_keyhash"
    ∷ "masterkey-hash" ∷ "master-key-hash" ∷ "master_key-hash" ∷ "masterkey_hash"
    ∷ "master-key_hash" ∷ "master_key_hash" ∷ "privatekey" ∷ "private-key" ∷ "private_key"
    ∷ "walletpassword" ∷ "wallet-password" ∷ "wallet_password" ∷ "cert" ∷ "ca" ∷ "pem" ∷ "key"
    ∷ "newvalue" ∷ "new-value" ∷ "new_value" ∷ "oldvalue" ∷ "old-value" ∷ "old_value" ∷ "value" ∷ []

-- `[_\-.]`
abbrev is_separator : Char → Bool
is_separator c = eqb (code c) b'_' || eqb (code c) b'-' || eqb (code c) b'.'

-- A match of the expression in the rest of the key; `starts` says that the rest is at the start of the
-- key or after a separator.
unfoldable pub has_secret_word : Bool → String → Bool
unfolding includes
has_secret_word starts String.[] = false
has_secret_word starts (String.◌∷◌ c rest) =
    (starts && includes secret_words (String.◌∷◌ c rest)) || has_secret_word (is_separator c) rest

unfoldable pub is_secret_key : String → Bool
unfolding has_secret_word to_lower
is_secret_key key = has_secret_word true (to_lower key)

abbrev pub masked_secret_value : String
masked_secret_value = "***"

unfoldable pub is_masked_secret_value : Option Json → Bool
unfolding includes trim
is_masked_secret_value (some (str s)) =
    includes (masked_secret_value ∷ "*** preserved ***" ∷ "[REDACTED]" ∷ []) (trim s)
is_masked_secret_value _ = false

unfoldable mutual
  unfolding is_secret_key

  pub redact_secrets : Json → Json
  redact_secrets (arr vs) = arr (redact_items vs)
  redact_secrets (obj fs) = obj (redact_fields fs)
  redact_secrets null = null
  redact_secrets (bool b) = bool b
  redact_secrets (num n) = num n
  redact_secrets (str s) = str s

  pub redact_items : Items → Items
  redact_items nil = nil
  redact_items (cons v vs) = cons (redact_secrets v) (redact_items vs)

  pub redact_fields : Fields → Fields
  redact_fields end = end
  redact_fields (field k v rest) =
      let shown = redact_secrets v in
      field k (if is_secret_key k then str masked_secret_value else shown) (redact_fields rest)

-- `!hasIncoming || isMaskedSecretValue(incomingValue)`
abbrev pub keeps_current : Option Json → Bool
keeps_current none = true
keeps_current (some v) = is_masked_secret_value (some v)

-- The body of the loop over the entries of `current`; `nested` merges a value that is an object.
abbrev pub merge_entry :
    (is_secret : Bool) (key : String) (current : Json) (nested : Option (Fields → Fields))
    (incoming : Option Json) (merged : Fields)
    → Fields
merge_entry true key current nested incoming merged =
    if keeps_current incoming then set_field key current merged else merged
merge_entry false key current (some nested) (some (obj inner)) merged =
    set_field key (obj (nested inner)) merged
merge_entry false key current _ _ merged = merged

unfoldable mutual
  unfolding is_secret_key is_masked_secret_value

  pub nested_merge : Json → Option (Fields → Fields)
  nested_merge (obj fs) = some (λ incoming. merge_loop fs incoming incoming)
  nested_merge null = none
  nested_merge (bool b) = none
  nested_merge (num n) = none
  nested_merge (str s) = none
  nested_merge (arr vs) = none

  pub merge_loop : Fields → Fields → Fields → Fields
  merge_loop end incoming merged = merged
  merge_loop (field k v rest) incoming merged =
      merge_loop rest incoming
        (merge_entry (is_secret_key k) k v (nested_merge v) (get_field incoming k) merged)

unfoldable pub merge_config_preserving_secrets : Fields → Fields → Fields
unfolding merge_loop
merge_config_preserving_secrets current incoming = merge_loop current incoming incoming
