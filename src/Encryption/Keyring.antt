-- ===== src/Encryption/Keyring.antt =====
-- security/encryption.service.ts: the settings and the keyring. The process's environment and its
-- configuration stay the same while it runs, so the cache of the keyring only saves reading them
-- again and is not modelled.
use Prim.Native.Char.{Char, code}
use Prim.Native.String
use Prim.Native.String.{char_at}
use idm_mw.Prelude.{
  ℕ, String, ◌==◌, Bool, false, not, ◌&&◌, ◌||◌, Option, none, some, List, [], ◌∷◌, ◌++◌, map, eqb,
  ltb, Assoc, lookup, insert, or_option, keep, trim, to_lower, split_on, is_digit, starts_with,
  concat, text_length, truthy, leb, ◌-◌, if◌then◌else◌,
}
use idm_mw.Json.{Json, str, obj, entries}
use idm_mw.Effects.{Thrown, error, Result, ok, throw}
use idm_mw.Effects.Results.{◌>>=◌}

-- The bytes of a Buffer, one code point for each.
abbrev pub Buffer : Type 0
Buffer = String

-- What the code uses of Node's crypto and Buffer, and of JSON. `seal` is the cipher AES-256-GCM with
-- its ciphertext and tag; `unseal` throws where the tag does not fit.
pub record Node : Type 0 where
  pub stringify : Json → String
  pub parse : String → Result Json
  pub from_base64 : String → Buffer
  pub to_base64 : Buffer → String
  pub from_utf8 : String → Buffer
  pub to_utf8 : Buffer → String
  pub seal : (key iv plaintext : Buffer) → Buffer × Buffer
  pub unseal : (key iv tag ciphertext : Buffer) → Result Buffer
  pub hmac_hex : (key : Buffer) (text : String) → String

-- Texts of `process.env` and of ConfigService. A configured value that is a boolean is never equal to
-- the text 'true' and counts as missing here.
pub record Settings : Type 0 where
  pub process_env : Assoc String
  pub config : Assoc String

abbrev pub Keyring : Type 0
Keyring = Assoc Buffer

unfoldable pub read_string : Settings → String → Option String
read_string s name = or_option (lookup name s.process_env) (lookup name s.config)

abbrev pub flag_of : Option String → Bool → Bool
flag_of none fallback = fallback
flag_of (some value) fallback = value == "true"

unfoldable pub read_flag : Settings → String → Bool → Bool
unfolding read_string
read_flag s name fallback = flag_of (read_string s name) fallback

unfoldable pub is_enabled : Settings → Bool
unfolding read_flag
is_enabled s = read_flag s "ENCRYPTION_ENABLED" false

unfoldable pub is_kafka_encryption_enabled : Settings → Bool
unfolding read_flag is_enabled
is_kafka_encryption_enabled s = read_flag s "ENCRYPTION_KAFKA_ENABLED" (is_enabled s)

unfoldable pub is_idempotency_hmac_enabled : Settings → Bool
unfolding read_flag is_enabled
is_idempotency_hmac_enabled s = read_flag s "ENCRYPTION_IDEMPOTENCY_HMAC_ENABLED" (is_enabled s)

unfoldable pub is_rotation_mode : Settings → Bool
unfolding read_flag
is_rotation_mode s = read_flag s "ENCRYPTION_ROTATION_MODE" false

abbrev pub id_or_throw : Option String → Result String
id_or_throw none = throw (error "ENCRYPTION_ACTIVE_KEY_ID is required when encryption is enabled")
id_or_throw (some id) = ok id

unfoldable pub active_key_id : Settings → Result String
unfolding read_string
active_key_id s = id_or_throw (
    or_option (truthy (read_string s "ENCRYPTION_ACTIVE_KEY_ID"))
      (truthy (read_string s "ENCRYPTION_KEY_ID")))

-- `value.replace(/[^a-zA-Z0-9]/g, '_').toUpperCase()`; a code point beyond the basic plane is two
-- units, and each is replaced.
abbrev is_letter : ℕ → Bool
is_letter c = (leb b'a' c && leb c b'z') || (leb b'A' c && leb c b'Z')

suffix_char : Char → String
unfolding is_digit
suffix_char c =
    if leb b'a' (code c) && leb (code c) b'z'
    then String.◌∷◌ (char_at "ABCDEFGHIJKLMNOPQRSTUVWXYZ" (code c - b'a')) ""
    else (if is_letter (code c) || is_digit (code c)
        then String.◌∷◌ c ""
        else (if ltb (code c) 0x10000 then "_" else "__"))

unfoldable pub env_key_suffix : String → String
unfolding suffix_char
env_key_suffix String.[] = ""
env_key_suffix (String.◌∷◌ c s) = String.◌++◌ (suffix_char c) (env_key_suffix s)

unfoldable pub is_secret_reference : String → Bool
unfolding starts_with to_lower
is_secret_reference value =
    starts_with (to_lower value) "secret://" || starts_with (to_lower value) "aapm://"

-- `value?.trim().startsWith('{')`
unfoldable pub is_json_text : Option String → Bool
unfolding starts_with trim
is_json_text none = false
is_json_text (some value) = starts_with (trim value) "{"

-- The trimmed entries of a list of ids that are not empty.
unfoldable pub listed_ids : Option String → List String
unfolding trim split_on
listed_ids none = []
listed_ids (some value) = keep (λ id. not (id == "")) (map trim (split_on b',' value))

abbrev pub key_bytes : ℕ
key_bytes = 32

abbrev pub missing_material : String → Thrown
missing_material id = error (
    concat (
      "Missing encryption key material for '"
      ∷ id
      ∷ "'. Set ENCRYPTION_KEY_"
      ∷ env_key_suffix id
      ∷ []))

module _ (node : Node) where
  unfoldable pub parse_key_material : String → String → Result Buffer
  unfolding trim is_secret_reference text_length
  parse_key_material id value =
      if is_secret_reference (trim value)
      then throw (
          error (
            concat (
              "Encryption key '" ∷ id
              ∷ "' is still a secret reference. Enable SECRETS_PROVIDER=IndeedPamAapm before encryption startup."
              ∷ [])))
      else (if eqb (text_length (node.from_base64 (trim value))) key_bytes
          then ok (node.from_base64 (trim value))
          else throw
              (error (concat ("Encryption key '" ∷ id ∷ "' must be base64-encoded 32 bytes" ∷ []))))

  -- `Object.keys` of what JSON.parse returned.
  abbrev pub object_keys : Json → List String
  object_keys (obj fs) = map (λ (entry : String × Json). entry.0) (entries fs)
  object_keys _ = []

  abbrev pub ids_or_active : Settings → List String → Result (List String)
  ids_or_active s [] = active_key_id s >>= λ id. ok (id ∷ [])
  ids_or_active s (id ∷ ids) = ok (id ∷ ids)

  abbrev pub parse_ids : Option String → Result (List String)
  parse_ids none = ok []
  parse_ids (some value) = node.parse value >>= λ parsed. ok (object_keys parsed)

  unfoldable pub key_ids : Settings → Result (List String)
  unfolding read_string listed_ids is_json_text active_key_id
  key_ids s =
      if is_json_text (read_string s "ENCRYPTION_KEYS")
      then parse_ids (read_string s "ENCRYPTION_KEYS")
      else ids_or_active s (listed_ids (read_string s "ENCRYPTION_KEYS"))

  -- A key in the JSON of ENCRYPTION_KEYS; `value.trim` of a value that is no text throws.
  abbrev pub json_key : String → Json → Result Buffer
  json_key id (str value) = parse_key_material id value
  json_key id _ = throw (error "value.trim is not a function")

  -- The loop over the entries of the parsed object.
  unfoldable pub keyring_of_entries : Assoc Json → Keyring → Result Keyring
  unfolding parse_key_material
  keyring_of_entries [] keys = ok keys
  keyring_of_entries ((id, value) ∷ rest) keys =
      json_key id value >>= λ key. keyring_of_entries rest (insert id key keys)

  abbrev pub entries_of : Json → Assoc Json
  entries_of (obj fs) = entries fs
  entries_of _ = []

  -- The text under ENCRYPTION_KEY_<id>, or that under ENCRYPTION_KEY for the active key. The active
  -- id is read only where the first is missing.
  abbrev pub fallback_material : Settings → String → Option String → Result (Option String)
  fallback_material s id (some value) = ok (some value)
  fallback_material s id none = active_key_id s >>= λ active.
      ok (if id == active then read_string s "ENCRYPTION_KEY" else none)

  abbrev pub checked_material : String → Option String → Result Buffer
  checked_material id none = throw (missing_material id)
  checked_material id (some value) = parse_key_material id value

  unfoldable pub listed_key : Settings → String → Result Buffer
  unfolding read_string active_key_id env_key_suffix parse_key_material
  listed_key s id =
      fallback_material s id (read_string s (String.◌++◌ "ENCRYPTION_KEY_" (env_key_suffix id)))
      >>= λ value. checked_material id (truthy value)

  -- The loop over the listed ids.
  unfoldable pub keyring_of_ids : Settings → List String → Keyring → Result Keyring
  unfolding listed_key
  keyring_of_ids s [] keys = ok keys
  keyring_of_ids s (id ∷ ids) keys =
      listed_key s id >>= λ key. keyring_of_ids s ids (insert id key keys)

  abbrev pub parse_entries : Option String → Result (Assoc Json)
  parse_entries none = ok []
  parse_entries (some value) = node.parse value >>= λ parsed. ok (entries_of parsed)

  unfoldable pub keyring : Settings → Result Keyring
  unfolding read_string is_json_text key_ids keyring_of_ids keyring_of_entries
  keyring s =
      if is_json_text (read_string s "ENCRYPTION_KEYS")
      then (do found ← parse_entries (read_string s "ENCRYPTION_KEYS"); keyring_of_entries found [])
      else (do ids ← key_ids s; keyring_of_ids s ids [])

  abbrev pub key_or_throw : String → Option Buffer → Result Buffer
  key_or_throw id none =
      throw (error (concat ("Encryption key '" ∷ id ∷ "' is not present in keyring" ∷ [])))
  key_or_throw id (some key) = ok key

  unfoldable pub require_key : Settings → String → Result Buffer
  unfolding keyring
  require_key s id = keyring s >>= λ keys. key_or_throw id (lookup id keys)

  abbrev pub has_key : String → Option Buffer → Result (Unit {0})
  has_key id none = throw (
      error (
        concat
          ("Active encryption key '" ∷ id ∷ "' is not present in ENCRYPTION_KEYS/keyring" ∷ [])))
  has_key id (some key) = ok tt

  unfoldable pub validate_configuration : Settings → Result (Unit {0})
  unfolding is_enabled keyring active_key_id
  validate_configuration s =
      if is_enabled s
      then (do keys ← keyring s; id ← active_key_id s; has_key id (lookup id keys))
      else ok tt

  -- `idmmw:hmac:${id}:${digest}`
  abbrev pub hmac_key : String → String × Buffer → String
  hmac_key source_key (id, key) =
      concat ("idmmw:hmac:" ∷ id ∷ ":" ∷ node.hmac_hex key source_key ∷ [])

  -- The candidate keys of an event: under the active key first, then under the others.
  unfoldable pub idempotency_keys : Settings → String → Result (List String)
  unfolding is_idempotency_hmac_enabled keyring active_key_id
  idempotency_keys s source_key =
      if is_idempotency_hmac_enabled s
      then (do
        keys ← keyring s
        active ← active_key_id s
        ok (
            map (hmac_key source_key) (
              keep (λ (item : String × Buffer). item.0 == active) keys
              ++ keep (λ (item : String × Buffer). not (item.0 == active)) keys)))
      else ok (source_key ∷ [])
