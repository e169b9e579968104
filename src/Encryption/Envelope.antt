-- ===== src/Encryption/Envelope.antt =====
-- security/encryption.service.ts: envelopes, and database/json.helper.ts, which reads and writes the
-- columns that hold them. The bytes of `randomBytes` are the argument `iv`.
use idm_mw.Prelude.{String, ◌==◌, Bool, ◌&&◌, Option, none, some, lookup, if◌then◌else◌}
use idm_mw.Json.{Json, null, bool, num, str, arr, obj, Fields, end, field, get_field}
use idm_mw.Effects.{error, Result, ok, throw}
use idm_mw.Effects.Results.{◌>>=◌}
use idm_mw.Encryption.Keyring.{
  Node, Buffer, Settings, is_enabled, is_kafka_encryption_enabled, active_key_id, require_key,
}

abbrev pub envelope_marker : String
envelope_marker = "idmmw.v1"

abbrev pub envelope_alg : String
envelope_alg = "AES-256-GCM"

pub record EncryptionEnvelope : Type 0 where
  pub enc : String
  pub alg : String
  pub kid : String
  pub iv : String
  pub tag : String
  pub ct : String

-- The envelope as the object that is stored.
abbrev pub to_value : EncryptionEnvelope → Json
to_value e = obj (
    field "__enc" (str e.enc) (
      field "alg" (str e.alg) (
        field "kid" (str e.kid)
          (field "iv" (str e.iv) (field "tag" (str e.tag) (field "ct" (str e.ct) end))))))

-- `typeof candidate[key] === 'string'`, with the text.
abbrev pub text_field : Fields → String → Option String
text_field fs key = elim (get_field fs key) [
  | none ↦ none
  | some v ↦ elim v [
    | null ↦ none
    | bool b ↦ none
    | num n ↦ none
    | str s ↦ some s
    | arr vs ↦ none
    | obj gs ↦ none
  ]
]

-- The texts of a candidate: marker, algorithm, and the four others.
abbrev pub envelope_of :
    Option String
    → Option String
    → Option String
    → Option String
    → Option String
    → Option String
    → Option EncryptionEnvelope
envelope_of (some enc) (some alg) (some kid) (some iv) (some tag) (some ct) =
    if enc == envelope_marker && alg == envelope_alg
    then some (record { enc = enc; alg = alg; kid = kid; iv = iv; tag = tag; ct = ct })
    else none
envelope_of _ _ _ _ _ _ = none

-- `isEnvelope`, with the value as the envelope that it is.
unfoldable pub as_envelope : Json → Option EncryptionEnvelope
as_envelope (obj fs) =
    envelope_of (text_field fs "__enc") (text_field fs "alg") (text_field fs "kid")
      (text_field fs "iv") (text_field fs "tag") (text_field fs "ct")
as_envelope _ = none

-- JsonHelper.isSqlite
unfoldable pub is_sqlite : Settings → Bool
is_sqlite s = elim (lookup "DATABASE_PROVIDER" s.config) [
  | none ↦ Bool.false
  | some provider ↦ provider == "sqlite"
]

module _ (node : Node) where
  abbrev pub envelope_with : String → Buffer → Buffer × Buffer → EncryptionEnvelope
  envelope_with kid iv (ct, tag) = record {
    enc = envelope_marker;
    alg = envelope_alg;
    kid = kid;
    iv = node.to_base64 iv;
    tag = node.to_base64 tag;
    ct = node.to_base64 ct;
  }

  unfoldable pub encrypt_object : Settings → Buffer → Json → Result EncryptionEnvelope
  encrypt_object s iv value = do
    kid ← active_key_id s
    key ← require_key node s kid
    ok (envelope_with kid iv (node.seal key iv (node.from_utf8 (node.stringify value))))

  unfoldable pub decrypt_object : Settings → EncryptionEnvelope → Result Json
  decrypt_object s e =
      if e.enc == envelope_marker && e.alg == envelope_alg
      then (do
        key ← require_key node s e.kid
        plaintext ←
            node.unseal key (node.from_base64 e.iv) (node.from_base64 e.tag) (node.from_base64 e.ct)
        node.parse (node.to_utf8 plaintext))
      else throw (error "Unsupported encryption envelope")

  unfoldable pub encrypt_for_storage : Settings → Buffer → Json → Result Json
  encrypt_for_storage s iv value =
      if is_enabled s then (do e ← encrypt_object s iv value; ok (to_value e)) else ok value

  abbrev pub opened : Settings → Json → Option EncryptionEnvelope → Result Json
  opened s value none = ok value
  opened s value (some e) = decrypt_object s e

  -- `null` is no envelope, and stays `null`.
  unfoldable pub decrypt_from_storage : Settings → Json → Result Json
  decrypt_from_storage s value = opened s value (as_envelope value)

  unfoldable pub encode_kafka_message : Settings → Buffer → Fields → Result String
  encode_kafka_message s iv message =
      if is_kafka_encryption_enabled s
      then (do e ← encrypt_object s iv (obj message); ok (node.stringify (to_value e)))
      else ok (node.stringify (obj message))

  unfoldable pub decode_kafka_message : Settings → String → Result Json
  decode_kafka_message s raw = do parsed ← node.parse raw; opened s parsed (as_envelope parsed)

  unfoldable pub to_json : Settings → Buffer → Json → Result Json
  to_json s iv value = do
    stored ← encrypt_for_storage s iv value
    ok (if is_sqlite s then str (node.stringify stored) else stored)

  -- On SQLite the columns are texts.
  abbrev pub parsed_column : Bool → Json → Result Json
  parsed_column Bool.false value = ok value
  parsed_column Bool.true (str text) = node.parse text
  parsed_column Bool.true _ = throw (error "the column of a SQLite database holds no text")

  abbrev pub read_column : Settings → Json → Result Json
  read_column s value = do parsed ← parsed_column (is_sqlite s) value; decrypt_from_storage s parsed

  unfoldable pub from_json : Settings → Json → Result Json
  from_json s null = ok null
  from_json s (bool b) = read_column s (bool b)
  from_json s (num n) = read_column s (num n)
  from_json s (str t) = read_column s (str t)
  from_json s (arr vs) = read_column s (arr vs)
  from_json s (obj fs) = read_column s (obj fs)
