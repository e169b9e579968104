-- ===== src/Encryption/RoundTrip.antt =====
-- What is encrypted is read back, as long as the reader's keyring has the key.
use idm_mw.Prelude.{
  String, ◌≡◌, refl, ◌∙◌, true, none, some, ◌⊎◌, inl, inr, Bool-cases, if◌then◌else◌,
}
use idm_mw.Json.{Json, null, bool, num, str, arr, obj, Fields}
use idm_mw.Effects.{ok}
use idm_mw.Effects.Results.{>>=-eq-ok}
use idm_mw.Encryption.Keyring.{
  Node, Buffer, Settings, is_enabled, is_kafka_encryption_enabled, active_key_id, require_key,
}
use idm_mw.Encryption.Envelope.{
  EncryptionEnvelope, to_value, as_envelope, is_sqlite, encrypt_object, decrypt_object,
  envelope_with, encrypt_for_storage, decrypt_from_storage, encode_kafka_message,
  decode_kafka_message, to_json, from_json, read_column, opened,
}

-- What is documented of Node: base64 and UTF-8 are read back, and the cipher opens what it sealed
-- under the same key and initialisation vector.
pub record NodeLaws (node : Node) : Type 0 where
  pub base64 : (bytes : Buffer) → node.from_base64 (node.to_base64 bytes) ≡ bytes
  pub utf8 : (text : String) → node.to_utf8 (node.from_utf8 text) ≡ text
  pub sealed :
      (key iv plaintext : Buffer)
      → node.unseal key iv (node.seal key iv plaintext).1 (node.seal key iv plaintext).0
        ≡ ok plaintext

-- JSON reads the value back that it wrote, as it does for finite numbers and keys that differ.
abbrev pub Serialises : Node → Json → Type 0
Serialises node v = node.parse (node.stringify v) ≡ ok v

module _ (node : Node) where
  pub as_envelope-to_value :
      (kid : String) (iv : Buffer) (sealed : Buffer × Buffer)
      → as_envelope (to_value (envelope_with node kid iv sealed))
        ≡ some (envelope_with node kid iv sealed)
  unfolding as_envelope
  as_envelope-to_value kid iv sealed = refl

  -- An envelope names the active key, and was sealed under it.
  pub encrypt_object-sealed :
      (s : Settings) (iv : Buffer) (v : Json) {e : EncryptionEnvelope}
      → encrypt_object node s iv v ≡ ok e
      → (kid key : String) × (active_key_id s ≡ ok kid)
        × (require_key node s kid ≡ ok key)
        × (e ≡ envelope_with node kid iv (node.seal key iv (node.from_utf8 (node.stringify v))))
  unfolding encrypt_object
  encrypt_object-sealed s iv v h =
      let (kid, active, rest) = >>=-eq-ok (active_key_id s) _ h in
      let (key, found, made) = >>=-eq-ok (require_key node s kid) _ rest in
      (kid, key, active, found, cc made)

  encrypt_object-kid :
      (s : Settings) (iv : Buffer) (v : Json) {e : EncryptionEnvelope}
      → encrypt_object node s iv v ≡ ok e
      → (active_key_id s ≡ ok e.kid) × (as_envelope (to_value e) ≡ some e)
  encrypt_object-kid s iv v made =
      let (kid, key, active, found, e) = encrypt_object-sealed s iv v made in
      (rw e active, rw e (as_envelope-to_value kid iv _))

module _ (node : Node) (laws : NodeLaws node) where
  -- Another process opens the envelope too, if its keyring holds the key.
  pub decrypt_object-encrypt_object :
      (s reader : Settings) (iv : Buffer) (v : Json) {e : EncryptionEnvelope}
      → Serialises node v
      → encrypt_object node s iv v ≡ ok e
      → require_key node reader e.kid ≡ require_key node s e.kid
      → decrypt_object node reader e ≡ ok v
  unfolding decrypt_object
  decrypt_object-encrypt_object s reader iv v plain made keys =
      let (kid, key, active, found, e) = encrypt_object-sealed node s iv v made in
      let held : require_key node reader kid ≡ ok key = rw e at keys ∙ found in
      rw e (
        rw
          (
            held,
            laws.base64 iv,
            laws.base64 (node.seal key iv _).0,
            laws.base64 (node.seal key iv _).1,
            laws.sealed key iv _,
            laws.utf8 (node.stringify v),
          )
          plain)

  -- The conditions under which `reader` reads what a process with the settings `s` stores: JSON reads
  -- the value back, the value is encrypted or does not itself look like an envelope, the reader has the
  -- key that is active in `s`, and both use the same kind of database.
  pub record CanRead (s reader : Settings) (iv : Buffer) (v : Json) : Type 0 where
    pub plain : Serialises node v
    pub told_apart : (is_enabled s ≡ true) ⊎ (as_envelope v ≡ none)
    pub same_key :
        (kid : String)
        → active_key_id s ≡ ok kid
        → require_key node reader kid ≡ require_key node s kid
    pub same_database : is_sqlite reader ≡ is_sqlite s
    pub text_column :
        is_sqlite s ≡ true
        → (stored : Json) → encrypt_for_storage node s iv v ≡ ok stored
        → Serialises node stored

  opened_envelope :
      (s reader : Settings) (iv : Buffer) (v : Json) {e : EncryptionEnvelope}
      → CanRead s reader iv v
      → encrypt_object node s iv v ≡ ok e
      → opened node reader (to_value e) (as_envelope (to_value e)) ≡ ok v
  opened_envelope s reader iv v can made =
      let (active, itself) = encrypt_object-kid node s iv v made in
      rw itself (decrypt_object-encrypt_object s reader iv v can.plain made (can.same_key _ active))

  decrypt_from_storage-encrypt_for_storage :
      (s reader : Settings) (iv : Buffer) (v : Json) {stored : Json}
      → CanRead s reader iv v
      → encrypt_for_storage node s iv v ≡ ok stored
      → decrypt_from_storage node reader stored ≡ ok v
  unfolding encrypt_for_storage decrypt_from_storage
  decrypt_from_storage-encrypt_for_storage s reader iv v {stored} can made =
      elim (Bool-cases (is_enabled s)) [
        | inl on ↦
            let (e, sealed, kept) = >>=-eq-ok (encrypt_object node s iv v) _ (rw on at made) in
            let same : to_value e ≡ stored = cc kept in
            rw (← same) (opened_envelope s reader iv v can sealed)
        | inr off ↦
            let same : v ≡ stored = cc (rw off at made) in
            rw (← same)
              (elim can.told_apart [ inl on ↦ absurd (cc (on, off)) | inr plain ↦ rw plain refl ])
      ]

  -- A column that holds `null` is read without its decoding, with the same value.
  from_json-column :
      (reader : Settings) (raw v : Json)
      → read_column node reader raw ≡ ok v
      → from_json node reader raw ≡ ok v
  unfolding from_json decrypt_from_storage as_envelope
  from_json-column reader null v h = elim (Bool-cases (is_sqlite reader)) [
    | inl text ↦ absurd (cc (rw text at h))
    | inr value ↦ rw value at h
  ]
  from_json-column reader (bool b) v h = h
  from_json-column reader (num n) v h = h
  from_json-column reader (str t) v h = h
  from_json-column reader (arr vs) v h = h
  from_json-column reader (obj fs) v h = h

  -- What JsonHelper writes to a column, it reads back from it, in every process that has the key under
  -- which it was written and uses the same kind of database. The conditions on the value: JSON reads it
  -- back from its text; it is encrypted when it is written, or does not itself look like an envelope;
  -- and where the database is SQLite, JSON also reads back the text of what is stored. Node's ciphers
  -- and codecs are read back.
  pub from_json-to_json :
      (s reader : Settings) (iv : Buffer) (v : Json) {raw : Json}
      → CanRead s reader iv v
      → to_json node s iv v ≡ ok raw
      → from_json node reader raw ≡ ok v
  unfolding to_json
  from_json-to_json s reader iv v {raw} can written =
      let (stored, kept, made) = >>=-eq-ok (encrypt_for_storage node s iv v) _ written in
      let same : (if is_sqlite s then str (node.stringify stored) else stored) ≡ raw = cc made in
      let read = decrypt_from_storage-encrypt_for_storage s reader iv v can kept in
      rw (← same) (
        from_json-column reader _ v (elim (Bool-cases (is_sqlite s)) [
          | inl text ↦ rw (can.same_database, text, can.text_column text stored kept) read
          | inr value ↦ rw (can.same_database, value) read
        ]))

  -- A message that was encoded for Kafka is decoded to what it was.
  pub decode_kafka_message-encode_kafka_message :
      (s reader : Settings) (iv : Buffer) (m : Fields) {raw : String}
      → Serialises node (obj m)
      → ((e : EncryptionEnvelope) → Serialises node (to_value e))
      → (is_kafka_encryption_enabled s ≡ true) ⊎ (as_envelope (obj m) ≡ none)
      → ((kid : String)
          → active_key_id s ≡ ok kid
          → require_key node reader kid ≡ require_key node s kid)
      → encode_kafka_message node s iv m ≡ ok raw
      → decode_kafka_message node reader raw ≡ ok (obj m)
  unfolding encode_kafka_message decode_kafka_message
  decode_kafka_message-encode_kafka_message s reader iv m {raw} plain envelopes told keys made =
      elim (Bool-cases (is_kafka_encryption_enabled s)) [
        | inl on ↦
            let (e, sealed, kept) =
              >>=-eq-ok (encrypt_object node s iv (obj m)) _ (rw on at made) in
            let same : node.stringify (to_value e) ≡ raw = cc kept in
            let (active, itself) = encrypt_object-kid node s iv (obj m) sealed in
            rw (← same) (
              rw (envelopes e, itself)
                (decrypt_object-encrypt_object s reader iv (obj m) plain sealed (keys _ active)))
        | inr off ↦
            let same : node.stringify (obj m) ≡ raw = cc (rw off at made) in
            rw (← same)
              (rw plain (elim told [ inl on ↦ absurd (cc (on, off)) | inr open_ ↦ rw open_ refl ]))
      ]
