-- ===== src/Tests/Encryption.antt =====
-- Encryption with a toy cipher, on a small database under the key k1 that is rotated to k2.
use idm_mw.Prelude.{
  String, ◌==◌, eq_refl, ◌≡◌, refl, ap, Bool, true, false, none, some, [], ◌∷◌, Assoc, includes,
  concat, map, ◌⊎◌, inl, if◌then◌else◌,
}
use idm_mw.Json.{Json, null, str, arr, nil}
use idm_mw.Effects.{Result, ok, throw, error}
use idm_mw.Core.World.{resolved}
use idm_mw.Core.Idempotency.{first}
use idm_mw.Encryption.Keyring.{
  Node, Keyring, Settings, is_enabled, is_idempotency_hmac_enabled, active_key_id, keyring,
  require_key, validate_configuration, idempotency_keys,
}
use idm_mw.Encryption.Envelope.{
  is_sqlite, to_value, to_json, from_json, encrypt_object, encrypt_for_storage,
  decrypt_from_storage, as_envelope, decrypt_object,
}
use idm_mw.Encryption.RoundTrip.{NodeLaws, CanRead, from_json-to_json}
use idm_mw.Encryption.Candidates.{idempotency_keys-rotated}
use idm_mw.Encryption.Rotation.{
  Row, EncryptionStateRow, Storage, load_state, mark_rotation, rotate_audit_logs, rotate_dlq_items,
  rotate_target_systems, rotate_rows, rewrite_audit, rewrite_item, rewrite_response, rewrite,
  complete_rotation, previous_key_ids, random_bytes, set_cells,
}
use idm_mw.Encryption.Rotation.Service.{
  RotationConfig, TopicOffsets, rotate_to_active_key, rotate_if_other, rotate_from,
  assert_no_active_processing, rotate_tables,
}
use idm_mw.Encryption.Rotation.Converting.{IsPlainColumn, Rotates}
use idm_mw.Encryption.Rotation.Whole.{IsPlain, ReadsLike, NamesActiveKey}
use idm_mw.Encryption.Rotation.Safety.{rotate_to_active_key_lem}
use idm_mw.Encryption.Startup.{load_encryption_state, check_enabled, validate_encryption_state}
use idm_mw.Encryption.Startup.Safe.{StartedSafely, validate_encryption_state_safe}

-- JSON of texts and null, no encoding, and a cipher that keeps the text and puts the key into the tag.
abbrev toy_stringify : Json → String
toy_stringify (str t) = t
toy_stringify (arr vs) = "[]"
toy_stringify _ = "null"

abbrev toy_parse : String → Json
toy_parse t = if t == "[]" then arr nil else (if t == "null" then null else str t)

abbrev toy_unseal : Bool → String → Result String
toy_unseal true ct = ok ct
toy_unseal false ct = throw (error "Unsupported state or unable to authenticate data")

abbrev toy_node : Node
toy_node = record {
  stringify = toy_stringify;
  parse = λ t. ok (toy_parse t);
  from_base64 = λ t. t;
  to_base64 = λ t. t;
  from_utf8 = λ t. t;
  to_utf8 = λ t. t;
  seal = λ key iv plaintext. (plaintext, key);
  unseal = λ key iv tag ct. toy_unseal (tag == key) ct;
  hmac_hex = λ key text. key;
}

toy_laws : NodeLaws toy_node
toy_laws = record {
  base64 = λ b. refl;
  utf8 = λ t. refl;
  sealed = λ key iv plaintext. rw eq_refl refl;
}

abbrev material : Assoc String
material =
    ("ENCRYPTION_KEY_K1", "11111111111111111111111111111111")
    ∷ ("ENCRYPTION_KEY_K2", "22222222222222222222222222222222")
    ∷ []

abbrev settings : String → String → Settings
settings active ids = record {
  process_env =
      ("ENCRYPTION_ENABLED", "true")
      ∷ ("ENCRYPTION_ACTIVE_KEY_ID", active)
      ∷ ("ENCRYPTION_KEYS", ids)
      ∷ material;
  config = [];
}

-- Before the rotation, during it, and with the first key gone.
abbrev old_settings : Settings
old_settings = settings "k1" "k1,k2"

abbrev both_settings : Settings
both_settings = settings "k2" "k1, k2"

abbrev new_settings : Settings
new_settings = settings "k2" "k2"

abbrev sealed_under : String → String → Json
sealed_under kid text = to_value (record {
  enc = "idmmw.v1";
  alg = "AES-256-GCM";
  kid = kid;
  iv = "";
  tag =
      if kid == "k1"
      then "11111111111111111111111111111111"
      else "22222222222222222222222222222222";
  ct = text;
})

abbrev stored : Storage
stored = record {
  clock = 1000;
  outages = [];
  random = "iv1" ∷ "iv2" ∷ [];
  audit_logs =
      record { id = 1; cells = record { payload = sealed_under "k1" "hello"; response = null } }
      ∷ [];
  dlq_items =
      record { id = 1; cells = record { status = resolved; payload = sealed_under "k1" "item" } }
      ∷ [];
  target_systems =
      record { id = 1; cells = sealed_under "k1" "one" }
      ∷ record { id = 2; cells = sealed_under "k1" "two" }
      ∷ [];
  linux_hosts = record { id = 1; cells = sealed_under "k1" "rack 4" } ∷ [];
  key_expiries = 900 ∷ [];
  encryption_state = some (record {
    enabled = true;
    active_key_id = "k1";
    previous_key_ids = "[]";
    rotation_status = "completed";
  });
}

plain_text :
    (column : Json) (text : String)
    → from_json toy_node both_settings column ≡ ok (str text)
    → toy_parse text ≡ str text
    → IsPlainColumn toy_node both_settings column
plain_text column text e other v found =
    let same : str text ≡ v = cc (e, found) in rw (← same) (ap ok other)

stored-IsPlain : IsPlain toy_node both_settings stored
unfolding from_json require_key is_sqlite decrypt_from_storage as_envelope decrypt_object
stored-IsPlain = record {
  audit_ids = (tt, tt);
  item_ids = (tt, tt);
  target_ids = ((refl, tt), (tt, tt));
  audit_columns = (
    (
      plain_text (sealed_under "k1" "hello") "hello" refl refl,
      λ v e. let same : null ≡ v = cc e in rw (← same) refl,
    ),
    tt,
  );
  item_columns = (plain_text (sealed_under "k1" "item") "item" refl refl, tt);
  target_columns = (
    plain_text (sealed_under "k1" "one") "one" refl refl,
    (plain_text (sealed_under "k1" "two") "two" refl refl, tt),
  );
}

rotates : Rotates toy_node both_settings new_settings
unfolding is_enabled is_sqlite active_key_id require_key
rotates = record {
  enabled = refl;
  same_database = refl;
  same_key = λ kid e. let same : "k2" ≡ kid = cc e in rw (← same) refl;
  envelopes = λ text. absurd (cc text);
}

abbrev rotation_config : RotationConfig
rotation_config = record {
  kafka_enabled = none;
  skip_kafka_lag_check = none;
  topic_events_in = none;
  topic_dlq_retry = none;
}

abbrev no_offsets : String → Result TopicOffsets
no_offsets topic = throw (error "no broker")

rotate_to_active_key_lem_example :
    let (r, u) = rotate_to_active_key toy_node both_settings no_offsets rotation_config stored in
    ReadsLike toy_node both_settings both_settings stored u
    × (u.linux_hosts ≡ stored.linux_hosts)
    × (r ≡ ok tt
        → ((row : EncryptionStateRow) × (stored.encryption_state ≡ some row)
            × (active_key_id both_settings ≡ ok row.active_key_id))
          ⊎ (ReadsLike toy_node both_settings new_settings stored u
              × NamesActiveKey both_settings u))
rotate_to_active_key_lem_example =
    rotate_to_active_key_lem toy_node toy_laws both_settings new_settings rotates no_offsets
      rotation_config stored stored-IsPlain

-- The rotation returns, and moves the configurations to the new key, but not the metadata of a host.
rotated :
    let (r, u) = rotate_to_active_key toy_node both_settings no_offsets rotation_config stored in
    (r ≡ ok tt)
    × (map (λ (x : Row Json). x.cells) u.target_systems
        ≡ sealed_under "k2" "one" ∷ sealed_under "k2" "two" ∷ [])
    × (map (λ (x : Row Json). x.cells) u.linux_hosts ≡ sealed_under "k1" "rack 4" ∷ [])
unfolding rotate_to_active_key is_enabled validate_configuration load_state rotate_if_other
    rotate_from assert_no_active_processing mark_rotation rotate_tables rotate_audit_logs
    rotate_dlq_items rotate_target_systems rotate_rows rewrite_audit rewrite_item rewrite_response
    rewrite from_json is_sqlite decrypt_from_storage as_envelope decrypt_object require_key
    encrypt_for_storage encrypt_object to_json active_key_id complete_rotation previous_key_ids
    random_bytes set_cells
rotated = (refl, refl, refl)

abbrev sealed_under_iv : String → Json
sealed_under_iv iv = to_value (record {
  enc = "idmmw.v1";
  alg = "AES-256-GCM";
  kid = "k2";
  iv = iv;
  tag = "22222222222222222222222222222222";
  ct = "hello";
})

reads_back : CanRead toy_node toy_laws both_settings new_settings "iv" (str "hello")
unfolding is_enabled is_sqlite active_key_id require_key
reads_back = record {
  plain = refl;
  told_apart = inl refl;
  same_key = λ kid e. let same : "k2" ≡ kid = cc e in rw (← same) refl;
  same_database = refl;
  text_column = λ text. absurd (cc text);
}

written : to_json toy_node both_settings "iv" (str "hello") ≡ ok (sealed_under_iv "iv")
unfolding to_json encrypt_for_storage encrypt_object is_enabled is_sqlite active_key_id require_key
written = refl

from_json-to_json_example :
    from_json toy_node new_settings (sealed_under_iv "iv") ≡ ok (str "hello")
from_json-to_json_example =
    from_json-to_json toy_node toy_laws both_settings new_settings "iv" (str "hello") reads_back
      written

abbrev started : Storage
started = record stored { outages = [] }

old_enabled : is_enabled old_settings ≡ true
unfolding is_enabled
old_enabled = refl

old_starts : validate_encryption_state toy_node old_settings true stored ≡ (ok tt, started)
unfolding validate_encryption_state is_enabled validate_configuration load_encryption_state
    check_enabled
old_starts = refl

validate_encryption_state_safe_example : StartedSafely toy_node old_settings stored started
validate_encryption_state_safe_example =
    validate_encryption_state_safe toy_node old_settings true stored started old_enabled old_starts

abbrev ring : Keyring
ring = ("k1", "11111111111111111111111111111111") ∷ ("k2", "22222222222222222222222222222222") ∷ []

abbrev under_k1 : String
under_k1 = "idmmw:hmac:k1:11111111111111111111111111111111"

abbrev under_k2 : String
under_k2 = "idmmw:hmac:k2:22222222222222222222222222222222"

hmac_facts :
    (is_idempotency_hmac_enabled old_settings ≡ true)
    × (is_idempotency_hmac_enabled both_settings ≡ true)
    × (active_key_id old_settings ≡ ok "k1")
    × (keyring toy_node old_settings ≡ ok ring)
    × (keyring toy_node both_settings ≡ ok ring)
    × (idempotency_keys toy_node old_settings "e1" ≡ ok (under_k1 ∷ under_k2 ∷ []))
    × (idempotency_keys toy_node both_settings "e1" ≡ ok (under_k2 ∷ under_k1 ∷ []))
unfolding idempotency_keys concat
hmac_facts = (refl, refl, refl, refl, refl, refl, refl)

idempotency_keys-rotated_example :
    (locked : String) × (first (under_k1 ∷ under_k2 ∷ []) ≡ some locked)
    × (includes (under_k2 ∷ under_k1 ∷ []) locked ≡ true)
idempotency_keys-rotated_example =
    idempotency_keys-rotated toy_node old_settings both_settings "e1" "k1" ring ring
      "11111111111111111111111111111111" hmac_facts.0 hmac_facts.1 hmac_facts.2 hmac_facts.3 refl
      hmac_facts.4 refl hmac_facts.5 hmac_facts.6
