-- ===== src/Security/Redaction/Masking.antt =====
-- What a reader of a masked value sees.
use idm_mw.Prelude.{◌≡◌, refl, true, inl, inr, Bool-cases}
use idm_mw.Json.{Json, null, bool, num, str, arr, obj, Items, nil, cons, Fields, end, field}
use idm_mw.Security.Redaction.{
  is_secret_key, masked_secret_value, redact_secrets, redact_items, redact_fields,
}

-- At every depth, the value under a secret key is the mask.
mutual
  pub IsMasked : Json → Type 0
  IsMasked (arr vs) = AreMasked vs
  IsMasked (obj fs) = HasMaskedFields fs
  IsMasked null = Unit
  IsMasked (bool b) = Unit
  IsMasked (num n) = Unit
  IsMasked (str s) = Unit

  pub AreMasked : Items → Type 0
  AreMasked nil = Unit
  AreMasked (cons v vs) = IsMasked v × AreMasked vs

  pub HasMaskedFields : Fields → Type 0
  HasMaskedFields end = Unit
  HasMaskedFields (field k v rest) =
      (is_secret_key k ≡ true → v ≡ str masked_secret_value) × IsMasked v × HasMaskedFields rest

mutual
  unfolding redact_secrets IsMasked

  redacted-IsMasked : (v : Json) → IsMasked (redact_secrets v)
  redacted-IsMasked (arr vs) = redacted_items-AreMasked vs
  redacted-IsMasked (obj fs) = redacted_fields-HasMaskedFields fs
  redacted-IsMasked null = tt
  redacted-IsMasked (bool b) = tt
  redacted-IsMasked (num n) = tt
  redacted-IsMasked (str s) = tt

  redacted_items-AreMasked : (vs : Items) → AreMasked (redact_items vs)
  redacted_items-AreMasked nil = tt
  redacted_items-AreMasked (cons v vs) = (redacted-IsMasked v, redacted_items-AreMasked vs)

  redacted_fields-HasMaskedFields : (fs : Fields) → HasMaskedFields (redact_fields fs)
  redacted_fields-HasMaskedFields end = tt
  redacted_fields-HasMaskedFields (field k v rest) =
      let others = redacted_fields-HasMaskedFields rest in
      let shown = redacted-IsMasked v in
      elim (Bool-cases (is_secret_key k)) [
        | inl secret ↦ rw secret (λ _. refl, tt, others)
        | inr open_ ↦ rw open_ (λ h. absurd (cc h), shown, others)
      ]

mutual
  unfolding redact_secrets

  redact_secrets_idem : (v : Json) → redact_secrets (redact_secrets v) ≡ redact_secrets v
  redact_secrets_idem (arr vs) = cc (redact_items_idem vs)
  redact_secrets_idem (obj fs) = cc (redact_fields_idem fs)
  redact_secrets_idem null = refl
  redact_secrets_idem (bool b) = refl
  redact_secrets_idem (num n) = refl
  redact_secrets_idem (str s) = refl

  redact_items_idem : (vs : Items) → redact_items (redact_items vs) ≡ redact_items vs
  redact_items_idem nil = refl
  redact_items_idem (cons v vs) = cc (redact_secrets_idem v, redact_items_idem vs)

  redact_fields_idem : (fs : Fields) → redact_fields (redact_fields fs) ≡ redact_fields fs
  redact_fields_idem end = refl
  redact_fields_idem (field k v rest) =
      let others = redact_fields_idem rest in
      let shown = redact_secrets_idem v in
      elim (Bool-cases (is_secret_key k)) [
        | inl secret ↦ rw secret (cc others)
        | inr open_ ↦ rw open_ (cc (shown, others))
      ]

-- In a redacted value every value under a secret key is the mask, at every depth and inside arrays,
-- and redacting it again changes nothing.
pub redact_secrets_lem :
    (v : Json)
    → IsMasked (redact_secrets v) × (redact_secrets (redact_secrets v) ≡ redact_secrets v)
redact_secrets_lem v = (redacted-IsMasked v, redact_secrets_idem v)
