-- ===== src/Security/Redaction/Restoring.antt =====
-- A masked configuration that comes back unchanged restores the stored one.
use idm_mw.Prelude.{
  String, ◌==◌, ◌≡◌, refl, sym, ap, ◌∙◌, eq_refl, eq_iff, Bool, true, false, Option, none, some,
  if◌then◌else◌, inl, inr, Bool-cases,
}
use idm_mw.Json.{
  Json, null, bool, num, str, arr, obj, Fields, end, field, entries, from_entries, get_field,
}
use idm_mw.Connectors.{set_field}
use idm_mw.Security.Redaction.{
  is_secret_key, is_masked_secret_value, masked_secret_value, redact_secrets, redact_items,
  redact_fields, keeps_current, merge_entry, nested_merge, merge_loop,
  merge_config_preserving_secrets,
}

-- The keys of every object differ, and no array holds a secret.
unfoldable mutual
  pub IsRestorable : Json → Type 0
  IsRestorable (arr vs) = redact_items vs ≡ vs
  IsRestorable (obj fs) = AreRestorable fs
  IsRestorable null = Unit
  IsRestorable (bool b) = Unit
  IsRestorable (num n) = Unit
  IsRestorable (str s) = Unit

  pub AreRestorable : Fields → Type 0
  AreRestorable end = Unit
  AreRestorable (field k v rest) =
      (get_field rest k ≡ none) × (is_secret_key k ≡ false → IsRestorable v) × AreRestorable rest

from_entries-entries : (fs : Fields) → from_entries (entries fs) ≡ fs
from_entries-entries end = refl
from_entries-entries (field k v rest) = ap (field k v) (from_entries-entries rest)

set_field-head : (k : String) (v w : Json) (m : Fields) → set_field k v (field k w m) ≡ field k v m
set_field-head k v w m = rw (eq_refl k) (ap (field k v) (from_entries-entries m))

eqb_sym : (k j : String) → (k == j) ≡ false → (j == k) ≡ false
eqb_sym k j h = elim (Bool-cases (j == k)) [
  | inl same ↦ absurd (cc (h, ap (λ x. x == j) (sym ((eq_iff j k).0 same)), eq_refl j))
  | inr other ↦ other
]

merge_loop-end : (incoming m : Fields) → merge_loop end incoming m ≡ m
unfolding merge_loop
merge_loop-end incoming m = refl

merge_loop-field :
    (k : String) (v : Json) (rest incoming m : Fields)
    → merge_loop (field k v rest) incoming m
      ≡ merge_loop rest incoming
          (merge_entry (is_secret_key k) k v (nested_merge v) (get_field incoming k) m)
unfolding merge_loop
merge_loop-field k v rest incoming m = refl

module _ (j : String) (u : Json) where
  merge_entry-skip :
      (b : Bool) (k : String) (v : Json) (n : Option (Fields → Fields)) (i : Option Json)
      (m : Fields)
      → (j == k) ≡ false
      → merge_entry b k v n i (field j u m) ≡ field j u (merge_entry b k v n i m)
  merge_entry-skip true k v n i m h = elim (Bool-cases (keeps_current i)) [
    | inl kept ↦ rw (kept, h)
    | inr sent ↦ rw sent
  ]
  merge_entry-skip false k v (some n) (some (obj inner)) m h = rw h
  merge_entry-skip false k v (some n) (some null) m h = refl
  merge_entry-skip false k v (some n) (some (bool b)) m h = refl
  merge_entry-skip false k v (some n) (some (num x)) m h = refl
  merge_entry-skip false k v (some n) (some (str s)) m h = refl
  merge_entry-skip false k v (some n) (some (arr vs)) m h = refl
  merge_entry-skip false k v (some n) none m h = refl
  merge_entry-skip false k v none i m h = refl

  -- Entries of other keys leave the entry at the front alone.
  merge_loop-skip :
      (rest incoming m : Fields)
      → get_field rest j ≡ none
      → merge_loop rest incoming (field j u m) ≡ field j u (merge_loop rest incoming m)
  merge_loop-skip end incoming m h =
      merge_loop-end incoming (field j u m) ∙ ap (field j u) (sym (merge_loop-end incoming m))
  merge_loop-skip (field k v rest) incoming m h = elim (Bool-cases (k == j)) [
    | inl same ↦ absurd (cc (rw same at h))
    | inr other ↦
        let next = merge_entry (is_secret_key k) k v (nested_merge v) (get_field incoming k) in
        merge_loop-field k v rest incoming (field j u m)
        ∙ ap (merge_loop rest incoming) (
            merge_entry-skip (is_secret_key k) k v (nested_merge v) (get_field incoming k) m
              (eqb_sym k j other))
        ∙ merge_loop-skip rest incoming (next m) (rw other at h)
        ∙ ap (field j u) (sym (merge_loop-field k v rest incoming m))
  ]

-- The incoming value of each of these entries is its masked value.
abbrev AgreesWith : Fields → Fields → Type 0
AgreesWith incoming end = Unit
AgreesWith incoming (field k v rest) =
    (get_field incoming k
      ≡ some (if is_secret_key k then str masked_secret_value else redact_secrets v))
    × AgreesWith incoming rest

AgreesWith-field :
    (j : String) (u : Json) (incoming rest : Fields)
    → get_field rest j ≡ none
    → AgreesWith incoming rest
    → AgreesWith (field j u incoming) rest
AgreesWith-field j u incoming end h a = tt
AgreesWith-field j u incoming (field k v rest) h (same, a) = elim (Bool-cases (k == j)) [
  | inl e ↦ absurd (cc (rw e at h))
  | inr other ↦ (rw (eqb_sym k j other) same, AgreesWith-field j u incoming rest (rw other at h) a)
]

redacted-AgreesWith : (fs : Fields) → AreRestorable fs → AgreesWith (redact_fields fs) fs
unfolding redact_secrets IsRestorable
redacted-AgreesWith end h = tt
redacted-AgreesWith (field k v rest) (distinct, _, h) =
    (rw (eq_refl k), AgreesWith-field k _ _ rest distinct (redacted-AgreesWith rest h))

restored_secret :
    (k : String) (v : Json) (m : Fields)
    → merge_entry true k v
        (nested_merge v)
        (some (str masked_secret_value))
        (field k (str masked_secret_value) m)
      ≡ field k v m
unfolding is_masked_secret_value
restored_secret k v m = set_field-head k v _ m

mutual
  unfolding merge_loop redact_secrets IsRestorable

  restored_open :
      (v : Json) (k : String) (m : Fields)
      → IsRestorable v
      → merge_entry false k v
          (nested_merge v)
          (some (redact_secrets v))
          (field k (redact_secrets v) m)
        ≡ field k v m
  restored_open (obj fs) k m h =
      set_field-head k _ _ m
      ∙ ap (λ inner. field k (obj inner) m)
          (restored_loop fs (redact_fields fs) h (redacted-AgreesWith fs h))
  restored_open (arr vs) k m h = ap (λ shown. field k (arr shown) m) h
  restored_open null k m h = refl
  restored_open (bool b) k m h = refl
  restored_open (num n) k m h = refl
  restored_open (str s) k m h = refl

  restored_loop :
      (fs incoming : Fields)
      → AreRestorable fs
      → AgreesWith incoming fs
      → merge_loop fs incoming (redact_fields fs) ≡ fs
  restored_loop end incoming h a = refl
  restored_loop (field k v rest) incoming (distinct, h, hs) (same, a) =
      let others = restored_loop rest incoming hs a in
      let shown = restored_open v k (redact_fields rest) in
      let done =
        merge_loop-skip k v rest incoming (redact_fields rest) distinct ∙ ap (field k v) others in
      elim (Bool-cases (is_secret_key k)) [
        | inl secret ↦
            rw (secret, same, secret)
              (ap (merge_loop rest incoming) (restored_secret k v (redact_fields rest)) ∙ done)
        | inr open_ ↦
            rw (open_, same, open_) (ap (merge_loop rest incoming) (shown (h open_)) ∙ done)
      ]

-- A configuration that was masked for a reader and comes back unchanged merges to the stored
-- configuration, secrets included, at every depth of objects. The conditions: the keys of every
-- object differ, and no array outside a secret holds something that is masked.
pub merge-redact :
    (fs : Fields) → AreRestorable fs → merge_config_preserving_secrets fs (redact_fields fs) ≡ fs
unfolding merge_config_preserving_secrets
merge-redact fs h = restored_loop fs (redact_fields fs) h (redacted-AgreesWith fs h)
