-- ===== src/Encryption/Rotation/Converting.antt =====
-- Reading a column and writing it again under the active key: what every process with that key reads
-- stays the same.
use idm_mw.Prelude.{String, ◌≡◌, refl, sym, ap, ◌∙◌, true, List, inl, inr}
use idm_mw.Json.{Json, null, bool, num, str, arr, obj}
use idm_mw.Effects.{Result, ok, >>=-eq-ok}
use idm_mw.Effects.Results.{Result-cases}
use idm_mw.Effects.Preserves.{Preserves, Preserves-bind, Preserves-pure}
use idm_mw.Encryption.Keyring.{Node, Buffer, Settings, is_enabled, active_key_id, require_key}
use idm_mw.Encryption.Envelope.{
  EncryptionEnvelope, to_value, is_sqlite, encrypt_object, encrypt_for_storage, from_json,
}
use idm_mw.Encryption.RoundTrip.{NodeLaws, Serialises, from_json-to_json}
use idm_mw.Encryption.Rotation.{
  Storage, AuditCells, DlqCells, random_bytes, rewrite, rewrite_response, rewrite_audit,
  rewrite_item,
}

-- What `reader` reads in the new column is what a process with the settings `s` read in the old one.
abbrev pub ReadsAs : Node → Settings → Settings → Json → Json → Type 0
ReadsAs node s reader old new = from_json node reader new ≡ from_json node s old

-- JSON reads the content of the column back, if the column can be read at all.
abbrev pub IsPlainColumn : Node → Settings → Json → Type 0
IsPlainColumn node s column = (v : Json) → from_json node s column ≡ ok v → Serialises node v

-- The process that rotates has encryption enabled, on a SQLite database JSON reads envelopes back, and
-- `reader` uses the same kind of database and has the active key.
pub record Rotates (node : Node) (s reader : Settings) : Type 0 where
  pub enabled : is_enabled s ≡ true
  pub same_database : is_sqlite reader ≡ is_sqlite s
  pub same_key :
      (kid : String)
      → active_key_id s ≡ ok kid
      → require_key node reader kid ≡ require_key node s kid
  pub envelopes : is_sqlite s ≡ true → (e : EncryptionEnvelope) → Serialises node (to_value e)

module _ (node : Node) (laws : NodeLaws node) (s reader : Settings)
    (rot : Rotates node s reader) where
  encrypted-Serialises :
      (iv : Buffer) (v stored : Json)
      → is_sqlite s ≡ true
      → encrypt_for_storage node s iv v ≡ ok stored
      → Serialises node stored
  unfolding encrypt_for_storage
  encrypted-Serialises iv v stored text made = elim (Result-cases (encrypt_object node s iv v)) [
    | inl (e, sealed) ↦
        let same : to_value e ≡ stored = cc (rw (rot.enabled, sealed) at made) in
        rw (← same) (rot.envelopes text e)
    | inr (x, sealed) ↦ absurd (cc (rw (rot.enabled, sealed) at made))
  ]

  pub rewrite_reads :
      (old new : Json) (w u : Storage)
      → IsPlainColumn node s old
      → rewrite node s old w ≡ (ok new, u)
      → ReadsAs node s reader old new
  unfolding rewrite random_bytes
  rewrite_reads old new w u plain made = elim (Result-cases (from_json node s old)) [
    | inl (v, found) ↦
        let written = ap (λ (p : Result Json × Storage). p.0) (rw found at made) in
        from_json-to_json node laws s reader _ v
          (record {
            plain = plain v found;
            told_apart = inl rot.enabled;
            same_key = rot.same_key;
            same_database = rot.same_database;
            text_column = λ text stored kept. encrypted-Serialises _ v stored text kept;
          })
          written
        ∙ sym found
    | inr (x, found) ↦ absurd (cc (rw found at made))
  ]

  pub rewrite_response_reads :
      (old new : Json) (w u : Storage)
      → IsPlainColumn node s old
      → rewrite_response node s old w ≡ (ok new, u)
      → ReadsAs node s reader old new
  unfolding rewrite_response from_json
  rewrite_response_reads null new w u plain made =
      let same : null ≡ new = cc made in rw (← same) refl
  rewrite_response_reads (bool b) new w u plain made = rewrite_reads (bool b) new w u plain made
  rewrite_response_reads (num n) new w u plain made = rewrite_reads (num n) new w u plain made
  rewrite_response_reads (str t) new w u plain made = rewrite_reads (str t) new w u plain made
  rewrite_response_reads (arr vs) new w u plain made = rewrite_reads (arr vs) new w u plain made
  rewrite_response_reads (obj fs) new w u plain made = rewrite_reads (obj fs) new w u plain made

  pub rewrite_audit_reads :
      (old new : AuditCells) (w u : Storage)
      → IsPlainColumn node s old.payload × IsPlainColumn node s old.response
      → rewrite_audit node s old w ≡ (ok new, u)
      → ReadsAs node s reader old.payload new.payload
        × ReadsAs node s reader old.response new.response
  unfolding rewrite_audit
  rewrite_audit_reads old new w u (pp, pr) made =
      let (p, t, written, rest) = >>=-eq-ok (rewrite node s old.payload) _ w made in
      let (r, v, replied, last) = >>=-eq-ok (rewrite_response node s old.response) _ t rest in
      let made_of : ◌≡◌ {A = AuditCells} (record { payload = p; response = r }) new = cc last in
      (
        rw (← ap (λ (x : AuditCells). x.payload) made_of)
            (rewrite_reads old.payload p w t pp written),
        rw (← ap (λ (x : AuditCells). x.response) made_of)
            (rewrite_response_reads old.response r t v pr replied),
      )

  pub rewrite_item_reads :
      (old new : DlqCells) (w u : Storage)
      → IsPlainColumn node s old.payload
      → rewrite_item node s old w ≡ (ok new, u)
      → (new.status ≡ old.status) × ReadsAs node s reader old.payload new.payload
  unfolding rewrite_item
  rewrite_item_reads old new w u plain made =
      let (p, t, written, last) = >>=-eq-ok (rewrite node s old.payload) _ w made in
      let made_of : ◌≡◌ {A = DlqCells} (record { status = old.status; payload = p }) new =
        cc last in
      (
        sym (ap (λ (x : DlqCells). x.status) made_of),
        rw (← ap (λ (x : DlqCells). x.payload) made_of)
            (rewrite_reads old.payload p w t plain written),
      )

-- A conversion draws random bytes and changes nothing else.
module _ (node : Node) (s : Settings) {P : Storage → Type 0}
    (draws : (b : List Buffer) (w : Storage) → P w → P (record w { random = b })) where
  pub rewrite-Preserves : (old : Json) → Preserves P (rewrite node s old)
  unfolding rewrite random_bytes
  rewrite-Preserves old = record {
    at = λ w h. elim (Result-cases (from_json node s old)) [
      | inl (v, found) ↦ rw found (draws _ w h)
      | inr (x, found) ↦ rw found h
    ];
  }

  pub rewrite_response-Preserves : (old : Json) → Preserves P (rewrite_response node s old)
  unfolding rewrite_response
  rewrite_response-Preserves null = Preserves-pure null
  rewrite_response-Preserves (bool b) = rewrite-Preserves (bool b)
  rewrite_response-Preserves (num n) = rewrite-Preserves (num n)
  rewrite_response-Preserves (str t) = rewrite-Preserves (str t)
  rewrite_response-Preserves (arr vs) = rewrite-Preserves (arr vs)
  rewrite_response-Preserves (obj fs) = rewrite-Preserves (obj fs)

  pub rewrite_audit-Preserves : (old : AuditCells) → Preserves P (rewrite_audit node s old)
  unfolding rewrite_audit
  rewrite_audit-Preserves old =
      Preserves-bind (rewrite node s old.payload) _ (rewrite-Preserves old.payload) (λ p.
        Preserves-bind (rewrite_response node s old.response) _
          (rewrite_response-Preserves old.response) (λ r. Preserves-pure _))

  pub rewrite_item-Preserves : (old : DlqCells) → Preserves P (rewrite_item node s old)
  unfolding rewrite_item
  rewrite_item-Preserves old =
      Preserves-bind (rewrite node s old.payload) _ (rewrite-Preserves old.payload)
        (λ p. Preserves-pure _)
