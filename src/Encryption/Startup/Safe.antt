-- ===== src/Encryption/Startup/Safe.antt =====
-- What a process that has started can rely on.
use idm_mw.Prelude.{
  ℕ, String, ◌==◌, ◌≡◌, ◌≢◌, refl, sym, ap, ◌∙◌, eq_iff, Bool, true, false, Option, none, some,
  ◌++◌, ◌⊎◌, inl, inr, ltb, lookup, length, count_of, Bool-cases, Option-cases, arith,
}
use idm_mw.Effects.{Thrown, Result, ok, throw, gets, ◌>>=◌, >>=-eq-ok, >>-eq-ok}
use idm_mw.Effects.Results.{lift, Result-cases}
use idm_mw.Core.World.{fails_now, later}
use idm_mw.Encryption.Keyring.{
  Node, Buffer, Keyring, Settings, is_enabled, is_rotation_mode, active_key_id, keyring,
  validate_configuration,
}
use idm_mw.Encryption.Rotation.{EncryptionStateRow, Storage, database}
use idm_mw.Encryption.Rotation.Service.{blocker}
use idm_mw.Encryption.Startup.{
  load_encryption_state, ensure_strictly_empty_for_encryption, create_encryption_state,
  refuse_offenders, check_active, check_enabled, validate_encryption_state,
}

-- The process can open what is stored under the key of this id.
abbrev pub HasKey : Node → Settings → String → Type 0
HasKey node s id =
    (keys : Keyring) × (key : Buffer) × (keyring node s ≡ ok keys) × (lookup id keys ≡ some key)

-- The tables that the start counts are empty, and no key on an event is running.
abbrev pub IsEmpty : Storage → Type 0
IsEmpty w =
    (length w.audit_logs ≡ 0)
    × (length w.dlq_items ≡ 0)
    × (length w.target_systems ≡ 0)
    × (count_of (ltb w.clock) w.key_expiries ≡ 0)

-- A read that returned has read, and changed nothing but the outages that are to come.
read-eq-ok :
    {A : Type 0} (f : Storage → A) (w u : Storage) {a : A}
    → database (gets f) w ≡ (ok a, u)
    → (f (record w { outages = later w.outages }) ≡ a)
      × (record w { outages = later w.outages } ≡ u)
read-eq-ok f w u e = elim (Bool-cases (fails_now w.outages)) [
  | inl down ↦ absurd (cc (rw down at e))
  | inr up ↦ let h = rw up at e in (cc h, ap (λ (p : Result _ × Storage). p.1) h)
]

blocked :
    (a b c d : ℕ) (w u : Storage)
    → refuse_offenders
        (blocker a "AuditLog"
          ++ (blocker b "DlqItem" ++ (blocker c "TargetSystem" ++ blocker d "IdempotencyKey")))
        w
      ≡ (ok tt, u)
    → (a ≡ 0) × (b ≡ 0) × (c ≡ 0) × (d ≡ 0)
blocked a b c d w u h = ground arith

IsEmpty-before : (w u : Storage) → ensure_strictly_empty_for_encryption w ≡ (ok tt, u) → IsEmpty w
unfolding ensure_strictly_empty_for_encryption
IsEmpty-before w u h =
    let (a, w1, e1, h1) =
      >>=-eq-ok (database (gets (λ (v : Storage). length v.audit_logs))) _ w h in
    let (b, w2, e2, h2) =
      >>=-eq-ok (database (gets (λ (v : Storage). length v.dlq_items))) _ w1 h1 in
    let (c, w3, e3, h3) =
      >>=-eq-ok (database (gets (λ (v : Storage). length v.target_systems))) _ w2 h2 in
    let (d, w4, e4, h4) =
      >>=-eq-ok (database (gets (λ (v : Storage). count_of (ltb v.clock) v.key_expiries))) _ w3
        h3 in
    let (za, zb, zc, zd) = blocked a b c d w4 u h4 in
    let r1 = read-eq-ok (λ (v : Storage). length v.audit_logs) w w1 e1 in
    let r2 = read-eq-ok (λ (v : Storage). length v.dlq_items) w1 w2 e2 in
    let r3 = read-eq-ok (λ (v : Storage). length v.target_systems) w2 w3 e3 in
    let r4 = read-eq-ok (λ (v : Storage). count_of (ltb v.clock) v.key_expiries) w3 w4 e4 in
    let s1 = r1.1 in
    let s2 = r2.1 in
    let s3 = r3.1 in
    (
      r1.0 ∙ za,
      ap (λ (v : Storage). length v.dlq_items) s1 ∙ (r2.0 ∙ zb),
      ap (λ (v : Storage). length v.target_systems) s1
          ∙ (ap (λ (v : Storage). length v.target_systems) s2 ∙ (r3.0 ∙ zc)),
      ap (λ (v : Storage). count_of (ltb v.clock) v.key_expiries) s1
          ∙ (ap (λ (v : Storage). count_of (ltb v.clock) v.key_expiries) s2
              ∙ (ap (λ (v : Storage). count_of (ltb v.clock) v.key_expiries) s3 ∙ (r4.0 ∙ zd))),
    )

-- The state after a start, and what was stored before where there was no state yet.
pub record StartedSafely (node : Node) (s : Settings) (w u : Storage) : Type 0 where
  pub row : EncryptionStateRow
  pub stored : u.encryption_state ≡ some row
  pub enabled : row.enabled ≡ true
  pub has_key : HasKey node s row.active_key_id
  pub same_key : (active_key_id s ≡ ok row.active_key_id) ⊎ (is_rotation_mode s ≡ true)
  pub empty : w.encryption_state ≡ none → IsEmpty w

module _ (node : Node) (s : Settings) where
  valid_key :
      (active : String)
      → is_enabled s ≡ true
      → validate_configuration node s ≡ ok tt
      → active_key_id s ≡ ok active
      → HasKey node s active
  unfolding validate_configuration
  valid_key active on valid is = elim (Result-cases (keyring node s)) [
    | inr (x, bad) ↦ absurd (cc (rw (on, bad) at valid))
    | inl (keys, found) ↦ elim (Option-cases (lookup active keys)) [
      | inl missing ↦ absurd (cc (rw (on, found, is, missing) at valid))
      | inr (key, there) ↦ (keys, key, found, there)
    ]
  ]

  no_active_key :
      {x : Thrown}
      → is_enabled s ≡ true
      → validate_configuration node s ≡ ok tt
      → active_key_id s ≢ throw x
  unfolding validate_configuration
  no_active_key on valid bad = elim (Result-cases (keyring node s)) [
    | inr (y, failed) ↦ cc (rw (on, failed) at valid)
    | inl (keys, found) ↦ cc (rw (on, found, bad) at valid)
  ]

  created_safely :
      (active : String) (w v u : Storage)
      → IsEmpty w
      → HasKey node s active
      → active_key_id s ≡ ok active
      → create_encryption_state active v ≡ (ok tt, u)
      → StartedSafely node s w u
  unfolding create_encryption_state
  created_safely active w v u none_stored key is h = elim (Bool-cases (fails_now v.outages)) [
    | inl down ↦ absurd (cc (rw down at h))
    | inr up ↦
        let made = ap (λ (p : Result (Unit {0}) × Storage). p.1.encryption_state) (rw up at h) in
        record {
          row = record {
            enabled = true;
            active_key_id = active;
            previous_key_ids = "[]";
            rotation_status = "completed";
          };
          stored = sym made;
          enabled = refl;
          has_key = key;
          same_key = inl is;
          empty = λ h. none_stored;
        }
  ]

  active_agrees :
      (stored active : String) (v u : Storage)
      → check_active node s stored active v ≡ (ok tt, u)
      → ((stored ≡ active) ⊎ (is_rotation_mode s ≡ true)) × (v ≡ u)
  active_agrees stored active v u h = elim (Bool-cases (stored == active)) [
    | inl same ↦ (
      inl ((eq_iff stored active).0 same),
      ap (λ (p : Result (Unit {0}) × Storage). p.1) (rw same at h),
    )
    | inr other ↦ elim (Bool-cases (is_rotation_mode s)) [
      | inl rotating ↦
          (inr rotating, ap (λ (p : Result (Unit {0}) × Storage). p.1) (rw (other, rotating) at h))
      | inr normal ↦ absurd (cc (rw (other, normal) at h))
    ]
  ]

  checked_safely :
      (active : String) (row : EncryptionStateRow) (w v u : Storage)
      → w.encryption_state ≡ some row
      → v.encryption_state ≡ some row
      → active_key_id s ≡ ok active
      → check_enabled node s active (some row) v ≡ (ok tt, u)
      → StartedSafely node s w u
  unfolding check_enabled
  checked_safely active row w v u before stored is h = elim (Bool-cases row.enabled) [
    | inr off ↦ absurd (cc (rw off at h))
    | inl on ↦ elim (Result-cases (keyring node s)) [
      | inr (x, bad) ↦ absurd (cc (rw (on, bad) at h))
      | inl (keys, found) ↦ elim (Option-cases (lookup row.active_key_id keys)) [
        | inl missing ↦ absurd (cc (rw (on, found, missing) at h))
        | inr (key, there) ↦
            let known = rw (on, found, there) at h in
            let (agrees, kept) = active_agrees row.active_key_id active v u known in
            record {
              row = row;
              stored = rw (← kept) stored;
              enabled = on;
              has_key = (keys, key, found, there);
              same_key = elim agrees [ inl e ↦ inl (is ∙ ap ok (sym e)) | inr r ↦ inr r ];
              empty = λ missing. absurd (cc (missing, before));
            }
      ]
    ]
  ]

  named_check :
      (state : Option EncryptionStateRow) (active : String) (v u : Storage)
      → active_key_id s ≡ ok active
      → (lift (active_key_id s) >>= λ id. check_enabled node s id state) v ≡ (ok tt, u)
      → check_enabled node s active state v ≡ (ok tt, u)
  named_check state active v u is h = rw is at h

  loaded_safely :
      (state : Option EncryptionStateRow) (active : String) (w v u : Storage)
      → w.encryption_state ≡ state
      → record w { outages = later w.outages } ≡ v
      → HasKey node s active
      → active_key_id s ≡ ok active
      → check_enabled node s active state v ≡ (ok tt, u)
      → StartedSafely node s w u
  unfolding check_enabled
  loaded_safely none active w v u before kept key is h =
      let (_, x, checked, created) = >>-eq-ok ensure_strictly_empty_for_encryption _ v h in
      let nothing = IsEmpty-before (record w { outages = later w.outages }) x (rw kept checked) in
      created_safely active w x u nothing key is created
  loaded_safely (some row) active w v u before kept key is h =
      checked_safely active row w v u before
        (sym (ap (λ (x : Storage). x.encryption_state) kept) ∙ before) is h

-- A process that has encryption enabled starts only in front of a database whose state is enabled
-- and names a key of its keyring, and outside rotation mode its own active key: so it can open what
-- is stored under the key of the state. If the database had no state before, then AuditLog, DlqItem and
-- TargetSystem had no rows and no row of IdempotencyKey was still running.
pub validate_encryption_state_safe :
    (node : Node) (s : Settings) (migrated : Bool) (w u : Storage)
    → is_enabled s ≡ true
    → validate_encryption_state node s migrated w ≡ (ok tt, u)
    → StartedSafely node s w u
unfolding validate_encryption_state load_encryption_state
validate_encryption_state_safe node s false w u on h =
    elim (Result-cases (validate_configuration node s)) [
      | inr (x, bad) ↦ absurd (cc (rw (on, bad) at h))
      | inl (_, valid) ↦ absurd (cc (rw (on, valid) at h))
    ]
validate_encryption_state_safe node s true w u on h =
    elim (Result-cases (validate_configuration node s)) [
      | inr (x, bad) ↦ absurd (cc (rw (on, bad) at h))
      | inl (_, valid) ↦ elim (Result-cases (active_key_id s)) [
        | inr (x, bad) ↦ absurd (no_active_key node s on valid bad)
        | inl (active, is) ↦
            let (state, v, read, rest) =
              >>=-eq-ok (load_encryption_state true true) _ w (rw (on, valid) at h) in
            let (same, kept) = read-eq-ok (λ (x : Storage). x.encryption_state) w v read in
            loaded_safely node s state active w v u same kept (valid_key node s active on valid is)
              is (named_check node s state active v u is rest)
      ]
    ]
