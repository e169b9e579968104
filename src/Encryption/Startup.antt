-- ===== src/Encryption/Startup.antt =====
-- database/prisma.service.ts: at its start a process compares its encryption settings with the state
-- that the database keeps. Connecting is the client's.
pub mod Safe
use idm_mw.Prelude.{
  ℕ, String, ◌==◌, ◌≡◌, refl, sym, ap, ◌∙◌, eq_iff, Bool, true, false, not, ◌&&◌, Option, none,
  some, List, [], ◌∷◌, ◌++◌, ◌⊎◌, inl, inr, ltb, lookup, length, count_of, concat, join, Bool-cases,
  Option-cases, if◌then◌else◌, arith,
}
use idm_mw.Effects.{
  Thrown, error, Result, ok, throw, Exec, pure, raise, gets, modify, ◌>>=◌, ◌>>◌, outcome-cases,
  >>=-eq-ok, >>-eq-ok,
}
use idm_mw.Effects.Results.{lift, Result-cases}
use idm_mw.Encryption.Keyring.{
  Node, Buffer, Keyring, Settings, is_enabled, is_rotation_mode, active_key_id, keyring,
  validate_configuration,
}
use idm_mw.Encryption.Rotation.{EncryptionStateRow, Storage, database}
use idm_mw.Encryption.Rotation.Service.{blocker}

abbrev pub no_table : Bool → Exec Storage (Option EncryptionStateRow)
no_table true =
    raise (error "ENCRYPTION_ENABLED=true requires the EncryptionState migration to be applied")
no_table false = pure none

-- `migrated`: whether the table EncryptionState exists. Without it the query fails, and the message
-- tells that the table is missing.
unfoldable pub load_encryption_state :
    (migrated required : Bool) → Exec Storage (Option EncryptionStateRow)
load_encryption_state true required = database (gets (λ (w : Storage). w.encryption_state))
load_encryption_state false required = no_table required

abbrev pub refuse_offenders : List String → Exec Storage (Unit {0})
refuse_offenders [] = pure tt
refuse_offenders (o ∷ os) =
    raise (
      error (concat ("Cannot enable encryption on a non-empty system: " ∷ join ", " (o ∷ os) ∷ [])))

-- The counts in the message are left out. The four reads are made one after the other.
unfoldable pub ensure_strictly_empty_for_encryption : Exec Storage (Unit {0})
ensure_strictly_empty_for_encryption = do
  audit_logs ← database (gets (λ (w : Storage). length w.audit_logs))
  dlq_items ← database (gets (λ (w : Storage). length w.dlq_items))
  target_systems ← database (gets (λ (w : Storage). length w.target_systems))
  active_keys ← database (gets (λ (w : Storage). count_of (ltb w.clock) w.key_expiries))
  refuse_offenders (
      blocker audit_logs "AuditLog"
      ++ (blocker dlq_items "DlqItem"
          ++ (blocker target_systems "TargetSystem" ++ blocker active_keys "IdempotencyKey")))

unfoldable pub create_encryption_state : String → Exec Storage (Unit {0})
create_encryption_state active = database (
    modify (λ (w : Storage). record w {
      encryption_state = some (record {
        enabled = true;
        active_key_id = active;
        previous_key_ids = "[]";
        rotation_status = "completed";
      });
    }))

abbrev pub is_known : Option Buffer → Bool
is_known none = false
is_known (some key) = true

-- Encryption is not enabled in the process.
abbrev pub check_disabled : Option EncryptionStateRow → Exec Storage (Unit {0})
check_disabled none = pure tt
check_disabled (some row) =
    if row.enabled
    then raise (error "Encryption is enabled in database state, but ENCRYPTION_ENABLED is not true")
    else pure tt

abbrev pub mismatch : String → String → Thrown
mismatch stored active = error (
    concat (
      "Encryption active key mismatch: database uses '" ∷ stored ∷ "', runtime uses '" ∷ active
      ∷ "'. Run key rotation before normal startup." ∷ []))

module _ (node : Node) (s : Settings) where
  abbrev pub check_active : String → String → Exec Storage (Unit {0})
  check_active stored active =
      if not (stored == active) && not (is_rotation_mode s)
      then raise (mismatch stored active)
      else pure tt

  abbrev pub check_known : EncryptionStateRow → String → Keyring → Exec Storage (Unit {0})
  check_known row active keys =
      if is_known (lookup row.active_key_id keys)
      then check_active row.active_key_id active
      else raise (
          error (
            concat (
              "Database encryption key '" ∷ row.active_key_id
              ∷ "' is not present in runtime keyring" ∷ [])))

  unfoldable pub check_enabled : String → Option EncryptionStateRow → Exec Storage (Unit {0})
  check_enabled active none = do
    ensure_strictly_empty_for_encryption
    create_encryption_state active
  check_enabled active (some row) =
      if row.enabled
      then (do keys ← lift (keyring node s); check_known row active keys)
      else raise (error "Encryption state exists but is disabled; refusing encrypted startup")

  unfoldable pub validate_encryption_state : Bool → Exec Storage (Unit {0})
  validate_encryption_state migrated =
      if is_enabled s
      then (do
        lift (validate_configuration node s)
        state ← load_encryption_state migrated true
        active ← lift (active_key_id s)
        check_enabled active state)
      else (do state ← load_encryption_state migrated false; check_disabled state)
