-- ===== src/Encryption/Rotation.antt =====
-- security/encryption-rotation.service.ts: the encrypted columns of AuditLog, DlqItem and TargetSystem are
-- read and written again, so that they are under the active key. The one other encrypted column of the
-- schema, `metadata` of LinuxHost, is left as it is.
pub mod Service
pub mod Loop
pub mod Converting
pub mod Contents
pub mod Whole
pub mod Safety
use mathlib.Core.Option
use idm_mw.Prelude.{
  ℕ, ◌+◌, ◌-◌, String, ◌==◌, Bool, true, false, not, ◌&&◌, ◌||◌, Option, none, some, List, [], ◌∷◌,
  map, ltb, eqb, Assoc, lookup, or_else, keep, includes, split_on, concat, join, count_of,
  if◌then◌else◌,
}
use idm_mw.Json.{Json, null, bool, num, str, arr, obj, Items, nil, cons}
use idm_mw.Effects.{
  Thrown, error, Result, ok, throw, Exec, pure, raise, gets, modify, try_catch, ◌>>=◌, ◌>>◌,
}
use idm_mw.Effects.Results
use idm_mw.Effects.Results.{lift}
use idm_mw.Core.World.{Status, unavailable, fails_now, later}
use idm_mw.Encryption.Keyring.{
  Node, Buffer, Settings, is_enabled, active_key_id, validate_configuration, read_string,
}
use idm_mw.Encryption.Envelope.{to_json, from_json}

-- A row with its id and the columns that rotation reads.
pub record Row (Cells : Type 0) : Type 0 where
  pub id : ℕ
  pub cells : Cells

-- The encrypted columns of AuditLog; `response` is null where there was none.
pub record AuditCells : Type 0 where
  pub payload : Json
  pub response : Json

-- The columns of DlqItem: its status, which rotation does not write, and the payload.
pub record DlqCells : Type 0 where
  pub status : Status
  pub payload : Json

-- interface EncryptionStateRow, with the other columns of the row 'default'.
pub record EncryptionStateRow : Type 0 where
  pub enabled : Bool
  pub active_key_id : String
  pub previous_key_ids : String
  pub rotation_status : String

-- The database as it is stored. `outages` foretells which of the next calls of the database fail, and
-- `random` the bytes that randomBytes gives.
pub record Storage : Type 0 where
  pub clock : ℕ
  pub outages : List Bool
  pub random : List Buffer
  pub audit_logs : List (Row AuditCells)
  pub dlq_items : List (Row DlqCells)
  pub target_systems : List (Row Json)
  -- the column `metadata` of LinuxHost, null where there is none
  pub linux_hosts : List (Row Json)
  -- the times at which the rows of IdempotencyKey expire
  pub key_expiries : List ℕ
  pub encryption_state : Option EncryptionStateRow

abbrev pub when_up : {A : Type 0} → Bool → Exec Storage A → Exec Storage A
when_up true call w = (throw unavailable, w)
when_up false call w = call w

-- One call of the database.
abbrev pub database : {A : Type 0} → Exec Storage A → Exec Storage A
database call w = when_up (fails_now w.outages) call (record w { outages = later w.outages })

abbrev pub head_of : List Buffer → Buffer
head_of [] = ""
head_of (b ∷ bs) = b

abbrev pub tail_of : List Buffer → List Buffer
tail_of [] = []
tail_of (b ∷ bs) = bs

-- `randomBytes(12)`
unfoldable pub random_bytes : Exec Storage Buffer
random_bytes w = (ok (head_of w.random), record w { random = tail_of w.random })

-- `update({ where: { id }, data })`
unfoldable pub set_cells : {C : Type 0} → ℕ → C → List (Row C) → List (Row C)
set_cells id new [] = []
set_cells id new (r ∷ rs) =
    (if eqb r.id id then record { id = r.id; cells = new } else r) ∷ set_cells id new rs

module _ (node : Node) (s : Settings) where
  -- `this.jsonHelper.toJson(this.jsonHelper.fromJson(column))`
  unfoldable pub rewrite : Json → Exec Storage Json
  rewrite column = do
    value ← lift (from_json node s column)
    iv ← random_bytes
    lift (to_json node s iv value)

  -- `row.response === null ? null : …`
  unfoldable pub rewrite_response : Json → Exec Storage Json
  unfolding rewrite
  rewrite_response null = pure null
  rewrite_response (bool b) = rewrite (bool b)
  rewrite_response (num n) = rewrite (num n)
  rewrite_response (str t) = rewrite (str t)
  rewrite_response (arr vs) = rewrite (arr vs)
  rewrite_response (obj fs) = rewrite (obj fs)

  unfoldable pub rewrite_audit : AuditCells → Exec Storage AuditCells
  unfolding rewrite rewrite_response
  rewrite_audit c = do
    payload ← rewrite c.payload
    response ← rewrite_response c.response
    pure (record { payload = payload; response = response })

  unfoldable pub rewrite_item : DlqCells → Exec Storage DlqCells
  unfolding rewrite
  rewrite_item c = do payload ← rewrite c.payload; pure (record c { payload = payload })

-- The loop over the rows that were read; `put` changes the table.
unfoldable pub rotate_rows :
    {C : Type 0} (convert : C → Exec Storage C)
    (put : (List (Row C) → List (Row C)) → Storage → Storage)
    → List (Row C)
    → Exec Storage (Unit {0})
rotate_rows convert put [] = pure tt
rotate_rows convert put (r ∷ rs) = do
  new ← convert r.cells
  database (modify (put (set_cells r.id new)))
  rotate_rows convert put rs

abbrev pub put_audit_logs : (List (Row AuditCells) → List (Row AuditCells)) → Storage → Storage
put_audit_logs f w = record w { audit_logs = f w.audit_logs }

abbrev pub put_dlq_items : (List (Row DlqCells) → List (Row DlqCells)) → Storage → Storage
put_dlq_items f w = record w { dlq_items = f w.dlq_items }

abbrev pub put_target_systems : (List (Row Json) → List (Row Json)) → Storage → Storage
put_target_systems f w = record w { target_systems = f w.target_systems }

module _ (node : Node) (s : Settings) where
  unfoldable pub rotate_audit_logs : Exec Storage (Unit {0})
  rotate_audit_logs = do
    rows ← database (gets (λ (w : Storage). w.audit_logs))
    rotate_rows (rewrite_audit node s) put_audit_logs rows

  unfoldable pub rotate_dlq_items : Exec Storage (Unit {0})
  rotate_dlq_items = do
    rows ← database (gets (λ (w : Storage). w.dlq_items))
    rotate_rows (rewrite_item node s) put_dlq_items rows

  unfoldable pub rotate_target_systems : Exec Storage (Unit {0})
  rotate_target_systems = do
    rows ← database (gets (λ (w : Storage). w.target_systems))
    rotate_rows (rewrite node s) put_target_systems rows

abbrev pub row_or_throw : Option EncryptionStateRow → Exec Storage EncryptionStateRow
row_or_throw none = raise (error "EncryptionState is missing; enable encryption first")
row_or_throw (some row) = pure row

unfoldable pub load_state : Exec Storage EncryptionStateRow
load_state = do found ← database (gets (λ (w : Storage). w.encryption_state)); row_or_throw found

-- The texts of a parsed array, which is what the column holds.
abbrev pub texts_of : Items → List String
texts_of nil = []
texts_of (cons (str t) vs) = t ∷ texts_of vs
texts_of (cons _ vs) = texts_of vs

abbrev pub array_texts : Json → Result (List String)
array_texts (arr vs) = ok (texts_of vs)
array_texts _ = throw (error "parsed is not iterable")

abbrev pub text_items : List String → Items
text_items [] = nil
text_items (t ∷ ts) = cons (str t) (text_items ts)

-- `[...new Set(texts)]`, where `seen` stands before.
unfoldable pub distinct_after : List String → List String → List String
unfolding includes
distinct_after seen [] = []
distinct_after seen (t ∷ ts) =
    let rest = distinct_after (t ∷ seen) ts in
    let skipped = distinct_after seen ts in if includes seen t then skipped else t ∷ rest

module _ (node : Node) where
  unfoldable pub previous_key_ids : String → String → Result (List String)
  unfolding distinct_after
  previous_key_ids active raw =
      Results.◌>>=◌ (Results.◌>>=◌ (node.parse (if raw == "" then "[]" else raw)) array_texts)
        (λ parsed. ok (distinct_after [] (active ∷ parsed)))

  abbrev pub on_row : (EncryptionStateRow → EncryptionStateRow) → Storage → Storage
  on_row f w = record w { encryption_state = Option.map f w.encryption_state }

  unfoldable pub mark_rotation : String → String → String → Exec Storage (Unit {0})
  unfolding previous_key_ids
  mark_rotation status active raw = do
    ids ← lift (previous_key_ids active raw)
    database (
        modify (
          on_row (λ row. record row {
            rotation_status = status;
            previous_key_ids = node.stringify (arr (text_items ids));
          })))

  unfoldable pub complete_rotation : Settings → String → String → Exec Storage (Unit {0})
  unfolding previous_key_ids
  complete_rotation s active raw = do
    ids ← lift (previous_key_ids active raw)
    next ← lift (active_key_id s)
    database (
        modify (
          on_row (λ row. record row {
            active_key_id = next;
            previous_key_ids = node.stringify (arr (text_items ids));
            rotation_status = "completed";
          })))
