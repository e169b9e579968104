-- ===== src/Encryption/Rotation/Whole.antt =====
-- Rotation as a whole: what is stored reads as before, whatever fails, and a completed rotation has
-- moved all of it to the active key.
use mathlib.Core.Option
use idm_mw.Prelude.{
  String, ◌≡◌, refl, ap, ◌∙◌, Option, none, some, List, inl, inr, All, Zip-refl, Zip-map,
  Bool-cases, arith,
}
use idm_mw.Json.{Json}
use idm_mw.Effects.{Result, ok, Exec, ◌>>◌, outcome-cases}
use idm_mw.Effects.Results.{Result-cases}
use idm_mw.Core.World.{fails_now}
use idm_mw.Encryption.Keyring.{Node, Settings, active_key_id}
use idm_mw.Encryption.RoundTrip.{NodeLaws}
use idm_mw.Encryption.Rotation.{
  Row, AuditCells, DlqCells, EncryptionStateRow, Storage, rotate_audit_logs, rotate_dlq_items,
  rotate_target_systems, previous_key_ids, complete_rotation,
}
use idm_mw.Encryption.Rotation.Service.{rotate_tables}
use idm_mw.Encryption.Rotation.Loop.{HasDistinctIds, SameRows}
use idm_mw.Encryption.Rotation.Converting.{ReadsAs, IsPlainColumn, Rotates}
use idm_mw.Encryption.Rotation.Contents.{
  AuditReadsAs, ItemReadsAs, rotate_audit_logs_lem, rotate_dlq_items_lem, rotate_target_systems_lem,
  rotate_audit_logs-Preserves, rotate_dlq_items-Preserves, rotate_target_systems-Preserves,
}

-- In the second state `reader` reads every column that rotation rewrites as a process with the settings `s` did in
-- the first; no row is gone, new, moved or of another status.
abbrev pub ReadsLike : Node → Settings → Settings → Storage → Storage → Type 0
ReadsLike node s reader w u =
    SameRows (AuditReadsAs node s reader) w.audit_logs u.audit_logs
    × SameRows (ItemReadsAs node s reader) w.dlq_items u.dlq_items
    × SameRows (ReadsAs node s reader) w.target_systems u.target_systems

-- The ids are primary keys, and JSON reads back what the columns hold.
pub record IsPlain (node : Node) (s : Settings) (w : Storage) : Type 0 where
  pub audit_ids : HasDistinctIds w.audit_logs
  pub item_ids : HasDistinctIds w.dlq_items
  pub target_ids : HasDistinctIds w.target_systems
  pub audit_columns :
      All
        (λ (r : Row AuditCells).
          IsPlainColumn node s r.cells.payload × IsPlainColumn node s r.cells.response)
        w.audit_logs
  pub item_columns : All (λ (r : Row DlqCells). IsPlainColumn node s r.cells.payload) w.dlq_items
  pub target_columns : All (λ (r : Row Json). IsPlainColumn node s r.cells) w.target_systems

-- The encrypted tables are as they were.
abbrev pub SameTables : Storage → Storage → Type 0
SameTables w u =
    (u.audit_logs ≡ w.audit_logs)
    × (u.dlq_items ≡ w.dlq_items)
    × (u.target_systems ≡ w.target_systems)

-- The row of the encryption state, if there is one, names the key that is active in `s`.
abbrev pub NamesActiveKey : Settings → Storage → Type 0
NamesActiveKey s w =
    (row : EncryptionStateRow)
    → w.encryption_state ≡ some row
    → active_key_id s ≡ ok row.active_key_id

pub same_rows :
    {C : Type 0} (R : C → C → Type 0)
    → ((c : C) → R c c)
    → {rows after : List (Row C)} → after ≡ rows
    → SameRows R rows after
same_rows R self {rows} e = rw e (Zip-refl _ (λ x. (refl, self x.cells)) rows)

weaken :
    {C : Type 0} (R S : C → C → Type 0)
    → ((x y : C) → R x y → S x y)
    → (rows after : List (Row C)) → SameRows R rows after
    → SameRows S rows after
weaken R S f rows after h = Zip-map _ _ (λ x y k. (k.0, f x.cells y.cells k.1)) rows after h

named_after :
    (next ids : String) (before : Option EncryptionStateRow) (row : EncryptionStateRow)
    → Option.map
        (λ (r : EncryptionStateRow). record r {
          active_key_id = next;
          previous_key_ids = ids;
          rotation_status = "completed";
        })
        before
      ≡ some row
    → next ≡ row.active_key_id
named_after next ids none row h = absurd (cc h)
named_after next ids (some old) row h = ground (arith, h)

module _ (node : Node) (s : Settings) where
  complete_rotation_lem :
      (active raw : String) (w : Storage)
      → let (r, u) = complete_rotation node s active raw w in
        SameTables w u × (r ≡ ok tt → NamesActiveKey s u)
  unfolding complete_rotation
  complete_rotation_lem active raw w = elim (Result-cases (previous_key_ids node active raw)) [
    | inr (x, failed) ↦ rw failed ((refl, refl, refl), λ k. absurd (cc k))
    | inl (ids, found) ↦ elim (Result-cases (active_key_id s)) [
      | inr (x, failed) ↦ rw (found, failed) ((refl, refl, refl), λ k. absurd (cc k))
      | inl (next, active_is) ↦ elim (Bool-cases (fails_now w.outages)) [
        | inl down ↦ rw (found, active_is, down) ((refl, refl, refl), λ k. absurd (cc k))
        | inr up ↦
            rw (found, active_is, up)
              (
                (refl, refl, refl),
                λ k row named. ap ok (named_after next _ w.encryption_state row named),
              )
      ]
    ]
  ]

module _ (node : Node) (laws : NodeLaws node) (s reader : Settings) (rot : Rotates node s reader)
    (start : Storage) (plain : IsPlain node s start) (state : EncryptionStateRow) where
  abbrev pub Both : {C : Type 0} → (Settings → C → C → Type 0) → C → C → Type 0
  Both R x y = R s x y × R reader x y

  -- Every column reads as at the start; after a return also for `reader`, and the state names the key.
  abbrev pub Good : Result {0} (Unit {0}) × Storage → Type 0
  Good (r, u) =
      ReadsLike node s s start u
      × (r ≡ ok tt → ReadsLike node s reader start u × NamesActiveKey s u)

  abbrev BothAudits : Storage → Type 0
  BothAudits u = SameRows (Both (AuditReadsAs node s)) start.audit_logs u.audit_logs

  abbrev BothItems : Storage → Type 0
  BothItems u = SameRows (Both (ItemReadsAs node s)) start.dlq_items u.dlq_items

  abbrev BothTargets : Storage → Type 0
  BothTargets u = SameRows (Both (ReadsAs node s)) start.target_systems u.target_systems

  -- The first of the two readings, and no reading at all where the rows are the same.
  audits_kept :
      (u : Storage) → BothAudits u → SameRows (AuditReadsAs node s s) start.audit_logs u.audit_logs
  audits_kept u h = weaken _ _ (λ x y k. k.0) start.audit_logs u.audit_logs h

  items_kept :
      (u : Storage) → BothItems u → SameRows (ItemReadsAs node s s) start.dlq_items u.dlq_items
  items_kept u h = weaken _ _ (λ x y k. k.0) start.dlq_items u.dlq_items h

  items_same :
      (u : Storage)
      → u.dlq_items ≡ start.dlq_items
      → SameRows (ItemReadsAs node s s) start.dlq_items u.dlq_items
  items_same u e = same_rows _ (λ c. (refl, refl)) e

  targets_same :
      (u : Storage)
      → u.target_systems ≡ start.target_systems
      → SameRows (ReadsAs node s s) start.target_systems u.target_systems
  targets_same u e = same_rows _ (λ c. refl) e

  completing :
      (u : Storage)
      → BothAudits u
      → BothItems u
      → BothTargets u
      → Good (complete_rotation node s state.active_key_id state.previous_key_ids u)
  completing u ha hd ht =
      let ((ea, ed, et), named) =
        complete_rotation_lem node s state.active_key_id state.previous_key_ids u in
      (
        (
          rw ea (audits_kept u ha),
          rw ed (items_kept u hd),
          rw et (weaken _ _ (λ x y k. k.0) start.target_systems u.target_systems ht),
        ),
        λ k. (
          (
            rw ea (weaken _ _ (λ x y k. k.1) start.audit_logs u.audit_logs ha),
            rw ed (weaken _ _ (λ x y k. k.1) start.dlq_items u.dlq_items hd),
            rw et (weaken _ _ (λ x y k. k.1) start.target_systems u.target_systems ht),
          ),
          named k,
        ),
      )

  abbrev rest_after_items : Exec Storage (Unit {0})
  rest_after_items = do
    rotate_target_systems node s
    complete_rotation node s state.active_key_id state.previous_key_ids

  targets_stage :
      (w : Storage)
      → BothAudits w
      → BothItems w
      → w.target_systems ≡ start.target_systems
      → Good (rest_after_items w)
  targets_stage w ha hd ht =
      let out =
        rotate_target_systems_lem node laws s reader rot w (rw ht plain.target_ids)
          (rw ht plain.target_columns) in
      let (fa, fd) =
        (rotate_target_systems-Preserves node s
            {P = λ (u : Storage). (u.audit_logs ≡ w.audit_logs) × (u.dlq_items ≡ w.dlq_items)}
            (λ b u h. h) (λ o u h. h) (λ f u h. h)).at
          w (refl, refl) in
      elim (outcome-cases (rotate_target_systems node s w)) [
        | inl (_, u, e) ↦ rw e (
            completing u (rw (rw e at fa) ha) (rw (rw e at fd) hd)
              (rw ht at ((rw e at out).1 refl)))
        | inr (x, u, e) ↦ rw e (
          (
            rw (rw e at fa) (audits_kept w ha),
            rw (rw e at fd) (items_kept w hd),
            rw ht at ((rw e at out).0),
          ),
          λ k. absurd (cc k),
        )
      ]

  abbrev rest_after_audits : Exec Storage (Unit {0})
  rest_after_audits = do rotate_dlq_items node s; rest_after_items

  items_stage :
      (w : Storage)
      → BothAudits w
      → w.dlq_items ≡ start.dlq_items
      → w.target_systems ≡ start.target_systems
      → Good (rest_after_audits w)
  items_stage w ha hd ht =
      let out =
        rotate_dlq_items_lem node laws s reader rot w (rw hd plain.item_ids)
          (rw hd plain.item_columns) in
      let (fa, ft) =
        (rotate_dlq_items-Preserves node s
            {P = λ (u : Storage).
              (u.audit_logs ≡ w.audit_logs) × (u.target_systems ≡ w.target_systems)}
            (λ b u h. h) (λ o u h. h) (λ f u h. h)).at
          w (refl, refl) in
      elim (outcome-cases (rotate_dlq_items node s w)) [
        | inl (_, u, e) ↦ rw e (
            targets_stage u (rw (rw e at fa) ha) (rw hd at ((rw e at out).1 refl))
              ((rw e at ft) ∙ ht))
        | inr (x, u, e) ↦ rw e (
          (
            rw (rw e at fa) (audits_kept w ha),
            rw hd at ((rw e at out).0),
            targets_same u ((rw e at ft) ∙ ht),
          ),
          λ k. absurd (cc k),
        )
      ]

  pub tables_stage : (w : Storage) → SameTables start w → Good (rotate_tables node s state w)
  unfolding rotate_tables
  tables_stage w (ea, ed, et) =
      let out =
        rotate_audit_logs_lem node laws s reader rot w (rw ea plain.audit_ids)
          (rw ea plain.audit_columns) in
      let (fd, ft) =
        (rotate_audit_logs-Preserves node s
            {P = λ (u : Storage).
              (u.dlq_items ≡ w.dlq_items) × (u.target_systems ≡ w.target_systems)}
            (λ b u h. h) (λ o u h. h) (λ f u h. h)).at
          w (refl, refl) in
      elim (outcome-cases (rotate_audit_logs node s w)) [
        | inl (_, u, e) ↦ rw e (
            items_stage u (rw ea at ((rw e at out).1 refl)) ((rw e at fd) ∙ ed) ((rw e at ft) ∙ et))
        | inr (x, u, e) ↦ rw e (
          (
            rw ea at ((rw e at out).0),
            items_same u ((rw e at fd) ∙ ed),
            targets_same u ((rw e at ft) ∙ et),
          ),
          λ k. absurd (cc k),
        )
      ]
