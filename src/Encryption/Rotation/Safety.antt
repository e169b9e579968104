-- ===== src/Encryption/Rotation/Safety.antt =====
-- The rotation from its first check on.
use idm_mw.Prelude.{
  ℕ, String, ◌==◌, ◌≡◌, ◌≢◌, refl, sym, ap, eq_iff, Bool, Option, none, some, List, [], ◌∷◌, ◌⊎◌,
  inl, inr, Bool-cases, Option-cases,
}
use idm_mw.Effects.{Thrown, error, Result, ok, throw, Exec, gets, try_catch, outcome-cases}
use idm_mw.Effects.Results.{lift, Result-cases}
use idm_mw.Effects.Preserves.{
  Preserves, Preserves-bind, Preserves-then, Preserves-pure, Preserves-raise, Preserves-gets,
  Preserves-if, Preserves-try, Preserves-lift,
}
use idm_mw.Core.World.{fails_now, later, unavailable}
use idm_mw.Encryption.Keyring.{Node, Settings, is_enabled, active_key_id, validate_configuration}
use idm_mw.Encryption.RoundTrip.{NodeLaws}
use idm_mw.Json.{Json}
use idm_mw.Encryption.Rotation.Contents.{
  rotate_audit_logs-Preserves, rotate_dlq_items-Preserves, rotate_target_systems-Preserves,
}
use idm_mw.Encryption.Rotation.{
  Row, complete_rotation, EncryptionStateRow, Storage, database, load_state, row_or_throw,
  previous_key_ids, on_row, mark_rotation,
}
use idm_mw.Encryption.Rotation.Service.{
  RotationConfig, TopicOffsets, rotate_tables, rotation_failed, rotate_from, rotate_if_other,
  rotate_to_active_key, assert_no_active_processing, kafka_lag, total_lag, rotation_topics,
  refuse_if_blocked,
}
use idm_mw.Encryption.Rotation.Converting.{Rotates}
use idm_mw.Encryption.Rotation.Whole.{
  ReadsLike, IsPlain, SameTables, NamesActiveKey, Good, tables_stage, same_rows,
}

-- Predicates that the database's outages and the row of the encryption state do not matter to.
module _ {P : Storage → Type 0}
    (calls : (o : List Bool) (w : Storage) → P w → P (record w { outages = o })) where
  database-Preserves :
      {A : Type 0} (call : Exec Storage A) → Preserves P call → Preserves P (database call)
  database-Preserves call k = record {
    at = λ w h. elim (Bool-cases (fails_now w.outages)) [
      | inl down ↦ rw down (calls _ w h)
      | inr up ↦ rw up (k.at _ (calls _ w h))
    ];
  }

  lift-Preserves : {A : Type 0} (r : Result A) → Preserves P (lift {S = Storage} r)
  lift-Preserves r = record { at = λ w h. h }

  refuse_if_blocked-Preserves : (bs : List String) → Preserves P (refuse_if_blocked bs)
  refuse_if_blocked-Preserves [] = Preserves-pure tt
  refuse_if_blocked-Preserves (b ∷ bs) = Preserves-raise _

  total_lag-Preserves :
      (fetch : String → Result TopicOffsets) (topics : List String) (lag : ℕ)
      → Preserves P (total_lag fetch topics lag)
  unfolding total_lag
  total_lag-Preserves fetch [] lag = Preserves-pure lag
  total_lag-Preserves fetch (t ∷ ts) lag =
      Preserves-bind (lift (fetch t)) _ (lift-Preserves (fetch t))
        (λ offsets. total_lag-Preserves fetch ts _)

  kafka_lag-Preserves :
      (fetch : String → Result TopicOffsets) (c : RotationConfig) → Preserves P (kafka_lag fetch c)
  unfolding kafka_lag
  kafka_lag-Preserves fetch c =
      Preserves-if _ _ _ (Preserves-pure 0) (total_lag-Preserves fetch (rotation_topics c) 0)

  assert-Preserves :
      (fetch : String → Result TopicOffsets) (c : RotationConfig)
      → Preserves P (assert_no_active_processing fetch c)
  unfolding assert_no_active_processing
  assert-Preserves fetch c = Preserves-bind _ _ (database-Preserves _ (Preserves-gets _)) (λ n.
      Preserves-bind _ _ (database-Preserves _ (Preserves-gets _)) (λ m.
        Preserves-bind (kafka_lag fetch c) _ (kafka_lag-Preserves fetch c)
          (λ l. refuse_if_blocked-Preserves _)))

  mark_rotation-Preserves :
      (node : Node) (status active raw : String)
      → ((f : EncryptionStateRow → EncryptionStateRow) (w : Storage) → P w → P (on_row node f w))
      → Preserves P (mark_rotation node status active raw)
  unfolding mark_rotation
  mark_rotation-Preserves node status active raw rows =
      Preserves-bind (lift (previous_key_ids node active raw)) _ (lift-Preserves _)
        (λ ids. database-Preserves _ (record { at = λ w h. rows _ w h }))

SameTables-ReadsLike :
    (node : Node) (s : Settings) (w u : Storage) → SameTables w u → ReadsLike node s s w u
SameTables-ReadsLike node s w u (ea, ed, et) = (
  same_rows _ (λ c. (refl, refl)) ea,
  same_rows _ (λ c. (refl, refl)) ed,
  same_rows _ (λ c. refl) et,
)

-- A rotation that failed is not reported as done.
rotation_failed-throws :
    (node : Node) (s : Settings) (state : EncryptionStateRow) (e : Thrown) (w : Storage)
    → (rotation_failed node s state e w).0 ≢ ok tt
unfolding rotation_failed
rotation_failed-throws node s state e w h =
    elim (outcome-cases
      (mark_rotation node "failed" state.active_key_id state.previous_key_ids w)) [
        | inl (_, u, m) ↦ cc (rw m at h)
        | inr (x, u, m) ↦ cc (rw m at h)
      ]

module _ (node : Node) (laws : NodeLaws node) (s reader : Settings) (rot : Rotates node s reader)
    (start : Storage) (plain : IsPlain node s start) where
  abbrev Done : EncryptionStateRow → Result {0} (Unit {0}) × Storage → Type 0
  Done state out = Good node laws s reader rot start plain state out

  guarded :
      (state : EncryptionStateRow) (w : Storage)
      → SameTables start w
      → Done state (try_catch (rotate_tables node s state) (rotation_failed node s state) w)
  unfolding rotation_failed
  guarded state w h =
      let good = tables_stage node laws s reader rot start plain state w h in
      elim (outcome-cases (rotate_tables node s state w)) [
        | inl (_, u, e) ↦ rw e (rw e at good)
        | inr (x, u, e) ↦
            let marked =
              (Preserves-then {P = ReadsLike node s s start} _ _
                  (mark_rotation-Preserves (λ o v k. k) node "failed" state.active_key_id
                    state.previous_key_ids (λ f v k. k))
                  (Preserves-raise {A = Unit {0}} x)).at
                u ((rw e at good).0) in
            rw e (marked, λ k. absurd (rotation_failed-throws node s state x u k))
      ]

  from_checks :
      (fetch : String → Result TopicOffsets) (c : RotationConfig) (state : EncryptionStateRow)
      (w : Storage)
      → SameTables start w
      → Done state (rotate_from node s fetch c state w)
  unfolding rotate_from
  from_checks fetch c state w h =
      let checked = (assert-Preserves {P = SameTables start} (λ o v k. k) fetch c).at w h in
      elim (outcome-cases (assert_no_active_processing fetch c w)) [
        | inr (x, u, e) ↦
            rw e (SameTables-ReadsLike node s start u (rw e at checked), λ k. absurd (cc k))
        | inl (_, u, e) ↦
            let marked =
              (mark_rotation-Preserves {P = SameTables start} (λ o v k. k) node "running"
                  state.active_key_id state.previous_key_ids (λ f v k. k)).at
                u (rw e at checked) in
            rw e
              (elim (outcome-cases
                (mark_rotation node "running" state.active_key_id state.previous_key_ids u)) [
                  | inr (x, v, m) ↦
                      rw m
                        (SameTables-ReadsLike node s start v (rw m at marked), λ k. absurd (cc k))
                  | inl (_, v, m) ↦ rw m (guarded state v (rw m at marked))
                ])
      ]

abbrev after_call : Storage → Storage
after_call w = record w { outages = later w.outages }

-- No step of a rotation writes to the hosts.
module _ (node : Node) (s : Settings) (hosts : List (Row Json)) where
  abbrev Keeps : {A : Type 0} → Exec Storage A → Type 0
  Keeps part = Preserves (λ (w : Storage). w.linux_hosts ≡ hosts) part

  mark-Keeps : (status active raw : String) → Keeps (mark_rotation node status active raw)
  mark-Keeps status active raw =
      mark_rotation-Preserves (λ o w h. h) node status active raw (λ f w h. h)

  complete-Keeps : (active raw : String) → Keeps (complete_rotation node s active raw)
  unfolding complete_rotation
  complete-Keeps active raw =
      Preserves-bind (lift (previous_key_ids node active raw)) _ (Preserves-lift _) (λ ids.
        Preserves-bind (lift (active_key_id s)) _ (Preserves-lift _)
          (λ next. database-Preserves (λ o w h. h) _ (record { at = λ w h. h })))

  tables-Keeps : (state : EncryptionStateRow) → Keeps (rotate_tables node s state)
  unfolding rotate_tables
  tables-Keeps state =
      Preserves-then _ _ (rotate_audit_logs-Preserves node s (λ b w h. h) (λ o w h. h) (λ f w h. h))
        (Preserves-then _ _
          (rotate_dlq_items-Preserves node s (λ b w h. h) (λ o w h. h) (λ f w h. h))
          (Preserves-then _ _
            (rotate_target_systems-Preserves node s (λ b w h. h) (λ o w h. h) (λ f w h. h))
            (complete-Keeps state.active_key_id state.previous_key_ids)))

  from-Keeps :
      (fetch : String → Result TopicOffsets) (c : RotationConfig) (state : EncryptionStateRow)
      → Keeps (rotate_from node s fetch c state)
  unfolding rotate_from rotation_failed
  from-Keeps fetch c state = Preserves-then _ _ (assert-Preserves (λ o w h. h) fetch c) (
      Preserves-then _ _ (mark-Keeps "running" state.active_key_id state.previous_key_ids) (
        Preserves-try _ _ (tables-Keeps state) (λ e.
          Preserves-then _ _ (mark-Keeps "failed" state.active_key_id state.previous_key_ids)
            (Preserves-raise e))))

  load-Keeps : Keeps load_state
  unfolding load_state
  load-Keeps =
      Preserves-bind (database (gets (λ (w : Storage). w.encryption_state))) _
        (database-Preserves (λ o w h. h) _ (Preserves-gets _)) row
    where
      row : (found : Option EncryptionStateRow) → Keeps (row_or_throw found)
      row none = Preserves-raise _
      row (some r) = Preserves-pure r

  rotate-Keeps :
      (fetch : String → Result TopicOffsets) (c : RotationConfig)
      → Keeps (rotate_to_active_key node s fetch c)
  unfolding rotate_to_active_key rotate_if_other
  rotate-Keeps fetch c =
      Preserves-if (is_enabled s) _ _
        (Preserves-then (lift (validate_configuration node s)) _ (Preserves-lift _) (
          Preserves-bind load_state _ load-Keeps (λ state.
            Preserves-bind (lift (active_key_id s)) _ (Preserves-lift _) (λ next.
              Preserves-if (state.active_key_id == next) _ _ (Preserves-pure tt)
                (from-Keeps fetch c state)))))
        (Preserves-raise _)

-- The row that is loaded is the one that is stored.
load_state-cases :
    (w : Storage)
    → ((e : Thrown) × (load_state w ≡ (throw e, after_call w)))
      ⊎ ((row : EncryptionStateRow) × (w.encryption_state ≡ some row)
          × (load_state w ≡ (ok row, after_call w)))
unfolding load_state
load_state-cases w = elim (Bool-cases (fails_now w.outages)) [
  | inl down ↦ inl (unavailable, rw down refl)
  | inr up ↦ elim (Option-cases w.encryption_state) [
    | inl missing ↦ inl (
      error "EncryptionState is missing; enable encryption first",
      rw up (ap (λ o. row_or_throw o (after_call w)) missing),
    )
    | inr (row, found) ↦ inr (row, found, rw up (ap (λ o. row_or_throw o (after_call w)) found))
  ]
]

-- The three tables that a rotation rewrites.
rotated_tables :
    (node : Node)
    → NodeLaws node
    → (s reader : Settings) → Rotates node s reader
    → (fetch : String → Result TopicOffsets) (c : RotationConfig) (start : Storage)
    → IsPlain node s start
    → let (r, u) = rotate_to_active_key node s fetch c start in
      ReadsLike node s s start u
      × (r ≡ ok tt
          → ((row : EncryptionStateRow) × (start.encryption_state ≡ some row)
              × (active_key_id s ≡ ok row.active_key_id))
            ⊎ (ReadsLike node s reader start u × NamesActiveKey s u))
unfolding rotate_to_active_key rotate_if_other
rotated_tables node laws s reader rot fetch c start plain =
    let unchanged = SameTables-ReadsLike node s start in
    let loaded = after_call start in
    elim (Result-cases (validate_configuration node s)) [
      | inr (x, bad) ↦
          rw (rot.enabled, bad) (unchanged start (refl, refl, refl), λ k. absurd (cc k))
      | inl (_, valid) ↦ elim (load_state-cases start) [
        | inl (x, e) ↦
            rw (rot.enabled, valid, e) (unchanged loaded (refl, refl, refl), λ k. absurd (cc k))
        | inr (row, found, e) ↦ elim (Result-cases (active_key_id s)) [
          | inr (x, bad) ↦
              rw (rot.enabled, valid, e, bad)
                (unchanged loaded (refl, refl, refl), λ k. absurd (cc k))
          | inl (next, active) ↦ elim (Bool-cases (row.active_key_id == next)) [
            | inl same ↦
                rw (rot.enabled, valid, e, active, same)
                  (
                    unchanged loaded (refl, refl, refl),
                    λ k. inl (row, found, ap ok (sym ((eq_iff row.active_key_id next).0 same))),
                  )
            | inr other ↦
                let done =
                  from_checks node laws s reader rot start plain fetch c row loaded
                    (refl, refl, refl) in
                rw (rot.enabled, valid, e, active, other)
                  (done.0, λ k. inr ((done.1 k).0, rw active at ((done.1 k).1)))
          ]
        ]
      ]
    ]

-- Whatever calls of the database fail, at whatever point, after a rotation a process with the same
-- keyring reads in the payloads and responses of the audit log, the payloads of the queue and the
-- configurations of the target systems what it read before, and no row of these three tables is gone,
-- new or of another status. The metadata of Linux hosts, which is encrypted too, is not rewritten: it
-- is stored as it was, under the key that it was under. If the rotation returns, then either the database named the active key
-- already, or every process whose keyring agrees on the active key, also one from which the former
-- keys are gone, reads the same in these columns of the three tables, and the row of the encryption state names that key.
-- The conditions: Node's ciphers and codecs are read back, ids are primary keys, and JSON reads back
-- what these columns hold, and envelopes where the database is SQLite.
pub rotate_to_active_key_lem :
    (node : Node)
    → NodeLaws node
    → (s reader : Settings) → Rotates node s reader
    → (fetch : String → Result TopicOffsets) (c : RotationConfig) (start : Storage)
    → IsPlain node s start
    → let (r, u) = rotate_to_active_key node s fetch c start in
      ReadsLike node s s start u
      × (u.linux_hosts ≡ start.linux_hosts)
      × (r ≡ ok tt
          → ((row : EncryptionStateRow) × (start.encryption_state ≡ some row)
              × (active_key_id s ≡ ok row.active_key_id))
            ⊎ (ReadsLike node s reader start u × NamesActiveKey s u))
rotate_to_active_key_lem node laws s reader rot fetch c start plain =
    let (kept, done) = rotated_tables node laws s reader rot fetch c start plain in
    (kept, (rotate-Keeps node s start.linux_hosts fetch c).at start refl, done)
