-- ===== src/Encryption/Rotation/Contents.antt =====
-- The three tables with encrypted columns: what the loop over each does to its rows, and that it
-- leaves the others alone.
use idm_mw.Prelude.{◌≡◌, refl, Bool, List, All}
use idm_mw.Json.{Json}
use idm_mw.Effects.{ok}
use idm_mw.Effects.Preserves.{Preserves}
use idm_mw.Encryption.Keyring.{Node, Buffer, Settings}
use idm_mw.Encryption.RoundTrip.{NodeLaws}
use idm_mw.Encryption.Rotation.{
  Row, AuditCells, DlqCells, Storage, rewrite, rewrite_audit, rewrite_item, put_audit_logs,
  put_dlq_items, put_target_systems, rotate_audit_logs, rotate_dlq_items, rotate_target_systems,
}
use idm_mw.Encryption.Rotation.Loop.{
  Table, TableLaws, Converts, HasDistinctIds, SameRows, rotate_table_lem, rotate_table-Preserves,
}
use idm_mw.Encryption.Rotation.Converting.{
  ReadsAs, IsPlainColumn, Rotates, rewrite_reads, rewrite_audit_reads, rewrite_item_reads,
  rewrite-Preserves, rewrite_audit-Preserves, rewrite_item-Preserves,
}

abbrev pub AuditReadsAs : Node → Settings → Settings → AuditCells → AuditCells → Type 0
AuditReadsAs node s reader x y =
    ReadsAs node s reader x.payload y.payload × ReadsAs node s reader x.response y.response

abbrev pub ItemReadsAs : Node → Settings → Settings → DlqCells → DlqCells → Type 0
ItemReadsAs node s reader x y = (y.status ≡ x.status) × ReadsAs node s reader x.payload y.payload

abbrev audit_table : Table AuditCells
audit_table = record { get = λ w. w.audit_logs; put = put_audit_logs }

abbrev item_table : Table DlqCells
item_table = record { get = λ w. w.dlq_items; put = put_dlq_items }

abbrev target_table : Table Json
target_table = record { get = λ w. w.target_systems; put = put_target_systems }

abbrev audit_laws : TableLaws audit_table
audit_laws = record { get-put = λ f w. refl; get-outages = λ o w. refl }

abbrev item_laws : TableLaws item_table
item_laws = record { get-put = λ f w. refl; get-outages = λ o w. refl }

abbrev target_laws : TableLaws target_table
target_laws = record { get-put = λ f w. refl; get-outages = λ o w. refl }

module _ (node : Node) (laws : NodeLaws node) (s reader : Settings)
    (rot : Rotates node s reader) where
  own : Rotates node s s
  own = record {
    enabled = rot.enabled;
    same_database = refl;
    same_key = λ kid active. refl;
    envelopes = rot.envelopes;
  }

  audit-Converts :
      Converts audit_table
        (rewrite_audit node s)
        (λ c. IsPlainColumn node s c.payload × IsPlainColumn node s c.response)
        (λ x y. AuditReadsAs node s s x y × AuditReadsAs node s reader x y)
  audit-Converts = record {
    converted = λ old new w u plain e. (
      rewrite_audit_reads node laws s s own old new w u plain e,
      rewrite_audit_reads node laws s reader rot old new w u plain e,
    );
    kept = λ old w.
        (rewrite_audit-Preserves node s {P = λ (u : Storage). u.audit_logs ≡ w.audit_logs}
            (λ b u h. h) old).at
          w refl;
  }

  item-Converts :
      Converts item_table
        (rewrite_item node s)
        (λ c. IsPlainColumn node s c.payload)
        (λ x y. ItemReadsAs node s s x y × ItemReadsAs node s reader x y)
  item-Converts = record {
    converted = λ old new w u plain e. (
      rewrite_item_reads node laws s s own old new w u plain e,
      rewrite_item_reads node laws s reader rot old new w u plain e,
    );
    kept = λ old w.
        (rewrite_item-Preserves node s {P = λ (u : Storage). u.dlq_items ≡ w.dlq_items} (λ b u h. h)
            old).at
          w refl;
  }

  target-Converts :
      Converts target_table
        (rewrite node s)
        (IsPlainColumn node s)
        (λ x y. ReadsAs node s s x y × ReadsAs node s reader x y)
  target-Converts = record {
    converted = λ old new w u plain e. (
      rewrite_reads node laws s s own old new w u plain e,
      rewrite_reads node laws s reader rot old new w u plain e,
    );
    kept = λ old w.
        (rewrite-Preserves node s {P = λ (u : Storage). u.target_systems ≡ w.target_systems}
            (λ b u h. h) old).at
          w refl;
  }

  pub rotate_audit_logs_lem :
      (w : Storage)
      → HasDistinctIds w.audit_logs
      → All
          (λ (r : Row AuditCells).
            IsPlainColumn node s r.cells.payload × IsPlainColumn node s r.cells.response)
          w.audit_logs
      → let (r, u) = rotate_audit_logs node s w in
        SameRows (AuditReadsAs node s s) w.audit_logs u.audit_logs
        × (r ≡ ok tt
            → SameRows
                (λ x y. AuditReadsAs node s s x y × AuditReadsAs node s reader x y)
                w.audit_logs
                u.audit_logs)
  unfolding rotate_audit_logs
  rotate_audit_logs_lem w ids columns =
      rotate_table_lem audit_table audit_laws (rewrite_audit node s) audit-Converts
        (AuditReadsAs node s s) (λ x y h. h.0) (λ x. (refl, refl)) w ids columns

  pub rotate_dlq_items_lem :
      (w : Storage)
      → HasDistinctIds w.dlq_items
      → All (λ (r : Row DlqCells). IsPlainColumn node s r.cells.payload) w.dlq_items
      → let (r, u) = rotate_dlq_items node s w in
        SameRows (ItemReadsAs node s s) w.dlq_items u.dlq_items
        × (r ≡ ok tt
            → SameRows
                (λ x y. ItemReadsAs node s s x y × ItemReadsAs node s reader x y)
                w.dlq_items
                u.dlq_items)
  unfolding rotate_dlq_items
  rotate_dlq_items_lem w ids columns =
      rotate_table_lem item_table item_laws (rewrite_item node s) item-Converts
        (ItemReadsAs node s s) (λ x y h. h.0) (λ x. (refl, refl)) w ids columns

  pub rotate_target_systems_lem :
      (w : Storage)
      → HasDistinctIds w.target_systems
      → All (λ (r : Row Json). IsPlainColumn node s r.cells) w.target_systems
      → let (r, u) = rotate_target_systems node s w in
        SameRows (ReadsAs node s s) w.target_systems u.target_systems
        × (r ≡ ok tt
            → SameRows
                (λ x y. ReadsAs node s s x y × ReadsAs node s reader x y)
                w.target_systems
                u.target_systems)
  unfolding rotate_target_systems
  rotate_target_systems_lem w ids columns =
      rotate_table_lem target_table target_laws (rewrite node s) target-Converts (ReadsAs node s s)
        (λ x y h. h.0) (λ x. refl) w ids columns

-- What the loop over one table leaves alone.
module _ (node : Node) (s : Settings) {P : Storage → Type 0}
    (draws : (b : List Buffer) (w : Storage) → P w → P (record w { random = b }))
    (calls : (o : List Bool) (w : Storage) → P w → P (record w { outages = o })) where
  pub rotate_audit_logs-Preserves :
      ((f : List (Row AuditCells) → List (Row AuditCells)) (w : Storage)
        → P w
        → P (put_audit_logs f w))
      → Preserves P (rotate_audit_logs node s)
  unfolding rotate_audit_logs
  rotate_audit_logs-Preserves puts =
      rotate_table-Preserves (rewrite_audit node s) audit_table
        (rewrite_audit-Preserves node s draws) puts calls

  pub rotate_dlq_items-Preserves :
      ((f : List (Row DlqCells) → List (Row DlqCells)) (w : Storage) → P w → P (put_dlq_items f w))
      → Preserves P (rotate_dlq_items node s)
  unfolding rotate_dlq_items
  rotate_dlq_items-Preserves puts =
      rotate_table-Preserves (rewrite_item node s) item_table (rewrite_item-Preserves node s draws)
        puts calls

  pub rotate_target_systems-Preserves :
      ((f : List (Row Json) → List (Row Json)) (w : Storage) → P w → P (put_target_systems f w))
      → Preserves P (rotate_target_systems node s)
  unfolding rotate_target_systems
  rotate_target_systems-Preserves puts =
      rotate_table-Preserves (rewrite node s) target_table (rewrite-Preserves node s draws) puts
        calls
