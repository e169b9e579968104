-- ===== src/Admin/TargetSystems/Masked.antt =====
-- What administrators see of configurations, and that a masked one that comes back does no harm.
use idm_mw.Prelude.{ℕ, ◌≡◌, sym, ap, Option, inl, inr}
use idm_mw.Json.{Json, obj, Fields}
use idm_mw.Effects.{Result, ok, Exec, ◌>>=◌, >>=-eq-ok}
use idm_mw.Effects.Results.{lift, Result-cases}
use idm_mw.Core.World.{World, TargetSystem, external, later}
use idm_mw.Connectors.Registry.{config_of}
use idm_mw.Security.Redaction.{redact_secrets, redact_fields}
use idm_mw.Security.Redaction.Masking.{IsMasked, redact_secrets_lem}
use idm_mw.Admin.TargetRows.{UpdateTargetSystemDto, to_public_target_system}
use idm_mw.Admin.TargetSystems.{update_row}

public-IsMasked :
    (t shown : TargetSystem)
    → to_public_target_system t ≡ ok shown
    → (config : Json) × (shown.config ≡ ok config) × IsMasked config
unfolding to_public_target_system redact_secrets
public-IsMasked t shown h = elim (Result-cases (config_of t.config)) [
  | inr (x, unread) ↦ absurd (cc (rw unread at h))
  | inl (fs, read) ↦
      let same : record t { config = ok (obj (redact_fields fs)) } ≡ shown = cc (rw read at h) in
      (
        obj (redact_fields fs),
        ap (λ (x : TargetSystem). x.config) (sym same),
        (redact_secrets_lem (obj fs)).0,
      )
]

module _ {E : Type 0} where
  abbrev after_call : World E → World E
  after_call w = record w { outages = later w.outages }

  -- A call that ends by showing the row that it got shows a masked one.
  shown-IsMasked :
      (call : Exec (World E) TargetSystem) (w u : World E) (t : TargetSystem)
      → (call >>= λ item. lift (to_public_target_system item)) w ≡ (ok t, u)
      → (config : Json) × (t.config ≡ ok config) × IsMasked config
  shown-IsMasked call w u t h =
      let (item, v, _, last) = >>=-eq-ok call _ w h in
      public-IsMasked item t (ap (λ (p : Result TargetSystem × World E). p.0) last)

  -- The rest of `update` after the configuration was merged.
  abbrev write_merged : ℕ → UpdateTargetSystemDto → Option Fields → Exec (World E) TargetSystem
  write_merged id dto next =
      external (update_row id dto next) >>= λ item. lift (to_public_target_system item)
