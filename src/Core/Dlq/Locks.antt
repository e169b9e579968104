-- ===== src/Core/Dlq/Locks.antt =====
-- The queue's service leaves the locks on events alone.
use idm_mw.Prelude.{◌≡◌}
use idm_mw.Effects.{gets, modify}
use idm_mw.Effects.Preserves.{Preserves, Preserves-gets, Preserves-bind, Preserves-then}
use idm_mw.Core.World.{World, external}
use idm_mw.Core.World.Stable.{IsStable, Preserves-external}
use idm_mw.Core.Dlq.{DlqItemData, insert_item, write_sizes, count_by_status, update_metrics, add}

abbrev pub SameKeys : {E : Type 0} → World E → World E → Type 0
SameKeys base w = w.idempotency_keys ≡ base.idempotency_keys

module _ {E : Type 0} (base : World E) where
  pub SameKeys-stable : IsStable (SameKeys base)
  SameKeys-stable = record { at = λ w o h. h }

  update_metrics-SameKeys : Preserves (SameKeys base) update_metrics
  unfolding update_metrics
  update_metrics-SameKeys =
      Preserves-bind (external (gets (λ w. w.dlq)))
        (λ rows. modify (write_sizes (count_by_status rows)))
        (Preserves-external _ SameKeys-stable (Preserves-gets (λ w. w.dlq)))
        (λ rows. record { at = λ w h. h })

  pub add-SameKeys : (item : DlqItemData) → Preserves (SameKeys base) (add item)
  unfolding add
  add-SameKeys item =
      Preserves-then (external (modify (insert_item item))) update_metrics
        (Preserves-external _ SameKeys-stable (record { at = λ w h. h })) update_metrics-SameKeys
