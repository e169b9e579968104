-- ===== src/Core/World/Stable.antt =====
-- Invariants that say nothing of the outages are kept by a call of the database that keeps them.
use idm_mw.Prelude.{Bool, List, inl, inr, Bool-cases}
use idm_mw.Effects.{Exec}
use idm_mw.Effects.Preserves.{Preserves}
use idm_mw.Core.World.{World, external, fails_now}

pub record IsStable {E : Type 0} (P : World E → Type 0) : Type 0 where
  pub at : (w : World E) (outages : List Bool) → P w → P (record w { outages = outages })

module _ {E A : Type 0} {P : World E → Type 0} where
  pub Preserves-external :
      (call : Exec (World E) A) → IsStable P → Preserves P call → Preserves P (external call)
  Preserves-external call stable k = record {
    at = λ w h. elim (Bool-cases (fails_now w.outages)) [
      | inl down ↦ rw down (stable.at w _ h)
      | inr up ↦ rw up (k.at _ (stable.at w _ h))
    ];
  }
