-- ===== src/Core/Metrics/Window.antt =====
-- The window of processed events holds exactly the events of the last five minutes.
use idm_mw.Prelude.{ℕ, ◌-◌, ◌≤◌, Bool, not, List, [], ◌∷◌, ltb, All}
use idm_mw.Core.World.{Sample, Metrics}
use idm_mw.Core.Metrics.{record_event, window_ms}

-- The samples stand in the order of their times.
abbrev pub IsOrdered : List Sample → Type 0
IsOrdered [] = Unit
IsOrdered (s ∷ rest) = All (λ t. s.timestamp ≤ t.timestamp) rest × IsOrdered rest

abbrev pub recent : ℕ → Sample → Bool
recent cutoff s = not (ltb s.timestamp cutoff)

-- The events of a history, recorded in order.
abbrev pub replay : List Sample → Metrics → Metrics
replay [] m = m
replay (s ∷ rest) m = replay rest (record_event s.timestamp s.status s.target_system m)

abbrev pub cutoff_at : ℕ → ℕ
cutoff_at now = now - window_ms
