-- ===== src/Core/Metrics.antt =====
-- metrics/metrics.service.ts: the counters, the gauge of the DLQ, and the window of five minutes.
-- The gauge of the window's counts is derived from `processed_window` and has no state of its own.
pub mod Window
use idm_mw.Prelude.{
  ℕ, ◌+◌, ◌*◌, ◌-◌, String, Bool, true, false, ◌&&◌, ◌==◌, List, [], ◌∷◌, ◌++◌, Assoc, insert, ltb,
  count_of, length, if◌then◌else◌,
}
use idm_mw.Core.World.{EventStatus, success, failed, Sample, Metrics}

abbrev pub window_ms : ℕ
window_ms = 5 * 60 * 1000

-- The loop that shifts the samples older than the cutoff off the front.
unfoldable pub shift_old : ℕ → List Sample → List Sample
shift_old cutoff [] = []
shift_old cutoff (s ∷ rest) =
    let shorter = shift_old cutoff rest in if ltb s.timestamp cutoff then shorter else s ∷ rest

unfoldable pub refresh_processed_window : ℕ → Metrics → Metrics
unfolding shift_old
refresh_processed_window now m = record m {
  processed_window = shift_old (now - window_ms) m.processed_window;
}

unfoldable pub record_event : ℕ → EventStatus → String → Metrics → Metrics
unfolding refresh_processed_window
record_event now status target m = refresh_processed_window now (record m {
  events_processed = m.events_processed ++ (status, target) ∷ [];
  processed_window =
      m.processed_window
      ++ record { timestamp = now; status = status; target_system = target } ∷ [];
})

unfoldable pub record_connector_error : String → String → Metrics → Metrics
record_connector_error connector operation m = record m {
  connector_errors = m.connector_errors ++ (connector, operation) ∷ [];
}

unfoldable pub set_dlq_size : String → ℕ → Metrics → Metrics
set_dlq_size status count m = record m { dlq_size = insert status count m.dlq_size }

abbrev pub same_status : EventStatus → EventStatus → Bool
same_status success success = true
same_status failed failed = true
same_status _ _ = false

pub record Processed : Type 0 where
  pub total : ℕ
  -- `byStatus[status]`, 0 where the key is missing
  pub by_status : EventStatus → ℕ
  -- `byTargetSystem[targetSystem][status]`, 0 where a key is missing
  pub by_target_system : String → EventStatus → ℕ

abbrev pub tally : List Sample → Processed
tally window = record {
  total = length window;
  by_status = λ status. count_of (λ s. same_status s.status status) window;
  by_target_system = λ target status.
      count_of (λ s. same_status s.status status && s.target_system == target) window;
}

unfoldable pub processed_last5_minutes : ℕ → Metrics → Processed × Metrics
unfolding refresh_processed_window
processed_last5_minutes now m =
    let m' = refresh_processed_window now m in (tally m'.processed_window, m')
