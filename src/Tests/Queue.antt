-- ===== src/Tests/Queue.antt =====
-- The dead letter queue on small states.
use idm_mw.Prelude.{ℕ, ◌*◌, ◌≡◌, ◌≢◌, ◌↔◌, refl, ◌++◌, true, false, none, some, [], ◌∷◌, arith}
use idm_mw.Effects.{ok, throw}
use idm_mw.Core.World.{World, unavailable, pending}
use idm_mw.Core.Dlq.{find, claim_item, add, new_item, mark_retry_failed}
use idm_mw.Core.Dlq.Rows.{HasDistinctIds}
use idm_mw.Core.Dlq.Lease.{CanClaim, claim_item_iff, claim_item_exclusive}
use idm_mw.Core.Dlq.Consistency.{
  IsConsistent, adding, retrying_by, resolving, waiting, run_all, run_all-IsConsistent,
}
use idm_mw.Core.Dlq.Gauge.{
  IsCurrent, Changed, reopening, change_of, closing_calls, row_of_event, add_lem,
  add_throws_though_stored,
}
use idm_mw.Tests.Fixtures.{queued, row, item_data, to_number}

queued-HasDistinctIds : HasDistinctIds queued.dlq
queued-HasDistinctIds = ((λ e. omega (arith, e), tt), (tt, tt))

claim_item_iff_example :
    ((claim_item "pid:8" 0 300 queued).0 ≡ ok true)
    ↔ CanClaim 1000000 (300 * 1000) (row 0 pending none none)
unfolding find
claim_item_iff_example =
    claim_item_iff "pid:8" 0 300 queued (row 0 pending none none) queued-HasDistinctIds refl refl

abbrev claimed : World ℕ
claimed = (claim_item "pid:8" 0 300 queued).1

abbrev soon : World ℕ
soon = record claimed { clock = 1200000 }

claim_item_exclusive_example :
    ((claim_item "pid:9" 0 300 soon).0 ≢ ok true)
    × ((claim_item "pid:9" 0 300 soon).1.dlq ≡ soon.dlq)
unfolding claim_item
claim_item_exclusive_example =
    claim_item_exclusive "pid:8" "pid:9" 0 300 300 queued soon queued-HasDistinctIds refl
      ((λ e. omega (arith, e), tt), (tt, tt)) refl (omega arith)

queued-IsConsistent : IsConsistent queued
queued-IsConsistent = record {
  distinct = queued-HasDistinctIds;
  fresh = (omega arith, (omega arith, tt));
  locks = (tt, (tt, tt));
}

run_all-IsConsistent_example : IsConsistent (
    run_all to_number
      (some 300)
      (adding item_data
        ∷ retrying_by "pid:8" 0
        ∷ waiting 400000
        ∷ retrying_by "pid:9" 0
        ∷ resolving 1
        ∷ [])
      queued)
run_all-IsConsistent_example =
    run_all-IsConsistent to_number (some 300)
      (adding item_data
        ∷ retrying_by "pid:8" 0
        ∷ waiting 400000
        ∷ retrying_by "pid:9" 0
        ∷ resolving 1
        ∷ [])
      queued queued-IsConsistent

closing_calls_example :
    Changed 1 (change_of (reopening "down")) queued (mark_retry_failed 1 "down" queued).1
unfolding mark_retry_failed
closing_calls_example =
    closing_calls (reopening "down") 1 queued (mark_retry_failed 1 "down" queued).1 refl

add_lem_example :
    ((add item_data queued).1.dlq ≡ queued.dlq ++ row_of_event 2 item_data ∷ [])
    × IsCurrent (add item_data queued).1
unfolding add
add_lem_example = add_lem item_data queued (add item_data queued).1 refl

-- The count for the metric fails.
abbrev flaky : World ℕ
flaky = record queued { outages = false ∷ true ∷ [] }

add_throws_though_stored_example :
    ((add item_data flaky).0 ≡ throw unavailable)
    × ((add item_data flaky).1.dlq ≡ flaky.dlq ++ new_item 2 item_data ∷ [])
add_throws_though_stored_example = add_throws_though_stored item_data flaky [] refl
