-- ===== src/Tests/Locking.antt =====
-- The locks on events on small states.
use idm_mw.Prelude.{
  ℕ, ◌*◌, ◌+◌, ◌≡◌, ◌≢◌, refl, ◌==◌, true, false, not, [], ◌∷◌, arith, any_of, inl, inr,
  if◌then◌else◌,
}
use idm_mw.Effects.{ok}
use idm_mw.Core.World.{World}
use idm_mw.Core.Idempotency.{check_and_lock, release}
use idm_mw.Core.Idempotency.Pg.{pg_store, set_row}
use idm_mw.Core.Idempotency.Laws.{pg_locked, PgIsSound, pg_store_laws}
use idm_mw.Core.Idempotency.Locking.{
  check_and_lock_exclusive, healthy, check_and_lock-healthy, release-healthy,
  check_and_lock-release,
}
use idm_mw.Inbound.Webhook.{process_webhook}
use idm_mw.Inbound.Webhook.Lock.{SameWork, IsRefused, process_webhook_at_most_once}
use idm_mw.Tests.Fixtures.{
  start, settings_of, producer_of, registry_with, created, to_number, keys_of, create_user,
}

-- An event is locked for an hour.
abbrev locked_once : World ℕ
locked_once = (check_and_lock pg_store ("k" ∷ []) 3600 start).1

-- Half an hour later.
abbrev half_an_hour : World ℕ → World ℕ
half_an_hour w = record w { clock = w.clock + 1800 * 1000 }

check_and_lock_exclusive_example :
    (check_and_lock pg_store ("k2" ∷ "k" ∷ []) 3600 (half_an_hour locked_once)).0 ≢ ok true
unfolding check_and_lock set_row
check_and_lock_exclusive_example =
    check_and_lock_exclusive pg_store pg_locked PgIsSound pg_store_laws [] ("k" ∷ []) "k" "k2" 3600
      3600 start locked_once (half_an_hour locked_once) tt refl (tt, tt) (inr (inl refl)) refl
      (omega arith) (omega arith)

check_and_lock-healthy_example :
    (check_and_lock pg_store ("k" ∷ "j" ∷ []) 3600 (healthy locked_once)).0
    ≡ ok (not (any_of (λ i. pg_locked locked_once locked_once.clock i) ("k" ∷ "j" ∷ [])))
check_and_lock-healthy_example = check_and_lock-healthy locked_once "k" ("j" ∷ []) 3600

release-healthy_example :
    pg_locked (release pg_store ("k" ∷ []) (healthy locked_once)).1 1000000 "k"
    ≡ (if any_of (λ k. k == "k") ("k" ∷ []) then false else pg_locked locked_once 1000000 "k")
unfolding check_and_lock set_row
release-healthy_example = release-healthy ("k" ∷ []) locked_once 1000000 "k" (tt, tt)

check_and_lock-release_example :
    (check_and_lock pg_store
      ("k" ∷ [])
      3600
      (healthy (release pg_store ("k" ∷ []) (healthy locked_once)).1)).0
    ≡ ok true
unfolding check_and_lock set_row
check_and_lock-release_example = check_and_lock-release "k" [] 3600 locked_once (tt, tt)

-- The webhook without Kafka, on a directory that works.
abbrev first_delivery : World ℕ
first_delivery =
    (process_webhook (settings_of false "sync") (producer_of true) (registry_with created) to_number
      pg_store keys_of create_user false start).1

abbrev redelivered : World ℕ
redelivered = half_an_hour first_delivery

process_webhook_at_most_once_example :
    SameWork redelivered
      (process_webhook
        (settings_of false "sync")
        (producer_of true)
        (registry_with created)
        to_number
        pg_store
        keys_of
        create_user
        false
        redelivered).1
    × IsRefused
        (process_webhook
          (settings_of false "sync")
          (producer_of true)
          (registry_with created)
          to_number
          pg_store
          keys_of
          create_user
          false
          redelivered).0
unfolding process_webhook set_row
process_webhook_at_most_once_example =
    process_webhook_at_most_once (settings_of false "sync") (producer_of true)
      (registry_with created) to_number keys_of create_user create_user false false
      "avanpost:directory:e1" "avanpost:directory:e1" [] [] start first_delivery redelivered tt
      (record { candidates = refl; let_in = refl; end = refl; accepted = tt }) (tt, tt) refl
      (inl refl) refl (omega arith) (omega arith)
