-- ===== src/Core/Idempotency/Laws.antt =====
-- What the service relies on in a store, as an interface, and that the PostgreSQL store gives it.
use idm_mw.Prelude.{
  ℕ, ◌+◌, ◌*◌, ◌≤◌, ◌≡◌, refl, sym, ap, ◌∙◌, String, Bool, true, false, ◌==◌, some, ltb,
  if◌then◌else◌, inl, inr, Bool-cases, arith,
}
use idm_mw.Effects.{Result, ok}
use idm_mw.Core.World.{World, fails_now}
use idm_mw.Core.Idempotency.{IdempotencyStore}
use idm_mw.Core.Idempotency.Pg.{pg_store, exists_row, set_row}
use idm_mw.Core.Idempotency.Pg.Rows.{
  HasDistinctKeys, locked, locked-upsert, locked-sweep, upsert-HasDistinctKeys,
  keep-HasDistinctKeys,
}

-- Two states with the same locks at every time from the first state's clock on.
abbrev pub SameLocks : {E : Type 0} → (World E → ℕ → String → Bool) → World E → World E → Type 0
SameLocks is_locked w u = (at : ℕ) (k : String) → w.clock ≤ at → is_locked u at k ≡ is_locked w at k

-- `is_locked w at k`: whether `k` is locked at time `at`, if nothing more is done.
pub record StoreLaws {E : Type 0} (store : IdempotencyStore E)
    (is_locked : World E → ℕ → String → Bool) (IsSound : World E → Type 0) : Type 0 where
  pub exists_ok :
      (k : String) (w u : World E) (b : Bool)
      → IsSound w
      → store.exists_key k w ≡ (ok b, u)
      → (b ≡ is_locked w w.clock k) × SameLocks is_locked w u × (u.clock ≡ w.clock) × IsSound u
  pub set_won :
      (k : String) (ttl : ℕ) (w u : World E)
      → IsSound w
      → store.set_if_not_exists (some k) ttl w ≡ (ok true, u)
      → (is_locked w w.clock k ≡ false)
        × ((at : ℕ) (j : String)
            → w.clock ≤ at
            → is_locked u at j
              ≡ (if k == j then ltb at (w.clock + ttl * 1000) else is_locked w at j))
        × (u.clock ≡ w.clock)
        × IsSound u

abbrev pub pg_locked : {E : Type 0} → World E → ℕ → String → Bool
pg_locked w at k = locked at k w.idempotency_keys

abbrev pub PgIsSound : {E : Type 0} → World E → Type 0
PgIsSound w = HasDistinctKeys w.idempotency_keys

module _ {E : Type 0} where
  pg_exists_ok :
      (k : String) (w u : World E) (b : Bool)
      → PgIsSound w
      → exists_row k w ≡ (ok b, u)
      → (b ≡ pg_locked w w.clock k) × SameLocks pg_locked w u × (u.clock ≡ w.clock) × PgIsSound u
  unfolding exists_row
  pg_exists_ok k w u b h e = elim (Bool-cases (fails_now w.outages)) [
    | inl down ↦ absurd (cc (rw down at e))
    | inr up ↦
        let answer = sym (ap (λ (p : Result Bool × World E). p.0) (rw up at e)) in
        let state = ap (λ (p : Result Bool × World E). p.1) (rw up at e) in
        (ground (arith, answer), rw (← state) (λ at j le. refl), rw (← state) refl, rw (← state) h)
  ]

  pg_set_won :
      (k : String) (ttl : ℕ) (w u : World E)
      → PgIsSound w
      → set_row (some k) ttl w ≡ (ok true, u)
      → (pg_locked w w.clock k ≡ false)
        × ((at : ℕ) (j : String)
            → w.clock ≤ at
            → pg_locked u at j
              ≡ (if k == j then ltb at (w.clock + ttl * 1000) else pg_locked w at j))
        × (u.clock ≡ w.clock)
        × PgIsSound u
  unfolding set_row
  pg_set_won k ttl w u h e = elim (Bool-cases (fails_now w.outages)) [
    | inl down ↦ absurd (cc (rw down at e))
    | inr up ↦ elim (Bool-cases (pg_locked w w.clock k)) [
      | inl busy ↦ absurd (cc (rw (up, busy) at e))
      | inr free ↦
          let state = ap (λ (p : Result Bool × World E). p.1) (rw (up, free) at e) in
          let rows = upsert-HasDistinctKeys w.clock k (w.clock + ttl * 1000) w.idempotency_keys h in
          (
            free,
            rw (← state) (λ at j le.
                locked-sweep w.clock at j _ rows le
                ∙ locked-upsert w.clock at k j (w.clock + ttl * 1000) w.idempotency_keys),
            rw (← state) refl,
            rw (← state) (keep-HasDistinctKeys _ _ rows),
          )
    ]
  ]

-- The PostgreSQL store is a store in the sense of the interface: `exists` tells whether the key is
-- locked, a lock is given only on a free key, it then lasts exactly the time to live, and no call
-- changes the lock of another key.
pub pg_store_laws : {E : Type 0} → StoreLaws (pg_store {E = E}) pg_locked PgIsSound
pg_store_laws = record { exists_ok = pg_exists_ok; set_won = pg_set_won }
