-- ===== src/Core/Idempotency/Locking.antt =====
-- The lock on an event's key: duplicates are refused while it lasts, new events are let through.
use idm_mw.Prelude.{
  ℕ, ◌+◌, ◌*◌, ◌≤◌, ◌<◌, ◌≡◌, ◌≢◌, refl, sym, ap, ◌∙◌, String, Bool, true, false, not, ◌||◌, ◌==◌,
  eq_refl, List, [], ◌∷◌, ltb, any_of, if◌then◌else◌, inl, inr, Bool-cases, arith, ◌⊎◌, lt→ltb,
}
use idm_mw.Effects.{Result, ok, >>=-eq-ok}
use idm_mw.Core.World.{World}
use idm_mw.Core.Idempotency.{IdempotencyStore, any_exists, check_and_lock, release}
use idm_mw.Core.Idempotency.Laws.{StoreLaws, SameLocks, pg_locked, PgIsSound}
use idm_mw.Core.Idempotency.Pg.{pg_store, exists_row, set_row, delete_row, drop_row}
use idm_mw.Core.Idempotency.Pg.Rows.{locked-drop_row, keep-HasDistinctKeys}

-- The key stands among the candidates.
abbrev pub Among : String → List String → Type 0
Among k [] = ⊥
Among k (j ∷ ks) = (k ≡ j) ⊎ Among k ks

module _ {E : Type 0} (store : IdempotencyStore E) (is_locked : World E → ℕ → String → Bool)
    (IsSound : World E → Type 0) (laws : StoreLaws store is_locked IsSound) where
  -- A scan of the candidates that returned found a locked one, or none is locked and nothing changed.
  any_exists_lem :
      (keys : List String) (w u : World E) (b : Bool)
      → IsSound w
      → any_exists store keys w ≡ (ok b, u)
      → (b ≡ false
          → ((k : String) → Among k keys → is_locked w w.clock k ≡ false)
            × SameLocks is_locked w u
            × (u.clock ≡ w.clock)
            × IsSound u)
  unfolding any_exists
  any_exists_lem [] w u b h e none_found =
      let same = ap (λ (p : Result Bool × World E). p.1) e in
      (λ k a. absurd a, rw (← same) (λ at k le. refl), rw (← same) refl, rw (← same) h)
  any_exists_lem (k ∷ ks) w u b h e none_found =
      let (found, t, here, rest) = >>=-eq-ok (store.exists_key k) _ w e in
      let (answer, same, clock, sound) = laws.exists_ok k w t found h here in
      elim (Bool-cases found) [
        | inl busy ↦
            absurd (cc (ap (λ (p : Result Bool × World E). p.0) (rw busy at rest), none_found))
        | inr free ↦
            let (others, same', clock', sound') =
              any_exists_lem ks t u b sound (rw free at rest) none_found in
            (
              one_of (sym answer ∙ free) (λ j a.
                  sym (same w.clock j le_self)
                  ∙ ap (λ c. is_locked t c j) (sym clock)
                  ∙ others j a),
              (λ at j le. same' at j (rw clock le) ∙ same at j le),
              clock' ∙ clock,
              sound',
            )
      ]
    where
      le_self : w.clock ≤ w.clock
      le_self = omega arith

      one_of :
          is_locked w w.clock k ≡ false
          → ((j : String) → Among j ks → is_locked w w.clock j ≡ false)
          → (j : String) → Among j (k ∷ ks)
          → is_locked w w.clock j ≡ false
      one_of here others j (inl e) = rw e here
      one_of here others j (inr a) = others j a

  -- What the service knows when it was given the lock.
  pub check_and_lock_lem :
      (keys : List String) (k : String) (ttl : ℕ) (w u : World E)
      → IsSound w
      → check_and_lock store (k ∷ keys) ttl w ≡ (ok true, u)
      → ((j : String) → Among j (k ∷ keys) → is_locked w w.clock j ≡ false)
        × ((at : ℕ) (j : String)
            → w.clock ≤ at
            → is_locked u at j
              ≡ (if k == j then ltb at (w.clock + ttl * 1000) else is_locked w at j))
        × (u.clock ≡ w.clock)
        × IsSound u
  unfolding check_and_lock
  check_and_lock_lem [] k ttl w u h e =
      let (free, locks, clock, sound) = laws.set_won k ttl w u h e in
      (λ j a. only free j a, locks, clock, sound)
    where
      only :
          is_locked w w.clock k ≡ false
          → (j : String) → Among j (k ∷ [])
          → is_locked w w.clock j ≡ false
      only free j (inl same) = rw same free
      only free j (inr a) = absurd a
  check_and_lock_lem (i ∷ keys) k ttl w u h e =
      let (found, t, scan, rest) = >>=-eq-ok (any_exists store (k ∷ i ∷ keys)) _ w e in
      elim (Bool-cases found) [
        | inl busy ↦ absurd (cc (ap (λ (p : Result Bool × World E). p.0) (rw busy at rest)))
        | inr none_found ↦
            let (free, same, clock, sound) =
              any_exists_lem (k ∷ i ∷ keys) w t found h scan none_found in
            let (_, locks, clock', sound') = laws.set_won k ttl t u sound (rw none_found at rest) in
            (
              free,
              λ at j le. locks at j (rw clock le) ∙ rw (clock, same at j le),
              clock' ∙ clock,
              sound',
            )
      ]

  -- Once an event's lock is taken, no check of the same event, under any keyring whose candidates
  -- still hold the key, is told that the event is new before the time to live has passed, unless the
  -- key was released in between; a failing store cannot make it so either.
  pub check_and_lock_exclusive :
      (keys keys' : List String) (k k' : String) (ttl ttl' : ℕ) (w u x : World E)
      → IsSound w
      → check_and_lock store (k ∷ keys) ttl w ≡ (ok true, u)
      → IsSound x
      → Among k (k' ∷ keys')
      → is_locked x x.clock k ≡ is_locked u x.clock k
      → w.clock ≤ x.clock
      → x.clock < w.clock + ttl * 1000
      → (check_and_lock store (k' ∷ keys') ttl' x).0 ≢ ok true
  check_and_lock_exclusive keys keys' k k' ttl ttl' w u x h won h' among kept after before again =
      let (_, locks, _, _) = check_and_lock_lem keys k ttl w u h won in
      let held : is_locked x x.clock k ≡ true =
        kept ∙ locks x.clock k after ∙ rw (eq_refl k) (lt→ltb _ _ before) in
      let (free, _, _, _) =
        check_and_lock_lem keys' k' ttl' x (check_and_lock store (k' ∷ keys') ttl' x).1 h'
          (pair_eq again) in
      cc (held, free k among)
    where
      pair_eq :
          (check_and_lock store (k' ∷ keys') ttl' x).0 ≡ ok true
          → check_and_lock store (k' ∷ keys') ttl' x
            ≡ (ok true, (check_and_lock store (k' ∷ keys') ttl' x).1)
      pair_eq e = ap (λ r. (r, (check_and_lock store (k' ∷ keys') ttl' x).1)) e

-- A world whose database answers every call.
abbrev pub healthy : {E : Type 0} → World E → World E
healthy w = record w { outages = [] }

module _ {E : Type 0} (w : World E) where
  any_exists-healthy :
      (keys : List String)
      → any_exists pg_store keys (healthy w)
        ≡ (ok (any_of (λ k. pg_locked w w.clock k) keys), healthy w)
  unfolding any_exists exists_row
  any_exists-healthy [] = refl
  any_exists-healthy (k ∷ ks) = elim (Bool-cases (pg_locked w w.clock k)) [
    | inl busy ↦ rw busy
    | inr free ↦ rw free (any_exists-healthy ks)
  ]

  -- While the database answers, an event is taken as new exactly when none of its candidate keys is
  -- locked.
  pub check_and_lock-healthy :
      (k : String) (keys : List String) (ttl : ℕ)
      → (check_and_lock pg_store (k ∷ keys) ttl (healthy w)).0
        ≡ ok (not (any_of (λ j. pg_locked w w.clock j) (k ∷ keys)))
  unfolding check_and_lock set_row
  check_and_lock-healthy k [] ttl = elim (Bool-cases (pg_locked w w.clock k)) [
    | inl busy ↦ rw busy
    | inr free ↦ rw free
  ]
  check_and_lock-healthy k (j ∷ keys) ttl =
      rw (any_exists-healthy (k ∷ j ∷ keys)) (elim (Bool-cases (pg_locked w w.clock k)) [
        | inl busy ↦ rw busy
        | inr free ↦ elim (Bool-cases (any_of (λ i. pg_locked w w.clock i) (j ∷ keys))) [
          | inl others ↦ rw (free, others)
          | inr none_other ↦ rw (free, none_other, free)
        ]
      ])

any_of-Among : (j : String) (keys : List String) → Among j keys → any_of (λ k. k == j) keys ≡ true
any_of-Among j [] a = absurd a
any_of-Among j (k ∷ ks) (inl e) = rw (← e, eq_refl j)
any_of-Among j (k ∷ ks) (inr a) = ground (arith, any_of-Among j ks a)

any_of-none :
    (p : String → Bool) (keys : List String)
    → ((j : String) → Among j keys → p j ≡ false)
    → any_of p keys ≡ false
any_of-none p [] h = refl
any_of-none p (k ∷ ks) h = rw (h k (inl refl), any_of-none p ks (λ j a. h j (inr a)))

either :
    (a b c : Bool) → (if a then false else (if b then false else c)) ≡ (if b || a then false else c)
either a b c = ground arith

module _ {E : Type 0} where
  -- Releasing an event's keys unlocks exactly these keys, at every time, while the database answers.
  pub release-healthy :
      (keys : List String) (w : World E) (at : ℕ) (j : String)
      → PgIsSound w
      → pg_locked (release pg_store keys (healthy w)).1 at j
        ≡ (if any_of (λ k. k == j) keys then false else pg_locked w at j)
  unfolding release delete_row
  release-healthy [] w at j h = refl
  release-healthy (k ∷ ks) w at j h =
      release-healthy ks (record w { idempotency_keys = drop_row k w.idempotency_keys }) at j
        (keep-HasDistinctKeys _ w.idempotency_keys h)
      ∙ rw (locked-drop_row at k j w.idempotency_keys h)
          (either (any_of (λ i. i == j) ks) (k == j) (pg_locked w at j))

  -- While the database answers all calls of the release and of the check after it, an event's keys can be
  -- locked again after a release: a redelivered event is taken as new. The condition: the rows of locks
  -- are sound, as the store keeps them.
  pub check_and_lock-release :
      (k : String) (keys : List String) (ttl : ℕ) (w : World E)
      → PgIsSound w
      → (check_and_lock pg_store
          (k ∷ keys)
          ttl
          (healthy (release pg_store (k ∷ keys) (healthy w)).1)).0
        ≡ ok true
  check_and_lock-release k keys ttl w h =
      let w' = (release pg_store (k ∷ keys) (healthy w)).1 in
      let free : (j : String) → Among j (k ∷ keys) → pg_locked w' w'.clock j ≡ false =
        λ j a. release-healthy (k ∷ keys) w w'.clock j h ∙ rw (any_of-Among j (k ∷ keys) a) in
      check_and_lock-healthy w' k keys ttl ∙ rw (any_of-none _ (k ∷ keys) free)
