-- ===== src/Core/Dlq/Lease.antt =====
-- The lease on an item: one worker at a time retries it.
use idm_mw.Prelude.{
  ℕ, ◌+◌, ◌*◌, ◌-◌, ◌≤◌, ◌<◌, ◌≡◌, ◌≢◌, ◌↔◌, refl, String, true, false, inl, inr, Option, none,
  some, arith, eqb, eqb_iff, Bool-cases, Option-cases, ◌∙◌, ap,
}
use idm_mw.Effects.{ok, throw}
use idm_mw.Core.World.{
  Status, pending, retrying, skipped, resolved, DlqItem, World, unavailable, fails_now, later,
}
use idm_mw.Core.Dlq.{find, update_many, is_claimable, claim, claim_item}
use idm_mw.Core.Dlq.Rows.{
  id-find, HasDistinctIds, hits, IsFor, find-update_many, update_many-missed, count_of-eq-hits,
}

is_claimable-IsFor : (id before : ℕ) → IsFor id (is_claimable id before)
unfolding is_claimable
is_claimable-IsFor id before i h = ground (arith, eqb_iff i.id id)

-- The documented meaning of the claim's test: the item is open, and no lease on it is running.
pub data CanClaim (now lease_ms : ℕ) (i : DlqItem) : Type 0 where
  is_pending : i.status ≡ pending → CanClaim now lease_ms i
  unlocked : i.status ≡ retrying → i.locked_at ≡ none → CanClaim now lease_ms i
  expired :
      (at : ℕ)
      → i.status ≡ retrying
      → i.locked_at ≡ some at
      → at + lease_ms < now
      → CanClaim now lease_ms i

is_claimable_sound :
    (id now lease_ms : ℕ) (i : DlqItem)
    → is_claimable id (now - lease_ms) i ≡ true
    → CanClaim now lease_ms i
unfolding is_claimable
is_claimable_sound id now lease_ms i h = by_status i.status i.locked_at refl refl
  where
    by_status :
        (s : Status) (l : Option ℕ) → i.status ≡ s → i.locked_at ≡ l → CanClaim now lease_ms i
    by_status pending l p q = is_pending p
    by_status retrying none p q = unlocked p q
    by_status retrying (some at) p q = expired at p q (ground arith)
    by_status skipped l p q = absurd (ground arith)
    by_status resolved l p q = absurd (ground arith)

is_claimable_complete :
    (id now lease_ms : ℕ) (i : DlqItem)
    → i.id ≡ id
    → CanClaim now lease_ms i
    → is_claimable id (now - lease_ms) i ≡ true
unfolding is_claimable
is_claimable_complete id now lease_ms i e (is_pending p) = ground arith
is_claimable_complete id now lease_ms i e (unlocked p q) = ground arith
is_claimable_complete id now lease_ms i e (expired at p q lt) = ground arith

module _ {E : Type 0} (pid : String) (id lease : ℕ) (w : World E)
    (unique : HasDistinctIds w.dlq) where
  claim_item_lem :
      fails_now w.outages ≡ false
      → (claim_item pid id lease w) ≡ (
        ok (eqb (hits (is_claimable id (w.clock - lease * 1000)) (find id w.dlq)) 1),
        record w {
          outages = later w.outages;
          dlq = update_many (is_claimable id (w.clock - lease * 1000)) (claim w.clock pid) w.dlq;
        },
      )
  unfolding claim_item
  claim_item_lem up = rw (
    up,
    count_of-eq-hits id (is_claimable id (w.clock - lease * 1000)) w.dlq
        (is_claimable-IsFor id (w.clock - lease * 1000)) unique,
  )

  claim_item_down : fails_now w.outages ≡ true → (claim_item pid id lease w).0 ≡ throw unavailable
  unfolding claim_item
  claim_item_down down = rw down

  dlq-claim_item_down : fails_now w.outages ≡ true → (claim_item pid id lease w).1.dlq ≡ w.dlq
  unfolding claim_item
  dlq-claim_item_down down = rw down

  claimed-of-true :
      (i : DlqItem)
      → find id w.dlq ≡ some i
      → (claim_item pid id lease w).0 ≡ ok true
      → (fails_now w.outages ≡ false) × (is_claimable id (w.clock - lease * 1000) i ≡ true)
  claimed-of-true i e h = elim (Bool-cases (fails_now w.outages)) [
    | inl down ↦ cc (claim_item_down down)
    | inr up ↦ (up, ground (arith, ap (λ r. r.0) (claim_item_lem up), h))
  ]

-- While the database is up, a worker is told that it claimed the item exactly when the item is
-- pending, or is being retried with no lock or with a lock older than the lease; items that were
-- skipped or resolved are never claimed.
pub claim_item_iff :
    {E : Type 0} (pid : String) (id lease : ℕ) (w : World E) (i : DlqItem)
    → HasDistinctIds w.dlq
    → fails_now w.outages ≡ false
    → find id w.dlq ≡ some i
    → ((claim_item pid id lease w).0 ≡ ok true) ↔ CanClaim w.clock (lease * 1000) i
claim_item_iff pid id lease w i unique up e = (
  λ h.
      is_claimable_sound id w.clock (lease * 1000) i
        (claimed-of-true pid id lease w unique i e h).1,
  λ c.
      ap (λ r. r.0) (claim_item_lem pid id lease w unique up)
      ∙ rw (e, is_claimable_complete id w.clock (lease * 1000) i (id-find id w.dlq i e) c),
)

module _ {E : Type 0} (pid : String) (id lease : ℕ) (w : World E)
    (unique : HasDistinctIds w.dlq) where
  not_missing : find id w.dlq ≡ none → (claim_item pid id lease w).0 ≡ ok true → ⊥
  not_missing missing won = elim (Bool-cases (fails_now w.outages)) [
    | inl down ↦ cc (claim_item_down pid id lease w unique down)
    | inr up ↦ ground (arith, ap (λ r. r.0) (claim_item_lem pid id lease w unique up))
  ]

  find-claim_item :
      (claim_item pid id lease w).0 ≡ ok true
      → (i : DlqItem) × (find id w.dlq ≡ some i)
        × (find id (claim_item pid id lease w).1.dlq ≡ some (claim w.clock pid i))
  find-claim_item won = elim (Option-cases (find id w.dlq)) [
    | inl missing ↦ absurd (not_missing missing won)
    | inr (i, e) ↦
        let (up, open_now) = claimed-of-true pid id lease w unique i e won in
        (
          i,
          e,
          rw (claim_item_lem pid id lease w unique up)
              (find-update_many _ (claim w.clock pid) (λ j. refl) id w.dlq ∙ rw (e, open_now)),
        )
  ]

  claim_item_refused :
      (i : DlqItem)
      → find id w.dlq ≡ some i
      → is_claimable id (w.clock - lease * 1000) i ≡ false
      → ((claim_item pid id lease w).0 ≢ ok true) × ((claim_item pid id lease w).1.dlq ≡ w.dlq)
  claim_item_refused i e no_claim = (
    (λ won. cc (no_claim, (claimed-of-true pid id lease w unique i e won).1)),
    elim (Bool-cases (fails_now w.outages)) [
      | inl down ↦ dlq-claim_item_down pid id lease w unique down
      | inr up ↦ rw (claim_item_lem pid id lease w unique up) (
          update_many-missed (is_claimable id (w.clock - lease * 1000)) (claim w.clock pid) id
            (is_claimable-IsFor id (w.clock - lease * 1000)) w.dlq i unique e no_claim)
    ],
  )

held_is_refused :
    (id : ℕ) (pid : String) (i : DlqItem) (at now lease_ms : ℕ)
    → now ≤ at + lease_ms
    → is_claimable id (now - lease_ms) (claim at pid i) ≡ false
unfolding is_claimable
held_is_refused id pid i at now lease_ms h = ground arith

-- After a successful claim the item is held by that worker: until the lease has run out, no claim by
-- any process succeeds as long as the row is as the claim left it, and such a claim, which is refused or
-- fails, changes no row of the queue. The condition: ids are primary keys.
pub claim_item_exclusive :
    {E : Type 0} (pid pid' : String) (id lease lease' : ℕ) (w u : World E)
    → HasDistinctIds w.dlq
    → (claim_item pid id lease w).0 ≡ ok true
    → HasDistinctIds u.dlq
    → find id u.dlq ≡ find id (claim_item pid id lease w).1.dlq
    → u.clock ≤ w.clock + lease' * 1000
    → ((claim_item pid' id lease' u).0 ≢ ok true) × ((claim_item pid' id lease' u).1.dlq ≡ u.dlq)
claim_item_exclusive pid pid' id lease lease' w u unique won unique' kept soon =
    let (i, e, held) = find-claim_item pid id lease w unique won in
    claim_item_refused pid' id lease' u unique' (claim w.clock pid i) (kept ∙ held)
      (held_is_refused id pid i w.clock u.clock (lease' * 1000) soon)
