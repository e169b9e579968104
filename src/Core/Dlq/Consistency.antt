-- ===== src/Core/Dlq/Consistency.antt =====
-- The invariant of the queue's rows, and every operation of the service.
use idm_mw.Prelude.{
  ℕ, ◌+◌, ◌*◌, ◌-◌, ◌<◌, ◌≡◌, ◌≢◌, refl, String, Bool, inl, inr, Option, none, some, List, [], ◌∷◌,
  ◌++◌, All, All-append, arith, eqb, Bool-cases, Option-cases,
}
use idm_mw.Json.{Json, Number}
use idm_mw.Effects.{gets, modify, ◌>>◌}
use idm_mw.Effects.Results.{lift}
use idm_mw.Effects.Preserves.{
  Preserves-lift, Preserves, Preserves-pure, Preserves-gets, Preserves-if, Preserves-bind,
  Preserves-then, Preserves-try,
}
use idm_mw.Core.World.Stable.{IsStable, Preserves-external}
use idm_mw.Core.World.{Status, pending, retrying, skipped, resolved, DlqItem, World, external}
use idm_mw.Core.Retry.{policy_value, find_target, for_target}
use idm_mw.Core.Dlq.{
  DlqItemData, find, update_many, is_claimable, claim, close, add, update_item, skip, resolve,
  mark_retry_failed, claim_item, retry, update_metrics, lease_of, write_sizes, count_by_status,
  insert_item,
}
use idm_mw.Core.Dlq.Rows.{HasDistinctIds, KeepsId, update_many-HasDistinctIds}

abbrev LockFits : Status → Option ℕ → Option String → Type 0
LockFits retrying (some at) (some by) = Unit
LockFits retrying _ _ = ⊥
LockFits _ none none = Unit
LockFits _ _ _ = ⊥

-- A row is locked, by a named process, exactly while it is being retried.
abbrev pub IsLockedRight : DlqItem → Type 0
IsLockedRight i = LockFits i.status i.locked_at i.locked_by

pub record IsConsistent {E : Type 0} (w : World E) : Type 0 where
  pub distinct : HasDistinctIds w.dlq
  pub fresh : All (λ i. i.id < w.next_id) w.dlq
  pub locks : All IsLockedRight w.dlq

IsConsistent-stable : {E : Type 0} → IsStable (IsConsistent {E = E})
IsConsistent-stable = record {
  at = λ w o h. record { distinct = h.distinct; fresh = h.fresh; locks = h.locks };
}

All-fresh :
    (n : ℕ) (test : DlqItem → Bool) (change : DlqItem → DlqItem) (rows : List DlqItem)
    → KeepsId change
    → All (λ i. i.id < n) rows
    → All (λ i. i.id < n) (update_many test change rows)
unfolding update_many
All-fresh n test change [] k h = tt
All-fresh n test change (i ∷ rest) k (p, h) =
    (ground (arith, k i), All-fresh n test change rest k h)

All-locked :
    (test : DlqItem → Bool) (change : DlqItem → DlqItem) (rows : List DlqItem)
    → ((i : DlqItem) → IsLockedRight (change i))
    → All IsLockedRight rows
    → All IsLockedRight (update_many test change rows)
unfolding update_many
All-locked test change [] k h = tt
All-locked test change (i ∷ rest) k (p, h) = elim (Bool-cases (test i)) [
  | inl yes_ ↦ rw yes_ (k i, All-locked test change rest k h)
  | inr no_ ↦ rw no_ (p, All-locked test change rest k h)
]

module _ {E : Type 0} (w : World E) (h : IsConsistent w) where
  update_many-IsConsistent :
      (test : DlqItem → Bool) (change : DlqItem → DlqItem)
      → KeepsId change
      → ((i : DlqItem) → IsLockedRight (change i))
      → IsConsistent (record w { dlq = update_many test change w.dlq })
  update_many-IsConsistent test change k l = record {
    distinct = update_many-HasDistinctIds test change k w.dlq h.distinct;
    fresh = All-fresh w.next_id test change w.dlq k h.fresh;
    locks = All-locked test change w.dlq l h.locks;
  }

HasDistinctIds-append :
    (n : ℕ) (rows : List DlqItem) (i : DlqItem)
    → i.id ≡ n
    → All (λ j. j.id < n) rows
    → HasDistinctIds rows
    → HasDistinctIds (rows ++ i ∷ [])
HasDistinctIds-append n [] i e f h = (tt, tt)
HasDistinctIds-append n (j ∷ rest) i e (lt, f) (p, h) = (
  All-append (λ k. j.id ≢ k.id) rest (i ∷ []) p (omega arith, tt),
  HasDistinctIds-append n rest i e f h,
)

All-fresh_suc :
    (n : ℕ) (rows : List DlqItem) → All (λ i. i.id < n) rows → All (λ i. i.id < n + 1) rows
All-fresh_suc n [] h = tt
All-fresh_suc n (i ∷ rest) (lt, h) = (omega arith, All-fresh_suc n rest h)

module _ {E : Type 0} where
  update_metrics-Preserves : Preserves (IsConsistent {E = E}) update_metrics
  unfolding update_metrics
  update_metrics-Preserves =
      Preserves-bind (external (gets (λ w. w.dlq)))
        (λ rows. modify (write_sizes (count_by_status rows)))
        (Preserves-external _ IsConsistent-stable (Preserves-gets (λ w. w.dlq)))
        (λ rows. record {
          at = λ w h. record { distinct = h.distinct; fresh = h.fresh; locks = h.locks };
        })

  add-Preserves : (item : DlqItemData) → Preserves (IsConsistent {E = E}) (add item)
  unfolding add
  add-Preserves item =
      Preserves-then (external (modify (insert_item item))) update_metrics
        (Preserves-external _ IsConsistent-stable (record {
          at = λ w h. record {
            distinct = HasDistinctIds-append w.next_id w.dlq _ refl h.fresh h.distinct;
            fresh =
                All-append (λ i. i.id < w.next_id + 1) w.dlq _
                  (All-fresh_suc w.next_id w.dlq h.fresh) (omega arith, tt);
            locks = All-append IsLockedRight w.dlq _ h.locks (tt, tt);
          };
        }))
        update_metrics-Preserves

  update_item-Preserves :
      (id : ℕ) (change : DlqItem → DlqItem)
      → KeepsId change
      → ((i : DlqItem) → IsLockedRight (change i))
      → Preserves (IsConsistent {E = E}) (update_item id change)
  unfolding update_item
  update_item-Preserves id change k l = Preserves-external _ IsConsistent-stable (record {
    at = λ w h. elim (Option-cases (find id w.dlq)) [
      | inl missing ↦ rw missing h
      | inr (i, e) ↦ rw e (update_many-IsConsistent w h (λ j. eqb j.id id) change k l)
    ];
  })

  closing-Preserves :
      (id : ℕ) (change : DlqItem → DlqItem)
      → KeepsId change
      → ((i : DlqItem) → IsLockedRight (change i))
      → Preserves (IsConsistent {E = E}) (update_item id change >> update_metrics)
  closing-Preserves id change k l =
      Preserves-then (update_item id change) update_metrics (update_item-Preserves id change k l)
        update_metrics-Preserves

  skip-Preserves : (id : ℕ) → Preserves (IsConsistent {E = E}) (skip id)
  unfolding skip
  skip-Preserves id = closing-Preserves id (close skipped) (λ i. refl) (λ i. tt)

  resolve-Preserves : (id : ℕ) → Preserves (IsConsistent {E = E}) (resolve id)
  unfolding resolve
  resolve-Preserves id = closing-Preserves id (close resolved) (λ i. refl) (λ i. tt)

  mark_retry_failed-Preserves :
      (id : ℕ) (msg : String) → Preserves (IsConsistent {E = E}) (mark_retry_failed id msg)
  unfolding mark_retry_failed
  mark_retry_failed-Preserves id msg =
      closing-Preserves id (λ i. record (close pending i) { error = msg }) (λ i. refl) (λ i. tt)

  claim_item-Preserves :
      (pid : String) (id lease : ℕ) → Preserves (IsConsistent {E = E}) (claim_item pid id lease)
  unfolding claim_item
  claim_item-Preserves pid id lease = Preserves-external _ IsConsistent-stable (record {
    at = λ w h.
        update_many-IsConsistent w h (is_claimable id (w.clock - lease * 1000)) (claim w.clock pid)
          (λ i. refl) (λ i. tt);
  })

  for_target-Preserves :
      (to_number : Option Json → Number) (lease : Option ℕ) (target : String)
      → Preserves (IsConsistent {E = E}) (for_target to_number lease target)
  unfolding for_target
  for_target-Preserves to_number lease target =
      Preserves-bind _ _
        (Preserves-try _ _
          (Preserves-external _ IsConsistent-stable
            (Preserves-gets (λ w. find_target target w.target_systems)))
          (λ e. Preserves-pure none))
        (λ item.
          Preserves-bind (lift (policy_value item)) _ (Preserves-lift _)
            (λ value. Preserves-pure _))

module _ {E : Type 0} (to_number : Option Json → Number) (lease : Option ℕ) (pid : String) where
  lease_of-Preserves :
      (item : Option DlqItem) → Preserves (IsConsistent {E = E}) (lease_of to_number lease pid item)
  lease_of-Preserves none = Preserves-pure none
  lease_of-Preserves (some item) =
      Preserves-bind _ _ (for_target-Preserves to_number lease item.target_system)
        (λ p. Preserves-pure _)

  retry-Preserves : (id : ℕ) → Preserves (IsConsistent {E = E}) (retry to_number lease pid id)
  unfolding retry
  retry-Preserves id =
      Preserves-bind _ _
        (Preserves-external _ IsConsistent-stable (Preserves-gets (λ w. find id w.dlq)))
        (λ item. Preserves-bind _ _ (lease_of-Preserves item) (λ seconds.
          Preserves-bind _ _ (claim_item-Preserves pid id _) (λ claimed.
            Preserves-then _ _
              (Preserves-if claimed _ _ update_metrics-Preserves (Preserves-pure tt))
              (Preserves-pure claimed))))

-- One call of the service by any process, or time that passes.
pub data Call : Type 0 where
  adding : DlqItemData → Call
  retrying_by : String → ℕ → Call
  skipping resolving : ℕ → Call
  failing : ℕ → String → Call
  waiting : ℕ → Call

module _ {E : Type 0} (to_number : Option Json → Number) (lease : Option ℕ) where
  abbrev pub run : Call → World E → World E
  run (adding item) w = (add item w).1
  run (retrying_by pid id) w = (retry to_number lease pid id w).1
  run (skipping id) w = (skip id w).1
  run (resolving id) w = (resolve id w).1
  run (failing id msg) w = (mark_retry_failed id msg w).1
  run (waiting ms) w = record w { clock = w.clock + ms }

  abbrev pub run_all : List Call → World E → World E
  run_all [] w = w
  run_all (c ∷ rest) w = run_all rest (run c w)

  run-IsConsistent : (c : Call) (w : World E) → IsConsistent w → IsConsistent (run c w)
  run-IsConsistent (adding item) w h = (add-Preserves item).at w h
  run-IsConsistent (retrying_by pid id) w h = (retry-Preserves to_number lease pid id).at w h
  run-IsConsistent (skipping id) w h = (skip-Preserves id).at w h
  run-IsConsistent (resolving id) w h = (resolve-Preserves id).at w h
  run-IsConsistent (failing id msg) w h = (mark_retry_failed-Preserves id msg).at w h
  run-IsConsistent (waiting ms) w h = record {
    distinct = h.distinct;
    fresh = h.fresh;
    locks = h.locks;
  }

-- After any calls of the service by any processes, in any order, with time passing between them and
-- the database failing at any of its calls, the ids of the rows are distinct and below the next one,
-- and a row is locked, by a named process, exactly while its status is `retrying`.
pub run_all-IsConsistent :
    {E : Type 0} (to_number : Option Json → Number) (lease : Option ℕ) (calls : List Call)
    (w : World E)
    → IsConsistent w
    → IsConsistent (run_all to_number lease calls w)
run_all-IsConsistent to_number lease [] w h = h
run_all-IsConsistent to_number lease (c ∷ rest) w h =
    run_all-IsConsistent to_number lease rest _ (run-IsConsistent to_number lease c w h)
