-- ===== src/Core/Dlq.antt =====
-- core/dlq/dlq.service.ts: the dead letter queue and the leases on its items.
pub mod Rows
pub mod Lease
pub mod Consistency
pub mod Gauge
pub mod Locks
use idm_mw.Prelude.{
  ℕ, ◌+◌, ◌*◌, ◌-◌, String, Bool, true, false, not, ◌&&◌, ◌||◌, ◌≡◌, Option, none, some, List, [],
  ◌∷◌, ◌++◌, ltb, eqb, or_else, or_option, count_of, if◌then◌else◌,
}
use idm_mw.Json.{Json, Number, Fields}
use idm_mw.Effects.{Thrown, error, Result, ok, throw, Exec, pure, raise, gets, modify, ◌>>=◌, ◌>>◌}
use idm_mw.Core.World.{Status, pending, retrying, skipped, resolved, DlqItem, World, external}
use idm_mw.Core.Metrics.{set_dlq_size}
use idm_mw.Core.Retry.{TargetRetryPolicy, for_target}

-- The `data` that ProcessingService hands to `add`.
pub record DlqItemData : Type 0 where
  pub event_id : String
  pub operation : String
  pub target_system : String
  pub payload : Fields
  pub error : String
  pub retry_count : Option ℕ

abbrev pub same : Status → Status → Bool
same pending pending = true
same retrying retrying = true
same skipped skipped = true
same resolved resolved = true
same _ _ = false

-- The status as the column and the metric's label spell it.
abbrev pub text : Status → String
text pending = "pending"
text retrying = "retrying"
text skipped = "skipped"
text resolved = "resolved"

unfoldable pub find : ℕ → List DlqItem → Option DlqItem
find id [] = none
find id (i ∷ rest) = if eqb i.id id then some i else find id rest

-- `updateMany`: changes every row that passes the test, and counts them.
unfoldable pub update_many : (DlqItem → Bool) → (DlqItem → DlqItem) → List DlqItem → List DlqItem
update_many test change [] = []
update_many test change (i ∷ rest) = (if test i then change i else i) ∷ update_many test change rest

unfoldable pub count_by_status : List DlqItem → Status → ℕ
count_by_status rows status = count_of (λ i. same i.status status) rows

-- `OR: [{ lockedAt: null }, { lockedAt: { lt: expiredBefore } }]`. A deadline before 1970 is 0
-- here, and no lock is older than either.
unfoldable pub lock_is_old : ℕ → Option ℕ → Bool
lock_is_old expired_before none = true
lock_is_old expired_before (some at) = ltb at expired_before

-- The `where` of `retry`'s `updateMany`.
unfoldable pub is_claimable : ℕ → ℕ → DlqItem → Bool
unfolding lock_is_old
is_claimable id expired_before i =
    eqb i.id id
    && (not (same i.status skipped || same i.status resolved)
        && (not (same i.status retrying) || lock_is_old expired_before i.locked_at))

abbrev pub claim : ℕ → String → DlqItem → DlqItem
claim now locked_by i = record i {
  status = retrying;
  retry_count = i.retry_count + 1;
  locked_at = some now;
  locked_by = some locked_by;
}

-- `data: { status, lockedAt: null, lockedBy: null }`
abbrev pub close : Status → DlqItem → DlqItem
close status i = record i { status = status; locked_at = none; locked_by = none }

abbrev pub new_item : ℕ → DlqItemData → DlqItem
new_item id item = record {
  id = id;
  event_id = item.event_id;
  operation = item.operation;
  target_system = item.target_system;
  payload = item.payload;
  error = item.error;
  retry_count = or_else item.retry_count 0;
  status = pending;
  locked_at = none;
  locked_by = none;
}

module _ {E : Type 0} where
  abbrev write_sizes : (Status → ℕ) → World E → World E
  write_sizes count w = record w {
    metrics = set_dlq_size "resolved" (count resolved) (
        set_dlq_size "skipped" (count skipped) (
          set_dlq_size "retrying" (count retrying)
            (set_dlq_size "pending" (count pending) w.metrics)));
  }

  unfoldable pub update_metrics : Exec (World E) Unit
  unfolding count_by_status
  update_metrics = do
    rows ← external (gets (λ w. w.dlq))
    modify (write_sizes (count_by_status rows))

  abbrev pub insert_item : DlqItemData → World E → World E
  insert_item item w = record w {
    dlq = w.dlq ++ new_item w.next_id item ∷ [];
    next_id = w.next_id + 1;
  }

  unfoldable pub add : DlqItemData → Exec (World E) Unit
  unfolding update_metrics
  add item = do external (modify (insert_item item)); update_metrics

  unfoldable pub update_found : ℕ → (DlqItem → DlqItem) → Option DlqItem → Exec (World E) Unit
  unfolding update_many
  update_found id change none w = (throw (error "No record was found for an update."), w)
  update_found id change (some i) w =
      (ok tt, record w { dlq = update_many (λ j. eqb j.id id) change w.dlq })

  -- `dlqItem.update`, which throws where no row has the id.
  unfoldable pub update_item : ℕ → (DlqItem → DlqItem) → Exec (World E) Unit
  unfolding find update_found
  update_item id change = external (λ w. update_found id change (find id w.dlq) w)

  unfoldable pub skip : ℕ → Exec (World E) Unit
  unfolding update_item update_metrics
  skip id = do update_item id (close skipped); update_metrics

  unfoldable pub resolve : ℕ → Exec (World E) Unit
  unfolding update_item update_metrics
  resolve id = do update_item id (close resolved); update_metrics

  unfoldable pub mark_retry_failed : ℕ → String → Exec (World E) Unit
  unfolding update_item update_metrics
  mark_retry_failed id msg = do
    update_item id (λ i. record (close pending i) { error = msg })
    update_metrics

  -- The claim itself, one statement of the database: it returns whether one row was changed.
  unfoldable pub claim_item : String → ℕ → ℕ → Exec (World E) Bool
  unfolding is_claimable update_many
  claim_item pid id lease_seconds = external (λ w.
      let test = is_claimable id (w.clock - lease_seconds * 1000) in
      (
        ok (eqb (count_of test w.dlq) 1),
        record w { dlq = update_many test (claim w.clock pid) w.dlq },
      ))

-- `to_number` is JavaScript's `Number`, `lease` is DLQ_RETRY_LEASE_SECONDS, `pid` this process.
module _ {E : Type 0} (to_number : Option Json → Number) (lease : Option ℕ) (pid : String) where
  abbrev lease_of : Option DlqItem → Exec (World E) (Option ℕ)
  lease_of none = pure none
  lease_of (some item) = do
    policy ← for_target to_number lease item.target_system
    pure (some policy.dlq_lease_seconds)

  unfoldable pub retry : ℕ → Exec (World E) Bool
  unfolding claim_item update_metrics for_target
  retry id = do
    item ← external (gets (λ w. find id w.dlq))
    target_lease ← lease_of item
    claimed ← claim_item pid id (or_else (or_option target_lease lease) 300)
    (if claimed then update_metrics else pure tt)
    pure claimed
