-- ===== src/Core/Dlq/Gauge.antt =====
-- What the service promises of the metric and of the rows after a call that did not throw.
use idm_mw.Prelude.{
  ℕ, ◌≡◌, refl, ◌∙◌, sym, ap, ◌++◌, String, Bool, true, false, none, some, or_else, List, [], ◌∷◌,
  arith, lookup, lookup-insert, eqb, inl, inr, Bool-cases, Option-cases,
}
use idm_mw.Effects.{Exec, ok, throw, modify, ◌>>◌, >>-eq-ok}
use idm_mw.Core.World.{
  Status, pending, retrying, skipped, resolved, DlqItem, World, fails_now, external, unavailable,
}
use idm_mw.Core.Metrics.{set_dlq_size}
use idm_mw.Core.Dlq.{
  DlqItemData, text, find, count_by_status, write_sizes, update_metrics, close, new_item,
  insert_item, add, update_item, skip, resolve, mark_retry_failed,
}
use idm_mw.Core.Dlq.Rows.{find-update_many, KeepsId, id-find}

-- The gauge of every status shows the number of its rows.
abbrev pub IsCurrent : {E : Type 0} → World E → Type 0
IsCurrent w = (s : Status) → lookup (text s) w.metrics.dlq_size ≡ some (count_by_status w.dlq s)

module _ {E : Type 0} where
  write_sizes-current :
      (count : Status → ℕ) (w : World E) (s : Status)
      → lookup (text s) (write_sizes count w).metrics.dlq_size ≡ some (count s)
  unfolding set_dlq_size
  write_sizes-current count w pending = simp lookup-insert
  write_sizes-current count w retrying = simp lookup-insert
  write_sizes-current count w skipped = simp lookup-insert
  write_sizes-current count w resolved = simp lookup-insert

  update_metrics_lem :
      (w u : World E) → update_metrics w ≡ (ok tt, u) → (u.dlq ≡ w.dlq) × IsCurrent u
  unfolding update_metrics
  update_metrics_lem w u h = elim (Bool-cases (fails_now w.outages)) [
    | inl down ↦ absurd (cc (rw down at h))
    | inr up ↦
        let e = ap (λ p. p.1) (rw up at h) in
        (rw (← e) refl, λ s. rw (← e) (write_sizes-current (count_by_status w.dlq) w s))
  ]

  update_item_lem :
      (id : ℕ) (change : DlqItem → DlqItem) (w u : World E)
      → KeepsId change
      → update_item id change w ≡ (ok tt, u)
      → (i : DlqItem) × (find id w.dlq ≡ some i) × (find id u.dlq ≡ some (change i))
  unfolding update_item
  update_item_lem id change w u k h = elim (Bool-cases (fails_now w.outages)) [
    | inl down ↦ absurd (cc (rw down at h))
    | inr up ↦ elim (Option-cases (find id w.dlq)) [
      | inl missing ↦ absurd (cc (rw (up, missing) at h))
      | inr (i, e) ↦
          let rows = ap (λ p. p.1.dlq) (rw (up, e) at h) in
          (
            i,
            e,
            rw (← rows) (
                find-update_many (λ j. eqb j.id id) change k id w.dlq
                ∙ rw e (ap some (ground (arith, id-find id w.dlq i e)))),
          )
    ]
  ]

  -- The effect of a call that closes or reopens an item.
  closing_lem :
      (id : ℕ) (change : DlqItem → DlqItem) (w u : World E)
      → KeepsId change
      → (update_item id change >> update_metrics) w ≡ (ok tt, u)
      → (i : DlqItem) × (find id w.dlq ≡ some i) × (find id u.dlq ≡ some (change i)) × IsCurrent u
  closing_lem id change w u k h =
      let (_, t, first, second) = >>-eq-ok (update_item id change) update_metrics w h in
      let (i, before, after) = update_item_lem id change w t k first in
      let (same_rows, current) = update_metrics_lem t u second in
      (i, before, ap (find id) same_rows ∙ after, current)

-- The row of that id before and after a call that changed it, and the gauge after it.
pub record Changed {E : Type 0} (id : ℕ) (change : DlqItem → DlqItem) (w u : World E) : Type 0 where
  pub item : DlqItem
  pub before : find id w.dlq ≡ some item
  pub after : find id u.dlq ≡ some (change item)
  pub current : IsCurrent u

changed_lem :
    {E : Type 0} (id : ℕ) (change : DlqItem → DlqItem) (w u : World E)
    → KeepsId change
    → (update_item id change >> update_metrics) w ≡ (ok tt, u)
    → Changed id change w u
changed_lem id change w u k h =
    let (i, before, after, current) = closing_lem id change w u k h in
    record { item = i; before = before; after = after; current = current }

-- The calls that close an item or reopen it.
pub data Closing : Type 0 where
  resolving skipping : Closing
  reopening : (error : String) → Closing

abbrev pub perform : {E : Type 0} → Closing → ℕ → Exec (World E) Unit
perform resolving id = resolve id
perform skipping id = skip id
perform (reopening msg) id = mark_retry_failed id msg

abbrev pub change_of : Closing → DlqItem → DlqItem
change_of resolving i = record i { status = resolved; locked_at = none; locked_by = none }
change_of skipping i = record i { status = skipped; locked_at = none; locked_by = none }
change_of (reopening msg) i = record i {
  status = pending;
  locked_at = none;
  locked_by = none;
  error = msg;
}

-- The row of an event that was just put into the queue.
abbrev pub row_of_event : ℕ → DlqItemData → DlqItem
row_of_event id item = record {
  id = id;
  event_id = item.event_id;
  operation = item.operation;
  target_system = item.target_system;
  payload = item.payload;
  error = item.error;
  retry_count = or_else item.retry_count 0;
  status = pending;
  locked_at = none;
  locked_by = none;
}

-- When `resolve`, `skip` or `markRetryFailed` returns, the item existed, its row has status
-- resolved or skipped, or is pending with the new error, without the time and the holder of a lock and
-- with all other columns as they were, and the gauge of every
-- status shows the number of its rows.
pub closing_calls :
    {E : Type 0} (call : Closing) (id : ℕ) (w u : World E)
    → perform call id w ≡ (ok tt, u)
    → Changed id (change_of call) w u
unfolding resolve skip mark_retry_failed
closing_calls resolving id w u h = changed_lem id (close resolved) w u (λ i. refl) h
closing_calls skipping id w u h = changed_lem id (close skipped) w u (λ i. refl) h
closing_calls (reopening msg) id w u h =
    changed_lem id (λ i. record (close pending i) { error = msg }) w u (λ i. refl) h

-- When `add` returns, a row with the event, its operation, target, payload and error and the count of its
-- retries, pending and unlocked, has been appended to the queue, and the gauge of
-- every status shows the number of its rows.
pub add_lem :
    {E : Type 0} (item : DlqItemData) (w u : World E)
    → add item w ≡ (ok tt, u)
    → (u.dlq ≡ w.dlq ++ row_of_event w.next_id item ∷ []) × IsCurrent u
unfolding add
add_lem {E} item w u h =
    let (_, t, first, second) =
      >>-eq-ok (external (modify (insert_item item))) update_metrics w h in
    let (same_rows, current) = update_metrics_lem t u second in
    (same_rows ∙ inserted t first, current)
  where
    inserted :
        (t : World E)
        → external (modify (insert_item item)) w ≡ (ok tt, t)
        → t.dlq ≡ w.dlq ++ row_of_event w.next_id item ∷ []
    inserted t first = elim (Bool-cases (fails_now w.outages)) [
      | inl down ↦ absurd (cc (rw down at first))
      | inr up ↦ sym (ap (λ p. p.1.dlq) (rw up at first))
    ]

-- `add` may throw although its row was stored: where the row is inserted and the count for the metric
-- then fails, the caller sees an error and the queue holds the row.
pub add_throws_though_stored :
    {E : Type 0} (item : DlqItemData) (w : World E) (rest : List Bool)
    → w.outages ≡ false ∷ true ∷ rest
    → ((add item w).0 ≡ throw unavailable)
      × ((add item w).1.dlq ≡ w.dlq ++ new_item w.next_id item ∷ [])
unfolding add
add_throws_though_stored item w rest h = (rw h, rw h)
