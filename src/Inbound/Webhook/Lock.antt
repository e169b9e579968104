-- ===== src/Inbound/Webhook/Lock.antt =====
-- The lock on an event across its deliveries, over the PostgreSQL store.
use idm_mw.Prelude.{
  ℕ, ◌+◌, ◌*◌, ◌≤◌, ◌<◌, ◌≡◌, ◌≢◌, refl, sym, ap, ◌∙◌, String, eq_refl, Bool, true, false, inl, inr,
  Bool-cases, Option, none, some, List, [], ◌∷◌, ltb, lt→ltb,
}
use idm_mw.Json.{Json, Number}
use idm_mw.Effects.{Result, ok, throw, outcome-cases, try_catch}
use idm_mw.Effects.Preserves.{
  Preserves, Preserves-pure, Preserves-if, Preserves-bind, Preserves-try, Preserves-gets,
}
use idm_mw.Core.World.{World, fails_now}
use idm_mw.Core.World.Stable.{IsStable, Preserves-external}
use idm_mw.Core.Dlq.Locks.{SameKeys}
use idm_mw.Core.Idempotency.{check_and_lock, release, any_exists, several, first}
use idm_mw.Core.Idempotency.Pg.{pg_store, exists_row, set_row, delete_row, is_live, find_key}
use idm_mw.Core.Idempotency.Pg.Rows.{locked}
use idm_mw.Core.Idempotency.Laws.{pg_locked, PgIsSound, pg_store_laws}
use idm_mw.Core.Idempotency.Locking.{Among, check_and_lock_lem}
use idm_mw.Core.Processing.{ProcessingPayload, is_durably_accepted_error}
use idm_mw.Connectors.{Connector}
use idm_mw.Kafka.{Settings, KafkaProducer}
use idm_mw.Outbound.Locks.{process_with_result-SameKeys, dispatch-SameKeys}
use idm_mw.Inbound.Webhook.{
  ProcessResult, idempotency_key, run_event, event_failed, process_webhook,
}

-- The delivery was answered, or failed with an error which says that the event was accepted.
abbrev pub IsAccepted : Result ProcessResult → Type 0
IsAccepted (ok r) = Unit
IsAccepted (throw e) = is_durably_accepted_error e ≡ true

-- The delivery failed, or was answered as not processed.
abbrev pub IsRefused : Result ProcessResult → Type 0
IsRefused (ok r) = r.processed ≡ false
IsRefused (throw e) = Unit

-- The work of an event: the target systems, the queue and the outbox.
pub record SameWork {E : Type 0} (base w : World E) : Type 0 where
  pub env : w.env ≡ base.env
  pub dlq : w.dlq ≡ base.dlq
  pub outbox : w.outbox ≡ base.outbox

module _ {E : Type 0} (base : World E) where
  SameWork-stable : IsStable (SameWork base)
  SameWork-stable = record { at = λ w o h. record { env = h.env; dlq = h.dlq; outbox = h.outbox } }

  exists_row-SameWork : (k : String) → Preserves (SameWork base) (exists_row k)
  unfolding exists_row
  exists_row-SameWork k = Preserves-external _ SameWork-stable (Preserves-gets _)

  set_row-SameWork : (k : Option String) (ttl : ℕ) → Preserves (SameWork base) (set_row k ttl)
  unfolding set_row
  set_row-SameWork none ttl = Preserves-pure false
  set_row-SameWork (some k) ttl =
      Preserves-try _ _
        (Preserves-external _ SameWork-stable (record {
          at = λ w h. elim (Bool-cases (is_live w.clock (find_key k w.idempotency_keys))) [
            | inl busy ↦ rw busy h
            | inr free ↦ rw free (record { env = h.env; dlq = h.dlq; outbox = h.outbox })
          ];
        }))
        (λ e. Preserves-pure false)

  any_exists-SameWork : (keys : List String) → Preserves (SameWork base) (any_exists pg_store keys)
  unfolding any_exists
  any_exists-SameWork [] = Preserves-pure false
  any_exists-SameWork (k ∷ ks) =
      Preserves-bind _ _ (exists_row-SameWork k)
        (λ found. Preserves-if found _ _ (Preserves-pure true) (any_exists-SameWork ks))

  check_and_lock-SameWork :
      (keys : List String) (ttl : ℕ) → Preserves (SameWork base) (check_and_lock pg_store keys ttl)
  unfolding check_and_lock
  check_and_lock-SameWork keys ttl =
      Preserves-bind _ _
        (Preserves-if (several keys) _ _ (any_exists-SameWork keys) (Preserves-pure false))
        (λ duplicate.
          Preserves-if duplicate _ _ (Preserves-pure false) (set_row-SameWork (first keys) ttl))

-- The release of the PostgreSQL store does not throw.
release_lem :
    {E : Type 0} (keys : List String) (w : World E)
    → (u : World E) × (release pg_store keys w ≡ (ok tt, u))
unfolding release delete_row
release_lem [] w = (w, refl)
release_lem {E} (k ∷ ks) w = elim (Bool-cases (fails_now w.outages)) [
  | inl down ↦ rw down (release_lem ks _)
  | inr up ↦ rw up (release_lem ks _)
]

module _ {E : Type 0} (settings : Settings) (producer : KafkaProducer)
    (get : String → Option (Connector E)) (to_number : Option Json → Number)
    (keys_of : String → List String) where
  run_event-SameKeys :
      (dto : ProcessingPayload) (is_read : Bool) (base : World E)
      → Preserves
          (SameKeys base)
          (run_event settings producer get to_number pg_store keys_of dto is_read)
  unfolding run_event
  run_event-SameKeys dto true base =
      Preserves-bind _ _
        (process_with_result-SameKeys base get to_number settings.dlq_retry_lease_seconds dto)
        (λ r. Preserves-pure _)
  run_event-SameKeys dto false base =
      Preserves-bind _ _ (dispatch-SameKeys base settings producer get to_number dto)
        (λ r. Preserves-pure _)

  -- An accepted delivery leaves the locks as they were when it was let in.
  accepted-SameKeys :
      (dto : ProcessingPayload) (is_read : Bool) (v : World E)
      → IsAccepted
          (try_catch
            (run_event settings producer get to_number pg_store keys_of dto is_read)
            (event_failed settings producer get to_number pg_store keys_of dto)
            v).0
      → SameKeys v
          (try_catch
            (run_event settings producer get to_number pg_store keys_of dto is_read)
            (event_failed settings producer get to_number pg_store keys_of dto)
            v).1
  unfolding event_failed
  accepted-SameKeys dto is_read v h =
      let kept = (run_event-SameKeys dto is_read v).at v refl in
      elim (outcome-cases
        (run_event settings producer get to_number pg_store keys_of dto is_read v)) [
          | inl (r, t, e) ↦ rw e (rw e at kept)
          | inr (x, t, e) ↦ elim (Bool-cases (is_durably_accepted_error x)) [
            | inl durable ↦ rw (e, durable) (rw e at kept)
            | inr lost ↦
                let (u, gone) = release_lem (keys_of (idempotency_key dto)) t in
                absurd (cc (lost, rw (e, lost, gone) at h))
          ]
        ]

  -- The first delivery of an event: the store took the event as new, and the delivery was accepted.
  pub record FirstDelivery (dto : ProcessingPayload) (is_read : Bool) (k : String)
      (keys : List String) (w u : World E) : Type 0 where
    pub candidates : keys_of (idempotency_key dto) ≡ k ∷ keys
    pub let_in : (check_and_lock pg_store (k ∷ keys) 3600 w).0 ≡ ok true
    pub end : (process_webhook settings producer get to_number pg_store keys_of dto is_read w).1 ≡ u
    pub accepted :
        IsAccepted
          (process_webhook settings producer get to_number pg_store keys_of dto is_read w).0

  -- What a delivery does once the store has answered.
  let_in_lem :
      (dto : ProcessingPayload) (is_read : Bool) (k : String) (keys : List String) (w v : World E)
      → keys_of (idempotency_key dto) ≡ k ∷ keys
      → check_and_lock pg_store (k ∷ keys) 3600 w ≡ (ok true, v)
      → process_webhook settings producer get to_number pg_store keys_of dto is_read w
        ≡ try_catch
            (run_event settings producer get to_number pg_store keys_of dto is_read)
            (event_failed settings producer get to_number pg_store keys_of dto)
            v
  unfolding process_webhook
  let_in_lem dto is_read k keys w v candidates won = rw (candidates, won)

  first_delivery_lem :
      (dto : ProcessingPayload) (is_read : Bool) (k : String) (keys : List String) (w u : World E)
      → PgIsSound w
      → FirstDelivery dto is_read k keys w u
      → (at : ℕ) → w.clock ≤ at
      → pg_locked u at k ≡ ltb at (w.clock + 3600 * 1000)
  first_delivery_lem dto is_read k keys w u sound d at le =
      let v = (check_and_lock pg_store (k ∷ keys) 3600 w).1 in
      let won : check_and_lock pg_store (k ∷ keys) 3600 w ≡ (ok true, v) =
        ap (λ r. (r, v)) d.let_in in
      let whole = let_in_lem dto is_read k keys w v d.candidates won in
      let (_, locks, _, _) =
        check_and_lock_lem pg_store pg_locked PgIsSound pg_store_laws keys k 3600 w v sound won in
      let kept = accepted-SameKeys dto is_read v (rw whole at d.accepted) in
      let same : u.idempotency_keys ≡ v.idempotency_keys =
        ap (λ (x : World E). x.idempotency_keys)
          (sym d.end ∙ ap (λ (p : Result ProcessResult × World E). p.1) whole)
        ∙ kept in
      ap (λ rows. locked at k rows) same ∙ locks at k le ∙ rw (eq_refl k)

  -- A delivery that the store does not take as new does no work and is not reported as processed.
  refused_lem :
      (dto : ProcessingPayload) (is_read : Bool) (x : World E)
      → (check_and_lock pg_store (keys_of (idempotency_key dto)) 3600 x).0 ≢ ok true
      → SameWork x
          (process_webhook settings producer get to_number pg_store keys_of dto is_read x).1
        × IsRefused
            (process_webhook settings producer get to_number pg_store keys_of dto is_read x).0
  unfolding process_webhook
  refused_lem dto is_read x not_new =
      let kept =
        (check_and_lock-SameWork x (keys_of (idempotency_key dto)) 3600).at x
          (record { env = refl; dlq = refl; outbox = refl }) in
      elim (outcome-cases (check_and_lock pg_store (keys_of (idempotency_key dto)) 3600 x)) [
        | inl (b, t, e) ↦ elim (Bool-cases b) [
          | inl new ↦ absurd (not_new (rw (e, new)))
          | inr old ↦ rw (e, old) (rw e at kept, refl)
        ]
        | inr (t, s, e) ↦ rw e (rw e at kept, tt)
      ]

  -- Once a delivery of an event was accepted, a later delivery of the event within the hour after
  -- the first came in does no work: whatever it carries, reads or writes, and whichever calls of the
  -- database fail in it, the target systems, the queue and the outbox stay as they are, and it is not
  -- reported as processed. The conditions: the key under which the first delivery was locked is among
  -- the candidates of the later one, and is locked when it comes in as it was left by the first.
  pub process_webhook_at_most_once :
      (dto dto' : ProcessingPayload) (is_read is_read' : Bool) (k k' : String)
      (keys keys' : List String) (w u x : World E)
      → PgIsSound w
      → FirstDelivery dto is_read k keys w u
      → PgIsSound x
      → keys_of (idempotency_key dto') ≡ k' ∷ keys'
      → Among k (k' ∷ keys')
      → pg_locked x x.clock k ≡ pg_locked u x.clock k
      → w.clock ≤ x.clock
      → x.clock < w.clock + 3600 * 1000
      → SameWork x
          (process_webhook settings producer get to_number pg_store keys_of dto' is_read' x).1
        × IsRefused
            (process_webhook settings producer get to_number pg_store keys_of dto' is_read' x).0
  process_webhook_at_most_once dto dto' is_read is_read' k k' keys keys' w u x sound d sound'
        candidates among kept after before =
      let held : pg_locked x x.clock k ≡ true =
        kept
        ∙ first_delivery_lem dto is_read k keys w u sound d x.clock after
        ∙ lt→ltb _ _ before in
      refused_lem dto' is_read' x (λ again.
        let again' = rw candidates at again in
        let (free, _, _, _) =
          check_and_lock_lem pg_store pg_locked PgIsSound pg_store_laws keys' k' 3600 x
            (check_and_lock pg_store (k' ∷ keys') 3600 x).1 sound'
            (ap (λ r. (r, (check_and_lock pg_store (k' ∷ keys') 3600 x).1)) again') in
        cc (held, free k among))
