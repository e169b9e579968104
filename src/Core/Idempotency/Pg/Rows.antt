-- ===== src/Core/Idempotency/Pg/Rows.antt =====
-- What the statements of the PostgreSQL store do to the lock of each key.
use idm_mw.Prelude.{
  ℕ, ◌-◌, ◌≤◌, ◌≡◌, ◌≢◌, refl, String, Bool, false, not, ◌==◌, eq_iff, Option, none, some, List, [],
  ◌∷◌, ltb, keep, All, All-keep, arith, if◌then◌else◌, inl, inr, Bool-cases,
}
use idm_mw.Core.World.{IdempotencyKey}
use idm_mw.Core.Idempotency.Pg.{find_key, is_live, upsert, sweep, drop_row}

-- The primary key.
abbrev pub HasDistinctKeys : List IdempotencyKey → Type 0
HasDistinctKeys [] = Unit
HasDistinctKeys (r ∷ rest) = All (λ q. r.key ≢ q.key) rest × HasDistinctKeys rest

-- Whether the key is locked at that time.
abbrev pub locked : ℕ → String → List IdempotencyKey → Bool
locked now k rows = is_live now (find_key k rows)

pub locked-upsert :
    (now at : ℕ) (k j : String) (expires_at : ℕ) (rows : List IdempotencyKey)
    → locked at j (upsert now k expires_at rows)
      ≡ (if k == j then ltb at expires_at else locked at j rows)
unfolding find_key is_live upsert
locked-upsert now at k j expires_at [] = ground (arith, eq_iff k j)
locked-upsert now at k j expires_at (r ∷ rest) =
    ground
      (arith, eq_iff k j, eq_iff r.key k, eq_iff r.key j, locked-upsert now at k j expires_at rest)

All-ne-keep :
    (k : String) (p : IdempotencyKey → Bool) (rows : List IdempotencyKey)
    → All (λ q. k ≢ q.key) rows
    → All (λ q. k ≢ q.key) (keep p rows)
All-ne-keep k p rows h = All-keep (λ q. k ≢ q.key) p rows h

pub keep-HasDistinctKeys :
    (p : IdempotencyKey → Bool) (rows : List IdempotencyKey)
    → HasDistinctKeys rows
    → HasDistinctKeys (keep p rows)
keep-HasDistinctKeys p [] h = tt
keep-HasDistinctKeys p (r ∷ rest) (q, h) = elim (Bool-cases (p r)) [
  | inl kept ↦ rw kept (All-ne-keep r.key p rest q, keep-HasDistinctKeys p rest h)
  | inr gone ↦ rw gone (keep-HasDistinctKeys p rest h)
]

All-ne-upsert :
    (key k : String) (now expires_at : ℕ) (rows : List IdempotencyKey)
    → key ≢ k
    → All (λ q. key ≢ q.key) rows
    → All (λ q. key ≢ q.key) (upsert now k expires_at rows)
unfolding upsert
All-ne-upsert key k now expires_at [] h a = (h, tt)
All-ne-upsert key k now expires_at (r ∷ rest) h (q, a) = elim (Bool-cases (r.key == k)) [
  | inl same ↦ rw same (q, a)
  | inr other ↦ rw other (q, All-ne-upsert key k now expires_at rest h a)
]

pub upsert-HasDistinctKeys :
    (now : ℕ) (k : String) (expires_at : ℕ) (rows : List IdempotencyKey)
    → HasDistinctKeys rows
    → HasDistinctKeys (upsert now k expires_at rows)
unfolding upsert
upsert-HasDistinctKeys now k expires_at [] h = (tt, tt)
upsert-HasDistinctKeys now k expires_at (r ∷ rest) (q, h) = elim (Bool-cases (r.key == k)) [
  | inl same ↦ rw same (q, h)
  | inr other ↦ rw other (
    All-ne-upsert r.key k now expires_at rest (λ e. cc ((eq_iff r.key k).1 e, other)) q,
    upsert-HasDistinctKeys now k expires_at rest h,
  )
]

abbrev kept_if : (IdempotencyKey → Bool) → Option IdempotencyKey → Option IdempotencyKey
kept_if p none = none
kept_if p (some r) = if p r then some r else none

find_key-eq-none :
    (j : String) (rows : List IdempotencyKey) → All (λ q. j ≢ q.key) rows → find_key j rows ≡ none
unfolding find_key
find_key-eq-none j [] h = refl
find_key-eq-none j (r ∷ rest) (q, h) = ground (arith, eq_iff r.key j, find_key-eq-none j rest h)

find_key-keep :
    (j : String) (p : IdempotencyKey → Bool) (rows : List IdempotencyKey)
    → HasDistinctKeys rows
    → find_key j (keep p rows) ≡ kept_if p (find_key j rows)
unfolding find_key
find_key-keep j p [] h = refl
find_key-keep j p (r ∷ rest) (q, h) = ground (
  arith,
  eq_iff r.key j,
  find_key-keep j p rest h,
  find_key-eq-none r.key (keep p rest) (All-ne-keep r.key p rest q),
)

-- The sweep forgets no lock that could still hold.
pub locked-sweep :
    (now at : ℕ) (j : String) (rows : List IdempotencyKey)
    → HasDistinctKeys rows
    → now ≤ at
    → locked at j (sweep now rows) ≡ locked at j rows
unfolding sweep is_live
locked-sweep now at j rows h le =
    rw (find_key-keep j (λ r. not (ltb r.expires_at (now - 60000))) rows h)
      (live-kept (find_key j rows))
  where
    live-kept :
        (o : Option IdempotencyKey)
        → is_live at (kept_if (λ r. not (ltb r.expires_at (now - 60000))) o) ≡ is_live at o
    live-kept none = refl
    live-kept (some r) = ground arith

key-find_key :
    (k : String) (rows : List IdempotencyKey) (r : IdempotencyKey)
    → find_key k rows ≡ some r
    → r.key ≡ k
unfolding find_key
key-find_key k [] r h = cc
key-find_key k (q ∷ rest) r h = elim (Bool-cases (q.key == k)) [
  | inl here ↦ ground (arith, eq_iff q.key k)
  | inr there ↦ key-find_key k rest r (ground arith)
]

pub locked-drop_row :
    (at : ℕ) (k j : String) (rows : List IdempotencyKey)
    → HasDistinctKeys rows
    → locked at j (drop_row k rows) ≡ (if k == j then false else locked at j rows)
unfolding drop_row is_live
locked-drop_row at k j rows h =
    rw (find_key-keep j (λ r. not (r.key == k)) rows h)
      (live-kept (find_key j rows) (key-find_key j rows))
  where
    live-kept :
        (o : Option IdempotencyKey)
        → ((r : IdempotencyKey) → o ≡ some r → r.key ≡ j)
        → is_live at (kept_if (λ r. not (r.key == k)) o) ≡ (if k == j then false else is_live at o)
    live-kept none same = ground arith
    live-kept (some r) same = ground (arith, same r, eq_iff k j, eq_iff r.key k)
