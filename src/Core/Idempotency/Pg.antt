-- ===== src/Core/Idempotency/Pg.antt =====
-- core/idempotency/stores/pg-idempotency.store.ts. A transaction is one call of the database.
pub mod Rows
use idm_mw.Prelude.{
  ℕ, ◌+◌, ◌*◌, ◌-◌, String, Bool, true, false, not, ◌==◌, Option, none, some, List, [], ◌∷◌, ltb,
  keep, if◌then◌else◌,
}
use idm_mw.Effects.{Result, ok, throw, Exec, pure, gets, modify, try_catch, ◌>>=◌}
use idm_mw.Core.World.{IdempotencyKey, World, external}
use idm_mw.Core.Idempotency.{IdempotencyStore}

unfoldable pub find_key : String → List IdempotencyKey → Option IdempotencyKey
find_key k [] = none
find_key k (r ∷ rest) = if r.key == k then some r else find_key k rest

-- `existing && existing.expiresAt > new Date()`
unfoldable pub is_live : ℕ → Option IdempotencyKey → Bool
is_live now none = false
is_live now (some r) = ltb now r.expires_at

-- `upsert`: a new row is locked now, by the column's default; an old one is locked anew.
unfoldable pub upsert : ℕ → String → ℕ → List IdempotencyKey → List IdempotencyKey
upsert now k expires_at [] = record { key = k; locked_at = now; expires_at = expires_at } ∷ []
upsert now k expires_at (r ∷ rest) =
    if r.key == k
    then record r { locked_at = now; expires_at = expires_at } ∷ rest
    else r ∷ upsert now k expires_at rest

-- `deleteMany` of what expired more than a minute ago.
unfoldable pub sweep : ℕ → List IdempotencyKey → List IdempotencyKey
sweep now rows = keep (λ r. not (ltb r.expires_at (now - 60000))) rows

unfoldable pub drop_row : String → List IdempotencyKey → List IdempotencyKey
drop_row k rows = keep (λ r. not (r.key == k)) rows

module _ {E : Type 0} where
  unfoldable pub exists_row : String → Exec (World E) Bool
  unfolding find_key is_live
  exists_row k = external (gets (λ w. is_live w.clock (find_key k w.idempotency_keys)))

  abbrev pub write_lock : String → ℕ → World E → World E
  write_lock k ttl w = record w {
    idempotency_keys = sweep w.clock (upsert w.clock k (w.clock + ttl * 1000) w.idempotency_keys);
  }

  abbrev pub lock_row : String → ℕ → Bool → Exec (World E) Bool
  lock_row k ttl true w = (ok false, w)
  lock_row k ttl false w = (ok true, write_lock k ttl w)

  -- A database that refuses the missing key, or fails, is caught: the answer is `false`.
  unfoldable pub set_row : Option String → ℕ → Exec (World E) Bool
  unfolding find_key is_live upsert sweep
  set_row none ttl = pure false
  set_row (some k) ttl =
      try_catch (external (λ w. lock_row k ttl (is_live w.clock (find_key k w.idempotency_keys)) w))
        (λ e. pure false)

  -- Every error of the deletion is caught, a missing row and a failing database alike.
  unfoldable pub delete_row : String → Exec (World E) Unit
  unfolding drop_row
  delete_row k =
      try_catch
        (external (modify (λ w. record w { idempotency_keys = drop_row k w.idempotency_keys })))
        (λ e. pure tt)

  abbrev pub pg_store : IdempotencyStore E
  pg_store = record {
    exists_key = exists_row;
    set_if_not_exists = set_row;
    delete_key = delete_row;
  }
