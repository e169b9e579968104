-- ===== src/Core/Idempotency.antt =====
-- core/idempotency: the service that locks an event's key, and the interface of its stores.
pub mod Pg
pub mod Laws
pub mod Locking
use idm_mw.Prelude.{
  ℕ, String, Bool, true, false, Option, none, some, List, [], ◌∷◌, ltb, length, if◌then◌else◌,
}
use idm_mw.Effects.{Result, ok, throw, Exec, pure, ◌>>=◌, ◌>>◌}
use idm_mw.Core.World.{World}

-- idempotency.store.interface.ts. The key of `set_if_not_exists` is `keys[0]`, which may be missing.
pub record IdempotencyStore (E : Type 0) : Type 0 where
  pub exists_key : String → Exec (World E) Bool
  pub set_if_not_exists : Option String → ℕ → Exec (World E) Bool
  pub delete_key : String → Exec (World E) Unit

abbrev pub first : List String → Option String
first [] = none
first (k ∷ ks) = some k

-- `keys.length > 1`
abbrev pub several : List String → Bool
several [] = false
several (k ∷ []) = false
several (k ∷ j ∷ ks) = true

abbrev both : Result {0} Unit → Result {0} Unit → Result {0} Unit
both (ok _) others = others
both (throw e) others = throw e

module _ {E : Type 0} (store : IdempotencyStore E) where
  -- The loop over the candidates: whether one of them exists.
  unfoldable pub any_exists : List String → Exec (World E) Bool
  any_exists [] = pure false
  any_exists (k ∷ ks) = do found ← store.exists_key k; if found then pure true else any_exists ks

  -- `this.encryption?.idempotencyKeys(key) ?? [key]` is the argument `keys`.
  unfoldable pub check_and_lock : List String → ℕ → Exec (World E) Bool
  unfolding any_exists
  check_and_lock keys ttl = do
    duplicate ← if several keys then any_exists keys else pure false
    if duplicate then pure false else store.set_if_not_exists (first keys) ttl

  -- `Promise.all` of the deletions: each is made, and the first error is thrown.
  unfoldable pub release : List String → Exec (World E) Unit
  release [] w = (ok tt, w)
  release (k ∷ ks) w =
      let (deleted, u) = store.delete_key k w in
      let (others, v) = release ks u in (both deleted others, v)
