-- ===== src/Effects.antt =====
-- Exceptions as values, and methods that change a state and may throw: what was written before the
-- throw stays written, so the state comes back beside the error too.

pub mod Preserves
pub mod Results
use idm_mw.Prelude.{String, Bool, ℕ, ◌≡◌, refl, ◌⊎◌, inl, inr}

-- What the code throws. `processing_failure` is `ProcessingFailureError` of
-- core/processing.service.ts, with its `durableAccepted` and `cause`; `http` is an exception of
-- NestJS with its status; `coded` is an error of the Prisma client with its `code`; `other` is a thrown value that is no `Error`, as `String(value)` shows it.
pub data Thrown : Type 0 where
  error : String → Thrown
  processing_failure : String → Bool → Thrown → Thrown
  http : ℕ → String → Thrown
  coded : (code message : String) → Thrown
  other : String → Thrown

-- `error instanceof Error ? error.message : String(error)`
unfoldable pub message : Thrown → String
message (error m) = m
message (processing_failure m d c) = m
message (http s m) = m
message (coded c m) = m
message (other m) = m

-- `error instanceof Error ? error : new Error(String(error))`
unfoldable pub as_error : Thrown → Thrown
as_error (other m) = error m
as_error e = e

pub data Result {ℓ} (A : Type ℓ) : Type ℓ where
  ok : A → Result A
  throw : Thrown → Result A

abbrev pub Exec {ℓ} : Type ℓ → Type ℓ → Type ℓ
Exec S A = S → Result A × S

module _ {ℓ} {S A : Type ℓ} where
  abbrev pub pure : A → Exec S A
  pure a s = (ok a, s)

  abbrev pub raise : Thrown → Exec S A
  raise e s = (throw e, s)

  abbrev pub gets : (S → A) → Exec S A
  gets f s = (ok (f s), s)

abbrev pub modify : {S : Type 0} → (S → S) → Exec S Unit
modify f s = (ok tt, f s)

module _ {ℓ} {S A B : Type ℓ} where
  abbrev pub continue : (A → Exec S B) → Result A × S → Result B × S
  continue f (ok a, s) = f a s
  continue f (throw e, s) = (throw e, s)

  infixl 5 ◌>>=◌
  abbrev pub ◌>>=◌ : Exec S A → (A → Exec S B) → Exec S B
  ◌>>=◌ m f s = continue f (m s)

  infixl 5 ◌>>◌
  abbrev pub ◌>>◌ : Exec S A → Exec S B → Exec S B
  ◌>>◌ m k s = continue (λ _. k) (m s)

module _ {ℓ} {S A : Type ℓ} where
  abbrev pub handle : (Thrown → Exec S A) → Result A × S → Result A × S
  handle h (ok a, s) = (ok a, s)
  handle h (throw e, s) = h e s

  -- `try { m } catch (e) { h }`
  abbrev pub try_catch : Exec S A → (Thrown → Exec S A) → Exec S A
  try_catch m h s = handle h (m s)

module _ {ℓ} {S A : Type ℓ} where
  -- To split on the outcome of a call and keep the equation.
  pub outcome-cases :
      (p : Result A × S)
      → ((a : A) × (s : S) × (p ≡ (ok a, s))) ⊎ ((e : Thrown) × (s : S) × (p ≡ (throw e, s)))
  outcome-cases (ok a, s) = inl (a, s, refl)
  outcome-cases (throw e, s) = inr (e, s, refl)

module _ {ℓ} {S A B : Type ℓ} where
  -- A block that returned went through a first part that returned.
  pub >>-eq-ok :
      (m : Exec S A) (n : Exec S B) (s : S) {b : B} {u : S}
      → (m >> n) s ≡ (ok b, u)
      → (a : A) × (t : S) × (m s ≡ (ok a, t)) × (n t ≡ (ok b, u))
  >>-eq-ok m n s h = elim (outcome-cases (m s)) [
    | inl (a, t, e) ↦ (a, t, e, rw e at h)
    | inr (x, t, e) ↦ absurd (cc (rw e at h))
  ]

  pub >>=-eq-ok :
      (m : Exec S A) (f : A → Exec S B) (s : S) {b : B} {u : S}
      → (m >>= f) s ≡ (ok b, u)
      → (a : A) × (t : S) × (m s ≡ (ok a, t)) × (f a t ≡ (ok b, u))
  >>=-eq-ok m f s h = elim (outcome-cases (m s)) [
    | inl (a, t, e) ↦ (a, t, e, rw e at h)
    | inr (x, t, e) ↦ absurd (cc (rw e at h))
  ]
