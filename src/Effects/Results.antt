-- ===== src/Effects/Results.antt =====
-- Code that may throw and changes no state: chains of results.
use idm_mw.Prelude.{◌≡◌, refl, ◌⊎◌, inl, inr}
use idm_mw.Effects.{Thrown, Result, ok, throw}

module _ {ℓ κ} {A : Type ℓ} {B : Type κ} where
  infixl 5 ◌>>=◌
  abbrev pub ◌>>=◌ : Result A → (A → Result B) → Result B
  throw thrown >>= next = throw thrown
  ok value >>= next = next value

  infixl 5 ◌>>◌
  abbrev pub ◌>>◌ : Result A → Result B → Result B
  ok a >> m = m
  throw e >> m = throw e

module _ {ℓ} {A : Type ℓ} where
  pub Result-cases : (r : Result A) → ((a : A) × (r ≡ ok a)) ⊎ ((e : Thrown) × (r ≡ throw e))
  Result-cases (ok a) = inl (a, refl)
  Result-cases (throw e) = inr (e, refl)

  -- An exception of code without state, inside a method.
  abbrev pub lift {κ} : {S : Type κ} → Result A → S → Result A × S
  lift r s = (r, s)

module _ {ℓ κ} {A : Type ℓ} {B : Type κ} where
  -- A chain that returned went through a first part that returned.
  pub >>=-eq-ok :
      (first : Result A) (next : A → Result B) {answer : B}
      → (first >>= next) ≡ ok answer
      → (value : A) × (first ≡ ok value) × (next value ≡ ok answer)
  >>=-eq-ok (throw thrown) next returned = absurd (cc returned)
  >>=-eq-ok (ok value) next returned = (value, refl, returned)
