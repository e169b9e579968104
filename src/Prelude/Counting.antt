-- ===== src/Prelude/Counting.antt =====
-- How often a test holds on a list.
use Prim.Native.Nat.{suc, ◌+◌, ◌≤◌}
use mathlib.Core.Path.{◌≡◌, refl, ap}
use mathlib.Core.Logic.{inl, inr}
use mathlib.Core.Bool.{Bool, true, false, ◌||◌}
use mathlib.Core.List.{List, [], ◌∷◌, ◌++◌, map}
use native.Mathlib.Omega.{arith}
use idm_mw.Prelude.Tests.{if◌then◌else◌, Bool-cases}
use idm_mw.Prelude.Lists.{any_of, count_of, keep, All}

module _ {ℓ} {A : Type ℓ} where
  pub any_of-append :
      (p : A → Bool) (xs ys : List A) → any_of p xs ≡ true → any_of p (xs ++ ys) ≡ true
  any_of-append p [] ys h = absurd (cc h)
  any_of-append p (x ∷ xs) ys h = elim (Bool-cases (p x)) [
    | inl holds ↦ rw holds refl
    | inr fails ↦ rw fails (any_of-append p xs ys (rw fails at h))
  ]

  pub count_of-append :
      (p : A → Bool) (xs ys : List A) → count_of p (xs ++ ys) ≡ count_of p xs + count_of p ys
  count_of-append p [] ys = omega arith
  count_of-append p (x ∷ xs) ys = elim (Bool-cases (p x)) [
    | inl holds ↦ rw holds (omega (arith, count_of-append p xs ys))
    | inr fails ↦ rw fails (count_of-append p xs ys)
  ]

  pub count_of-keep : (p k : A → Bool) (xs : List A) → count_of p (keep k xs) ≤ count_of p xs
  count_of-keep p k [] = omega arith
  count_of-keep p k (x ∷ xs) =
      let rest = count_of-keep p k xs in
      elim (Bool-cases (k x)) [
        | inl holds ↦ elim (Bool-cases (p x)) [
          | inl hit ↦ rw (holds, hit) (omega (arith, rest))
          | inr miss ↦ rw (holds, miss) rest
        ]
        | inr fails ↦ elim (Bool-cases (p x)) [
          | inl hit ↦ rw (fails, hit) (omega (arith, rest))
          | inr miss ↦ rw (fails, miss) rest
        ]
      ]

  pub count_of-none : (p : A → Bool) (xs : List A) → any_of p xs ≡ false → count_of p xs ≡ 0
  count_of-none p [] h = refl
  count_of-none p (x ∷ xs) h = elim (Bool-cases (p x)) [
    | inl holds ↦ absurd (cc (rw holds at h))
    | inr fails ↦ rw fails (count_of-none p xs (rw fails at h))
  ]

  pub any_of-keep :
      (p k : A → Bool) (xs : List A)
      → ((x : A) → p x ≡ true → k x ≡ true)
      → any_of p (keep k xs) ≡ any_of p xs
  any_of-keep p k [] h = refl
  any_of-keep p k (x ∷ xs) h =
      let rest = any_of-keep p k xs h in
      elim (Bool-cases (p x)) [
        | inl hit ↦ rw (h x hit, hit) refl
        | inr miss ↦ elim (Bool-cases (k x)) [
          | inl holds ↦ rw (holds, miss) rest
          | inr fails ↦ rw (fails, miss) rest
        ]
      ]

  pub count_of-le :
      (p q : A → Bool) (xs : List A)
      → ((x : A) → p x ≡ true → q x ≡ true)
      → count_of p xs ≤ count_of q xs
  count_of-le p q [] h = omega arith
  count_of-le p q (x ∷ xs) h =
      let rest = count_of-le p q xs h in
      elim (Bool-cases (p x)) [
        | inl hit ↦ rw (hit, h x hit) (omega (arith, rest))
        | inr miss ↦ elim (Bool-cases (q x)) [
          | inl holds ↦ rw (holds, miss) (omega (arith, rest))
          | inr fails ↦ rw (fails, miss) rest
        ]
      ]

  -- The number of hits of either of two tests that exclude each other.
  pub count_of-or :
      (p q : A → Bool) (xs : List A)
      → ((x : A) → p x ≡ true → q x ≡ false)
      → count_of (λ x. p x || q x) xs ≡ count_of p xs + count_of q xs
  count_of-or p q [] h = omega arith
  count_of-or p q (x ∷ xs) h =
      let rest = count_of-or p q xs h in
      elim (Bool-cases (p x)) [
        | inl hit ↦ rw (hit, h x hit) (omega (arith, rest))
        | inr miss ↦ elim (Bool-cases (q x)) [
          | inl holds ↦ rw (miss, holds) (omega (arith, rest))
          | inr fails ↦ rw (miss, fails) rest
        ]
      ]

module _ {ℓ} {A : Type ℓ} where
  -- Changes of the entries that the test does not see.
  pub count_of-map :
      (p : A → Bool) (f : A → A) (xs : List A)
      → ((x : A) → p (f x) ≡ p x)
      → count_of p (map f xs) ≡ count_of p xs
  count_of-map p f [] h = refl
  count_of-map p f (x ∷ xs) h =
      let rest = count_of-map p f xs h in rw (h x) (ap (λ n. if p x then suc n else n) rest)

  pub any_of-map :
      (p : A → Bool) (f : A → A) (xs : List A)
      → ((x : A) → p (f x) ≡ p x)
      → any_of p (map f xs) ≡ any_of p xs
  any_of-map p f [] h = refl
  any_of-map p f (x ∷ xs) h = rw (h x) (ap (λ rest. p x || rest) (any_of-map p f xs h))

module _ {ℓ} {A B : Type ℓ} where
  pub All-map {κ} :
      (P : B → Type κ) (f : A → B) (xs : List A) → All (λ x. P (f x)) xs → All P (map f xs)
  All-map P f [] h = h
  All-map P f (x ∷ xs) (p, h) = (p, All-map P f xs h)

module _ {ℓ} {A : Type ℓ} where
  -- From one predicate to another on every entry.
  pub All-mono {κ μ} :
      (P : A → Type κ) (Q : A → Type μ) (xs : List A) → ((x : A) → P x → Q x) → All P xs → All Q xs
  All-mono P Q [] h k = tt
  All-mono P Q (x ∷ xs) h (p, k) = (h x p, All-mono P Q xs h k)
