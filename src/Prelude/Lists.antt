-- ===== src/Prelude/Lists.antt =====
-- Lists measured by native numbers, `Array.prototype.some`, `every` and `filter`, and predicates
-- on every entry.
use Prim.Native.Nat.{ℕ, zero, suc, ◌+◌, ◌-◌}
use mathlib.Core.Path.{◌≡◌}
use mathlib.Core.Bool.{Bool, true, false, ◌&&◌, ◌||◌}
use mathlib.Core.List.{List, [], ◌∷◌, ◌++◌}
use native.Mathlib.Omega.{arith}
use idm_mw.Prelude.Tests.{if◌then◌else◌}

module _ {ℓ} {A : Type ℓ} where
  abbrev pub length : List A → ℕ
  length [] = 0
  length (x ∷ xs) = suc (length xs)

  abbrev pub drop : ℕ → List A → List A
  drop zero xs = xs
  drop (suc n) [] = []
  drop (suc n) (x ∷ xs) = drop n xs

  abbrev pub any_of : (A → Bool) → List A → Bool
  any_of p [] = false
  any_of p (x ∷ xs) = p x || any_of p xs

  abbrev pub all_of : (A → Bool) → List A → Bool
  all_of p [] = true
  all_of p (x ∷ xs) = p x && all_of p xs

  abbrev pub keep : (A → Bool) → List A → List A
  keep p [] = []
  keep p (x ∷ xs) = let rest = keep p xs in if p x then x ∷ rest else rest

  abbrev pub count_of : (A → Bool) → List A → ℕ
  count_of p [] = 0
  count_of p (x ∷ xs) = let rest = count_of p xs in if p x then suc rest else rest

  abbrev pub All {κ} : (A → Type κ) → List A → Type κ
  All P [] = Unit
  All P (x ∷ xs) = P x × All P xs

module _ {ℓ} {A : Type ℓ} where
  pub length-append : (xs ys : List A) → length (xs ++ ys) ≡ length xs + length ys
  length-append [] ys = omega arith
  length-append (x ∷ xs) ys = omega (arith, length-append xs ys)

  pub length-drop : (n : ℕ) (xs : List A) → length (drop n xs) ≡ length xs - n
  length-drop zero xs = omega arith
  length-drop (suc n) [] = omega arith
  length-drop (suc n) (x ∷ xs) = omega (arith, length-drop n xs)

  pub All-append {κ} : (P : A → Type κ) (xs ys : List A) → All P xs → All P ys → All P (xs ++ ys)
  All-append P [] ys h k = k
  All-append P (x ∷ xs) ys (p, h) k = (p, All-append P xs ys h k)

  pub All-append_left {κ} : (P : A → Type κ) (xs ys : List A) → All P (xs ++ ys) → All P xs
  All-append_left P [] ys h = tt
  All-append_left P (x ∷ xs) ys (p, h) = (p, All-append_left P xs ys h)

  pub All-drop {κ} : (P : A → Type κ) (n : ℕ) (xs : List A) → All P xs → All P (drop n xs)
  All-drop P zero xs h = h
  All-drop P (suc n) [] h = h
  All-drop P (suc n) (x ∷ xs) (p, h) = All-drop P n xs h

  pub All-keep {κ} : (P : A → Type κ) (p : A → Bool) (xs : List A) → All P xs → All P (keep p xs)
  All-keep P p [] h = h
  All-keep P p (x ∷ xs) (q, h) = ground (arith, All-keep P p xs h)

-- Two lists of one length whose entries at each place are related.
module _ {ℓ} {A : Type ℓ} where
  abbrev pub Zip : (A → A → Type 0) → List A → List A → Type 0
  Zip R [] [] = Unit
  Zip R [] (y ∷ ys) = ⊥
  Zip R (x ∷ xs) [] = ⊥
  Zip R (x ∷ xs) (y ∷ ys) = R x y × Zip R xs ys

  pub Zip-append :
      (R : A → A → Type 0) (xs ys us vs : List A)
      → Zip R xs us
      → Zip R ys vs
      → Zip R (xs ++ ys) (us ++ vs)
  Zip-append R [] ys [] vs h k = k
  Zip-append R [] ys (u ∷ us) vs h k = absurd h
  Zip-append R (x ∷ xs) ys [] vs h k = absurd h
  Zip-append R (x ∷ xs) ys (u ∷ us) vs (r, h) k = (r, Zip-append R xs ys us vs h k)

  pub Zip-refl : (R : A → A → Type 0) → ((a : A) → R a a) → (xs : List A) → Zip R xs xs
  Zip-refl R same [] = tt
  Zip-refl R same (x ∷ xs) = (same x, Zip-refl R same xs)

  pub Zip-map :
      (R S : A → A → Type 0)
      → ((x y : A) → R x y → S x y)
      → (xs ys : List A) → Zip R xs ys
      → Zip S xs ys
  Zip-map R S f [] [] h = tt
  Zip-map R S f [] (y ∷ ys) h = h
  Zip-map R S f (x ∷ xs) [] h = h
  Zip-map R S f (x ∷ xs) (y ∷ ys) (r, h) = (f x y r, Zip-map R S f xs ys h)
