-- ===== src/Security/Addresses/Masks.antt =====
-- What a network mask compares.
use native.Mathlib.Nat.{pow-succ'}
use idm_mw.Prelude.{
  ℕ, zero, suc, ◌+◌, ◌*◌, ◌-◌, ◌/◌, ◌%◌, ◌^◌, ◌≤◌, ◌<◌, ◌≡◌, refl, sym, ap, ◌∙◌, some, arith, eqb,
  eqb_iff, Bool, true, ◌&&◌, Bool-cases, inl, inr,
}
use idm_mw.Security.Addresses.{bit_and, mask_of, same_network}

half_of_double : (m : ℕ) → (2 * m % 2 ≡ 0) × (2 * m / 2 ≡ m)
half_of_double m = (omega arith, omega arith)

bit_and-double : (bits a m : ℕ) → bit_and (suc bits) a (2 * m) ≡ 2 * bit_and bits (a / 2) m
unfolding bit_and
bit_and-double bits a m = rw ((half_of_double m).0, (half_of_double m).1) (omega arith)

pow_pos : (bits : ℕ) → 1 ≤ 2 ^ bits
pow_pos zero = omega arith
pow_pos (suc bits) = omega (arith, pow-succ' 2 bits, pow_pos bits)

mod_double : (a p : ℕ) → 1 ≤ p → a % (2 * p) ≡ 2 * ((a / 2) % p) + a % 2
mod_double a p h = grind arith

half_of_odd : (p : ℕ) → 1 ≤ p → ((2 * p - 1) % 2 ≡ 1) × ((2 * p - 1) / 2 ≡ p - 1)
half_of_odd p h = (omega arith, omega arith)

bit_and-ones : (bits a : ℕ) → bit_and bits a (2 ^ bits - 1) ≡ a % 2 ^ bits
unfolding bit_and
bit_and-ones zero a = omega arith
bit_and-ones (suc bits) a =
    rw
      (
        pow-succ' 2 bits,
        mod_double a (2 ^ bits) (pow_pos bits),
        (half_of_odd (2 ^ bits) (pow_pos bits)).0,
        (half_of_odd (2 ^ bits) (pow_pos bits)).1,
        bit_and-ones bits (a / 2),
      )
      (omega arith)

div_div : (a p : ℕ) → 1 ≤ p → a / 2 / p ≡ a / (2 * p)
div_div a p h = grind arith

twice : (p m : ℕ) → 2 * p * m ≡ 2 * (p * m)
twice p m = grind arith

bit_and-shifted : (s p a m : ℕ) → bit_and (s + p) a (2 ^ s * m) ≡ 2 ^ s * bit_and p (a / 2 ^ s) m
bit_and-shifted zero p a m =
    ap (λ n. bit_and n a (2 ^ 0 * m)) none_more
    ∙ ap (bit_and p a) one_time
    ∙ sym (one_time_of (bit_and p (a / 2 ^ 0) m) ∙ ap (λ b. bit_and p b m) whole)
  where
    none_more : 0 + p ≡ p
    none_more = omega arith

    one_time : 2 ^ 0 * m ≡ m
    one_time = omega arith

    one_time_of : (n : ℕ) → 2 ^ 0 * n ≡ n
    one_time_of n = omega arith

    whole : a / 2 ^ 0 ≡ a
    whole = omega arith
bit_and-shifted (suc s) p a m =
    ap (λ n. bit_and n a (2 ^ suc s * m)) one_more
    ∙ ap (bit_and (suc (s + p)) a) (ap (λ n. n * m) (pow-succ' 2 s) ∙ twice (2 ^ s) m)
    ∙ bit_and-double (s + p) a (2 ^ s * m)
    ∙ ap (λ n. 2 * n) (bit_and-shifted s p (a / 2) m)
    ∙ sym (twice (2 ^ s) (bit_and p (a / 2 / 2 ^ s) m))
    ∙ ap (λ n. n * bit_and p (a / 2 / 2 ^ s) m) (sym (pow-succ' 2 s))
    ∙ ap (λ b. 2 ^ suc s * bit_and p b m)
        (div_div a (2 ^ s) (pow_pos s) ∙ ap (λ n. a / n) (sym (pow-succ' 2 s)))
  where
    one_more : suc s + p ≡ suc (s + p)
    one_more = omega arith

-- A test on the numbers below a bound.
abbrev all_below : (ℕ → Bool) → ℕ → Bool
all_below test zero = true
all_below test (suc n) = test n && all_below test n

all_below_lem : (test : ℕ → Bool) (n k : ℕ) → all_below test n ≡ true → k < n → test k ≡ true
all_below_lem test zero k h lt = absurd (omega arith)
all_below_lem test (suc n) k h lt = elim (Bool-cases (eqb k n)) [
  | inl last ↦ ap test ((eqb_iff k n).0 last) ∙ ground (arith, h)
  | inr other ↦ all_below_lem test n k (ground (arith, h)) (ground (arith, other))
]

-- The masks of all prefixes but the empty one.
abbrev is_mask : ℕ → Bool
is_mask p =
    eqb (mask_of (p + 1)) (2 ^ (31 - p) * (2 ^ (p + 1) - 1))
    && eqb (2 ^ (31 - p) * 2 ^ (p + 1)) (2 ^ 32)

masks_are_ones : all_below is_mask 32 ≡ true
unfolding mask_of
masks_are_ones = refl

cancelled : (n a : ℕ) → 1 ≤ n → n * a / n ≡ a
cancelled n a h = grind arith

same_scaled : (n a b : ℕ) → 1 ≤ n → eqb (n * a) (n * b) ≡ eqb a b
same_scaled n a b h = elim (Bool-cases (eqb a b)) [
  | inl same ↦ rw ((eqb_iff a b).0 same) (ground arith)
  | inr other ↦ elim (Bool-cases (eqb (n * a) (n * b))) [
    | inl scaled ↦ absurd (
        ground (
          arith,
          other,
          sym (cancelled n a h)
              ∙ ap (λ x. x / n) ((eqb_iff (n * a) (n * b)).0 scaled)
              ∙ cancelled n b h,
        ))
    | inr scaled ↦ rw (other, scaled)
  ]
]

div_lt : (a n m : ℕ) → 1 ≤ n → a < n * m → a / n < m
div_lt a n m h lt = grind arith

mod_of_lt : (a m : ℕ) → a < m → a % m ≡ a
mod_of_lt a m lt = grind arith

module _ (p a : ℕ) (lt : p < 32) (fits : a < 2 ^ 32) where
  mask_of_prefix : mask_of (p + 1) ≡ 2 ^ (31 - p) * (2 ^ (p + 1) - 1)
  mask_of_prefix = (eqb_iff _ _).0 (ground (arith, all_below_lem is_mask 32 p masks_are_ones lt))

  all_bits : 2 ^ (31 - p) * 2 ^ (p + 1) ≡ 2 ^ 32
  all_bits = (eqb_iff _ _).0 (ground (arith, all_below_lem is_mask 32 p masks_are_ones lt))

  -- The bits that a prefix of `p + 1` selects.
  masked : bit_and 32 a (mask_of (p + 1)) ≡ 2 ^ (31 - p) * (a / 2 ^ (31 - p))
  masked =
      ap (bit_and 32 a) mask_of_prefix
      ∙ ap (λ n. bit_and n a (2 ^ (31 - p) * (2 ^ (p + 1) - 1))) bits
      ∙ bit_and-shifted (31 - p) (p + 1) a (2 ^ (p + 1) - 1)
      ∙ ap (λ n. 2 ^ (31 - p) * n)
          (bit_and-ones (p + 1) (a / 2 ^ (31 - p))
            ∙ mod_of_lt _ _
                (div_lt a (2 ^ (31 - p)) (2 ^ (p + 1)) (pow_pos (31 - p)) (rw all_bits fits)))
    where
      bits : 32 ≡ 31 - p + (p + 1)
      bits = omega arith

bit_and-zero : (bits a : ℕ) → bit_and bits a 0 ≡ 0
unfolding bit_and
bit_and-zero zero a = refl
bit_and-zero (suc bits) a = omega (arith, bit_and-zero bits (a / 2))

no_mask : mask_of 0 ≡ 0
unfolding mask_of
no_mask = refl

eqb_of : {x x' y y' : ℕ} → x ≡ x' → y ≡ y' → eqb x y ≡ eqb x' y'
eqb_of e e' = rw (e, e')

-- Under the mask of a prefix, two addresses are in the same network exactly if their first `prefix`
-- bits are the same number.
pub same_network_lem :
    (prefix a b : ℕ)
    → prefix ≤ 32
    → a < 2 ^ 32
    → b < 2 ^ 32
    → same_network (mask_of prefix) (some a) (some b)
      ≡ eqb (a / 2 ^ (32 - prefix)) (b / 2 ^ (32 - prefix))
same_network_lem zero a b h fits fits' = eqb_of (nothing a fits) (nothing b fits')
  where
    nothing : (n : ℕ) → n < 2 ^ 32 → bit_and 32 n (mask_of 0) ≡ n / 2 ^ 32
    nothing n lt = ap (bit_and 32 n) no_mask ∙ bit_and-zero 32 n ∙ omega arith
same_network_lem (suc p) a b h fits fits' =
    eqb_of (selected a fits) (selected b fits')
    ∙ same_scaled (2 ^ (31 - p)) (a / 2 ^ (31 - p)) (b / 2 ^ (31 - p)) (pow_pos (31 - p))
    ∙ eqb_of (ap (λ n. a / 2 ^ n) rest_bits) (ap (λ n. b / 2 ^ n) rest_bits)
  where
    one_more : suc p ≡ p + 1
    one_more = omega arith

    rest_bits : 31 - p ≡ 32 - suc p
    rest_bits = omega arith

    selected :
        (n : ℕ) → n < 2 ^ 32 → bit_and 32 n (mask_of (suc p)) ≡ 2 ^ (31 - p) * (n / 2 ^ (31 - p))
    selected n lt = ap (λ k. bit_and 32 n (mask_of k)) one_more ∙ masked p n (omega arith) lt
