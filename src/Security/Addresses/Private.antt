-- ===== src/Security/Addresses/Private.antt =====
-- Which addresses are in a network, and which are private.
use idm_mw.Prelude.{
  ℕ, ◌+◌, ◌*◌, ◌-◌, ◌/◌, ◌^◌, ◌<◌, ◌≡◌, refl, ap, ◌∙◌, String, ◌==◌, Bool, true, false, ◌&&◌, ◌||◌,
  Option, none, some, List, [], ◌∷◌, eqb, leb, split_on, to_lower, eq_iff, arith, inl, inr,
  Bool-cases,
}
use idm_mw.Json.{Number, int, pos}
use idm_mw.Security.Addresses.{
  combine, octet, of_parts, ipv4_to_int, matches_prefix, ipv4_matches_cidr, normalize_ip,
  in_private_range, is_private_or_local_address,
}
use idm_mw.Security.Addresses.Masks.{same_network_lem}

-- The value, where there is one, has 32 bits.
abbrev IsWord : Option ℕ → Type 0
IsWord none = Unit
IsWord (some a) = a < 2 ^ 32

combine-IsWord : (a b c d : Option ℕ) → IsWord (combine a b c d)
combine-IsWord (some a) (some b) (some c) (some d) = omega arith
combine-IsWord none b c d = tt
combine-IsWord (some a) none c d = tt
combine-IsWord (some a) (some b) none d = tt
combine-IsWord (some a) (some b) (some c) none = tt

ipv4_to_int-IsWord : (ip : String) → IsWord (ipv4_to_int ip)
unfolding ipv4_to_int
ipv4_to_int-IsWord ip = of_list (split_on b'.' ip)
  where
    of_list : (parts : List String) → IsWord (of_parts parts)
    of_list [] = tt
    of_list (a ∷ []) = tt
    of_list (a ∷ b ∷ []) = tt
    of_list (a ∷ b ∷ c ∷ []) = tt
    of_list (a ∷ b ∷ c ∷ d ∷ []) = combine-IsWord (octet a) (octet b) (octet c) (octet d)
    of_list (a ∷ b ∷ c ∷ d ∷ e ∷ rest) = tt

matches_prefix_lem :
    (n a b : ℕ)
    → a < 2 ^ 32
    → b < 2 ^ 32
    → matches_prefix (int (pos n)) (some a) (some b)
      ≡ (leb n 32 && eqb (a / 2 ^ (32 - n)) (b / 2 ^ (32 - n)))
matches_prefix_lem n a b lt lt' = elim (Bool-cases (leb n 32)) [
  | inl fits ↦ rw fits (same_network_lem n a b (ground (arith, fits)) lt lt')
  | inr beyond ↦ rw beyond
]

-- An address is in the network `base/text` exactly if `text` reads as a prefix of at most 32 and the
-- first so many bits of the two addresses are the same number. The conditions: both are IPv4
-- addresses, and `text` reads as a natural number.
pub ipv4_matches_cidr_lem :
    (number_of_text : String → Number) (ip cidr base text : String) (a b n : ℕ)
    → split_on b'/' cidr ≡ base ∷ text ∷ []
    → number_of_text text ≡ int (pos n)
    → ipv4_to_int ip ≡ some a
    → ipv4_to_int base ≡ some b
    → ipv4_matches_cidr number_of_text ip cidr
      ≡ (leb n 32 && eqb (a / 2 ^ (32 - n)) (b / 2 ^ (32 - n)))
unfolding ipv4_matches_cidr
ipv4_matches_cidr_lem number_of_text ip cidr base text a b n parts prefix is_a is_b =
    rw (parts, prefix, is_a, is_b)
      (matches_prefix_lem n a b (rw is_a at (ipv4_to_int-IsWord ip))
        (rw is_b at (ipv4_to_int-IsWord base)))

-- JavaScript's Number on the prefixes that the source writes out.
pub record ReadsPrefixes (number_of_text : String → Number) : Type 0 where
  pub eight : number_of_text "8" ≡ int (pos 8)
  pub twelve : number_of_text "12" ≡ int (pos 12)
  pub sixteen : number_of_text "16" ≡ int (pos 16)

-- The first bits of the private and local networks: 10, 172.16 to 172.31, 192.168, 127, 169.254, 0,
-- and the broadcast address.
abbrev pub is_private_word : ℕ → Bool
is_private_word a =
    eqb (a / 2 ^ 24) 10
    || (eqb (a / 2 ^ 20) (172 * 16 + 1)
        || (eqb (a / 2 ^ 16) (192 * 256 + 168)
            || (eqb (a / 2 ^ 24) 127
                || (eqb (a / 2 ^ 16) (169 * 256 + 254)
                    || (eqb (a / 2 ^ 24) 0 || eqb a (2 ^ 32 - 1))))))

no_address : (ipv4_to_int "" ≡ none) × (ipv4_to_int "localhost" ≡ none) × (ipv4_to_int "::1" ≡ none)
unfolding ipv4_to_int
no_address = (refl, refl, refl)

module _ (number_of_text : String → Number) (reads : ReadsPrefixes number_of_text) (host : String)
    (a : ℕ) (is_a : ipv4_to_int host ≡ some a) where
  in_network :
      (cidr base text : String) (b n : ℕ)
      → split_on b'/' cidr ≡ base ∷ text ∷ []
      → number_of_text text ≡ int (pos n)
      → ipv4_to_int base ≡ some b
      → leb n 32 ≡ true
      → ipv4_matches_cidr number_of_text host cidr ≡ eqb (a / 2 ^ (32 - n)) (b / 2 ^ (32 - n))
  in_network cidr base text b n parts prefix is_b fits =
      ipv4_matches_cidr_lem number_of_text host cidr base text a b n parts prefix is_a is_b
      ∙ ap (λ f. f && eqb (a / 2 ^ (32 - n)) (b / 2 ^ (32 - n))) fits

  in_private_range_lem : in_private_range number_of_text host (some a) ≡ is_private_word a
  unfolding ipv4_to_int split_on
  in_private_range_lem =
      rw
        (
          in_network "10.0.0.0/8" "10.0.0.0" "8" 167772160 8 refl reads.eight refl refl,
          in_network "172.16.0.0/12" "172.16.0.0" "12" 2886729728 12 refl reads.twelve refl refl,
          in_network "192.168.0.0/16" "192.168.0.0" "16" 3232235520 16 refl reads.sixteen refl refl,
          in_network "127.0.0.0/8" "127.0.0.0" "8" 2130706432 8 refl reads.eight refl refl,
          in_network "169.254.0.0/16" "169.254.0.0" "16" 2851995648 16 refl reads.sixteen refl refl,
          in_network "0.0.0.0/8" "0.0.0.0" "8" 0 8 refl reads.eight refl refl,
        )
        refl

  not_named : (s : String) → ipv4_to_int s ≡ none → (host == s) ≡ false
  not_named s missing = elim (Bool-cases (host == s)) [
    | inl same ↦ absurd (cc (is_a, missing, ap ipv4_to_int ((eq_iff host s).0 same)))
    | inr other ↦ other
  ]

-- A host given by an IPv4 address, in capitals or with spaces or an IPv4-mapped prefix as it may be, is
-- private or local exactly if its bits say so. The condition: Number reads the prefixes 8, 12 and 16.
pub is_private_or_local_address_lem :
    (number_of_text : String → Number) (hostname host : String) (a : ℕ)
    → ReadsPrefixes number_of_text
    → normalize_ip (to_lower hostname) ≡ some host
    → ipv4_to_int host ≡ some a
    → is_private_or_local_address number_of_text hostname ≡ is_private_word a
unfolding is_private_or_local_address
is_private_or_local_address_lem number_of_text hostname host a reads normal is_a =
    let (empty, localhost, loopback) = no_address in
    rw
      (
        normal,
        not_named number_of_text reads host a is_a "" empty,
        not_named number_of_text reads host a is_a "localhost" localhost,
        not_named number_of_text reads host a is_a "::1" loopback,
        is_a,
      )
      (in_private_range_lem number_of_text reads host a is_a)
