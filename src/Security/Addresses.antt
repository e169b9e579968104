-- ===== src/Security/Addresses.antt =====
-- security/ip-utils.ts: allowlists of addresses, and which hosts are private. `isIP` of Node for
-- version 4 is four decimal numbers up to 255 without leading zeros.
pub mod Masks
pub mod Private
use Prim.Native.Char.{code}
use Prim.Native.String
use idm_mw.Prelude.{
  ℕ, zero, suc, ◌+◌, ◌*◌, ◌-◌, ◌/◌, ◌%◌, ◌^◌, String, ◌==◌, Bool, true, false, ◌&&◌, ◌||◌, not,
  Option, none, some, List, [], ◌∷◌, any_of, eqb, leb, ltb, trim, to_lower, split_on, is_digit,
  includes, if◌then◌else◌,
}
use idm_mw.Json.{Number, int, pos}

-- `trimmed.slice(prefix.length)` where the text starts with it.
unfoldable pub strip_prefix : String → String → Option String
strip_prefix String.[] s = some s
strip_prefix (String.◌∷◌ p ps) String.[] = none
strip_prefix (String.◌∷◌ p ps) (String.◌∷◌ c s) =
    let rest = strip_prefix ps s in if eqb (code p) (code c) then rest else none

abbrev unmapped : String → Option String → String
unmapped trimmed none = trimmed
unmapped trimmed (some rest) = rest

unfoldable pub normalize_ip : String → Option String
unfolding trim strip_prefix
normalize_ip value =
    let trimmed = trim value in
    if trimmed == "" then none else some (unmapped trimmed (strip_prefix "::ffff:" trimmed))

-- The value of a text of decimal digits.
unfoldable pub decimal_from : ℕ → String → Option ℕ
unfolding is_digit
decimal_from n String.[] = some n
decimal_from n (String.◌∷◌ c s) =
    let rest = decimal_from (n * 10 + (code c - b'0')) s in if is_digit (code c) then rest else none

abbrev up_to_255 : Option ℕ → Option ℕ
up_to_255 none = none
up_to_255 (some n) = if leb n 255 then some n else none

-- One part of an address; "0" alone may start with a zero.
unfoldable pub octet : String → Option ℕ
unfolding decimal_from
octet String.[] = none
octet (String.◌∷◌ c s) =
    if eqb (code c) b'0' && not (s == "") then none else up_to_255 (decimal_from 0 (String.◌∷◌ c s))

abbrev pub combine : Option ℕ → Option ℕ → Option ℕ → Option ℕ → Option ℕ
combine (some a) (some b) (some c) (some d) =
    some ((a * 2 ^ 24 + b * 2 ^ 16 + c * 2 ^ 8 + d) % 2 ^ 32)
combine _ _ _ _ = none

abbrev of_parts : List String → Option ℕ
of_parts (a ∷ b ∷ c ∷ d ∷ []) = combine (octet a) (octet b) (octet c) (octet d)
of_parts _ = none

unfoldable pub ipv4_to_int : String → Option ℕ
unfolding octet split_on
ipv4_to_int ip = of_parts (split_on b'.' ip)

-- `&` on numbers of that many bits.
unfoldable pub bit_and : ℕ → ℕ → ℕ → ℕ
bit_and zero a b = 0
bit_and (suc bits) a b = (a % 2) * (b % 2) + 2 * bit_and bits (a / 2) (b / 2)

-- `prefix === 0 ? 0 : (0xffffffff << (32 - prefix)) >>> 0`
unfoldable pub mask_of : ℕ → ℕ
mask_of prefix = if eqb prefix 0 then 0 else ((2 ^ 32 - 1) * 2 ^ (32 - prefix)) % 2 ^ 32

abbrev pub same_network : ℕ → Option ℕ → Option ℕ → Bool
same_network mask (some ip) (some base) = eqb (bit_and 32 ip mask) (bit_and 32 base mask)
same_network mask _ _ = false

-- An integer between 0 and 32.
abbrev pub matches_prefix : Number → Option ℕ → Option ℕ → Bool
matches_prefix (int (pos n)) ip base = if leb n 32 then same_network (mask_of n) ip base else false
matches_prefix _ ip base = false

unfoldable pub has_slash : String → Bool
has_slash String.[] = false
has_slash (String.◌∷◌ c s) = eqb (code c) b'/' || has_slash s

-- `number_of_text` is JavaScript's Number on a text.
module _ (number_of_text : String → Number) where
  -- `[base, prefixText] = cidr.split('/')`
  abbrev pub matches_parts : Option ℕ → List String → Bool
  matches_parts ip [] = false
  matches_parts ip (base ∷ []) = matches_prefix (int (pos 32)) ip (ipv4_to_int base)
  matches_parts ip (base ∷ text ∷ rest) = matches_prefix (number_of_text text) ip (ipv4_to_int base)

  unfoldable pub ipv4_matches_cidr : String → String → Bool
  unfolding ipv4_to_int bit_and mask_of split_on
  ipv4_matches_cidr ip cidr = matches_parts (ipv4_to_int ip) (split_on b'/' cidr)

  abbrev matches_entry : String → Option String → Bool
  matches_entry ip none = false
  matches_entry ip (some candidate) =
      if has_slash candidate then ipv4_matches_cidr ip candidate else ip == candidate

  abbrev allowed_ip : Option String → List String → Bool
  allowed_ip none allowlist = false
  allowed_ip (some ip) allowlist =
      if ip == "" then false else any_of (λ entry. matches_entry ip (entry_of entry)) allowlist
    where
      entry_of : String → Option String
      entry_of entry = elim (normalize_ip entry) [
        | none ↦ none
        | some candidate ↦ if candidate == "" then none else some candidate
      ]

  -- The remote address may be missing.
  unfoldable pub is_ip_allowed : Option String → List String → Bool
  unfolding normalize_ip ipv4_matches_cidr has_slash
  is_ip_allowed none allowlist = false
  is_ip_allowed (some remote_address) allowlist = allowed_ip (normalize_ip remote_address) allowlist

  abbrev pub in_private_range : String → Option ℕ → Bool
  in_private_range host none = false
  in_private_range host (some ip) =
      ipv4_matches_cidr host "10.0.0.0/8"
      || (ipv4_matches_cidr host "172.16.0.0/12"
          || (ipv4_matches_cidr host "192.168.0.0/16"
              || (ipv4_matches_cidr host "127.0.0.0/8"
                  || (ipv4_matches_cidr host "169.254.0.0/16"
                      || (ipv4_matches_cidr host "0.0.0.0/8" || eqb ip (2 ^ 32 - 1))))))

  abbrev pub is_private_host : Option String → Bool
  is_private_host none = false
  is_private_host (some host) =
      if host == ""
      then false
      else (if host == "localhost" || host == "::1"
          then true
          else in_private_range host (ipv4_to_int host))

  unfoldable pub is_private_or_local_address : String → Bool
  unfolding normalize_ip ipv4_matches_cidr ipv4_to_int to_lower
  is_private_or_local_address hostname = is_private_host (normalize_ip (to_lower hostname))
