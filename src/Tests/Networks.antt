-- ===== src/Tests/Networks.antt =====
-- Addresses and networks.
use idm_mw.Prelude.{
  ◌≡◌, refl, ◌-◌, ◌/◌, ◌^◌, String, ◌==◌, ◌&&◌, eqb, leb, split_on, to_lower, if◌then◌else◌,
}
use idm_mw.Json.{Number, int, pos, nan}
use idm_mw.Security.Addresses.{
  ipv4_to_int, ipv4_matches_cidr, normalize_ip, is_private_or_local_address,
}
use idm_mw.Security.Addresses.Private.{
  is_private_word, ipv4_matches_cidr_lem, is_private_or_local_address_lem,
}

abbrev number_of_text : String → Number
number_of_text s =
    if s == "8"
    then int (pos 8)
    else (if s == "12" then int (pos 12) else (if s == "16" then int (pos 16) else nan))

ipv4_matches_cidr_lem_example :
    ipv4_matches_cidr number_of_text "10.1.2.3" "10.0.0.0/8"
    ≡ (leb 8 32 && eqb (167838211 / 2 ^ (32 - 8)) (167772160 / 2 ^ (32 - 8)))
unfolding ipv4_to_int split_on
ipv4_matches_cidr_lem_example =
    ipv4_matches_cidr_lem number_of_text "10.1.2.3" "10.0.0.0/8" "10.0.0.0" "8" 167838211 167772160
      8 refl refl refl refl

is_private_or_local_address_lem_example :
    is_private_or_local_address number_of_text " ::FFFF:10.1.2.3" ≡ is_private_word 167838211
unfolding ipv4_to_int normalize_ip to_lower
is_private_or_local_address_lem_example =
    is_private_or_local_address_lem number_of_text " ::FFFF:10.1.2.3" "10.1.2.3" 167838211
      (record { eight = refl; twelve = refl; sixteen = refl }) refl refl
