-- ===== src/Admin/FleetChecks.antt =====
-- admin/linux-fleet.service.ts: its checks of profiles, hosts and groups.
use Prim.Native.Char.{code}
use idm_mw.Prelude.{
  ℕ, String, Bool, true, false, not, ◌&&◌, ◌||◌, Option, none, some, [], ◌∷◌, eqb, leb, includes,
  text_length, is_digit,
}
use idm_mw.Effects.{Result, ok, throw}
use idm_mw.Effects.Results.{◌>>◌}
use idm_mw.Admin.TargetConfig.{bad_request}
use idm_mw.Admin.FleetDtos.{CredentialProfileDto, optional_string}

-- `if (!condition) throw new BadRequestException(message)`
abbrev pub demand : Bool → String → Result (Unit {0})
demand true message = ok tt
demand false message = throw (bad_request message)

abbrev pub is_there : Option String → Bool
is_there none = false
is_there (some s) = true

unfoldable pub validate_credential_profile : CredentialProfileDto → Result (Unit {0})
unfolding optional_string includes
validate_credential_profile dto =
    demand (is_there (optional_string (some dto.name))) "Missing name"
    >> demand (includes ("env" ∷ "aapm" ∷ []) dto.mode) "Linux credential mode must be env or aapm"
    >> demand (is_there (optional_string (some dto.username))) "Missing username"
    >> demand
        (is_there (optional_string dto.private_key_ref)
          || is_there (optional_string dto.password_ref))
        "Missing privateKeyRef or passwordRef"

abbrev pub is_port : Option ℕ → Bool
is_port none = true
is_port (some port) = not (eqb port 0)

unfoldable pub validate_host :
    (name host host_fingerprint : String) (port : Option ℕ) → Result (Unit {0})
unfolding optional_string
validate_host name host host_fingerprint port =
    demand (is_there (optional_string (some name))) "Missing name"
    >> demand (is_there (optional_string (some host))) "Missing host"
    >> demand (is_there (optional_string (some host_fingerprint))) "Missing hostFingerprint"
    >> demand (is_port port) "Invalid port"

-- `[A-Za-z0-9_.:-]`
abbrev pub is_code_char : ℕ → Bool
is_code_char c =
    (leb b'A' c && leb c b'Z')
    || (leb b'a' c && leb c b'z')
    || is_digit c
    || eqb c b'_'
    || eqb c b'.'
    || eqb c b':'
    || eqb c b'-'

unfoldable pub has_code_chars : String → Bool
unfolding is_digit
has_code_chars String.[] = true
has_code_chars (String.◌∷◌ c s) = is_code_char (code c) && has_code_chars s

-- `/^[A-Za-z0-9_.:-]{1,96}$/`
unfoldable pub is_group_code : String → Bool
unfolding has_code_chars text_length
is_group_code s = has_code_chars s && (leb 1 (text_length s) && leb (text_length s) 96)

abbrev pub check_code : Option String → Result (Unit {0})
check_code none = throw (bad_request "Missing code")
check_code (some code) = demand (is_group_code code) "Invalid Linux server group code"

unfoldable pub validate_group : (code name : String) → Result (Unit {0})
unfolding optional_string is_group_code
validate_group code name =
    check_code (optional_string (some code))
    >> demand (is_there (optional_string (some name))) "Missing name"
