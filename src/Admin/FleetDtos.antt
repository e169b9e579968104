-- ===== src/Admin/FleetDtos.antt =====
-- admin/linux-fleet.service.ts: what it reads from the body of a request.
use idm_mw.Prelude.{ℕ, String, ◌==◌, Bool, Option, none, some, trim, if◌then◌else◌}
use idm_mw.Json.{Json, Number, null, bool, num, str, obj, Fields, end, get_field, positive_int}

abbrev pub or_undefined : Option String → Option String → Option String
or_undefined (some s) other = some s
or_undefined none other = other

abbrev pub trimmed : String → Option String
trimmed s = let t = trim s in if t == "" then none else some t

-- `optionalText` on a value that is a text if it is there.
unfoldable pub optional_string : Option String → Option String
unfolding trim
optional_string none = none
optional_string (some s) = trimmed s

unfoldable pub optional_text : Option Json → Option String
unfolding trim
optional_text (some (str s)) = trimmed s
optional_text _ = none

-- `asRecord`
abbrev pub as_record : Option Json → Fields
as_record (some (obj fs)) = fs
as_record _ = end

abbrev pub boolean : Option Json → Option Bool
boolean (some (bool b)) = some b
boolean _ = none

abbrev pub secret_mode : Option Json → String
secret_mode (some (str s)) = if s == "aapm" then "aapm" else "env"
secret_mode _ = "env"

-- The value for a key that is there.
abbrev pub when_there {ℓ} : {A : Type ℓ} → (Option Json → A) → Option Json → Option A
when_there read none = none
when_there read (some v) = some (read (some v))

abbrev pub flatten {ℓ} : {A : Type ℓ} → Option (Option A) → Option A
flatten none = none
flatten (some v) = v

pub record CredentialProfileDto : Type 0 where
  pub name : String
  pub mode : String
  pub username : String
  pub private_key_ref : Option String
  pub password_ref : Option String
  pub enabled : Option Bool

pub record PartialCredentialProfileDto : Type 0 where
  pub name : Option String
  pub mode : Option String
  pub username : Option String
  pub private_key_ref : Option String
  pub password_ref : Option String
  pub enabled : Option Bool

pub record HostDto : Type 0 where
  pub name : String
  pub host : String
  pub port : Option ℕ
  pub host_fingerprint : String
  pub credential_profile_id : Option String
  pub enabled : Option Bool
  pub metadata : Fields

-- `credentialProfileId` is undefined, null or a text.
pub record PartialHostDto : Type 0 where
  pub name : Option String
  pub host : Option String
  pub port : Option ℕ
  pub host_fingerprint : Option String
  pub credential_profile_id : Option (Option String)
  pub enabled : Option Bool
  pub metadata : Option Fields

-- An undefined `description` and null have the same effect on a new group: `none` is both.
pub record ServerGroupDto : Type 0 where
  pub code : String
  pub name : String
  pub description : Option String
  pub enabled : Option Bool

-- `description` is undefined, null or a text.
pub record PartialServerGroupDto : Type 0 where
  pub code : Option String
  pub name : Option String
  pub description : Option (Option String)
  pub enabled : Option Bool

-- A description that is sent: null, undefined where it is blank or no text, or a text.
abbrev pub given_text : Option String → Option (Option String)
given_text none = none
given_text (some s) = some (some s)

unfoldable pub partial_description : Option Json → Option (Option String)
unfolding optional_text
partial_description (some null) = some none
partial_description v = given_text (optional_text v)

abbrev pub text_value : Option Json → Option String
text_value (some (str s)) = some s
text_value _ = none

-- JavaScript's String and Number of a value that is no text and no number, respectively.
module _ (show : Json → String) (to_number : Json → Number) where
  -- `String(value ?? '')`
  abbrev pub as_text : Option Json → String
  as_text none = ""
  as_text (some null) = ""
  as_text (some (str s)) = s
  as_text (some v) = show v

  -- `optionalPositiveInteger`
  abbrev pub optional_positive_integer : Option Json → Option ℕ
  optional_positive_integer none = none
  optional_positive_integer (some (num n)) = positive_int n
  optional_positive_integer (some v) = positive_int (to_number v)

  unfoldable pub credential_profile_dto : Fields → CredentialProfileDto
  unfolding optional_text
  credential_profile_dto body = record {
    name = as_text (get_field body "name");
    mode = secret_mode (get_field body "mode");
    username = as_text (get_field body "username");
    private_key_ref = optional_text (get_field body "privateKeyRef");
    password_ref = optional_text (get_field body "passwordRef");
    enabled = boolean (get_field body "enabled");
  }

  unfoldable pub partial_credential_profile_dto : Fields → PartialCredentialProfileDto
  unfolding optional_text
  partial_credential_profile_dto body = record {
    name = when_there as_text (get_field body "name");
    mode = when_there secret_mode (get_field body "mode");
    username = when_there as_text (get_field body "username");
    private_key_ref = optional_text (get_field body "privateKeyRef");
    password_ref = optional_text (get_field body "passwordRef");
    enabled = boolean (get_field body "enabled");
  }

  unfoldable pub host_dto : Fields → HostDto
  host_dto body = record {
    name = as_text (get_field body "name");
    host = as_text (get_field body "host");
    port = optional_positive_integer (get_field body "port");
    host_fingerprint = as_text (get_field body "hostFingerprint");
    credential_profile_id = text_value (get_field body "credentialProfileId");
    enabled = boolean (get_field body "enabled");
    metadata = as_record (get_field body "metadata");
  }

  unfoldable pub partial_host_dto : Fields → PartialHostDto
  partial_host_dto body = record {
    name = when_there as_text (get_field body "name");
    host = when_there as_text (get_field body "host");
    port = optional_positive_integer (get_field body "port");
    host_fingerprint = when_there as_text (get_field body "hostFingerprint");
    credential_profile_id = when_there text_value (get_field body "credentialProfileId");
    enabled = boolean (get_field body "enabled");
    metadata = when_there as_record (get_field body "metadata");
  }

  unfoldable pub server_group_dto : Fields → ServerGroupDto
  unfolding optional_text
  server_group_dto body = record {
    code = as_text (get_field body "code");
    name = as_text (get_field body "name");
    description = optional_text (get_field body "description");
    enabled = boolean (get_field body "enabled");
  }

  unfoldable pub partial_server_group_dto : Fields → PartialServerGroupDto
  unfolding partial_description
  partial_server_group_dto body = record {
    code = when_there as_text (get_field body "code");
    name = when_there as_text (get_field body "name");
    description = partial_description (get_field body "description");
    enabled = boolean (get_field body "enabled");
  }
