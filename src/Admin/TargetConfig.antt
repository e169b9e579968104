-- ===== src/Admin/TargetConfig.antt =====
-- admin/target-system.service.ts: the checks of a target system's configuration.
use idm_mw.Prelude.{
  String, ◌==◌, Bool, true, false, not, ◌&&◌, Option, none, some, List, [], ◌∷◌, trim, to_lower,
  includes, concat, if◌then◌else◌,
}
use idm_mw.Json.{Json, null, bool, num, str, arr, obj, Fields, get_field, is_finite}
use idm_mw.Effects.{Thrown, http, Result, ok, throw}
use idm_mw.Effects.Results.{◌>>◌}

-- BadRequestException
abbrev pub bad_request : String → Thrown
bad_request message = http 400 message

-- Missing, null and the empty text pass; a text of the list passes; all else is refused.
abbrev pub check_choice : List String → String → Option Json → Result (Unit {0})
check_choice choices message none = ok tt
check_choice choices message (some null) = ok tt
check_choice choices message (some (str s)) =
    if s == "" then ok tt else (if includes choices s then ok tt else throw (bad_request message))
check_choice choices message (some (bool b)) = throw (bad_request message)
check_choice choices message (some (num n)) = throw (bad_request message)
check_choice choices message (some (arr vs)) = throw (bad_request message)
check_choice choices message (some (obj fs)) = throw (bad_request message)

unfoldable pub validate_group_mapping_mode : Option Json → Result (Unit {0})
unfolding includes
validate_group_mapping_mode value =
    check_choice ("id" ∷ "name" ∷ "code" ∷ []) "Invalid groupMappingMode: expected id, name or code"
      value

unfoldable pub validate_linux_group_mapping_target : Option Json → Result (Unit {0})
unfolding includes
validate_linux_group_mapping_target value =
    check_choice ("posix" ∷ "server" ∷ [])
      "Invalid Linux groupMappingTarget: expected posix or server" value

unfoldable pub validate_cmdbuild_group_mode : Option Json → String → Result (Unit {0})
unfolding includes
validate_cmdbuild_group_mode value field_name =
    check_choice ("id" ∷ "name" ∷ [])
      (concat ("Invalid CMDBuild " ∷ field_name ∷ ": expected id or name" ∷ [])) value

-- `value !== undefined && value !== ''`
abbrev pub is_given : Option Json → Bool
is_given none = false
is_given (some (str s)) = not (s == "")
is_given (some _) = true

-- `find` over the names of the common settings.
unfoldable pub first_given : Fields → List String → Option String
first_given config [] = none
first_given config (name ∷ names) =
    if is_given (get_field config name) then some name else first_given config names

abbrev pub common_fields : List String
common_fields =
    "groupMappingEnabled" ∷ "groupMappingMode" ∷ "groupMappingTarget" ∷ "defaultGroups" ∷ []

abbrev pub refuse_common : Option String → Result (Unit {0})
refuse_common none = ok tt
refuse_common (some name) = throw (
    bad_request (
      concat (
        "CMDBuild " ∷ name ∷ " is not supported; use defaultUserGroup* and incomingGroups* settings"
        ∷ [])))

unfoldable pub reject_cmdbuild_common_group_mapping : Fields → Result (Unit {0})
unfolding first_given
reject_cmdbuild_common_group_mapping config = refuse_common (first_given config common_fields)

unfoldable pub boolean_config : Option Json → Bool
unfolding trim to_lower includes
boolean_config (some (bool b)) = b
boolean_config (some (str s)) = includes ("true" ∷ "1" ∷ "yes" ∷ "on" ∷ []) (to_lower (trim s))
boolean_config _ = false

unfoldable pub non_empty_scalar : Option Json → Bool
unfolding trim
non_empty_scalar (some (num n)) = is_finite n
non_empty_scalar (some (str s)) = not (trim s == "")
non_empty_scalar _ = false

abbrev pub group_aware_types : List String
group_aware_types = "postgres-role" ∷ "mssql-login" ∷ "linux" ∷ "passwork" ∷ []

-- `value !== undefined && !Array.isArray(value)` is refused.
abbrev pub check_default_groups : Option Json → Result (Unit {0})
check_default_groups none = ok tt
check_default_groups (some (arr vs)) = ok tt
check_default_groups (some _) = throw (bad_request "Invalid defaultGroups: expected array")

unfoldable pub validate_common_group_mapping_config : String → Fields → Result (Unit {0})
unfolding includes
validate_common_group_mapping_config type config =
    if includes group_aware_types type
    then (do
      validate_group_mapping_mode (get_field config "groupMappingMode")
      (if type == "linux"
          then validate_linux_group_mapping_target (get_field config "groupMappingTarget")
          else ok tt)
      check_default_groups (get_field config "defaultGroups"))
    else ok tt

unfoldable pub validate_cmdbuild : Fields → Result (Unit {0})
validate_cmdbuild config = do
  reject_cmdbuild_common_group_mapping config
  validate_cmdbuild_group_mode (get_field config "defaultUserGroupMode") "defaultUserGroupMode"
  validate_cmdbuild_group_mode (get_field config "incomingGroupsMode") "incomingGroupsMode"
  (if boolean_config (get_field config "defaultUserGroupEnabled")
        && not (non_empty_scalar (get_field config "defaultUserGroupValue"))
      then throw (
          bad_request
            "CMDBuild defaultUserGroupValue is required when defaultUserGroupEnabled is true")
      else ok tt)

unfoldable pub validate_target_system_config : String → Fields → Result (Unit {0})
validate_target_system_config type config = do
  validate_common_group_mapping_config type config
  if type == "cmdbuild" then validate_cmdbuild config else ok tt
