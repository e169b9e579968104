-- ===== src/Admin/Fleet.antt =====
-- admin/linux-fleet.service.ts: the service. The tables of the fleet are the environment of the state,
-- which the connector to Linux hosts reads.
pub mod Tables
pub mod Counted
pub mod Fits
pub mod Rules
pub mod Writes
pub mod Sound
use idm_mw.Prelude.{
  ℕ, String, ◌==◌, Bool, true, false, not, ◌&&◌, ◌||◌, Option, none, some, List, [], ◌∷◌, map, eqb,
  keep, drop, min, max, any_of, count_of, length, includes, or_else, trim, truthy, if◌then◌else◌,
}
use mathlib.Core.Option
use idm_mw.Json.{Json, Number, int, pos, null, bool, num, str, obj, Fields, end, field}
use idm_mw.Effects.{Thrown, http, Result, ok, throw, Exec, pure, raise, gets, modify, ◌>>=◌, ◌>>◌}
use idm_mw.Effects.Results.{lift}
use idm_mw.Core.World.{World, TargetSystem, external}
use idm_mw.Security.Redaction.{redact_secrets}
use idm_mw.Admin.Rbac.{distinct}
use idm_mw.Admin.TargetConfig.{bad_request}
use idm_mw.Admin.TargetRows.{find_id, enabled_fits}
use idm_mw.Admin.FleetRows.{
  LinuxCredentialProfile, LinuxHost, LinuxServerGroup, LinuxServerGroupHost, Fleet, Table,
  profile_table, host_table, group_table, find_in, is_listed, has_id, insert_into, update_in,
  delete_if, drop_profile, drop_host, drop_group, set_members,
}
use idm_mw.Admin.FleetDtos.{
  CredentialProfileDto, PartialCredentialProfileDto, HostDto, PartialHostDto, ServerGroupDto,
  PartialServerGroupDto, optional_string, or_undefined, flatten, credential_profile_dto,
  partial_credential_profile_dto, host_dto, partial_host_dto, server_group_dto,
  partial_server_group_dto,
}
use idm_mw.Admin.FleetChecks.{validate_credential_profile, validate_host, validate_group}
use idm_mw.Admin.FleetGuards.{
  missing, or_missing, check_linux, require_linux_target_system, require_credential_profile,
  require_if_given, text_or_null, profile_fields, shown_profile, target_system_id_for,
}

-- The profile as it would be after the update, for the checks.
abbrev pub merged_profile :
    PartialCredentialProfileDto → LinuxCredentialProfile → CredentialProfileDto
merged_profile dto current = record {
  name = or_else dto.name current.name;
  mode = or_else dto.mode (if current.mode == "aapm" then "aapm" else "env");
  username = or_else dto.username current.username;
  private_key_ref = or_undefined dto.private_key_ref current.private_key_ref;
  password_ref = or_undefined dto.password_ref current.password_ref;
  enabled = some (or_else dto.enabled current.enabled);
}

abbrev pub changed_profile :
    PartialCredentialProfileDto → LinuxCredentialProfile → LinuxCredentialProfile
changed_profile dto r = record {
  id = r.id;
  target_system_id = r.target_system_id;
  name = or_else (Option.map trim dto.name) r.name;
  mode = or_else dto.mode r.mode;
  username = or_else (Option.map trim dto.username) r.username;
  private_key_ref = or_undefined (optional_string dto.private_key_ref) r.private_key_ref;
  password_ref = or_undefined (optional_string dto.password_ref) r.password_ref;
  enabled = or_else dto.enabled r.enabled;
}

abbrev pub next_profile_id : Option (Option String) → Option String → Option String
next_profile_id none current = current
next_profile_id (some given) current = truthy given

abbrev pub changed_host : PartialHostDto → LinuxHost → LinuxHost
changed_host dto r = record {
  id = r.id;
  target_system_id = r.target_system_id;
  credential_profile_id = next_profile_id dto.credential_profile_id r.credential_profile_id;
  name = or_else (Option.map trim dto.name) r.name;
  host = or_else (Option.map trim dto.host) r.host;
  port = or_else dto.port r.port;
  host_fingerprint = or_else (Option.map trim dto.host_fingerprint) r.host_fingerprint;
  enabled = or_else dto.enabled r.enabled;
  metadata = or_else (Option.map (λ (fs : Fields). ok (obj fs)) dto.metadata) r.metadata;
}

-- A description that is null is undefined for the update.
abbrev pub changed_group : PartialServerGroupDto → LinuxServerGroup → LinuxServerGroup
changed_group dto r = record {
  id = r.id;
  target_system_id = r.target_system_id;
  code = or_else (Option.map trim dto.code) r.code;
  name = or_else (Option.map trim dto.name) r.name;
  description = or_undefined (optional_string (flatten dto.description)) r.description;
  enabled = or_else dto.enabled r.enabled;
}

module _ (uuid : ℕ → String) (show : Json → String) (to_number : Json → Number) where
  unfoldable pub create_credential_profile : ℕ → Fields → Exec (World Fleet) Json
  unfolding trim optional_string
  create_credential_profile target body = do
    let dto = credential_profile_dto show to_number body
    require_linux_target_system target
    lift (validate_credential_profile dto)
    item ← external (
        insert_into profile_table uuid (λ id. record {
          id = id;
          target_system_id = target;
          name = trim dto.name;
          mode = dto.mode;
          username = trim dto.username;
          private_key_ref = optional_string dto.private_key_ref;
          password_ref = optional_string dto.password_ref;
          enabled = or_else dto.enabled true;
        }))
    pure (shown_profile item)

  unfoldable pub update_credential_profile : String → Fields → Exec (World Fleet) Json
  unfolding trim optional_string
  update_credential_profile id body = do
    found ← external (gets (λ w. find_in profile_table id w.env.profiles))
    current ← or_missing "Linux credential profile not found" found
    let dto = partial_credential_profile_dto show to_number body
    lift (validate_credential_profile (merged_profile dto current))
    item ← external (update_in profile_table id (changed_profile dto))
    pure (shown_profile item)

  -- `id || null`
  unfoldable pub create_host : ℕ → Fields → Exec (World Fleet) LinuxHost
  unfolding trim
  create_host target body = do
    let dto = host_dto show to_number body
    require_linux_target_system target
    lift (validate_host dto.name dto.host dto.host_fingerprint dto.port)
    require_if_given target (truthy dto.credential_profile_id)
    external (
        insert_into host_table uuid (λ id. record {
          id = id;
          target_system_id = target;
          credential_profile_id = truthy dto.credential_profile_id;
          name = trim dto.name;
          host = trim dto.host;
          port = or_else dto.port 22;
          host_fingerprint = trim dto.host_fingerprint;
          enabled = or_else dto.enabled true;
          metadata = ok (obj dto.metadata);
        }))

  unfoldable pub update_host : String → Fields → Exec (World Fleet) LinuxHost
  unfolding trim
  update_host id body = do
    found ← external (gets (λ w. find_in host_table id w.env.hosts))
    current ← or_missing "Linux host not found" found
    let dto = partial_host_dto show to_number body
    lift (
        validate_host (or_else dto.name current.name) (or_else dto.host current.host)
          (or_else dto.host_fingerprint current.host_fingerprint)
          (some (or_else dto.port current.port)))
    require_if_given current.target_system_id (truthy (flatten dto.credential_profile_id))
    external (update_in host_table id (changed_host dto))

  unfoldable pub create_group : ℕ → Fields → Exec (World Fleet) LinuxServerGroup
  unfolding trim optional_string
  create_group target body = do
    let dto = server_group_dto show to_number body
    require_linux_target_system target
    lift (validate_group dto.code dto.name)
    external (
        insert_into group_table uuid (λ id. record {
          id = id;
          target_system_id = target;
          code = trim dto.code;
          name = trim dto.name;
          description = optional_string dto.description;
          enabled = or_else dto.enabled true;
        }))

  unfoldable pub update_group : String → Fields → Exec (World Fleet) LinuxServerGroup
  unfolding trim optional_string
  update_group id body = do
    found ← external (gets (λ w. find_in group_table id w.env.groups))
    current ← or_missing "Linux server group not found" found
    let dto = partial_server_group_dto show to_number body
    lift (validate_group (or_else dto.code current.code) (or_else dto.name current.name))
    external (update_in group_table id (changed_group dto))

unfoldable pub delete_credential_profile : String → Exec (World Fleet) (Unit {0})
delete_credential_profile id =
    external (λ w. delete_if (has_id profile_table id w.env.profiles) (drop_profile id) w)

unfoldable pub delete_host : String → Exec (World Fleet) (Unit {0})
delete_host id = external (λ w. delete_if (has_id host_table id w.env.hosts) (drop_host id) w)

unfoldable pub delete_group : String → Exec (World Fleet) (Unit {0})
delete_group id = external (λ w. delete_if (has_id group_table id w.env.groups) (drop_group id) w)

-- How many of the hosts with these ids are in the target system.
abbrev pub count_listed : ℕ → List String → List LinuxHost → ℕ
count_listed target ids hosts =
    count_of (λ (h : LinuxHost). includes ids h.id && eqb h.target_system_id target) hosts

-- The unique ids of the hosts.
unfoldable pub set_group_hosts : String → List String → Exec (World Fleet) (List String)
unfolding distinct includes
set_group_hosts group_id host_ids = do
  found ← external (gets (λ w. find_in group_table group_id w.env.groups))
  group ← or_missing "Linux server group not found" found
  let unique = distinct host_ids
  count ← external (gets (λ w. count_listed group.target_system_id unique w.env.hosts))
  (if eqb count (length unique)
      then (do
        external
            (modify (λ (w : World Fleet). record w { env = set_members group_id unique w.env }))
        pure unique)
      else raise (bad_request "All hosts must belong to the same target system as the group"))
