-- ===== src/Admin/FleetGuards.antt =====
-- admin/linux-fleet.service.ts: what the service asks for before it acts, and how it shows a profile.
use idm_mw.Prelude.{ℕ, String, ◌==◌, Option, none, some, if◌then◌else◌}
use idm_mw.Json.{Json, int, pos, null, bool, num, str, obj, Fields, end, field}
use idm_mw.Effects.{Thrown, http, Exec, pure, raise, gets, ◌>>=◌}
use idm_mw.Core.World.{World, TargetSystem, external}
use idm_mw.Security.Redaction.{redact_secrets}
use idm_mw.Admin.TargetConfig.{bad_request}
use idm_mw.Admin.TargetRows.{find_id}
use idm_mw.Admin.FleetRows.{LinuxCredentialProfile, Fleet, Table, profile_table, find_in, is_listed}

-- NotFoundException
abbrev pub missing : String → Thrown
missing what = http 404 what

abbrev pub or_missing : {A : Type 0} → String → Option A → Exec (World Fleet) A
or_missing what none = raise (missing what)
or_missing what (some row) = pure row

abbrev pub check_linux : Option TargetSystem → Exec (World Fleet) (Unit {0})
check_linux none = raise (missing "TargetSystem not found")
check_linux (some t) =
    if t.type == "linux" then pure tt else raise (bad_request "TargetSystem is not linux")

unfoldable pub require_linux_target_system : ℕ → Exec (World Fleet) (Unit {0})
require_linux_target_system id = do
  found ← external (gets (λ w. find_id id w.target_systems))
  check_linux found

-- The callers do not use the profile that is found.
unfoldable pub require_credential_profile : ℕ → String → Exec (World Fleet) (Unit {0})
require_credential_profile target id = do
  found ← external (gets (λ w. is_listed profile_table target id w.env.profiles))
  if found
      then pure tt
      else raise (bad_request "Credential profile must belong to the same target system")

abbrev pub require_if_given : ℕ → Option String → Exec (World Fleet) (Unit {0})
require_if_given target none = pure tt
require_if_given target (some id) = require_credential_profile target id

abbrev pub text_or_null : Option String → Json
text_or_null none = null
text_or_null (some s) = str s

-- The columns of the profile but its dates.
abbrev pub profile_fields : LinuxCredentialProfile → Fields
profile_fields p = field "id" (str p.id) (
    field "targetSystemId" (num (int (pos p.target_system_id))) (
      field "name" (str p.name) (
        field "mode" (str p.mode) (
          field "username" (str p.username) (
            field "privateKeyRef" (text_or_null p.private_key_ref) (
              field "passwordRef" (text_or_null p.password_ref)
                (field "enabled" (bool p.enabled) end)))))))

-- `redactSecrets(item)`
unfoldable pub shown_profile : LinuxCredentialProfile → Json
unfolding redact_secrets
shown_profile p = redact_secrets (obj (profile_fields p))

unfoldable pub target_system_id_for :
    {R : Type 0} → Table R → String → String → Exec (World Fleet) ℕ
target_system_id_for t what id = do
  found ← external (gets (λ w. find_in t id (t.rows_of w.env)))
  item ← or_missing what found
  pure (t.target_of item)
