-- ===== src/Tests/Administration.antt =====
-- An administrator with one role.
use idm_mw.Prelude.{◌≡◌, refl, true, false, none, some, [], ◌∷◌, ◌||◌}
use idm_mw.Effects.{ok}
use idm_mw.Admin.Rbac.{
  AdminRole, AdminTables, AdminUserSession, saml, Access, read, write, is_superadmin_session,
  can_read, can_write, allowed_connector_types,
}
use idm_mw.Admin.Rbac.Grants.{is_granted, IsAllowedList, access_lem}
use idm_mw.Core.World.{World}
use idm_mw.Admin.Service.{RetryManyParams, limit}
use idm_mw.Core.Dlq

abbrev operators : AdminRole
operators = record {
  id = "r1";
  code = "operators";
  name = "Operators";
  enabled = true;
  permissions = record { connector_type = "zabbix"; can_read = true; can_write = false } ∷ [];
}

abbrev tables : AdminTables
tables = record {
  available = true;
  mappings = record { idp_group = "ops"; role = operators; enabled = true } ∷ [];
  target_systems = [];
}

abbrev session : AdminUserSession
session = record { provider = saml; groups = some ("ops" ∷ "ops" ∷ []) }

access_lem_example :
    (can_read session "zabbix" tables
      ≡ ok (is_superadmin_session session || is_granted read "zabbix" session tables))
    × (can_write session "zabbix" tables
        ≡ ok (is_superadmin_session session || is_granted write "zabbix" session tables))
    × ((a : Access)
        → IsAllowedList a session tables "zabbix" (allowed_connector_types session a tables))
access_lem_example = access_lem session tables "zabbix" refl

abbrev bulk : RetryManyParams
bulk = record {
  scope = record {
    status = none;
    target_system = none;
    allowed_target_systems = some ("directory" ∷ []);
  };
  limit = none;
}
