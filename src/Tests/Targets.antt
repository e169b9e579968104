-- ===== src/Tests/Targets.antt =====
-- Target systems as administrators manage them.
use idm_mw.Prelude.{ℕ, ◌≡◌, refl, true, none, some, List, [], ◌∷◌, arith}
use idm_mw.Json.{str, obj, Fields, end, field}
use idm_mw.Effects.{ok}
use idm_mw.Core.World.{World, TargetSystem}
use idm_mw.Admin.TargetConfig.{validate_target_system_config, validate_common_group_mapping_config}
use idm_mw.Admin.TargetRows.{CreateTargetSystemDto, UpdateTargetSystemDto, updated}
use idm_mw.Admin.TargetSystems.Apart.{IsValidRow}
use idm_mw.Admin.TargetSystems.Sound.{Call, creates, updates, deletes, run_all, run_all-IsSound}
use idm_mw.Admin.TargetSystems.RowsSound.{IsSound}
use idm_mw.Tests.Fixtures.{start}

abbrev zabbix_config : Fields
zabbix_config = field "url" (str "https://z") (field "apiToken" (str "s3cret") end)

abbrev zabbix : TargetSystem
zabbix = record {
  id = 0;
  name = "zabbix";
  type = "zabbix";
  label = "Zabbix";
  config = ok (obj zabbix_config);
  enabled = true;
  updated_at = 5;
}

abbrev with_target : World ℕ
with_target = record start { target_systems = zabbix ∷ []; next_id = 1 }

zabbix_fits : validate_target_system_config "zabbix" zabbix_config ≡ ok tt
unfolding validate_target_system_config validate_common_group_mapping_config
zabbix_fits = refl

zabbix-IsValidRow : IsValidRow zabbix
zabbix-IsValidRow fs e = let same : zabbix_config ≡ fs = cc e in rw same at zabbix_fits

with_target-IsSound : IsSound with_target
with_target-IsSound = record {
  apart = (tt, tt);
  below = (omega arith, tt);
  valid = (zabbix-IsValidRow, tt);
}

abbrev linux : CreateTargetSystemDto
linux = record {
  name = "linux";
  type = "linux";
  label = "Linux";
  config = field "groupMappingTarget" (str "posix") end;
  enabled = none;
}

abbrev rename : UpdateTargetSystemDto
rename = record {
  name = some "monitoring";
  type = none;
  label = none;
  config = some (field "url" (str "https://z") (field "apiToken" (str "***") end));
  enabled = none;
}

abbrev calls : List Call
calls = creates linux ∷ updates 0 rename ∷ creates linux ∷ deletes 1 ∷ []

run_all-IsSound_example : IsSound (run_all calls with_target)
run_all-IsSound_example = run_all-IsSound calls with_target with_target-IsSound

abbrev masked : TargetSystem
masked = record zabbix {
  config = ok (obj (field "url" (str "https://z") (field "apiToken" (str "***") end)));
}

abbrev renamed : TargetSystem
renamed = updated rename (some zabbix_config) with_target.clock zabbix

abbrev after_rename : World ℕ
after_rename = record with_target { target_systems = renamed ∷ [] }

abbrev renamed_masked : TargetSystem
renamed_masked = record renamed { config = masked.config }
