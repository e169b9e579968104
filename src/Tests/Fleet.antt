-- ===== src/Tests/Fleet.antt =====
-- A Linux target system with a profile, a host and a group that holds the host, under calls that create
-- another host, set the group's hosts and delete the profile.
use idm_mw.Prelude.{
  map, trim, includes, ◌≡◌, refl, true, none, some, List, [], ◌∷◌, Bool-cases, inl, inr, ◌==◌,
  arith,
}
use idm_mw.Json.{obj, nan, str, Fields, field, end}
use idm_mw.Effects.{ok}
use idm_mw.Core.World.{World, TargetSystem}
use idm_mw.Admin.FleetRows.{LinuxHost, members_of, insert_into, Fleet, host_table}
use idm_mw.Admin.FleetChecks.{validate_host, is_group_code}
use idm_mw.Admin.Rbac.{distinct}
use idm_mw.Admin.FleetDtos.{host_dto, optional_string}
use idm_mw.Admin.FleetGuards.{require_linux_target_system, require_credential_profile}
use idm_mw.Admin.Fleet.{create_host, set_group_hosts, delete_credential_profile}
use idm_mw.Admin.Fleet.Tables.{AreApart}
use idm_mw.Admin.Fleet.Fits.{Fits}
use idm_mw.Admin.Fleet.Sound.{
  after, Call, creates_host, sets_hosts, deletes_profile, Drawn, after_all, after_all-Fits,
}
use idm_mw.Tests.Fixtures.{start}

abbrev linux : TargetSystem
linux = record {
  id = 0;
  name = "linux";
  type = "linux";
  label = "Linux";
  config = ok (str "");
  enabled = true;
  updated_at = 5;
}

abbrev small_fleet : Fleet
small_fleet = record {
  profiles =
      record {
        id = "p";
        target_system_id = 0;
        name = "root";
        mode = "env";
        username = "root";
        private_key_ref = some "KEY";
        password_ref = none;
        enabled = true;
      }
      ∷ [];
  hosts =
      record {
        id = "h";
        target_system_id = 0;
        credential_profile_id = some "p";
        name = "web";
        host = "web.example";
        port = 22;
        host_fingerprint = "SHA256:1";
        enabled = true;
        metadata = ok (obj end);
      }
      ∷ [];
  groups =
      record {
        id = "g";
        target_system_id = 0;
        code = "servers";
        name = "Servers";
        description = none;
        enabled = true;
      }
      ∷ [];
  members = record { group_id = "g"; host_id = "h" } ∷ [];
}

abbrev with_fleet : World Fleet
with_fleet = record {
  clock = 1000;
  outages = [];
  dice = [];
  dlq = [];
  next_id = 1;
  idempotency_keys = [];
  target_systems = linux ∷ [];
  metrics = start.metrics;
  outbox = [];
  env = small_fleet;
}

hosts-AreApart : AreApart host_table small_fleet.hosts
hosts-AreApart id = elim (Bool-cases ("h" == id)) [
  | inl same ↦ rw same (omega arith)
  | inr other ↦ rw other (omega arith)
]

small_fleet-Fits : Fits small_fleet
unfolding is_group_code
small_fleet-Fits = record {
  hosts_fit = (λ id e. let same : "p" ≡ id = cc e in rw (← same) refl, tt);
  members_fit = ((0, refl, refl), tt);
  hosts_apart = hosts-AreApart;
  codes = (refl, tt);
}

-- One id is enough for the one host that is created.
abbrev drawn : Drawn
drawn = record { uuid = λ n. "new"; show = λ v. "value"; to_number = λ v. nan }

abbrev another_host : Fields
another_host = field "name" (str "db") (
    field "host" (str "db.example")
      (field "hostFingerprint" (str "SHA256:2") (field "credentialProfileId" (str "p") end)))

abbrev calls : List Call
calls =
    creates_host 0 another_host
    ∷ sets_hosts "g" ("new" ∷ "h" ∷ "new" ∷ [])
    ∷ deletes_profile "p"
    ∷ []

-- The group holds both hosts, and no host has the profile that was deleted.
calls_succeed :
    ((after_all drawn calls with_fleet).env.members ≡ members_of "g" ("new" ∷ "h" ∷ []))
    × (map (λ (h : LinuxHost). h.credential_profile_id) (after_all drawn calls with_fleet).env.hosts
        ≡ none ∷ none ∷ [])
unfolding after_all after create_host set_group_hosts delete_credential_profile
    require_linux_target_system require_credential_profile host_dto validate_host optional_string
    trim insert_into distinct includes
calls_succeed = (refl, refl)

after_all-Fits_example : Fits (after_all drawn calls with_fleet).env
after_all-Fits_example = after_all-Fits drawn calls with_fleet small_fleet-Fits
