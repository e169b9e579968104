-- ===== src/Admin/FleetLists.antt =====
-- admin/linux-fleet.service.ts: the lists that it shows.
use idm_mw.Prelude.{
  ℕ, String, ◌==◌, Bool, true, ◌&&◌, Option, none, some, List, [], ◌∷◌, map, eqb, keep, drop, min,
  max, any_of, count_of, or_else, truthy,
}
use mathlib.Core.Option
use idm_mw.Json.{Json}
use idm_mw.Effects.{Exec, pure, gets, ◌>>=◌, ◌>>◌}
use idm_mw.Effects.{Result, ok}
use idm_mw.Effects.Results
use idm_mw.Effects.Results.{lift}
use idm_mw.Core.World.{World, external}
use idm_mw.Admin.TargetRows.{enabled_fits}
use idm_mw.Admin.FleetRows.{
  LinuxCredentialProfile, LinuxHost, LinuxServerGroup, LinuxServerGroupHost, Fleet, Table,
  profile_table, host_table, group_table, find_in,
}
use idm_mw.Admin.FleetGuards.{require_linux_target_system, shown_profile}

pub record ListParams : Type 0 where
  pub limit : Option ℕ
  pub offset : Option ℕ
  pub search : Option String
  pub enabled : Option Bool

-- `limit`
unfoldable pub page_limit : Option ℕ → ℕ
page_limit value = min (max (or_else value 50) 1) 500

abbrev pub take_first {ℓ} : {A : Type ℓ} → ℕ → List A → List A
take_first ℕ.zero xs = []
take_first (ℕ.suc n) [] = []
take_first (ℕ.suc n) (x ∷ xs) = x ∷ take_first n xs

pub record HostView : Type 0 where
  pub host : LinuxHost
  pub metadata : Json
  pub credential_profile : Option Json
  pub groups : List LinuxServerGroup

pub record GroupView : Type 0 where
  pub group : LinuxServerGroup
  pub host_count : ℕ

abbrev pub groups_of_host : Fleet → String → List LinuxServerGroup
groups_of_host f id =
    keep
      (λ (g : LinuxServerGroup).
        any_of (λ (m : LinuxServerGroupHost). m.host_id == id && m.group_id == g.id) f.members)
      f.groups

abbrev pub profile_of_host : Fleet → Option String → Option LinuxCredentialProfile
profile_of_host f none = none
profile_of_host f (some id) = find_in profile_table id f.profiles

abbrev pub host_view : Fleet → LinuxHost → Json → HostView
host_view f h metadata = record {
  host = h;
  metadata = metadata;
  credential_profile = Option.map shown_profile (profile_of_host f h.credential_profile_id);
  groups = groups_of_host f h.id;
}

-- `items.map(…)`, which `fromJson(item.metadata)` may end.
unfoldable pub host_views : Fleet → List LinuxHost → Result (List HostView)
host_views f [] = ok []
host_views f (h ∷ hosts) =
    Results.◌>>=◌ h.metadata
      (λ metadata. Results.◌>>=◌ (host_views f hosts) (λ rest. ok (host_view f h metadata ∷ rest)))

abbrev pub group_view : Fleet → LinuxServerGroup → GroupView
group_view f g = record {
  group = g;
  host_count = count_of (λ (m : LinuxServerGroupHost). m.group_id == g.id) f.members;
}

-- `contains` compares as the database does.
module _ (contains : String → String → Bool) where
  abbrev pub search_fits : Option String → List String → Bool
  search_fits none columns = true
  search_fits (some search) columns = any_of (λ column. contains column search) columns

  -- A page of the rows of the target system, in the order `sorted`.
  unfoldable pub page_of :
      {R : Type 0}
      → Table R
      → (sorted : List R → List R) → (columns : R → List String) (is_enabled : R → Bool) → ℕ
      → ListParams
      → Fleet
      → List R
  unfolding page_limit
  page_of t sorted columns is_enabled target p f = take_first (page_limit p.limit) (
      drop (or_else p.offset 0) (
        sorted (
          keep
            (λ r.
              eqb (t.target_of r) target
              && (enabled_fits p.enabled (is_enabled r)
                  && search_fits (truthy p.search) (columns r)))
            (t.rows_of f))))

  unfoldable pub list_credential_profiles :
      (List LinuxCredentialProfile → List LinuxCredentialProfile)
      → ℕ
      → ListParams
      → Exec (World Fleet) (List Json)
  list_credential_profiles sorted target p = do
    require_linux_target_system target
    items ← external (
        gets (λ w.
          page_of profile_table sorted (λ (r : LinuxCredentialProfile). r.name ∷ [])
            (λ (r : LinuxCredentialProfile). r.enabled) target p w.env))
    pure (map shown_profile items)

  unfoldable pub list_hosts :
      (List LinuxHost → List LinuxHost) → ℕ → ListParams → Exec (World Fleet) (List HostView)
  list_hosts sorted target p = do
    require_linux_target_system target
    views ← external (
        gets (λ w. host_views w.env (
          page_of host_table sorted (λ (r : LinuxHost). r.name ∷ r.host ∷ [])
            (λ (r : LinuxHost). r.enabled) target p w.env)))
    lift views

  unfoldable pub list_groups :
      (List LinuxServerGroup → List LinuxServerGroup)
      → ℕ
      → ListParams
      → Exec (World Fleet) (List GroupView)
  list_groups sorted target p = do
    require_linux_target_system target
    external (
        gets (λ w. map (group_view w.env) (
          page_of group_table sorted (λ (r : LinuxServerGroup). r.code ∷ r.name ∷ [])
            (λ (r : LinuxServerGroup). r.enabled) target p w.env)))
