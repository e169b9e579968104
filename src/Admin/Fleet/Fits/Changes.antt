-- ===== src/Admin/Fleet/Fits/Changes.antt =====
-- New and changed rows of the Linux fleet.
use idm_mw.Prelude.{◌≡◌, false, some, [], ◌∷◌, ◌++◌, All-append}
use idm_mw.Admin.FleetRows.{
  LinuxCredentialProfile, LinuxHost, LinuxServerGroup, Fleet, profile_table, host_table,
  group_table, find_in, replace_in, has_id,
}
use idm_mw.Admin.Fleet.Tables.{AreApart-snoc, All-replace}
use idm_mw.Admin.Fleet.Fits.{
  HasProfile, HasCode, Fits, Stays-snoc, Stays-replace, AreApart-replace, HasProfile-Stays,
  Joins-Stays,
}

module _ (f : Fleet) (h : Fits f) where
  pub Fits-new_profile :
      (new : LinuxCredentialProfile) → Fits (record f { profiles = f.profiles ++ (new ∷ []) })
  Fits-new_profile new = record {
    hosts_fit = HasProfile-Stays _ _ f.hosts (Stays-snoc profile_table new f.profiles) h.hosts_fit;
    members_fit = h.members_fit;
    hosts_apart = h.hosts_apart;
    codes = h.codes;
  }

  pub Fits-changed_profile :
      (old new : LinuxCredentialProfile)
      → find_in profile_table new.id f.profiles ≡ some old
      → new.id ≡ old.id
      → new.target_system_id ≡ old.target_system_id
      → Fits (record f { profiles = replace_in profile_table new f.profiles })
  Fits-changed_profile old new found ids targets = record {
    hosts_fit =
        HasProfile-Stays _ _ f.hosts
          (Stays-replace profile_table old new f.profiles found ids targets) h.hosts_fit;
    members_fit = h.members_fit;
    hosts_apart = h.hosts_apart;
    codes = h.codes;
  }

  pub Fits-new_host :
      (new : LinuxHost)
      → has_id host_table new.id f.hosts ≡ false
      → HasProfile f.profiles new
      → Fits (record f { hosts = f.hosts ++ (new ∷ []) })
  Fits-new_host new free fits = record {
    hosts_fit = All-append _ f.hosts (new ∷ []) h.hosts_fit (fits, tt);
    members_fit =
        Joins-Stays f.groups f.groups _ _ f.members (λ target id e. e)
          (Stays-snoc host_table new f.hosts) h.members_fit;
    hosts_apart = AreApart-snoc host_table new f.hosts free h.hosts_apart;
    codes = h.codes;
  }

  pub Fits-changed_host :
      (old new : LinuxHost)
      → find_in host_table new.id f.hosts ≡ some old
      → new.id ≡ old.id
      → new.target_system_id ≡ old.target_system_id
      → HasProfile f.profiles new
      → Fits (record f { hosts = replace_in host_table new f.hosts })
  Fits-changed_host old new found ids targets fits = record {
    hosts_fit = All-replace host_table _ new f.hosts fits h.hosts_fit;
    members_fit =
        Joins-Stays f.groups f.groups _ _ f.members (λ target id e. e)
          (Stays-replace host_table old new f.hosts found ids targets) h.members_fit;
    hosts_apart = AreApart-replace host_table old new f.hosts found ids h.hosts_apart;
    codes = h.codes;
  }

  pub Fits-new_group :
      (new : LinuxServerGroup) → HasCode new → Fits (record f { groups = f.groups ++ (new ∷ []) })
  Fits-new_group new code = record {
    hosts_fit = h.hosts_fit;
    members_fit =
        Joins-Stays _ _ f.hosts f.hosts f.members (Stays-snoc group_table new f.groups)
          (λ target id e. e) h.members_fit;
    hosts_apart = h.hosts_apart;
    codes = All-append _ f.groups (new ∷ []) h.codes (code, tt);
  }

  pub Fits-changed_group :
      (old new : LinuxServerGroup)
      → find_in group_table new.id f.groups ≡ some old
      → new.id ≡ old.id
      → new.target_system_id ≡ old.target_system_id
      → HasCode new
      → Fits (record f { groups = replace_in group_table new f.groups })
  Fits-changed_group old new found ids targets code = record {
    hosts_fit = h.hosts_fit;
    members_fit =
        Joins-Stays _ _ f.hosts f.hosts f.members
          (Stays-replace group_table old new f.groups found ids targets) (λ target id e. e)
          h.members_fit;
    hosts_apart = h.hosts_apart;
    codes = All-replace group_table _ new f.groups code h.codes;
  }
