-- ===== src/Admin/Fleet/Fits/Deletions.antt =====
-- Deleted rows of the Linux fleet, and new members of a group.
use idm_mw.Prelude.{
  String, ◌==◌, ◌≡◌, refl, ap, ◌∙◌, true, not, ◌&&◌, List, [], ◌∷◌, keep, any_of-map, count_of-map,
  All, All-keep, All-map, All-mono, All-append, eqb, inl, inr, Bool-cases, Option-cases,
}
use idm_mw.Admin.FleetRows.{
  LinuxHost, LinuxServerGroup, LinuxServerGroupHost, Fleet, profile_table, host_table, group_table,
  without_id, is_listed, forget_profile, drop_profile, drop_host, drop_group, members_of,
  set_members,
}
use idm_mw.Admin.Fleet.Fits.{
  HasProfile, Joins, Fits, is_listed-without, AreApart-without, Joins-Stays,
}

module _ (f : Fleet) (h : Fits f) where
  -- A host without the deleted profile keeps its own.
  forget_profile-HasProfile :
      (dropped : String) (host : LinuxHost)
      → HasProfile f.profiles host
      → HasProfile (without_id profile_table dropped f.profiles) (forget_profile dropped host)
  forget_profile-HasProfile dropped host fits = elim (Option-cases host.credential_profile_id) [
    | inl bare ↦ rw bare (λ id e. absurd (cc e))
    | inr (p, has) ↦ elim (Bool-cases (p == dropped)) [
      | inl gone ↦ rw (has, gone) (λ id e. absurd (cc e))
      | inr stays ↦
          rw (has, stays)
            (λ id e.
              let same : p ≡ id = cc e in
              is_listed-without profile_table dropped host.target_system_id id f.profiles
                (rw same at stays)
              ∙ fits id (has ∙ e))
    ]
  ]

  same_host :
      (dropped : String) (host : LinuxHost)
      → ((forget_profile dropped host).id ≡ host.id)
        × ((forget_profile dropped host).target_system_id ≡ host.target_system_id)
  same_host dropped host = elim (Option-cases host.credential_profile_id) [
    | inl bare ↦ rw bare (refl, refl)
    | inr (p, has) ↦ elim (Bool-cases (p == dropped)) [
      | inl gone ↦ rw (has, gone) (refl, refl)
      | inr stays ↦ rw (has, stays) (refl, refl)
    ]
  ]

  pub Fits-drop_profile : (dropped : String) → Fits (drop_profile dropped f)
  Fits-drop_profile dropped = record {
    hosts_fit =
        All-map _ (forget_profile dropped) f.hosts
          (All-mono _ _ f.hosts (forget_profile-HasProfile dropped) h.hosts_fit);
    members_fit =
        Joins-Stays f.groups f.groups _ _ f.members (λ target id e. e)
          (λ target id e.
            any_of-map (λ (r : LinuxHost). r.id == id && eqb r.target_system_id target)
              (forget_profile dropped) f.hosts
              (λ r.
                let (ids, targets) = same_host dropped r in
                ap (λ x. x == id && eqb (forget_profile dropped r).target_system_id target) ids
                ∙ ap (λ x. r.id == id && eqb x target) targets)
            ∙ e)
          h.members_fit;
    hosts_apart = λ id.
        rw
          (count_of-map (λ (r : LinuxHost). r.id == id) (forget_profile dropped) f.hosts
            (λ r. let (ids, targets) = same_host dropped r in ap (λ x. x == id) ids))
          (h.hosts_apart id);
    codes = h.codes;
  }

  pub Fits-drop_host : (dropped : String) → Fits (drop_host dropped f)
  Fits-drop_host dropped = record {
    hosts_fit = All-keep _ _ f.hosts h.hosts_fit;
    members_fit = remaining f.members h.members_fit;
    hosts_apart = AreApart-without host_table dropped f.hosts h.hosts_apart;
    codes = h.codes;
  }
    where
      remaining :
          (members : List LinuxServerGroupHost)
          → All (Joins f.groups f.hosts) members
          → All
              (Joins f.groups (without_id host_table dropped f.hosts))
              (keep (λ (m : LinuxServerGroupHost). not (m.host_id == dropped)) members)
      remaining [] k = tt
      remaining (m ∷ members) ((target, g, j), k) = elim (Bool-cases (m.host_id == dropped)) [
        | inl gone ↦ rw gone (remaining members k)
        | inr stays ↦ rw stays (
          (target, g, is_listed-without host_table dropped target m.host_id f.hosts stays ∙ j),
          remaining members k,
        )
      ]

  pub Fits-drop_group : (dropped : String) → Fits (drop_group dropped f)
  Fits-drop_group dropped = record {
    hosts_fit = h.hosts_fit;
    members_fit = remaining f.members h.members_fit;
    hosts_apart = h.hosts_apart;
    codes = All-keep _ _ f.groups h.codes;
  }
    where
      remaining :
          (members : List LinuxServerGroupHost)
          → All (Joins f.groups f.hosts) members
          → All
              (Joins (without_id group_table dropped f.groups) f.hosts)
              (keep (λ (m : LinuxServerGroupHost). not (m.group_id == dropped)) members)
      remaining [] k = tt
      remaining (m ∷ members) ((target, g, j), k) = elim (Bool-cases (m.group_id == dropped)) [
        | inl gone ↦ rw gone (remaining members k)
        | inr stays ↦ rw stays (
          (target, is_listed-without group_table dropped target m.group_id f.groups stays ∙ g, j),
          remaining members k,
        )
      ]

  pub Fits-set_members :
      (group : LinuxServerGroup) (ids : List String)
      → is_listed group_table group.target_system_id group.id f.groups ≡ true
      → All (λ id. is_listed host_table group.target_system_id id f.hosts ≡ true) ids
      → Fits (set_members group.id ids f)
  Fits-set_members group ids g hs = record {
    hosts_fit = h.hosts_fit;
    members_fit =
        All-append _ _ (members_of group.id ids) (All-keep _ _ f.members h.members_fit)
          (joined ids hs);
    hosts_apart = h.hosts_apart;
    codes = h.codes;
  }
    where
      joined :
          (ids : List String)
          → All (λ id. is_listed host_table group.target_system_id id f.hosts ≡ true) ids
          → All (Joins f.groups f.hosts) (members_of group.id ids)
      joined [] k = tt
      joined (id ∷ ids) (j, k) = ((group.target_system_id, g, j), joined ids k)
