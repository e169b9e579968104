-- ===== src/Admin/Fleet/Sound.antt =====
-- The tables of the Linux fleet under any calls of the service.
use idm_mw.Prelude.{
  ℕ, String, ◌≡◌, refl, sym, ap, ◌∙◌, Bool, some, List, [], ◌∷◌, inl, inr, Bool-cases, eqb, eqb_iff,
  length, if◌then◌else◌,
}
use idm_mw.Json.{Json, Number, Fields}
use idm_mw.Effects.{Exec, pure, raise, gets, modify, ◌>>◌}
use idm_mw.Core.World.{World, external}
use idm_mw.Admin.Rbac.{distinct}
use idm_mw.Admin.TargetConfig.{bad_request}
use idm_mw.Admin.FleetRows.{
  LinuxServerGroup, Fleet, profile_table, host_table, group_table, find_in, has_id, delete_if,
  drop_profile, drop_host, drop_group, set_members,
}
use idm_mw.Admin.Fleet.{
  create_credential_profile, update_credential_profile, create_host, update_host, create_group,
  update_group, delete_credential_profile, delete_host, delete_group, count_listed, set_group_hosts,
}
use idm_mw.Admin.FleetGuards.{or_missing}
use idm_mw.Admin.Fleet.Tables.{find_in_own, id_of-find, is_listed-find}
use idm_mw.Admin.Fleet.Counted.{All-is_listed, AreDistinct-distinct}
use idm_mw.Admin.Fleet.Fits.{Fits}
use idm_mw.Admin.Fleet.Fits.Deletions.{
  Fits-drop_profile, Fits-drop_host, Fits-drop_group, Fits-set_members,
}
use idm_mw.Admin.Fleet.Rules.{
  Keeps, Keeps-bind, Keeps-external, Keeps-raise, Keeps-returning, Reads-gets, Reads-or_missing,
}
use idm_mw.Admin.Fleet.Writes.{
  create_credential_profile-Keeps, update_credential_profile-Keeps, create_host-Keeps,
  update_host-Keeps, create_group-Keeps, update_group-Keeps,
}

-- A deletion by id.
delete_if-Keeps :
    (f : Fleet) (found : Fleet → Bool) (drop : Fleet → Fleet)
    → (Fits f → Fits (drop f))
    → Keeps f (λ w. delete_if (found w.env) drop w)
delete_if-Keeps f found drop fits = record {
  at = λ w same h. elim (Bool-cases (found f)) [
    | inl there ↦ rw (same, there) (fits h)
    | inr missing ↦ rw (same, missing) h
  ];
}

module _ (f : Fleet) where
  delete_credential_profile-Keeps : (id : String) → Keeps f (delete_credential_profile id)
  unfolding delete_credential_profile
  delete_credential_profile-Keeps id = Keeps-external _ (
      delete_if-Keeps f (λ g. has_id profile_table id g.profiles) (drop_profile id)
        (λ h. Fits-drop_profile f h id))

  delete_host-Keeps : (id : String) → Keeps f (delete_host id)
  unfolding delete_host
  delete_host-Keeps id = Keeps-external _ (
      delete_if-Keeps f (λ g. has_id host_table id g.hosts) (drop_host id)
        (λ h. Fits-drop_host f h id))

  delete_group-Keeps : (id : String) → Keeps f (delete_group id)
  unfolding delete_group
  delete_group-Keeps id = Keeps-external _ (
      delete_if-Keeps f (λ g. has_id group_table id g.groups) (drop_group id)
        (λ h. Fits-drop_group f h id))

  -- The members are replaced where every host was counted.
  members-Keeps :
      (group_id : String) (group : LinuxServerGroup) (ids : List String) (count : ℕ)
      → find_in group_table group_id f.groups ≡ some group
      → count ≡ count_listed group.target_system_id (distinct ids) f.hosts
      → Keeps f (
          if eqb count (length (distinct ids))
          then (do
            external (
                modify (λ (w : World Fleet). record w {
                  env = set_members group_id (distinct ids) w.env;
                }))
            pure (distinct ids))
          else raise (bad_request "All hosts must belong to the same target system as the group"))
  members-Keeps group_id group ids count found counts =
      elim (Bool-cases (eqb count (length (distinct ids)))) [
        | inr differ ↦ rw differ (Keeps-raise _)
        | inl same ↦ rw same (
            Keeps-returning
              (external (
                modify (λ (w : World Fleet). record w {
                  env = set_members group_id (distinct ids) w.env;
                })))
              (λ _. distinct ids)
              (Keeps-external _ (record {
                at = λ w at_f h.
                    let all = sym counts ∙ (eqb_iff count (length (distinct ids))).0 same in
                    let own = id_of-find group_table group_id f.groups group found in
                    rw (at_f, ← own)
                      (Fits-set_members f h group (distinct ids)
                        (is_listed-find group_table group.id f.groups group
                          (find_in_own group_table group_id f.groups group found))
                        (All-is_listed host_table group.target_system_id (distinct ids) f.hosts
                          h.hosts_apart (AreDistinct-distinct ids) all));
              })))
      ]

  set_group_hosts-Keeps :
      (group_id : String) (ids : List String) → Keeps f (set_group_hosts group_id ids)
  unfolding set_group_hosts
  set_group_hosts-Keeps group_id ids =
      Keeps-bind (external (gets (λ (w : World Fleet). find_in group_table group_id w.env.groups)))
        _ (Reads-gets _)
        (λ found (v, at_f, seen).
          Keeps-bind (or_missing "Linux server group not found" found) _ (Reads-or_missing _ _)
            (λ group is_group.
              Keeps-bind
                (external (
                  gets (λ (w : World Fleet).
                    count_listed group.target_system_id (distinct ids) w.env.hosts)))
                _ (Reads-gets _)
                (λ count (u, at_f_too, counted).
                  members-Keeps group_id group ids count
                    (sym (ap (λ (x : Fleet). find_in group_table group_id x.groups) at_f)
                      ∙ (sym seen ∙ is_group))
                    (counted
                      ∙ ap
                          (λ (x : Fleet).
                            count_listed group.target_system_id (distinct ids) x.hosts)
                          at_f_too))))

-- The calls that change the fleet.
pub data Call : Type 0 where
  creates_profile creates_host creates_group : ℕ → Fields → Call
  updates_profile updates_host updates_group : String → Fields → Call
  deletes_profile deletes_host deletes_group : String → Call
  sets_hosts : String → List String → Call

-- What the body of a request is read with, and the ids that the database draws.
pub record Drawn : Type 0 where
  pub uuid : ℕ → String
  pub show : Json → String
  pub to_number : Json → Number

abbrev then_state : {A : Type 0} → Exec (World Fleet) A → World Fleet → World Fleet
then_state call w = (call w).1

unfoldable pub after : Drawn → Call → World Fleet → World Fleet
after d (creates_profile target body) =
    then_state (create_credential_profile d.uuid d.show d.to_number target body)
after d (creates_host target body) = then_state (create_host d.uuid d.show d.to_number target body)
after d (creates_group target body) =
    then_state (create_group d.uuid d.show d.to_number target body)
after d (updates_profile id body) =
    then_state (update_credential_profile d.uuid d.show d.to_number id body)
after d (updates_host id body) = then_state (update_host d.uuid d.show d.to_number id body)
after d (updates_group id body) = then_state (update_group d.uuid d.show d.to_number id body)
after d (deletes_profile id) = then_state (delete_credential_profile id)
after d (deletes_host id) = then_state (delete_host id)
after d (deletes_group id) = then_state (delete_group id)
after d (sets_hosts group_id ids) = then_state (set_group_hosts group_id ids)

after-Fits : (d : Drawn) (call : Call) (w : World Fleet) → Fits w.env → Fits (after d call w).env
unfolding after
after-Fits d (creates_profile target body) w =
    (create_credential_profile-Keeps d.uuid d.show d.to_number w.env target body).at w refl
after-Fits d (creates_host target body) w =
    (create_host-Keeps d.uuid d.show d.to_number w.env target body).at w refl
after-Fits d (creates_group target body) w =
    (create_group-Keeps d.uuid d.show d.to_number w.env target body).at w refl
after-Fits d (updates_profile id body) w =
    (update_credential_profile-Keeps d.uuid d.show d.to_number w.env id body).at w refl
after-Fits d (updates_host id body) w =
    (update_host-Keeps d.uuid d.show d.to_number w.env id body).at w refl
after-Fits d (updates_group id body) w =
    (update_group-Keeps d.uuid d.show d.to_number w.env id body).at w refl
after-Fits d (deletes_profile id) w = (delete_credential_profile-Keeps w.env id).at w refl
after-Fits d (deletes_host id) w = (delete_host-Keeps w.env id).at w refl
after-Fits d (deletes_group id) w = (delete_group-Keeps w.env id).at w refl
after-Fits d (sets_hosts group_id ids) w = (set_group_hosts-Keeps w.env group_id ids).at w refl

-- One call after the other, whatever the outcome of each.
unfoldable pub after_all : Drawn → List Call → World Fleet → World Fleet
after_all d [] w = w
after_all d (call ∷ calls) w = after_all d calls (after d call w)

-- After any calls that create, change or delete credential profiles, hosts and groups or set the hosts of a
-- group, in any order and whichever calls of the database fail, a host's credential profile is in the
-- host's target system, a group and each of its hosts are in one target system, no two hosts have the
-- same id, and the code of every group passes the check, all of this if it was so before.
pub after_all-Fits :
    (d : Drawn) (calls : List Call) (w : World Fleet) → Fits w.env → Fits (after_all d calls w).env
unfolding after_all
after_all-Fits d [] w h = h
after_all-Fits d (call ∷ calls) w h =
    after_all-Fits d calls (after d call w) (after-Fits d call w h)
