-- ===== src/Admin/Fleet/Writes.antt =====
-- The creation and the change of a profile, a host or a group of the Linux fleet keep what fits.
use idm_mw.Prelude.{
  ℕ, String, ◌==◌, ◌≡◌, refl, ap, true, false, some, List, [], ◌∷◌, ◌++◌, inl, inr, Bool-cases,
  Option-cases, truthy, trim, or_else,
}
use idm_mw.Json.{Json, Number, Fields}
use idm_mw.Effects.{ok, gets}
use idm_mw.Effects.Results.{lift}
use idm_mw.Core.World.{World, external}
use idm_mw.Admin.FleetRows.{
  LinuxCredentialProfile, LinuxHost, LinuxServerGroup, Fleet, Table, profile_table, host_table,
  group_table, find_in, replace_in, has_id, is_listed, is_key_taken, insert_into, update_in,
}
use idm_mw.Admin.FleetDtos.{
  PartialHostDto, PartialServerGroupDto, optional_string, flatten, credential_profile_dto,
  partial_credential_profile_dto, host_dto, partial_host_dto, server_group_dto,
  partial_server_group_dto,
}
use idm_mw.Admin.FleetChecks.{
  validate_credential_profile, validate_host, validate_group, is_group_code,
}
use idm_mw.Admin.Fleet.{
  create_credential_profile, merged_profile, changed_profile, update_credential_profile,
  create_host, changed_host, update_host, create_group, changed_group, update_group,
}
use idm_mw.Admin.FleetGuards.{
  or_missing, shown_profile, require_linux_target_system, require_if_given,
}
use idm_mw.Admin.Fleet.Tables.{find_in_own, All-find}
use idm_mw.Admin.Fleet.Fits.{HasProfile, HasCode, Fits}
use idm_mw.Admin.Fleet.Fits.Changes.{
  Fits-new_profile, Fits-changed_profile, Fits-new_host, Fits-changed_host, Fits-new_group,
  Fits-changed_group,
}
use idm_mw.Admin.Fleet.Rules.{
  Keeps, Keeps-bind, Keeps-external, Keeps-returning, Reads-gets, Reads-lift, Reads-or_missing,
  Reads-require_linux, Reads-require_if_given,
}

module _ {R : Type 0} (t : Table R) (f : Fleet) where
  -- An insertion keeps what fits if each new row does.
  insert_into-Keeps :
      (uuid : ℕ → String) (make : String → R)
      → ((id : String)
          → has_id t (t.id_of (make id)) (t.rows_of f) ≡ false
          → Fits f
          → Fits (t.with_rows (t.rows_of f ++ (make id ∷ [])) f))
      → Keeps f (insert_into t uuid make)
  unfolding insert_into
  insert_into-Keeps uuid make fits = record {
    at = λ w same h.
        let new = make (uuid w.next_id) in
        elim (Bool-cases (has_id t (t.id_of new) (t.rows_of f))) [
          | inl old ↦ rw (same, old) h
          | inr fresh ↦ elim (Bool-cases (is_key_taken t new (t.rows_of f))) [
            | inl taken ↦ rw (same, fresh, taken) h
            | inr free ↦ rw (same, fresh, free) (fits (uuid w.next_id) fresh h)
          ]
        ];
  }

  -- An update of a row that is found keeps what fits if the changed row does.
  update_in-Keeps :
      (id : String) (change : R → R)
      → ((r : R)
          → find_in t id (t.rows_of f) ≡ some r
          → Fits f
          → Fits (t.with_rows (replace_in t (change r) (t.rows_of f)) f))
      → Keeps f (update_in t id change)
  unfolding update_in
  update_in-Keeps id change fits = record {
    at = λ w same h. elim (Option-cases (find_in t id (t.rows_of f))) [
      | inl none_there ↦ rw (same, none_there) h
      | inr (r, found) ↦ elim (Bool-cases (is_key_taken t (change r) (t.rows_of f))) [
        | inl taken ↦ rw (same, found, taken) h
        | inr free ↦ rw (same, found, free) (fits r found h)
      ]
    ];
  }

-- A code that passes the check is well formed without the space around it.
validate_group-HasCode :
    (code name : String) → validate_group code name ≡ ok tt → is_group_code (trim code) ≡ true
unfolding validate_group optional_string
validate_group-HasCode code name h = elim (Bool-cases (trim code == "")) [
  | inl blank ↦ absurd (cc (rw blank at h))
  | inr filled ↦ elim (Bool-cases (is_group_code (trim code))) [
    | inl good ↦ good
    | inr bad ↦ absurd (cc (rw (filled, bad) at h))
  ]
]

-- The changed host keeps its profile, or has one that was found in its target system.
changed_host-HasProfile :
    (profiles : List LinuxCredentialProfile) (dto : PartialHostDto) (host : LinuxHost)
    → HasProfile profiles host
    → ((id : String)
        → truthy (flatten dto.credential_profile_id) ≡ some id
        → is_listed profile_table host.target_system_id id profiles ≡ true)
    → HasProfile profiles (changed_host dto host)
changed_host-HasProfile profiles dto host fits given =
    elim (Option-cases dto.credential_profile_id) [
      | inl kept ↦ rw kept fits
      | inr (next, sent) ↦ rw sent (rw sent at given)
    ]

changed_group-HasCode :
    (dto : PartialServerGroupDto) (group : LinuxServerGroup)
    → HasCode group
    → validate_group (or_else dto.code group.code) (or_else dto.name group.name) ≡ ok tt
    → HasCode (changed_group dto group)
changed_group-HasCode dto group fits valid = elim (Option-cases dto.code) [
  | inl kept ↦ rw kept fits
  | inr (code, sent) ↦ rw sent (validate_group-HasCode code _ (rw sent at valid))
]

module _ (uuid : ℕ → String) (show : Json → String) (to_number : Json → Number) (f : Fleet) where
  pub create_credential_profile-Keeps :
      (target : ℕ) (body : Fields)
      → Keeps f (create_credential_profile uuid show to_number target body)
  unfolding create_credential_profile
  create_credential_profile-Keeps target body =
      Keeps-bind (require_linux_target_system target) _ (Reads-require_linux f target) (λ _ _.
        Keeps-bind (lift (validate_credential_profile (credential_profile_dto show to_number body)))
          _ (Reads-lift _)
          (λ _ _. Keeps-returning _ shown_profile (
            Keeps-external _
              (insert_into-Keeps profile_table f uuid _ (λ id free h. Fits-new_profile f h _)))))

  pub update_credential_profile-Keeps :
      (id : String) (body : Fields)
      → Keeps f (update_credential_profile uuid show to_number id body)
  unfolding update_credential_profile
  update_credential_profile-Keeps id body =
      let dto = partial_credential_profile_dto show to_number body in
      Keeps-bind (external (gets (λ (w : World Fleet). find_in profile_table id w.env.profiles))) _
        (Reads-gets _)
        (λ found _.
          Keeps-bind (or_missing "Linux credential profile not found" found) _
            (Reads-or_missing _ _)
            (λ current _.
              Keeps-bind (lift (validate_credential_profile (merged_profile dto current))) _
                (Reads-lift _)
                (λ _ _. Keeps-returning _ shown_profile (
                  Keeps-external _ (
                    update_in-Keeps profile_table f id (changed_profile dto) (λ r found h.
                      Fits-changed_profile f h r _ (find_in_own profile_table id f.profiles r found)
                        refl refl))))))

  pub create_host-Keeps :
      (target : ℕ) (body : Fields) → Keeps f (create_host uuid show to_number target body)
  unfolding create_host
  create_host-Keeps target body =
      let dto = host_dto show to_number body in
      Keeps-bind (require_linux_target_system target) _ (Reads-require_linux f target) (λ _ _.
        Keeps-bind (lift (validate_host dto.name dto.host dto.host_fingerprint dto.port)) _
          (Reads-lift _)
          (λ _ _.
            Keeps-bind (require_if_given target (truthy dto.credential_profile_id)) _
              (Reads-require_if_given f target _)
              (λ _ given. Keeps-external _ (
                insert_into-Keeps host_table f uuid _
                  (λ id free h. Fits-new_host f h _ free given)))))

  pub update_host-Keeps :
      (id : String) (body : Fields) → Keeps f (update_host uuid show to_number id body)
  unfolding update_host
  update_host-Keeps id body =
      let dto = partial_host_dto show to_number body in
      Keeps-bind (external (gets (λ (w : World Fleet). find_in host_table id w.env.hosts))) _
        (Reads-gets _)
        (λ found (v, at_f, seen).
          Keeps-bind (or_missing "Linux host not found" found) _ (Reads-or_missing _ _)
            (λ current is_current.
              Keeps-bind
                (lift (
                  validate_host (or_else dto.name current.name) (or_else dto.host current.host)
                    (or_else dto.host_fingerprint current.host_fingerprint)
                    (some (or_else dto.port current.port))))
                _ (Reads-lift _)
                (λ _ _.
                  Keeps-bind
                    (require_if_given current.target_system_id
                      (truthy (flatten dto.credential_profile_id)))
                    _ (Reads-require_if_given f _ _)
                    (λ _ given. Keeps-external _ (
                      update_in-Keeps host_table f id (changed_host dto) (λ r there h.
                        let same : current ≡ r = cc (
                          is_current,
                          seen,
                          there,
                          ap (λ (x : Fleet). find_in host_table id x.hosts) at_f,
                        ) in
                        Fits-changed_host f h r _ (find_in_own host_table id f.hosts r there) refl
                          refl
                          (changed_host-HasProfile f.profiles dto r
                            (All-find host_table _ id f.hosts r h.hosts_fit there)
                            (rw same at given))))))))

  pub create_group-Keeps :
      (target : ℕ) (body : Fields) → Keeps f (create_group uuid show to_number target body)
  unfolding create_group
  create_group-Keeps target body =
      let dto = server_group_dto show to_number body in
      Keeps-bind (require_linux_target_system target) _ (Reads-require_linux f target) (λ _ _.
        Keeps-bind (lift (validate_group dto.code dto.name)) _ (Reads-lift _) (λ _ valid.
          Keeps-external _ (
            insert_into-Keeps group_table f uuid _ (λ id free h.
              Fits-new_group f h _ (validate_group-HasCode dto.code dto.name valid)))))

  pub update_group-Keeps :
      (id : String) (body : Fields) → Keeps f (update_group uuid show to_number id body)
  unfolding update_group
  update_group-Keeps id body =
      let dto = partial_server_group_dto show to_number body in
      Keeps-bind (external (gets (λ (w : World Fleet). find_in group_table id w.env.groups))) _
        (Reads-gets _)
        (λ found (v, at_f, seen).
          Keeps-bind (or_missing "Linux server group not found" found) _ (Reads-or_missing _ _)
            (λ current is_current.
              Keeps-bind
                (lift
                  (validate_group (or_else dto.code current.code) (or_else dto.name current.name)))
                _ (Reads-lift _)
                (λ _ valid. Keeps-external _ (
                  update_in-Keeps group_table f id (changed_group dto) (λ r there h.
                    let same : current ≡ r = cc (
                      is_current,
                      seen,
                      there,
                      ap (λ (x : Fleet). find_in group_table id x.groups) at_f,
                    ) in
                    Fits-changed_group f h r _ (find_in_own group_table id f.groups r there) refl
                      refl
                      (changed_group-HasCode dto r
                        (All-find group_table _ id f.groups r h.codes there)
                        (rw same at valid)))))))
