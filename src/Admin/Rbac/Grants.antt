-- ===== src/Admin/Rbac/Grants.antt =====
-- Who may read and write what.
use idm_mw.Prelude.{
  String, ◌==◌, ◌≡◌, refl, sym, ap, ◌∙◌, eq_iff, Bool, true, false, not, ◌&&◌, ◌||◌, Option, none,
  some, List, [], ◌∷◌, map, any_of, keep, includes, or_else, arith, inl, inr, Bool-cases,
}
use idm_mw.Effects.{Result, ok, throw}
use idm_mw.Admin.Rbac.{
  ConnectorPermission, AdminUserSession, AdminTables, is_superadmin_session, distinct, is_granting,
  collect_mappings, values, granted, of_groups, EffectiveAdminPermissions, effective_permissions,
  can_read, can_write, Access, read, write, passes, allowed_connector_types,
}
use idm_mw.Admin.Rbac.Collecting.{grants, any_of-collect_mappings}

-- A role that an enabled mapping gives to one of the session's groups, and that is itself enabled,
-- has a permission for the type.
abbrev pub is_granted : Access → String → AdminUserSession → AdminTables → Bool
is_granted a type session tables =
    any_of
      (λ m.
        (m.enabled && (includes (or_else session.groups []) m.idp_group && m.role.enabled))
        && any_of (grants a type) m.role.permissions)
      tables.mappings

any_of-eq :
    {A : Type 0} (f g : A → Bool) (xs : List A) → ((x : A) → f x ≡ g x) → any_of f xs ≡ any_of g xs
any_of-eq f g [] e = refl
any_of-eq f g (x ∷ xs) e = rw (e x, any_of-eq f g xs e)

any_of-keep :
    {A : Type 0} (p f : A → Bool) (xs : List A) → any_of f (keep p xs) ≡ any_of (λ x. p x && f x) xs
any_of-keep p f [] = refl
any_of-keep p f (x ∷ xs) = elim (Bool-cases (p x)) [
  | inl kept ↦ rw (kept, any_of-keep p f xs)
  | inr dropped ↦ rw (dropped, any_of-keep p f xs)
]

includes-keep :
    (g s : String) (xs : List String)
    → (g == s) ≡ false
    → includes (keep (λ h. not (g == h)) xs) s ≡ includes xs s
unfolding includes
includes-keep g s [] other = refl
includes-keep g s (x ∷ xs) other = elim (Bool-cases (g == x)) [
  | inl same ↦ rw (same, includes-keep g s xs other, rw ((eq_iff g x).0 same) at other)
  | inr kept ↦ rw (kept, includes-keep g s xs other)
]

includes-distinct : (gs : List String) (s : String) → includes (distinct gs) s ≡ includes gs s
unfolding distinct includes
includes-distinct [] s = refl
includes-distinct (g ∷ gs) s = elim (Bool-cases (g == s)) [
  | inl same ↦ rw same
  | inr other ↦ rw (other, includes-keep g s (distinct gs) other) (includes-distinct gs s)
]

includes-map :
    (a : Access) (type : String) (ps : List ConnectorPermission)
    → includes (map (λ p. p.connector_type) (keep (passes a) ps)) type ≡ any_of (grants a type) ps
unfolding includes
includes-map a type [] = refl
includes-map a type (p ∷ ps) = elim (Bool-cases (passes a p)) [
  | inl passed ↦ rw (passed, includes-map a type ps) (ground arith)
  | inr refused ↦ rw (refused, includes-map a type ps) (ground arith)
]

module _ (session : AdminUserSession) (tables : AdminTables) (type : String) where
  -- What the groups of the session give.
  any_of-granted :
      (a : Access)
      → any_of (grants a type) (
          values (
            collect_mappings
              (keep (is_granting (distinct (or_else session.groups []))) tables.mappings)
              []))
        ≡ is_granted a type session tables
  any_of-granted a =
      any_of-collect_mappings a type
        (keep (is_granting (distinct (or_else session.groups []))) tables.mappings) [] tt
      ∙ or_false (
          any_of (λ g. any_of (grants a type) g.role.permissions)
            (keep (is_granting (distinct (or_else session.groups []))) tables.mappings))
      ∙ any_of-keep (is_granting (distinct (or_else session.groups [])))
          (λ g. any_of (grants a type) g.role.permissions) tables.mappings
      ∙ any_of-eq _ _ tables.mappings (λ m.
        ap (λ b. (m.enabled && (b && m.role.enabled)) && any_of (grants a type) m.role.permissions)
          (includes-distinct (or_else session.groups []) m.idp_group))
    where
      or_false : (b : Bool) → (b || false) ≡ b
      or_false b = ground arith

any_of-none :
    {A : Type 0} (f : A → Bool) (xs : List A) → ((x : A) → f x ≡ false) → any_of f xs ≡ false
any_of-none f [] h = refl
any_of-none f (x ∷ xs) h = rw (h x, any_of-none f xs h)

no_group : (s : String) → includes [] s ≡ false
unfolding includes
no_group s = refl

-- The types listed: all (`none`) for a superadmin, else those that are granted.
abbrev pub IsAllowedList :
    Access → AdminUserSession → AdminTables → String → Result (Option (List String)) → Type 0
IsAllowedList a session tables type (ok none) = is_superadmin_session session ≡ true
IsAllowedList a session tables type (ok (some ts)) =
    (is_superadmin_session session ≡ false) × (includes ts type ≡ is_granted a type session tables)
IsAllowedList a session tables type (throw e) = ⊥

-- What `effectivePermissions` found for a session that is no superadmin's.
record Found (session : AdminUserSession) (tables : AdminTables) (type : String) : Type 0 where
  pub effective : EffectiveAdminPermissions
  pub returned : effective_permissions session tables ≡ ok effective
  pub ordinary : effective.superadmin ≡ false
  pub found :
      (a : Access) → any_of (grants a type) effective.permissions ≡ is_granted a type session tables

module _ (session : AdminUserSession) (tables : AdminTables) (type : String)
    (up : tables.available ≡ true) where
  no_group-is_granted :
      (a : Access)
      → distinct (or_else session.groups []) ≡ []
      → is_granted a type session tables ≡ false
  no_group-is_granted a e = any_of-none _ tables.mappings (λ m.
      refused m.enabled (includes (or_else session.groups []) m.idp_group) m.role.enabled
        (any_of (grants a type) m.role.permissions)
        (sym (includes-distinct (or_else session.groups []) m.idp_group)
          ∙ ap (λ gs. includes gs m.idp_group) e
          ∙ no_group m.idp_group))
    where
      refused : (x y z t : Bool) → y ≡ false → ((x && (y && z)) && t) ≡ false
      refused x y z t h = ground arith

  of_groups_lem :
      (ds : List String)
      → distinct (or_else session.groups []) ≡ ds
      → (effective : EffectiveAdminPermissions) × (of_groups session.provider ds tables
          ≡ ok effective)
        × (effective.superadmin ≡ false)
        × ((a : Access)
            → any_of (grants a type) effective.permissions ≡ is_granted a type session tables)
  of_groups_lem [] e = (_, refl, refl, λ a. sym (no_group-is_granted a e))
  of_groups_lem (d ∷ ds) e = (
    granted session.provider (d ∷ ds) (keep (is_granting (d ∷ ds)) tables.mappings),
    rw up,
    refl,
    λ a. rw (← e) (any_of-granted session tables type a),
  )

  found_lem : is_superadmin_session session ≡ false → Found session tables type
  unfolding effective_permissions
  found_lem ordinary =
      let (effective, returned, not_super, found) =
        of_groups_lem (distinct (or_else session.groups [])) refl in
      record {
        effective = effective;
        returned = rw ordinary returned;
        ordinary = not_super;
        found = found;
      }

  -- While the database answers, a session may read or write a type of connector exactly if it is a
  -- superadmin's (local, or authentication is disabled), or an enabled mapping gives one of its groups
  -- an enabled role with a permission for the type; a permission to write is one to read too. The
  -- types listed for an access are those for which it is granted, and all of them for a superadmin.
  pub access_lem :
      (can_read session type tables
        ≡ ok (is_superadmin_session session || is_granted read type session tables))
      × (can_write session type tables
          ≡ ok (is_superadmin_session session || is_granted write type session tables))
      × ((a : Access)
          → IsAllowedList a session tables type (allowed_connector_types session a tables))
  unfolding can_read can_write allowed_connector_types
  access_lem = elim (Bool-cases (is_superadmin_session session)) [
    | inl super ↦ (rw super, rw super, λ a. rw super super)
    | inr ordinary ↦
        let f = found_lem ordinary in
        (
          rw (f.returned, ordinary, f.ordinary) (ap ok (f.found read)),
          rw (f.returned, ordinary, f.ordinary) (ap ok (f.found write)),
          λ a.
              rw (f.returned, f.ordinary)
                (ordinary, includes-map a type f.effective.permissions ∙ f.found a),
        )
  ]
