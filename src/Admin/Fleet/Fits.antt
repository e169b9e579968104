-- ===== src/Admin/Fleet/Fits.antt =====
-- What the tables of the Linux fleet keep: a host's credential profile is in the host's target system, and
-- a group and each of its hosts are in one target system.
pub mod Changes
pub mod Deletions
use idm_mw.Prelude.{
  ℕ, String, ◌==◌, eq_iff, ◌≡◌, refl, ap, ◌∙◌, true, false, not, ◌&&◌, some, List, [], ◌∷◌, ◌++◌,
  keep, any_of-append, any_of-keep, any_of-map, count_of-map, count_of-keep, All, All-keep, All-map,
  All-mono, All-append, eqb, inl, inr, Bool-cases, Option-cases, arith,
}
use idm_mw.Admin.FleetRows.{
  LinuxCredentialProfile, LinuxHost, LinuxServerGroup, LinuxServerGroupHost, Fleet, Table,
  profile_table, host_table, group_table, find_in, replace_in, without_id, is_listed, has_id,
  forget_profile, drop_profile, drop_host, drop_group, members_of, set_members,
}
use idm_mw.Admin.FleetChecks.{is_group_code}
use idm_mw.Admin.Fleet.Tables.{
  AreApart, AreApart-snoc, any_of-replace, count_of-replace, All-replace,
}

-- The profile of the host is in its target system.
abbrev pub HasProfile : List LinuxCredentialProfile → LinuxHost → Type 0
HasProfile profiles h =
    (id : String)
    → h.credential_profile_id ≡ some id
    → is_listed profile_table h.target_system_id id profiles ≡ true

-- The group and the host are in one target system.
abbrev pub Joins : List LinuxServerGroup → List LinuxHost → LinuxServerGroupHost → Type 0
Joins groups hosts m =
    (target : ℕ) × (is_listed group_table target m.group_id groups ≡ true)
    × (is_listed host_table target m.host_id hosts ≡ true)

-- The code of the group passes the check.
abbrev pub HasCode : LinuxServerGroup → Type 0
HasCode g = is_group_code g.code ≡ true

pub record Fits (f : Fleet) : Type 0 where
  pub hosts_fit : All (HasProfile f.profiles) f.hosts
  pub members_fit : All (Joins f.groups f.hosts) f.members
  pub hosts_apart : AreApart host_table f.hosts
  pub codes : All HasCode f.groups

module _ {R : Type 0} (t : Table R) where
  -- What is listed stays listed.
  abbrev pub Stays : List R → List R → Type 0
  Stays before after =
      (target : ℕ) (id : String)
      → is_listed t target id before ≡ true
      → is_listed t target id after ≡ true

  pub Stays-snoc : (new : R) (rows : List R) → Stays rows (rows ++ (new ∷ []))
  Stays-snoc new rows target id h = any_of-append _ rows (new ∷ []) h

  pub Stays-replace :
      (old new : R) (rows : List R)
      → find_in t (t.id_of new) rows ≡ some old
      → t.id_of new ≡ t.id_of old
      → t.target_of new ≡ t.target_of old
      → Stays rows (replace_in t new rows)
  Stays-replace old new rows found ids targets target id h =
      any_of-replace t old new (λ r. t.id_of r == id && eqb (t.target_of r) target) rows found
        (ap (λ x. x == id && eqb (t.target_of new) target) ids
          ∙ ap (λ x. t.id_of old == id && eqb x target) targets)
      ∙ h

  -- The deletion of a row leaves the others listed.
  pub is_listed-without :
      (dropped : String) (target : ℕ) (id : String) (rows : List R)
      → (id == dropped) ≡ false
      → is_listed t target id (without_id t dropped rows) ≡ is_listed t target id rows
  is_listed-without dropped target id rows other = any_of-keep _ _ rows kept
    where
      kept :
          (r : R)
          → (t.id_of r == id && eqb (t.target_of r) target) ≡ true
          → not (t.id_of r == dropped) ≡ true
      kept r h = elim (Bool-cases (t.id_of r == id)) [
        | inl same ↦ rw ((eq_iff (t.id_of r) id).0 same, other) refl
        | inr apart ↦ absurd (cc (rw apart at h))
      ]

  pub AreApart-replace :
      (old new : R) (rows : List R)
      → find_in t (t.id_of new) rows ≡ some old
      → t.id_of new ≡ t.id_of old
      → AreApart t rows
      → AreApart t (replace_in t new rows)
  AreApart-replace old new rows found ids h id =
      rw (count_of-replace t old new (λ r. t.id_of r == id) rows found (ap (λ x. x == id) ids))
        (h id)

  pub AreApart-without :
      (dropped : String) (rows : List R) → AreApart t rows → AreApart t (without_id t dropped rows)
  AreApart-without dropped rows h id =
      omega
        (arith, count_of-keep (λ r. t.id_of r == id) (λ r. not (t.id_of r == dropped)) rows, h id)

pub HasProfile-Stays :
    (before after : List LinuxCredentialProfile) (hosts : List LinuxHost)
    → Stays profile_table before after
    → All (HasProfile before) hosts
    → All (HasProfile after) hosts
HasProfile-Stays before after hosts stays h =
    All-mono _ _ hosts (λ host fits id e. stays host.target_system_id id (fits id e)) h

pub Joins-Stays :
    (groups groups_after : List LinuxServerGroup) (hosts hosts_after : List LinuxHost)
    (members : List LinuxServerGroupHost)
    → Stays group_table groups groups_after
    → Stays host_table hosts hosts_after
    → All (Joins groups hosts) members
    → All (Joins groups_after hosts_after) members
Joins-Stays groups groups_after hosts hosts_after members gs hs h =
    All-mono _ _ members
      (λ m (target, g, k). (target, gs target m.group_id g, hs target m.host_id k)) h
