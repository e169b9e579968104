-- ===== src/Admin/FleetRows.antt =====
-- admin/linux-fleet.service.ts: the rows of the Linux fleet in prisma/schema.prisma and what the
-- database does with them. The column `metadata` is what JsonHelper reads back from it, or throws.
use idm_mw.Prelude.{
  ℕ, suc, String, ◌==◌, Bool, true, false, not, ◌&&◌, ◌||◌, Option, none, some, List, [], ◌∷◌, ◌++◌,
  eqb, keep, map, any_of, if◌then◌else◌,
}
use idm_mw.Json.{Json}
use idm_mw.Effects.{Result}
use idm_mw.Effects.{Thrown, coded, ok, throw, Exec}
use idm_mw.Core.World.{World}

-- model LinuxCredentialProfile
pub record LinuxCredentialProfile : Type 0 where
  pub id : String
  pub target_system_id : ℕ
  pub name : String
  pub mode : String
  pub username : String
  pub private_key_ref : Option String
  pub password_ref : Option String
  pub enabled : Bool

-- model LinuxHost
pub record LinuxHost : Type 0 where
  pub id : String
  pub target_system_id : ℕ
  pub credential_profile_id : Option String
  pub name : String
  pub host : String
  pub port : ℕ
  pub host_fingerprint : String
  pub enabled : Bool
  pub metadata : Result Json

-- model LinuxServerGroup
pub record LinuxServerGroup : Type 0 where
  pub id : String
  pub target_system_id : ℕ
  pub code : String
  pub name : String
  pub description : Option String
  pub enabled : Bool

-- model LinuxServerGroupHost
pub record LinuxServerGroupHost : Type 0 where
  pub group_id : String
  pub host_id : String

-- The tables.
pub record Fleet : Type 0 where
  pub profiles : List LinuxCredentialProfile
  pub hosts : List LinuxHost
  pub groups : List LinuxServerGroup
  pub members : List LinuxServerGroupHost

-- A table with the columns of its keys: the id, and one that is unique in its target system.
pub record Table (R : Type 0) : Type 0 where
  pub id_of : R → String
  pub target_of : R → ℕ
  pub key_of : R → String
  pub rows_of : Fleet → List R
  pub with_rows : List R → Fleet → Fleet

abbrev pub profile_table : Table LinuxCredentialProfile
profile_table = record {
  id_of = λ (r : LinuxCredentialProfile). r.id;
  target_of = λ (r : LinuxCredentialProfile). r.target_system_id;
  key_of = λ (r : LinuxCredentialProfile). r.name;
  rows_of = λ (f : Fleet). f.profiles;
  with_rows = λ rows (f : Fleet). record f { profiles = rows };
}

abbrev pub host_table : Table LinuxHost
host_table = record {
  id_of = λ (r : LinuxHost). r.id;
  target_of = λ (r : LinuxHost). r.target_system_id;
  key_of = λ (r : LinuxHost). r.name;
  rows_of = λ (f : Fleet). f.hosts;
  with_rows = λ rows (f : Fleet). record f { hosts = rows };
}

abbrev pub group_table : Table LinuxServerGroup
group_table = record {
  id_of = λ (r : LinuxServerGroup). r.id;
  target_of = λ (r : LinuxServerGroup). r.target_system_id;
  key_of = λ (r : LinuxServerGroup). r.code;
  rows_of = λ (f : Fleet). f.groups;
  with_rows = λ rows (f : Fleet). record f { groups = rows };
}

module _ {R : Type 0} (t : Table R) where
  abbrev pub find_in : String → List R → Option R
  find_in id [] = none
  find_in id (r ∷ rs) = if t.id_of r == id then some r else find_in id rs

  -- The row in place of the one with its id.
  abbrev pub replace_in : R → List R → List R
  replace_in new [] = []
  replace_in new (r ∷ rs) = if t.id_of r == t.id_of new then new ∷ rs else r ∷ replace_in new rs

  abbrev pub without_id : String → List R → List R
  without_id id rows = keep (λ r. not (t.id_of r == id)) rows

  -- A row with this id is in the target system.
  abbrev pub is_listed : ℕ → String → List R → Bool
  is_listed target id rows = any_of (λ r. t.id_of r == id && eqb (t.target_of r) target) rows

  abbrev pub has_id : String → List R → Bool
  has_id id rows = any_of (λ r. t.id_of r == id) rows

  -- Another row of the target system has the key.
  abbrev pub is_key_taken : R → List R → Bool
  is_key_taken new rows =
      any_of
        (λ r.
          not (t.id_of r == t.id_of new)
          && (eqb (t.target_of r) (t.target_of new) && t.key_of r == t.key_of new))
        rows

abbrev pub key_taken : Thrown
key_taken = coded "P2002" "Unique constraint failed"

abbrev pub no_row : Thrown
no_row = coded "P2025" "No record was found"

module _ {R : Type 0} (t : Table R) where
  -- A new row, under an id that the database draws.
  unfoldable pub insert_into : (uuid : ℕ → String) → (String → R) → Exec (World Fleet) R
  insert_into uuid make w =
      let new = make (uuid w.next_id) in
      let rows = t.rows_of w.env in
      if has_id t (t.id_of new) rows || is_key_taken t new rows then (throw key_taken, w) else (
        ok new,
        record w { env = t.with_rows (rows ++ (new ∷ [])) w.env; next_id = suc w.next_id },
      )

  abbrev pub write_found : Option R → (R → R) → Exec (World Fleet) R
  write_found none change w = (throw no_row, w)
  write_found (some r) change w =
      if is_key_taken t (change r) (t.rows_of w.env) then (throw key_taken, w) else (
        ok (change r),
        record w { env = t.with_rows (replace_in t (change r) (t.rows_of w.env)) w.env },
      )

  unfoldable pub update_in : String → (R → R) → Exec (World Fleet) R
  update_in id change w = write_found (find_in t id (t.rows_of w.env)) change w

-- `onDelete: SetNull`
abbrev pub forget_profile : String → LinuxHost → LinuxHost
forget_profile id h = elim h.credential_profile_id [
  | none ↦ h
  | some p ↦ if p == id then record h { credential_profile_id = none } else h
]

abbrev pub drop_profile : String → Fleet → Fleet
drop_profile id f = record f {
  profiles = without_id profile_table id f.profiles;
  hosts = map (forget_profile id) f.hosts;
}

-- `onDelete: Cascade`
abbrev pub drop_host : String → Fleet → Fleet
drop_host id f = record f {
  hosts = without_id host_table id f.hosts;
  members = keep (λ (m : LinuxServerGroupHost). not (m.host_id == id)) f.members;
}

abbrev pub drop_group : String → Fleet → Fleet
drop_group id f = record f {
  groups = without_id group_table id f.groups;
  members = keep (λ (m : LinuxServerGroupHost). not (m.group_id == id)) f.members;
}

-- The deletion of a row by its id, with what follows from it.
abbrev pub delete_if : Bool → (Fleet → Fleet) → Exec (World Fleet) (Unit {0})
delete_if false drop w = (throw no_row, w)
delete_if true drop w = (ok tt, record w { env = drop w.env })

abbrev pub members_of : String → List String → List LinuxServerGroupHost
members_of group_id ids = map (λ id. record { group_id = group_id; host_id = id }) ids

-- The members of the group are replaced, in one transaction.
abbrev pub set_members : String → List String → Fleet → Fleet
set_members group_id ids f = record f {
  members =
      keep (λ (m : LinuxServerGroupHost). not (m.group_id == group_id)) f.members
      ++ members_of group_id ids;
}
