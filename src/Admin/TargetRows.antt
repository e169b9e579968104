-- ===== src/Admin/TargetRows.antt =====
-- admin/target-system.service.ts: its records, and what the database does with its rows. The column
-- `config` is what JsonHelper reads back from it, or throws; a value that was just stored is read back,
-- as the round trip of JsonHelper has it, and storing does not throw, since the keyring was checked at
-- the start; rows stand in the order of `createdAt`.
use mathlib.Core.List.{reverse}
use idm_mw.Prelude.{
  ℕ, suc, String, ◌==◌, Bool, true, false, not, ◌&&◌, Option, none, some, List, [], ◌∷◌, eqb, keep,
  includes, any_of, or_else, truthy, if◌then◌else◌,
}
use idm_mw.Json.{obj, Fields}
use idm_mw.Effects.{Thrown, error, http, coded, processing_failure, other, Result, ok}
use idm_mw.Effects.Results.{◌>>=◌}
use idm_mw.Core.World.{TargetSystem}
use idm_mw.Connectors.Registry.{config_of}
use idm_mw.Security.Redaction.{redact_fields, merge_config_preserving_secrets}

pub record CreateTargetSystemDto : Type 0 where
  pub name : String
  pub type : String
  pub label : String
  pub config : Fields
  pub enabled : Option Bool

pub record UpdateTargetSystemDto : Type 0 where
  pub name : Option String
  pub type : Option String
  pub label : Option String
  pub config : Option Fields
  pub enabled : Option Bool

pub record FindParams : Type 0 where
  pub type : Option String
  pub enabled : Option Bool
  pub limit : Option ℕ
  pub offset : Option ℕ
  pub allowed_types : Option (List String)

-- The row with its configuration redacted, if that can be read.
unfoldable pub to_public_target_system : TargetSystem → Result TargetSystem
to_public_target_system item = config_of item.config >>= λ config.
    ok (record item { config = ok (obj (redact_fields config)) })

-- `items.map((item) => this.toPublicTargetSystem(item))`
unfoldable pub public_rows : List TargetSystem → Result (List TargetSystem)
unfolding to_public_target_system
public_rows [] = ok []
public_rows (t ∷ ts) =
    to_public_target_system t >>= λ shown. public_rows ts >>= λ rest. ok (shown ∷ rest)

unfoldable pub public_if_found : Option TargetSystem → Result (Option TargetSystem)
unfolding to_public_target_system
public_if_found none = ok none
public_if_found (some t) = to_public_target_system t >>= λ shown. ok (some shown)

abbrev pub config_if_found : Option TargetSystem → Result (Option Fields)
config_if_found none = ok none
config_if_found (some t) = config_of t.config >>= λ config. ok (some config)

abbrev pub has_code : Thrown → String → Bool
has_code (coded c m) code = c == code
has_code (error m) code = false
has_code (processing_failure m d c) code = false
has_code (http s m) code = false
has_code (other m) code = false

-- What is thrown in place of an error.
unfoldable pub prisma_mutation_error : Thrown → Thrown
prisma_mutation_error e =
    if has_code e "P2002"
    then http 409 "TargetSystem name already exists"
    else (if has_code e "P2025" then http 404 "TargetSystem not found" else e)

abbrev pub none_allowed : Option (List String) → Bool
none_allowed (some []) = true
none_allowed _ = false

-- `params.type && params.allowedTypes && !params.allowedTypes.includes(params.type)`
abbrev pub is_forbidden : Option String → Option (List String) → Bool
is_forbidden (some type) (some types) = not (includes types type)
is_forbidden _ _ = false

abbrev pub type_fits : Option String → Option (List String) → String → Bool
type_fits (some asked) allowed type = type == asked
type_fits none (some types) type = includes types type
type_fits none none type = true

abbrev pub enabled_fits : Option Bool → Bool → Bool
enabled_fits none enabled = true
enabled_fits (some true) enabled = enabled
enabled_fits (some false) enabled = not enabled

abbrev pub take : ℕ → List TargetSystem → List TargetSystem
take ℕ.zero xs = []
take (suc n) [] = []
take (suc n) (x ∷ xs) = x ∷ take n xs

abbrev pub find_id : ℕ → List TargetSystem → Option TargetSystem
find_id id [] = none
find_id id (t ∷ ts) = if eqb t.id id then some t else find_id id ts

abbrev pub find_name : String → List TargetSystem → Option TargetSystem
find_name name [] = none
find_name name (t ∷ ts) = if t.name == name then some t else find_name name ts

abbrev pub replace : TargetSystem → List TargetSystem → List TargetSystem
replace new [] = []
replace new (t ∷ ts) = if eqb t.id new.id then new ∷ ts else t ∷ replace new ts

abbrev pub without : ℕ → List TargetSystem → List TargetSystem
without id [] = []
without id (t ∷ ts) = if eqb t.id id then ts else t ∷ without id ts

-- Another row has the name.
abbrev pub is_taken : String → ℕ → List TargetSystem → Bool
is_taken name id rows = any_of (λ (t : TargetSystem). t.name == name && not (eqb t.id id)) rows

-- Some row has the name.
abbrev pub has_name : String → List TargetSystem → Bool
has_name name rows = any_of (λ (t : TargetSystem). t.name == name) rows

abbrev pub name_taken : Thrown
name_taken = coded "P2002" "Unique constraint failed on the fields: (`name`)"

abbrev pub row_missing : Thrown
row_missing =
    coded "P2025"
      "An operation failed because it depends on one or more records that were required but not found."

abbrev pub new_row : ℕ → ℕ → CreateTargetSystemDto → TargetSystem
new_row id now dto = record {
  id = id;
  name = dto.name;
  type = dto.type;
  label = dto.label;
  config = ok (obj dto.config);
  enabled = or_else dto.enabled true;
  updated_at = now;
}

-- The row with the columns that the update sets; `config` is the merged configuration.
abbrev pub updated : UpdateTargetSystemDto → Option Fields → ℕ → TargetSystem → TargetSystem
updated dto config now t = record {
  id = t.id;
  name = or_else dto.name t.name;
  type = or_else dto.type t.type;
  label = or_else dto.label t.label;
  config = elim config [ none ↦ t.config | some fs ↦ ok (obj fs) ];
  enabled = or_else dto.enabled t.enabled;
  updated_at = now;
}

-- `dto.config !== undefined || dto.type !== undefined`
abbrev pub needs_current : UpdateTargetSystemDto → Bool
needs_current dto = elim dto.config [
  | some c ↦ true
  | none ↦ elim dto.type [ some t ↦ true | none ↦ false ]
]

abbrev pub next_config : Fields → Option Fields → Option Fields
next_config current none = none
next_config current (some incoming) = some (merge_config_preserving_secrets current incoming)

unfoldable pub matching : FindParams → List TargetSystem → List TargetSystem
matching p rows =
    keep
      (λ (t : TargetSystem).
        type_fits (truthy p.type) p.allowed_types t.type && enabled_fits p.enabled t.enabled)
      (reverse rows)
