-- ===== src/Admin/TargetSystems.antt =====
-- admin/target-system.service.ts: the service, over the rows of the database.
pub mod Masked
pub mod Apart
pub mod RowsSound
pub mod Sound
use mathlib.Core.Option
use mathlib.Core.List.{reverse}
use idm_mw.Prelude.{
  ℕ, suc, ◌+◌, String, ◌==◌, Bool, true, false, not, ◌&&◌, ◌||◌, Option, none, some, List, [], ◌∷◌,
  ◌++◌, map, eqb, keep, drop, includes, any_of, or_else, truthy, if◌then◌else◌,
}
use idm_mw.Json.{Json, str, obj, Fields, end}
use idm_mw.Effects.{
  Thrown, error, http, coded, processing_failure, other, Result, ok, throw, Exec, pure, raise, gets,
  modify, try_catch, ◌>>=◌, ◌>>◌,
}
use idm_mw.Effects.Results.{lift}
use idm_mw.Core.World.{World, TargetSystem, external}
use idm_mw.Connectors.{TestResult, set_field}
use idm_mw.Connectors.Registry.{config_of}
use idm_mw.Security.Redaction.{redact_fields, merge_config_preserving_secrets}
use idm_mw.Admin.TargetConfig.{validate_target_system_config}
use idm_mw.Admin.TargetRows.{
  CreateTargetSystemDto, UpdateTargetSystemDto, FindParams, to_public_target_system, public_rows,
  public_if_found, config_if_found, has_code, prisma_mutation_error, none_allowed, is_forbidden,
  type_fits, enabled_fits, take, find_id, find_name, replace, without, is_taken, has_name,
  name_taken, row_missing, new_row, updated, needs_current, next_config, matching,
}

module _ {E : Type 0} where
  -- A row with a new name, in one statement of the database.
  unfoldable pub insert_row : CreateTargetSystemDto → Exec (World E) TargetSystem
  insert_row dto w =
      let row = new_row w.next_id w.clock dto in
      if has_name dto.name w.target_systems then (throw name_taken, w) else (
        ok row,
        record w { target_systems = w.target_systems ++ (row ∷ []); next_id = suc w.next_id },
      )

  abbrev pub write_row :
      Option TargetSystem → (TargetSystem → TargetSystem) → Exec (World E) TargetSystem
  write_row none change w = (throw row_missing, w)
  write_row (some t) change w =
      if is_taken (change t).name t.id w.target_systems
      then (throw name_taken, w)
      else (ok (change t), record w { target_systems = replace (change t) w.target_systems })

  unfoldable pub update_row :
      ℕ → UpdateTargetSystemDto → Option Fields → Exec (World E) TargetSystem
  update_row id dto config w =
      write_row (find_id id w.target_systems) (updated dto config w.clock) w

  abbrev pub remove_row : Option TargetSystem → Exec (World E) TargetSystem
  remove_row none w = (throw row_missing, w)
  remove_row (some t) w = (ok t, record w { target_systems = without t.id w.target_systems })

  unfoldable pub delete_row : ℕ → Exec (World E) TargetSystem
  delete_row id w = remove_row (find_id id w.target_systems) w

  unfoldable pub find_all : FindParams → Exec (World E) (List TargetSystem)
  unfolding includes
  find_all p =
      if none_allowed p.allowed_types || is_forbidden (truthy p.type) p.allowed_types
      then pure []
      else (do
        items ← external (
            gets (λ w.
              take (or_else p.limit 50) (drop (or_else p.offset 0) (matching p w.target_systems))))
        lift (public_rows items))

  unfoldable pub find_by_id : ℕ → Exec (World E) (Option TargetSystem)
  find_by_id id = do
    item ← external (gets (λ w. find_id id w.target_systems))
    lift (public_if_found item)

  unfoldable pub find_by_name : String → Exec (World E) (Option TargetSystem)
  find_by_name name = do
    item ← external (gets (λ w. find_name name w.target_systems))
    lift (public_if_found item)

  unfoldable pub find_raw_config_by_name : String → Exec (World E) (Option Fields)
  find_raw_config_by_name name = do
    item ← external (gets (λ w. find_name name w.target_systems))
    lift (config_if_found item)

  -- `try { … } catch (error) { this.handlePrismaMutationError(error) }`
  abbrev pub guarded : Exec (World E) TargetSystem → Exec (World E) TargetSystem
  guarded body = try_catch body (λ e. raise (prisma_mutation_error e))

  unfoldable pub create : CreateTargetSystemDto → Exec (World E) TargetSystem
  create dto = guarded (do
    lift (validate_target_system_config dto.type dto.config)
    item ← external (insert_row dto)
    lift (to_public_target_system item))

  abbrev pub current_or_throw : Option TargetSystem → Exec (World E) TargetSystem
  current_or_throw none = raise (http 404 "TargetSystem not found")
  current_or_throw (some current) = pure current

  -- Where the configuration or the type changes, the stored one is read, merged and checked.
  unfoldable pub merged_config : ℕ → UpdateTargetSystemDto → Exec (World E) (Option Fields)
  merged_config id dto =
      if needs_current dto
      then (do
        found ← external (gets (λ w. find_id id w.target_systems))
        current ← current_or_throw found
        config ← lift (config_of current.config)
        let next = next_config config dto.config
        lift (validate_target_system_config (or_else dto.type current.type) (or_else next config))
        pure next)
      else pure none

  unfoldable pub update : ℕ → UpdateTargetSystemDto → Exec (World E) TargetSystem
  update id dto = guarded (do
    next ← merged_config id dto
    item ← external (update_row id dto next)
    lift (to_public_target_system item))

  unfoldable pub delete : ℕ → Exec (World E) TargetSystem
  delete id = guarded (do item ← external (delete_row id); lift (to_public_target_system item))

  -- `registry.testConnection` is the argument `test`.
  unfoldable pub test_connection :
      (String → Fields → Exec (World E) TestResult) → ℕ → Exec (World E) TestResult
  test_connection test id = do
    found ← external (gets (λ w. find_id id w.target_systems))
    elim found [
      | none ↦ pure (record { success = false; message = "TargetSystem not found" })
      | some t ↦ (do
        config ← lift (config_of t.config)
        test t.type (set_field "diagnosticTargetSystem" (str t.name) config))
    ]
