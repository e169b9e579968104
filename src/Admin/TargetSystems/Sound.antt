-- ===== src/Admin/TargetSystems/Sound.antt =====
-- The rows of the target systems under any calls of the service: names and ids differ, and every
-- configuration passes the checks for its type.
use idm_mw.Prelude.{ℕ, ◌≡◌, refl, Option, none, some, List, [], ◌∷◌, inl, inr, Bool-cases}
use idm_mw.Json.{Fields}
use idm_mw.Effects.{gets, ◌>>=◌, outcome-cases}
use idm_mw.Effects.Results.{lift, Result-cases}
use idm_mw.Connectors.Registry.{config_of}
use idm_mw.Effects.Preserves.{
  Preserves, Preserves-bind, Preserves-then, Preserves-pure, Preserves-raise, Preserves-try,
  Preserves-if, Preserves-gets, Preserves-lift,
}
use idm_mw.Core.World.{World, TargetSystem, external, fails_now, later}
use idm_mw.Core.World.Stable.{IsStable, Preserves-external}
use idm_mw.Admin.TargetConfig.{validate_target_system_config}
use idm_mw.Admin.TargetRows.{
  CreateTargetSystemDto, UpdateTargetSystemDto, find_id, needs_current, to_public_target_system,
}
use idm_mw.Admin.TargetSystems.{
  insert_row, update_row, delete_row, create, update, delete, merged_config, current_or_throw,
}
use idm_mw.Admin.TargetSystems.RowsSound.{
  IsSound, Fits, IsSound-stable, insert_row-at, update_row-at, delete_row-at, merged_config-Fits,
}

module _ {E : Type 0} where
  -- Reading and checking changes no row.
  merged_config-Preserves :
      {P : World E → Type 0} (id : ℕ) (dto : UpdateTargetSystemDto)
      → IsStable P
      → Preserves P (merged_config id dto)
  unfolding merged_config
  merged_config-Preserves {P} id dto stable =
      Preserves-if (needs_current dto) _ _
        (Preserves-bind (external (gets (λ w. find_id id w.target_systems))) _
          (Preserves-external _ stable (Preserves-gets _))
          (λ found. Preserves-bind (current_or_throw found) _ (current-Preserves found) (λ current.
            Preserves-bind (lift (config_of current.config)) _ (Preserves-lift _)
              (λ config. Preserves-then _ _ (record { at = λ w h. h }) (Preserves-pure _)))))
        (Preserves-pure none)
    where
      current-Preserves :
          (found : Option TargetSystem) → Preserves P (current_or_throw {E = E} found)
      current-Preserves none = Preserves-raise _
      current-Preserves (some t) = Preserves-pure t

  IsSound-create : (dto : CreateTargetSystemDto) → Preserves (IsSound {E = E}) (create dto)
  unfolding create
  IsSound-create dto =
      Preserves-try _ _
        (record {
          at = λ w h. elim (Result-cases (validate_target_system_config dto.type dto.config)) [
            | inr (x, bad) ↦ rw bad h
            | inl (tt, fits) ↦ rw fits (
                (Preserves-bind (external (insert_row dto)) _
                    (Preserves-external (insert_row dto) IsSound-stable
                      (record { at = λ v k. insert_row-at dto v fits k }))
                    (λ item. Preserves-lift _)).at
                  w h)
          ];
        })
        (λ e. Preserves-raise _)

  IsSound-delete : (id : ℕ) → Preserves (IsSound {E = E}) (delete id)
  unfolding delete
  IsSound-delete id =
      Preserves-try _ _
        (Preserves-bind (external (delete_row id)) _
          (Preserves-external (delete_row id) IsSound-stable (record { at = delete_row-at id }))
          (λ item. Preserves-lift _))
        (λ e. Preserves-raise _)

  written :
      (id : ℕ) (dto : UpdateTargetSystemDto) (next : Option Fields) (w u : World E)
      → u.target_systems ≡ w.target_systems
      → ((t : TargetSystem) → find_id id w.target_systems ≡ some t → Fits dto next t)
      → IsSound u
      → IsSound
          ((external (update_row id dto next) >>= λ item. lift (to_public_target_system item)) u).1
  written id dto next w u same fits sound = elim (Bool-cases (fails_now u.outages)) [
    | inl down ↦ rw down (IsSound-stable.at u (later u.outages) sound)
    | inr up ↦
        let v : World E = record u { outages = later u.outages } in
        let done =
          update_row-at id dto next v (λ t found. fits t (rw same at found))
            (IsSound-stable.at u (later u.outages) sound) in
        rw up (elim (outcome-cases (update_row id dto next v)) [
          | inl (item, x, e) ↦ rw e (rw e at done)
          | inr (y, x, e) ↦ rw e (rw e at done)
        ])
  ]

  IsSound-update :
      (id : ℕ) (dto : UpdateTargetSystemDto) → Preserves (IsSound {E = E}) (update id dto)
  unfolding update
  IsSound-update id dto =
      Preserves-try _ _
        (record {
          at = λ w h. elim (outcome-cases (merged_config id dto w)) [
            | inr (x, u, e) ↦
                rw e (rw e at ((merged_config-Preserves id dto IsSound-stable).at w h))
            | inl (next, u, e) ↦
                let same : u.target_systems ≡ w.target_systems = rw e at (
                  (merged_config-Preserves
                      {P = λ (v : World E). v.target_systems ≡ w.target_systems} id dto
                      (record { at = λ v o k. k })).at
                    w refl) in
                let sound = rw e at ((merged_config-Preserves id dto IsSound-stable).at w h) in
                rw e (written id dto next w u same (merged_config-Fits id dto w u next e) sound)
          ];
        })
        (λ e. Preserves-raise _)

-- The calls that change target systems.
pub data Call : Type 0 where
  creates : CreateTargetSystemDto → Call
  updates : ℕ → UpdateTargetSystemDto → Call
  deletes : ℕ → Call

-- Calls one after the other, whatever the outcome of each.
pub run_all : {E : Type 0} → List Call → World E → World E
run_all [] w = w
run_all (creates dto ∷ calls) w = run_all calls (create dto w).1
run_all (updates id dto ∷ calls) w = run_all calls (update id dto w).1
run_all (deletes id ∷ calls) w = run_all calls (delete id w).1

-- After any calls of `create`, `update` and `delete`, in any order and whichever calls of the database
-- fail, the names and the ids of the target systems differ, each id is below the next one, and every
-- configuration that can be read passes the checks for the type of its row, also where an update changed only one of
-- the two.
pub run_all-IsSound :
    {E : Type 0} (calls : List Call) (w : World E) → IsSound w → IsSound (run_all calls w)
unfolding run_all
run_all-IsSound [] w h = h
run_all-IsSound (creates dto ∷ calls) w h = run_all-IsSound calls _ ((IsSound-create dto).at w h)
run_all-IsSound (updates id dto ∷ calls) w h =
    run_all-IsSound calls _ ((IsSound-update id dto).at w h)
run_all-IsSound (deletes id ∷ calls) w h = run_all-IsSound calls _ ((IsSound-delete id).at w h)
