-- ===== src/Admin/TargetSystems/RowsSound.antt =====
-- What the rows of the target systems keep, and the writes of the database that keep it.
use idm_mw.Prelude.{
  ℕ, ◌<◌, ◌≡◌, false, Option, none, some, [], ◌∷◌, All, All-append, or_else, inl, inr, Bool-cases,
  Option-cases, arith,
}
use idm_mw.Json.{Fields}
use idm_mw.Effects.{ok}
use idm_mw.Effects.Results.{Result-cases}
use idm_mw.Core.World.{World, TargetSystem, fails_now}
use idm_mw.Core.World.Stable.{IsStable}
use idm_mw.Connectors.Registry.{config_of}
use idm_mw.Admin.TargetConfig.{validate_target_system_config}
use idm_mw.Admin.TargetRows.{
  CreateTargetSystemDto, UpdateTargetSystemDto, find_id, is_taken, has_name, new_row, updated,
  needs_current, next_config,
}
use idm_mw.Admin.TargetSystems.{insert_row, update_row, delete_row, merged_config}
use idm_mw.Admin.TargetSystems.Apart.{
  AreApart, IsValidRow, All-replace, All-without, All-find, AreApart-without, AreApart-replace,
  AreApart-snoc, below_mono,
}

pub record IsSound {E : Type 0} (w : World E) : Type 0 where
  pub apart : AreApart w.target_systems
  pub below : All (λ (t : TargetSystem). t.id < w.next_id) w.target_systems
  pub valid : All IsValidRow w.target_systems

-- The updated row passes the checks.
abbrev pub Fits : UpdateTargetSystemDto → Option Fields → TargetSystem → Type 0
Fits dto next t = IsValidRow t → (now : ℕ) → IsValidRow (updated dto next now t)

pub updated-IsValidRow :
    (dto : UpdateTargetSystemDto) (next : Option Fields) (t : TargetSystem) (now : ℕ)
    (config : Fields)
    → config_of t.config ≡ ok config
    → validate_target_system_config (or_else dto.type t.type) (or_else next config) ≡ ok tt
    → IsValidRow (updated dto next now t)
updated-IsValidRow dto none t now config read h =
    λ fs e. let same : config ≡ fs = cc (read, e) in rw same at h
updated-IsValidRow dto (some new) t now config read h =
    λ fs e. let same : new ≡ fs = cc e in rw same at h

pub untouched-Fits :
    (dto : UpdateTargetSystemDto) (t : TargetSystem) → needs_current dto ≡ false → Fits dto none t
untouched-Fits dto t e h now = elim (Option-cases dto.config) [
  | inr (c, sent) ↦ absurd (cc (rw sent at e))
  | inl kept ↦ elim (Option-cases dto.type) [
    | inr (c, sent) ↦ absurd (cc (rw (kept, sent) at e))
    | inl same ↦ rw same h
  ]
]

module _ {E : Type 0} where
  pub IsSound-stable : IsStable (IsSound {E = E})
  IsSound-stable = record {
    at = λ w o h. record { apart = h.apart; below = h.below; valid = h.valid };
  }

  pub insert_row-at :
      (dto : CreateTargetSystemDto) (w : World E)
      → validate_target_system_config dto.type dto.config ≡ ok tt
      → IsSound w
      → IsSound (insert_row dto w).1
  unfolding insert_row
  insert_row-at dto w fits h = elim (Bool-cases (has_name dto.name w.target_systems)) [
    | inl taken ↦ rw taken h
    | inr free ↦
        let row = new_row w.next_id w.clock dto in
        let new_fits : IsValidRow row =
          λ fs e. let same : dto.config ≡ fs = cc e in rw same at fits in
        rw free (record {
          apart = AreApart-snoc w.target_systems row free h.below h.apart;
          below =
              All-append _ w.target_systems (row ∷ [])
                (below_mono w.next_id w.target_systems h.below) (omega arith, tt);
          valid = All-append _ w.target_systems (row ∷ []) h.valid (new_fits, tt);
        })
  ]

  pub update_row-at :
      (id : ℕ) (dto : UpdateTargetSystemDto) (next : Option Fields) (w : World E)
      → ((t : TargetSystem) → find_id id w.target_systems ≡ some t → Fits dto next t)
      → IsSound w
      → IsSound (update_row id dto next w).1
  unfolding update_row
  update_row-at id dto next w fits h = elim (Option-cases (find_id id w.target_systems)) [
    | inl missing ↦ rw missing h
    | inr (t, found) ↦
        let new = updated dto next w.clock t in
        elim (Bool-cases (is_taken new.name t.id w.target_systems)) [
          | inl taken ↦ rw (found, taken) h
          | inr free ↦
              rw (found, free)
                (record {
                  apart = AreApart-replace new w.target_systems free h.apart;
                  below =
                      All-replace _ new w.target_systems
                        (All-find _ id w.target_systems t h.below found) h.below;
                  valid =
                      All-replace _ new w.target_systems
                        (fits t found (All-find _ id w.target_systems t h.valid found) w.clock)
                        h.valid;
                })
        ]
  ]

  pub delete_row-at : (id : ℕ) (w : World E) → IsSound w → IsSound (delete_row id w).1
  unfolding delete_row
  delete_row-at id w h = elim (Option-cases (find_id id w.target_systems)) [
    | inl missing ↦ rw missing h
    | inr (t, found) ↦ rw found (record {
      apart = AreApart-without t.id w.target_systems h.apart;
      below = All-without _ t.id w.target_systems h.below;
      valid = All-without _ t.id w.target_systems h.valid;
    })
  ]

  pub merged_config-Fits :
      (id : ℕ) (dto : UpdateTargetSystemDto) (w u : World E) (next : Option Fields)
      → merged_config id dto w ≡ (ok next, u)
      → (t : TargetSystem) → find_id id w.target_systems ≡ some t
      → Fits dto next t
  unfolding merged_config
  merged_config-Fits id dto w u next e t found valid now = elim (Bool-cases (needs_current dto)) [
    | inr no_need ↦
        let same : none ≡ next = cc (rw no_need at e) in
        rw (← same) (untouched-Fits dto t no_need valid now)
    | inl need ↦ elim (Bool-cases (fails_now w.outages)) [
      | inl down ↦ absurd (cc (rw (need, down) at e))
      | inr up ↦ elim (Result-cases (config_of t.config)) [
        | inr (x, unread) ↦ absurd (cc (rw (need, up, found, unread) at e))
        | inl (config, read) ↦
            let merged = next_config config dto.config in
            elim (Result-cases
              (validate_target_system_config (or_else dto.type t.type) (or_else merged config))) [
                | inr (x, bad) ↦ absurd (cc (rw (need, up, found, read, bad) at e))
                | inl (tt, fits) ↦
                    let same : merged ≡ next = cc (rw (need, up, found, read, fits) at e) in
                    rw (← same) (updated-IsValidRow dto merged t now config read fits)
              ]
      ]
    ]
  ]
