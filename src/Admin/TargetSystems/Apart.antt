-- ===== src/Admin/TargetSystems/Apart.antt =====
-- Names and ids of the rows of target systems differ, whatever row is written.
use idm_mw.Prelude.{
  ℕ, suc, ◌<◌, String, ◌≡◌, ◌≢◌, sym, ◌∙◌, eq_iff, false, some, List, [], ◌∷◌, ◌++◌, All,
  All-append, eqb, eqb_iff, inl, inr, Bool-cases, arith,
}
use idm_mw.Effects.{ok}
use idm_mw.Core.World.{TargetSystem}
use idm_mw.Json.{Fields}
use idm_mw.Connectors.Registry.{config_of}
use idm_mw.Admin.TargetConfig.{validate_target_system_config}
use idm_mw.Admin.TargetRows.{find_id, replace, without, is_taken, has_name}

abbrev pub IsApart : TargetSystem → TargetSystem → Type 0
IsApart t u = (t.name ≢ u.name) × (t.id ≢ u.id)

abbrev pub AreApart : List TargetSystem → Type 0
AreApart [] = Unit
AreApart (t ∷ ts) = All (IsApart t) ts × AreApart ts

-- The configuration, if it can be read, passes the checks for the row's type.
abbrev pub IsValidRow : TargetSystem → Type 0
IsValidRow t =
    (config : Fields)
    → config_of t.config ≡ ok config
    → validate_target_system_config t.type config ≡ ok tt

-- The rows under the writes of the database.
module _ (P : TargetSystem → Type 0) where
  pub All-replace :
      (new : TargetSystem) (rows : List TargetSystem)
      → P new
      → All P rows
      → All P (replace new rows)
  All-replace new [] p h = tt
  All-replace new (t ∷ ts) p (q, h) = elim (Bool-cases (eqb t.id new.id)) [
    | inl same ↦ rw same (p, h)
    | inr other ↦ rw other (q, All-replace new ts p h)
  ]

  pub All-without : (id : ℕ) (rows : List TargetSystem) → All P rows → All P (without id rows)
  All-without id [] h = tt
  All-without id (t ∷ ts) (q, h) = elim (Bool-cases (eqb t.id id)) [
    | inl same ↦ rw same h
    | inr other ↦ rw other (q, All-without id ts h)
  ]

  pub All-find :
      (id : ℕ) (rows : List TargetSystem) (t : TargetSystem)
      → All P rows
      → find_id id rows ≡ some t
      → P t
  All-find id [] t h e = absurd (cc e)
  All-find id (x ∷ xs) t (p, h) e = elim (Bool-cases (eqb x.id id)) [
    | inl same ↦ let it : x ≡ t = cc (rw same at e) in rw (← it) p
    | inr other ↦ All-find id xs t h (rw other at e)
  ]

pub AreApart-without :
    (id : ℕ) (rows : List TargetSystem) → AreApart rows → AreApart (without id rows)
AreApart-without id [] h = tt
AreApart-without id (t ∷ ts) (p, h) = elim (Bool-cases (eqb t.id id)) [
  | inl same ↦ rw same h
  | inr other ↦ rw other (All-without (IsApart t) id ts p, AreApart-without id ts h)
]

tail_free :
    (name : String) (id : ℕ) (u : TargetSystem) (us : List TargetSystem)
    → is_taken name id (u ∷ us) ≡ false
    → is_taken name id us ≡ false
tail_free name id u us h = ground (arith, h)

head_free :
    (name : String) (id : ℕ) (u : TargetSystem) (us : List TargetSystem)
    → is_taken name id (u ∷ us) ≡ false
    → id ≢ u.id
    → u.name ≢ name
head_free name id u us h ne same = ground (arith, h, ne, (eq_iff u.name name).1 same)

-- A row whose name no other row has is apart from the others.
IsApart-of_free :
    (new : TargetSystem) (rows : List TargetSystem)
    → is_taken new.name new.id rows ≡ false
    → All (λ (u : TargetSystem). new.id ≢ u.id) rows
    → All (IsApart new) rows
IsApart-of_free new [] free h = tt
IsApart-of_free new (u ∷ us) free (ne, h) = (
  (λ e. head_free new.name new.id u us free ne (sym e), ne),
  IsApart-of_free new us (tail_free new.name new.id u us free) h,
)

ids_of :
    (t : TargetSystem) (rows : List TargetSystem) (id : ℕ)
    → t.id ≡ id
    → All (IsApart t) rows
    → All (λ (u : TargetSystem). id ≢ u.id) rows
ids_of t [] id e h = tt
ids_of t (u ∷ us) id e ((_, ne), h) = (λ k. ne (e ∙ k), ids_of t us id e h)

pub AreApart-replace :
    (new : TargetSystem) (rows : List TargetSystem)
    → is_taken new.name new.id rows ≡ false
    → AreApart rows
    → AreApart (replace new rows)
AreApart-replace new [] free h = tt
AreApart-replace new (t ∷ ts) free (p, h) =
    let rest = tail_free new.name new.id t ts free in
    elim (Bool-cases (eqb t.id new.id)) [
      | inl same ↦
          rw same
            (IsApart-of_free new ts rest (ids_of t ts new.id ((eqb_iff t.id new.id).0 same) p), h)
      | inr other ↦
          let differ : t.id ≢ new.id = λ e. cc (other, (eqb_iff t.id new.id).1 e) in
          rw other (
            All-replace (IsApart t) new ts
                (head_free new.name new.id t ts free (λ e. differ (sym e)), differ) p,
            AreApart-replace new ts rest h,
          )
    ]

pub AreApart-snoc :
    (rows : List TargetSystem) (new : TargetSystem)
    → has_name new.name rows ≡ false
    → All (λ (t : TargetSystem). t.id < new.id) rows
    → AreApart rows
    → AreApart (rows ++ (new ∷ []))
AreApart-snoc [] new free below h = (tt, tt)
AreApart-snoc (t ∷ ts) new free (lt, below) (p, h) =
    let apart : IsApart t new =
      (λ e. ground (arith, free, (eq_iff t.name new.name).1 e), λ e. absurd (omega (arith, e))) in
    (
      All-append (IsApart t) ts (new ∷ []) p (apart, tt),
      AreApart-snoc ts new (ground (arith, free)) below h,
    )

pub below_mono :
    (n : ℕ) (rows : List TargetSystem)
    → All (λ (t : TargetSystem). t.id < n) rows
    → All (λ (t : TargetSystem). t.id < suc n) rows
below_mono n [] h = tt
below_mono n (t ∷ ts) (lt, h) = (omega arith, below_mono n ts h)

pub found_id :
    (id : ℕ) (rows : List TargetSystem) (t : TargetSystem) → find_id id rows ≡ some t → t.id ≡ id
found_id id [] t e = absurd (cc e)
found_id id (x ∷ xs) t e = elim (Bool-cases (eqb x.id id)) [
  | inl same ↦ let it : x ≡ t = cc (rw same at e) in rw (← it) ((eqb_iff x.id id).0 same)
  | inr other ↦ found_id id xs t (rw other at e)
]
