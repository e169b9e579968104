-- ===== src/Admin/Fleet/Tables.antt =====
-- The rows of a table of the Linux fleet under the writes of the database.
use idm_mw.Prelude.{
  suc, ◌≤◌, String, ◌==◌, eq_iff, ◌≡◌, refl, sym, ap, ◌∙◌, Bool, true, false, ◌||◌, some, List, [],
  ◌∷◌, ◌++◌, any_of, count_of, count_of-none, count_of-append, All, inl, inr, Bool-cases, eqb_iff,
  if◌then◌else◌, arith,
}
use idm_mw.Admin.FleetRows.{Table, find_in, replace_in, is_listed, has_id}

module _ {R : Type 0} (t : Table R) where
  pub id_of-find :
      (id : String) (rows : List R) (r : R) → find_in t id rows ≡ some r → t.id_of r ≡ id
  id_of-find id [] r h = absurd (cc h)
  id_of-find id (q ∷ rows) r h = elim (Bool-cases (t.id_of q == id)) [
    | inl same ↦
        let found : q ≡ r = cc (rw same at h) in
        ap t.id_of (sym found) ∙ (eq_iff (t.id_of q) id).0 same
    | inr other ↦ id_of-find id rows r (rw other at h)
  ]

  -- A row that is found by an id is found by its own.
  pub find_in_own :
      (id : String) (rows : List R) (r : R)
      → find_in t id rows ≡ some r
      → find_in t (t.id_of r) rows ≡ some r
  find_in_own id rows r h = ap (λ x. find_in t x rows) (id_of-find id rows r h) ∙ h

  pub All-find {κ} :
      (P : R → Type κ) (id : String) (rows : List R) (r : R)
      → All P rows
      → find_in t id rows ≡ some r
      → P r
  All-find P id [] r k h = absurd (cc h)
  All-find P id (q ∷ rows) r (p, k) h = elim (Bool-cases (t.id_of q == id)) [
    | inl same ↦ let found : q ≡ r = cc (rw same at h) in rw (← found) p
    | inr other ↦ All-find P id rows r k (rw other at h)
  ]

  -- A row that is found by its id is listed in its target system.
  pub is_listed-find :
      (id : String) (rows : List R) (r : R)
      → find_in t id rows ≡ some r
      → is_listed t (t.target_of r) id rows ≡ true
  is_listed-find id [] r h = absurd (cc h)
  is_listed-find id (q ∷ rows) r h = elim (Bool-cases (t.id_of q == id)) [
    | inl same ↦
        let found : q ≡ r = cc (rw same at h) in
        rw (same, found, (eqb_iff (t.target_of r) (t.target_of r)).1 refl) refl
    | inr other ↦ rw other (is_listed-find id rows r (rw other at h))
  ]

  module _ (old new : R) where
    pub any_of-replace :
        (p : R → Bool) (rows : List R)
        → find_in t (t.id_of new) rows ≡ some old
        → p new ≡ p old
        → any_of p (replace_in t new rows) ≡ any_of p rows
    any_of-replace p [] h same = absurd (cc h)
    any_of-replace p (r ∷ rows) h same = elim (Bool-cases (t.id_of r == t.id_of new)) [
      | inl here ↦
          let found : r ≡ old = cc (rw here at h) in
          rw here (ap (λ b. b || any_of p rows) (same ∙ ap p (sym found)))
      | inr there ↦ rw there (ap (λ b. p r || b) (any_of-replace p rows (rw there at h) same))
    ]

    pub count_of-replace :
        (p : R → Bool) (rows : List R)
        → find_in t (t.id_of new) rows ≡ some old
        → p new ≡ p old
        → count_of p (replace_in t new rows) ≡ count_of p rows
    count_of-replace p [] h same = absurd (cc h)
    count_of-replace p (r ∷ rows) h same = elim (Bool-cases (t.id_of r == t.id_of new)) [
      | inl here ↦
          let found : r ≡ old = cc (rw here at h) in
          let tests : p new ≡ p r = same ∙ ap p (sym found) in rw (here, tests) refl
      | inr there ↦
          rw there
            (ap (λ n. if p r then suc n else n) (count_of-replace p rows (rw there at h) same))
    ]

  pub All-replace {κ} :
      (P : R → Type κ) (new : R) (rows : List R)
      → P new
      → All P rows
      → All P (replace_in t new rows)
  All-replace P new [] p k = k
  All-replace P new (r ∷ rows) p (q, k) = elim (Bool-cases (t.id_of r == t.id_of new)) [
    | inl here ↦ rw here (p, k)
    | inr there ↦ rw there (q, All-replace P new rows p k)
  ]

  -- No two rows have the same id.
  abbrev pub AreApart : List R → Type 0
  AreApart rows = (id : String) → count_of (λ r. t.id_of r == id) rows ≤ 1

  pub AreApart-snoc :
      (new : R) (rows : List R)
      → has_id t (t.id_of new) rows ≡ false
      → AreApart rows
      → AreApart (rows ++ (new ∷ []))
  AreApart-snoc new rows free h id = elim (Bool-cases (t.id_of new == id)) [
    | inl same ↦
        let no_other =
          count_of-none (λ r. t.id_of r == id) rows
            (rw ((eq_iff (t.id_of new) id).0 same) at free) in
        omega (
          arith,
          count_of-append (λ r. t.id_of r == id) rows (new ∷ []),
          no_other,
          one_at_most id new,
        )
    | inr other ↦
        rw (count_of-append (λ r. t.id_of r == id) rows (new ∷ []), other) (omega (arith, h id))
  ]
    where
      one_at_most : (id : String) (r : R) → count_of (λ x. t.id_of x == id) (r ∷ []) ≤ 1
      one_at_most id r = elim (Bool-cases (t.id_of r == id)) [
        | inl same ↦ rw same (omega arith)
        | inr other ↦ rw other (omega arith)
      ]
