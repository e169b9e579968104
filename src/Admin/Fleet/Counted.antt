-- ===== src/Admin/Fleet/Counted.antt =====
-- A group's hosts are counted: where the count is right, each of them is in the target system.
use idm_mw.Prelude.{
  ℕ, ◌+◌, ◌≤◌, String, ◌==◌, eq_iff, eq_refl, ◌≡◌, refl, sym, Bool, true, false, not, ◌&&◌, ◌||◌,
  List, [], ◌∷◌, count_of, count_of-none, count_of-le, keep, length, includes, All, inl, inr,
  Bool-cases, eqb, arith,
}
use idm_mw.Admin.Rbac.{distinct}
use idm_mw.Admin.FleetRows.{Table, is_listed}
use idm_mw.Admin.Fleet.Tables.{AreApart}

-- Of texts that differ one way, the comparison the other way is false too.
differs : (a b : String) → (a == b) ≡ false → (b == a) ≡ false
differs a b other = elim (Bool-cases (b == a)) [
  | inl same ↦ absurd (cc (other, (eq_iff a b).1 (sym ((eq_iff b a).0 same))))
  | inr apart ↦ apart
]

abbrev pub AreDistinct : List String → Type 0
AreDistinct [] = Unit
AreDistinct (id ∷ ids) = (includes ids id ≡ false) × AreDistinct ids

module _ {R : Type 0} (t : Table R) where
  -- How many rows with one of these ids are in the target system.
  abbrev pub count_in : ℕ → List String → List R → ℕ
  count_in target ids rows =
      count_of (λ r. includes ids (t.id_of r) && eqb (t.target_of r) target) rows

  -- At most one row has the id.
  one_listed_at_most :
      (target : ℕ) (id : String) (rows : List R)
      → AreApart t rows
      → count_of (λ r. t.id_of r == id && eqb (t.target_of r) target) rows ≤ 1
  one_listed_at_most target id rows h =
      let fewer =
        count_of-le (λ r. t.id_of r == id && eqb (t.target_of r) target) (λ r. t.id_of r == id) rows
          (λ r e. first_of (t.id_of r == id) (eqb (t.target_of r) target) e) in
      omega (arith, fewer, h id)
    where
      first_of : (a b : Bool) → (a && b) ≡ true → a ≡ true
      first_of true b e = refl
      first_of false b e = absurd (cc e)

  -- An id that is not among the others adds the rows with the id.
  counted :
      (target : ℕ) (id : String) (ids : List String) (rows : List R)
      → includes ids id ≡ false
      → count_in target (id ∷ ids) rows
        ≡ count_of (λ r. t.id_of r == id && eqb (t.target_of r) target) rows
          + count_in target ids rows
  unfolding includes
  counted target id ids [] other = omega arith
  counted target id ids (r ∷ rows) other =
      let rest = counted target id ids rows other in
      elim (Bool-cases (eqb (t.target_of r) target)) [
        | inr elsewhere ↦
            rw
              (
                elsewhere,
                and_false (t.id_of r == id),
                and_false (id == t.id_of r || includes ids (t.id_of r)),
                and_false (includes ids (t.id_of r)),
              )
              rest
        | inl here ↦ elim (Bool-cases (t.id_of r == id)) [
          | inl same ↦
              let e = (eq_iff (t.id_of r) id).0 same in
              rw (here, e, eq_refl id, other) (omega (arith, rest))
          | inr apart ↦ elim (Bool-cases (includes ids (t.id_of r))) [
            | inl among ↦
                rw (here, apart, differs (t.id_of r) id apart, among) (omega (arith, rest))
            | inr none_of ↦ rw (here, apart, differs (t.id_of r) id apart, none_of) rest
          ]
        ]
      ]
    where
      and_false : (b : Bool) → (b && false) ≡ false
      and_false true = refl
      and_false false = refl

  count_in-none : (target : ℕ) (rows : List R) → count_in target [] rows ≡ 0
  unfolding includes
  count_in-none target [] = refl
  count_in-none target (r ∷ rows) = count_in-none target rows

  count_in-le :
      (target : ℕ) (ids : List String) (rows : List R)
      → AreApart t rows
      → AreDistinct ids
      → count_in target ids rows ≤ length ids
  count_in-le target [] rows h d = omega (arith, count_in-none target rows)
  count_in-le target (id ∷ ids) rows h (fresh, d) = omega (
    arith,
    counted target id ids rows fresh,
    one_listed_at_most target id rows h,
    count_in-le target ids rows h d,
  )

  -- Where as many rows of the target system have one of the ids as there are ids, each id is listed.
  pub All-is_listed :
      (target : ℕ) (ids : List String) (rows : List R)
      → AreApart t rows
      → AreDistinct ids
      → count_in target ids rows ≡ length ids
      → All (λ id. is_listed t target id rows ≡ true) ids
  All-is_listed target [] rows h d e = tt
  All-is_listed target (id ∷ ids) rows h (fresh, d) e =
      let here : R → Bool = λ r. t.id_of r == id && eqb (t.target_of r) target in
      let split = counted target id ids rows fresh in
      let rest = count_in-le target ids rows h d in
      let one = one_listed_at_most target id rows h in
      elim (Bool-cases (is_listed t target id rows)) [
        | inl listed ↦
            (listed, All-is_listed target ids rows h d (omega (arith, split, rest, one, e)))
        | inr unlisted ↦ absurd (omega (arith, split, rest, count_of-none here rows unlisted, e))
      ]

includes-keep :
    (p : String → Bool) (ids : List String) (id : String)
    → includes ids id ≡ false
    → includes (keep p ids) id ≡ false
unfolding includes
includes-keep p [] id h = h
includes-keep p (x ∷ ids) id h = elim (Bool-cases (x == id)) [
  | inl same ↦ absurd (cc (rw same at h))
  | inr other ↦ elim (Bool-cases (p x)) [
    | inl kept ↦ rw (kept, other) (includes-keep p ids id (rw other at h))
    | inr dropped ↦ rw dropped (includes-keep p ids id (rw other at h))
  ]
]

AreDistinct-keep :
    (p : String → Bool) (ids : List String) → AreDistinct ids → AreDistinct (keep p ids)
AreDistinct-keep p [] h = tt
AreDistinct-keep p (x ∷ ids) (fresh, h) = elim (Bool-cases (p x)) [
  | inl kept ↦ rw kept (includes-keep p ids x fresh, AreDistinct-keep p ids h)
  | inr dropped ↦ rw dropped (AreDistinct-keep p ids h)
]

includes-keep_others :
    (id : String) (ids : List String) → includes (keep (λ x. not (id == x)) ids) id ≡ false
unfolding includes
includes-keep_others id [] = refl
includes-keep_others id (x ∷ ids) = elim (Bool-cases (id == x)) [
  | inl same ↦ rw same (includes-keep_others id ids)
  | inr other ↦ rw (other, differs id x other) (includes-keep_others id ids)
]

pub AreDistinct-distinct : (ids : List String) → AreDistinct (distinct ids)
unfolding distinct
AreDistinct-distinct [] = tt
AreDistinct-distinct (id ∷ ids) = (
  includes-keep_others id (distinct ids),
  AreDistinct-keep (λ x. not (id == x)) (distinct ids) (AreDistinct-distinct ids),
)
