-- ===== src/Core/Dlq/Rows.antt =====
-- The rows of the dead letter queue as a table keyed by their ids.
use idm_mw.Prelude.{
  ℕ, ◌≡◌, ◌≢◌, refl, sym, Bool, true, false, Option, none, some, List, [], ◌∷◌, All, arith, eqb,
  eqb_iff, count_of, if◌then◌else◌, Bool-cases, inl, inr,
}
use idm_mw.Core.World.{DlqItem}
use idm_mw.Core.Dlq.{find, update_many}

-- The primary key.
abbrev pub HasDistinctIds : List DlqItem → Type 0
HasDistinctIds [] = Unit
HasDistinctIds (i ∷ rest) = All (λ j. i.id ≢ j.id) rest × HasDistinctIds rest

abbrev pub changed : (DlqItem → Bool) → (DlqItem → DlqItem) → Option DlqItem → Option DlqItem
changed test change none = none
changed test change (some i) = some (if test i then change i else i)

abbrev pub hits : (DlqItem → Bool) → Option DlqItem → ℕ
hits test none = 0
hits test (some i) = if test i then 1 else 0

-- A change of rows keeps their ids.
abbrev pub KeepsId : (DlqItem → DlqItem) → Type 0
KeepsId change = (i : DlqItem) → (change i).id ≡ i.id

-- A test that only rows of that id pass.
abbrev pub IsFor : ℕ → (DlqItem → Bool) → Type 0
IsFor id test = (i : DlqItem) → test i ≡ true → i.id ≡ id

module _ (test : DlqItem → Bool) (change : DlqItem → DlqItem) (keeps : KeepsId change) where
  pub find-update_many :
      (id : ℕ) (rows : List DlqItem)
      → find id (update_many test change rows) ≡ changed test change (find id rows)
  unfolding find update_many
  find-update_many id [] = refl
  find-update_many id (i ∷ rest) = ground (arith, keeps i, find-update_many id rest)

  All-ne-update_many :
      (id : ℕ) (rows : List DlqItem)
      → All (λ j. id ≢ j.id) rows
      → All (λ j. id ≢ j.id) (update_many test change rows)
  unfolding update_many
  All-ne-update_many id [] h = tt
  All-ne-update_many id (i ∷ rest) (p, h) = (ground (arith, keeps i), All-ne-update_many id rest h)

  same_id : (i : DlqItem) → (if test i then change i else i).id ≡ i.id
  same_id i = ground (arith, keeps i)

  pub update_many-HasDistinctIds :
      (rows : List DlqItem) → HasDistinctIds rows → HasDistinctIds (update_many test change rows)
  unfolding update_many
  update_many-HasDistinctIds [] h = tt
  update_many-HasDistinctIds (i ∷ rest) (p, h) =
      (rw (same_id i) (All-ne-update_many i.id rest p), update_many-HasDistinctIds rest h)

count_of-eq-zero :
    (id : ℕ) (test : DlqItem → Bool) (rows : List DlqItem)
    → IsFor id test
    → All (λ j. id ≢ j.id) rows
    → count_of test rows ≡ 0
count_of-eq-zero id test [] h k = refl
count_of-eq-zero id test (i ∷ rest) h (p, k) =
    ground (arith, h i, count_of-eq-zero id test rest h k)

-- A test for one id hits the row of that id or none.
pub count_of-eq-hits :
    (id : ℕ) (test : DlqItem → Bool) (rows : List DlqItem)
    → IsFor id test
    → HasDistinctIds rows
    → count_of test rows ≡ hits test (find id rows)
unfolding find
count_of-eq-hits id test [] h k = refl
count_of-eq-hits id test (i ∷ rest) h (p, k) = elim (Bool-cases (eqb i.id id)) [
  | inl same ↦ ground (arith, count_of-eq-zero i.id test rest)
  | inr other ↦ ground (arith, h i, count_of-eq-hits id test rest h k)
]

module _ (test : DlqItem → Bool) (change : DlqItem → DlqItem) (id : ℕ) (own : IsFor id test) where
  others_kept :
      (rows : List DlqItem) → All (λ j. id ≢ j.id) rows → update_many test change rows ≡ rows
  unfolding update_many
  others_kept [] h = refl
  others_kept (j ∷ rest) (differs, h) = elim (Bool-cases (test j)) [
    | inl hit ↦ absurd (differs (sym (own j hit)))
    | inr miss ↦ rw (miss, others_kept rest h) refl
  ]

  -- A change for one id that its row does not ask for changes no row.
  pub update_many-missed :
      (rows : List DlqItem) (i : DlqItem)
      → HasDistinctIds rows
      → find id rows ≡ some i
      → test i ≡ false
      → update_many test change rows ≡ rows
  unfolding find update_many
  update_many-missed [] i h found miss = refl
  update_many-missed (j ∷ rest) i (differs, h) found miss = elim (Bool-cases (eqb j.id id)) [
    | inl here ↦
        let same : j ≡ i = cc (rw here at found) in
        let id_is : j.id ≡ id = (eqb_iff j.id id).0 here in
        rw (same, miss, ← same, others_kept rest (rw id_is at differs)) refl
    | inr there ↦ elim (Bool-cases (test j)) [
      | inl hit ↦ absurd (cc (there, (eqb_iff j.id id).1 (own j hit)))
      | inr no_hit ↦ rw (no_hit, update_many-missed rest i h (rw there at found) miss) refl
    ]
  ]

pub id-find : (id : ℕ) (rows : List DlqItem) (i : DlqItem) → find id rows ≡ some i → i.id ≡ id
unfolding find
id-find id [] i h = cc
id-find id (j ∷ rest) i h = elim (Bool-cases (eqb j.id id)) [
  | inl here ↦ ground (arith, eqb_iff j.id id)
  | inr there ↦ id-find id rest i (ground arith)
]
