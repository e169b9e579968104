-- ===== src/Encryption/Rotation/Loop.antt =====
-- The loop over the rows of one table: wherever it stops, each row is as it was or converted.
use mathlib.Core.List.{append_assoc}
use mathlib.Core.Path.{subst}
use idm_mw.Prelude.{
  ℕ, ◌≡◌, refl, sym, ap, ◌∙◌, Bool, true, false, List, [], ◌∷◌, ◌++◌, eqb, All, All-append, Zip,
  Zip-append, Zip-refl, Zip-map, inl, inr, Bool-cases, arith,
}
use idm_mw.Effects.{Result, ok, Exec, gets, modify, ◌>>=◌, outcome-cases}
use idm_mw.Effects.Preserves.{Preserves, Preserves-bind, Preserves-then, Preserves-pure}
use idm_mw.Core.World.{fails_now, later}
use idm_mw.Encryption.Rotation.{Row, Storage, database, set_cells, rotate_rows}

module _ {C : Type 0} where
  -- No row has this id.
  abbrev pub IsFree : ℕ → List (Row C) → Type 0
  IsFree id rows = All (λ (r : Row C). eqb r.id id ≡ false) rows

  -- The ids are a primary key.
  abbrev pub HasDistinctIds : List (Row C) → Type 0
  HasDistinctIds [] = Unit
  HasDistinctIds (r ∷ rs) = IsFree r.id rs × HasDistinctIds rs

  -- The same rows, with cells that are related.
  abbrev pub SameRows : (C → C → Type 0) → List (Row C) → List (Row C) → Type 0
  SameRows R = Zip (λ (x y : Row C). (y.id ≡ x.id) × R x.cells y.cells)

  set_cells-free :
      (id : ℕ) (new : C) (rows : List (Row C)) → IsFree id rows → set_cells id new rows ≡ rows
  unfolding set_cells
  set_cells-free id new [] h = refl
  set_cells-free id new (r ∷ rs) (other, h) =
      rw other (ap (λ t. r ∷ t) (set_cells-free id new rs h))

  set_cells-middle :
      (r : Row C) (new : C) (done todo : List (Row C))
      → IsFree r.id done
      → IsFree r.id todo
      → set_cells r.id new (done ++ (r ∷ todo))
        ≡ (done ++ (record { id = r.id; cells = new } ∷ [])) ++ todo
  unfolding set_cells
  set_cells-middle r new [] todo hd ht =
      let self : eqb r.id r.id ≡ true = ground arith in
      rw self (ap (λ t. record { id = r.id; cells = new } ∷ t) (set_cells-free r.id new todo ht))
  set_cells-middle r new (d ∷ done) todo (other, hd) ht =
      rw other (ap (λ t. d ∷ t) (set_cells-middle r new done todo hd ht))

  All-IsFree-snoc :
      (r s : Row C) (done rest : List (Row C))
      → s.id ≡ r.id
      → IsFree r.id rest
      → All (λ (t : Row C). IsFree t.id done) rest
      → All (λ (t : Row C). IsFree t.id (done ++ (s ∷ []))) rest
  All-IsFree-snoc r s done [] e h k = tt
  All-IsFree-snoc r s done (t ∷ rest) e (other, h) (free, k) =
      (All-append _ done (s ∷ []) free (ground arith, tt), All-IsFree-snoc r s done rest e h k)

  none_done : (rows : List (Row C)) → All (λ (t : Row C). IsFree t.id []) rows
  none_done [] = tt
  none_done (r ∷ rs) = (tt, none_done rs)

-- A table of the database: how it is read, and how a change of it is written.
pub record Table (C : Type 0) : Type 0 where
  pub get : Storage → List (Row C)
  pub put : (List (Row C) → List (Row C)) → Storage → Storage

pub record TableLaws {C : Type 0} (table : Table C) : Type 0 where
  pub get-put :
      (f : List (Row C) → List (Row C)) (w : Storage) → table.get (table.put f w) ≡ f (table.get w)
  pub get-outages :
      (o : List Bool) (w : Storage) → table.get (record w { outages = o }) ≡ table.get w

-- What a conversion of cells does that returns, and that it leaves the table alone.
pub record Converts {C : Type 0} (table : Table C) (convert : C → Exec Storage C)
    (IsFit : C → Type 0) (P : C → C → Type 0) : Type 0 where
  pub converted :
      (old new : C) (w u : Storage) → IsFit old → convert old w ≡ (ok new, u) → P old new
  pub kept : (old : C) (w : Storage) → table.get (convert old w).1 ≡ table.get w

module _ {C : Type 0} (table : Table C) (laws : TableLaws table) (convert : C → Exec Storage C)
    {IsFit : C → Type 0} {P : C → C → Type 0} (conv : Converts table convert IsFit P)
    (R : C → C → Type 0) (weaken : (x y : C) → P x y → R x y) (R_refl : (x : C) → R x x) where
  abbrev Outcome : List (Row C) → Result {0} (Unit {0}) × Storage → Type 0
  Outcome before (r, w) =
      SameRows R before (table.get w) × (r ≡ ok tt → SameRows P before (table.get w))

  stopped :
      (done0 done todo : List (Row C)) (rows : List (Row C))
      → rows ≡ done ++ todo
      → SameRows P done0 done
      → SameRows R (done0 ++ todo) rows
  stopped done0 done todo rows e h = rw e (
      Zip-append _ done0 todo done todo
        (Zip-map _ _ (λ x y h. (h.0, weaken x.cells y.cells h.1)) done0 done h)
        (Zip-refl _ (λ x. (refl, R_refl x.cells)) todo))

  rotate_rows-from :
      (todo done0 done : List (Row C)) (w : Storage)
      → table.get w ≡ done ++ todo
      → SameRows P done0 done
      → All (λ (t : Row C). IsFree t.id done) todo
      → HasDistinctIds todo
      → All (λ (t : Row C). IsFit t.cells) todo
      → Outcome (done0 ++ todo) (rotate_rows convert table.put todo w)
  unfolding rotate_rows
  rotate_rows-from [] done0 done w e h free distinct fit =
      let all : SameRows P (done0 ++ []) (table.get w) =
        rw e (Zip-append _ done0 [] done [] h tt) in
      (stopped done0 done [] (table.get w) e h, λ _. all)
  rotate_rows-from (r ∷ rs) done0 done w e h (free, frees) (others, distinct) (fits, fit) =
      elim (outcome-cases (convert r.cells w)) [
        | inl (new, u, c) ↦
            let unchanged : table.get u ≡ done ++ (r ∷ rs) =
              sym (ap (λ (p : Result C × Storage). table.get p.1) c) ∙ (conv.kept r.cells w ∙ e) in
            let s : Row C = record { id = r.id; cells = new } in
            let after : Storage = record u { outages = later u.outages } in
            let written : table.get (table.put (set_cells r.id new) after)
                ≡ (done ++ (s ∷ [])) ++ rs =
              laws.get-put _ after
              ∙ (ap (set_cells r.id new) (laws.get-outages _ u ∙ unchanged)
                  ∙ set_cells-middle r new done rs free others) in
            let rest =
              rotate_rows-from rs (done0 ++ (r ∷ [])) (done ++ (s ∷ [])) (table.put _ after) written
                (Zip-append _ done0 (r ∷ []) done (s ∷ []) h
                  ((refl, conv.converted r.cells new w u fits c), tt))
                (All-IsFree-snoc r s done rs refl others frees) distinct fit in
            rw c (elim (Bool-cases (fails_now u.outages)) [
              | inl down ↦ rw down (
                stopped done0 done (r ∷ rs) _ (laws.get-outages _ u ∙ unchanged) h,
                λ k. absurd (cc k),
              )
              | inr up ↦ rw (up) (rw append_assoc at rest)
            ])
        | inr (x, u, c) ↦
            let unchanged : table.get u ≡ done ++ (r ∷ rs) =
              sym (ap (λ (p : Result C × Storage). table.get p.1) c) ∙ (conv.kept r.cells w ∙ e) in
            rw c (stopped done0 done (r ∷ rs) _ unchanged h, λ k. absurd (cc k))
      ]

  -- From the first row to the last, on the table as it is.
  pub rotate_rows_lem :
      (w : Storage)
      → HasDistinctIds (table.get w)
      → All (λ (t : Row C). IsFit t.cells) (table.get w)
      → Outcome (table.get w) (rotate_rows convert table.put (table.get w) w)
  rotate_rows_lem w distinct fit =
      rotate_rows-from (table.get w) [] [] w refl tt (none_done (table.get w)) distinct fit

  -- Reading the table is a call of the database too.
  pub rotate_table_lem :
      (w : Storage)
      → HasDistinctIds (table.get w)
      → All (λ (t : Row C). IsFit t.cells) (table.get w)
      → Outcome
          (table.get w)
          ((database (gets table.get) >>= λ rows. rotate_rows convert table.put rows) w)
  rotate_table_lem w distinct fit =
      let read : Storage = record w { outages = later w.outages } in
      let kept : table.get read ≡ table.get w = laws.get-outages _ w in
      elim (Bool-cases (fails_now w.outages)) [
        | inl down ↦
            rw down (rw kept (Zip-refl _ (λ x. (refl, R_refl x.cells)) _), λ k. absurd (cc k))
        | inr up ↦ rw up (
            subst (λ rows. Outcome rows (rotate_rows convert table.put (table.get read) read)) kept
              (rotate_rows_lem read (rw kept distinct) (rw kept fit)))
      ]

-- What the changes of one table leave alone, the loop over it does.
pub rotate_rows-Preserves :
    {C : Type 0} (convert : C → Exec Storage C)
    (put : (List (Row C) → List (Row C)) → Storage → Storage) {P : Storage → Type 0}
    → ((c : C) → Preserves P (convert c))
    → ((f : List (Row C) → List (Row C)) (w : Storage) → P w → P (put f w))
    → ((o : List Bool) (w : Storage) → P w → P (record w { outages = o }))
    → (todo : List (Row C)) → Preserves P (rotate_rows convert put todo)
unfolding rotate_rows
rotate_rows-Preserves convert put kc kp ko [] = Preserves-pure tt
rotate_rows-Preserves convert put kc kp ko (r ∷ rs) =
    Preserves-bind (convert r.cells) _ (kc r.cells) (λ new.
      Preserves-then (database (modify (put (set_cells r.id new)))) (rotate_rows convert put rs)
        (record {
          at = λ w h. elim (Bool-cases (fails_now w.outages)) [
            | inl down ↦ rw down (ko _ w h)
            | inr up ↦ rw up (kp _ _ (ko _ w h))
          ];
        })
        (rotate_rows-Preserves convert put kc kp ko rs))

pub rotate_table-Preserves :
    {C : Type 0} (convert : C → Exec Storage C) (table : Table C) {P : Storage → Type 0}
    → ((c : C) → Preserves P (convert c))
    → ((f : List (Row C) → List (Row C)) (w : Storage) → P w → P (table.put f w))
    → ((o : List Bool) (w : Storage) → P w → P (record w { outages = o }))
    → Preserves P (database (gets table.get) >>= λ rows. rotate_rows convert table.put rows)
rotate_table-Preserves convert table kc kp ko =
    Preserves-bind (database (gets table.get)) _
      (record {
        at = λ w h. elim (Bool-cases (fails_now w.outages)) [
          | inl down ↦ rw down (ko _ w h)
          | inr up ↦ rw up (ko _ w h)
        ];
      })
      (rotate_rows-Preserves convert table.put kc kp ko)
