-- ===== src/Inbound/Operation/Partition.antt =====
-- Every operation of the vocabulary is a read or a write, and none is both.
use idm_mw.Prelude.{
  String, ◌==◌, ◌≡◌, refl, Bool, true, false, ◌||◌, ◌&&◌, not, List, [], ◌∷◌, includes, all_of,
  arith, eq_iff, inl, inr, Bool-cases, ap, ◌∙◌, sym,
}
use idm_mw.Inbound.Operation.{
  avanpost_operations, read_operations, write_operations, is_read_operation,
}

of_includes :
    (p : String → Bool) (xs : List String) (s : String)
    → all_of p xs ≡ true
    → includes xs s ≡ true
    → p s ≡ true
unfolding includes
of_includes p [] s h k = cc
of_includes p (x ∷ xs) s h k = elim (Bool-cases (x == s)) [
  | inl same ↦ ap p (sym ((eq_iff x s).0 same)) ∙ ground (arith, h)
  | inr other ↦ of_includes p xs s (ground (arith, h)) (ground (arith, k, other))
]

same_test : (a b : Bool) → (a ≡ true → b ≡ true) → (b ≡ true → a ≡ true) → a ≡ b
same_test true b f g = sym (f refl)
same_test false true f g = g refl
same_test false false f g = refl

reads_are_known : all_of (includes avanpost_operations) read_operations ≡ true
unfolding includes
reads_are_known = refl

writes_are_known : all_of (includes avanpost_operations) write_operations ≡ true
unfolding includes
writes_are_known = refl

known_are_sorted :
    all_of (λ s. includes read_operations s || includes write_operations s) avanpost_operations
    ≡ true
unfolding includes
known_are_sorted = refl

reads_do_not_write : all_of (λ s. not (includes write_operations s)) read_operations ≡ true
unfolding includes
reads_do_not_write = refl

-- An operation name is accepted by the webhook's validation exactly when it is a read or a write
-- operation, and no name is both; so an accepted event takes exactly one of the two ways.
pub is_read_operation_partition :
    (op : String)
    → (includes avanpost_operations op ≡ (is_read_operation op || includes write_operations op))
      × ((is_read_operation op && includes write_operations op) ≡ false)
unfolding is_read_operation
is_read_operation_partition op = (
  same_test _ _
      (of_includes (λ s. includes read_operations s || includes write_operations s)
        avanpost_operations op known_are_sorted)
      known,
  elim (Bool-cases (includes read_operations op)) [
    | inl read ↦ rw (
      read,
      not_true (includes write_operations op) (
          of_includes (λ s. not (includes write_operations s)) read_operations op reads_do_not_write
            read),
    )
    | inr other ↦ rw other
  ],
)
  where
    not_true : (b : Bool) → not b ≡ true → b ≡ false
    not_true true h = cc
    not_true false h = refl

    known :
        (includes read_operations op || includes write_operations op) ≡ true
        → includes avanpost_operations op ≡ true
    known h = elim (Bool-cases (includes read_operations op)) [
      | inl read ↦
          of_includes (includes avanpost_operations) read_operations op reads_are_known read
      | inr other ↦
          of_includes (includes avanpost_operations) write_operations op writes_are_known
            (rw other at h)
    ]
