-- ===== src/Diagnostics/LogBuffer/Query.antt =====
-- What a query of the log returns, and what clearing it removes.
use mathlib.Core.List.{
  reverse, reverse-reverse, append_assoc, append-nil, reverse-append, reverse-cons,
}
use idm_mw.Prelude.{
  ℕ, zero, suc, ◌+◌, ◌-◌, ◌≤◌, ◌≡◌, refl, sym, ap, ◌∙◌, String, Bool, true, false, not, List, [],
  ◌∷◌, ◌++◌, length, length-append, drop, keep, count_of, leb, Option, arith, inl, inr, Bool-cases,
  if◌then◌else◌,
}
use idm_mw.Json.{Json, Number}
use idm_mw.Diagnostics.LogBuffer.{BufferedLogEvent, RuntimeLogBuffer, is_of, clear_loop}
use idm_mw.Diagnostics.LogBuffer.Search.{
  LogQuery, number_of, normalize_limit, limit_of, matches, query_loop, query,
}

module _ {A : Type 0} where
  -- The last `n` entries.
  abbrev pub last_n : ℕ → List A → List A
  last_n n xs = drop (length xs - n) xs

  drop-append : (n : ℕ) (xs ys : List A) → n ≤ length xs → drop n (xs ++ ys) ≡ drop n xs ++ ys
  drop-append zero xs ys h = refl
  drop-append (suc n) [] ys h = absurd (omega arith)
  drop-append (suc n) (x ∷ xs) ys h = drop-append n xs ys (omega arith)

  drop-length : (xs : List A) → drop (length xs) xs ≡ []
  drop-length [] = refl
  drop-length (x ∷ xs) = drop-length xs

  drop-nil : (n : ℕ) → drop {A = A} n [] ≡ []
  drop-nil zero = refl
  drop-nil (suc n) = refl

  last_n-zero : (xs : List A) → last_n 0 xs ≡ []
  last_n-zero xs = ap (λ k. drop k xs) all_of_it ∙ drop-length xs
    where
      all_of_it : length xs - 0 ≡ length xs
      all_of_it = omega arith

  keep-append : (p : A → Bool) (xs ys : List A) → keep p (xs ++ ys) ≡ keep p xs ++ keep p ys
  keep-append p [] ys = refl
  keep-append p (x ∷ xs) ys = ground (arith, keep-append p xs ys)

  last_n-append :
      (n : ℕ) (xs : List A) (x : A) → last_n (suc n) (xs ++ x ∷ []) ≡ last_n n xs ++ x ∷ []
  last_n-append n xs x =
      ap (λ k. drop k (xs ++ x ∷ [])) measured
      ∙ drop-append (length xs - n) xs (x ∷ []) (omega arith)
    where
      measured : length (xs ++ x ∷ []) - suc n ≡ length xs - n
      measured = omega (arith, length-append xs (x ∷ []))

module _ (test : BufferedLogEvent → Bool) (limit : ℕ) where
  -- A match is pushed, and the loop goes on if there is room for another.
  pushed_lem :
      (e : BufferedLogEvent) (older result kept : List BufferedLogEvent)
      → ((room : ℕ)
          → length (result ++ e ∷ []) + suc room ≡ limit
          → reverse (query_loop test limit (result ++ e ∷ []) older)
            ≡ last_n (suc room) kept ++ reverse (result ++ e ∷ []))
      → (room : ℕ) → length result + suc room ≡ limit
      → reverse (
          if leb limit (length (result ++ e ∷ []))
          then result ++ e ∷ []
          else query_loop test limit (result ++ e ∷ []) older)
        ≡ last_n (suc room) (kept ++ e ∷ []) ++ reverse result
  pushed_lem e older result kept again zero h =
      rw (full, last_n-append 0 kept e, last_n-zero kept) (reverse-append result (e ∷ []))
    where
      full : leb limit (length (result ++ e ∷ [])) ≡ true
      full = ground (arith, length-append result (e ∷ []))
  pushed_lem e older result kept again (suc room) h =
      rw (more, last_n-append (suc room) kept e)
        (again room (omega (arith, length-append result (e ∷ [])))
          ∙ ap (λ tail. last_n (suc room) kept ++ tail) (reverse-append result (e ∷ []))
          ∙ sym (append_assoc (last_n (suc room) kept) (e ∷ []) (reverse result)))
    where
      more : leb limit (length (result ++ e ∷ [])) ≡ false
      more = ground (arith, length-append result (e ∷ []))

  query_loop_lem :
      (events result : List BufferedLogEvent) (room : ℕ)
      → length result + suc room ≡ limit
      → reverse (query_loop test limit result events)
        ≡ last_n (suc room) (keep test (reverse events)) ++ reverse result
  unfolding query_loop
  query_loop_lem [] result room h = ap (λ k. k ++ reverse result) (sym (drop-nil (0 - suc room)))
  query_loop_lem (e ∷ older) result room h =
      let kept = keep test (reverse older) in
      elim (Bool-cases (test e)) [
        | inl found ↦
            rw (found, reverse-cons e older, keep-append test (reverse older) (e ∷ []), found)
              (pushed_lem e older result kept (λ r. query_loop_lem older (result ++ e ∷ []) r) room
                h)
        | inr other ↦
            rw (other, reverse-cons e older, keep-append test (reverse older) (e ∷ []), other)
              (query_loop_lem older result room h
                ∙ ap (λ k. last_n (suc room) k ++ reverse result) (sym (append-nil kept)))
      ]

limit_of_bounds : (n : Number) → (1 ≤ limit_of n) × (limit_of n ≤ 2000)
limit_of_bounds n = ground arith

-- A query returns the last events that pass its filters, in the order in which they came, at most as
-- many as its limit, and the limit lies between 1 and 2000 whatever was asked for.
pub query_lem :
    (to_number : Option Json → Number) (number_text : Number → String) (q : LogQuery)
    (b : RuntimeLogBuffer)
    → (query to_number number_text q b
        ≡ last_n (normalize_limit to_number q.limit) (keep (matches number_text q) b.events))
      × (1 ≤ normalize_limit to_number q.limit)
      × (normalize_limit to_number q.limit ≤ 2000)
unfolding query normalize_limit
query_lem to_number number_text q b =
    let (positive, bounded) = limit_of_bounds (number_of to_number q.limit) in
    (returned (normalize_limit to_number q.limit) positive, positive, bounded)
  where
    returned :
        (limit : ℕ)
        → 1 ≤ limit
        → reverse (query_loop (matches number_text q) limit [] (reverse b.events))
          ≡ last_n limit (keep (matches number_text q) b.events)
    returned zero h = absurd (omega arith)
    returned (suc room) h =
        query_loop_lem (matches number_text q) (suc room) (reverse b.events) [] room (omega arith)
        ∙ append-nil _
        ∙ ap (λ events. last_n (suc room) (keep (matches number_text q) events))
            (reverse-reverse b.events)

-- Clearing by target removes exactly the events of that target and counts them.
clear_loop_lem :
    (target : String) (events : List BufferedLogEvent)
    → clear_loop target events
      ≡ (keep (λ e. not (is_of target e)) events, count_of (is_of target) events)
unfolding clear_loop
clear_loop_lem target [] = refl
clear_loop_lem target (e ∷ rest) = elim (Bool-cases (is_of target e)) [
  | inl same ↦
      rw (clear_loop_lem target rest, same)
        (ap (λ n. (keep (λ x. not (is_of target x)) rest, n)) (omega arith))
  | inr other ↦ rw (clear_loop_lem target rest, other)
]
