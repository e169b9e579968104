-- ===== src/Diagnostics/LogBuffer/Bounds.antt =====
-- What holds of the buffer whatever is written to it.
use Prim.Native.Char.{code}
use Prim.Native.String
use idm_mw.Prelude.{
  ℕ, zero, suc, ◌+◌, ◌-◌, ◌≤◌, ◌<◌, ◌≡◌, refl, String, ◌==◌, Bool, true, not, ◌&&◌, Option, none,
  some, List, [], ◌∷◌, ◌++◌, length, length-drop, drop, keep, All, All-append, All-drop, Assoc,
  includes, eqb, leb, trim, split_on, arith, inl, inr, Bool-cases, Option-cases, or_option,
}
use idm_mw.Json.{ℤ, Json, Number, Fields, entries, from_entries, get_field}
use idm_mw.Effects.Preserves.{Preserves, Preserves-then, Preserves-try}
use idm_mw.Diagnostics.LogBuffer.{
  BufferedLogEvent, RuntimeLogBuffer, max_log_events, detail_keys, before_query, string_value,
  path_if, details_if, is_true, safe_path, is_detail, details, of_object, log_event, number_or_now,
  date_of, normalize, bounded, append,
}
use idm_mw.Diagnostics.LogBuffer.Stream.{
  fields_of, text_line, parsed_append, all_but_last, write_line, write_lines, LogBufferStream,
  write,
}

-- The text has no question mark.
abbrev pub has_no_query : String → Bool
has_no_query String.[] = true
has_no_query (String.◌∷◌ c s) = not (eqb (code c) b'?') && has_no_query s

before_query_lem : (s : String) → has_no_query (before_query s) ≡ true
unfolding before_query
before_query_lem String.[] = refl
before_query_lem (String.◌∷◌ c s) = elim (Bool-cases (eqb (code c) b'?')) [
  | inl found ↦ rw found
  | inr other ↦ rw (other, other, before_query_lem s)
]

abbrev pub IsPath : Option String → Type 0
IsPath none = Unit
IsPath (some s) = has_no_query s ≡ true

safe_path-IsPath : (value : Option Json) → IsPath (safe_path value)
unfolding safe_path
safe_path-IsPath value = of_raw (string_value value)
  where
    of_raw : (raw : Option String) → IsPath (path_if raw)
    of_raw none = tt
    of_raw (some s) = before_query_lem s

or_option-IsPath : (a b : Option String) → IsPath a → IsPath b → IsPath (or_option a b)
or_option-IsPath none b h k = k
or_option-IsPath (some s) b h k = h

-- Every key is one of those that an administrator may see.
abbrev pub HasDetailKeys : Assoc Json → Type 0
HasDetailKeys m = All (λ p. includes detail_keys p.0 ≡ true) m

abbrev pub AreDetails : Option Fields → Type 0
AreDetails none = Unit
AreDetails (some fs) = HasDetailKeys (entries fs)

kept-HasDetailKeys : (m : Assoc Json) → HasDetailKeys (keep is_detail m)
kept-HasDetailKeys [] = tt
kept-HasDetailKeys ((k, v) ∷ m) = elim (Bool-cases (is_detail (k, v))) [
  | inl shown ↦ rw shown (ground (arith, shown), kept-HasDetailKeys m)
  | inr other ↦ rw other (kept-HasDetailKeys m)
]

details-AreDetails : (value : Fields) → AreDetails (details value)
unfolding details
details-AreDetails value = elim (Bool-cases (is_true (get_field value "diagnostic"))) [
  | inl shown ↦
      rw shown (of_kept (keep is_detail (entries value)) (kept-HasDetailKeys (entries value)))
  | inr other ↦ rw other tt
]
  where
    of_kept : (m : Assoc Json) → HasDetailKeys m → AreDetails (details_if m)
    of_kept [] h = tt
    of_kept (p ∷ m) (h, hs) = (h, same m hs)
      where
        same : (m : Assoc Json) → HasDetailKeys m → HasDetailKeys (entries (from_entries m))
        same [] h = tt
        same (q ∷ m) (h, hs) = (h, same m hs)

abbrev pub IsIncreasing : List BufferedLogEvent → Type 0
IsIncreasing [] = Unit
IsIncreasing (e ∷ rest) = All (λ f. e.id < f.id) rest × IsIncreasing rest

IsIncreasing-append :
    (events : List BufferedLogEvent) (e : BufferedLogEvent)
    → IsIncreasing events
    → All (λ f. f.id < e.id) events
    → IsIncreasing (events ++ e ∷ [])
IsIncreasing-append [] e h k = (tt, tt)
IsIncreasing-append (f ∷ rest) e (h, hs) (k, ks) =
    (All-append (λ g. f.id < g.id) rest (e ∷ []) h (k, tt), IsIncreasing-append rest e hs ks)

IsIncreasing-drop :
    (n : ℕ) (events : List BufferedLogEvent) → IsIncreasing events → IsIncreasing (drop n events)
IsIncreasing-drop zero events h = h
IsIncreasing-drop (suc n) [] h = h
IsIncreasing-drop (suc n) (e ∷ rest) (h, hs) = IsIncreasing-drop n rest hs

abbrev pub IsShownRight : BufferedLogEvent → Type 0
IsShownRight e = IsPath e.path × AreDetails e.details

pub record IsSound (b : RuntimeLogBuffer) : Type 0 where
  pub size : length b.events ≤ max_log_events
  pub increasing : IsIncreasing b.events
  pub fresh : All (λ e. e.id < b.next_id) b.events
  pub shown : All IsShownRight b.events

All-later :
    (n : ℕ) (events : List BufferedLogEvent)
    → All (λ e. e.id < n) events
    → All (λ e. e.id < n + 1) events
All-later n [] h = tt
All-later n (e ∷ rest) (h, hs) = (omega arith, All-later n rest hs)

bounded-drop :
    (P : List BufferedLogEvent → Type 0)
    → ((n : ℕ) (events : List BufferedLogEvent) → P events → P (drop n events))
    → (events : List BufferedLogEvent) → P events
    → P (bounded events)
bounded-drop P dropped events h = elim (Bool-cases (leb (length events) max_log_events)) [
  | inl fits ↦ rw fits h
  | inr full ↦ rw full (dropped _ events h)
]

length-bounded-le : (events : List BufferedLogEvent) → length (bounded events) ≤ max_log_events
length-bounded-le events = elim (Bool-cases (leb (length events) max_log_events)) [
  | inl fits ↦ rw fits (ground arith)
  | inr full ↦ rw full (omega (arith, length-drop (length events - max_log_events) events))
]

pushed-IsSound :
    (b : RuntimeLogBuffer) (value : Fields) (time : Number) (at : ℤ)
    → IsSound b
    → IsSound (record b {
      events = bounded (b.events ++ log_event b.next_id value time at ∷ []);
      next_id = b.next_id + 1;
    })
pushed-IsSound b value time at h = record {
  size = length-bounded-le (b.events ++ log_event b.next_id value time at ∷ []);
  increasing =
      bounded-drop IsIncreasing IsIncreasing-drop _
        (IsIncreasing-append b.events _ h.increasing h.fresh);
  fresh = bounded-drop (All (λ e. e.id < b.next_id + 1)) (All-drop (λ e. e.id < b.next_id + 1)) _ (
      All-append (λ e. e.id < b.next_id + 1) b.events _ (All-later b.next_id b.events h.fresh)
        (omega arith, tt));
  shown = bounded-drop (All IsShownRight) (All-drop IsShownRight) _ (
      All-append IsShownRight b.events _ h.shown (
        (
          or_option-IsPath _ _ (safe_path-IsPath (get_field value "path"))
              (safe_path-IsPath (of_object value "req" "url")),
          details-AreDetails value,
        ),
        tt,
      ));
}

append-Preserves : (now : ℕ) (value : Fields) → Preserves IsSound (append now value)
unfolding append normalize
append-Preserves now value = record {
  at = λ b h. elim (Option-cases (date_of (number_or_now now (get_field value "time")))) [
    | inl invalid ↦ rw invalid (record {
      size = h.size;
      increasing = h.increasing;
      fresh = All-later b.next_id b.events h.fresh;
      shown = h.shown;
    })
    | inr (at, valid) ↦ rw valid (pushed-IsSound b value _ at h)
  ];
}

module _ (json_parse : String → Option Json) (now : ℕ) where
  parsed-Preserves : (o : Option Fields) → Preserves IsSound (parsed_append now o)
  parsed-Preserves none = record { at = λ b h. h }
  parsed-Preserves (some fs) = append-Preserves now fs

  write_line-Preserves : (line : String) → Preserves IsSound (write_line json_parse now line)
  unfolding write_line
  write_line-Preserves line = record {
    at = λ b h. elim (Bool-cases (trim line == "")) [
      | inl blank ↦ rw blank h
      | inr text ↦ rw text (
          (Preserves-try _ _ (parsed-Preserves (fields_of (json_parse (trim line))))
              (λ e. append-Preserves now (text_line now (trim line)))).at
            b h)
    ];
  }

  write_lines-Preserves :
      (lines : List String) → Preserves IsSound (write_lines json_parse now lines)
  unfolding write_lines
  write_lines-Preserves [] = record { at = λ b h. h }
  write_lines-Preserves (line ∷ rest) =
      Preserves-then _ _ (write_line-Preserves line) (write_lines-Preserves rest)

-- Whatever bytes the log writes, in whatever chunks, the buffer holds at most 10000 events with
-- strictly increasing ids below the next one, no event's path has a query string, and its details
-- have only the keys of the allowlist, so that what is behind other keys is not shown.
pub write-IsSound :
    (json_parse : String → Option Json) (now : ℕ) (chunk : String) (stream : LogBufferStream)
    → IsSound stream.buffer
    → IsSound (write json_parse now chunk stream).1.buffer
unfolding write
write-IsSound json_parse now chunk stream h =
    (write_lines-Preserves json_parse now
        (all_but_last (split_on 10 (String.◌++◌ stream.pending chunk)))).at
      stream.buffer h
