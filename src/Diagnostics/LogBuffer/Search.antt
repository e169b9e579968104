-- ===== src/Diagnostics/LogBuffer/Search.antt =====
-- diagnostics/log-buffer.ts: the query of RuntimeLogBuffer.
use mathlib.Core.List.{reverse}
use idm_mw.Prelude.{
  ℕ, String, ◌==◌, Bool, true, ◌&&◌, Option, none, some, List, [], ◌∷◌, ◌++◌, min, max, eqb, leb,
  length, to_lower, or_else, if◌then◌else◌,
}
use idm_mw.Json.{ℤ, pos, negsuc, Number, int, fraction, Json, num}
use idm_mw.Diagnostics.LogBuffer.{
  Level, level_number, level_text, BufferedLogEvent, RuntimeLogBuffer, trunc_finite, filter_of,
  is_of,
}

-- The query, `to_number` being JavaScript's Number and `number_text` its String of a number.
pub record LogQuery : Type 0 where
  pub target_system : Option String
  pub level : Option String
  pub limit : Option Json

abbrev pub clamp : ℤ → ℕ
clamp (pos n) = min (max n 1) 2000
clamp (negsuc n) = 1

abbrev pub limit_of : Number → ℕ
limit_of (int n) = clamp n
limit_of (fraction n d) = clamp (trunc_finite n)
limit_of _ = 200

-- `LEVEL_BY_NUMBER[value]`
abbrev level_by_number : Number → Option String
level_by_number (int (pos n)) =
    if eqb n 10
    then some "trace"
    else (if eqb n 20
        then some "debug"
        else (if eqb n 30
            then some "info"
            else (if eqb n 40
                then some "warn"
                else (if eqb n 50
                    then some "error"
                    else (if eqb n 60 then some "fatal" else none)))))
level_by_number _ = none

abbrev pub lower_filter : Option String → Option String
lower_filter none = none
lower_filter (some s) = some (to_lower s)

-- The loop from the newest event to the oldest, which ends once `limit` events are found.
unfoldable pub query_loop :
    (BufferedLogEvent → Bool)
    → ℕ
    → List BufferedLogEvent
    → List BufferedLogEvent
    → List BufferedLogEvent
query_loop test limit result [] = result
query_loop test limit result (e ∷ older) =
    let found = query_loop test limit (result ++ e ∷ []) older in
    let skipped = query_loop test limit result older in
    if test e
    then (if leb limit (length (result ++ e ∷ [])) then result ++ e ∷ [] else found)
    else skipped

module _ (to_number : Option Json → Number) where
  abbrev pub number_of : Option Json → Number
  number_of (some (num n)) = n
  number_of value = to_number value

  unfoldable pub normalize_limit : Option Json → ℕ
  normalize_limit value = limit_of (number_of value)

module _ (number_text : Number → String) where
  unfoldable pub level_name : Level → String
  unfolding to_lower
  level_name (level_number n) = or_else (level_by_number n) (number_text n)
  level_name (level_text s) = to_lower s

  abbrev has_target : Option String → BufferedLogEvent → Bool
  has_target none e = true
  has_target (some target) e = is_of target e

  abbrev has_level : Option String → BufferedLogEvent → Bool
  has_level none e = true
  has_level (some level) e = level_name e.level == level

  -- Neither `continue` is taken.
  unfoldable pub matches : LogQuery → BufferedLogEvent → Bool
  unfolding filter_of level_name to_lower
  matches q e =
      has_target (filter_of q.target_system) e && has_level (lower_filter (filter_of q.level)) e

unfoldable pub query :
    (Option Json → Number) → (Number → String) → LogQuery → RuntimeLogBuffer → List BufferedLogEvent
unfolding normalize_limit matches query_loop
query to_number number_text q b =
    reverse
      (query_loop (matches number_text q) (normalize_limit to_number q.limit) [] (reverse b.events))
