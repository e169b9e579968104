-- ===== src/Diagnostics/LogBuffer.antt =====
-- diagnostics/log-buffer.ts: RuntimeLogBuffer; the query and the stream that fills it are in
-- Search and Stream. `now` is Date.now().
pub mod Search
pub mod Stream
pub mod Query
pub mod Bounds
use Prim.Native.Char.{code}
use Prim.Native.String
use mathlib.Core.List.{reverse}
use idm_mw.Prelude.{
  ℕ, zero, suc, ◌+◌, ◌-◌, String, ◌==◌, Bool, true, false, not, ◌&&◌, ◌||◌, Option, none, some,
  List, [], ◌∷◌, ◌++◌, min, max, eqb, leb, length, drop, keep, trim, to_lower, split_on, includes,
  Assoc, or_else, or_option, if◌then◌else◌,
}
use idm_mw.Json.{
  ℤ, pos, negsuc, Number, int, fraction, infinite, nan, Json, null, bool, num, str, arr, obj,
  Fields, end, entries, from_entries, as_record, get_field, is_finite,
}
use idm_mw.Effects.{Thrown, error, Result, ok, throw, Exec, try_catch, ◌>>◌}

-- `number | string`
pub data Level : Type 0 where
  level_number : Number → Level
  level_text : String → Level

-- `received_at` is the time that the ISO text shows.
pub record BufferedLogEvent : Type 0 where
  pub id : ℕ
  pub time : Number
  pub received_at : ℤ
  pub level : Level
  pub msg : Option String
  pub event : Option String
  pub diagnostic : Bool
  pub diagnostic_level : Option String
  pub target_system : Option String
  pub context : Option String
  pub method : Option String
  pub path : Option String
  pub status : Option Number
  pub response_time : Option Number
  pub details : Option Fields

pub record RuntimeLogBuffer : Type 0 where
  pub events : List BufferedLogEvent
  pub next_id : ℕ

abbrev pub max_log_events : ℕ
max_log_events = 10000

abbrev pub summary_keys : List String
summary_keys =
    "time" ∷ "level" ∷ "msg" ∷ "event" ∷ "diagnostic" ∷ "diagnosticLevel" ∷ "targetSystem"
    ∷ "context" ∷ "method" ∷ "path" ∷ "status" ∷ "responseTime" ∷ "req" ∷ "res" ∷ "err" ∷ []

abbrev pub detail_keys : List String
detail_keys =
    "apiPath" ∷ "authMode" ∷ "baseUrlOrigin" ∷ "errorCode" ∷ "errorName" ∷ "eventId"
    ∷ "hasDefaultUserGroupId" ∷ "hasDescription" ∷ "hasEmail" ∷ "hasFirstNameLastName"
    ∷ "hasGroupsField" ∷ "hasPassword" ∷ "hasUserGroups" ∷ "hasUsername" ∷ "hints" ∷ "mode"
    ∷ "operation" ∷ "receivedAt" ∷ "requestSummary" ∷ "responseContentLength"
    ∷ "responseContentType" ∷ "responseSummary" ∷ "retrySessionAuth" ∷ "userGroupIds"
    ∷ "usernameLength" ∷ []

-- `Math.trunc` of a finite value.
abbrev pub trunc_finite : ℤ → ℤ
trunc_finite (pos n) = pos n
trunc_finite (negsuc zero) = pos 0
trunc_finite (negsuc (suc n)) = negsuc n

abbrev pub trunc : Number → Number
trunc (int n) = int n
trunc (fraction n d) = int (trunc_finite n)
trunc (infinite p) = infinite p
trunc nan = nan

-- The time that a Date shows, where it is a valid one.
abbrev in_date_range : ℤ → Option ℤ
in_date_range (pos n) = if leb n 8640000000000000 then some (pos n) else none
in_date_range (negsuc n) = if leb (suc n) 8640000000000000 then some (negsuc n) else none

abbrev pub date_of : Number → Option ℤ
date_of (int n) = in_date_range n
date_of (fraction n d) = in_date_range (trunc_finite n)
date_of _ = none

abbrev pub number_value : Option Json → Option Number
number_value (some (num n)) = if is_finite n then some n else none
number_value _ = none

abbrev pub number_or_now : ℕ → Option Json → Number
number_or_now now value = or_else (number_value value) (int (pos now))

abbrev log_level : Option Json → Level
log_level (some (num n)) = level_number n
log_level (some (str s)) = level_text s
log_level _ = level_text "info"

unfoldable pub string_value : Option Json → Option String
unfolding trim
string_value (some (str s)) = if trim s == "" then none else some s
string_value _ = none

abbrev truncated : Option Number → Option Number
truncated none = none
truncated (some n) = some (trunc n)

abbrev pub status_value : Option Json → Option Number
status_value value = truncated (number_value value)

-- The field of a nested object: of `req` or of `res`.
abbrev nested_field : Option Fields → String → Option Json
nested_field none k = none
nested_field (some fs) k = get_field fs k

abbrev pub of_object : Fields → String → String → Option Json
of_object value name k = nested_field (as_record (get_field value name)) k

-- `raw.slice(0, raw.indexOf('?'))`, or all of it
unfoldable pub before_query : String → String
before_query String.[] = ""
before_query (String.◌∷◌ c s) =
    let rest = before_query s in if eqb (code c) b'?' then "" else String.◌∷◌ c rest

abbrev pub path_if : Option String → Option String
path_if none = none
path_if (some raw) = some (before_query raw)

unfoldable pub safe_path : Option Json → Option String
unfolding string_value before_query
safe_path value = path_if (string_value value)

abbrev pub is_true : Option Json → Bool
is_true (some (bool true)) = true
is_true _ = false

abbrev pub is_detail : String × Json → Bool
is_detail (k, v) = not (includes summary_keys k) && includes detail_keys k

abbrev pub details_if : Assoc Json → Option Fields
details_if [] = none
details_if (entry ∷ rest) = some (from_entries (entry ∷ rest))

unfoldable pub details : Fields → Option Fields
unfolding includes
details value =
    if is_true (get_field value "diagnostic")
    then details_if (keep is_detail (entries value))
    else none

abbrev pub log_event : ℕ → Fields → Number → ℤ → BufferedLogEvent
log_event id value time received_at = record {
  id = id;
  time = time;
  received_at = received_at;
  level = log_level (get_field value "level");
  msg = string_value (get_field value "msg");
  event = string_value (get_field value "event");
  diagnostic = is_true (get_field value "diagnostic");
  diagnostic_level = string_value (get_field value "diagnosticLevel");
  target_system = string_value (get_field value "targetSystem");
  context = string_value (get_field value "context");
  method =
      or_option (string_value (get_field value "method"))
        (string_value (of_object value "req" "method"));
  path = or_option (safe_path (get_field value "path")) (safe_path (of_object value "req" "url"));
  status =
      or_option (status_value (get_field value "status"))
        (status_value (of_object value "res" "statusCode"));
  response_time = number_value (get_field value "responseTime");
  details = details value;
}

-- `nextId++`, and the text of an invalid Date throws.
abbrev pub normalized : ℕ → Fields → Number → Option ℤ → Result BufferedLogEvent
normalized id value time none = throw (error "Invalid time value")
normalized id value time (some at) = ok (log_event id value time at)

unfoldable pub normalize : ℕ → Fields → Exec RuntimeLogBuffer BufferedLogEvent
unfolding string_value safe_path details
normalize now value b =
    let time = number_or_now now (get_field value "time") in
    (normalized b.next_id value time (date_of time), record b { next_id = b.next_id + 1 })

abbrev pub bounded : List BufferedLogEvent → List BufferedLogEvent
bounded events =
    if leb (length events) max_log_events
    then events
    else drop (length events - max_log_events) events

abbrev pub push : Result BufferedLogEvent × RuntimeLogBuffer → Result {0} Unit × RuntimeLogBuffer
push (throw e, b) = (throw e, b)
push (ok event, b) = (ok tt, record b { events = bounded (b.events ++ event ∷ []) })

unfoldable pub append : ℕ → Fields → Exec RuntimeLogBuffer Unit
unfolding normalize
append now value b = push (normalize now value b)

-- A filter's text, where it is not blank.
unfoldable pub filter_of : Option String → Option String
unfolding trim
filter_of none = none
filter_of (some s) = if trim s == "" then none else some (trim s)

abbrev equals : Option String → String → Bool
equals none s = false
equals (some t) s = t == s

abbrev pub is_of : String → BufferedLogEvent → Bool
is_of target e = equals e.target_system target

-- The loop from the newest event to the oldest: the events left and how many were removed.
unfoldable pub clear_loop : String → List BufferedLogEvent → List BufferedLogEvent × ℕ
clear_loop target [] = ([], 0)
clear_loop target (e ∷ rest) =
    let (left, cleared) = clear_loop target rest in
    if is_of target e then (left, cleared + 1) else (e ∷ left, cleared)

abbrev clear_of : Option String → RuntimeLogBuffer → ℕ × RuntimeLogBuffer
clear_of none b = (length b.events, record b { events = []; next_id = 1 })
clear_of (some target) b =
    let (left, cleared) = clear_loop target b.events in (cleared, record b { events = left })

unfoldable pub clear : Option String → RuntimeLogBuffer → ℕ × RuntimeLogBuffer
unfolding filter_of clear_loop
clear target_system b = clear_of (filter_of target_system) b
