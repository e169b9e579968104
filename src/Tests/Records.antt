-- ===== src/Tests/Records.antt =====
-- Masked configurations and the log buffer on small values.
use idm_mw.Prelude.{
  ℕ, ◌≤◌, ◌≡◌, refl, String, false, ◌==◌, if◌then◌else◌, Option, none, some, [], ◌∷◌, keep, arith,
}
use idm_mw.Json.{Json, num, int, pos, Fields, end, field, str, obj}
use idm_mw.Security.Redaction.{
  is_secret_key, redact_secrets, redact_fields, merge_config_preserving_secrets,
}
use idm_mw.Security.Redaction.Masking.{IsMasked, redact_secrets_lem}
use idm_mw.Security.Redaction.Restoring.{AreRestorable, merge-redact}
use idm_mw.Diagnostics.LogBuffer.{BufferedLogEvent, RuntimeLogBuffer, level_text}
use idm_mw.Diagnostics.LogBuffer.Search.{LogQuery, normalize_limit, matches, query}
use idm_mw.Diagnostics.LogBuffer.Stream.{write}
use idm_mw.Diagnostics.LogBuffer.Bounds.{IsSound, write-IsSound}
use idm_mw.Diagnostics.LogBuffer.Query.{last_n, query_lem}
use idm_mw.Tests.Fixtures.{to_number}

-- A URL, a token, and a nested object with a password.
abbrev config : Fields
config =
    field "baseUrl" (str "https://z")
      (field "apiToken" (str "s3cret") (field "db" (obj (field "password" (str "pw") end)) end))

config-AreRestorable : AreRestorable config
unfolding AreRestorable is_secret_key
config-AreRestorable =
    (refl, (λ h. tt), (refl, (λ h. tt), (refl, (λ h. (refl, (λ k. tt), tt)), tt)))

merge-redact_example : merge_config_preserving_secrets config (redact_fields config) ≡ config
merge-redact_example = merge-redact config config-AreRestorable

redact_secrets_lem_example :
    IsMasked (redact_secrets (obj config))
    × (redact_secrets (redact_secrets (obj config)) ≡ redact_secrets (obj config))
redact_secrets_lem_example = redact_secrets_lem (obj config)

abbrev log_row : ℕ → Option String → BufferedLogEvent
log_row id target = record {
  id = id;
  time = int (pos 5);
  received_at = pos 5;
  level = level_text "info";
  msg = some "hello";
  event = none;
  diagnostic = false;
  diagnostic_level = none;
  target_system = target;
  context = none;
  method = none;
  path = some "/webhooks";
  status = none;
  response_time = none;
  details = none;
}

abbrev buffer : RuntimeLogBuffer
buffer = record { events = log_row 1 (some "directory") ∷ log_row 2 none ∷ []; next_id = 3 }

-- A parser that knows one line.
abbrev parse : String → Option Json
parse s =
    if s == "{\"path\":\"/a?token=1\"}"
    then some (obj (field "path" (str "/a?token=1") end))
    else none

write-IsSound_example :
    IsSound
      (write parse 7 "{\"path\":\"/a?token=1\"}\nplain"
        (record { pending = ""; buffer = buffer })).1.buffer
write-IsSound_example =
    write-IsSound parse 7 "{\"path\":\"/a?token=1\"}\nplain"
      (record { pending = ""; buffer = buffer })
      (record {
        size = omega arith;
        increasing = ((omega arith, tt), (tt, tt));
        fresh = (omega arith, (omega arith, tt));
        shown = ((refl, tt), ((refl, tt), tt));
      })

abbrev asked : LogQuery
asked = record {
  target_system = some " directory ";
  level = none;
  limit = some (num (int (pos 5000)));
}

query_lem_example :
    (query to_number (λ n. "number") asked buffer
      ≡ last_n
          (normalize_limit to_number asked.limit)
          (keep (matches (λ n. "number") asked) buffer.events))
    × (1 ≤ normalize_limit to_number asked.limit)
    × (normalize_limit to_number asked.limit ≤ 2000)
query_lem_example = query_lem to_number (λ n. "number") asked buffer
