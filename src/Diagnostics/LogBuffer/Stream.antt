-- ===== src/Diagnostics/LogBuffer/Stream.antt =====
-- diagnostics/log-buffer.ts: the stream that the log is written to.
use Prim.Native.String
use idm_mw.Prelude.{
  ℕ, String, ◌==◌, Option, none, some, List, [], ◌∷◌, trim, split_on, if◌then◌else◌,
}
use idm_mw.Json.{pos, int, Json, null, num, str, obj, Fields, end, from_entries}
use idm_mw.Effects.{error, Result, ok, throw, Exec, try_catch, ◌>>◌}
use idm_mw.Diagnostics.LogBuffer.{RuntimeLogBuffer, append}

-- LogBufferStream: the text after the last line break waits in `pending`. `json_parse` is JSON.parse.
pub record LogBufferStream : Type 0 where
  pub pending : String
  pub buffer : RuntimeLogBuffer

-- `value['time']` throws on null; a value that is no object has none of the fields.
abbrev pub fields_of : Option Json → Option Fields
fields_of none = none
fields_of (some null) = none
fields_of (some (obj fs)) = some fs
fields_of (some _) = some end

abbrev pub text_line : ℕ → String → Fields
text_line now s =
    from_entries
      (("time", num (int (pos now))) ∷ ("level", num (int (pos 30))) ∷ ("msg", str s) ∷ [])

abbrev pub parsed_append : ℕ → Option Fields → Exec RuntimeLogBuffer Unit
parsed_append now none b = (throw (error "not an object"), b)
parsed_append now (some fs) b = append now fs b

abbrev pub all_but_last : List String → List String
all_but_last [] = []
all_but_last (s ∷ []) = []
all_but_last (s ∷ t ∷ rest) = s ∷ all_but_last (t ∷ rest)

abbrev pub last_of : List String → String
last_of [] = ""
last_of (s ∷ []) = s
last_of (s ∷ t ∷ rest) = last_of (t ∷ rest)

module _ (json_parse : String → Option Json) (now : ℕ) where
  -- The body of the loop over the lines.
  unfoldable pub write_line : String → Exec RuntimeLogBuffer Unit
  unfolding append trim
  write_line line b =
      let trimmed = trim line in
      if trimmed == ""
      then (ok tt, b)
      else try_catch (parsed_append now (fields_of (json_parse trimmed)))
          (λ e. append now (text_line now trimmed)) b

  unfoldable pub write_lines : List String → Exec RuntimeLogBuffer Unit
  unfolding write_line
  write_lines [] b = (ok tt, b)
  write_lines (line ∷ rest) b = (write_line line >> write_lines rest) b

  unfoldable pub write : String → LogBufferStream → Result {0} Unit × LogBufferStream
  unfolding write_lines split_on
  write chunk stream =
      let lines = split_on 10 (String.◌++◌ stream.pending chunk) in
      let (r, b) = write_lines (all_but_last lines) stream.buffer in
      (r, record { pending = last_of lines; buffer = b })
