-- ===== src/Log/Summary.antt =====
-- What a console output says at most and worst (`error_summary`, `format_tail` and `summarize_output` of
-- log.rs, crates/chimera-core-manager).
use chimera_service.Base.{ℕ, Option, none, some, List, [], ◌∷◌, ◌++◌, ltb, leb, ◌==◌, if◌then◌else◌}
use chimera_service.Base.Text.{Bytes, codes}
use chimera_service.Log.Frame.{CoreKind, LogLevel, LogStream, LogFrame}
use chimera_service.Log.Parser.{HeaderParser, LogLine, new_parser, parse_lines}

-- `LogLevel` is ordered as it is declared
abbrev pub rank : LogLevel → ℕ
rank LogLevel.trace = 0
rank LogLevel.debug = 1
rank LogLevel.info = 2
rank LogLevel.warning = 3
rank LogLevel.error = 4
rank LogLevel.fatal = 5

-- the greatest level from `Warning` on, by its rank
unfoldable pub worst_rank : List LogFrame → Option ℕ
worst_rank [] = none
worst_rank (frame ∷ frames) = elim (worst_rank frames) [
  | none ↦ if leb (rank LogLevel.warning) (rank frame.level) then some (rank frame.level) else none
  | some worst ↦ if ltb worst (rank frame.level) then some (rank frame.level) else some worst
]

-- the message of the last frame of that level
unfoldable pub last_message : ℕ → List LogFrame → Option Bytes
last_message worst [] = none
last_message worst (frame ∷ frames) = elim (last_message worst frames) [
  | some message ↦ some message
  | none ↦ if rank frame.level == worst then some frame.message else none
]

abbrev pub summary_at : Option ℕ → List LogFrame → Option Bytes
summary_at none frames = none
summary_at (some worst) frames = last_message worst frames

unfoldable pub error_summary : List LogFrame → Option Bytes
unfolding worst_rank last_message
error_summary frames = summary_at (worst_rank frames) frames

unfoldable pub format_tail : List LogFrame → Bytes
format_tail [] = []
format_tail (frame ∷ []) = frame.raw
format_tail (frame ∷ next ∷ frames) = frame.raw ++ b'\n' ∷ format_tail (next ∷ frames)

abbrev pub to_first : ℕ → List Bytes → List Bytes
to_first b [] = (b ∷ []) ∷ []
to_first b (line ∷ lines) = (b ∷ line) ∷ lines

-- the lines of a text: a line feed ends a line, and a return before it belongs to it
unfoldable pub text_lines : Bytes → List Bytes
text_lines [] = []
text_lines (b ∷ []) = if b == b'\n' then [] ∷ [] else (b ∷ []) ∷ []
text_lines (b ∷ c ∷ bs) =
    let ended = [] ∷ text_lines (c ∷ bs) in
    let returned = [] ∷ text_lines bs in
    let more = to_first b (text_lines (c ∷ bs)) in
    if b == b'\n'
    then ended
    else if b == b'\r'
    then (if c == b'\n' then returned else more)
    else more

unfoldable pub captured : LogStream → (at : ℕ) → List Bytes → List LogLine
captured stream at [] = []
captured stream at (text ∷ texts) =
    record { stream = stream; text = text; at = at } ∷ captured stream at texts

-- `verbatim_output` of the two trimmed texts
unfoldable pub verbatim_output : (out err : Bytes) → Bytes
verbatim_output [] [] = codes "core reported no output"
verbatim_output (b ∷ out) [] = b ∷ out
verbatim_output [] (b ∷ err) = b ∷ err
verbatim_output (b ∷ out) (c ∷ err) = (b ∷ out) ++ b'\n' ∷ c ∷ err

-- `summarize_output` of the output of a run that has ended; `trim` is `str::trim`
unfoldable pub summarize_output :
    HeaderParser → (trim : Bytes → Bytes) → CoreKind → (at : ℕ) → (out err : Bytes) → Bytes
unfolding parse_lines text_lines captured error_summary verbatim_output new_parser
summarize_output parse_header trim kind at out err =
    let lines =
      captured LogStream.stdout at (text_lines out)
      ++ captured LogStream.stderr at (text_lines err) in
    elim (error_summary (parse_lines parse_header lines (new_parser kind 0))) [
      | some message ↦ message
      | none ↦ verbatim_output (trim out) (trim err)
    ]
