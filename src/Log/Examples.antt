-- ===== src/Log/Examples.antt =====
-- Runs of the log parser, and its properties at concrete inputs.
use chimera_service.Base.{◌≡◌, refl, none, some, List, [], ◌∷◌}
use chimera_service.Base.Text.{Bytes, codes}
use chimera_service.Log.Frame.{CoreKind, stdout, stderr}
use chimera_service.Log.Logfmt.{scan_logfmt}
use chimera_service.Log.Logfmt.RoundTrip.{all_plain, print_fields, scan_logfmt-print_fields}
use chimera_service.Log.Headers.{parse_header}
use chimera_service.Log.Headers.Tokens.{Chrono}
use chimera_service.Log.Headers.ClashRs.{clash_rs_source, clash_rs_timestamp_end}
use chimera_service.Log.Parser.{LogLine, LogParser, new_parser, parse_lines}
use chimera_service.Log.Parser.Bounds.{AllBounded, parse_lines-AllBounded}
use chimera_service.Log.Parser.Records.{of_stream, openings, segments, Shows}
use chimera_service.Log.Parser.Records.Frames.{parse_lines-Shows}
use chimera_service.Log.Summary.{summarize_output}

abbrev chrono : Chrono
chrono = record {
  rfc3339_ms = λ raw. none;
  parse_hms = λ raw. some 0;
  from_ymd = λ year month day. some year;
  from_hms_nano = λ hour minute second nano. some nano;
  succ = λ date. none;
  pred = λ date. none;
  date_of = λ at. at;
  time_of = λ at. at;
  local_ms = λ date time at. some at;
}

-- an error of two lines, with a line of the other stream between them
abbrev output : List LogLine
output =
    record { stream = stdout; text = codes "time=\"t\" level=error msg=\"no such port\""; at = 1 }
    ∷ record { stream = stderr; text = codes "warning: slow"; at = 2 }
    ∷ record { stream = stdout; text = codes "  at line 7"; at = 3 }
    ∷ []

abbrev parser : LogParser
parser = new_parser CoreKind.mihomo 4

parse_lines-AllBounded_example : AllBounded (parse_lines (parse_header chrono) output parser)
unfolding new_parser
parse_lines-AllBounded_example =
    parse_lines-AllBounded (parse_header chrono) output parser (record { out = tt; error_out = tt })

parse_lines-Shows_example :
    Shows
      (of_stream stdout (parse_lines (parse_header chrono) output parser))
      (segments (openings (parse_header chrono) stdout output parser)).1
unfolding new_parser
parse_lines-Shows_example = parse_lines-Shows (parse_header chrono) stdout output parser refl refl

abbrev fields : List (Bytes × Bytes)
fields = (codes "msg", codes "a \"b\" c") ∷ (codes "n", codes "") ∷ []

scan_logfmt-print_fields_example : scan_logfmt (print_fields fields) ≡ some fields
unfolding all_plain
scan_logfmt-print_fields_example = scan_logfmt-print_fields fields (refl, (refl, tt))

summarized :
    summarize_output
      (parse_header chrono)
      (λ text. text)
      CoreKind.mihomo
      0
      (codes "time=\"t\" level=fatal msg=\"bad\"\nmore")
      (codes "warning: x")
    ≡ codes "bad\nmore"
unfolding summarize_output parse_header
summarized = refl

anchored :
    clash_rs_source [] (codes "ThreadId(1) app::dns src/x.rs:42: up: now")
    ≡ some (codes "src/x.rs:42", codes "up: now")
unfolding clash_rs_source
anchored = refl

stamped : clash_rs_timestamp_end (codes "26-07-29 00:16:22:6460594  INFO x") ≡ some 25
unfolding clash_rs_timestamp_end
stamped = refl
