-- ===== src/Log/Parser.antt =====
-- `LogParser` of log.rs (crates/chimera-core-manager): a line opens a record or continues the one that its
-- stream holds. The header parser, which depends on the core, is the parameter `parse_header`; its
-- state is the clock of clash premium.
pub mod Bounds
pub mod Records
use chimera_service.Base.{
  ℕ, ◌+◌, Bool, true, false, Option, none, some, List, [], ◌∷◌, ◌++◌, ◌==◌, ◌&&◌, ◌||◌,
  if◌then◌else◌,
}
use chimera_service.Base.Text.{Bytes, codes}
use chimera_service.Log.Frame.{CoreKind, LogLevel, LogStream, stdout, stderr, LogFrame}
use chimera_service.Log.Ansi.{strip_ansi}
use chimera_service.Log.Logfmt.{ParsedLine}
use chimera_service.Log.Bound.{append_bounded, bound_frame, max_log_text_bytes}

abbrev pub max_continuation_lines : ℕ
max_continuation_lines = 16

pub record Pending : Type 0 where
  pub frame : LogFrame
  pub continuations : ℕ

-- the clock of clash premium is a date and a time, in chrono's terms
pub record LogParser : Type 0 where
  pub kind : CoreKind
  pub epoch : ℕ
  pub premium_clock : Option (ℕ × ℕ)
  pub pending_stdout : Option Pending
  pub pending_stderr : Option Pending
  pub newest_pending : Option LogStream

-- at most two frames leave the parser
abbrev pub ParsedFrames : Type 0
ParsedFrames = Option LogFrame × Option LogFrame

unfoldable pub new_parser : CoreKind → (epoch : ℕ) → LogParser
new_parser kind epoch = record {
  kind = kind;
  epoch = epoch;
  premium_clock = none;
  pending_stdout = none;
  pending_stderr = none;
  newest_pending = none;
}

-- the record that a stream holds
abbrev pub held : LogStream → LogParser → Option Pending
held stdout p = p.pending_stdout
held stderr p = p.pending_stderr

abbrev pub with_held : LogStream → Option Pending → LogParser → LogParser
with_held stdout pending p = record p { pending_stdout = pending }
with_held stderr pending p = record p { pending_stderr = pending }

abbrev pub frame_of : Option Pending → Option LogFrame
frame_of none = none
frame_of (some pending) = some pending.frame

-- `Pending::append`
unfoldable pub append : Pending → Bytes → Pending
unfolding append_bounded
append pending line =
    let frame = pending.frame in
    let raw = append_bounded frame.raw line max_log_text_bytes in
    let message = append_bounded frame.message line max_log_text_bytes in
    if pending.continuations == max_continuation_lines
    then record pending { frame = record frame { truncated = true } }
    else if raw.1 || message.1
    then record {
      frame = record frame { raw = raw.0; message = message.0; truncated = true };
      continuations = max_continuation_lines;
    }
    else record {
      frame = record frame { raw = raw.0; message = message.0 };
      continuations = pending.continuations + 1;
    }

-- `emit`
unfoldable pub emit : LogStream → LogFrame → (hold : Bool) → LogParser → ParsedFrames × LogParser
emit stream frame hold p =
    if hold
    then (
      (frame_of (held stream p), none),
      with_held stream (some (record { frame = frame; continuations = 0 }))
          (record p { newest_pending = some stream }),
    )
    else ((frame_of (held stream p), some frame), with_held stream none p)

unfoldable pub starts_with : (prefix text : Bytes) → Bool
starts_with [] text = true
starts_with (a ∷ prefix) [] = false
starts_with (a ∷ prefix) (b ∷ text) = a == b && starts_with prefix text

abbrev pub is_error_root : Bytes → Bool
is_error_root line = starts_with (codes "Error:") line

abbrev pub is_warning_root : Bytes → Bool
is_warning_root line = starts_with (codes "warning:") line

abbrev pub plain_level : (error_root warning_root : Bool) → LogStream → LogLevel
plain_level true _ _ = LogLevel.error
plain_level false true _ = LogLevel.warning
plain_level false false stdout = LogLevel.info
plain_level false false stderr = LogLevel.warning

abbrev pub is_stderr : LogStream → Bool
is_stderr stdout = false
is_stderr stderr = true

-- `LogLevel` is ordered as it is declared
abbrev pub is_severe : LogLevel → Bool
is_severe LogLevel.error = true
is_severe LogLevel.fatal = true
is_severe _ = false

-- the frame of a line with a header
abbrev pub header_frame : LogParser → LogStream → Bytes → (at : ℕ) → ParsedLine → LogFrame
header_frame p stream line at parsed = record {
  at = at;
  epoch = p.epoch;
  kind = p.kind;
  stream = stream;
  level = parsed.level;
  timestamp = parsed.timestamp;
  target = parsed.target;
  message = parsed.message;
  fields = parsed.fields;
  raw = line;
  truncated = false;
}

abbrev pub plain_frame : LogParser → LogStream → Bytes → (at : ℕ) → LogFrame
plain_frame p stream line at = record {
  at = at;
  epoch = p.epoch;
  kind = p.kind;
  stream = stream;
  level = plain_level (is_error_root line) (is_warning_root line) stream;
  timestamp = none;
  target = none;
  message = line;
  fields = [];
  raw = line;
  truncated = false;
}

unfoldable pub emit_plain : LogStream → Bytes → (at : ℕ) → LogParser → ParsedFrames × LogParser
unfolding emit bound_frame starts_with
emit_plain stream line at p =
    emit stream (bound_frame (plain_frame p stream line at))
      (is_error_root line && is_stderr stream) p

-- a line with no header
unfoldable pub push_plain :
    LogStream → Bytes → (at : ℕ) → Option Pending → LogParser → ParsedFrames × LogParser
unfolding emit_plain append starts_with
push_plain stream line at none p = emit_plain stream line at p
push_plain stream line at (some pending) p =
    if is_error_root line || is_warning_root line
    then emit_plain stream line at p
    else ((none, none), with_held stream (some (append pending line)) p)

unfoldable pub push_parsed :
    LogStream → Bytes → (at : ℕ) → Option ParsedLine → LogParser → ParsedFrames × LogParser
unfolding push_plain emit bound_frame
push_parsed stream line at none p = push_plain stream line at (held stream p) p
push_parsed stream line at (some parsed) p =
    emit stream (bound_frame (header_frame p stream line at parsed)) (is_severe parsed.level) p

-- the header parser of a core: from its clock, the line and the instant, what it reads and its clock
abbrev pub HeaderParser : Type 0
HeaderParser = CoreKind → Option (ℕ × ℕ) → Bytes → (at : ℕ) → Option ParsedLine × Option (ℕ × ℕ)

-- `push_at`
unfoldable pub push_at :
    HeaderParser → LogStream → Bytes → (at : ℕ) → LogParser → ParsedFrames × LogParser
unfolding push_parsed strip_ansi
push_at parse_header stream line at p =
    let header = parse_header p.kind p.premium_clock (strip_ansi line) at in
    push_parsed stream (strip_ansi line) at header.0 (record p { premium_clock = header.1 })

abbrev pub in_order : Option LogStream → Option LogFrame → Option LogFrame → ParsedFrames
in_order (some stdout) out err = (err, out)
in_order _ out err = (out, err)

unfoldable pub finish : LogParser → ParsedFrames × LogParser
finish p = (
  in_order p.newest_pending (frame_of p.pending_stdout) (frame_of p.pending_stderr),
  record p { pending_stdout = none; pending_stderr = none; newest_pending = none },
)

pub record LogLine : Type 0 where
  pub stream : LogStream
  pub text : Bytes
  pub at : ℕ

abbrev pub present : Option LogFrame → List LogFrame
present none = []
present (some frame) = frame ∷ []

abbrev pub flatten : ParsedFrames → List LogFrame
flatten (first, second) = present first ++ present second

-- the frames of a console output, up to the end of the process
unfoldable pub parse_lines : HeaderParser → List LogLine → LogParser → List LogFrame
unfolding push_at finish
parse_lines parse_header [] p = flatten (finish p).0
parse_lines parse_header (line ∷ lines) p =
    let step = push_at parse_header line.stream line.text line.at p in
    flatten step.0 ++ parse_lines parse_header lines step.1
