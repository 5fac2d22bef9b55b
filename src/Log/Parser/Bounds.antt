-- ===== src/Log/Parser/Bounds.antt =====
-- Every frame that leaves the parser is within its caps (log.rs).
use chimera_service.Base.{
  ℕ, ◌≤◌, Bool, true, false, inl, inr, Option, none, some, List, [], ◌∷◌, ◌++◌, ◌==◌, ◌||◌, ◌&&◌,
  Bool-cases, length,
}
use chimera_service.Base.Text.{Bytes}
use chimera_service.Log.Frame.{LogStream, stdout, stderr, LogFrame}
use chimera_service.Log.Ansi.{strip_ansi}
use chimera_service.Log.Logfmt.{ParsedLine}
use chimera_service.Log.Bound.{
  IsBounded, bound_frame, bound_frame-IsBounded, append_bounded, length-append_bounded,
  max_log_text_bytes,
}
use chimera_service.Log.Parser.{
  Pending, LogParser, ParsedFrames, held, with_held, frame_of, append, emit, header_frame,
  plain_frame, emit_plain, push_plain, push_parsed, push_at, HeaderParser, in_order, finish,
  LogLine, present, flatten, parse_lines, is_error_root, is_warning_root, max_continuation_lines,
  is_severe, is_stderr,
}

abbrev pub AllBounded : List LogFrame → Type 0
AllBounded [] = Unit
AllBounded (frame ∷ frames) = IsBounded frame × AllBounded frames

abbrev FrameBounded : Option LogFrame → Type 0
FrameBounded none = Unit
FrameBounded (some frame) = IsBounded frame

abbrev pub PendingBounded : Option Pending → Type 0
PendingBounded none = Unit
PendingBounded (some pending) = IsBounded pending.frame

-- what the parser holds is within the caps
pub record HoldsBounded (p : LogParser) : Type 0 where
  pub out : PendingBounded p.pending_stdout
  pub error_out : PendingBounded p.pending_stderr

record StepBounded (r : ParsedFrames × LogParser) : Type 0 where
  pub first : FrameBounded r.0.0
  pub second : FrameBounded r.0.1
  pub state : HoldsBounded r.1

AllBounded-append : (xs ys : List LogFrame) → AllBounded xs → AllBounded ys → AllBounded (xs ++ ys)
AllBounded-append [] ys a b = b
AllBounded-append (x ∷ xs) ys a b = (a.0, AllBounded-append xs ys a.1 b)

present-AllBounded : (o : Option LogFrame) → FrameBounded o → AllBounded (present o)
present-AllBounded none b = tt
present-AllBounded (some frame) b = (b, tt)

frame_of-FrameBounded : (o : Option Pending) → PendingBounded o → FrameBounded (frame_of o)
frame_of-FrameBounded none b = tt
frame_of-FrameBounded (some pending) b = b

held-PendingBounded :
    (stream : LogStream) (p : LogParser) → HoldsBounded p → PendingBounded (held stream p)
held-PendingBounded stdout p h = h.out
held-PendingBounded stderr p h = h.error_out

with_held-HoldsBounded :
    (stream : LogStream) (o : Option Pending) (p : LogParser)
    → PendingBounded o
    → HoldsBounded p
    → HoldsBounded (with_held stream o p)
with_held-HoldsBounded stdout o p b h = record { out = b; error_out = h.error_out }
with_held-HoldsBounded stderr o p b h = record { out = h.out; error_out = b }

with_texts-IsBounded :
    (frame : LogFrame) (raw message : Bytes) (truncated : Bool)
    → IsBounded frame
    → length raw ≤ max_log_text_bytes
    → length message ≤ max_log_text_bytes
    → IsBounded (record frame { raw = raw; message = message; truncated = truncated })
with_texts-IsBounded frame raw message truncated b h k = record {
  message = k;
  raw = h;
  target = b.target;
  timestamp = b.timestamp;
  fields = b.fields;
  count = b.count;
}

append-IsBounded :
    (pending : Pending) (line : Bytes)
    → IsBounded pending.frame
    → IsBounded (append pending line).frame
unfolding append
append-IsBounded pending line b =
    let frame = pending.frame in
    let raw = append_bounded frame.raw line max_log_text_bytes in
    let message = append_bounded frame.message line max_log_text_bytes in
    let grown = λ (cut : Bool).
      with_texts-IsBounded frame raw.0 message.0 cut b
        (length-append_bounded frame.raw line max_log_text_bytes b.raw)
        (length-append_bounded frame.message line max_log_text_bytes b.message) in
    elim (Bool-cases (pending.continuations == max_continuation_lines)) [
      | inl full ↦
          rw full (with_texts-IsBounded frame frame.raw frame.message true b b.raw b.message)
      | inr room ↦ rw room (elim (Bool-cases (raw.1 || message.1)) [
        | inl cut ↦ rw cut (grown true)
        | inr whole ↦ rw whole (grown frame.truncated)
      ])
    ]

emit-StepBounded :
    (stream : LogStream) (frame : LogFrame) (hold : Bool) (p : LogParser)
    → IsBounded frame
    → HoldsBounded p
    → StepBounded (emit stream frame hold p)
unfolding emit
emit-StepBounded stream frame true p b h = record {
  first = frame_of-FrameBounded (held stream p) (held-PendingBounded stream p h);
  second = tt;
  state =
      with_held-HoldsBounded stream (some (record { frame = frame; continuations = 0 }))
        (record p { newest_pending = some stream }) b
        (record { out = h.out; error_out = h.error_out });
}
emit-StepBounded stream frame false p b h = record {
  first = frame_of-FrameBounded (held stream p) (held-PendingBounded stream p h);
  second = b;
  state = with_held-HoldsBounded stream none p tt h;
}

emit_plain-StepBounded :
    (stream : LogStream) (line : Bytes) (at : ℕ) (p : LogParser)
    → HoldsBounded p
    → StepBounded (emit_plain stream line at p)
unfolding emit_plain
emit_plain-StepBounded stream line at p h =
    emit-StepBounded stream (bound_frame (plain_frame p stream line at))
      (is_error_root line && is_stderr stream) p
      (bound_frame-IsBounded (plain_frame p stream line at)) h

push_plain-StepBounded :
    (stream : LogStream) (line : Bytes) (at : ℕ) (o : Option Pending) (p : LogParser)
    → PendingBounded o
    → HoldsBounded p
    → StepBounded (push_plain stream line at o p)
unfolding push_plain
push_plain-StepBounded stream line at none p b h = emit_plain-StepBounded stream line at p h
push_plain-StepBounded stream line at (some pending) p b h =
    elim (Bool-cases (is_error_root line || is_warning_root line)) [
      | inl root ↦ rw root (emit_plain-StepBounded stream line at p h)
      | inr more ↦ rw more (record {
        first = tt;
        second = tt;
        state =
            with_held-HoldsBounded stream (some (append pending line)) p
              (append-IsBounded pending line b) h;
      })
    ]

push_parsed-StepBounded :
    (stream : LogStream) (line : Bytes) (at : ℕ) (header : Option ParsedLine) (p : LogParser)
    → HoldsBounded p
    → StepBounded (push_parsed stream line at header p)
unfolding push_parsed
push_parsed-StepBounded stream line at none p h =
    push_plain-StepBounded stream line at (held stream p) p (held-PendingBounded stream p h) h
push_parsed-StepBounded stream line at (some parsed) p h =
    emit-StepBounded stream (bound_frame (header_frame p stream line at parsed))
      (is_severe parsed.level) p (bound_frame-IsBounded (header_frame p stream line at parsed)) h

push_at-StepBounded :
    (parse_header : HeaderParser) (line : LogLine) (p : LogParser)
    → HoldsBounded p
    → StepBounded (push_at parse_header line.stream line.text line.at p)
unfolding push_at
push_at-StepBounded parse_header line p h =
    let header = parse_header p.kind p.premium_clock (strip_ansi line.text) line.at in
    push_parsed-StepBounded line.stream (strip_ansi line.text) line.at header.0
      (record p { premium_clock = header.1 }) (record { out = h.out; error_out = h.error_out })

flatten-AllBounded :
    (frames : ParsedFrames)
    → FrameBounded frames.0
    → FrameBounded frames.1
    → AllBounded (flatten frames)
flatten-AllBounded (first, second) b c =
    AllBounded-append (present first) (present second) (present-AllBounded first b)
      (present-AllBounded second c)

in_order-AllBounded :
    (newest : Option LogStream) (out err : Option LogFrame)
    → FrameBounded out
    → FrameBounded err
    → AllBounded (flatten (in_order newest out err))
in_order-AllBounded none out err b c = flatten-AllBounded (out, err) b c
in_order-AllBounded (some stdout) out err b c = flatten-AllBounded (err, out) c b
in_order-AllBounded (some stderr) out err b c = flatten-AllBounded (out, err) b c

-- Whatever a core prints and whatever its header parser reads, every frame that is made of it is
-- within the caps on its message, raw text, target, printed instant and fields, with continuations.
pub parse_lines-AllBounded :
    (parse_header : HeaderParser) (lines : List LogLine) (p : LogParser)
    → HoldsBounded p
    → AllBounded (parse_lines parse_header lines p)
unfolding parse_lines finish
parse_lines-AllBounded parse_header [] p h =
    in_order-AllBounded p.newest_pending (frame_of p.pending_stdout) (frame_of p.pending_stderr)
      (frame_of-FrameBounded p.pending_stdout h.out)
      (frame_of-FrameBounded p.pending_stderr h.error_out)
parse_lines-AllBounded parse_header (line ∷ lines) p h =
    let step = push_at parse_header line.stream line.text line.at p in
    let s = push_at-StepBounded parse_header line p h in
    AllBounded-append (flatten step.0) (parse_lines parse_header lines step.1)
      (flatten-AllBounded step.0 s.first s.second)
      (parse_lines-AllBounded parse_header lines step.1 s.state)
