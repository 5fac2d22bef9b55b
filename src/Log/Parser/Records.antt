-- ===== src/Log/Parser/Records.antt =====
-- The frames of a stream against its records: a record is the line that opens it and the lines that
-- continue it (log.rs).
pub mod Whole
pub mod Shown
pub mod Acts
pub mod Frames
use chimera_service.Base.{
  ℕ, Bool, true, false, List, [], ◌∷◌, ◌++◌, ◌≡◌, ◌||◌, if◌then◌else◌, is_some, not,
}
use chimera_service.Base.Text.{Bytes}
use chimera_service.Log.Frame.{LogStream, stdout, stderr, LogFrame}
use chimera_service.Log.Ansi.{strip_ansi}
use chimera_service.Log.Parser.{
  LogParser, HeaderParser, LogLine, held, push_at, is_error_root, is_warning_root,
}

abbrev pub same_stream : LogStream → LogStream → Bool
same_stream stdout stdout = true
same_stream stderr stderr = true
same_stream _ _ = false

-- the frames of one stream
unfoldable pub of_stream : LogStream → List LogFrame → List LogFrame
of_stream s [] = []
of_stream s (frame ∷ frames) =
    if same_stream s frame.stream then frame ∷ of_stream s frames else of_stream s frames

-- a line of a stream, cleared of its escapes, and whether it opens a record
pub record Opening : Type 0 where
  pub opens : Bool
  pub at : ℕ
  pub text : Bytes

-- A line opens a record if it has a header, starts like an error or a warning, or its stream holds none.
unfoldable pub opening : HeaderParser → LogLine → LogParser → Opening
unfolding strip_ansi
opening parse_header line p =
    let text = strip_ansi line.text in
    record {
      opens =
          is_some (parse_header p.kind p.premium_clock text line.at).0
          || (is_error_root text || is_warning_root text)
          || not (is_some (held line.stream p));
      at = line.at;
      text = text;
    }

-- the lines of a stream in a console output
unfoldable pub openings : HeaderParser → LogStream → List LogLine → LogParser → List Opening
unfolding opening push_at
openings parse_header s [] p = []
openings parse_header s (line ∷ lines) p =
    let rest =
      openings parse_header s lines (push_at parse_header line.stream line.text line.at p).1 in
    if same_stream s line.stream then opening parse_header line p ∷ rest else rest

pub record Segment : Type 0 where
  pub at : ℕ
  pub root : Bytes
  pub more : List Bytes

-- the lines of a record, put together again
unfoldable pub joined : Bytes → List Bytes → Bytes
joined root [] = root
joined root (line ∷ lines) = joined (root ++ b'\n' ∷ line) lines

-- the lines before the first one that opens a record, and the records
unfoldable pub segments : List Opening → List Bytes × List Segment
segments [] = ([], [])
segments (o ∷ os) =
    let rest = segments os in
    if o.opens
    then ([], record { at = o.at; root = o.text; more = rest.0 } ∷ rest.1)
    else (o.text ∷ rest.0, rest.1)

-- A frame has the instant of its record's first line, and, unless it says that it is truncated, the
-- whole text of the record.
pub record Represents (frame : LogFrame) (segment : Segment) : Type 0 where
  pub at : frame.at ≡ segment.at
  pub whole : frame.truncated ≡ false → frame.raw ≡ joined segment.root segment.more

abbrev pub Shows : List LogFrame → List Segment → Type 0
Shows [] [] = Unit
Shows (frame ∷ frames) (segment ∷ rest) = Represents frame segment × Shows frames rest
Shows _ _ = ⊥
