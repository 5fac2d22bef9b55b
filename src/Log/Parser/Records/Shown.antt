-- ===== src/Log/Parser/Records/Shown.antt =====
-- How the frames of a stream show its records, as records open and go on (log.rs).
use mathlib.Core.List.{append_assoc, append-nil}
use chimera_service.Base.{
  ℕ, ◌≡◌, refl, sym, ap, ◌∙◌, subst, Bool, true, false, inl, inr, Option, none, some, List, [], ◌∷◌,
  ◌++◌, arith, ◌==◌, ◌||◌, Bool-cases,
}
use chimera_service.Base.Text.{Bytes}
use chimera_service.Log.Frame.{LogStream, stdout, stderr, LogFrame}
use chimera_service.Log.Bound.{bound_frame, append_bounded, max_log_text_bytes}
use chimera_service.Log.Parser.{
  Pending, LogParser, frame_of, append, present, max_continuation_lines,
}
use chimera_service.Log.Parser.Records.{same_stream, of_stream, Segment, joined, Represents, Shows}
use chimera_service.Log.Parser.Records.Whole.{or-false, append_bounded_whole, bound_frame_whole}

joined-snoc :
    (root : Bytes) (lines : List Bytes) (line : Bytes)
    → joined root (lines ++ line ∷ []) ≡ joined root lines ++ b'\n' ∷ line
unfolding joined
joined-snoc root [] line = refl
joined-snoc root (l ∷ lines) line = joined-snoc (root ++ b'\n' ∷ l) lines line

-- What continues a record continues its frame.
pub append-Represents :
    (pending : Pending) (segment : Segment) (line : Bytes)
    → Represents pending.frame segment
    → Represents (append pending line).frame (record segment { more = segment.more ++ line ∷ [] })
unfolding append
append-Represents pending segment line r =
    let frame = pending.frame in
    let raw = append_bounded frame.raw line max_log_text_bytes in
    let message = append_bounded frame.message line max_log_text_bytes in
    elim (Bool-cases (pending.continuations == max_continuation_lines)) [
      | inl full ↦ rw full (record { at = r.at; whole = λ h. cc })
      | inr room ↦ rw room (elim (Bool-cases (raw.1 || message.1)) [
        | inl cut ↦ rw cut (record { at = r.at; whole = λ h. cc })
        | inr kept ↦ rw kept (record {
          at = r.at;
          whole = λ h.
              append_bounded_whole frame.raw line max_log_text_bytes
                (or-false raw.1 message.1 kept).0
              ∙ ap (λ t. t ++ b'\n' ∷ line) (r.whole h)
              ∙ sym (joined-snoc segment.root segment.more line);
        })
      ])
    ]

pub opened-Represents :
    (frame : LogFrame)
    → Represents (bound_frame frame) (record { at = frame.at; root = frame.raw; more = [] })
unfolding joined
opened-Represents frame = record {
  at = unfold bound_frame in refl;
  whole = λ h. bound_frame_whole frame h;
}

pub of_stream-append :
    (s : LogStream) (xs ys : List LogFrame)
    → of_stream s (xs ++ ys) ≡ of_stream s xs ++ of_stream s ys
unfolding of_stream
of_stream-append s [] ys = refl
of_stream-append s (x ∷ xs) ys = ground (arith, of_stream-append s xs ys)

-- The frames of a stream that holds a record, or none, against the lines that are still to come.
abbrev pub Matches : Option Segment → List LogFrame → List Bytes × List Segment → Type 0
Matches none frames c = (c.0 ≡ []) × Shows frames c.1
Matches (some g) frames c = Shows frames (record g { more = g.more ++ c.0 } ∷ c.1)

-- what a stream holds, and the record that it stands for
abbrev pub HeldShows : LogStream → Option Pending → Option Segment → Type 0
HeldShows s none none = Unit
HeldShows s (some pending) (some g) = Represents pending.frame g × (pending.frame.stream ≡ s)
HeldShows s _ _ = ⊥

abbrev pub Owns : LogStream → Option Pending → Type 0
Owns s none = Unit
Owns s (some pending) = pending.frame.stream ≡ s

-- each stream holds its own frames
abbrev pub Owned : LogParser → Type 0
Owned p = Owns stdout p.pending_stdout × Owns stderr p.pending_stderr

same_self : (s : LogStream) → same_stream s s ≡ true
same_self stdout = refl
same_self stderr = refl

pub of_stream-kept :
    (s : LogStream) (x : LogFrame) (xs : List LogFrame)
    → x.stream ≡ s
    → of_stream s (x ∷ xs) ≡ x ∷ of_stream s xs
unfolding of_stream
of_stream-kept s x xs e = rw (e, same_self s) refl

pub of_stream-dropped :
    (s t : LogStream) (x : LogFrame) (xs : List LogFrame)
    → x.stream ≡ t
    → same_stream s t ≡ false
    → of_stream s (x ∷ xs) ≡ of_stream s xs
unfolding of_stream
of_stream-dropped s t x xs e d = rw (e, d) refl

abbrev pub root_of : ℕ → Bytes → Segment
root_of at text = record { at = at; root = text; more = [] }

-- what leaves a stream that a record opens on
abbrev pub emitted : Option Pending → LogFrame → (hold : Bool) → List LogFrame
emitted o frame true = present (frame_of o) ++ []
emitted o frame false = present (frame_of o) ++ frame ∷ []

abbrev pub now_held : ℕ → Bytes → (hold : Bool) → Option Segment
now_held at text true = some (root_of at text)
now_held at text false = none

module _ (s : LogStream) (frame : LogFrame) (at : ℕ) (text : Bytes)
    (r : Represents frame (root_of at text)) (mine : frame.stream ≡ s) (frames : List LogFrame)
    (c : List Bytes × List Segment) where
  opened-Shows :
      (hold : Bool)
      → Matches (now_held at text hold) frames c
      → Shows
          (of_stream s (emitted none frame hold) ++ frames)
          (record (root_of at text) { more = c.0 } ∷ c.1)
  unfolding of_stream
  opened-Shows true m = m
  opened-Shows false m =
      rw (of_stream-kept s frame [] mine) (
        subst (λ more. Represents frame (record (root_of at text) { more = more })) (sym m.0) r,
        m.1,
      )

  pub flushed_shows :
      (o : Option Pending) (g : Option Segment) (hold : Bool)
      → HeldShows s o g
      → Matches (now_held at text hold) frames c
      → Matches g
          (of_stream s (emitted o frame hold) ++ frames)
          ([], record (root_of at text) { more = c.0 } ∷ c.1)
  flushed_shows none none hold h m = (refl, opened-Shows hold m)
  flushed_shows (some pending) none hold h m = absurd h
  flushed_shows none (some g) hold h m = absurd h
  flushed_shows (some pending) (some g) true h m = rw (of_stream-kept s pending.frame [] h.1) (
    subst (λ more. Represents pending.frame (record g { more = more })) (sym (append-nil g.more))
        h.0,
    opened-Shows true m,
  )
  flushed_shows (some pending) (some g) false h m =
      rw (of_stream-kept s pending.frame (frame ∷ []) h.1) (
        subst (λ more. Represents pending.frame (record g { more = more }))
            (sym (append-nil g.more)) h.0,
        opened-Shows false m,
      )

pub continued_shows :
    (g : Segment) (text : Bytes) (frames : List LogFrame) (c : List Bytes × List Segment)
    → Matches (some (record g { more = g.more ++ text ∷ [] })) frames c
    → Matches (some g) frames (text ∷ c.0, c.1)
continued_shows g text frames c m =
    subst (λ more. Shows frames (record g { more = more } ∷ c.1))
      (append_assoc g.more (text ∷ []) c.0) m
