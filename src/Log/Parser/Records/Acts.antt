-- ===== src/Log/Parser/Records/Acts.antt =====
-- What a line does to the parser: it opens a record or continues one (log.rs).
use chimera_service.Base.{
  ℕ, ◌≡◌, refl, ap, ◌∙◌, Bool, true, false, inl, inr, ◌⊎◌, Option, none, some, [], ◌∷◌, ◌++◌, ◌||◌,
  ◌&&◌, not, is_some, Bool-cases,
}
use chimera_service.Base.Text.{Bytes}
use chimera_service.Log.Frame.{LogStream, stdout, stderr, LogFrame}
use chimera_service.Log.Logfmt.{ParsedLine}
use chimera_service.Log.Bound.{bound_frame}
use chimera_service.Log.Parser.{
  Pending, LogParser, ParsedFrames, held, with_held, frame_of, append, emit, header_frame,
  plain_frame, emit_plain, push_plain, push_parsed, present, flatten, is_error_root,
  is_warning_root, is_severe, is_stderr,
}
use chimera_service.Log.Parser.Records.{same_stream, of_stream, Opening, Represents}
use chimera_service.Log.Parser.Records.Whole.{or-true}
use chimera_service.Log.Parser.Records.Shown.{
  Owns, Owned, of_stream-dropped, of_stream-append, root_of, emitted, now_held, HeldShows,
  opened-Represents,
}

-- What a line does: it opens a record, whose frame is sent or held, or continues the one that is held.
pub record Opens (t : LogStream) (text : Bytes) (at : ℕ) (o : Opening) (p : LogParser)
    (r : ParsedFrames × LogParser) : Type 0 where
  pub frame : LogFrame
  pub hold : Bool
  pub step : r ≡ emit t frame hold p
  pub marked : o ≡ record { opens = true; at = at; text = text }
  pub shown : Represents frame (root_of at text)
  pub mine : frame.stream ≡ t

pub record Continues (t : LogStream) (text : Bytes) (at : ℕ) (o : Opening) (p : LogParser)
    (r : ParsedFrames × LogParser) : Type 0 where
  pub pending : Pending
  pub holds : held t p ≡ some pending
  pub step : r ≡ ((none, none), with_held t (some (append pending text)) p)
  pub marked : o ≡ record { opens = false; at = at; text = text }

module _ (t : LogStream) (text : Bytes) (at : ℕ) (p : LogParser) where
  abbrev pub Acts : Opening → ParsedFrames × LogParser → Type 0
  Acts o r = Opens t text at o p r ⊎ Continues t text at o p r

  abbrev pub marks : Option ParsedLine → Opening
  marks header = record {
    opens =
        is_some header || (is_error_root text || is_warning_root text) || not (is_some (held t p));
    at = at;
    text = text;
  }

  plain_opens :
      (o : Opening)
      → o ≡ record { opens = true; at = at; text = text }
      → Opens t text at o p (emit_plain t text at p)
  unfolding emit_plain
  plain_opens o e = record {
    frame = bound_frame (plain_frame p t text at);
    hold = is_error_root text && is_stderr t;
    step = refl;
    marked = e;
    shown = opened-Represents (plain_frame p t text at);
    mine = unfold bound_frame in refl;
  }

  plain-Acts : (o : Option Pending) → held t p ≡ o → Acts (marks none) (push_plain t text at o p)
  unfolding push_plain
  plain-Acts none e = inl (
      plain_opens (marks none) (
        rw e (
          ap (λ b. record { opens = b; at = at; text = text })
            (or-true (is_error_root text || is_warning_root text)))))
  plain-Acts (some pending) e = elim (Bool-cases (is_error_root text || is_warning_root text)) [
    | inl root ↦ rw root (inl (plain_opens _ refl))
    | inr more ↦
        rw more (inr (record { pending = pending; holds = e; step = refl; marked = rw e refl }))
  ]

  pub parsed-Acts :
      (header : Option ParsedLine) → Acts (marks header) (push_parsed t text at header p)
  unfolding push_parsed
  parsed-Acts none = plain-Acts (held t p) refl
  parsed-Acts (some parsed) = inl (record {
    frame = bound_frame (header_frame p t text at parsed);
    hold = is_severe parsed.level;
    step = refl;
    marked = refl;
    shown = opened-Represents (header_frame p t text at parsed);
    mine = unfold bound_frame in refl;
  })

pub Owned-held : (t : LogStream) (p : LogParser) → Owned p → Owns t (held t p)
Owned-held stdout p own = own.0
Owned-held stderr p own = own.1

pub own_with :
    (t : LogStream) (o : Option Pending) (p : LogParser)
    → Owned p
    → Owns t o
    → Owned (with_held t o p)
own_with stdout o p own h = (h, own.1)
own_with stderr o p own h = (own.0, h)

pub held-with_held :
    (t : LogStream) (o : Option Pending) (p : LogParser) → held t (with_held t o p) ≡ o
held-with_held stdout o p = refl
held-with_held stderr o p = refl

pub held_other :
    (s t : LogStream) (o : Option Pending) (p : LogParser)
    → same_stream s t ≡ false
    → held s (with_held t o p) ≡ held s p
held_other stdout stdout o p d = cc
held_other stderr stderr o p d = cc
held_other stdout stderr o p d = refl
held_other stderr stdout o p d = refl

held_clock :
    (s : LogStream) (n : Option LogStream) (p : LogParser)
    → held s (record p { newest_pending = n }) ≡ held s p
held_clock stdout n p = refl
held_clock stderr n p = refl

-- the record behind `emit`
abbrev pub next_held : LogFrame → (hold : Bool) → Option Pending
next_held frame true = some (record { frame = frame; continuations = 0 })
next_held frame false = none

pub emit_frames :
    (t : LogStream) (frame : LogFrame) (hold : Bool) (p : LogParser)
    → flatten (emit t frame hold p).0 ≡ emitted (held t p) frame hold
unfolding emit
emit_frames t frame true p = refl
emit_frames t frame false p = refl

pub held-emit :
    (t : LogStream) (frame : LogFrame) (hold : Bool) (p : LogParser)
    → held t (emit t frame hold p).1 ≡ next_held frame hold
unfolding emit
held-emit t frame true p =
    held-with_held t (next_held frame true) (record p { newest_pending = some t })
held-emit t frame false p = held-with_held t none p

pub emit-held_other :
    (s t : LogStream) (frame : LogFrame) (hold : Bool) (p : LogParser)
    → same_stream s t ≡ false
    → held s (emit t frame hold p).1 ≡ held s p
unfolding emit
emit-held_other s t frame true p d =
    held_other s t (next_held frame true) (record p { newest_pending = some t }) d
    ∙ held_clock s (some t) p
emit-held_other s t frame false p d = held_other s t none p d

pub emit-Owned :
    (t : LogStream) (frame : LogFrame) (hold : Bool) (p : LogParser)
    → frame.stream ≡ t
    → Owned p
    → Owned (emit t frame hold p).1
unfolding emit
emit-Owned t frame true p mine own =
    own_with t (next_held frame true) (record p { newest_pending = some t }) own mine
emit-Owned t frame false p mine own = own_with t none p own tt

pub present_other :
    (s t : LogStream) (o : Option Pending)
    → Owns t o
    → same_stream s t ≡ false
    → of_stream s (present (frame_of o)) ≡ []
present_other s t none own d = unfold of_stream in refl
present_other s t (some pending) own d =
    of_stream-dropped s t pending.frame [] own d ∙ unfold of_stream in refl

pub emitted_other :
    (s t : LogStream) (o : Option Pending) (frame : LogFrame) (hold : Bool)
    → Owns t o
    → frame.stream ≡ t
    → same_stream s t ≡ false
    → of_stream s (emitted o frame hold) ≡ []
emitted_other s t o frame true own mine d =
    of_stream-append s (present (frame_of o)) []
    ∙ ap (λ xs. xs ++ of_stream s []) (present_other s t o own d)
    ∙ unfold of_stream in refl
emitted_other s t o frame false own mine d =
    of_stream-append s (present (frame_of o)) (frame ∷ [])
    ∙ ap (λ xs. xs ++ of_stream s (frame ∷ [])) (present_other s t o own d)
    ∙ of_stream-dropped s t frame [] mine d
    ∙ unfold of_stream in refl

pub next-HeldShows :
    (s : LogStream) (frame : LogFrame) (at : ℕ) (text : Bytes) (hold : Bool)
    → Represents frame (root_of at text)
    → frame.stream ≡ s
    → HeldShows s (next_held frame hold) (now_held at text hold)
next-HeldShows s frame at text true r mine = (r, mine)
next-HeldShows s frame at text false r mine = tt
