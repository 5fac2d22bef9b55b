-- ===== src/Log/Parser/Records/Frames.antt =====
-- Each record of a stream leaves the parser as one frame, in order (log.rs).
use mathlib.Core.List.{append-nil}
use chimera_service.Base.{
  ℕ, ◌≡◌, refl, sym, ap, ◌∙◌, subst, true, false, inl, inr, Option, none, some, List, [], ◌∷◌, ◌++◌,
  arith, ◌||◌, not, is_some, if◌then◌else◌, Bool-cases,
}
use chimera_service.Base.Text.{Bytes}
use chimera_service.Log.Frame.{LogStream, stdout, stderr, LogFrame}
use chimera_service.Log.Ansi.{strip_ansi}
use chimera_service.Log.Parser.{
  Pending, LogParser, ParsedFrames, held, with_held, frame_of, append, emit, push_parsed, push_at,
  HeaderParser, in_order, finish, LogLine, present, flatten, parse_lines, is_error_root,
  is_warning_root,
}
use chimera_service.Log.Parser.Records.{
  same_stream, of_stream, Opening, opening, openings, Segment, segments, Represents, Shows,
}
use chimera_service.Log.Parser.Records.Shown.{
  Matches, HeldShows, Owns, Owned, of_stream-append, of_stream-kept, now_held, flushed_shows,
  continued_shows, append-Represents,
}
use chimera_service.Log.Parser.Records.Acts.{
  Opens, Continues, Acts, parsed-Acts, Owned-held, own_with, held-with_held, held_other,
  emit_frames, held-emit, emit-held_other, emit-Owned, emitted_other, next-HeldShows, present_other,
}

same_stream-eq : (s t : LogStream) → same_stream s t ≡ true → s ≡ t
same_stream-eq stdout stdout e = refl
same_stream-eq stderr stderr e = refl
same_stream-eq stdout stderr e = cc
same_stream-eq stderr stdout e = cc

append_stream :
    (pending : Pending) (line : Bytes) → (append pending line).frame.stream ≡ pending.frame.stream
unfolding append
append_stream pending line = ground arith

-- One line, where the lines behind it are as they should be.
module _ (s : LogStream) (rest : LogParser → List LogFrame) (os : LogParser → List Opening)
    (later : (q : LogParser) (g : Option Segment)
      → HeldShows s (held s q) g
      → Owned q
      → Matches g (of_stream s (rest q)) (segments (os q))) where
  abbrev Goal : Option Segment → List Opening → ParsedFrames × LogParser → Type 0
  Goal g more r = Matches g (of_stream s (flatten r.0 ++ rest r.1)) (segments more)

  opened_same :
      (text : Bytes) (at : ℕ) (o : Opening) (p : LogParser) (r : ParsedFrames × LogParser)
      (g : Option Segment)
      → Opens s text at o p r
      → HeldShows s (held s p) g
      → Owned p
      → Goal g (o ∷ os r.1) r
  opened_same text at o p r g a h own =
      let q = emit s a.frame a.hold p in
      subst (λ (r : ParsedFrames × LogParser). Goal g (o ∷ os r.1) r) (sym a.step)
        (subst (λ (o : Opening). Goal g (o ∷ os q.1) q) (sym a.marked)
          (unfold segments in
            subst
              (λ xs. Matches g xs (
                [],
                record { at = at; root = text; more = (segments (os q.1)).0 }
                    ∷ (segments (os q.1)).1,
              ))
              (sym (
                of_stream-append s (flatten q.0) (rest q.1)
                ∙ ap (λ xs. of_stream s xs ++ of_stream s (rest q.1))
                    (emit_frames s a.frame a.hold p)))
              (flushed_shows s a.frame at text a.shown a.mine (of_stream s (rest q.1))
                (segments (os q.1)) (held s p) g a.hold h
                (later q.1 (now_held at text a.hold)
                  (subst (λ x. HeldShows s x (now_held at text a.hold))
                    (sym (held-emit s a.frame a.hold p))
                    (next-HeldShows s a.frame at text a.hold a.shown a.mine))
                  (emit-Owned s a.frame a.hold p a.mine own)))))

  opened_other :
      (t : LogStream) (text : Bytes) (at : ℕ) (o : Opening) (p : LogParser)
      (r : ParsedFrames × LogParser) (g : Option Segment)
      → same_stream s t ≡ false
      → Opens t text at o p r
      → HeldShows s (held s p) g
      → Owned p
      → Goal g (os r.1) r
  opened_other t text at o p r g d a h own =
      let q = emit t a.frame a.hold p in
      subst (λ (r : ParsedFrames × LogParser). Goal g (os r.1) r) (sym a.step)
        (subst (λ xs. Matches g xs (segments (os q.1)))
          (sym (
            of_stream-append s (flatten q.0) (rest q.1)
            ∙ ap (λ xs. of_stream s xs ++ of_stream s (rest q.1)) (emit_frames t a.frame a.hold p)
            ∙ ap (λ xs. xs ++ of_stream s (rest q.1))
                (emitted_other s t (held t p) a.frame a.hold (Owned-held t p own) a.mine d)))
          (later q.1 g
            (subst (λ x. HeldShows s x g) (sym (emit-held_other s t a.frame a.hold p d)) h)
            (emit-Owned t a.frame a.hold p a.mine own)))

  held_segment :
      (text : Bytes) (p : LogParser) (pending : Pending) (g : Option Segment)
      → Owned p
      → held s p ≡ some pending
      → HeldShows s (some pending) g
      → (frames : List LogFrame) (c : List Bytes × List Segment)
      → ((g' : Option Segment) → HeldShows s (some (append pending text)) g' → Matches g' frames c)
      → Matches g frames (text ∷ c.0, c.1)
  held_segment text p pending none own e h frames c ih = absurd h
  held_segment text p pending (some g) own e h frames c ih = continued_shows g text frames c (
      ih (some (record g { more = g.more ++ text ∷ [] }))
        (append-Represents pending g text h.0, append_stream pending text ∙ h.1))

  continued_same :
      (text : Bytes) (at : ℕ) (o : Opening) (p : LogParser) (r : ParsedFrames × LogParser)
      (g : Option Segment)
      → Continues s text at o p r
      → HeldShows s (held s p) g
      → Owned p
      → Goal g (o ∷ os r.1) r
  continued_same text at o p r g a h own =
      let q = with_held s (some (append a.pending text)) p in
      let mine = subst (λ x. Owns s x) a.holds (Owned-held s p own) in
      subst (λ (r : ParsedFrames × LogParser). Goal g (o ∷ os r.1) r) (sym a.step)
        (subst (λ (o : Opening). Matches g (of_stream s (rest q)) (segments (o ∷ os q)))
          (sym a.marked)
          (unfold segments in
            held_segment text p a.pending g own a.holds (subst (λ x. HeldShows s x g) a.holds h)
              (of_stream s (rest q)) (segments (os q))
              (λ g' h'.
                later q g'
                  (subst (λ x. HeldShows s x g')
                    (sym (held-with_held s (some (append a.pending text)) p)) h')
                  (own_with s (some (append a.pending text)) p own
                    (append_stream a.pending text ∙ mine)))))

  continued_other :
      (t : LogStream) (text : Bytes) (at : ℕ) (o : Opening) (p : LogParser)
      (r : ParsedFrames × LogParser) (g : Option Segment)
      → same_stream s t ≡ false
      → Continues t text at o p r
      → HeldShows s (held s p) g
      → Owned p
      → Goal g (os r.1) r
  continued_other t text at o p r g d a h own =
      let q = with_held t (some (append a.pending text)) p in
      let mine = subst (λ x. Owns t x) a.holds (Owned-held t p own) in
      subst (λ (r : ParsedFrames × LogParser). Goal g (os r.1) r) (sym a.step)
        (later q g
          (subst (λ x. HeldShows s x g) (sym (held_other s t (some (append a.pending text)) p d)) h)
          (own_with t (some (append a.pending text)) p own (append_stream a.pending text ∙ mine)))

  line_matches :
      (t : LogStream) (text : Bytes) (at : ℕ) (o : Opening) (p : LogParser)
      (r : ParsedFrames × LogParser) (g : Option Segment)
      → Acts t text at p o r
      → HeldShows s (held s p) g
      → Owned p
      → Goal g (if same_stream s t then o ∷ os r.1 else os r.1) r
  line_matches t text at o p r g a h own = elim (Bool-cases (same_stream s t)) [
    | inl same ↦ rw same (
        let e = sym (same_stream-eq s t same) in
        elim a [
          | inl opens ↦
              opened_same text at o p r g (subst (λ u. Opens u text at o p r) e opens) h own
          | inr continues ↦
              continued_same text at o p r g (subst (λ u. Continues u text at o p r) e continues) h
                own
        ])
    | inr other ↦ rw other (elim a [
      | inl opens ↦ opened_other t text at o p r g other opens h own
      | inr continues ↦ continued_other t text at o p r g other continues h own
    ])
  ]

held_with_clock :
    (s : LogStream) (clock : Option (ℕ × ℕ)) (p : LogParser)
    → held s (record p { premium_clock = clock }) ≡ held s p
held_with_clock stdout clock p = refl
held_with_clock stderr clock p = refl

present_own :
    (s : LogStream) (o : Option Pending)
    → Owns s o
    → of_stream s (present (frame_of o)) ≡ present (frame_of o)
present_own s none own = unfold of_stream in refl
present_own s (some pending) own = of_stream-kept s pending.frame [] own ∙ unfold of_stream in refl

-- the two frames that are left, in either order
left :
    (s : LogStream) (xs ys as' bs : List LogFrame)
    → of_stream s xs ≡ as'
    → of_stream s ys ≡ bs
    → of_stream s (xs ++ ys) ≡ as' ++ bs
left s xs ys as' bs p q =
    of_stream-append s xs ys ∙ ap (λ zs. zs ++ of_stream s ys) p ∙ ap (λ zs. as' ++ zs) q

finish_frames :
    (s : LogStream) (newest : Option LogStream) (out err : Option Pending)
    → Owns stdout out
    → Owns stderr err
    → of_stream s (flatten (in_order newest (frame_of out) (frame_of err)))
      ≡ elim s [ stdout ↦ present (frame_of out) | stderr ↦ present (frame_of err) ]
finish_frames stdout (some stdout) out err o e =
    left stdout (present (frame_of err)) (present (frame_of out)) [] (present (frame_of out))
      (present_other stdout stderr err e refl) (present_own stdout out o)
finish_frames stdout (some stderr) out err o e =
    left stdout (present (frame_of out)) (present (frame_of err)) (present (frame_of out)) []
      (present_own stdout out o) (present_other stdout stderr err e refl)
    ∙ append-nil _
finish_frames stdout none out err o e =
    left stdout (present (frame_of out)) (present (frame_of err)) (present (frame_of out)) []
      (present_own stdout out o) (present_other stdout stderr err e refl)
    ∙ append-nil _
finish_frames stderr (some stdout) out err o e =
    left stderr (present (frame_of err)) (present (frame_of out)) (present (frame_of err)) []
      (present_own stderr err e) (present_other stderr stdout out o refl)
    ∙ append-nil _
finish_frames stderr (some stderr) out err o e =
    left stderr (present (frame_of out)) (present (frame_of err)) [] (present (frame_of err))
      (present_other stderr stdout out o refl) (present_own stderr err e)
finish_frames stderr none out err o e =
    left stderr (present (frame_of out)) (present (frame_of err)) [] (present (frame_of err))
      (present_other stderr stdout out o refl) (present_own stderr err e)

held-Matches :
    (s : LogStream) (o : Option Pending) (g : Option Segment)
    → HeldShows s o g
    → Matches g (present (frame_of o)) ([], [])
held-Matches s none none h = (refl, tt)
held-Matches s none (some g) h = absurd h
held-Matches s (some pending) none h = absurd h
held-Matches s (some pending) (some g) h = (
  subst (λ more. Represents pending.frame (record g { more = more })) (sym (append-nil g.more)) h.0,
  tt,
)

finish-Matches :
    (s : LogStream) (p : LogParser) (g : Option Segment)
    → HeldShows s (held s p) g
    → Owned p
    → Matches g (of_stream s (flatten (finish p).0)) ([], [])
unfolding finish
finish-Matches stdout p g h own =
    subst (λ xs. Matches g xs ([], []))
      (sym (finish_frames stdout p.newest_pending p.pending_stdout p.pending_stderr own.0 own.1))
      (held-Matches stdout p.pending_stdout g h)
finish-Matches stderr p g h own =
    subst (λ xs. Matches g xs ([], []))
      (sym (finish_frames stderr p.newest_pending p.pending_stdout p.pending_stderr own.0 own.1))
      (held-Matches stderr p.pending_stderr g h)

line-Acts :
    (parse_header : HeaderParser) (line : LogLine) (p : LogParser)
    → let text = strip_ansi line.text in
      let q = record p { premium_clock = (parse_header p.kind p.premium_clock text line.at).1 } in
      Acts line.stream text line.at q
        (opening parse_header line p)
        (push_at parse_header line.stream line.text line.at p)
unfolding opening push_at
line-Acts parse_header line p =
    let text = strip_ansi line.text in
    let header = parse_header p.kind p.premium_clock text line.at in
    let q = record p { premium_clock = header.1 } in
    subst
      (λ x.
        Acts line.stream text line.at q
          (record {
            opens =
                is_some header.0 || (is_error_root text || is_warning_root text) || not (is_some x);
            at = line.at;
            text = text;
          })
          (push_parsed line.stream text line.at header.0 q))
      (held_with_clock line.stream header.1 p) (parsed-Acts line.stream text line.at q header.0)

module _ (parse_header : HeaderParser) (s : LogStream) where
  lines_match :
      (lines : List LogLine) (p : LogParser) (g : Option Segment)
      → HeldShows s (held s p) g
      → Owned p
      → Matches g
          (of_stream s (parse_lines parse_header lines p))
          (segments (openings parse_header s lines p))
  unfolding parse_lines openings segments
  lines_match [] p g h own = finish-Matches s p g h own
  lines_match (line ∷ lines) p g h own =
      let text = strip_ansi line.text in
      let header = parse_header p.kind p.premium_clock text line.at in
      let q = record p { premium_clock = header.1 } in
      line_matches s (parse_lines parse_header lines) (openings parse_header s lines)
        (lines_match lines) line.stream text line.at (opening parse_header line p) q
        (push_at parse_header line.stream line.text line.at p) g (line-Acts parse_header line p)
        (subst (λ x. HeldShows s x g) (sym (held_with_clock s header.1 p)) h) own

-- From a parser that holds nothing, for either stream: the frames that the console output makes
-- are, in order, one for each record of the stream, that is for each line that opens one together
-- with the lines of its stream that follow it up to the next that opens one. Each has the
-- instant of its first line, and one that is not marked as truncated has the record's whole text.
pub parse_lines-Shows :
    (parse_header : HeaderParser) (s : LogStream) (lines : List LogLine) (p : LogParser)
    → p.pending_stdout ≡ none
    → p.pending_stderr ≡ none
    → Shows
        (of_stream s (parse_lines parse_header lines p))
        (segments (openings parse_header s lines p)).1
parse_lines-Shows parse_header s lines p out err =
    (lines_match parse_header s lines p none (holds_none s) (owns stdout out, owns stderr err)).1
  where
    owns : (t : LogStream) {o : Option Pending} → o ≡ none → Owns t o
    owns t e = subst (λ o. Owns t o) (sym e) tt

    holds_none : (s : LogStream) → HeldShows s (held s p) none
    holds_none stdout = subst (λ o. HeldShows stdout o none) (sym out) tt
    holds_none stderr = subst (λ o. HeldShows stderr o none) (sym err) tt
