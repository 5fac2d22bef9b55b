-- ===== src/LogSink/Archive.antt =====
-- The archive as one text (log_sink.rs): a write appends to it, and what it may lose is at its front.
use mathlib.Core.List.{append_assoc, append-nil}
use chimera_service.Base.{
  ℕ, zero, suc, ◌+◌, ◌-◌, ◌<◌, ◌≡◌, refl, sym, ap, ◌∙◌, subst, inl, inr, Bool, true, false, Option,
  none, some, List, [], ◌∷◌, ◌++◌, arith, leb, if◌then◌else◌, Bool-cases, length, take,
}
use chimera_service.Base.Text.{Bytes}
use chimera_service.LogSink.{
  Disk, Entry, LogFile, Writer, create_file, has_file, append_to, prune_dir, prune_before,
  switch_file, roll_over, rotate, flush_pending, make_room, push_record, write_entries, write,
}
use chimera_service.LogSink.Prune.{Below, Below-weaken, prune_dir-protected}

-- the files' contents, the oldest first
unfoldable pub archive : List LogFile → Bytes
archive [] = []
archive (f ∷ fs) = archive fs ++ f.content

-- the file that is written to is the newest
abbrev pub Active : ℕ → List LogFile → Type 0
Active n [] = ⊥
Active n (f ∷ fs) = (f.seq ≡ n) × Below f.seq fs

-- the lines of a batch
unfoldable pub lines : (ℕ → Entry → Option Bytes) → (at : ℕ) → List Entry → Bytes
lines render at [] = []
lines render at (e ∷ es) = push_record [] (render at e) ++ lines render at es

-- from the old files to the new, bytes were appended, and some were lost at the front
pub record Appended (old : List LogFile) (bytes : Bytes) (n : ℕ) (files : List LogFile)
    : Type 0 where
  pub lost : Bytes
  pub kept : lost ++ archive files ≡ archive old ++ bytes
  pub active : Active n files

archive-take :
    (k : ℕ) (fs : List LogFile) → (lost : Bytes) × (lost ++ archive (take k fs) ≡ archive fs)
unfolding archive
archive-take zero fs = (archive fs, append-nil (archive fs))
archive-take (suc k) [] = ([], refl)
archive-take (suc k) (f ∷ fs) =
    let (lost, p) = archive-take k fs in
    (lost, sym (append_assoc lost (archive (take k fs)) f.content) ∙ ap (λ a. a ++ f.content) p)

push_record-append :
    (buffer : Bytes) (r : Option Bytes) → push_record buffer r ≡ buffer ++ push_record [] r
push_record-append buffer none = sym (append-nil buffer)
push_record-append buffer (some line) = refl

append_to-absent :
    (n : ℕ) (bytes : Bytes) (fs : List LogFile) → Below n fs → append_to n bytes fs ≡ fs
unfolding append_to
append_to-absent n bytes [] b = refl
append_to-absent n bytes (f ∷ fs) b =
    ground
      (arith, b.0, append_to-absent n bytes fs (Below-weaken f.seq n fs (omega (arith, b.0)) b.1))

pub has_file-absent : (n : ℕ) (fs : List LogFile) → Below n fs → has_file n fs ≡ false
unfolding has_file
has_file-absent n [] b = refl
has_file-absent n (f ∷ fs) b =
    ground (arith, b.0, has_file-absent n fs (Below-weaken f.seq n fs (omega (arith, b.0)) b.1))

pub Active-Below : (n m : ℕ) (fs : List LogFile) → n < m → Active n fs → Below m fs
Active-Below n m [] h a = tt
Active-Below n m (f ∷ fs) h a = (omega (arith, a.0), a.1)

pub created_lem :
    (n : ℕ) (fs : List LogFile)
    → Active n fs
    → create_file (n + 1) fs ≡ record { seq = n + 1; content = [] } ∷ fs
unfolding create_file
created_lem n fs a = rw (has_file-absent (n + 1) fs (Active-Below n (n + 1) fs (omega arith) a))

unfoldable pub append_top : Bytes → List LogFile → List LogFile
append_top bytes [] = []
append_top bytes (f ∷ fs) = record f { content = f.content ++ bytes } ∷ fs

pub append_to_lem :
    (n : ℕ) (bytes : Bytes) (fs : List LogFile)
    → Active n fs
    → append_to n bytes fs ≡ append_top bytes fs
unfolding append_to append_top
append_to_lem n bytes [] a = absurd a
append_to_lem n bytes (f ∷ fs) a =
    ground (arith, a.0, append_to-absent n bytes fs (subst (λ m. Below m fs) a.0 a.1))

-- the newest file, and of the others what a prune leaves
unfoldable pub spare : ℕ → Bool → List LogFile → List LogFile
spare k drops [] = []
spare k drops (f ∷ fs) = f ∷ (if drops then take k fs else fs)

pub take-Below : (n k : ℕ) (fs : List LogFile) → Below n fs → Below n (take k fs)
take-Below n zero fs b = tt
take-Below n (suc k) [] b = tt
take-Below n (suc k) (f ∷ fs) b = (b.0, take-Below f.seq k fs b.1)

module _ (disk : Disk) (removes : (t : ℕ) → disk.removes t ≡ true) where
  pub prune_dir_lem :
      (keep n t : ℕ) (files : List LogFile)
      → Active n files
      → (prune_dir disk keep (some n) t files).1 ≡ spare (keep - 1) (disk.lists t) files
  unfolding spare
  prune_dir_lem keep n t [] a = absurd a
  prune_dir_lem keep n t (f ∷ fs) a =
      subst
        (λ m.
          (prune_dir disk keep (some m) t (f ∷ fs)).1
          ≡ f ∷ (if disk.lists t then take (keep - 1) fs else fs))
        a.0 (prune_dir-protected disk removes keep t f fs a.1)

module _ (old : List LogFile) where
  spare-Appended :
      (k : ℕ) (drops : Bool) (bytes : Bytes) (n : ℕ) (files : List LogFile)
      → Appended old bytes n files
      → Appended old bytes n (spare k drops files)
  unfolding spare archive
  spare-Appended k drops bytes n [] p = absurd p.active
  spare-Appended k false bytes n (f ∷ fs) p = p
  spare-Appended k true bytes n (f ∷ fs) p =
      let (more, q) = archive-take k fs in
      record {
        lost = p.lost ++ more;
        kept =
            append_assoc p.lost more (archive (take k fs) ++ f.content)
            ∙ ap (λ a. p.lost ++ a)
                (sym (append_assoc more (archive (take k fs)) f.content)
                  ∙ ap (λ a. a ++ f.content) q)
            ∙ p.kept;
        active = (p.active.0, take-Below f.seq k fs p.active.1);
      }

  top-Appended :
      (more bytes : Bytes) (n : ℕ) (files : List LogFile)
      → Appended old bytes n files
      → Appended old (bytes ++ more) n (append_top more files)
  unfolding append_top archive
  top-Appended more bytes n [] p = absurd p.active
  top-Appended more bytes n (f ∷ fs) p = record {
    lost = p.lost;
    kept =
        ap (λ a. p.lost ++ a) (sym (append_assoc (archive fs) f.content more))
        ∙ sym (append_assoc p.lost (archive fs ++ f.content) more)
        ∙ ap (λ a. a ++ more) p.kept
        ∙ append_assoc (archive old) bytes more;
    active = p.active;
  }

  new-Appended :
      (bytes : Bytes) (n : ℕ) (files : List LogFile)
      → Appended old bytes n files
      → Appended old bytes (n + 1) (record { seq = n + 1; content = [] } ∷ files)
  unfolding archive
  new-Appended bytes n files p = record {
    lost = p.lost;
    kept = ap (λ a. p.lost ++ a) (append-nil (archive files)) ∙ p.kept;
    active = (refl, Active-Below n (n + 1) files (omega arith) p.active);
  }

module _ (disk : Disk) (removes : (t : ℕ) → disk.removes t ≡ true)
    (writes : (t : ℕ) → disk.writes t ≡ none) (old : List LogFile) where
  abbrev Holds : Bytes → Writer → Type 0
  Holds bytes w = Appended old bytes w.seq w.files

  flush_pending-Holds :
      (buffer bytes : Bytes) (w : Writer)
      → Holds bytes w
      → Holds (bytes ++ buffer) (flush_pending disk buffer w)
  unfolding flush_pending
  flush_pending-Holds [] bytes w p = subst (λ b. Holds b w) (sym (append-nil bytes)) p
  flush_pending-Holds (b ∷ bs) bytes w p = rw (writes w.clock) (
      subst (λ fs. Appended old (bytes ++ (b ∷ bs)) w.seq fs)
        (sym (append_to_lem w.seq (b ∷ bs) w.files p.active))
        (top-Appended old (b ∷ bs) bytes w.seq w.files p))

  prune_before-Holds :
      (bytes : Bytes) (w : Writer) → Holds bytes w → Holds bytes (prune_before disk w)
  unfolding prune_before
  prune_before-Holds bytes w p =
      subst (λ fs. Appended old bytes w.seq fs)
        (sym (prune_dir_lem disk removes (w.max_files - 1) w.seq w.clock w.files p.active))
        (spare-Appended old (w.max_files - 1 - 1) (disk.lists w.clock) bytes w.seq w.files p)

  switch_file-Holds :
      (bytes : Bytes) (w : Writer) → Holds bytes w → Holds bytes (switch_file disk w)
  unfolding switch_file
  switch_file-Holds bytes w p =
      let q =
        subst (λ fs. Appended old bytes (w.seq + 1) fs) (sym (created_lem w.seq w.files p.active))
          (new-Appended old bytes w.seq w.files p) in
      subst (λ fs. Appended old bytes (w.seq + 1) fs)
        (sym (
          prune_dir_lem disk removes w.max_files (w.seq + 1) w.clock
            (create_file (w.seq + 1) w.files) q.active))
        (spare-Appended old (w.max_files - 1) (disk.lists w.clock) bytes (w.seq + 1)
          (create_file (w.seq + 1) w.files) q)

  rotate-Holds : (bytes : Bytes) (w : Writer) → Holds bytes w → Holds bytes (rotate disk w)
  unfolding rotate roll_over
  rotate-Holds bytes w p =
      let after = record (prune_before disk w) { clock = (prune_before disk w).clock + 1 } in
      let q = prune_before-Holds bytes w p in
      elim (Bool-cases (disk.creates (prune_before disk w).clock)) [
        | inl e ↦ rw e (switch_file-Holds bytes after q)
        | inr e ↦ rw e q
      ]

  make_room-Holds :
      (buffer bytes : Bytes) (w : Writer)
      → Holds bytes w
      → let room = make_room disk buffer w in
        (before : Bytes) × (before ++ room.0 ≡ bytes ++ buffer) × Holds before room.1
  unfolding make_room
  make_room-Holds buffer bytes w p =
      elim (Bool-cases (leb w.max_bytes (w.written + length buffer))) [
        | inl full ↦ rw full (
            (
              bytes ++ buffer,
              append-nil (bytes ++ buffer),
              rotate-Holds (bytes ++ buffer) (flush_pending disk buffer w)
                  (flush_pending-Holds buffer bytes w p),
            ))
        | inr space ↦ rw space (bytes, refl, p)
      ]

  module _ (render : ℕ → Entry → Option Bytes) (at : ℕ) where
    write_entries-Holds :
        (es : List Entry) (buffer bytes : Bytes) (w : Writer)
        → Holds bytes w
        → Holds ((bytes ++ buffer) ++ lines render at es) (write_entries disk render at es buffer w)
    unfolding write_entries lines
    write_entries-Holds [] buffer bytes w p =
        subst (λ b. Holds b (flush_pending disk buffer w)) (sym (append-nil (bytes ++ buffer)))
          (flush_pending-Holds buffer bytes w p)
    write_entries-Holds (e ∷ es) buffer bytes w p =
        let (before, q, held) = make_room-Holds buffer bytes w p in
        subst (λ b. Holds b (write_entries disk render at (e ∷ es) buffer w))
          (ap (λ b. b ++ lines render at es)
              (ap (λ b. before ++ b) (push_record-append (make_room disk buffer w).0 (render at e))
                ∙ sym
                    (append_assoc before (make_room disk buffer w).0 (push_record [] (render at e)))
                ∙ ap (λ b. b ++ push_record [] (render at e)) q)
            ∙ append_assoc (bytes ++ buffer) (push_record [] (render at e)) (lines render at es))
          (write_entries-Holds es (push_record (make_room disk buffer w).0 (render at e)) before
            (make_room disk buffer w).1 held)

-- Where writes and removals succeed, whatever else fails: what the archive has after a batch is the end of the
-- old archive with the lines of the batch behind it, each once and in order. What is lost is a front part
-- of that whole, which reaches into the batch itself where the batch needs more files than are kept.
-- The file that is written to stays the newest.
pub write-Appended :
    (disk : Disk) (render : ℕ → Entry → Option Bytes) (at : ℕ) (batch : List Entry) (w : Writer)
    → ((t : ℕ) → disk.removes t ≡ true)
    → ((t : ℕ) → disk.writes t ≡ none)
    → Active w.seq w.files
    → let w' = write disk render at batch w in
      Appended w.files (lines render at batch) w'.seq w'.files
unfolding write
write-Appended disk render at batch w removes writes a =
    write_entries-Holds disk removes writes w.files render at batch [] [] w
      (record { lost = []; kept = sym (append-nil (archive w.files)); active = a })
