-- ===== src/LogSink/Budget.antt =====
-- The budgets of the archive (log_sink.rs): the size of a file and the number of files.
use chimera_service.Base.{
  ℕ, zero, suc, ◌+◌, ◌-◌, ◌≤◌, ◌<◌, ◌⊎◌, max, ◌≡◌, refl, ◌∙◌, inl, inr, true, Option, none, some,
  List, [], ◌∷◌, ◌++◌, arith, leb, Bool-cases, Option-cases, length, take, length-take,
  length-append,
}
use chimera_service.Base.Text.{Bytes}
use chimera_service.LogSink.{
  Disk, Entry, LogFile, Writer, prune_before, switch_file, roll_over, rotate, flush_pending,
  make_room, push_record, write_entries, write, open_writer, next_seq, max_seq, read_seqs,
  create_file, prune_dir,
}
use chimera_service.LogSink.Prune.{Below, Below-weaken, prune_dir-take}
use chimera_service.LogSink.Archive.{
  Active, append_top, append_to_lem, spare, prune_dir_lem, created_lem, Active-Below, take-Below,
  has_file-absent,
}

-- every file from number `first` on has at most `limit` bytes
abbrev pub Sizes : (first limit : ℕ) → List LogFile → Type 0
Sizes first limit [] = Unit
Sizes first limit (f ∷ fs) = ((f.seq < first) ⊎ (length f.content ≤ limit)) × Sizes first limit fs

abbrev pub top_size : List LogFile → ℕ
top_size [] = 0
top_size (f ∷ fs) = length f.content

-- every call succeeds
pub record IsHealthy (disk : Disk) : Type 0 where
  pub lists : (t : ℕ) → disk.lists t ≡ true
  pub removes : (t : ℕ) → disk.removes t ≡ true
  pub creates : (t : ℕ) → disk.creates t ≡ true
  pub writes : (t : ℕ) → disk.writes t ≡ none

-- No file from number `first` on is more than one record of `line` bytes past the limit, `pending` bytes fit the newest,
-- and no more files than allowed are kept.
pub record IsWithin (first max_bytes max_files line pending : ℕ) (w : Writer) : Type 0 where
  pub bytes_option : w.max_bytes ≡ max_bytes
  pub files_option : w.max_files ≡ max_files
  pub active : Active w.seq w.files
  pub count : length w.files ≤ max 1 max_files
  pub sizes : Sizes first (max_bytes - 1 + line) w.files
  pub top : top_size w.files ≡ w.written
  pub fits : w.written + pending ≤ max_bytes - 1 + line

take-Sizes :
    (first limit k : ℕ) (fs : List LogFile) → Sizes first limit fs → Sizes first limit (take k fs)
take-Sizes first limit zero fs s = tt
take-Sizes first limit (suc k) [] s = tt
take-Sizes first limit (suc k) (f ∷ fs) s = (s.0, take-Sizes first limit k fs s.1)

spare-Sizes :
    (first limit k : ℕ) (fs : List LogFile)
    → Sizes first limit fs
    → Sizes first limit (spare k true fs)
unfolding spare
spare-Sizes first limit k [] s = tt
spare-Sizes first limit k (f ∷ fs) s = (s.0, take-Sizes first limit k fs s.1)

length-spare :
    (k : ℕ) (fs : List LogFile)
    → (length (spare k true fs) ≤ k + 1) × (length (spare k true fs) ≤ length fs)
unfolding spare
length-spare k [] = omega arith
length-spare k (f ∷ fs) = omega (arith, length-take k fs)

spare_top :
    (n k : ℕ) (fs : List LogFile)
    → Active n fs
    → Active n (spare k true fs) × (top_size (spare k true fs) ≡ top_size fs)
unfolding spare
spare_top n k [] a = absurd a
spare_top n k (f ∷ fs) a = ((a.0, take-Below f.seq k fs a.1), refl)

append_top_lem :
    (first limit n : ℕ) (more : Bytes) (fs : List LogFile)
    → Active n fs
    → Sizes first limit fs
    → top_size fs + length more ≤ limit
    → let fs' = append_top more fs in
      Active n fs'
      × Sizes first limit fs'
      × (length fs' ≡ length fs)
      × (top_size fs' ≡ top_size fs + length more)
unfolding append_top
append_top_lem first limit n more [] a s h = absurd a
append_top_lem first limit n more (f ∷ fs) a s h = (
  a,
  (inr (omega (arith, h, length-append f.content more)), s.1),
  refl,
  length-append f.content more,
)

module _ (disk : Disk) (ok : IsHealthy disk) (first max_bytes max_files line : ℕ) where
  abbrev Within : ℕ → Writer → Type 0
  Within pending w = IsWithin first max_bytes max_files line pending w

  pending-IsWithin :
      (m n : ℕ) (w : Writer) → Within m w → w.written + n ≤ max_bytes - 1 + line → Within n w
  pending-IsWithin m n w p h = record {
    bytes_option = p.bytes_option;
    files_option = p.files_option;
    active = p.active;
    count = p.count;
    sizes = p.sizes;
    top = p.top;
    fits = h;
  }

  later-IsWithin : (t : ℕ) (w : Writer) → Within 0 w → Within 0 (record w { clock = t })
  later-IsWithin t w p = record {
    bytes_option = p.bytes_option;
    files_option = p.files_option;
    active = p.active;
    count = p.count;
    sizes = p.sizes;
    top = p.top;
    fits = p.fits;
  }

  flush_pending-Within :
      (buffer : Bytes) (w : Writer)
      → Within (length buffer) w
      → Within 0 (flush_pending disk buffer w)
  unfolding flush_pending
  flush_pending-Within [] w p = p
  flush_pending-Within (b ∷ bs) w p =
      let (a, s, n, t) =
        append_top_lem first (max_bytes - 1 + line) w.seq (b ∷ bs) w.files p.active p.sizes
          (omega (arith, p.top, p.fits)) in
      let e = append_to_lem w.seq (b ∷ bs) w.files p.active in
      rw (ok.writes w.clock, e)
        (record {
          bytes_option = p.bytes_option;
          files_option = p.files_option;
          active = a;
          count = omega (arith, n, p.count);
          sizes = s;
          top = omega (arith, t, p.top);
          fits = omega (arith, p.fits);
        })

  prune_before-Within : (w : Writer) → Within 0 w → Within 0 (prune_before disk w)
  unfolding prune_before
  prune_before-Within w p =
      let k = w.max_files - 1 - 1 in
      let (a, t) = spare_top w.seq k w.files p.active in
      rw
        (
          prune_dir_lem disk ok.removes (w.max_files - 1) w.seq w.clock w.files p.active,
          ok.lists w.clock,
        )
        (record {
          bytes_option = p.bytes_option;
          files_option = p.files_option;
          active = a;
          count = omega (arith, length-spare k w.files, p.count);
          sizes = spare-Sizes first (max_bytes - 1 + line) k w.files p.sizes;
          top = t ∙ p.top;
          fits = p.fits;
        })

  switch_file-Within : (w : Writer) → Within 0 w → Within 0 (switch_file disk w)
  unfolding switch_file
  switch_file-Within w p =
      let k = w.max_files - 1 in
      let fs : List LogFile = record { seq = w.seq + 1; content = [] } ∷ w.files in
      let here : Active (w.seq + 1) fs =
        (refl, Active-Below w.seq (w.seq + 1) w.files (omega arith) p.active) in
      let (a, t) = spare_top (w.seq + 1) k fs here in
      rw
        (
          created_lem w.seq w.files p.active,
          prune_dir_lem disk ok.removes w.max_files (w.seq + 1) w.clock fs here,
          ok.lists w.clock,
        )
        (record {
          bytes_option = p.bytes_option;
          files_option = p.files_option;
          active = a;
          count = omega (arith, length-spare k fs, p.files_option);
          sizes = spare-Sizes first (max_bytes - 1 + line) k fs (inr (omega arith), p.sizes);
          top = t;
          fits = omega arith;
        })

  rotate-Within : (w : Writer) → Within 0 w → Within 0 (rotate disk w)
  unfolding rotate roll_over
  rotate-Within w p =
      let after = record (prune_before disk w) { clock = (prune_before disk w).clock + 1 } in
      rw (ok.creates (prune_before disk w).clock) (
        switch_file-Within after
          (later-IsWithin after.clock (prune_before disk w) (prune_before-Within w p)))

  rotate-written : (w : Writer) → (rotate disk w).written ≡ 0
  unfolding rotate roll_over switch_file
  rotate-written w = rw (ok.creates (prune_before disk w).clock) refl

  make_room-Within :
      (buffer : Bytes) (w : Writer)
      → Within (length buffer) w
      → let room = make_room disk buffer w in
        Within (length room.0) room.1 × (room.1.written + length room.0 ≤ max_bytes - 1)
  unfolding make_room
  make_room-Within buffer w p = elim (Bool-cases (leb w.max_bytes (w.written + length buffer))) [
    | inl full ↦ rw full (
        let q = rotate-Within (flush_pending disk buffer w) (flush_pending-Within buffer w p) in
        (q, omega (arith, rotate-written (flush_pending disk buffer w))))
    | inr space ↦ rw space (p, ground (arith, space, p.bytes_option))
  ]

  module _ (render : ℕ → Entry → Option Bytes) (at : ℕ)
      (short : (e : Entry) (text : Bytes) → render at e ≡ some text → length text + 1 ≤ line) where
    length-push_record :
        (buffer : Bytes) (e : Entry)
        → length (push_record buffer (render at e)) ≤ length buffer + line
    length-push_record buffer e = elim (Option-cases (render at e)) [
      | inl n ↦ rw n (omega arith)
      | inr (text, q) ↦ rw q (
          omega (
            arith,
            short e text q,
            length-append buffer (text ++ b'\n' ∷ []),
            length-append text (b'\n' ∷ []),
          ))
    ]

    write_entries-Within :
        (es : List Entry) (buffer : Bytes) (w : Writer)
        → Within (length buffer) w
        → Within 0 (write_entries disk render at es buffer w)
    unfolding write_entries
    write_entries-Within [] buffer w p = flush_pending-Within buffer w p
    write_entries-Within (e ∷ es) buffer w p =
        let room = make_room disk buffer w in
        let (q, h) = make_room-Within buffer w p in
        let next = push_record room.0 (render at e) in
        write_entries-Within es next room.1 (
          pending-IsWithin (length room.0) (length next) room.1 q
            (omega (arith, h, length-push_record room.0 e)))

-- the batches of a writer, each with its time
unfoldable pub write_all :
    Disk → (ℕ → Entry → Option Bytes) → List (ℕ × List Entry) → Writer → Writer
unfolding write
write_all disk render [] w = w
write_all disk render ((at, batch) ∷ batches) w =
    write_all disk render batches (write disk render at batch w)

write_all-IsWithin :
    (disk : Disk) (render : ℕ → Entry → Option Bytes) (first max_bytes max_files line : ℕ)
    (batches : List (ℕ × List Entry)) (w : Writer)
    → IsHealthy disk
    → ((at : ℕ) (e : Entry) (text : Bytes) → render at e ≡ some text → length text + 1 ≤ line)
    → IsWithin first max_bytes max_files line 0 w
    → IsWithin first max_bytes max_files line 0 (write_all disk render batches w)
unfolding write_all write
write_all-IsWithin disk render first max_bytes max_files line [] w ok short p = p
write_all-IsWithin disk render first max_bytes max_files line ((at, batch) ∷ batches) w ok short p =
    write_all-IsWithin disk render first max_bytes max_files line batches
      (write disk render at batch w) ok short
      (write_entries-Within disk ok first max_bytes max_files line render at (short at) batch [] w
        p)

-- the numbers of a directory that is newest first are below the next one
max_seq-bound :
    (n m : ℕ) (files : List LogFile)
    → Below n files
    → (max_seq (read_seqs files) ≡ 0) ⊎ (max_seq (read_seqs files) < n)
unfolding max_seq read_seqs
max_seq-bound n m [] b = inl refl
max_seq-bound n m (f ∷ fs) b = ground (arith, b.0, max_seq-bound f.seq m fs b.1)

next_seq-Below : (n : ℕ) (files : List LogFile) → Below n files → Below (next_seq files) files
unfolding next_seq max_seq read_seqs
next_seq-Below n [] b = tt
next_seq-Below n (f ∷ fs) b = (ground (arith, max_seq-bound f.seq 0 fs b.1), b.1)

old-Sizes : (first limit : ℕ) (fs : List LogFile) → Below first fs → Sizes first limit fs
old-Sizes first limit [] b = tt
old-Sizes first limit (f ∷ fs) b =
    (inl b.0, old-Sizes first limit fs (Below-weaken f.seq first fs (omega (arith, b.0)) b.1))

-- A writer that is opened in a directory, and what it is after some batches.
pub record Budgeted (disk : Disk) (render : ℕ → Entry → Option Bytes) (files : List LogFile)
    (t max_bytes max_files line : ℕ) (batches : List (ℕ × List Entry)) : Type 0 where
  pub opened : Writer
  pub opens : open_writer disk max_bytes max_files files t ≡ some opened
  pub within :
      IsWithin (next_seq files) max_bytes max_files line 0 (write_all disk render batches opened)

open_writer-IsWithin :
    (disk : Disk) (n t max_bytes max_files line : ℕ) (files : List LogFile)
    → IsHealthy disk
    → Below n files
    → (w : Writer) × (open_writer disk max_bytes max_files files t ≡ some w)
      × IsWithin (next_seq files) max_bytes max_files line 0 w
unfolding open_writer create_file
open_writer-IsWithin disk n t max_bytes max_files line files ok b =
    let first = next_seq files in
    let kept = take (max_files - 1) files in
    let below : Below first kept =
      take-Below first (max_files - 1) files (next_seq-Below n files b) in
    let pruned = prune_dir disk (max_files - 1) none (t + 1) files in
    let fs : List LogFile = record { seq = first; content = [] } ∷ kept in
    let left : pruned.1 ≡ kept =
      prune_dir-take disk ok.removes (max_files - 1) n (t + 1) files b
      ∙ rw (ok.lists (t + 1)) refl in
    let w : Writer = record {
      max_bytes = max_bytes;
      max_files = max_files;
      files = fs;
      written = 0;
      seq = first;
      clock = pruned.0 + 1;
    } in
    (
      w,
      rw
          (
            open_writer,
            ok.lists t,
            ok.creates pruned.0,
            left,
            create_file,
            has_file-absent first kept below,
          )
          refl,
      record {
        bytes_option = refl;
        files_option = refl;
        active = (refl, below);
        count = omega (arith, length-take (max_files - 1) files);
        sizes = (inr (omega arith), old-Sizes first (max_bytes - 1 + line) kept below);
        top = refl;
        fits = omega arith;
      },
    )

-- A writer is opened on a healthy disk, in any directory whose files are given newest first, and takes any
-- batches; no record takes more than `line` bytes with its line feed. Then it opens, and after the
-- batches no file that it has written is more than one record past the limit, however large the
-- batches, and no more files are kept than allowed, or one where none is allowed. Files that were there before may be of any size.
pub write-IsWithin :
    (disk : Disk) (render : ℕ → Entry → Option Bytes) (n t max_bytes max_files line : ℕ)
    (files : List LogFile) (batches : List (ℕ × List Entry))
    → IsHealthy disk
    → ((at : ℕ) (e : Entry) (text : Bytes) → render at e ≡ some text → length text + 1 ≤ line)
    → Below n files
    → Budgeted disk render files t max_bytes max_files line batches
write-IsWithin disk render n t max_bytes max_files line files batches ok short b =
    let (w, opens, p) = open_writer-IsWithin disk n t max_bytes max_files line files ok b in
    record {
      opened = w;
      opens = opens;
      within =
          write_all-IsWithin disk render (next_seq files) max_bytes max_files line batches w ok
            short p;
    }
