-- ===== src/LogSink/Examples.antt =====
-- Runs of the archive, and its properties at concrete inputs.
use chimera_service.Base.{
  ℕ, ◌+◌, ◌≤◌, ◌≡◌, refl, true, false, Option, none, some, List, [], ◌∷◌, arith, length,
}
use chimera_service.Base.Text.{Bytes, codes}
use chimera_service.LogSink.{Disk, Entry, gap, LogFile, Writer, write, open_writer}
use chimera_service.LogSink.Archive.{lines, Appended, write-Appended}
use chimera_service.LogSink.Budget.{IsHealthy, Budgeted, write-IsWithin}
use chimera_service.LogSink.Run.{run_after_cancel, IsFlushed, run_after_cancel-IsFlushed}
use chimera_service.LogSink.Name.{file_name, file_seq, file_seq-file_name}

abbrev disk : Disk
disk = record { lists = λ t. true; removes = λ t. true; creates = λ t. true; writes = λ t. none }

-- a gap is one letter, a frame is not rendered
abbrev render : ℕ → Entry → Option Bytes
render at (gap n) = some ((b'a' + n) ∷ [])
render at _ = none

abbrev batch : List Entry
batch = gap 0 ∷ gap 1 ∷ gap 2 ∷ gap 3 ∷ []

-- three bytes to a file and two files, the newest one full
abbrev writer : Writer
writer = record {
  max_bytes = 3;
  max_files = 2;
  files =
      record { seq = 5; content = b'x' ∷ b'\n' ∷ b'y' ∷ [] }
      ∷ record { seq = 2; content = b'z' ∷ [] }
      ∷ [];
  written = 3;
  seq = 5;
  clock = 0;
}

healthy : IsHealthy disk
healthy = record { lists = λ t. refl; removes = λ t. refl; creates = λ t. refl; writes = λ t. refl }

write-Appended_example :
    let w = write disk render 0 batch writer in
    Appended writer.files (lines render 0 batch) w.seq w.files
write-Appended_example =
    write-Appended disk render 0 batch writer (λ t. refl) (λ t. refl) (refl, (omega arith, tt))

rendered_short : (at : ℕ) (e : Entry) (text : Bytes) → render at e ≡ some text → length text + 1 ≤ 2
rendered_short at (gap n) text p = ground (arith, p)
rendered_short at (Entry.log f) text p = cc

-- an old file is larger than the limit
abbrev found : List LogFile
found = record { seq = 2; content = codes "much too large" } ∷ []

write-IsWithin_example : Budgeted disk render found 0 3 2 2 ((0, batch) ∷ (1, batch) ∷ [])
write-IsWithin_example =
    write-IsWithin disk render 3 0 3 2 2 found ((0, batch) ∷ (1, batch) ∷ []) healthy rendered_short
      (omega arith, tt)

run_after_cancel-IsFlushed_example : IsFlushed batch (run_after_cancel 5 (λ t. false) batch false)
run_after_cancel-IsFlushed_example =
    run_after_cancel-IsFlushed 5 (λ t. false) batch false (omega arith)

file_seq-file_name_example : file_seq (file_name 1234567) ≡ some 1234567
file_seq-file_name_example = file_seq-file_name 1234567 (omega arith)

two_files_left :
    (write disk render 0 batch writer).files
    ≡ record { seq = 7; content = b'c' ∷ b'\n' ∷ b'd' ∷ b'\n' ∷ [] }
      ∷ record { seq = 6; content = b'a' ∷ b'\n' ∷ b'b' ∷ b'\n' ∷ [] }
      ∷ []
unfolding write
two_files_left = refl

-- a run starts a new file behind the greatest number there
opened : ((w : Writer) × (open_writer disk 3 2 writer.files 0 ≡ some w) × (w.seq ≡ 6))
unfolding open_writer
opened = (
  record {
    max_bytes = 3;
    max_files = 2;
    files =
        record { seq = 6; content = [] }
        ∷ record { seq = 5; content = b'x' ∷ b'\n' ∷ b'y' ∷ [] }
        ∷ [];
    written = 0;
    seq = 6;
    clock = 4;
  },
  refl,
  refl,
)

padded_name : file_name 7 ≡ codes "core-000007.jsonl"
unfolding file_name
padded_name = refl
