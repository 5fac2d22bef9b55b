-- ===== src/LogSink.antt =====
-- The archive of a core's log (log_sink.rs of crates/chimera-core-manager): a rolling file per run in one
-- directory, cut over by size and kept by count. What the disk answers to a call is an answer of
-- `Disk`, by the number of answers before it; serde_json is the parameter `render`.
pub mod Prune
pub mod Archive
pub mod Budget
pub mod Run
pub mod Name
mod Examples
use chimera_service.Base.{
  ℕ, ◌+◌, ◌-◌, Bool, true, false, Option, none, some, List, [], ◌∷◌, ◌++◌, leb, ◌==◌, if◌then◌else◌,
  length, take, drop,
}
use chimera_service.Base.Text.{Bytes}
use chimera_service.Log.Frame.{LogFrame}

-- what the file system answers; a failed write has got some bytes out
pub record Disk : Type 0 where
  pub lists : ℕ → Bool
  pub removes : ℕ → Bool
  pub creates : ℕ → Bool
  pub writes : ℕ → Option ℕ

pub data Entry : Type 0 where
  log : LogFrame → Entry
  gap : (dropped : ℕ) → Entry

pub record LogFile : Type 0 where
  pub seq : ℕ
  pub content : Bytes

-- `SinkOptions` and `Writer`, with the directory that it writes to
pub record Writer : Type 0 where
  pub max_bytes : ℕ
  pub max_files : ℕ
  pub files : List LogFile
  pub written : ℕ
  pub seq : ℕ
  pub clock : ℕ

unfoldable pub read_seqs : List LogFile → List ℕ
read_seqs [] = []
read_seqs (f ∷ fs) = f.seq ∷ read_seqs fs

unfoldable pub insert_desc : ℕ → List ℕ → List ℕ
insert_desc x [] = x ∷ []
insert_desc x (y ∷ ys) = if leb y x then x ∷ y ∷ ys else y ∷ insert_desc x ys

-- `sort_unstable_by_key` on `Reverse`
unfoldable pub sort_desc : List ℕ → List ℕ
unfolding insert_desc
sort_desc [] = []
sort_desc (x ∷ xs) = insert_desc x (sort_desc xs)

unfoldable pub prune_targets : List ℕ → ℕ → List ℕ
unfolding sort_desc
prune_targets seqs max_files = drop max_files (sort_desc seqs)

unfoldable pub remove_file : ℕ → List LogFile → List LogFile
remove_file n [] = []
remove_file n (f ∷ fs) = if f.seq == n then remove_file n fs else f ∷ remove_file n fs

abbrev pub is_protected : ℕ → Option ℕ → Bool
is_protected n none = false
is_protected n (some p) = n == p

-- one call of `remove_file` for each target that is not protected
unfoldable pub remove_targets : Disk → Option ℕ → List ℕ → ℕ → List LogFile → ℕ × List LogFile
unfolding remove_file
remove_targets disk protect [] t files = (t, files)
remove_targets disk protect (n ∷ ns) t files =
    if is_protected n protect
    then remove_targets disk protect ns t files
    else remove_targets disk protect ns (t + 1)
        (if disk.removes t then remove_file n files else files)

unfoldable pub prune_dir :
    Disk → (keep : ℕ) → (protect : Option ℕ) → ℕ → List LogFile → ℕ × List LogFile
unfolding prune_targets remove_targets read_seqs
prune_dir disk keep protect t files =
    if disk.lists t
    then remove_targets disk protect (prune_targets (read_seqs files) keep) (t + 1) files
    else (t + 1, files)

unfoldable pub has_file : ℕ → List LogFile → Bool
has_file n [] = false
has_file n (f ∷ fs) = if f.seq == n then true else has_file n fs

-- `create`: an existing file is opened for appending
unfoldable pub create_file : ℕ → List LogFile → List LogFile
unfolding has_file
create_file n files = if has_file n files then files else record { seq = n; content = [] } ∷ files

-- a write to a file that has been unlinked is lost
unfoldable pub append_to : ℕ → Bytes → List LogFile → List LogFile
append_to n bytes [] = []
append_to n bytes (f ∷ fs) =
    (if f.seq == n then record f { content = f.content ++ bytes } else f) ∷ append_to n bytes fs

unfoldable pub max_seq : List ℕ → ℕ
max_seq [] = 0
max_seq (n ∷ ns) = if leb (max_seq ns) n then n else max_seq ns

unfoldable pub next_seq : List LogFile → ℕ
unfolding max_seq read_seqs
next_seq files = max_seq (read_seqs files) + 1

-- how a `write_all` ended
abbrev pub append_pending : Option ℕ → Bytes → Writer → Writer
append_pending none buffer w = record w {
  files = append_to w.seq buffer w.files;
  written = w.written + length buffer;
}
append_pending (some n) buffer w = record w { files = append_to w.seq (take n buffer) w.files }

abbrev pub push_record : Bytes → Option Bytes → Bytes
push_record buffer none = buffer
push_record buffer (some line) = buffer ++ (line ++ b'\n' ∷ [])

module _ (disk : Disk) where
  -- `Writer::open`; `none` where the directory cannot be listed or the file cannot be created
  unfoldable pub open_writer : (max_bytes max_files : ℕ) → List LogFile → (t : ℕ) → Option Writer
  unfolding next_seq prune_dir create_file
  open_writer max_bytes max_files files t =
      let pruned = prune_dir disk (max_files - 1) none (t + 1) files in
      if disk.lists t
      then (if disk.creates pruned.0
          then some (record {
            max_bytes = max_bytes;
            max_files = max_files;
            files = create_file (next_seq files) pruned.1;
            written = 0;
            seq = next_seq files;
            clock = pruned.0 + 1;
          })
          else none)
      else none

  -- the file is switched, then retention converges
  unfoldable pub switch_file : Writer → Writer
  unfolding prune_dir create_file
  switch_file w =
      let pruned =
        prune_dir disk w.max_files (some (w.seq + 1)) w.clock (create_file (w.seq + 1) w.files) in
      record w { files = pruned.1; written = 0; seq = w.seq + 1; clock = pruned.0 }

  unfoldable pub prune_before : Writer → Writer
  unfolding prune_dir
  prune_before w =
      let pruned = prune_dir disk (w.max_files - 1) (some w.seq) w.clock w.files in
      record w { files = pruned.1; clock = pruned.0 }

  unfoldable pub roll_over : Writer → Writer
  unfolding switch_file
  roll_over w =
      let after = record w { clock = w.clock + 1 } in
      if disk.creates w.clock then switch_file after else after

  unfoldable pub rotate : Writer → Writer
  unfolding prune_before roll_over
  rotate w = roll_over (prune_before w)

  unfoldable pub flush_pending : Bytes → Writer → Writer
  unfolding append_to
  flush_pending [] w = w
  flush_pending (b ∷ bs) w =
      append_pending (disk.writes w.clock) (b ∷ bs) (record w { clock = w.clock + 1 })

  -- the pending bytes and the writer, once a full file has been rolled over
  unfoldable pub make_room : Bytes → Writer → Bytes × Writer
  unfolding rotate flush_pending
  make_room buffer w =
      if leb w.max_bytes (w.written + length buffer)
      then ([], rotate (flush_pending buffer w))
      else (buffer, w)

  -- the records of a batch, on the bytes that are pending for the active file
  unfoldable pub write_entries :
      (ℕ → Entry → Option Bytes) → (at : ℕ) → List Entry → Bytes → Writer → Writer
  unfolding make_room flush_pending
  write_entries render at [] buffer w = flush_pending buffer w
  write_entries render at (e ∷ es) buffer w =
      let room = make_room buffer w in
      write_entries render at es (push_record room.0 (render at e)) room.1

  unfoldable pub write : (ℕ → Entry → Option Bytes) → (at : ℕ) → List Entry → Writer → Writer
  unfolding write_entries
  write render at batch w = write_entries render at batch [] w
