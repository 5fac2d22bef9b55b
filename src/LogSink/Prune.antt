-- ===== src/LogSink/Prune.antt =====
-- What a prune leaves of a directory whose files are newest first (log_sink.rs).
use chimera_service.Base.{
  ℕ, zero, suc, ◌+◌, ◌-◌, ◌≤◌, ◌<◌, ◌≡◌, refl, ap, ◌∙◌, inl, inr, true, false, Option, none, some,
  List, [], ◌∷◌, arith, if◌then◌else◌, Bool-cases, take, drop, ==_refl,
}
use chimera_service.LogSink.{
  Disk, LogFile, read_seqs, insert_desc, sort_desc, prune_targets, remove_file, remove_targets,
  prune_dir, is_protected,
}

-- the files are newest first, and all older than `n`
abbrev pub Below : ℕ → List LogFile → Type 0
Below n [] = Unit
Below n (f ∷ fs) = (f.seq < n) × Below f.seq fs

-- the numbers are all below `n`
abbrev pub AllBelow : ℕ → List ℕ → Type 0
AllBelow n [] = Unit
AllBelow n (m ∷ ms) = (m < n) × AllBelow n ms

pub Below-weaken : (m n : ℕ) (fs : List LogFile) → m ≤ n → Below m fs → Below n fs
Below-weaken m n [] h b = tt
Below-weaken m n (f ∷ fs) h b = (omega (arith, b.0), b.1)

read_seqs-AllBelow : (n : ℕ) (fs : List LogFile) → Below n fs → AllBelow n (read_seqs fs)
unfolding read_seqs
read_seqs-AllBelow n [] b = tt
read_seqs-AllBelow n (f ∷ fs) b =
    (b.0, read_seqs-AllBelow n fs (Below-weaken f.seq n fs (omega (arith, b.0)) b.1))

drop-AllBelow : (n k : ℕ) (ms : List ℕ) → AllBelow n ms → AllBelow n (drop k ms)
drop-AllBelow n zero ms b = b
drop-AllBelow n (suc k) [] b = b
drop-AllBelow n (suc k) (m ∷ ms) b = drop-AllBelow n k ms b.1

insert_desc_top : (n : ℕ) (ms : List ℕ) → AllBelow n ms → insert_desc n ms ≡ n ∷ ms
unfolding insert_desc
insert_desc_top n [] b = refl
insert_desc_top n (m ∷ ms) b = ground (arith, b)

-- A directory that is newest first is sorted already.
sort_desc-read_seqs :
    (n : ℕ) (fs : List LogFile) → Below n fs → sort_desc (read_seqs fs) ≡ read_seqs fs
unfolding sort_desc read_seqs
sort_desc-read_seqs n [] b = refl
sort_desc-read_seqs n (f ∷ fs) b =
    ap (insert_desc f.seq) (sort_desc-read_seqs f.seq fs b.1)
    ∙ insert_desc_top f.seq (read_seqs fs) (read_seqs-AllBelow f.seq fs b.1)

remove_file-absent : (n : ℕ) (fs : List LogFile) → Below n fs → remove_file n fs ≡ fs
unfolding remove_file
remove_file-absent n [] b = refl
remove_file-absent n (f ∷ fs) b =
    ground (arith, b.0, remove_file-absent n fs (Below-weaken f.seq n fs (omega (arith, b.0)) b.1))

-- no file is protected, or only one that is newer than all
abbrev Clear : Option ℕ → List LogFile → Type 0
Clear none fs = Unit
Clear (some p) fs = Below p fs

Clear-tail :
    (protect : Option ℕ) (f : LogFile) (fs : List LogFile)
    → Clear protect (f ∷ fs)
    → Clear protect fs
Clear-tail none f fs c = tt
Clear-tail (some p) f fs c = Below-weaken f.seq p fs (omega (arith, c.0)) c.1

unprotected :
    (protect : Option ℕ) (f : LogFile) (fs : List LogFile)
    → Clear protect (f ∷ fs)
    → is_protected f.seq protect ≡ false
unprotected none f fs c = refl
unprotected (some p) f fs c = ground (arith, c.0)

module _ (disk : Disk) (removes : (t : ℕ) → disk.removes t ≡ true) where
  -- A newer file stays, whether the older are removed or not.
  remove_targets-cons :
      (protect : Option ℕ) (f : LogFile) (ns : List ℕ) (t : ℕ) (fs : List LogFile)
      → AllBelow f.seq ns
      → (remove_targets disk protect ns t (f ∷ fs)).1 ≡ f ∷ (remove_targets disk protect ns t fs).1
  unfolding remove_targets remove_file
  remove_targets-cons protect f [] t fs b = refl
  remove_targets-cons protect f (n ∷ ns) t fs b = elim (Bool-cases (is_protected n protect)) [
    | inl e ↦ rw e (remove_targets-cons protect f ns t fs b.1)
    | inr e ↦
        rw (e, removes t) ground
          (arith, b, remove_targets-cons protect f ns (t + 1) (remove_file n fs) b.1)
  ]

  -- Where nothing is protected, the newest `keep` files are left.
  remove_targets-take :
      (protect : Option ℕ) (keep n : ℕ) (t : ℕ) (fs : List LogFile)
      → Below n fs
      → Clear protect fs
      → (remove_targets disk protect (drop keep (read_seqs fs)) t fs).1 ≡ take keep fs
  unfolding remove_targets remove_file read_seqs
  remove_targets-take protect zero n t [] b c = refl
  remove_targets-take protect (suc keep) n t [] b c = refl
  remove_targets-take protect zero n t (f ∷ fs) b c =
      rw (unprotected protect f fs c, removes t, ==_refl f.seq, remove_file-absent f.seq fs b.1)
        (remove_targets-take protect zero f.seq (t + 1) fs b.1 (Clear-tail protect f fs c))
  remove_targets-take protect (suc keep) n t (f ∷ fs) b c =
      remove_targets-cons protect f (drop keep (read_seqs fs)) t fs
        (drop-AllBelow f.seq keep (read_seqs fs) (read_seqs-AllBelow f.seq fs b.1))
      ∙ ap (λ rest. f ∷ rest)
          (remove_targets-take protect keep f.seq t fs b.1 (Clear-tail protect f fs c))

  -- The newest file stays where it is protected.
  remove_targets-protected :
      (keep : ℕ) (t : ℕ) (f : LogFile) (fs : List LogFile)
      → Below f.seq fs
      → (remove_targets disk (some f.seq) (drop keep (read_seqs (f ∷ fs))) t (f ∷ fs)).1
        ≡ f ∷ take (keep - 1) fs
  unfolding remove_targets read_seqs
  remove_targets-protected zero t f fs b = rw (==_refl f.seq) (
      remove_targets-cons (some f.seq) f (read_seqs fs) t fs (read_seqs-AllBelow f.seq fs b)
      ∙ ap (λ rest. f ∷ rest) (remove_targets-take (some f.seq) 0 f.seq t fs b b))
  remove_targets-protected (suc keep) t f fs b =
      remove_targets-cons (some f.seq) f (drop keep (read_seqs fs)) t fs
        (drop-AllBelow f.seq keep (read_seqs fs) (read_seqs-AllBelow f.seq fs b))
      ∙ ap (λ rest. f ∷ rest)
          (remove_targets-take (some f.seq) keep f.seq t fs b b ∙ ap (λ k. take k fs) (omega arith))

  -- A prune leaves the newest files, the protected one among them; one that cannot list the
  -- directory leaves all.
  pub prune_dir-protected :
      (keep : ℕ) (t : ℕ) (f : LogFile) (fs : List LogFile)
      → Below f.seq fs
      → (prune_dir disk keep (some f.seq) t (f ∷ fs)).1
        ≡ f ∷ (if disk.lists t then take (keep - 1) fs else fs)
  unfolding prune_dir prune_targets
  prune_dir-protected keep t f fs b = elim (Bool-cases (disk.lists t)) [
    | inl e ↦
        rw (e, sort_desc-read_seqs (f.seq + 1) (f ∷ fs) (omega arith, b))
          (remove_targets-protected keep (t + 1) f fs b)
    | inr e ↦ rw e
  ]

  pub prune_dir-take :
      (keep n : ℕ) (t : ℕ) (fs : List LogFile)
      → Below n fs
      → (prune_dir disk keep none t fs).1 ≡ (if disk.lists t then take keep fs else fs)
  unfolding prune_dir prune_targets
  prune_dir-take keep n t fs b = elim (Bool-cases (disk.lists t)) [
    | inl e ↦ rw (e, sort_desc-read_seqs n fs b) (remove_targets-take none keep n (t + 1) fs b tt)
    | inr e ↦ rw e
  ]
