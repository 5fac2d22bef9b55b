-- ===== src/Supervisor/Storm.antt =====
-- The guard against restart storms (supervisor.rs): which abnormal exits the loop remembers.
use chimera_service.Base.{
  ℕ, ◌-◌, Bool, ltb, leb, ◌≤◌, ◌<◌, ◌≡◌, refl, ap, ◌∙◌, subst, ◌⊎◌, inl, inr, true, false, ◌||◌,
  Option, none, some, List, [], ◌∷◌, ◌++◌, arith, if◌then◌else◌, Bool-cases, Option-cases, length,
}
use mathlib.Core.List.{append-nil, append_assoc}
use chimera_service.Supervisor.{
  Config, is_clean, Phase, watching, Loop, Input, cancel, terminated, drop_old, step, spawn, run,
  is_finished, is_never,
}

-- the time of an exit that the guard counts: the child ended by itself, not cleanly, and the
-- policy allows a restart
recorded_in : Config → Loop → Phase → Input → Option ℕ
recorded_in c s (watching cancelled pending) (terminated code now entropy) =
    if cancelled || s.token_cancelled || is_clean code || is_never c.policy then none else some now
recorded_in c s _ _ = none

unfoldable pub recorded : Config → Loop → Input → Option ℕ
unfolding recorded_in
recorded c s input = recorded_in c s s.phase input

abbrev pub add_time : Option ℕ → List ℕ → List ℕ
add_time none times = times
add_time (some now) times = now ∷ times

-- the times of all exits that the guard counts, in order
unfoldable pub counted_exits : Config → Loop → List Input → List ℕ
counted_exits c s [] = []
counted_exits c s (input ∷ inputs) =
    add_time (recorded c s input) (counted_exits c (step c s input).0 inputs)

-- the times do not run backwards
abbrev pub NonDecreasing : ℕ → List ℕ → Type 0
NonDecreasing last [] = Unit
NonDecreasing last (now ∷ times) = (last ≤ now) × NonDecreasing now times

abbrev pub latest : ℕ → List ℕ → ℕ
latest last [] = last
latest last (now ∷ times) = latest now times

-- later pruning makes up for earlier pruning
drop_old-drop_old :
    (window now later : ℕ) (xs ys : List ℕ)
    → now ≤ later
    → drop_old later window (drop_old now window xs ++ ys) ≡ drop_old later window (xs ++ ys)
unfolding drop_old
drop_old-drop_old window now later [] ys h = refl
drop_old-drop_old window now later (x ∷ xs) ys h =
    ground (arith, drop_old-drop_old window now later xs ys h)

record Remembers (c : Config) (s : Loop) (past : List ℕ) (last : ℕ) : Type 0 where
  pruned : s.abnormal_exits ≡ drop_old last c.storm_policy.window past
  few : is_finished s.phase ≡ false → length s.abnormal_exits < c.storm_policy.max_failures

step_unrecorded :
    (c : Config) (s : Loop) (input : Input)
    → recorded c s input ≡ none
    → ((step c s input).0.abnormal_exits ≡ s.abnormal_exits)
      × (is_finished (step c s input).0.phase ≡ false → is_finished s.phase ≡ false)
unfolding step recorded
step_unrecorded c s cancel h = ground arith
step_unrecorded c s input h = ground arith

step-recorded :
    (c : Config) (s : Loop) (input : Input) (now : ℕ)
    → recorded c s input ≡ some now
    → ((step c s input).0.abnormal_exits
        ≡ drop_old now c.storm_policy.window (s.abnormal_exits ++ now ∷ []))
      × (is_finished (step c s input).0.phase ≡ false
          → length (step c s input).0.abnormal_exits < c.storm_policy.max_failures)
unfolding step recorded
step-recorded c s cancel now h = ground arith
step-recorded c s input now h = ground arith

Remembers-none :
    (c : Config) (s : Loop) (input : Input) (past : List ℕ) (last : ℕ)
    → recorded c s input ≡ none
    → Remembers c s past last
    → Remembers c (step c s input).0 past last
Remembers-none c s input past last e h =
    let (same, still) = step_unrecorded c s input e in
    record { pruned = same ∙ h.pruned; few = λ o. omega (arith, h.few (still o), ap length same) }

Remembers-some :
    (c : Config) (s : Loop) (input : Input) (past : List ℕ) (last now : ℕ)
    → recorded c s input ≡ some now
    → last ≤ now
    → Remembers c s past last
    → Remembers c (step c s input).0 (past ++ now ∷ []) now
Remembers-some c s input past last now e le h =
    let (exits, few) = step-recorded c s input now e in
    record {
      pruned =
          exits
          ∙ ap (λ xs. drop_old now c.storm_policy.window (xs ++ now ∷ [])) h.pruned
          ∙ drop_old-drop_old c.storm_policy.window last now past (now ∷ []) le;
      few = few;
    }

run-Remembers :
    (c : Config) (s : Loop) (inputs : List Input) (past : List ℕ) (last : ℕ)
    → NonDecreasing last (counted_exits c s inputs)
    → Remembers c s past last
    → Remembers c
        (run c s inputs).0
        (past ++ counted_exits c s inputs)
        (latest last (counted_exits c s inputs))
unfolding run counted_exits
run-Remembers c s [] past last n h = rw append-nil h
run-Remembers c s (input ∷ inputs) past last n h = elim (Option-cases (recorded c s input)) [
  | inl e ↦ rw e (
      run-Remembers c (step c s input).0 inputs past last (rw e at n)
        (Remembers-none c s input past last e h))
  | inr (now, e) ↦
      let n' = rw e at n in
      rw e (
        subst
          (λ xs.
            Remembers c (run c (step c s input).0 inputs).0 xs
              (latest now (counted_exits c (step c s input).0 inputs)))
          (append_assoc past (now ∷ []) (counted_exits c (step c s input).0 inputs))
          (run-Remembers c (step c s input).0 inputs (past ++ now ∷ []) now n'.1
            (Remembers-some c s input past last now e n'.0 h)))
]

-- the times that are not older than the window
unfoldable pub recent : (now window : ℕ) → List ℕ → List ℕ
recent now window [] = []
recent now window (at ∷ times) =
    let rest = recent now window times in if leb (now - at) window then at ∷ rest else rest

-- what follows a recent time is recent
recent-all :
    (now window last : ℕ) (times : List ℕ)
    → now - last ≤ window
    → NonDecreasing last times
    → recent now window times ≡ times
unfolding recent
recent-all now window last [] h n = refl
recent-all now window last (at ∷ times) h (le, n) =
    ground (arith, recent-all now window at times (omega arith) n)

drop_old-recent :
    (now window last : ℕ) (times : List ℕ)
    → NonDecreasing last times
    → drop_old now window times ≡ recent now window times
unfolding drop_old recent
drop_old-recent now window last [] n = refl
drop_old-recent now window last (at ∷ times) (le, n) = elim (Bool-cases (ltb window (now - at))) [
  | inl h ↦ ground (arith, h, drop_old-recent now window at times n)
  | inr h ↦ ground (arith, h, recent-all now window at times (ground (arith, h)) n)
]

-- If the clock does not run backwards, the loop remembers of all the abnormal exits since the start
-- exactly those that are not older than the window at the last of them, also across times at which the
-- child was ready; and while it has not ended, they are fewer than `max_failures`, so
-- that many abnormal exits within one window end it.
pub storm_guard :
    (c : Config) (pid : ℕ) (early : Bool) (inputs : List Input)
    → 0 < c.storm_policy.max_failures
    → NonDecreasing 0 (counted_exits c (spawn c pid early).0 inputs)
    → let exits = counted_exits c (spawn c pid early).0 inputs in
      let s = (run c (spawn c pid early).0 inputs).0 in
      let counted = recent (latest 0 exits) c.storm_policy.window exits in
      (s.abnormal_exits ≡ counted)
      × ((is_finished s.phase ≡ true) ⊎ (length counted < c.storm_policy.max_failures))
unfolding spawn
storm_guard c pid early inputs pos n =
    let h =
      run-Remembers c (spawn c pid early).0 inputs [] 0 n
        (record { pruned = unfold drop_old in refl; few = λ _. pos }) in
    let exits = counted_exits c (spawn c pid early).0 inputs in
    let pruned = h.pruned ∙ drop_old-recent (latest 0 exits) c.storm_policy.window 0 exits n in
    (
      pruned,
      elim (Bool-cases (is_finished (run c (spawn c pid early).0 inputs).0.phase)) [
        | inl e ↦ inl e
        | inr e ↦ inr (omega (arith, h.few e, ap length pruned))
      ],
    )
