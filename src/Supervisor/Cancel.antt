-- ===== src/Supervisor/Cancel.antt =====
-- Cancellation and the end of the supervision loop (supervisor.rs).
use chimera_service.Base.{
  ℕ, ◌<◌, ◌≡◌, refl, Bool, true, false, ◌||◌, Option, none, some, List, [], ◌∷◌, ◌++◌, arith, any,
}
use chimera_service.Supervisor.{
  Config, ExitCode, Event, started, ready, restarting, stopped, Phase, watching, backing_off,
  spawning, finished, Loop, Input, cancel, see_cancelled, terminated, spawned, acknowledge_ready,
  step, run, is_finished,
}

-- an event that says that the child runs, is ready or is about to be started again
abbrev pub is_active : Event → Bool
is_active (started _) = true
is_active ready = true
is_active (restarting _ _) = true
is_active _ = false

step_cancelled :
    (c : Config) (s : Loop) (input : Input)
    → s.token_cancelled ≡ true
    → (any is_active (step c s input).1 ≡ false) × ((step c s input).0.token_cancelled ≡ true)
unfolding step
step_cancelled c s cancel h = ground arith
step_cancelled c s input h = ground arith

any-append : (p : Event → Bool) (xs ys : List Event) → any p (xs ++ ys) ≡ (any p xs || any p ys)
any-append p [] ys = refl
any-append p (x ∷ xs) ys = ground (arith, any-append p xs ys)

-- Once its token is cancelled, the loop announces no start, no readiness and no restart, whatever the
-- child and the clients do. The loop begins behind the first spawn, which announces its child without a look
-- at the token.
pub run_cancelled :
    (c : Config) (s : Loop) (inputs : List Input)
    → s.token_cancelled ≡ true
    → any is_active (run c s inputs).1 ≡ false
unfolding run
run_cancelled c s [] h = refl
run_cancelled c s (input ∷ inputs) h =
    let (s', events) = step c s input in
    let (quiet, still) = step_cancelled c s input h in
    rw (any-append is_active events (run c s' inputs).1, quiet) (run_cancelled c s' inputs still)

step_finished :
    (c : Config) (s : Loop) (input : Input)
    → s.phase ≡ finished
    → ((step c s input).1 ≡ []) × ((step c s input).0.phase ≡ finished)
unfolding step
step_finished c s cancel h = ground arith
step_finished c s input h = ground arith

-- The loop does not start again: once it has ended it emits nothing and stays ended.
pub run_finished :
    (c : Config) (s : Loop) (inputs : List Input)
    → s.phase ≡ finished
    → ((run c s inputs).1 ≡ []) × ((run c s inputs).0.phase ≡ finished)
unfolding run
run_finished c s [] h = (refl, h)
run_finished c s (input ∷ inputs) h =
    let (s', events) = step c s input in
    let (quiet, ended) = step_finished c s input h in
    let ih = run_finished c s' inputs ended in (rw quiet ih.0, ih.1)

-- what the loop still waits for when its token is cancelled: the token's arm, the end of the child
-- that runs, and the outcome of a spawn that is under way
abbrev pub closing_inputs : Phase → (outcome : Option ℕ) → ExitCode → (now entropy : ℕ) → List Input
closing_inputs (watching _ _) outcome code now entropy =
    see_cancelled ∷ terminated code now entropy ∷ []
closing_inputs backing_off outcome code now entropy = see_cancelled ∷ []
closing_inputs spawning (some pid) code now entropy =
    spawned (some pid) entropy ∷ see_cancelled ∷ terminated code now entropy ∷ []
closing_inputs spawning none code now entropy = spawned none entropy ∷ []
closing_inputs finished outcome code now entropy = []

abbrev pub last_event : List Event → Option Event
last_event [] = none
last_event (e ∷ []) = some e
last_event (e ∷ events) = last_event events

-- A cancelled loop that has not ended ends, with the event `Stopped` last, as soon as what it
-- waits for has come in: the token's arm, the outcome of a spawn that is under way, whichever it
-- is, and the end of a child that runs, with whatever exit code, clean or not, and at whatever time.
pub cancelled_loop_stops :
    (c : Config) (s : Loop) (outcome : Option ℕ) (code : ExitCode) (now entropy : ℕ)
    → s.token_cancelled ≡ true
    → is_finished s.phase ≡ false
    → let (s', events) = run c s (closing_inputs s.phase outcome code now entropy) in
      (s'.phase ≡ finished) × (last_event events ≡ some stopped)
unfolding run step
cancelled_loop_stops c s outcome code now entropy h open_still = ground arith

-- A client's acknowledgement is queued only if it names the child that is watched, which is alive
-- and has not been acknowledged yet, and then once: a second one is refused.
pub acknowledge_once :
    (s : Loop) (pid : ℕ) (alive : Bool)
    → 0 < pid
    → (acknowledge_ready s pid alive).1 ≡ true
    → (s.current ≡ some pid)
      × (alive ≡ true)
      × (s.ready_pending ≡ pid)
      × ((acknowledge_ready s pid alive).0.ready_queue ≡ s.ready_queue ++ pid ∷ [])
      × ((acknowledge_ready (acknowledge_ready s pid alive).0 pid alive).1 ≡ false)
unfolding acknowledge_ready
acknowledge_once s pid alive p h = ground arith
