-- ===== src/Supervisor/Examples.antt =====
-- Runs of the supervision loop, and its properties at concrete inputs.
use chimera_service.Base.{
  ℕ, ◌*◌, ◌^◌, ◌≤◌, ◌<◌, ◌≡◌, refl, ◌⊎◌, Bool, true, false, none, some, List, [], ◌∷◌, ◌++◌, arith,
  length, any,
}
use chimera_service.Supervisor.Delay.{Backoff, delay_for}
use chimera_service.Supervisor.{
  on_failure, acknowledged, Config, clean, abnormal, started, exited, restarting, gave_up, stopped,
  finished, Loop, prepared, Input, cancel, terminated, backoff_over, spawned, acknowledge_ready,
  step, spawn, run, is_finished,
}
use chimera_service.Supervisor.Delay.{
  jittered, base_delay, growth, delay_for_schedule, delay_for_doubles, jittered_range,
}
use chimera_service.Supervisor.Budget.{restarts_since_ready, restart_budget}
use chimera_service.Supervisor.Cancel.{
  is_active, run_cancelled, run_finished, closing_inputs, last_event, cancelled_loop_stops,
  acknowledge_once,
}
use chimera_service.Supervisor.Storm.{counted_exits, latest, recent, storm_guard, recorded}

abbrev one_second : ℕ
one_second = 1_000_000_000

abbrev default_backoff : Backoff
default_backoff = record { initial = one_second; max_delay = 30 * one_second; jitter = true }

abbrev plain_backoff : Backoff
plain_backoff = record default_backoff { jitter = false }

abbrev two_restarts : Config
two_restarts = record {
  policy = on_failure 2;
  backoff = plain_backoff;
  readiness = acknowledged;
  storm_policy = record { max_failures = 5; window = 300 * one_second };
}

-- a crash, and the restart under a new pid
abbrev crash_and_restart : (now pid : ℕ) → List Input
crash_and_restart now pid =
    terminated abnormal now 0 ∷ backoff_over prepared false ∷ spawned (some pid) 0 ∷ []

abbrev three_crashes : List Input
three_crashes = crash_and_restart 1 11 ++ crash_and_restart 2 12 ++ crash_and_restart 3 13

three_crashes_give_up :
    (run two_restarts (spawn two_restarts 10 false).0 three_crashes).1
    ≡ exited abnormal
      ∷ restarting 1 one_second
      ∷ started 11
      ∷ exited abnormal
      ∷ restarting 2 (2 * one_second)
      ∷ started 12
      ∷ exited abnormal
      ∷ gave_up
      ∷ []
unfolding run step spawn delay_for base_delay growth
three_crashes_give_up = refl

restart_budget_example :
    let (s, events) = run two_restarts (spawn two_restarts 10 false).0 three_crashes in
    (restarts_since_ready 0 events ≤ 2)
    × ((is_finished s.phase ≡ true) ⊎ (s.attempt ≡ restarts_since_ready 0 events))
restart_budget_example = restart_budget two_restarts 10 false three_crashes (omega arith)

abbrev cancelled_at_start : Loop
cancelled_at_start = (step two_restarts (spawn two_restarts 10 false).0 cancel).0

run_cancelled_example : any is_active (run two_restarts cancelled_at_start three_crashes).1 ≡ false
unfolding step spawn
run_cancelled_example = run_cancelled two_restarts cancelled_at_start three_crashes refl

cancelled_loop_stops_example :
    let (s', events) =
      run two_restarts cancelled_at_start
        (closing_inputs cancelled_at_start.phase none clean 7 0) in
    (s'.phase ≡ finished) × (last_event events ≡ some stopped)
unfolding step spawn
cancelled_loop_stops_example =
    cancelled_loop_stops two_restarts cancelled_at_start none clean 7 0 refl refl

abbrev ended : Loop
ended = (run two_restarts (spawn two_restarts 10 false).0 three_crashes).0

run_finished_example :
    ((run two_restarts ended three_crashes).1 ≡ [])
    × ((run two_restarts ended three_crashes).0.phase ≡ finished)
unfolding run step spawn
run_finished_example = run_finished two_restarts ended three_crashes refl

acknowledge_once_example :
    let s = (spawn two_restarts 10 false).0 in
    (s.current ≡ some 10)
    × (◌≡◌ {A = Bool} true true)
    × (s.ready_pending ≡ 10)
    × ((acknowledge_ready s 10 true).0.ready_queue ≡ s.ready_queue ++ 10 ∷ [])
    × ((acknowledge_ready (acknowledge_ready s 10 true).0 10 true).1 ≡ false)
unfolding spawn acknowledge_ready
acknowledge_once_example =
    acknowledge_once (spawn two_restarts 10 false).0 10 true (omega arith) refl

storm_guard_example :
    let exits = counted_exits two_restarts (spawn two_restarts 10 false).0 three_crashes in
    let s = (run two_restarts (spawn two_restarts 10 false).0 three_crashes).0 in
    (s.abnormal_exits ≡ recent (latest 0 exits) (300 * one_second) exits)
    × ((is_finished s.phase ≡ true)
        ⊎ (length (recent (latest 0 exits) (300 * one_second) exits) < 5))
unfolding counted_exits recorded step spawn
storm_guard_example = storm_guard two_restarts 10 false three_crashes (omega arith) (omega arith)

-- a token that is cancelled while the first spawn is awaited: its child is still announced, and killed
cancelled_early :
    let (s, events) = spawn two_restarts 10 true in
    (s.token_cancelled ≡ true) × (events ≡ started 10 ∷ [])
unfolding spawn
cancelled_early = (refl, refl)

delay_for_schedule_example :
    (delay_for plain_backoff 1 0 ≤ delay_for plain_backoff 9 0)
    × (delay_for plain_backoff 9 0 ≤ 30 * one_second)
delay_for_schedule_example = delay_for_schedule plain_backoff 1 9 0 0 refl (omega arith)

delay_for_doubles_example : delay_for plain_backoff 4 0 ≡ one_second * 2 ^ 4
delay_for_doubles_example = delay_for_doubles plain_backoff 4 0 refl (omega arith) (omega arith)

jittered_range_example :
    (3 * one_second ≤ 4 * jittered one_second 77) × (4 * jittered one_second 77 ≤ 5 * one_second)
jittered_range_example = jittered_range one_second 77 (omega arith) (omega arith)
