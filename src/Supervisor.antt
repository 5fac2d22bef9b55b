-- ===== src/Supervisor.antt =====
-- crates/chimera-utils/src/process/supervisor.rs: the supervision loop of one child process.
-- An `await` of the loop is a phase, and what the loop waits for is an `Input`: the token, a timer,
-- an acknowledgement, an event of the child, the outcome of a spawn. `step` runs the loop from one
-- await to the next and gives the events that it emits, in order. An input that no arm of the phase
-- waits for changes nothing. The child process, the clock and the entropy are outside: an input
-- carries what the loop reads of them.
pub mod Delay
pub mod Budget
pub mod Cancel
pub mod Storm
mod Examples
use Delay.{Backoff, delay_for}
use chimera_service.Base.{
  ℕ, ◌+◌, ◌-◌, ◌%◌, ◌^◌, max, Bool, true, false, ◌&&◌, ◌||◌, not, Option, none, some, List, [], ◌∷◌,
  ◌++◌, ltb, leb, ◌==◌, if◌then◌else◌, is_some, length,
}

pub data RestartPolicy : Type 0 where
  never : RestartPolicy
  on_failure : ℕ → RestartPolicy

pub record StormPolicy : Type 0 where
  pub max_failures : ℕ
  pub window : ℕ

-- `RestartStormPolicy::new`, with the window in nanoseconds
unfoldable pub new_storm_policy : ℕ → ℕ → StormPolicy
new_storm_policy max_failures window = record {
  max_failures = max max_failures 1;
  window = max window 1_000_000;
}

pub data Readiness : Type 0 where
  alive_after : ℕ → Readiness
  acknowledged : Readiness

abbrev pub is_acknowledged : Readiness → Bool
is_acknowledged (alive_after _) = false
is_acknowledged acknowledged = true

pub record Config : Type 0 where
  pub policy : RestartPolicy
  pub backoff : Backoff
  pub readiness : Readiness
  pub storm_policy : StormPolicy

-- `Option<i32>` of `TerminatedPayload`: the exit code 0 is told from all other outcomes
pub data ExitCode : Type 0 where
  clean abnormal unknown : ExitCode

abbrev pub is_clean : ExitCode → Bool
is_clean clean = true
is_clean _ = false

pub data Event : Type 0 where
  started : ℕ → Event
  ready : Event
  exited : ExitCode → Event
  restarting : (attempt delay : ℕ) → Event
  gave_up : Event
  preparation_failed : Event
  stopped : Event

pub data Phase : Type 0 where
  -- the inner `select!` over a child; the flags are its local variables
  watching : (cancelled readiness_pending : Bool) → Phase
  -- the `select!` over the token and the backoff delay
  backing_off : Phase
  -- `(factory)().spawn().await`
  spawning : Phase
  finished : Phase

pub record Loop : Type 0 where
  pub phase : Phase
  pub attempt : ℕ
  pub abnormal_exits : List ℕ
  pub current : Option ℕ
  pub ready_pending : ℕ
  pub ready_queue : List ℕ
  pub token_cancelled : Bool

-- the outcome of the preparation hook before a respawn
pub data Prepared : Type 0 where
  prepared failed : Prepared

pub data Input : Type 0 where
  -- the token is cancelled, by the host, by `stop` or by the drop of the `Supervisor`
  cancel : Input
  -- `stop` takes the handle, to kill the child
  take_handle : Input
  -- the arm `token_.cancelled()`, of either `select!`
  see_cancelled : Input
  -- the arm of the readiness timer; whether the child is alive then
  ready_timer : Bool → Input
  -- `acknowledge_ready(pid)`, called by a client; whether the child is alive then
  acknowledge : ℕ → Bool → Input
  -- the arm `ready_rx.recv()`; whether the child is alive then
  receive_ready : Bool → Input
  -- the same arm, when every sender is gone
  ready_closed : Input
  -- `Terminated(payload)` or the end of the event channel: the time, and the entropy of a delay
  terminated : ExitCode → (now entropy : ℕ) → Input
  -- the backoff delay is over; whether the token is cancelled while the preparation runs
  backoff_over : Prepared → Bool → Input
  -- the outcome of the spawn, a pid or an error, and the entropy of a delay
  spawned : Option ℕ → (entropy : ℕ) → Input

abbrev finish : Loop → List Event → Loop × List Event
finish s events = (record s { phase = finished }, events)

-- the lines from `attempt += 1` to the wait for the delay
begin_restart : Config → Loop → ℕ → List Event → Loop × List Event
begin_restart c s entropy before = elim c.policy [
  | never ↦ finish (record s { attempt = (s.attempt + 1) % 2 ^ 32 }) before
  | on_failure max_restarts ↦
      let attempt = (s.attempt + 1) % 2 ^ 32 in
      let s' = record s { attempt = attempt } in
      if ltb max_restarts attempt then finish s' (before ++ gave_up ∷ []) else (
        record s' { phase = backing_off },
        before ++ restarting attempt (delay_for c.backoff (attempt - 1) entropy) ∷ [],
      )
]

-- `while abnormal_exits.front().is_some_and(|at| now - at > window) { pop_front() }`
unfoldable pub drop_old : ℕ → ℕ → List ℕ → List ℕ
drop_old now window [] = []
drop_old now window (at ∷ exits) =
    if ltb window (now - at) then drop_old now window exits else at ∷ exits

abbrev pub is_never : RestartPolicy → Bool
is_never never = true
is_never (on_failure _) = false

-- the lines after the inner loop: the child is gone
after_exit : Config → Loop → Bool → ExitCode → (now entropy : ℕ) → Loop × List Event
unfolding begin_restart drop_old
after_exit c s cancelled code now entropy =
    let s1 = record s { current = none; ready_pending = 0 } in
    let exits = drop_old now c.storm_policy.window (s.abnormal_exits ++ now ∷ []) in
    let s2 = record s1 { abnormal_exits = exits } in
    if cancelled || s.token_cancelled
    then finish s1 (exited code ∷ stopped ∷ [])
    else if is_clean code || is_never c.policy
    then finish s1 (exited code ∷ [])
    else if leb c.storm_policy.max_failures (length exits)
    then finish s2 (exited code ∷ gave_up ∷ [])
    else begin_restart c s2 entropy (exited code ∷ [])

abbrev pub holds : ℕ → Option ℕ → Bool
holds pid none = false
holds pid (some p) = p == pid

-- readiness is acknowledged: the attempt budget starts again
become_ready : Loop → Bool → Loop × List Event
become_ready s cancelled = (record s { phase = watching cancelled false; attempt = 0 }, ready ∷ [])

-- the inner `select!`
watch : Config → Loop → (cancelled pending : Bool) → Input → Loop × List Event
unfolding after_exit become_ready
watch c s cancelled pending see_cancelled =
    if s.token_cancelled && not cancelled
    then (record s { phase = watching true false; current = none }, [])
    else (s, [])
watch c s cancelled pending (ready_timer alive) =
    if pending && not (is_acknowledged c.readiness)
    then if is_some s.current && alive && not s.token_cancelled
      then become_ready s cancelled
      else (record s { phase = watching cancelled false }, [])
    else (s, [])
watch c s cancelled pending (receive_ready alive) =
    if pending && is_acknowledged c.readiness
    then elim s.ready_queue [
      | [] ↦ (s, [])
      | pid ∷ rest ↦
          let s' = record s { ready_queue = rest } in
          if holds pid s.current && alive && not s.token_cancelled
          then become_ready s' cancelled
          else (s', [])
    ]
    else (s, [])
watch c s cancelled pending ready_closed =
    if pending && is_acknowledged c.readiness
    then (record s { phase = watching cancelled false }, [])
    else (s, [])
watch c s cancelled pending (terminated code now entropy) =
    after_exit c s cancelled code now entropy
watch c s cancelled pending _ = (s, [])

-- the wait for the delay, the preparation and the tests of the token around it
back_off : Loop → Input → Loop × List Event
back_off s see_cancelled = if s.token_cancelled then finish s (stopped ∷ []) else (s, [])
back_off s (backoff_over outcome meanwhile) =
    let s' = record s { token_cancelled = s.token_cancelled || meanwhile } in
    if s.token_cancelled then finish s (stopped ∷ []) else elim outcome [
      | failed ↦ finish s' ((if meanwhile then stopped else preparation_failed) ∷ [])
      | prepared ↦
          if meanwhile then finish s' (stopped ∷ []) else (record s { phase = spawning }, [])
    ]
back_off s _ = (s, [])

-- the `match` on the spawn, and the head of the next round
respawn : Config → Loop → Input → Loop × List Event
unfolding begin_restart
respawn c s (spawned (some pid) entropy) =
    let s' = record s { current = some pid; phase = watching false true } in
    if s.token_cancelled then (s', []) else (
      record s' { ready_pending = if is_acknowledged c.readiness then pid else s.ready_pending },
      started pid ∷ [],
    )
respawn c s (spawned none entropy) =
    if s.token_cancelled then finish s (stopped ∷ []) else begin_restart c s entropy []
respawn c s _ = (s, [])

dispatch : Config → Loop → Phase → Input → Loop × List Event
unfolding watch back_off respawn
dispatch c s (watching cancelled pending) input = watch c s cancelled pending input
dispatch c s backing_off input = back_off s input
dispatch c s spawning input = respawn c s input
dispatch c s finished input = (s, [])

abbrev pub is_finished : Phase → Bool
is_finished finished = true
is_finished _ = false

-- `Supervisor::acknowledge_ready`: the send fails once the loop has ended
unfoldable pub acknowledge_ready : Loop → ℕ → Bool → Loop × Bool
acknowledge_ready s pid alive =
    if not (holds pid s.current && alive) || not (s.ready_pending == pid)
    then (s, false)
    else if is_finished s.phase
    then (s, false)
    else (record s { ready_pending = 0; ready_queue = s.ready_queue ++ pid ∷ [] }, true)

unfoldable pub step : Config → Loop → Input → Loop × List Event
unfolding dispatch acknowledge_ready
step c s cancel = (record s { token_cancelled = true }, [])
step c s take_handle = (if s.token_cancelled then record s { current = none } else s, [])
step c s (acknowledge pid alive) = ((acknowledge_ready s pid alive).0, [])
step c s input = dispatch c s s.phase input

-- `SupervisorBuilder::spawn`, once the first child runs: it is announced whether or not the token is
-- cancelled by then (`early`), and the loop starts to watch it
unfoldable pub spawn : Config → (pid : ℕ) → (early : Bool) → Loop × List Event
spawn c pid early = (
  record {
    phase = watching false true;
    attempt = 0;
    abnormal_exits = [];
    current = some pid;
    ready_pending = if is_acknowledged c.readiness then pid else 0;
    ready_queue = [];
    token_cancelled = early;
  },
  started pid ∷ [],
)

-- the events of a series of inputs
unfoldable pub run : Config → Loop → List Input → Loop × List Event
run c s [] = (s, [])
run c s (input ∷ inputs) =
    let (s', events) = step c s input in let (s'', rest) = run c s' inputs in (s'', events ++ rest)
