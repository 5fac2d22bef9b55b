-- ===== src/Lib.antt =====
-- Chimera Service: the core manager that a host runs proxy cores with. A control plane takes the
-- commands, one after the other; the manager carries each out as a transaction on the one core
-- that it has; a supervisor keeps the process of the core up; a tracker says whether it is healthy.
--
-- The files and the code that they are about (crates/chimera-core-manager/src is CM):
-- - Control/Registry: `Registry` of CM/control/executor.rs, the table of recent operations.
-- - Control/Digest: `payload_digest` of CM/control/mod.rs, what tells two commands under one id apart.
-- - Control/Executor: `CoreControl::submit` and `shutdown` of CM/control/mod.rs and `run`, `drain` of
--   CM/control/executor.rs. The tasks are interleaved as a series of inputs; `step` takes one.
-- - Manager/State: `Ctrl` of CM/manager/mod.rs, the statuses of CM/state.rs, and the environment.
--   A transaction holds the control lock for its whole length, so it is a function on the state. What it learns
--   from outside (a file, a process, the store, the host's resolver, the clock) is an answer of
--   the environment, which is given by the number of answers before it and may be anything.
-- - Manager/Publish: CM/manager/publish.rs. Manager/Quarantine: CM/manager/quarantine.rs.
--   Manager/Dns: CM/manager/dns_sync.rs. Manager/Start and Manager/Stop: `start`, `stop`, `shutdown`
--   of CM/manager/mod.rs. Manager/Switching, Manager/Graceful, Manager/Switch: CM/manager/switching.rs.
--   Manager/Apply: the two compensations of CM/manager/apply.rs. Manager/Reconcile: `apply_config` of
--   CM/manager/apply.rs and `reconcile` of CM/manager/reconcile.rs.
--   A function is cut where it branches on an answer: `start_prepared` goes on as `start_activated`,
--   `start_deactivated`, and so on. Manager/Commands puts transactions in a row.
-- - Health: the policy and the tracker of CM/health/mod.rs.
-- - Instance: CM/instance.rs. Instance/Loop: `monitor_loop`; the tasks beside it are inputs too. A branch of the `select!`
--   runs at once, but for the wait for an acknowledgement. Instance/Reconcile: `ProbeReconcile`. Instance/Stop:
--   `stop_and_confirm_dead`. A driver of CM/health/driver.rs is the run that it probes. Its supervisor's events
--   are those of Supervisor.
-- - Supervisor: crates/chimera-utils/src/process/supervisor.rs. An await of the loop is a phase, and
--   `step` goes from one await to the next. Supervisor/Delay: its `Backoff`.
-- - Log: CM/log.rs. Log/Ansi and Log/Logfmt: `strip_ansi`, `parse_level`, `scan_logfmt` and `parse_mihomo`; Log/Headers:
--   the headers of the other cores; Log/Bound: the caps; Log/Parser: `LogParser`; Log/Summary: `error_summary` and
--   `summarize_output`. Log/Parser/Records says what a record is, with no look at the frames. Texts are UTF-8 bytes.
-- - LogSink: the `Writer` of CM/log_sink.rs and its directory. LogSink/Run: `run` and `drain`. LogSink/Name: `file_name`
--   and `file_seq`.
-- - Config/Diff: CM/config/diff.rs. A value of serde_yaml_ng is a parameter, with what `==` and the mappings do as hypotheses.
-- - Errors: crates/chimera-core-metadata/src/error_kind.rs and CM/error.rs.
-- - Base: what these share.
-- A module named for a predicate or a matter (Manager/Start/Accounts, Control/Executor/Pending) has the proofs
-- about it; the modules named Examples have concrete runs.
--
-- The processes of an epoch and the override of the host are counted in the state of the manager by
-- fields that the code does not have. They move by the contracts of the runtime backend and
-- of the DNS controller: a launch that succeeds leaves one process more; one that answers `StopUnconfirmed` may have left
-- one, and is counted on its own, by a third field; a stop leaves one less unless it
-- answers `StopUnconfirmed`; a reaped pid file leaves none; an `apply` may override the resolver
-- whatever it answers; a `restore` that succeeds leaves it restored.
--
-- Bounds: the width of an integer is written out where the code wraps or saturates (attempts and
-- counters are u32, durations saturate). The allocator of epochs, which panics at 2^64, is not
-- bounded. The eviction loop runs on fuel, one more than the length of the order that it
-- shortens in each round. Config/Diff has a round for each level of mappings and one more.
-- Log/Logfmt's scanner has a round of fuel for each byte and one more. The drain of a
-- cancelled LogSink/Run has a round for each entry and one more. An instant is a number of milliseconds, not before
-- the epoch of Unix.
--
-- Not modelled: the prepare step of an epoch (YAML, staging,
-- the check by the core), the classification of
-- a change, the probes of a config taken in place, the spawn of an instance, the file protocols, the
-- operating system, the IPC client and server, and third-party code. The texts of errors are
-- left out.
pub mod Base
pub mod Health
pub mod Instance
pub mod Supervisor
pub mod Errors
pub mod Config
pub mod Control
pub mod Manager
pub mod Log
pub mod LogSink
