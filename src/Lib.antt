-- ===== src/Lib.antt =====
-- teeproxyd, the daemon that keeps a crosvm guest (the TEE virtual machine) and the
-- secret_proxy_ca process (the CA) running on an Android device, starts them in order, restarts
-- what may be restarted, and answers a control client over a Unix socket.
--
-- The parts and the files that model them. Paths are from the root of the repository; a file in a
-- folder of the same name has the theorems about its part.
--
--   src/main.rs            Daemon: `boot`, `round`, `run`, `shut_down`, `daemon_main`, the parts of
--                          `main`. Daemon/Socket: `acquire_listener`. Daemon/Signals: the self-pipe,
--                          its handler and `setup_signal_handler`. Daemon/Poll: the timeout
--                          of `poll`. Daemon/Children:
--                          `reap_children`, `handle_child_death`.
--   src/startup.rs         Startup: `StartupPhase`, `advance_startup`.
--   src/vm.rs              Vm: `VmManager` and its operations.
--   src/ca.rs              Ca: `CaManager` and its operations.
--   src/process.rs         Process: `spawn_with_log`, `graceful_kill`, `kill_tree`.
--   src/health.rs          Health: `HealthMonitor`, `probe`.
--   src/ipc.rs             Ipc/Reader: the bounded reads of lines. Ipc/Handlers: the handlers and
--                          the `match` on the command. Ipc: `handle_client`, `write_response`.
--   src/log_collector.rs   LogCollector: `tail_log`.
--   src/config.rs          Config: `RawConfig`, `Config`, the loading.
--   the standard library   System: what the source uses of the operating system.
--
-- The `#[cfg(test)]` modules of vm.rs, config.rs, health.rs and log_collector.rs are
-- Vm/UnitTests, Config/UnitTests, Health/UnitTests and LogCollector/UnitTests: each test is a
-- function into Bool of the environment, whose disk (System/Disk) holds what the test writes.
--
-- Base has the names, list lemmas and Boolean tests that all of them share. Examples holds tests
-- and, for each theorem with hypotheses, its use at concrete inputs.
--
-- How the parts interact. `main` owns two managers, a health monitor and the startup phase: the
-- record `Daemon`. One round of its loop waits in `poll`, drains the self-pipe, reaps dead
-- children (each death goes to the manager that owns the pid), leaves the loop on SIGTERM or
-- SIGINT, serves one waiting client (whose commands start and stop the managers), advances the
-- startup phase, probes the CA's port when the interval has passed (too many refusals restart the
-- CA), and resets the crash counts of managers that have been ready for long. `round` composes
-- them in this order, and `run` iterates it over the wakeups that the world delivers.
--
-- State and effects. Everything outside the program answers through the record `System.Env`: the
-- clock, the file system, spawns, `kill`, TCP connections, the writes to a client, and
-- serde_json. An answer is any function of the call and of the history of calls so far (`Trace`),
-- so time may pass between two calls and a process may die between two queries. A theorem that
-- needs a clock that never goes back and that sleeping advances (`IsClock`), or files that do not
-- change (`IsSnapshot`), has that as a hypothesis. The signals that arrive, whether `poll`
-- reports the pipe (a signal that interrupts `poll` leaves it unreported), the answers of
-- `waitpid` and the client that is accepted come with each round, as a `Wakeup`; since the pipe
-- blocks, a wakeup has only signals whose byte could be written. An operation is a function
-- `Trace → A × Trace` in a state monad (`M`), so each call of the source is an event of the
-- history, in the source's order, and theorems can count signals, spawns and renames. A method
-- with `&mut self` takes the manager and returns it. A fallible call returns `Result`, and an
-- error path is a value. Times are natural numbers of nanoseconds. Text is compared as the
-- library's strings and read as lists of byte values.
--
-- Abstract views. Acts gives what the daemon does as a step relation (`Act`) on its two managers
-- and the history: the operations of the managers, each with the condition under which the source
-- takes it, and the calls that leave the managers alone. Its parameters bar acts: the deaths of
-- other children than some, the launch of the VM, and starts that would let go of a child that is
-- held. Ipc/Acts, Startup/Acts and Daemon/Acts split a client's commands, a step of the startup
-- machine, a round and a whole run into acts, once, and the files in Acts say what each act
-- keeps: Acts/Lives that each manager follows the life of a child (the step relation `LifeStep`
-- of Life with the invariant `IsSound`, the same for both managers; Vm/Edges and Ca/Edges have
-- their operations), Acts/Stories and Acts/Chronicle that the history bears out each step of it,
-- Acts/Fates that no child is lost from sight, Acts/Own that it signals none but children that
-- are held, Acts/Growth that it only adds to the history, Acts/Tracking that a manager that is
-- down holds no child, Acts/Counts that only a death is counted as a crash, Acts/Launches that
-- only a start of the VM launches one. Daemon/Supervision, Daemon/Signalled, Daemon/Rate,
-- Daemon/Patience, Daemon/Once, Daemon/Careful, Daemon/Soundness and Daemon/Steps draw on them
-- for runs, and Daemon/Reach for the states that are reached (`Reach`). Startup/Phases gives the
-- chain of phases. Process/Outer keeps of a history only what the main loop itself does (polls,
-- health probes, replies), and the Silence files say which operations add nothing to it;
-- Process/Minor is the relation of histories that differ by calls that only look or wait, which
-- every such view ignores; Process/Growth says how operations extend the history. Process/Own
-- says which signals go astray, Process/Ended which processes `graceful_kill` has dealt with.
-- Ipc/Status has what a client can see of the managers (`View`), a quotient by the states.
-- Daemon/Quiet views a round without signals and clients as one step of the startup machine.
--
-- Bounds and fuel. Counters, pids and settings are natural numbers, with the wrap of u32 and u64
-- written out where the source adds (`Health.record_outcome`, `Startup.vsock_secs`, the crash
-- counts); subtraction of times stops at 0 as `duration_since` does. The polling loop of
-- `graceful_kill` takes fuel for five rounds in each second of the grace period and one more,
-- since each round sleeps 200 ms; the loop over a client's lines takes the length of what the
-- client sends and one more, since each line takes a byte at least. All other loops are
-- structural.
--
-- What is not modelled: log messages, and what is only put into them; the time for which a silent
-- client holds the loop (its read timeout is a failed read); the panic of `Instant + Duration` on
-- overflow. serde_json and the formatting with `{:?}` are parameters of the model. The Android
-- packaging and the shell scripts are outside it.
mod Base
pub mod System
pub mod Config
pub mod Process
pub mod Life
pub mod Health
pub mod LogCollector
pub mod Vm
pub mod Ca
pub mod Startup
pub mod Ipc
pub mod Acts
pub mod Daemon
mod Examples
