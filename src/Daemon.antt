-- ===== src/Daemon.antt =====
-- src/main.rs: the main loop. `Daemon.Signals` has the self-pipe, `Daemon.Poll` the timeout,
-- `Daemon.Children` the reaping of dead children.
pub mod Signals
pub mod Socket
pub mod Poll
pub mod Children
pub mod Steps
pub mod Start
pub mod Rate
pub mod Waking
pub mod Boot
pub mod Reach
pub mod Quiet
pub mod Unhealthy
pub mod Completion
pub mod Recovery
pub mod Wear
pub mod Pipe
pub mod Shutdown
pub mod Deaths
pub mod Farewell
pub mod Order
pub mod Silence
pub mod Spacing
pub mod Probes
pub mod Supervision
pub mod Override
pub mod Rest
pub mod Signalled
pub mod Acts
pub mod Mortal
pub mod Soundness
pub mod Patience
pub mod Once
pub mod Ahead
pub mod Careful
use teeproxyd.Base.{
  ℤ, ℕ, ◌-◌, Bool, true, false, Option, none, some, List, [], ◌∷◌, leb, if◌then◌else◌, take, drop,
  contains,
}
use teeproxyd.System.{
  OsSignal, open_pipe, Env, M, pure, ◌>>=◌, ◌>>◌, now, poll_for, make_dir, secs, ok, err,
}
use teeproxyd.Config.{Config, load_with_warnings}
use teeproxyd.Health
use teeproxyd.Health.{HealthMonitor, HealthResult, healthy, degraded, restart_needed}
use teeproxyd.Vm
use teeproxyd.Vm.{VmManager}
use teeproxyd.Ca
use teeproxyd.Ca.{CaManager, CaState}
use teeproxyd.Startup.{StartupPhase, Startup, vm_starting, not_started, advance_startup}
use teeproxyd.Ipc.{handle_client}
use teeproxyd.Ipc.Reader.{Stream}
use teeproxyd.Ipc.Handlers.{Managers}
use Signals.{deliver, term_byte, chld_byte, setup_signal_handler}
use Socket.{Listener, acquire_listener}
use Poll.{poll_timeout}
use Children.{WaitStatus, reap_children}

pub record Daemon : Type 0 where
  pub startup : Startup
  pub open startup use *
  pub health : HealthMonitor
  pub last_health : ℕ
  pub sig_pipe_fd : ℤ  -- SIG_PIPE_FD
  pub pipe : List ℕ  -- what the self-pipe holds

-- What the world does around one round of the loop: the signals that arrive until `poll` returns,
-- the answers of `waitpid` if children are reaped, and the client that `accept` returns.
pub record Wakeup : Type 0 where
  pub signals : List OsSignal
  pub pipe_ready : Bool  -- `poll` reports the pipe; it does not if a signal has interrupted it
  pub statuses : List WaitStatus
  pub client : Option Stream

-- Ready or Running
abbrev pub is_up : CaState → Bool
is_up CaState.ready = true
is_up CaState.running = true
is_up _ = false

abbrev pub buf_len : ℕ
buf_len = 64

-- What is read from the pipe, and what stays in it; it is read only if `poll` has reported it.
abbrev pub read_pipe : Bool → List ℕ → List ℕ × List ℕ
read_pipe false pipe = ([], pipe)
read_pipe true pipe = (take buf_len pipe, drop buf_len pipe)

module _ (env : Env) (config : Config) where
  -- Managers, health monitor and first phase, with `started_at`.
  abbrev pub enter_loop : ℤ → M (Daemon × ℕ)
  enter_loop sig_pipe_fd = do
    started_at ← now env
    last_health ← now env
    pure (
      record {
        startup = record {
          phase = if config.auto_start then vm_starting else not_started;
          vm = Vm.new;
          ca = Ca.new;
        };
        health = Health.new config.ca_port config.health_fail_threshold;
        last_health = last_health;
        sig_pipe_fd = sig_pipe_fd;
        pipe = [];
      },
      started_at,
    )

  abbrev pub on_listener : ℤ → Option Listener → M (Option (Daemon × ℕ))
  on_listener sig_pipe_fd none = pure none
  on_listener sig_pipe_fd (some listener) = do entered ← enter_loop sig_pipe_fd; pure (some entered)

  abbrev pub on_handler : Option ℤ → M (Option (Daemon × ℕ))
  on_handler none = pure none
  on_handler (some sig_pipe_fd) = do
    listener ← acquire_listener env config
    on_listener sig_pipe_fd listener

  abbrev pub on_pipe : Option ℕ → M (Option (Daemon × ℕ))
  on_pipe none = pure none
  on_pipe (some sig_write) = do handler ← setup_signal_handler env sig_write; on_handler handler

  -- What `main` does before its loop; `none` is a panic: where there is no pipe, a handler cannot
  -- be registered, or there is no listener.
  unfoldable pub boot : M (Option (Daemon × ℕ))
  boot = do
    make_dir config.log_dir
    make_dir config.image_dir
    sig_pipe ← open_pipe env
    on_pipe sig_pipe

  -- The `match health.probe()` of the main loop.
  abbrev pub act_on : HealthResult → CaManager → M CaManager
  act_on healthy ca = pure ca
  act_on (degraded n) ca = pure ca
  act_on restart_needed ca = do
    stopped ← Ca.stop env config ca
    started ← Ca.start env config config.vsock_cid stopped
    pure started.0

  unfoldable pub probe_ca : Daemon → M Daemon
  probe_ca d =
      if is_up d.ca.state
      then (do
        probed ← Health.probe env d.health
        ca ← act_on probed.1 d.ca
        pure (record d { startup = record d.startup { ca = ca }; health = probed.0 }))
      else pure d

  unfoldable pub check_health : Daemon → M Daemon
  unfolding probe_ca
  check_health d = do
    time ← now env
    if leb (secs config.health_interval_secs) (time - d.last_health)
        then (do probed ← probe_ca d; later ← now env; pure (record probed { last_health = later }))
        else pure d

  unfoldable pub reset_counts : Daemon → M Daemon
  reset_counts d = do
    vm ← Vm.maybe_reset_crash_count env d.vm
    ca ← Ca.maybe_reset_crash_count env d.ca
    pure (record d { startup = record d.startup { vm = vm; ca = ca } })

  unfoldable pub accept_client : ℕ → Option Stream → Daemon → M Daemon
  accept_client started_at none d = pure d
  accept_client started_at (some stream) d = do
    m ← handle_client env config d.phase started_at stream (record { vm = d.vm; ca = d.ca })
    pure (record d { startup = record d.startup { vm = m.vm; ca = m.ca } })

  -- What follows the signals in a round that goes on.
  unfoldable pub rest_of_round : ℕ → Option Stream → Daemon → M Daemon
  rest_of_round started_at client d = do
    served ← accept_client started_at client d
    startup ← advance_startup env config served.startup
    checked ← check_health (record served { startup = startup })
    reset_counts checked

  unfoldable pub reap : Bool → List WaitStatus → Daemon → M Daemon
  reap got_chld statuses d =
      if got_chld
      then (do
        m ← reap_children env config statuses (record { vm = d.vm; ca = d.ca })
        pure (record d { startup = record d.startup { vm = m.vm; ca = m.ca } }))
      else pure d

  -- `if got_term { break; }`, and the rest of the round.
  unfoldable pub unless_term : Bool → ℕ → Option Stream → Daemon → M (Daemon × Bool)
  unless_term true started_at client d = pure (d, false)
  unless_term false started_at client d = do
    next ← rest_of_round started_at client d
    pure (next, true)

  -- One round of the main loop; the second part says whether the loop goes on.
  unfoldable pub round : ℕ → Wakeup → Daemon → M (Daemon × Bool)
  round started_at wakeup d = do
    time ← now env
    poll_for (poll_timeout config d.phase d.last_health time)
    let read = read_pipe wakeup.pipe_ready (deliver d.sig_pipe_fd wakeup.signals d.pipe)
    reaped ← reap (contains chld_byte read.0) wakeup.statuses (record d { pipe = read.1 })
    unless_term (contains term_byte read.0) started_at wakeup.client reaped

  -- `ca.stop()`, then `vm.stop()`.
  unfoldable pub shut_down : Daemon → M Daemon
  shut_down d = do
    ca ← Ca.stop env config d.ca
    vm ← Vm.stop env config d.vm
    pure (record d { startup = record d.startup { vm = vm; ca = ca } })

  -- The main loop over the wakeups that come; the second part says whether it still runs.
  unfoldable pub run : ℕ → List Wakeup → Daemon → M (Daemon × Bool)
  run started_at [] d t = ((d, true), t)
  run started_at (w ∷ ws) d t =
      let (step, t') = round started_at w d t in
      elim step.1 [
        | true ↦ run started_at ws step.0 t'
        | false ↦ let (d', t'') = shut_down step.0 t' in ((d', false), t'')
      ]

abbrev serve_from : Env → Config → List Wakeup → Option (Daemon × ℕ) → M (Option (Daemon × Bool))
serve_from env config ws none = pure none
serve_from env config ws (some booted) = do
  ended ← run env config booted.1 ws booted.0
  pure (some ended)

-- `main`: the configuration, what comes before the loop, the loop, and the shutdown.
unfoldable pub daemon_main : Env → List Wakeup → M (Option (Daemon × Bool))
daemon_main env ws = do
  config ← load_with_warnings env
  booted ← boot env config
  serve_from env config ws booted
