-- ===== src/Examples/Loop.antt =====
-- The theorems on the main loop, at concrete inputs, and a run of the daemon.
use teeproxyd.Base.{
  pos, Bool, ℕ, ◌≤◌, ◌≡◌, ◌⊎◌, refl, true, false, Option, none, some, [], ◌∷◌, arith, max,
}
use teeproxyd.System.{sig_term, sig_chld, Trace, ok, secs, millis, sleep}
use teeproxyd.Config.{default}
use teeproxyd.Process.{spawn_with_log}
use teeproxyd.Health
use teeproxyd.Startup.{
  StartupPhase, Startup, waiting_vsock, complete, failed, advance_startup, step_phase,
}
use teeproxyd.Startup.Phases.{IsTracked, ◌⟶◌, vsock_wait_ends, advance_startup-IsTracked}
use teeproxyd.Vm
use teeproxyd.Vm.{VmState, VmManager}
use teeproxyd.Ca
use teeproxyd.Ca.{CaState, CaManager}
use teeproxyd.Ipc.Handlers.{Managers}
use teeproxyd.Daemon.{
  Daemon, Wakeup, boot, round, run, accept_client, daemon_main, reap, unless_term,
}
use teeproxyd.Daemon.Socket.{acquire_listener, inherited_fd}
use teeproxyd.Daemon.Signals.{deliver, signal_handler, register, setup_signal_handler}
use teeproxyd.Daemon.Poll.{poll_timeout, until_health, poll_wakes_for_health}
use teeproxyd.Daemon.Children.{exited}
use teeproxyd.Daemon.Waking.{waking}
use teeproxyd.Daemon.Reach.{restart_unreachable, round_follows_chain, settled_forever}
use teeproxyd.Daemon.Recovery.{vm_stays_down}
use teeproxyd.Daemon.Wear.{crash_count_never_reset}
use teeproxyd.Daemon.Shutdown.{signal_stops_the_loop}
use teeproxyd.Daemon.Deaths.{five_deaths, HasCrashed, IsGivenUp, ca_deaths}
use teeproxyd.Examples.World.{calm}
use teeproxyd.Examples.Start.{before_loop, first, start_time, first-Reach}

abbrev vm : VmState → Option ℕ → VmManager
vm state pid = record { state = state; child_pid = pid; crash_count = 0; ready_since = none }

abbrev ca : CaState → Option ℕ → ℕ → CaManager
ca state pid crashes = record {
  state = state;
  child_pid = pid;
  crash_count = crashes;
  ready_since = none;
}

abbrev daemon : StartupPhase → VmManager → CaManager → Daemon
daemon phase v c = record {
  startup = record { phase = phase; vm = v; ca = c };
  health = Health.new 19030 3;
  last_health = 0;
  sig_pipe_fd = pos 4;
  pipe = [];
}

-- The CA's process 9 dies, with nothing else to wake the daemon.
abbrev death : Wakeup
death = record {
  signals = sig_chld ∷ [];
  pipe_ready = true;
  statuses = exited 9 ∷ [];
  client = none;
}

abbrev shutdown : Wakeup
shutdown = record {
  signals = sig_chld ∷ sig_term ∷ [];
  pipe_ready = true;
  statuses = [];
  client = none;
}

restart_unreachable_example :
    let (woken, t₁) = waking calm default start_time death first [] in
    let (served, t₂) = accept_client calm default start_time none woken t₁ in
    (Vm.is_dead calm served.vm t₂ ≡ (false, t₂))
    × (Ca.is_dead calm served.ca t₂ ≡ (false, t₂))
    × (advance_startup calm default served.startup t₂
        ≡ step_phase calm default served.phase served.startup t₂)
restart_unreachable_example = restart_unreachable calm default start_time first death [] first-Reach

round_follows_chain_example :
    let d = (round calm default start_time death first []).0.0 in
    (d.phase ≡ first.phase) ⊎ (first.phase ⟶ d.phase)
round_follows_chain_example = round_follows_chain calm default start_time first death [] first-Reach

-- The VM has died while the daemon waits for vsock.
abbrev widowed : Daemon
widowed = daemon (waiting_vsock 100 0 true) (vm VmState.idle none) (ca CaState.idle none 0)

widowed-IsTracked : IsTracked widowed.startup
widowed-IsTracked = record { vm = λ e. refl; ca = λ e. refl }

vm_stays_down_example : (run calm default 0 (death ∷ death ∷ []) widowed []).0.0.vm.child_pid ≡ none
vm_stays_down_example =
    vm_stays_down calm default 0 (death ∷ death ∷ []) widowed [] (refl, (refl, tt))
      widowed-IsTracked (omega arith) refl

-- Startup is complete, and the CA was started again as process 9 after a death.
abbrev revived : Daemon
revived = daemon complete (vm VmState.ready (some 5)) (ca CaState.running (some 9) 1)

revived-IsTracked : IsTracked revived.startup
revived-IsTracked = record { vm = λ e. cc; ca = λ e. cc }

settled_forever_example :
    (run calm default 0 (death ∷ shutdown ∷ []) revived []).0.0.phase ≡ complete
settled_forever_example =
    settled_forever calm default 0 (death ∷ shutdown ∷ []) revived [] revived-IsTracked refl

crash_count_never_reset_example :
    let c = (run calm default 0 (death ∷ death ∷ []) revived []).0.0.ca in
    (1 ≤ c.crash_count) × (c.ready_since ≡ none)
crash_count_never_reset_example =
    crash_count_never_reset calm default 0 (death ∷ death ∷ []) revived [] (refl, (refl, tt))
      revived-IsTracked refl refl (omega arith)

-- The signals interrupt `poll`, so the pipe is read in the next round.
abbrev interrupted : Wakeup
interrupted = record shutdown { pipe_ready = false }

abbrev quiet : Wakeup
quiet = record { signals = []; pipe_ready = true; statuses = []; client = none }

signal_stops_the_loop_example :
    (run calm default start_time (interrupted ∷ quiet ∷ []) first before_loop).0.1 ≡ false
signal_stops_the_loop_example =
    signal_stops_the_loop calm default start_time (sig_chld ∷ []) [] sig_term interrupted quiet []
      first before_loop first-Reach refl refl (omega arith) refl

run_ends : (run calm default 0 (shutdown ∷ []) revived []).0.1 ≡ false
unfolding run round reap unless_term deliver signal_handler
run_ends = refl

-- Twenty seconds after the start of a VM whose boot delay is fifteen, past a deadline of ten.
abbrev late : Trace
late = sleep 20000 ∷ []

abbrev slow : Startup
slow = record {
  phase = waiting_vsock (secs 10) 0 false;
  vm = vm VmState.booting (some 5);
  ca = ca CaState.idle none 0;
}

slow-IsTracked : IsTracked slow
slow-IsTracked = record { vm = λ e. cc; ca = λ e. refl }

vsock_wait_ends_example :
    (advance_startup calm default (advance_startup calm default slow late).0 late).0.phase
    ≡ failed "vsock timeout"
vsock_wait_ends_example =
    vsock_wait_ends calm default slow (advance_startup calm default slow late).0 late late (secs 10)
      0 false slow-IsTracked (advance_startup-IsTracked calm default slow late slow-IsTracked) refl
      refl (omega arith) (omega arith) (omega arith)

poll_timeout_runs : poll_timeout default complete 0 (secs 4) ≡ 6000
unfolding poll_timeout
poll_timeout_runs = refl

poll_wakes_for_health_example :
    millis (poll_timeout default complete 0 (secs 4))
    ≤ max (millis 100) (until_health default 0 (secs 4))
poll_wakes_for_health_example = poll_wakes_for_health default complete 0 (secs 4) refl (omega arith)

-- The VM is stopped, and the CA runs as process 9.
abbrev alone : Managers
alone = record { vm = vm VmState.idle none; ca = ca CaState.running (some 9) 0 }

calm_starts_well :
    (c : CaManager) (t : Trace) → (Ca.start calm default default.vsock_cid c t).0.1 ≡ ok tt
unfolding Ca.start Ca.launch spawn_with_log
calm_starts_well c t = refl

five_deaths_example :
    HasCrashed calm default 3 (ca_deaths calm default 3 alone []).0
    × IsGivenUp calm default (ca_deaths calm default 5 alone []).0.ca
five_deaths_example =
    five_deaths calm default alone 3 [] calm_starts_well
      (record { count = refl; alive = refl; no_vm = refl }) (omega arith)

abbrev has_ended : Option (Daemon × Bool) → Bool
has_ended (some (d, false)) = true
has_ended _ = false

-- The daemon is started, wakes for a signal to shut down, and ends.
daemon_main_runs : has_ended (daemon_main calm (shutdown ∷ []) []).0 ≡ true
unfolding daemon_main boot register setup_signal_handler acquire_listener inherited_fd run round
    reap unless_term deliver signal_handler
daemon_main_runs = refl
