-- ===== src/Examples/Lives.antt =====
-- The theorems on the lives of the managers, on the health probes and on the start of the daemon, at
-- concrete inputs.
use mathlib.Core.List.{Permᴰ}
use teeproxyd.Process.Growth.{IsNeverUsed}
use teeproxyd.Process.Own.{strays}
use teeproxyd.Daemon.Signalled.{daemon_main-strays}
use teeproxyd.Base.{
  Bool, ◌==◌, is_utf8, false, codes, some, ◌≢◌, ℕ, true, none, is_some, [], ◌∷◌, ◌≡◌, ◌↔◌, ◌≤◌, ◌-◌,
  ◌*◌, refl, arith,
}
use teeproxyd.System.{Env, Trace, secs, sig_chld, sleep, connect, clock, refused, connected}
use teeproxyd.Config.{default, load_with_warnings}
use teeproxyd.Process.{spawn_with_log}
use teeproxyd.Health
use teeproxyd.Vm
use teeproxyd.Vm.{VmState, validate_images, all_exist, all_large, launch}
use teeproxyd.Acts.Stories.{Story}
use teeproxyd.Vm.Edges.{vm_life}
use teeproxyd.Ca
use teeproxyd.Ca.{CaState}
use teeproxyd.Ca.Edges.{ca_life}
use teeproxyd.Startup.{ca_starting, complete}
use teeproxyd.Startup.Acts.{managers}
use teeproxyd.Ipc.Handlers.{Managers}
use teeproxyd.Daemon.{Daemon, Wakeup, boot, run, check_health, daemon_main, rest_of_round}
use teeproxyd.Daemon.Children.{exited, signaled, reap_children}
use teeproxyd.Daemon.Supervision.{run_refines_lives}
use teeproxyd.Daemon.Soundness.{AreSound, Reach-AreSound}
use teeproxyd.Daemon.Rest.{IsResting, nothing_starts_at_rest}
use teeproxyd.Process.Logs.{children}
use teeproxyd.Daemon.Override.{IsRunning, stop_is_overridden}
use teeproxyd.Ipc.Reader.{Stream}
use teeproxyd.Startup.Phases.{IsTracked}
use teeproxyd.Daemon.Order.{report_order_is_irrelevant}
use teeproxyd.Process.Outer.{probes}
use teeproxyd.Daemon.Rate.{daemon_main-probes_in_time}
use teeproxyd.Daemon.Boot.{CanBoot, boots_iff}
use teeproxyd.Daemon.Unhealthy.{checks, restarted, refused_checks_restart}
use teeproxyd.Daemon.Quiet.{IsQuiet}
use teeproxyd.Daemon.Completion.{after, boot_completes}
use teeproxyd.Examples.World.{world, calm, calm-IsClock}
use teeproxyd.Examples.Start.{first, start_time, first-booted, first-Reach}
use teeproxyd.Examples.Boot.{calm-Cooperates, later, busy}

-- The CA's process 9 dies.
abbrev pub loss : Wakeup
loss = record {
  signals = sig_chld ∷ [];
  pipe_ready = true;
  statuses = exited 9 ∷ [];
  client = none;
}

abbrev pub quiet : Wakeup
quiet = record { signals = []; pipe_ready = true; statuses = []; client = none }

quiet-IsQuiet : IsQuiet quiet
quiet-IsQuiet = record { no_signal = refl; no_client = refl }

daemon_main-strays_example : strays calm (daemon_main calm (loss ∷ quiet ∷ []) []).1 ≡ []
unfolding strays
daemon_main-strays_example = daemon_main-strays calm (loss ∷ quiet ∷ []) []

-- The only process that dies.
abbrev nine : ℕ → Bool
nine pid = pid == 9

run_refines_lives_example :
    let (step, u) = run calm default 0 (loss ∷ quiet ∷ []) busy [] in
    Story calm nine (vm_life busy.vm, []) (vm_life step.0.vm, u)
    × Story calm nine (ca_life busy.ca, []) (ca_life step.0.ca, u)
run_refines_lives_example =
    run_refines_lives calm default nine 0 (loss ∷ quiet ∷ []) busy [] ((refl, tt), (tt, tt))

Reach-AreSound_example : AreSound (managers first.startup)
Reach-AreSound_example = Reach-AreSound calm default start_time first first-Reach

abbrev both : Managers
both = record { vm = busy.vm; ca = busy.ca }

-- Children that are started here get the pid 7.
never : (pid : ℕ) → 7 ≢ pid → IsNeverUsed calm [] pid
never pid ne u p c = λ e. ground arith

report_order_is_irrelevant_example :
    reap_children calm default (exited 5 ∷ signaled 9 ∷ []) both []
    ≡ reap_children calm default (signaled 9 ∷ exited 5 ∷ []) both []
report_order_is_irrelevant_example =
    report_order_is_irrelevant calm default both [] (Permᴰ.swap refl refl)
      (never 5 (omega arith), (never 9 (omega arith), tt))

daemon_main-probes_in_time_example :
    let u = (daemon_main calm (loss ∷ quiet ∷ []) []).1 in
    (probes u - probes []) * secs ((load_with_warnings calm []).0.health_interval_secs)
    ≤ calm.now_at u - calm.now_at []
daemon_main-probes_in_time_example =
    daemon_main-probes_in_time calm calm-IsClock (loss ∷ quiet ∷ []) []
      (unfold load_with_warnings is_utf8 in omega arith)

boots_iff_example : (is_some (boot calm default []).0 ≡ true) ↔ CanBoot calm default []
boots_iff_example = boots_iff calm default []

boot_completes_example :
    let up = λ (d : Daemon) (t : Trace). after calm default start_time quiet d t in
    let d = up (up (up (up (up first []) later) []) later) later in
    (d.phase ≡ complete) × (d.vm.state ≡ VmState.ready) × (d.ca.state ≡ CaState.ready)
boot_completes_example =
    boot_completes calm default start_time [] [] later [] later later quiet quiet quiet quiet quiet
      first calm-Cooperates (λ t. refl) refl first-booted quiet-IsQuiet quiet-IsQuiet quiet-IsQuiet
      quiet-IsQuiet quiet-IsQuiet
      (unfold Vm.start validate_images all_exist all_large launch spawn_with_log in omega arith)
      (unfold Vm.start validate_images all_exist all_large launch spawn_with_log in omega arith)

-- An hour later, and a day later.
abbrev hour : Trace
hour = sleep 3600000 ∷ []

abbrev day : Trace
day = sleep 86400000 ∷ []

-- A CA that refuses connections.
abbrev deaf : Env
deaf = world (λ pid t. true) refused "status"

refused_checks_restart_example :
    let d₁ = checks deaf default (later ∷ hour ∷ []) busy in
    let d₂ = (check_health deaf default d₁ day).0 in
    (d₁.ca ≡ busy.ca)
    × (d₂.ca ≡ restarted deaf default busy.ca (connect 19030 2 ∷ clock ∷ day))
    × (d₂.health.consecutive_failures ≡ 0)
    × (d₂.ca.crash_count ≡ busy.ca.crash_count)
unfolding Health.new checks check_health Health.probe Health.record_outcome
refused_checks_restart_example =
    refused_checks_restart deaf default (later ∷ hour ∷ []) day busy
      (record { up = refl; below = omega arith; small = omega arith; refuses = λ t. refl })
      (omega arith) (omega arith) refl

-- The CA has been stopped.
abbrev halved : Daemon
halved = record busy { startup = record busy.startup { ca = Ca.new } }

halved-IsResting : IsResting halved
unfolding Ca.new
halved-IsResting = record {
  tracked = record { vm = λ e. cc; ca = λ e. refl };
  settled = refl;
  down = refl;
}

nothing_starts_at_rest_example :
    let (step, t) = run calm default 0 (loss ∷ quiet ∷ []) halved [] in
    (Ca.is_down step.0.ca.state ≡ true) × (children calm t ≡ children calm [])
nothing_starts_at_rest_example =
    nothing_starts_at_rest calm default 0 (loss ∷ quiet ∷ []) halved [] (refl, (refl, tt))
      halved-IsResting

-- The VM answers, and the CA is about to be started, when a client asks to stop everything.
abbrev dismissed : Env
dismissed = world (λ pid t. true) connected "stop_all"

abbrev halfway : Daemon
halfway = record halved { startup = record halved.startup { phase = ca_starting } }

halfway-IsTracked : IsTracked halfway.startup
unfolding Ca.new
halfway-IsTracked = record { vm = λ e. cc; ca = λ e. refl }

abbrev one_line : Stream
one_line = record { bytes = codes "{}\n"; fails = false }

stop_is_overridden_example :
    IsRunning (rest_of_round dismissed default 0 (some one_line) halfway []).0.ca
stop_is_overridden_example =
    stop_is_overridden dismissed default 0 (some one_line) halfway [] halfway-IsTracked refl
      (unfold Ca.start Ca.launch spawn_with_log in λ ca t. refl)
