-- ===== src/Examples/Boot.antt =====
-- A startup that succeeds, the socket that the daemon listens on, and the shutdown.
use teeproxyd.Base.{parse_i32, parse_digits, List, true, some, pos, ◌≡◌, refl, [], ◌∷◌, arith}
use teeproxyd.System.{Signal, sigkill, Env, join, bind, remove_file, Trace, sleep}
use teeproxyd.Config.{default}
use teeproxyd.Process.{spawn_with_log}
use teeproxyd.Vm
use teeproxyd.Vm.{VmState, validate_images, all_exist, all_large, launch, probe_vsock}
use teeproxyd.Ca
use teeproxyd.Ca.{CaState, is_port_ready}
use teeproxyd.Startup.{Startup, vm_starting, complete}
use teeproxyd.Startup.Phases.{IsTracked}
use teeproxyd.Startup.Completion.{Cooperates}
use teeproxyd.Daemon.Socket.{acquire_listener, listen_on, inherited, inherited_fd}
use teeproxyd.Health
use teeproxyd.Process.Kill.{sent}
use teeproxyd.Process.Others.{Stopped}
use teeproxyd.Daemon.{Daemon, shut_down}
use teeproxyd.Daemon.Farewell.{shut_down_signals}
use teeproxyd.Examples.World.{calm, calm-IsClock}

pub calm-Cooperates : Cooperates calm default
unfolding Vm.start validate_images all_exist all_large launch spawn_with_log Ca.start Ca.launch
    probe_vsock is_port_ready
calm-Cooperates = record {
  vm_starts = λ vm t. refl;
  ca_starts = λ ca t. refl;
  responsive = λ t. refl;
  accepting = λ t. refl;
}

-- The daemon after `boot` with `auto_start`.
abbrev fresh : Startup
fresh = record { phase = vm_starting; vm = Vm.new; ca = Ca.new }

fresh-IsTracked : IsTracked fresh
unfolding Vm.new Ca.new
fresh-IsTracked = record { vm = λ e. refl; ca = λ e. refl }

-- Twenty seconds later.
abbrev pub later : Trace
later = sleep 20000 ∷ []

-- Init passes descriptor 12 on.
abbrev from_init : Env
from_init = record calm { var = λ name. some "12" }

inherited_socket_runs : acquire_listener from_init default [] ≡ (some (inherited (pos 12)), [])
unfolding acquire_listener listen_on inherited_fd parse_i32 parse_digits
inherited_socket_runs = refl

-- Without it, a stale socket file is removed and a new socket bound.
acquire_listener_runs :
    (acquire_listener calm default []).1
    ≡ bind (join default.data_dir "teeproxyd.sock")
      ∷ remove_file (join default.data_dir "teeproxyd.sock")
      ∷ []
unfolding acquire_listener inherited_fd
acquire_listener_runs = refl

-- A daemon with the children 5 and 9, which both run.
abbrev pub busy : Daemon
busy = record {
  startup = record {
    phase = complete;
    vm = record Vm.new { state = VmState.ready; child_pid = some 5 };
    ca = record Ca.new { state = CaState.running; child_pid = some 9 };
  };
  health = Health.new 19030 3;
  last_health = 0;
  sig_pipe_fd = pos 4;
  pipe = [];
}

shut_down_signals_example :
    let t' = (shut_down calm default busy []).1 in
    Stopped true [] (sent 9 t')
    × ((before_last : List Signal) × (sent 5 t' ≡ sigkill ∷ before_last)
        × Stopped true [] before_last)
unfolding sent
shut_down_signals_example =
    shut_down_signals calm default 9 5 busy [] calm-IsClock refl refl (omega arith)
