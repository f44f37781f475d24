-- ===== src/Examples/Start.antt =====
-- The daemon as it enters its main loop.
use teeproxyd.Base.{ℕ, pos, some, [], ◌∷◌, ◌≡◌, refl}
use teeproxyd.System.{
  Trace, sig_term, sig_int, sig_chld, make_pipe, set_handler, create_dir, bind, remove_file, join,
}
use teeproxyd.Config.{default}
use teeproxyd.Daemon.{Daemon, boot, enter_loop}
use teeproxyd.Daemon.Socket.{acquire_listener, listen_on, inherited_fd}
use teeproxyd.Daemon.Signals.{register, setup_signal_handler}
use teeproxyd.Daemon.Reach.{Reach, booted}
use teeproxyd.Examples.World.{calm}

-- The history before the main loop.
abbrev pub before_loop : Trace
before_loop =
    bind (join default.data_dir "teeproxyd.sock")
    ∷ remove_file (join default.data_dir "teeproxyd.sock")
    ∷ set_handler sig_chld
    ∷ set_handler sig_int
    ∷ set_handler sig_term
    ∷ make_pipe
    ∷ create_dir default.image_dir
    ∷ create_dir default.log_dir
    ∷ []

abbrev pub first : Daemon
first = (enter_loop calm default (pos 4) before_loop).0.0

abbrev pub start_time : ℕ
start_time = (enter_loop calm default (pos 4) before_loop).0.1

pub first-booted : (boot calm default []).0 ≡ some (first, start_time)
unfolding boot acquire_listener listen_on inherited_fd register setup_signal_handler
first-booted = refl

pub first-Reach : Reach calm default start_time first
first-Reach = booted [] first first-booted
