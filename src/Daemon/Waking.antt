-- ===== src/Daemon/Waking.antt =====
-- src/main.rs: a round of the main loop up to the test for a shutdown signal.
use teeproxyd.Base.{ℕ, List, ◌∷◌, contains}
use teeproxyd.System.{Env, Trace, poll, clock}
use teeproxyd.Config.{Config}
use teeproxyd.Daemon.Signals.{deliver, chld_byte}
use teeproxyd.Daemon.Poll.{poll_timeout}
use teeproxyd.Daemon.{Daemon, Wakeup, reap, read_pipe}

module _ (env : Env) (config : Config) (started_at : ℕ) (w : Wakeup) (d : Daemon) (t : Trace) where
  -- What the round reads from the pipe, and what it leaves there.
  abbrev pub drained : List ℕ × List ℕ
  drained = read_pipe w.pipe_ready (deliver d.sig_pipe_fd w.signals d.pipe)

  -- What a round does before the test for a shutdown signal.
  abbrev pub waking : Daemon × Trace
  waking =
      reap env config (contains chld_byte drained.0) w.statuses (record d { pipe = drained.1 })
        (poll (poll_timeout config d.phase d.last_health (env.now_at t)) ∷ clock ∷ t)
