-- ===== src/Daemon/Supervision.antt =====
-- src/main.rs: in whatever the daemon does, each manager follows its life, and the history bears it out.
use teeproxyd.Base.{ℕ, Bool, List}
use teeproxyd.System.{Env, Trace}
use teeproxyd.Config.{Config}
use teeproxyd.Vm.Edges.{vm_life}
use teeproxyd.Ca.Edges.{ca_life}
use teeproxyd.Acts.Stories.{Story}
use teeproxyd.Acts.Chronicle.{Acts-Tells}
use teeproxyd.Daemon.Acts.{MayAllDie, run-reported}
use teeproxyd.Daemon.{Daemon, Wakeup, run}

module _ (env : Env) (config : Config) (mortal : ℕ → Bool) where
  -- Whatever wakes the daemon and whatever its clients send, what a run does to each of the two
  -- managers and to the history is a sequence of the steps of one life, which is the same for the VM
  -- and the CA, each borne out by the history: a start that is refused and creates no child; a launch,
  -- of the child that was created last; an answer, at the time of the clock; the death of the child
  -- that is held, which counts a crash, takes no call, and happens only to a process whose death the
  -- wakeups hold; the giving up after five crashes; a stop, in which a child that is held is asked for
  -- and then sent SIGTERM or not found; the reset of the crash count, 60 s of the clock after the
  -- answer; and calls that leave this life as it is. `mortal` is any set with the process ids of all
  -- the deaths that the wakeups hold.
  pub run_refines_lives :
      (started_at : ℕ) (ws : List Wakeup) (d : Daemon) (t : Trace)
      → MayAllDie mortal ws
      → let (step, u) = run env config started_at ws d t in
        Story env mortal (vm_life d.vm, t) (vm_life step.0.vm, u)
        × Story env mortal (ca_life d.ca, t) (ca_life step.0.ca, u)
  run_refines_lives started_at ws d t all =
      let told =
        Acts-Tells env config mortal (run-reported env config mortal started_at ws d t all) in
      (told.vm, told.ca)
