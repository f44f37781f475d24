-- ===== src/Ca/Edges.antt =====
-- src/ca.rs: each operation of the manager follows the life of a child.
use teeproxyd.Base.{ℕ, ◌≤◌, ◌≡◌, refl, true, Option, none, some, arith, here, next}
use teeproxyd.System.{Env, Trace, Result, ok, err}
use teeproxyd.Config.{Config}
use teeproxyd.Life.{
  Life, Stage, LifePath, IsSound, unborn-IsSound, refused, launched_as, answered_at, died, given_up,
  stopped, proved_stable,
}
use teeproxyd.Ca.{
  CaManager, CaState, new, stopping, idle, starting, running, ready, error, set_state, mark_dead,
  maybe_reset_crash_count, reset_since, owns_pid, start, launched, stop,
}

abbrev ca_stage : CaState → Stage
ca_stage idle = Stage.idle
ca_stage starting = Stage.starting
ca_stage running = Stage.launched
ca_stage ready = Stage.ready
ca_stage stopping = Stage.stopping
ca_stage error = Stage.error

-- The life that the manager sees.
abbrev pub ca_life : CaManager → Life
ca_life ca = record {
  stage = ca_stage ca.state;
  child = ca.child_pid;
  crashes = ca.crash_count;
  since = ca.ready_since;
}

pub mark_dead-LifePath :
    (ca : CaManager) (pid : ℕ)
    → owns_pid ca pid ≡ true
    → LifePath (ca_life ca) (ca_life (mark_dead ca))
unfolding owns_pid mark_dead
mark_dead-LifePath ca pid h = next here (died pid (ground arith))

module _ (env : Env) (config : Config) where
  launched-LifePath :
      (ca : CaManager) (r : Result ℕ)
      → LifePath (ca_life ca) (ca_life (launched env config (record ca { state = starting }) r).0)
  launched-LifePath ca (err e) = next here refused
  launched-LifePath ca (ok pid) = next here (launched_as pid)

  pub start-LifePath :
      (cid : ℕ) (ca : CaManager) (t : Trace)
      → LifePath (ca_life ca) (ca_life (start env config cid ca t).0.0)
  unfolding start
  start-LifePath cid ca t = grind (arith, launched-LifePath, here)

  pub stop-LifePath :
      (ca : CaManager) (t : Trace) → LifePath (ca_life ca) (ca_life (stop env config ca t).0)
  unfolding stop
  stop-LifePath ca t = next here stopped

module _ (env : Env) where
  pub set_ready-LifePath :
      (ca : CaManager) (t : Trace) → LifePath (ca_life ca) (ca_life (set_state env ready ca t).0)
  unfolding set_state
  set_ready-LifePath ca t = next here (answered_at (env.now_at t))

  pub give_up-LifePath :
      (ca : CaManager) (t : Trace)
      → 5 ≤ ca.crash_count
      → ca.child_pid ≡ none
      → ca.ready_since ≡ none
      → LifePath (ca_life ca) (ca_life (set_state env error ca t).0)
  unfolding set_state
  give_up-LifePath ca t spent gone unready = next here (given_up spent gone unready)

  reset_since-LifePath :
      (since : Option ℕ) (ca : CaManager) (t : Trace)
      → ca.ready_since ≡ since
      → LifePath (ca_life ca) (ca_life (reset_since env since ca t).0)
  reset_since-LifePath none ca t e = here
  reset_since-LifePath (some since) ca t e =
      let reset : LifePath (ca_life ca) (ca_life (record ca { crash_count = 0 })) =
        next here (proved_stable since e) in
      let kept : LifePath (ca_life ca) (ca_life ca) = here in ground arith

  pub maybe_reset_crash_count-LifePath :
      (ca : CaManager) (t : Trace)
      → LifePath (ca_life ca) (ca_life (maybe_reset_crash_count env ca t).0)
  unfolding maybe_reset_crash_count
  maybe_reset_crash_count-LifePath ca t = reset_since-LifePath ca.ready_since ca t refl

pub new-IsSound : IsSound (ca_life new)
unfolding new
new-IsSound = unborn-IsSound
