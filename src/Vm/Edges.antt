-- ===== src/Vm/Edges.antt =====
-- src/vm.rs: each operation of the manager follows the life of a child.
use teeproxyd.Base.{ℕ, ◌≤◌, ◌≡◌, refl, true, Option, none, some, arith, here, next}
use teeproxyd.System.{Env, Trace, Result, ok, err}
use teeproxyd.Config.{Config}
use teeproxyd.Life.{
  Life, Stage, LifePath, IsSound, unborn-IsSound, refused, launched_as, answered_at, died, given_up,
  stopped, proved_stable,
}
use teeproxyd.Vm.{
  VmManager, VmState, new, stopping, idle, starting, booting, ready, error, set_state, mark_dead,
  maybe_reset_crash_count, reset_since, owns_pid, start, launched, stop,
}

abbrev vm_stage : VmState → Stage
vm_stage idle = Stage.idle
vm_stage starting = Stage.starting
vm_stage booting = Stage.launched
vm_stage ready = Stage.ready
vm_stage stopping = Stage.stopping
vm_stage error = Stage.error

-- The life that the manager sees.
abbrev pub vm_life : VmManager → Life
vm_life vm = record {
  stage = vm_stage vm.state;
  child = vm.child_pid;
  crashes = vm.crash_count;
  since = vm.ready_since;
}

pub mark_dead-LifePath :
    (vm : VmManager) (pid : ℕ)
    → owns_pid vm pid ≡ true
    → LifePath (vm_life vm) (vm_life (mark_dead vm))
unfolding owns_pid mark_dead
mark_dead-LifePath vm pid h = next here (died pid (ground arith))

module _ (env : Env) (config : Config) where
  launched-LifePath :
      (vm : VmManager) (r : Result ℕ)
      → LifePath (vm_life vm) (vm_life (launched env config (record vm { state = starting }) r).0)
  launched-LifePath vm (err e) = next here refused
  launched-LifePath vm (ok pid) = next here (launched_as pid)

  pub start-LifePath :
      (vm : VmManager) (t : Trace) → LifePath (vm_life vm) (vm_life (start env config vm t).0.0)
  unfolding start
  start-LifePath vm t = grind (arith, launched-LifePath, here)

  pub stop-LifePath :
      (vm : VmManager) (t : Trace) → LifePath (vm_life vm) (vm_life (stop env config vm t).0)
  unfolding stop
  stop-LifePath vm t = next here stopped

module _ (env : Env) where
  pub set_ready-LifePath :
      (vm : VmManager) (t : Trace) → LifePath (vm_life vm) (vm_life (set_state env ready vm t).0)
  unfolding set_state
  set_ready-LifePath vm t = next here (answered_at (env.now_at t))

  pub give_up-LifePath :
      (vm : VmManager) (t : Trace)
      → 5 ≤ vm.crash_count
      → vm.child_pid ≡ none
      → vm.ready_since ≡ none
      → LifePath (vm_life vm) (vm_life (set_state env error vm t).0)
  unfolding set_state
  give_up-LifePath vm t spent gone unready = next here (given_up spent gone unready)

  reset_since-LifePath :
      (since : Option ℕ) (vm : VmManager) (t : Trace)
      → vm.ready_since ≡ since
      → LifePath (vm_life vm) (vm_life (reset_since env since vm t).0)
  reset_since-LifePath none vm t e = here
  reset_since-LifePath (some since) vm t e =
      let reset : LifePath (vm_life vm) (vm_life (record vm { crash_count = 0 })) =
        next here (proved_stable since e) in
      let kept : LifePath (vm_life vm) (vm_life vm) = here in ground arith

  pub maybe_reset_crash_count-LifePath :
      (vm : VmManager) (t : Trace)
      → LifePath (vm_life vm) (vm_life (maybe_reset_crash_count env vm t).0)
  unfolding maybe_reset_crash_count
  maybe_reset_crash_count-LifePath vm t = reset_since-LifePath vm.ready_since vm t refl

pub new-IsSound : IsSound (vm_life new)
unfolding new
new-IsSound = unborn-IsSound
