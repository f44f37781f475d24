-- ===== src/Vm/Lifecycle.antt =====
-- src/vm.rs: what the operations of the VM manager keep and establish.
use teeproxyd.Base.{◌⊎◌, is_some, ◌≡◌, refl, true, false, none, arith}
use teeproxyd.Process.Logs.{CreatedIs, children, child_of, spawn_with_log-children}
use teeproxyd.System.{Env, Trace, ok, is_ok}
use teeproxyd.Config.{Config}
use teeproxyd.Process.Own.{Minor-children}
use teeproxyd.Vm
use teeproxyd.Vm.{
  all_exist, all_large, validate_images, launch, required, large, VmManager, error, booting,
  starting, ready, new, set_state, is_down, mark_dead, is_dead, maybe_reset_crash_count, start,
  stop,
}

-- A manager that is Idle or in Error holds no child.
abbrev pub DownIsEmpty : VmManager → Type 0
DownIsEmpty vm = is_down vm.state ≡ true → vm.child_pid ≡ none

pub new-DownIsEmpty : DownIsEmpty new
unfolding new
new-DownIsEmpty h = refl

module _ (env : Env) (t : Trace) where
  pub set_ready-DownIsEmpty : (vm : VmManager) → DownIsEmpty (set_state env ready vm t).0
  unfolding set_state
  set_ready-DownIsEmpty vm h = cc

  pub set_error-mark_dead-DownIsEmpty :
      (vm : VmManager) → DownIsEmpty (set_state env error (mark_dead vm) t).0
  unfolding set_state mark_dead
  set_error-mark_dead-DownIsEmpty vm h = refl

  pub reset-DownIsEmpty :
      (vm : VmManager) → DownIsEmpty vm → DownIsEmpty (maybe_reset_crash_count env vm t).0
  unfolding maybe_reset_crash_count
  reset-DownIsEmpty vm v h = ground arith

  -- A manager that holds no child while it is down is never found dead, and nothing is asked.
  pub is_dead_of_DownIsEmpty : (vm : VmManager) → DownIsEmpty vm → is_dead env vm t ≡ (false, t)
  unfolding is_dead
  is_dead_of_DownIsEmpty vm v = ground arith

pub mark_dead-DownIsEmpty : (vm : VmManager) → DownIsEmpty (mark_dead vm)
unfolding mark_dead
mark_dead-DownIsEmpty vm h = refl

module _ (env : Env) (config : Config) (vm : VmManager) (t : Trace) where
  pub start-DownIsEmpty : DownIsEmpty vm → DownIsEmpty (start env config vm t).0.0
  unfolding start
  start-DownIsEmpty v h = ground arith

  -- `start` keeps the crash count and the time of readiness. If it succeeds, the manager is Booting
  -- and holds a child; if it fails, it holds the child that it held, if any, and is in the state that
  -- it was in, or left in Starting.
  pub vm_start_outcome :
      let r = (start env config vm t).0 in
      (r.0.crash_count ≡ vm.crash_count)
      × (r.0.ready_since ≡ vm.ready_since)
      × (((r.1 ≡ ok tt) × (r.0.state ≡ booting) × (is_some r.0.child_pid ≡ true))
          ⊎ ((is_ok r.1 ≡ false)
              × (r.0.child_pid ≡ vm.child_pid)
              × ((r.0.state ≡ vm.state) ⊎ (r.0.state ≡ starting))))
  unfolding start
  vm_start_outcome = ground arith

  pub stop-DownIsEmpty : DownIsEmpty (stop env config vm t).0
  unfolding stop
  stop-DownIsEmpty h = refl

module _ (env : Env) (config : Config) where
  pub launch-children :
      (t : Trace)
      → let (child, t') = launch env config t in children env t' ≡ child_of child (children env t)
  unfolding launch
  launch-children t = spawn_with_log-children env _ _ _ _ _ t

  -- `start` returns `Ok` exactly when it has created a child, and then it is the only new child and
  -- the one that the manager holds; if it returns an error, no child was created.
  pub vm_start_tracks :
      (vm : VmManager) (t : Trace)
      → let (r, t') = start env config vm t in
        CreatedIs r.1 r.0.child_pid (children env t) (children env t')
  unfolding start
  vm_start_tracks vm t = ground (
    arith,
    Minor-children env (Vm.Minor.validate_images-Minor env config t),
    launch-children (validate_images env config t).1,
  )
