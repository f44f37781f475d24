-- ===== src/Vm/Orphans.antt =====
-- src/vm.rs: what `start` does to a child that is still running, and `stop` to later news of one.
use teeproxyd.Base.{ℕ, ◌≡◌, ◌≢◌, refl, false, List, [], ◌∷◌, String, arith, some}
use teeproxyd.System.{Env, Trace, PathBuf, join, exists, metadata}
use teeproxyd.Config.{Config}
use teeproxyd.Process.{spawn_with_log}
use teeproxyd.Process.Kill.{sent}
use teeproxyd.Process.Logs.{children, holds_created}
use teeproxyd.Vm.Lifecycle.{vm_start_tracks}
use teeproxyd.Vm.{
  VmManager, all_exist, all_large, required, large, validate_images, launch, start, owns_pid,
}

module _ (env : Env) (pid : ℕ) where
  all_exist-sent :
      (dir : PathBuf) (names : List String) (t : Trace)
      → sent pid (all_exist env dir names t).1 ≡ sent pid t
  unfolding sent all_exist
  all_exist-sent dir [] t = refl
  all_exist-sent dir (name ∷ names) t =
      ground (arith, all_exist-sent dir names (exists (join dir name) ∷ t))

  all_large-sent :
      (dir : PathBuf) (names : List String) (t : Trace)
      → sent pid (all_large env dir names t).1 ≡ sent pid t
  unfolding sent all_large
  all_large-sent dir [] t = refl
  all_large-sent dir (name ∷ names) t =
      ground (arith, all_large-sent dir names (metadata (join dir name) ∷ t))

module _ (env : Env) (config : Config) (pid : ℕ) where
  launch-sent : (t : Trace) → sent pid (launch env config t).1 ≡ sent pid t
  unfolding sent launch spawn_with_log
  launch-sent t = ground arith

  start-sent : (vm : VmManager) (t : Trace) → sent pid (start env config vm t).1 ≡ sent pid t
  unfolding start validate_images
  start-sent vm t = ground (
    arith,
    all_exist-sent env pid config.image_dir required t,
    all_large-sent env pid config.image_dir large (all_exist env config.image_dir required t).1,
    launch-sent (validate_images env config t).1,
  )

  -- A `start` while a child is running, that creates a child with another process id, signals
  -- the old child no more than before and lets go of it: the manager holds the child that was
  -- created and does not own the old one.
  pub start_forgets_child :
      (vm : VmManager) (new_pid : ℕ) (t : Trace)
      → vm.child_pid ≡ some pid
      → children env (start env config vm t).1 ≡ new_pid ∷ children env t
      → pid ≢ new_pid
      → let (r, t') = start env config vm t in
        (r.0.child_pid ≡ some new_pid) × (owns_pid r.0 pid ≡ false) × (sent pid t' ≡ sent pid t)
  unfolding owns_pid
  start_forgets_child vm new_pid t held child other =
      let now_held =
        holds_created _ _ new_pid (children env t) _ (vm_start_tracks env config vm t) child in
      (now_held, ground arith, start-sent vm t)
