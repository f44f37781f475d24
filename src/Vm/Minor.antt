-- ===== src/Vm/Minor.antt =====
-- src/vm.rs: the operations that only look.
use teeproxyd.Base.{ℕ, refl, [], ◌∷◌, List, String, Option, none, some, arith}
use teeproxyd.System.{Env, Trace, PathBuf, clock, kill, exists, metadata, join}
use teeproxyd.Config.{Config}
use teeproxyd.Process.{is_alive}
use teeproxyd.Process.Minor.{Minor, still, call, Minor-trans}
use teeproxyd.Vm.{
  VmManager, dead_child, is_dead, reset_since, maybe_reset_crash_count, all_exist, all_large,
  validate_images, required, large,
}

module _ (env : Env) where
  dead_child-Minor : (child : Option ℕ) (t : Trace) → Minor t (dead_child env child t).1
  unfolding is_alive
  dead_child-Minor none t = still
  dead_child-Minor (some pid) t = call still (kill pid none) refl

  pub is_dead-Minor : (vm : VmManager) (t : Trace) → Minor t (is_dead env vm t).1
  unfolding is_dead
  is_dead-Minor vm t =
      let unasked : Minor t t = still in ground (arith, unasked, dead_child-Minor vm.child_pid t)

  reset_since-Minor :
      (since : Option ℕ) (vm : VmManager) (t : Trace) → Minor t (reset_since env since vm t).1
  reset_since-Minor none vm t = still
  reset_since-Minor (some since) vm t = call still clock refl

  pub maybe_reset_crash_count-Minor :
      (vm : VmManager) (t : Trace) → Minor t (maybe_reset_crash_count env vm t).1
  unfolding maybe_reset_crash_count
  maybe_reset_crash_count-Minor vm t = reset_since-Minor vm.ready_since vm t

  all_exist-Minor :
      (dir : PathBuf) (names : List String) (t : Trace) → Minor t (all_exist env dir names t).1
  unfolding all_exist
  all_exist-Minor dir [] t = still
  all_exist-Minor dir (name ∷ names) t =
      let asked : Minor t (exists (join dir name) ∷ t) = call still (exists (join dir name)) refl in
      let rest = Minor-trans asked (all_exist-Minor dir names (exists (join dir name) ∷ t)) in
      ground (arith, asked, rest)

  all_large-Minor :
      (dir : PathBuf) (names : List String) (t : Trace) → Minor t (all_large env dir names t).1
  unfolding all_large
  all_large-Minor dir [] t = still
  all_large-Minor dir (name ∷ names) t =
      let u = metadata (join dir name) ∷ t in
      let asked : Minor t u = call still (metadata (join dir name)) refl in
      let rest = Minor-trans asked (all_large-Minor dir names u) in ground (arith, asked, rest)

module _ (env : Env) (config : Config) where
  pub validate_images-Minor : (t : Trace) → Minor t (validate_images env config t).1
  unfolding validate_images
  validate_images-Minor t =
      let u = (all_exist env config.image_dir required t).1 in
      let found = all_exist-Minor env config.image_dir required t in
      let measured = Minor-trans found (all_large-Minor env config.image_dir large u) in
      ground (arith, found, measured)
