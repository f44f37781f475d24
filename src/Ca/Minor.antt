-- ===== src/Ca/Minor.antt =====
-- src/ca.rs: the operations that only look.
use teeproxyd.Base.{ℕ, refl, Option, none, some, arith}
use teeproxyd.System.{Env, Trace, clock, kill}
use teeproxyd.Process.{is_alive}
use teeproxyd.Process.Minor.{Minor, still, call}
use teeproxyd.Ca.{CaManager, dead_child, is_dead, reset_since, maybe_reset_crash_count}

module _ (env : Env) where
  dead_child-Minor : (child : Option ℕ) (t : Trace) → Minor t (dead_child env child t).1
  unfolding is_alive
  dead_child-Minor none t = still
  dead_child-Minor (some pid) t = call still (kill pid none) refl

  pub is_dead-Minor : (ca : CaManager) (t : Trace) → Minor t (is_dead env ca t).1
  unfolding is_dead
  is_dead-Minor ca t =
      let unasked : Minor t t = still in ground (arith, unasked, dead_child-Minor ca.child_pid t)

  reset_since-Minor :
      (since : Option ℕ) (ca : CaManager) (t : Trace) → Minor t (reset_since env since ca t).1
  reset_since-Minor none ca t = still
  reset_since-Minor (some since) ca t = call still clock refl

  pub maybe_reset_crash_count-Minor :
      (ca : CaManager) (t : Trace) → Minor t (maybe_reset_crash_count env ca t).1
  unfolding maybe_reset_crash_count
  maybe_reset_crash_count-Minor ca t = reset_since-Minor ca.ready_since ca t
