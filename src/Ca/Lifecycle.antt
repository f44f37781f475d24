-- ===== src/Ca/Lifecycle.antt =====
-- src/ca.rs: what the operations of the CA manager keep and establish.
use teeproxyd.Base.{◌∷◌, ℕ, ◌⊎◌, is_some, ◌≡◌, refl, true, false, none, arith}
use teeproxyd.Process.Logs.{children, child_of, spawn_with_log-children, CreatedIs}
use teeproxyd.System.{exists, Env, Trace, ok, is_ok}
use teeproxyd.Config.{Config}
use teeproxyd.Ca.{
  launch, CaManager, error, running, starting, ready, new, set_state, is_down, mark_dead, is_dead,
  maybe_reset_crash_count, start, stop,
}

-- A manager that is Idle or in Error holds no child.
abbrev pub DownIsEmpty : CaManager → Type 0
DownIsEmpty ca = is_down ca.state ≡ true → ca.child_pid ≡ none

pub new-DownIsEmpty : DownIsEmpty new
unfolding new
new-DownIsEmpty h = refl

module _ (env : Env) (t : Trace) where
  pub set_ready-DownIsEmpty : (ca : CaManager) → DownIsEmpty (set_state env ready ca t).0
  unfolding set_state
  set_ready-DownIsEmpty ca h = cc

  pub set_error-mark_dead-DownIsEmpty :
      (ca : CaManager) → DownIsEmpty (set_state env error (mark_dead ca) t).0
  unfolding set_state mark_dead
  set_error-mark_dead-DownIsEmpty ca h = refl

  pub reset-DownIsEmpty :
      (ca : CaManager) → DownIsEmpty ca → DownIsEmpty (maybe_reset_crash_count env ca t).0
  unfolding maybe_reset_crash_count
  reset-DownIsEmpty ca v h = ground arith

  -- A manager that holds no child while it is down is never found dead, and nothing is asked.
  pub is_dead_of_DownIsEmpty : (ca : CaManager) → DownIsEmpty ca → is_dead env ca t ≡ (false, t)
  unfolding is_dead
  is_dead_of_DownIsEmpty ca v = ground arith

pub mark_dead-DownIsEmpty : (ca : CaManager) → DownIsEmpty (mark_dead ca)
unfolding mark_dead
mark_dead-DownIsEmpty ca h = refl

module _ (env : Env) (config : Config) (cid : ℕ) (ca : CaManager) (t : Trace) where
  pub start-DownIsEmpty : DownIsEmpty ca → DownIsEmpty (start env config cid ca t).0.0
  unfolding start
  start-DownIsEmpty v h = ground arith

  -- `start` keeps the crash count and the time of readiness. If it succeeds, the manager is Running
  -- and holds a child; if it fails, it holds the child that it held, if any, and is in the state that
  -- it was in, or left in Starting.
  pub ca_start_outcome :
      let r = (start env config cid ca t).0 in
      (r.0.crash_count ≡ ca.crash_count)
      × (r.0.ready_since ≡ ca.ready_since)
      × (((r.1 ≡ ok tt) × (r.0.state ≡ running) × (is_some r.0.child_pid ≡ true))
          ⊎ ((is_ok r.1 ≡ false)
              × (r.0.child_pid ≡ ca.child_pid)
              × ((r.0.state ≡ ca.state) ⊎ (r.0.state ≡ starting))))
  unfolding start
  ca_start_outcome = ground arith

module _ (env : Env) (config : Config) (ca : CaManager) (t : Trace) where
  pub stop-DownIsEmpty : DownIsEmpty (stop env config ca t).0
  unfolding stop
  stop-DownIsEmpty h = refl

module _ (env : Env) (config : Config) where
  pub launch-children :
      (cid : ℕ) (t : Trace)
      → let (child, t') = launch env config cid t in
        children env t' ≡ child_of child (children env t)
  unfolding launch
  launch-children cid t = spawn_with_log-children env _ _ _ _ _ t

  -- `start` returns `Ok` exactly when it has created a child, and then it is the only new child and
  -- the one that the manager holds; if it returns an error, no child was created.
  pub ca_start_tracks :
      (cid : ℕ) (ca : CaManager) (t : Trace)
      → let (r, t') = start env config cid ca t in
        CreatedIs r.1 r.0.child_pid (children env t) (children env t')
  unfolding start children
  ca_start_tracks cid ca t = ground (arith, launch-children cid (exists config.ca_binary ∷ t))
