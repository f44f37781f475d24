-- ===== src/Ca/Growth.antt =====
-- src/ca.rs: a stop and a start only add to the history; what child a start leaves.
use teeproxyd.Base.{ℕ, ◌∷◌, ◌≡◌, ◌≢◌, Option, none, some, arith}
use teeproxyd.System.{Env, Trace, exists, ok}
use teeproxyd.Config.{Config}
use teeproxyd.Process.Growth.{
  Extends, same, more, Extends-trans, graceful_kill-Extends, spawn_with_log-Extends, IsNeverUsed,
  Extends-IsNeverUsed, spawn_with_log-ne,
}
use teeproxyd.Ca.{CaManager, start, stop, stop_child, launch}

module _ (env : Env) (config : Config) where
  stop_child-Extends : (child : Option ℕ) (t : Trace) → Extends t (stop_child env config child t).1
  unfolding stop_child
  stop_child-Extends none t = same
  stop_child-Extends (some pid) t = graceful_kill-Extends env pid config.shutdown_grace_secs t

  pub stop-Extends : (ca : CaManager) (t : Trace) → Extends t (stop env config ca t).1
  unfolding stop
  stop-Extends ca t = stop_child-Extends ca.child_pid t

  pub launch-Extends : (cid : ℕ) (t : Trace) → Extends t (launch env config cid t).1
  unfolding launch
  launch-Extends cid t = spawn_with_log-Extends env _ _ _ _ _ t

  pub start-Extends :
      (cid : ℕ) (ca : CaManager) (t : Trace) → Extends t (start env config cid ca t).1
  unfolding start
  start-Extends cid ca t =
      let found : Extends t (exists config.ca_binary ∷ t) = more same (exists config.ca_binary) in
      let launched = Extends-trans found (launch-Extends cid (exists config.ca_binary ∷ t)) in
      ground (arith, found, launched)

  launch-ne :
      (cid : ℕ) (t : Trace) (pid : ℕ) → IsNeverUsed env t pid → (launch env config cid t).0 ≢ ok pid
  unfolding launch
  launch-ne cid t pid v = spawn_with_log-ne env _ _ _ _ _ t pid v

  -- A manager without a child does not get one whose pid is never used again.
  pub start-ne :
      (cid : ℕ) (ca : CaManager) (t : Trace) (pid : ℕ)
      → IsNeverUsed env t pid
      → ca.child_pid ≡ none
      → (start env config cid ca t).0.0.child_pid ≢ some pid
  unfolding start
  start-ne cid ca t pid v e =
      let u = exists config.ca_binary ∷ t in
      let found : Extends t u = more same (exists config.ca_binary) in
      ground (arith, launch-ne cid u pid (Extends-IsNeverUsed env pid found v))
