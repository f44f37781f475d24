-- ===== src/Ca/Own.antt =====
-- src/ca.rs: a start and a stop signal no process but the child that is held.
use teeproxyd.Base.{ℕ, ◌≡◌, refl, ◌∷◌, Option, none, some, arith, Bool-cases, inl, inr}
use teeproxyd.System.{Env, Trace, exists, Result, ok, err}
use teeproxyd.Config.{Config}
use teeproxyd.Process.Logs.{children, child_of, spawn_with_log-children}
use teeproxyd.Process.Own.{
  IsClean, IsClean-trans, IsClean-deeds, IsClean-child, Owns, IsClean-Owns, deeds, strays,
  graceful_kill-deeds, spawn_with_log-strays,
}
use teeproxyd.Ca.{CaManager, starting, start, launch, launched, stop, stop_child}

module _ (env : Env) (config : Config) where
  launch-IsClean : (cid : ℕ) (t : Trace) → IsClean env t (launch env config cid t).1
  unfolding launch
  launch-IsClean cid t =
      IsClean-child env t _ _ (spawn_with_log-children env _ _ _ _ _ t)
        (spawn_with_log-strays env _ _ _ _ _ t)

  launched-Owns :
      (ca : CaManager) (t t' : Trace) (child : Result ℕ)
      → children env t' ≡ child_of child (children env t)
      → Owns env t' ca.child_pid
      → Owns env t' (launched env config ca child).0.child_pid
  launched-Owns ca t t' (ok pid) e v = ground (arith, e)
  launched-Owns ca t t' (err why) e v = v

  pub start-Own :
      (cid : ℕ) (ca : CaManager) (t : Trace)
      → Owns env t ca.child_pid
      → let (r, t') = start env config cid ca t in IsClean env t t' × Owns env t' r.0.child_pid
  unfolding start launch children strays
  start-Own cid ca t v =
      let u = exists config.ca_binary ∷ t in
      let asked : IsClean env t u = IsClean-deeds env t u refl in
      let (child, t') = launch env config cid u in
      let started = IsClean-trans asked (launch-IsClean cid u) in
      let kept = IsClean-Owns ca.child_pid started v in
      elim (Bool-cases (env.exists_at config.ca_binary t)) [
        | inl found ↦ rw found (
          started,
          launched-Owns (record ca { state = starting }) u t' child
              (spawn_with_log-children env _ _ _ _ _ u) kept,
        )
        | inr missing ↦ rw missing (asked, IsClean-Owns ca.child_pid asked v)
      ]

  stop_child-deeds :
      (held : Option ℕ) (t : Trace)
      → Owns env t held
      → deeds env (stop_child env config held t).1 ≡ deeds env t
  unfolding stop_child
  stop_child-deeds none t v = refl
  stop_child-deeds (some pid) t v = graceful_kill-deeds env pid config.shutdown_grace_secs t v

  pub stop-Own :
      (ca : CaManager) (t : Trace)
      → Owns env t ca.child_pid
      → IsClean env t (stop env config ca t).1
  unfolding stop
  stop-Own ca t v = IsClean-deeds env t _ (stop_child-deeds ca.child_pid t v)
