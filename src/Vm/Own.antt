-- ===== src/Vm/Own.antt =====
-- src/vm.rs: a start and a stop signal no process but the child that is held.
use teeproxyd.Base.{ℕ, ◌≡◌, refl, ap, ◌∙◌, List, Option, none, some, arith, contains, inl, inr}
use teeproxyd.System.{Env, Trace, Result, ok, err, Result-cases, sigkill}
use teeproxyd.Config.{Config}
use teeproxyd.Process
use teeproxyd.Process.Logs.{children, child_of, spawn_with_log-children}
use teeproxyd.Vm
use teeproxyd.Process.Own.{
  Minor-deeds, IsClean, IsClean-trans, IsClean-deeds, IsClean-child, Owns, IsClean-Owns, deeds,
  strays, IsOwn, graceful_kill-deeds, kill_tree-deeds, spawn_with_log-strays,
}
use teeproxyd.Vm.{
  VmManager, starting, all_exist, all_large, validate_images, required, large, start, launch,
  launched, stop, stop_child,
}

module _ (env : Env) (config : Config) where
  launch-IsClean : (t : Trace) → IsClean env t (launch env config t).1
  unfolding launch
  launch-IsClean t =
      IsClean-child env t _ _ (spawn_with_log-children env _ _ _ _ _ t)
        (spawn_with_log-strays env _ _ _ _ _ t)

  launched-Owns :
      (vm : VmManager) (t t' : Trace) (child : Result ℕ)
      → children env t' ≡ child_of child (children env t)
      → Owns env t' vm.child_pid
      → Owns env t' (launched env config vm child).0.child_pid
  launched-Owns vm t t' (ok pid) e v = ground (arith, e)
  launched-Owns vm t t' (err why) e v = v

  pub start-Own :
      (vm : VmManager) (t : Trace)
      → Owns env t vm.child_pid
      → let (r, t') = start env config vm t in IsClean env t t' × Owns env t' r.0.child_pid
  unfolding start launch validate_images all_exist
  start-Own vm t v =
      let (valid, u) = validate_images env config t in
      let checked =
        IsClean-deeds env t u (Minor-deeds env (Vm.Minor.validate_images-Minor env config t)) in
      let (child, t') = launch env config u in
      let started = IsClean-trans checked (launch-IsClean u) in
      let kept = IsClean-Owns vm.child_pid started v in
      elim (Result-cases valid) [
        | inl (_, e) ↦ rw e (
          started,
          launched-Owns (record vm { state = starting }) u t' child
              (spawn_with_log-children env _ _ _ _ _ u) kept,
        )
        | inr (why, e) ↦ rw e (checked, IsClean-Owns vm.child_pid checked v)
      ]

  stop_child-deeds :
      (held : Option ℕ) (t : Trace)
      → Owns env t held
      → deeds env (stop_child env config held t).1 ≡ deeds env t
  unfolding stop_child children strays
  stop_child-deeds none t v = refl
  stop_child-deeds (some pid) t v =
      let u = (Process.graceful_kill env pid config.shutdown_grace_secs t).1 in
      let killed = graceful_kill-deeds env pid config.shutdown_grace_secs t v in
      let own : IsOwn env u pid = ap (λ (p : List ℕ × List ℕ). contains pid p.0) killed ∙ v in
      kill_tree-deeds env pid sigkill u own ∙ killed

  pub stop-Own :
      (vm : VmManager) (t : Trace)
      → Owns env t vm.child_pid
      → IsClean env t (stop env config vm t).1
  unfolding stop
  stop-Own vm t v = IsClean-deeds env t _ (stop_child-deeds vm.child_pid t v)
