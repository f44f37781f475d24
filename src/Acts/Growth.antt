-- ===== src/Acts/Growth.antt =====
-- src/vm.rs and src/ca.rs: every act of the daemon only adds to the history.
use teeproxyd.Base.{Bool, ℕ, Option, none, some, arith, Star-keeps}
use teeproxyd.System.{Env, Trace, clock}
use teeproxyd.Config.{Config}
use teeproxyd.Process
use teeproxyd.Process.Growth.{
  Extends, same, more, Extends-trans, Minor-Extends, graceful_kill-Extends, spawn_with_log-Extends,
}
use teeproxyd.Vm
use teeproxyd.Vm.{VmManager, validate_images}
use teeproxyd.Ca
use teeproxyd.Acts.{
  State, Act, Acts, calls, vm_starts, ca_starts, vm_stops, ca_stops, vm_answers, ca_answers,
  vm_dies, ca_dies, vm_gives_up, ca_gives_up, vm_resets, ca_resets,
}

module _ (env : Env) (config : Config) where
  pub vm_launch-Extends : (t : Trace) → Extends t (Vm.launch env config t).1
  unfolding Vm.launch
  vm_launch-Extends t = spawn_with_log-Extends env _ _ _ _ _ t

  pub vm_start-Extends : (vm : VmManager) (t : Trace) → Extends t (Vm.start env config vm t).1
  unfolding Vm.start
  vm_start-Extends vm t =
      let u = (validate_images env config t).1 in
      let checked = Minor-Extends (Vm.Minor.validate_images-Minor env config t) in
      let started = Extends-trans checked (vm_launch-Extends u) in ground (arith, checked, started)

  pub vm_stop_child-Extends :
      (child : Option ℕ) (t : Trace) → Extends t (Vm.stop_child env config child t).1
  unfolding Vm.stop_child Process.kill_tree
  vm_stop_child-Extends none t = same
  vm_stop_child-Extends (some pid) t =
      more (more (more (graceful_kill-Extends env pid config.shutdown_grace_secs t) _) _) _

  pub Act-Extends :
      {mortal : ℕ → Bool} {launching careless : Bool} (a b : State)
      → Act env config mortal launching careless a b
      → Extends a.1 b.1
  unfolding Vm.set_state Ca.set_state Vm.stop
  Act-Extends (m, t) _ (calls e h) = more same e
  Act-Extends (m, t) _ (vm_starts may free) = vm_start-Extends m.vm t
  Act-Extends (m, t) _ (ca_starts free) = Ca.Growth.start-Extends env config config.vsock_cid m.ca t
  Act-Extends (m, t) _ vm_stops = vm_stop_child-Extends m.vm.child_pid t
  Act-Extends (m, t) _ ca_stops = Ca.Growth.stop-Extends env config m.ca t
  Act-Extends (m, t) _ vm_answers = more same clock
  Act-Extends (m, t) _ ca_answers = more same clock
  Act-Extends (m, t) _ (vm_dies pid may h) = same
  Act-Extends (m, t) _ (ca_dies pid may h) = same
  Act-Extends (m, t) _ (vm_gives_up spent gone unready) = same
  Act-Extends (m, t) _ (ca_gives_up spent gone unready) = same
  Act-Extends (m, t) _ vm_resets = Minor-Extends (Vm.Minor.maybe_reset_crash_count-Minor env m.vm t)
  Act-Extends (m, t) _ ca_resets = Minor-Extends (Ca.Minor.maybe_reset_crash_count-Minor env m.ca t)

  pub Acts-Extends :
      {mortal : ℕ → Bool} {launching careless : Bool} {a b : State}
      → Acts env config mortal launching careless a b
      → Extends a.1 b.1
  Acts-Extends {mortal} {launching} {careless} {a} p =
      Star-keeps (Act env config mortal launching careless) (λ c. Extends a.1 c.1)
        (λ b c r grown. Extends-trans grown (Act-Extends b c r)) p same
