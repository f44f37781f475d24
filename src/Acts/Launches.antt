-- ===== src/Acts/Launches.antt =====
-- src/vm.rs and src/ca.rs: only a start of the VM launches one.
use teeproxyd.Base.{
  ℕ, ◌+◌, ◌≤◌, ◌≡◌, ◌∷◌, refl, ◌∙◌, false, true, Bool, Option, none, some, arith, Star-keeps,
}
use teeproxyd.System.{Env, Trace, Event, exists}
use teeproxyd.Config.{Config}
use teeproxyd.Process
use teeproxyd.Process.Launches.{
  vm_launches, Minor-launches, graceful_kill-launches, spawn_with_log-launches,
  spawn_with_log-launches_le,
}
use teeproxyd.Vm
use teeproxyd.Vm.{VmManager, validate_images}
use teeproxyd.Ca
use teeproxyd.Ca.{CaManager}
use teeproxyd.Acts.{
  State, Act, Acts, is_plain, calls, vm_starts, ca_starts, vm_stops, ca_stops, vm_answers,
  ca_answers, vm_dies, ca_dies, vm_gives_up, ca_gives_up, vm_resets, ca_resets,
}

module _ (env : Env) (config : Config) where
  ca_launch-launches :
      (cid : ℕ) (t : Trace) → vm_launches (Ca.launch env config cid t).1 ≡ vm_launches t
  unfolding Ca.launch
  ca_launch-launches cid t = spawn_with_log-launches env _ _ _ _ t

  ca_start-launches :
      (cid : ℕ) (ca : CaManager) (t : Trace)
      → vm_launches (Ca.start env config cid ca t).1 ≡ vm_launches t
  unfolding Ca.start vm_launches
  ca_start-launches cid ca t = ground (arith, ca_launch-launches cid (exists config.ca_binary ∷ t))

  vm_launch-launches : (t : Trace) → vm_launches (Vm.launch env config t).1 ≤ 1 + vm_launches t
  unfolding Vm.launch
  vm_launch-launches t = spawn_with_log-launches_le env _ _ _ _ _ t

  -- A start of the VM launches it once, or not at all.
  pub vm_start-launches :
      (vm : VmManager) (t : Trace) → vm_launches (Vm.start env config vm t).1 ≤ 1 + vm_launches t
  unfolding Vm.start
  vm_start-launches vm t = ground (
    arith,
    Minor-launches (Vm.Minor.validate_images-Minor env config t),
    vm_launch-launches (validate_images env config t).1,
  )

  vm_stop_child-launches :
      (child : Option ℕ) (t : Trace)
      → vm_launches (Vm.stop_child env config child t).1 ≡ vm_launches t
  unfolding Vm.stop_child Process.kill_tree vm_launches
  vm_stop_child-launches none t = refl
  vm_stop_child-launches (some pid) t = graceful_kill-launches env pid config.shutdown_grace_secs t

  ca_stop_child-launches :
      (child : Option ℕ) (t : Trace)
      → vm_launches (Ca.stop_child env config child t).1 ≡ vm_launches t
  unfolding Ca.stop_child
  ca_stop_child-launches none t = refl
  ca_stop_child-launches (some pid) t = graceful_kill-launches env pid config.shutdown_grace_secs t

  plain-launches : (e : Event) (t : Trace) → is_plain e ≡ true → vm_launches (e ∷ t) ≡ vm_launches t
  unfolding vm_launches
  plain-launches e t h = ground arith

  Act-launches :
      {mortal : ℕ → Bool} {careless : Bool} (a b : State)
      → Act env config mortal false careless a b
      → vm_launches b.1 ≡ vm_launches a.1
  unfolding Vm.stop Ca.stop Vm.set_state Ca.set_state vm_launches
  Act-launches (m, t) _ (calls e h) = plain-launches e t h
  Act-launches (m, t) _ (vm_starts may free) = cc
  Act-launches (m, t) _ (ca_starts free) = ca_start-launches config.vsock_cid m.ca t
  Act-launches (m, t) _ vm_stops = vm_stop_child-launches m.vm.child_pid t
  Act-launches (m, t) _ ca_stops = ca_stop_child-launches m.ca.child_pid t
  Act-launches (m, t) _ vm_answers = refl
  Act-launches (m, t) _ ca_answers = refl
  Act-launches (m, t) _ (vm_dies pid may h) = refl
  Act-launches (m, t) _ (ca_dies pid may h) = refl
  Act-launches (m, t) _ (vm_gives_up spent gone unready) = refl
  Act-launches (m, t) _ (ca_gives_up spent gone unready) = refl
  Act-launches (m, t) _ vm_resets =
      Minor-launches (Vm.Minor.maybe_reset_crash_count-Minor env m.vm t)
  Act-launches (m, t) _ ca_resets =
      Minor-launches (Ca.Minor.maybe_reset_crash_count-Minor env m.ca t)

  pub Acts-launches :
      {mortal : ℕ → Bool} {careless : Bool} {a b : State}
      → Acts env config mortal false careless a b
      → vm_launches b.1 ≡ vm_launches a.1
  Acts-launches {mortal} {careless} {a} p =
      Star-keeps (Act env config mortal false careless) (λ c. vm_launches c.1 ≡ vm_launches a.1)
        (λ b c r same. Act-launches b c r ∙ same) p refl
