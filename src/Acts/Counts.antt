-- ===== src/Acts/Counts.antt =====
-- src/vm.rs and src/ca.rs: only the death of a child adds to a crash count.
use teeproxyd.Base.{Bool, ℕ, ◌+◌, ◌≤◌, Option, none, some, arith, Star-keeps}
use teeproxyd.Acts.{nobody}
use teeproxyd.System.{Env, Trace}
use teeproxyd.Config.{Config}
use teeproxyd.Vm
use teeproxyd.Vm.{VmManager}
use teeproxyd.Ca
use teeproxyd.Ca.{CaManager}
use teeproxyd.Ipc.Handlers.{Managers}
use teeproxyd.Acts.{
  State, Act, Acts, calls, vm_starts, ca_starts, vm_stops, ca_stops, vm_answers, ca_answers,
  vm_dies, ca_dies, vm_gives_up, ca_gives_up, vm_resets, ca_resets,
}

-- At most so many crashes of the VM and of the CA were counted, from the one state to the other.
abbrev pub Counted : ℕ → ℕ → Managers → Managers → Type 0
Counted vm_losses ca_losses m m' =
    (m'.vm.crash_count ≤ vm_losses + m.vm.crash_count)
    × (m'.ca.crash_count ≤ ca_losses + m.ca.crash_count)

pub Counted-trans :
    (n k n' k' : ℕ) (a b c : Managers)
    → Counted n k a b
    → Counted n' k' b c
    → Counted (n + n') (k + k') a c
Counted-trans n k n' k' a b c p q = ground arith

module _ (env : Env) (config : Config) where
  reset_vm-le :
      (since : Option ℕ) (vm : VmManager) (t : Trace)
      → (Vm.reset_since env since vm t).0.crash_count ≤ vm.crash_count
  reset_vm-le none vm t = omega arith
  reset_vm-le (some since) vm t = ground arith

  reset_ca-le :
      (since : Option ℕ) (ca : CaManager) (t : Trace)
      → (Ca.reset_since env since ca t).0.crash_count ≤ ca.crash_count
  reset_ca-le none ca t = omega arith
  reset_ca-le (some since) ca t = ground arith

  Act-crashes :
      {launching careless : Bool} (a b : State)
      → Act env config nobody launching careless a b
      → Counted 0 0 a.0 b.0
  unfolding Vm.stop Ca.stop Vm.set_state Ca.set_state Vm.maybe_reset_crash_count
      Ca.maybe_reset_crash_count
  Act-crashes (m, t) _ (calls e h) = ground arith
  Act-crashes (m, t) _ (vm_starts may free) =
      ground (arith, (Vm.Lifecycle.vm_start_outcome env config m.vm t).0)
  Act-crashes (m, t) _ (ca_starts free) =
      ground (arith, (Ca.Lifecycle.ca_start_outcome env config config.vsock_cid m.ca t).0)
  Act-crashes (m, t) _ vm_stops = ground arith
  Act-crashes (m, t) _ ca_stops = ground arith
  Act-crashes (m, t) _ vm_answers = ground arith
  Act-crashes (m, t) _ ca_answers = ground arith
  Act-crashes (m, t) _ (vm_dies pid may h) = cc
  Act-crashes (m, t) _ (ca_dies pid may h) = cc
  Act-crashes (m, t) _ (vm_gives_up spent gone unready) = ground arith
  Act-crashes (m, t) _ (ca_gives_up spent gone unready) = ground arith
  Act-crashes (m, t) _ vm_resets = ground (arith, reset_vm-le m.vm.ready_since m.vm t)
  Act-crashes (m, t) _ ca_resets = ground (arith, reset_ca-le m.ca.ready_since m.ca t)

  -- Where no child dies, no crash is counted.
  pub Acts-crashes :
      {launching careless : Bool} {a b : State}
      → Acts env config nobody launching careless a b
      → Counted 0 0 a.0 b.0
  Acts-crashes {launching} {careless} {a} p =
      Star-keeps (Act env config nobody launching careless) (λ c. Counted 0 0 a.0 c.0)
        (λ b c r fewer. Counted-trans 0 0 0 0 a.0 b.0 c.0 fewer (Act-crashes b c r)) p
        (ground arith)
