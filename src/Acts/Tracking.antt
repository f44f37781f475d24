-- ===== src/Acts/Tracking.antt =====
-- src/vm.rs and src/ca.rs: no act of the daemon leaves a manager that is down with a child.
use teeproxyd.Base.{ℕ, Bool, Star-keeps}
use teeproxyd.System.{Env}
use teeproxyd.Config.{Config}
use teeproxyd.Vm
use teeproxyd.Ca
use teeproxyd.Ipc.Handlers.{Managers}
use teeproxyd.Acts.{
  State, Act, Acts, calls, vm_starts, ca_starts, vm_stops, ca_stops, vm_answers, ca_answers,
  vm_dies, ca_dies, vm_gives_up, ca_gives_up, vm_resets, ca_resets,
}

-- Both managers hold no child while they are Idle or in Error.
pub record AreTracked (m : Managers) : Type 0 where
  pub vm : Vm.Lifecycle.DownIsEmpty m.vm
  pub ca : Ca.Lifecycle.DownIsEmpty m.ca

module _ (env : Env) (config : Config) where
  Act-AreTracked :
      {mortal : ℕ → Bool} {launching careless : Bool} (a b : State)
      → Act env config mortal launching careless a b
      → AreTracked a.0
      → AreTracked b.0
  unfolding Vm.set_state Ca.set_state
  Act-AreTracked (m, t) _ (calls e h) v = v
  Act-AreTracked (m, t) _ (vm_starts may free) v = record {
    vm = Vm.Lifecycle.start-DownIsEmpty env config m.vm t v.vm;
    ca = v.ca;
  }
  Act-AreTracked (m, t) _ (ca_starts free) v = record {
    vm = v.vm;
    ca = Ca.Lifecycle.start-DownIsEmpty env config config.vsock_cid m.ca t v.ca;
  }
  Act-AreTracked (m, t) _ vm_stops v = record {
    vm = Vm.Lifecycle.stop-DownIsEmpty env config m.vm t;
    ca = v.ca;
  }
  Act-AreTracked (m, t) _ ca_stops v = record {
    vm = v.vm;
    ca = Ca.Lifecycle.stop-DownIsEmpty env config m.ca t;
  }
  Act-AreTracked (m, t) _ vm_answers v = record {
    vm = Vm.Lifecycle.set_ready-DownIsEmpty env t m.vm;
    ca = v.ca;
  }
  Act-AreTracked (m, t) _ ca_answers v = record {
    vm = v.vm;
    ca = Ca.Lifecycle.set_ready-DownIsEmpty env t m.ca;
  }
  Act-AreTracked (m, t) _ (vm_dies pid may h) v = record {
    vm = Vm.Lifecycle.mark_dead-DownIsEmpty m.vm;
    ca = v.ca;
  }
  Act-AreTracked (m, t) _ (ca_dies pid may h) v = record {
    vm = v.vm;
    ca = Ca.Lifecycle.mark_dead-DownIsEmpty m.ca;
  }
  Act-AreTracked (m, t) _ (vm_gives_up spent gone unready) v = record { vm = λ h. gone; ca = v.ca }
  Act-AreTracked (m, t) _ (ca_gives_up spent gone unready) v = record { vm = v.vm; ca = λ h. gone }
  Act-AreTracked (m, t) _ vm_resets v = record {
    vm = Vm.Lifecycle.reset-DownIsEmpty env t m.vm v.vm;
    ca = v.ca;
  }
  Act-AreTracked (m, t) _ ca_resets v = record {
    vm = v.vm;
    ca = Ca.Lifecycle.reset-DownIsEmpty env t m.ca v.ca;
  }

  pub Acts-AreTracked :
      {mortal : ℕ → Bool} {launching careless : Bool} {a b : State}
      → Acts env config mortal launching careless a b
      → AreTracked a.0
      → AreTracked b.0
  Acts-AreTracked {mortal} {launching} {careless} p v =
      Star-keeps (Act env config mortal launching careless) (λ a. AreTracked a.0) Act-AreTracked p v
