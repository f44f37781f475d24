-- ===== src/Acts/Lives.antt =====
-- src/vm.rs and src/ca.rs: each act of the daemon follows the lives of the managers.
use teeproxyd.Base.{ℕ, Bool, here, Star_trans, Star-keeps}
use teeproxyd.System.{Env}
use teeproxyd.Config.{Config}
use teeproxyd.Life.{LifeStep, LifePath}
use teeproxyd.Vm
use teeproxyd.Vm.Edges.{vm_life}
use teeproxyd.Ca
use teeproxyd.Ca.Edges.{ca_life}
use teeproxyd.Ipc.Handlers.{Managers}
use teeproxyd.Acts.{
  State, Act, Acts, calls, vm_starts, ca_starts, vm_stops, ca_stops, vm_answers, ca_answers,
  vm_dies, ca_dies, vm_gives_up, ca_gives_up, vm_resets, ca_resets,
}

-- Each manager has gone through steps of its life.
pub record Moves (m m' : Managers) : Type 0 where
  pub vm : LifePath (vm_life m.vm) (vm_life m'.vm)
  pub ca : LifePath (ca_life m.ca) (ca_life m'.ca)

Moves-refl : (m : Managers) → Moves m m
Moves-refl m = record { vm = here; ca = here }

Moves-trans : {a b c : Managers} → Moves a b → Moves b c → Moves a c
Moves-trans p q = record { vm = Star_trans LifeStep p.vm q.vm; ca = Star_trans LifeStep p.ca q.ca }

module _ (env : Env) (config : Config) where
  Act-Moves :
      {mortal : ℕ → Bool} {launching careless : Bool} (a b : State)
      → Act env config mortal launching careless a b
      → Moves a.0 b.0
  Act-Moves a _ (calls e h) = Moves-refl a.0
  Act-Moves a _ (vm_starts may free) = record {
    vm = Vm.Edges.start-LifePath env config a.0.vm a.1;
    ca = here;
  }
  Act-Moves a _ (ca_starts free) = record {
    vm = here;
    ca = Ca.Edges.start-LifePath env config config.vsock_cid a.0.ca a.1;
  }
  Act-Moves a _ vm_stops = record { vm = Vm.Edges.stop-LifePath env config a.0.vm a.1; ca = here }
  Act-Moves a _ ca_stops = record { vm = here; ca = Ca.Edges.stop-LifePath env config a.0.ca a.1 }
  Act-Moves a _ vm_answers = record { vm = Vm.Edges.set_ready-LifePath env a.0.vm a.1; ca = here }
  Act-Moves a _ ca_answers = record { vm = here; ca = Ca.Edges.set_ready-LifePath env a.0.ca a.1 }
  Act-Moves a _ (vm_dies pid may h) = record {
    vm = Vm.Edges.mark_dead-LifePath a.0.vm pid h;
    ca = here;
  }
  Act-Moves a _ (ca_dies pid may h) = record {
    vm = here;
    ca = Ca.Edges.mark_dead-LifePath a.0.ca pid h;
  }
  Act-Moves a _ (vm_gives_up spent gone unready) = record {
    vm = Vm.Edges.give_up-LifePath env a.0.vm a.1 spent gone unready;
    ca = here;
  }
  Act-Moves a _ (ca_gives_up spent gone unready) = record {
    vm = here;
    ca = Ca.Edges.give_up-LifePath env a.0.ca a.1 spent gone unready;
  }
  Act-Moves a _ vm_resets = record {
    vm = Vm.Edges.maybe_reset_crash_count-LifePath env a.0.vm a.1;
    ca = here;
  }
  Act-Moves a _ ca_resets = record {
    vm = here;
    ca = Ca.Edges.maybe_reset_crash_count-LifePath env a.0.ca a.1;
  }

  pub Acts-Moves :
      {mortal : ℕ → Bool} {launching careless : Bool} {a b : State}
      → Acts env config mortal launching careless a b
      → Moves a.0 b.0
  Acts-Moves {mortal} {launching} {careless} {a} p =
      Star-keeps (Act env config mortal launching careless) (λ c. Moves a.0 c.0)
        (λ b c r moved. Moves-trans moved (Act-Moves b c r)) p (Moves-refl a.0)
