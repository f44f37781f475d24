-- ===== src/Acts/Chronicle.antt =====
-- src/vm.rs and src/ca.rs: each act of the daemon has a story for either manager.
use teeproxyd.Base.{refl, Bool, ℕ, here, next, Star_trans, Star-keeps}
use teeproxyd.System.{Env}
use teeproxyd.Config.{Config}
use teeproxyd.Process.Growth.{same, more, Minor-Extends}
use teeproxyd.Vm
use teeproxyd.Ca
use teeproxyd.Acts.Growth.{vm_start-Extends, vm_stop_child-Extends}
use teeproxyd.Acts.{
  State, Act, Acts, calls, vm_starts, ca_starts, vm_stops, ca_stops, vm_answers, ca_answers,
  vm_dies, ca_dies, vm_gives_up, ca_gives_up, vm_resets, ca_resets,
}
use teeproxyd.Acts.Stories.{
  Chapter, Tells, elsewhere, answered, died, given_up, stopped, vm_owned, ca_owned, vm_start-Story,
  ca_start-Story, vm_stop_child-HasStopped, ca_stop_child-HasStopped, vm_reset-Story,
  ca_reset-Story,
}

module _ (env : Env) (config : Config) (mortal : ℕ → Bool) where
  Act-Tells :
      {launching careless : Bool} (a b : State)
      → Act env config mortal launching careless a b
      → Tells env mortal a b
  unfolding Vm.set_state Ca.set_state Vm.mark_dead Ca.mark_dead Vm.stop Ca.stop
      Vm.maybe_reset_crash_count Ca.maybe_reset_crash_count
  Act-Tells (m, t) _ (calls e h) = record {
    vm = next here (elsewhere _ (more same e));
    ca = next here (elsewhere _ (more same e));
  }
  Act-Tells (m, t) _ (vm_starts may free) = record {
    vm = vm_start-Story env config mortal m.vm t;
    ca = next here (elsewhere _ (vm_start-Extends env config m.vm t));
  }
  Act-Tells (m, t) _ vm_stops = record {
    vm = next here (
        stopped _ (vm_stop_child-Extends env config m.vm.child_pid t)
          (vm_stop_child-HasStopped env config mortal m.vm.child_pid t));
    ca = next here (elsewhere _ (vm_stop_child-Extends env config m.vm.child_pid t));
  }
  Act-Tells (m, t) _ vm_answers = record {
    vm = next here answered;
    ca = next here (elsewhere _ (more same _));
  }
  Act-Tells (m, t) _ (vm_dies pid may h) = record {
    vm = next here (died pid may (vm_owned env config mortal m.vm pid h));
    ca = here;
  }
  Act-Tells (m, t) _ (vm_gives_up spent gone unready) = record {
    vm = next here (given_up spent gone unready);
    ca = here;
  }
  Act-Tells (m, t) _ vm_resets = record {
    vm = vm_reset-Story env config mortal m.vm.ready_since m.vm t refl;
    ca =
        next here (elsewhere _ (Minor-Extends (Vm.Minor.maybe_reset_crash_count-Minor env m.vm t)));
  }
  Act-Tells (m, t) _ (ca_starts free) = record {
    vm = next here (elsewhere _ (Ca.Growth.start-Extends env config config.vsock_cid m.ca t));
    ca = ca_start-Story env config mortal m.ca t;
  }
  Act-Tells (m, t) _ ca_stops = record {
    vm = next here (elsewhere _ (Ca.Growth.stop-Extends env config m.ca t));
    ca = next here (
        stopped _ (Ca.Growth.stop-Extends env config m.ca t)
          (ca_stop_child-HasStopped env config mortal m.ca.child_pid t));
  }
  Act-Tells (m, t) _ ca_answers = record {
    vm = next here (elsewhere _ (more same _));
    ca = next here answered;
  }
  Act-Tells (m, t) _ (ca_dies pid may h) = record {
    vm = here;
    ca = next here (died pid may (ca_owned env config mortal m.ca pid h));
  }
  Act-Tells (m, t) _ (ca_gives_up spent gone unready) = record {
    vm = here;
    ca = next here (given_up spent gone unready);
  }
  Act-Tells (m, t) _ ca_resets = record {
    vm =
        next here (elsewhere _ (Minor-Extends (Ca.Minor.maybe_reset_crash_count-Minor env m.ca t)));
    ca = ca_reset-Story env config mortal m.ca.ready_since m.ca t refl;
  }

  pub Acts-Tells :
      {launching careless : Bool} {a b : State}
      → Acts env config mortal launching careless a b
      → Tells env mortal a b
  Acts-Tells {launching} {careless} {a} p =
      Star-keeps (Act env config mortal launching careless) (Tells env mortal a)
        (λ b c r told.
          let one = Act-Tells b c r in
          record {
            vm = Star_trans (Chapter env mortal) told.vm one.vm;
            ca = Star_trans (Chapter env mortal) told.ca one.ca;
          })
        p (record { vm = here; ca = here })
