-- ===== src/Startup/Silence.antt =====
-- src/startup.rs: `advance_startup` neither polls, nor probes the CA's health, nor writes to a
-- client.
use teeproxyd.Base.{◌≡◌, refl, true, false, arith}
use teeproxyd.System.{Env, Trace}
use teeproxyd.Config.{Config}
use teeproxyd.Process.Outer.{Minor-outer, outer}
use teeproxyd.Vm
use teeproxyd.Vm.{VmManager}
use teeproxyd.Ca
use teeproxyd.Ca.{CaManager}
use teeproxyd.Ipc.Silence.{vm_start-outer, ca_start-outer}
use teeproxyd.Startup.{
  Startup, StartupPhase, vm_starting, waiting_vsock, ca_starting, waiting_ca_port, step_phase,
  advance_startup, after_vm_check,
}

module _ (env : Env) (config : Config) where
  step_phase-outer :
      (phase : StartupPhase) (s : Startup) (t : Trace)
      → outer (step_phase env config phase s t).1 ≡ outer t
  unfolding step_phase outer Vm.probe_vsock Vm.set_state Ca.set_state Ca.is_port_ready
  step_phase-outer vm_starting s t = ground (arith, vm_start-outer env config s.vm t)
  step_phase-outer (waiting_vsock deadline boot_start false) s t = refl
  step_phase-outer (waiting_vsock deadline boot_start true) s t = ground arith
  step_phase-outer ca_starting s t =
      ground (arith, ca_start-outer env config config.vsock_cid s.ca t)
  step_phase-outer (waiting_ca_port deadline) s t = ground arith
  step_phase-outer _ s t = refl

  pub advance_startup-outer :
      (s : Startup) (t : Trace) → outer (advance_startup env config s t).1 ≡ outer t
  unfolding advance_startup after_vm_check
  advance_startup-outer s t =
      let t₁ = (Vm.is_dead env s.vm t).1 in
      let t₂ = (Ca.is_dead env s.ca t₁).1 in
      ground (
        arith,
        Minor-outer (Vm.Minor.is_dead-Minor env s.vm t),
        Minor-outer (Ca.Minor.is_dead-Minor env s.ca t₁),
        step_phase-outer s.phase s t₁,
        step_phase-outer s.phase s t₂,
      )
