-- ===== src/Startup/Phases.antt =====
-- src/startup.rs: what `advance_startup` keeps, and the edges that it follows.
use teeproxyd.Base.{ℕ, ◌+◌, ◌≤◌, ◌<◌, ◌≡◌, refl, ◌⊎◌, inl, Bool, true, false, arith, String}
use teeproxyd.Acts.{anybody}
use teeproxyd.System.{Env, Trace, secs}
use teeproxyd.Config.{Config}
use teeproxyd.Vm
use teeproxyd.Ca
use teeproxyd.Acts.Tracking.{AreTracked, Acts-AreTracked}
use teeproxyd.Startup.Acts.{managers, Permits-any, advance_startup-Acts}
use teeproxyd.Startup.{
  StartupPhase, Startup, not_started, vm_starting, waiting_vsock, ca_starting, waiting_ca_port,
  complete, failed, is_settled, step_phase, advance_startup, after_vm_check,
}

-- Both managers hold no child while they are Idle or in Error.
abbrev pub IsTracked : Startup → Type 0
IsTracked s = AreTracked (managers s)

-- The documented chain of phases, and the ways out of it.
infix 40 ◌⟶◌
pub data ◌⟶◌ : StartupPhase → StartupPhase → Type 0 where
  vm_launched : (deadline boot_start : ℕ) → vm_starting ⟶ waiting_vsock deadline boot_start false
  boot_delay :
      (deadline boot_start : ℕ)
      → waiting_vsock deadline boot_start false ⟶ waiting_vsock deadline boot_start true
  vsock_up : (deadline boot_start : ℕ) → waiting_vsock deadline boot_start true ⟶ ca_starting
  ca_launched : (deadline : ℕ) → ca_starting ⟶ waiting_ca_port deadline
  ca_settled : (deadline : ℕ) → waiting_ca_port deadline ⟶ complete
  vm_refused : (e : String) → vm_starting ⟶ failed e
  vsock_timeout :
      (deadline boot_start : ℕ) → waiting_vsock deadline boot_start true ⟶ failed "vsock timeout"
  ca_refused : (e : String) → ca_starting ⟶ failed e

ruleset edges = (
  vm_launched, boot_delay, vsock_up, ca_launched, ca_settled, vm_refused, vsock_timeout, ca_refused,
)

module _ (env : Env) (config : Config) where
  -- The guards on dead managers never fire.
  pub advance_startup-eq-step_phase :
      (s : Startup) (t : Trace)
      → IsTracked s
      → advance_startup env config s t ≡ step_phase env config s.phase s t
  unfolding advance_startup after_vm_check
  advance_startup-eq-step_phase s t v = ground (
    arith,
    Vm.Lifecycle.is_dead_of_DownIsEmpty env t s.vm v.vm,
    Ca.Lifecycle.is_dead_of_DownIsEmpty env t s.ca v.ca,
  )

  step_phase-⟶ :
      (phase : StartupPhase) (s : Startup) (t : Trace)
      → s.phase ≡ phase
      → let s' = (step_phase env config phase s t).0 in (s'.phase ≡ phase) ⊎ (phase ⟶ s'.phase)
  unfolding step_phase
  step_phase-⟶ not_started s t e = inl e
  step_phase-⟶ _ s t e = grind (arith, edges)

  pub advance_startup-IsTracked :
      (s : Startup) (t : Trace) → IsTracked s → IsTracked (advance_startup env config s t).0
  advance_startup-IsTracked s t v =
      Acts-AreTracked env config
        (advance_startup-Acts env config anybody true true s t (Permits-any s.phase s)) v

  -- From tracked managers, one call of `advance_startup` leaves the phase or follows one edge of
  -- the chain VmStarting, WaitingVsock, CaStarting, WaitingCaPort, Complete, or one into Failed.
  pub advance_startup-⟶ :
      (s : Startup) (t : Trace)
      → IsTracked s
      → let s' = (advance_startup env config s t).0 in (s'.phase ≡ s.phase) ⊎ (s.phase ⟶ s'.phase)
  advance_startup-⟶ s t v = rw (advance_startup-eq-step_phase s t v) (step_phase-⟶ s.phase s t refl)

  -- In CaStarting the CA is started, whatever state it is in.
  pub advance_startup-ca :
      (s : Startup) (t : Trace)
      → IsTracked s
      → s.phase ≡ ca_starting
      → (advance_startup env config s t).0.ca ≡ (Ca.start env config config.vsock_cid s.ca t).0.0
  unfolding step_phase
  advance_startup-ca s t v e = ground (arith, advance_startup-eq-step_phase s t v)

  -- In NotStarted, Complete and Failed, `advance_startup` does nothing at all.
  pub advance_startup-settled :
      (s : Startup) (t : Trace)
      → IsTracked s
      → is_settled s.phase ≡ true
      → advance_startup env config s t ≡ (s, t)
  unfolding step_phase
  advance_startup-settled s t v h = ground (arith, advance_startup-eq-step_phase s t v)

  -- The wait for vsock ends: once the clock has passed the boot delay and the deadline, two calls
  -- of `advance_startup` lead to Failed("vsock timeout"), whatever has happened in between to the
  -- managers, provided that one that is down holds no child.
  pub vsock_wait_ends :
      (s s₂ : Startup) (t t₂ : Trace) (deadline boot_start : ℕ) (done : Bool)
      → IsTracked s
      → IsTracked s₂
      → s.phase ≡ waiting_vsock deadline boot_start done
      → s₂.phase ≡ (advance_startup env config s t).0.phase
      → deadline < env.now_at t
      → boot_start + secs config.vsock_probe_delay_secs ≤ env.now_at t
      → deadline < env.now_at t₂
      → (advance_startup env config s₂ t₂).0.phase ≡ failed "vsock timeout"
  unfolding step_phase
  vsock_wait_ends s s₂ t t₂ deadline boot_start done v v₂ e e₂ late booted late₂ =
      ground (arith, advance_startup-eq-step_phase s t v, advance_startup-eq-step_phase s₂ t₂ v₂)

-- How far along the chain a phase stands; the settled phases are last.
abbrev pub rank : StartupPhase → ℕ
rank vm_starting = 0
rank (waiting_vsock deadline boot_start false) = 1
rank (waiting_vsock deadline boot_start true) = 2
rank ca_starting = 3
rank (waiting_ca_port deadline) = 4
rank _ = 5

pub ⟶-rank : {p q : StartupPhase} → p ⟶ q → rank p < rank q
⟶-rank (vm_launched d b) = omega arith
⟶-rank (boot_delay d b) = omega arith
⟶-rank (vsock_up d b) = omega arith
⟶-rank (ca_launched d) = omega arith
⟶-rank (ca_settled d) = omega arith
⟶-rank (vm_refused e) = omega arith
⟶-rank (vsock_timeout d b) = omega arith
⟶-rank (ca_refused e) = omega arith

-- No edge leaves NotStarted, Complete or Failed.
pub ⟶-unsettled : {p q : StartupPhase} → p ⟶ q → is_settled p ≡ false
⟶-unsettled (vm_launched d b) = refl
⟶-unsettled (boot_delay d b) = refl
⟶-unsettled (vsock_up d b) = refl
⟶-unsettled (ca_launched d) = refl
⟶-unsettled (ca_settled d) = refl
⟶-unsettled (vm_refused e) = refl
⟶-unsettled (vsock_timeout d b) = refl
⟶-unsettled (ca_refused e) = refl

module _ (env : Env) (config : Config) where
  -- A step of a phase behind VmStarting starts no virtual machine.
  step_phase-vm :
      (phase : StartupPhase) (s : Startup) (t : Trace)
      → 1 ≤ rank phase
      → (step_phase env config phase s t).0.vm.child_pid ≡ s.vm.child_pid
  unfolding step_phase Vm.set_state
  step_phase-vm vm_starting s t h = absurd (omega arith)
  step_phase-vm (waiting_vsock deadline boot_start false) s t h = ground arith
  step_phase-vm _ s t h = ground arith

  pub advance_startup-vm :
      (s : Startup) (t : Trace)
      → IsTracked s
      → 1 ≤ rank s.phase
      → (advance_startup env config s t).0.vm.child_pid ≡ s.vm.child_pid
  advance_startup-vm s t v h =
      rw (advance_startup-eq-step_phase env config s t v) (step_phase-vm s.phase s t h)
