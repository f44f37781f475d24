-- ===== src/Startup/Launches.antt =====
-- src/startup.rs: `advance_startup` launches the VM in its first phase only, and then leaves it.
use teeproxyd.Base.{ℕ, ◌+◌, ◌≤◌, ◌≡◌, refl, true, false, arith, Bool-cases, inl, inr}
use teeproxyd.Acts.{anybody}
use teeproxyd.System.{Env, Trace, Result, ok, err}
use teeproxyd.Config.{Config}
use teeproxyd.Process.Launches.{vm_launches}
use teeproxyd.Vm
use teeproxyd.Vm.{VmManager}
use teeproxyd.Acts.Launches.{Acts-launches, vm_start-launches}
use teeproxyd.Startup.Acts.{is_vm_starting, advance_startup-Acts}
use teeproxyd.Startup.Phases.{
  IsTracked, ◌⟶◌, vm_launched, boot_delay, vsock_up, ca_launched, ca_settled, vm_refused,
  vsock_timeout, ca_refused, advance_startup-eq-step_phase, advance_startup-⟶, rank, ⟶-rank,
}
use teeproxyd.Startup.{
  Startup, StartupPhase, vm_starting, waiting_vsock, advance_startup, step_phase, vm_started,
}

-- The launch that is still to come: one, if the startup is in its first phase.
abbrev pub due : StartupPhase → ℕ
due vm_starting = 1
due _ = 0

⟶-later : {p q : StartupPhase} → p ⟶ q → is_vm_starting q ≡ false
⟶-later (vm_launched d b) = refl
⟶-later (boot_delay d b) = refl
⟶-later (vsock_up d b) = refl
⟶-later (ca_launched d) = refl
⟶-later (ca_settled d) = refl
⟶-later (vm_refused e) = refl
⟶-later (vsock_timeout d b) = refl
⟶-later (ca_refused e) = refl

due-later : (p : StartupPhase) → is_vm_starting p ≡ false → due p ≡ 0
due-later p h = ground arith

none_due : (p : StartupPhase) → due p ≡ 0 → is_vm_starting p ≡ false
none_due p h = ground arith

module _ (env : Env) (config : Config) where
  vm_started-launches :
      (s : Startup) (r : VmManager × Result (Unit {0})) (t : Trace)
      → let (s', t') = vm_started env config s r t in
        (vm_launches t' ≡ vm_launches t) × (due s'.phase ≡ 0)
  unfolding vm_started vm_launches
  vm_started-launches s (vm, ok _) t = (refl, refl)
  vm_started-launches s (vm, err e) t = (refl, refl)

  first_phase-launches :
      (s : Startup) (t : Trace)
      → let (s', t') = step_phase env config vm_starting s t in
        vm_launches t' + due s'.phase ≤ 1 + vm_launches t
  unfolding step_phase
  first_phase-launches s t =
      let (r, u) = Vm.start env config s.vm t in
      let (same, over) = vm_started-launches s r u in
      omega (arith, vm_start-launches env config s.vm t, same, over)

  first_phase-leaves :
      (s : Startup) (t : Trace)
      → is_vm_starting (step_phase env config vm_starting s t).0.phase ≡ false
  unfolding step_phase
  first_phase-leaves s t =
      let (r, u) = Vm.start env config s.vm t in none_due _ (vm_started-launches s r u).1

  later_phase-launches :
      (s : Startup) (t : Trace)
      → IsTracked s
      → is_vm_starting s.phase ≡ false
      → let (s', t') = advance_startup env config s t in
        vm_launches t' + due s'.phase ≤ vm_launches t
  later_phase-launches s t v later =
      let (s', t') = advance_startup env config s t in
      let quiet = Acts-launches env config (
        advance_startup-Acts env config anybody false true s t
          (record { launches = λ h. cc; vm_free = λ h. cc; ca_free = λ h. cc })) in
      elim (advance_startup-⟶ env config s t v) [
        | inl e ↦ omega (arith, quiet, due-later s'.phase (rw e later))
        | inr step ↦ omega (arith, quiet, due-later s'.phase (⟶-later step))
      ]

  -- Whatever it launches was due.
  pub advance_startup-launches :
      (s : Startup) (t : Trace)
      → IsTracked s
      → let (s', t') = advance_startup env config s t in
        vm_launches t' + due s'.phase ≤ vm_launches t + due s.phase
  advance_startup-launches s t v = elim (Bool-cases (is_vm_starting s.phase)) [
    | inl first ↦
        let e : s.phase ≡ vm_starting = ground arith in
        simp (advance_startup-eq-step_phase env config s t v, e)
          (omega (arith, first_phase-launches s t))
    | inr later ↦ omega (arith, later_phase-launches s t v later)
  ]

  -- A call never leaves it in its first phase.
  pub advance_startup-leaves :
      (s : Startup) (t : Trace)
      → IsTracked s
      → is_vm_starting (advance_startup env config s t).0.phase ≡ false
  advance_startup-leaves s t v = elim (Bool-cases (is_vm_starting s.phase)) [
    | inl first ↦
        let e : s.phase ≡ vm_starting = ground arith in
        simp (advance_startup-eq-step_phase env config s t v, e) (first_phase-leaves s t)
    | inr later ↦ elim (advance_startup-⟶ env config s t v) [
      | inl e ↦ rw e later
      | inr step ↦ ⟶-later step
    ]
  ]

  -- Up to the phase that starts the CA, the CA's manager is left alone.
  step_phase-ca :
      (phase : StartupPhase) (s : Startup) (t : Trace)
      → s.phase ≡ phase
      → rank (step_phase env config phase s t).0.phase ≤ 3
      → (step_phase env config phase s t).0.ca ≡ s.ca
  unfolding step_phase
  step_phase-ca (waiting_vsock deadline boot_start false) s t e early = ground arith
  step_phase-ca (waiting_vsock deadline boot_start true) s t e early = ground arith
  step_phase-ca _ s t e early = ground arith

  pub advance_startup-ca_early :
      (s : Startup) (t : Trace)
      → IsTracked s
      → rank (advance_startup env config s t).0.phase ≤ 3
      → (advance_startup env config s t).0.ca ≡ s.ca
  advance_startup-ca_early s t v =
      rw (advance_startup-eq-step_phase env config s t v) (step_phase-ca s.phase s t refl)

  pub advance_startup-rank :
      (s : Startup) (t : Trace)
      → IsTracked s
      → rank s.phase ≤ rank (advance_startup env config s t).0.phase
  advance_startup-rank s t v = elim (advance_startup-⟶ env config s t v) [
    | inl e ↦ rw e (omega arith)
    | inr step ↦ omega (arith, ⟶-rank step)
  ]
