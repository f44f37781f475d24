-- ===== src/Startup/Completion.antt =====
-- src/startup.rs: the startup that succeeds.
use teeproxyd.Base.{◌∙◌, ℕ, ◌+◌, ◌≤◌, ◌≡◌, ◌∷◌, true, false, arith}
use teeproxyd.System.{Env, Trace, clock, ok, secs}
use teeproxyd.Config.{Config}
use teeproxyd.Vm
use teeproxyd.Vm.{VmState}
use teeproxyd.Ca
use teeproxyd.Ca.{CaState}
use teeproxyd.Startup.{
  Startup, vm_starting, waiting_vsock, ca_starting, waiting_ca_port, complete, step_phase,
  advance_startup, vsock_secs,
}
use teeproxyd.Startup.Phases.{IsTracked, advance_startup-eq-step_phase, advance_startup-IsTracked}

-- What the machine needs of the world: starts that succeed, a VM that answers on vsock, and a CA
-- that accepts connections.
pub record Cooperates (env : Env) (config : Config) : Type 0 where
  pub vm_starts : (vm : Vm.VmManager) (t : Trace) → (Vm.start env config vm t).0.1 ≡ ok tt
  pub ca_starts :
      (ca : Ca.CaManager) (t : Trace) → (Ca.start env config config.vsock_cid ca t).0.1 ≡ ok tt
  pub responsive : (t : Trace) → (Vm.probe_vsock env config t).0 ≡ true
  pub accepting : (t : Trace) → (Ca.is_port_ready env config t).0 ≡ true

module _ (env : Env) (config : Config) where
  -- The state after one call of `advance_startup`.
  abbrev pub next : Startup → Trace → Startup
  next s t = (advance_startup env config s t).0

  pub launch_vm :
      (s : Startup) (t : Trace)
      → Cooperates env config
      → IsTracked s
      → s.phase ≡ vm_starting
      → let boot_start = env.now_at (Vm.start env config s.vm t).1 in
        (next s t).phase ≡ waiting_vsock (boot_start + secs (vsock_secs config)) boot_start false
  unfolding step_phase
  launch_vm s t c v e =
      ground (arith, advance_startup-eq-step_phase env config s t v, c.vm_starts s.vm t)

  pub pass_delay :
      (s : Startup) (t : Trace) (deadline boot_start : ℕ)
      → IsTracked s
      → s.phase ≡ waiting_vsock deadline boot_start false
      → boot_start + secs config.vsock_probe_delay_secs ≤ env.now_at t
      → (next s t).phase ≡ waiting_vsock deadline boot_start true
  unfolding step_phase
  pass_delay s t deadline boot_start v e late =
      ground (arith, advance_startup-eq-step_phase env config s t v)

  pub meet_vsock :
      (s : Startup) (t : Trace) (deadline boot_start : ℕ)
      → Cooperates env config
      → IsTracked s
      → s.phase ≡ waiting_vsock deadline boot_start true
      → env.now_at t ≤ deadline
      → ((next s t).phase ≡ ca_starting) × ((next s t).vm.state ≡ VmState.ready)
  unfolding step_phase Vm.set_state
  meet_vsock s t deadline boot_start c v e soon =
      ground (arith, advance_startup-eq-step_phase env config s t v, c.responsive (clock ∷ t))

  pub launch_ca :
      (s : Startup) (t : Trace)
      → Cooperates env config
      → IsTracked s
      → s.phase ≡ ca_starting
      → ((deadline : ℕ) × ((next s t).phase ≡ waiting_ca_port deadline))
        × ((next s t).vm.state ≡ s.vm.state)
  unfolding step_phase
  launch_ca s t c v e =
      let step = advance_startup-eq-step_phase env config s t v in
      let kept : (next s t).vm.state ≡ s.vm.state = ground (arith, step) in
      (
        (
          env.now_at (Ca.start env config config.vsock_cid s.ca t).1
              + secs config.ca_ready_timeout_secs,
          ground (arith, step, c.ca_starts s.ca t),
        ),
        kept,
      )

  pub meet_port :
      (s : Startup) (t : Trace) (deadline : ℕ)
      → Cooperates env config
      → IsTracked s
      → s.phase ≡ waiting_ca_port deadline
      → ((next s t).phase ≡ complete)
        × ((next s t).vm.state ≡ s.vm.state)
        × ((next s t).ca.state ≡ CaState.ready)
  unfolding step_phase Ca.set_state
  meet_port s t deadline c v e =
      ground (arith, advance_startup-eq-step_phase env config s t v, c.accepting t)

  -- In a world that cooperates, the startup succeeds: from VmStarting, with managers that hold no
  -- child while they are down, five calls of `advance_startup`, whatever happens to the history
  -- between them, lead to Complete with both managers Ready, provided that the second comes after
  -- the boot delay and the third by the deadline.
  pub startup_completes :
      (s : Startup) (t₁ t₂ t₃ t₄ t₅ : Trace)
      → Cooperates env config
      → IsTracked s
      → s.phase ≡ vm_starting
      → let boot_start = env.now_at (Vm.start env config s.vm t₁).1 in
        boot_start + secs config.vsock_probe_delay_secs ≤ env.now_at t₂
        → env.now_at t₃ ≤ boot_start + secs (vsock_secs config)
        → let done = next (next (next (next (next s t₁) t₂) t₃) t₄) t₅ in
          (done.phase ≡ complete)
          × (done.vm.state ≡ VmState.ready)
          × (done.ca.state ≡ CaState.ready)
  startup_completes s t₁ t₂ t₃ t₄ t₅ c v e late soon =
      let v₁ = advance_startup-IsTracked env config s t₁ v in
      let v₂ = advance_startup-IsTracked env config (next s t₁) t₂ v₁ in
      let v₃ = advance_startup-IsTracked env config (next (next s t₁) t₂) t₃ v₂ in
      let v₄ = advance_startup-IsTracked env config (next (next (next s t₁) t₂) t₃) t₄ v₃ in
      let delayed = pass_delay _ t₂ _ _ v₁ (launch_vm s t₁ c v e) late in
      let (met, up) = meet_vsock _ t₃ _ _ c v₂ delayed soon in
      let ((deadline, launched), kept) = launch_ca _ t₄ c v₃ met in
      let (over, still, ready) = meet_port _ t₅ deadline c v₄ launched in
      (over, still ∙ kept ∙ up, ready)
