-- ===== src/Startup/Acts.antt =====
-- src/startup.rs: what `advance_startup` does is a sequence of acts on the managers.
use teeproxyd.Base.{ℕ, none, ◌≡◌, Bool, ◌∷◌, refl, true, false, arith, here}
use teeproxyd.System.{Env, Trace, clock, Result, ok, err, connect, exchange, Connect, connected}
use teeproxyd.Config.{Config}
use teeproxyd.Vm
use teeproxyd.Vm.{VmManager, VmState}
use teeproxyd.Ca
use teeproxyd.Ca.{CaManager, CaState}
use teeproxyd.Ipc.Handlers.{Managers}
use teeproxyd.Acts.{
  Acts, Acts-trans, act, Minor-Acts, calls, vm_starts, ca_starts, vm_answers, ca_answers,
}
use teeproxyd.Startup.{
  Startup, StartupPhase, not_started, vm_starting, waiting_vsock, ca_starting, waiting_ca_port,
  complete, failed, step_phase, advance_startup, after_vm_check, vm_started, ca_started,
}

abbrev pub managers : Startup → Managers
managers s = record { vm = s.vm; ca = s.ca }

abbrev pub is_vm_starting : StartupPhase → Bool
is_vm_starting vm_starting = true
is_vm_starting _ = false

abbrev pub is_ca_starting : StartupPhase → Bool
is_ca_starting ca_starting = true
is_ca_starting _ = false

-- What the phase starts, may be started.
pub record Permits (launching careless : Bool) (phase : StartupPhase) (s : Startup) : Type 0 where
  pub launches : is_vm_starting phase ≡ true → launching ≡ true
  pub vm_free : careless ≡ false → is_vm_starting phase ≡ true → s.vm.child_pid ≡ none
  pub ca_free : careless ≡ false → is_ca_starting phase ≡ true → s.ca.child_pid ≡ none

pub Permits-any : (phase : StartupPhase) (s : Startup) → Permits true true phase s
Permits-any phase s = record { launches = λ h. refl; vm_free = λ h. cc; ca_free = λ h. cc }

module _ (env : Env) (config : Config) (mortal : ℕ → Bool) (launching careless : Bool) where
  vm_started-Acts :
      (s : Startup) (r : VmManager × Result (Unit {0})) (t : Trace)
      → let (s', t') = vm_started env config s r t in
        Acts env config mortal launching careless
          (record (managers s) { vm = r.0 }, t)
          (managers s', t')
  unfolding vm_started
  vm_started-Acts s (vm, ok _) t = act (calls clock refl)
  vm_started-Acts s (vm, err e) t = here

  ca_started-Acts :
      (s : Startup) (r : CaManager × Result (Unit {0})) (t : Trace)
      → let (s', t') = ca_started env config s r t in
        Acts env config mortal launching careless
          (record (managers s) { ca = r.0 }, t)
          (managers s', t')
  unfolding ca_started
  ca_started-Acts s (ca, ok _) t = act (calls clock refl)
  ca_started-Acts s (ca, err e) t = here

  answered-Acts :
      (outcome : Connect) (m : Managers) (t : Trace)
      → Acts env config mortal launching careless (m, t) (m, (Ca.answered env config outcome t).1)
  answered-Acts connected m t = act (calls (exchange _) refl)
  answered-Acts _ m t = here

  is_port_ready-Acts :
      (m : Managers) (t : Trace)
      → Acts env config mortal launching careless (m, t) (m, (Ca.is_port_ready env config t).1)
  unfolding Ca.is_port_ready
  is_port_ready-Acts m t =
      Acts-trans (act (calls (connect config.ca_port 1) refl)) (answered-Acts _ m _)

  step_phase-Acts :
      (phase : StartupPhase) (s : Startup) (t : Trace)
      → Permits launching careless phase s
      → let (s', t') = step_phase env config phase s t in
        Acts env config mortal launching careless (managers s, t) (managers s', t')
  unfolding step_phase Vm.probe_vsock
  step_phase-Acts not_started s t may = here
  step_phase-Acts complete s t may = here
  step_phase-Acts (failed e) s t may = here
  step_phase-Acts vm_starting s t may =
      let (r, u) = Vm.start env config s.vm t in
      Acts-trans (act (vm_starts (may.launches refl) (λ h. may.vm_free h refl)))
        (vm_started-Acts s r u)
  step_phase-Acts ca_starting s t may =
      let (r, u) = Ca.start env config config.vsock_cid s.ca t in
      Acts-trans (act (ca_starts (λ h. may.ca_free h refl))) (ca_started-Acts s r u)
  step_phase-Acts (waiting_vsock deadline boot_start false) s t may =
      let timed : Acts env config mortal launching careless (managers s, t)
          (managers s, clock ∷ t) =
        act (calls clock refl) in
      ground (arith, timed)
  step_phase-Acts (waiting_vsock deadline boot_start true) s t may =
      let timed : Acts env config mortal launching careless (managers s, t)
          (managers s, clock ∷ t) =
        act (calls clock refl) in
      let u = (Vm.probe_vsock env config (clock ∷ t)).1 in
      let probed : Acts env config mortal launching careless (managers s, t) (managers s, u) =
        Acts-trans timed (act (calls _ refl)) in
      let answered = Acts-trans probed (act vm_answers) in ground (arith, timed, probed, answered)
  step_phase-Acts (waiting_ca_port deadline) s t may =
      let u = (Ca.is_port_ready env config t).1 in
      let probed : Acts env config mortal launching careless (managers s, t) (managers s, u) =
        is_port_ready-Acts (managers s) t in
      let timed : Acts env config mortal launching careless (managers s, t)
          (managers s, clock ∷ u) =
        Acts-trans probed (act (calls clock refl)) in
      let answered = Acts-trans probed (act ca_answers) in ground (arith, timed, answered)

  pub advance_startup-Acts :
      (s : Startup) (t : Trace)
      → Permits launching careless s.phase s
      → let (s', t') = advance_startup env config s t in
        Acts env config mortal launching careless (managers s, t) (managers s', t')
  unfolding advance_startup after_vm_check
  advance_startup-Acts s t may =
      let t₁ = (Vm.is_dead env s.vm t).1 in
      let t₂ = (Ca.is_dead env s.ca t₁).1 in
      let m = managers s in
      let asked =
        Minor-Acts {env = env} {config = config} {mortal = mortal} {launching = launching}
          {careless = careless} m (Vm.Minor.is_dead-Minor env s.vm t) in
      let asked₂ = Acts-trans asked (Minor-Acts m (Ca.Minor.is_dead-Minor env s.ca t₁)) in
      ground (arith, asked, asked₂, Acts-trans asked₂ (step_phase-Acts s.phase s t₂ may))
