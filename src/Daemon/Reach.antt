-- ===== src/Daemon/Reach.antt =====
-- src/main.rs: the states between two rounds of the main loop, whatever the environment answers.
use teeproxyd.Base.{
  if◌then◌else◌, pos, Bool-cases, Option, none, some, subst, ℕ, ◌≤◌, ◌≡◌, refl, ap, List, [], ◌∷◌,
  Bool, true, false, arith, inl, inr, ◌⊎◌,
}
use teeproxyd.System.{Env, Trace, create_dir, make_pipe}
use teeproxyd.Config.{Config}
use teeproxyd.Vm
use teeproxyd.Ca
use teeproxyd.Health
use teeproxyd.Startup.{vm_starting, not_started, advance_startup, step_phase, is_settled}
use teeproxyd.Startup.Phases.{
  IsTracked, ◌⟶◌, rank, ⟶-rank, ⟶-unsettled, advance_startup-eq-step_phase,
}
use teeproxyd.Daemon.Waking.{waking}
use teeproxyd.Daemon.Steps.{round-IsTracked, round-⟶, waking-IsTracked, accept_client-IsTracked}
use teeproxyd.Daemon.Socket.{Listener}
use teeproxyd.Daemon.Signals.{register, handled, setup_signal_handler}
use teeproxyd.Daemon.{
  Daemon, Wakeup, boot, on_listener, on_pipe, round, run, shut_down, accept_client,
}

module _ (env : Env) (config : Config) (started_at : ℕ) where
  -- The history before each round is any history, so the environment may do anything meanwhile.
  pub data Reach : Daemon → Type 0 where
    booted : (t : Trace) (d : Daemon) → (boot env config t).0 ≡ some (d, started_at) → Reach d
    next :
        {d : Daemon}
        → Reach d
        → (w : Wakeup) (t : Trace) (d' : Daemon)
        → (round env config started_at w d t).0 ≡ (d', true)
        → Reach d'

-- A daemon that has not been through a round: new managers, the first phase, the CA's port, and a
-- handler that writes to a pipe.
pub record IsFresh (config : Config) (d : Daemon) : Type 0 where
  pub phase : d.phase ≡ (if config.auto_start then vm_starting else not_started)
  pub port : d.health.port ≡ config.ca_port
  pub vm : d.vm ≡ Vm.new
  pub ca : d.ca ≡ Ca.new
  pub fd : ℕ
  pub opened : d.sig_pipe_fd ≡ pos fd
  pub empty : d.pipe ≡ []

IsFreshIfAny : Config → Option (Daemon × ℕ) → Type 0
IsFreshIfAny config none = Unit
IsFreshIfAny config (some entered) = IsFresh config entered.0

module _ (env : Env) (config : Config) where
  on_listener-IsFreshIfAny :
      (fd : ℕ) (listener : Option Listener) (t : Trace)
      → IsFreshIfAny config (on_listener env config (pos fd) listener t).0
  unfolding IsFreshIfAny Health.new
  on_listener-IsFreshIfAny fd none t = tt
  on_listener-IsFreshIfAny fd (some listener) t = record {
    phase = refl;
    port = refl;
    vm = refl;
    ca = refl;
    fd = fd;
    opened = refl;
    empty = refl;
  }

  on_pipe-IsFreshIfAny :
      (sig_pipe : Option ℕ) (t : Trace) → IsFreshIfAny config (on_pipe env config sig_pipe t).0
  unfolding setup_signal_handler
  on_pipe-IsFreshIfAny none t = unfold IsFreshIfAny in tt
  on_pipe-IsFreshIfAny (some sig_write) t = elim (Bool-cases (register env (handled env) t).0) [
    | inl done ↦ rw done (on_listener-IsFreshIfAny sig_write _ _)
    | inr failed ↦ rw failed (unfold IsFreshIfAny in tt)
  ]

  -- `main` enters its loop, if it comes so far, with two new managers and an open self-pipe.
  pub boot-IsFresh :
      (t : Trace) (entered : Daemon × ℕ)
      → (boot env config t).0 ≡ some entered
      → IsFresh config entered.0
  unfolding boot IsFreshIfAny
  boot-IsFresh t entered e =
      let u = create_dir config.image_dir ∷ create_dir config.log_dir ∷ t in
      subst (IsFreshIfAny config) e (on_pipe-IsFreshIfAny (env.pipe_at u) (make_pipe ∷ u))

pub IsFresh-IsTracked : (config : Config) (d : Daemon) → IsFresh config d → IsTracked d.startup
IsFresh-IsTracked config d v = record {
  vm = rw v.vm Vm.Lifecycle.new-DownIsEmpty;
  ca = rw v.ca Ca.Lifecycle.new-DownIsEmpty;
}

module _ {env : Env} {config : Config} {started_at : ℕ} where
  pub Reach-IsTracked : {d : Daemon} → Reach env config started_at d → IsTracked d.startup
  Reach-IsTracked (booted t d e) =
      IsFresh-IsTracked config d (boot-IsFresh env config t (d, started_at) e)
  Reach-IsTracked (next {d} r w t d' e) =
      rw (ap (λ (p : Daemon × Bool). p.0) e) at
        (round-IsTracked env config started_at w d t (Reach-IsTracked r))

module _ (env : Env) (config : Config) (started_at : ℕ) where
  -- In a reachable state, whatever wakes the loop, when the startup machine is advanced: neither
  -- manager is found dead, so the two guards of `advance_startup` that reset the phase after a
  -- death do not fire, and the call is the plain step of the phase.
  pub restart_unreachable :
      (d : Daemon) (w : Wakeup) (t : Trace)
      → Reach env config started_at d
      → let (woken, t₁) = waking env config started_at w d t in
        let (served, t₂) = accept_client env config started_at w.client woken t₁ in
        (Vm.is_dead env served.vm t₂ ≡ (false, t₂))
        × (Ca.is_dead env served.ca t₂ ≡ (false, t₂))
        × (advance_startup env config served.startup t₂
            ≡ step_phase env config served.phase served.startup t₂)
  restart_unreachable d w t r =
      let (woken, t₁) = waking env config started_at w d t in
      let (served, t₂) = accept_client env config started_at w.client woken t₁ in
      let v : IsTracked served.startup =
        accept_client-IsTracked env config started_at w.client woken t₁
          (waking-IsTracked env config started_at w d t (Reach-IsTracked r)) in
      (
        Vm.Lifecycle.is_dead_of_DownIsEmpty env t₂ served.vm v.vm,
        Ca.Lifecycle.is_dead_of_DownIsEmpty env t₂ served.ca v.ca,
        advance_startup-eq-step_phase env config served.startup t₂ v,
      )

  -- A round from a reachable state leaves the startup phase as it is, or follows one edge of the
  -- documented chain or one into Failed.
  pub round_follows_chain :
      (d : Daemon) (w : Wakeup) (t : Trace)
      → Reach env config started_at d
      → let d' = (round env config started_at w d t).0.0 in
        (d'.phase ≡ d.phase) ⊎ (d.phase ⟶ d'.phase)
  round_follows_chain d w t r = round-⟶ env config started_at w d t (Reach-IsTracked r)

  pub round-rank :
      (d : Daemon) (w : Wakeup) (t : Trace)
      → IsTracked d.startup
      → rank d.phase ≤ rank (round env config started_at w d t).0.0.phase
  round-rank d w t v = elim (round-⟶ env config started_at w d t v) [
    | inl e ↦ rw e (omega arith)
    | inr step ↦ omega (arith, ⟶-rank step)
  ]

  pub shut_down-phase : (d : Daemon) (t : Trace) → (shut_down env config d t).0.phase ≡ d.phase
  unfolding shut_down
  shut_down-phase d t = refl

  -- From a state in which a manager that is down holds no child, however long the daemon runs,
  -- its startup phase never goes back in the chain.
  pub run-rank :
      (ws : List Wakeup) (d : Daemon) (t : Trace)
      → IsTracked d.startup
      → rank d.phase ≤ rank (run env config started_at ws d t).0.0.phase
  unfolding run
  run-rank [] d t v = omega arith
  run-rank (w ∷ ws) d t v =
      let (step, t') = round env config started_at w d t in
      ground (
        arith,
        round-rank d w t v,
        run-rank ws step.0 t' (round-IsTracked env config started_at w d t v),
        shut_down-phase step.0 t',
      )

  pub round-settled :
      (d : Daemon) (w : Wakeup) (t : Trace)
      → IsTracked d.startup
      → is_settled d.phase ≡ true
      → (round env config started_at w d t).0.0.phase ≡ d.phase
  round-settled d w t v h = elim (round-⟶ env config started_at w d t v) [
    | inl e ↦ e
    | inr step ↦ cc (⟶-unsettled step)
  ]

  -- NotStarted, Complete and Failed are final: from a state in which a manager that is down holds
  -- no child, no run of the daemon leaves such a phase, whatever commands its clients send.
  pub settled_forever :
      (ws : List Wakeup) (d : Daemon) (t : Trace)
      → IsTracked d.startup
      → is_settled d.phase ≡ true
      → (run env config started_at ws d t).0.0.phase ≡ d.phase
  unfolding run
  settled_forever [] d t v h = refl
  settled_forever (w ∷ ws) d t v h =
      let (step, t') = round env config started_at w d t in
      let kept = round-settled d w t v h in
      ground (
        arith,
        kept,
        settled_forever ws step.0 t' (round-IsTracked env config started_at w d t v) (rw kept h),
        shut_down-phase step.0 t',
      )
