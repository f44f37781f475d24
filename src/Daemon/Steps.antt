-- ===== src/Daemon/Steps.antt =====
-- src/main.rs: what a round of the main loop keeps, and the states that it reaches.
use teeproxyd.Base.{
  ℕ, ◌≡◌, refl, List, ◌∷◌, Bool, true, false, Option, none, some, arith, inl, ◌⊎◌, contains,
}
use teeproxyd.Daemon.Mortal.{anybody-MayDie}
use teeproxyd.Acts.{anybody}
use teeproxyd.System.{Env, Trace, poll, clock}
use teeproxyd.Config.{Config}
use teeproxyd.Startup.{advance_startup}
use teeproxyd.Startup.Phases.{IsTracked, ◌⟶◌, advance_startup-⟶}
use teeproxyd.Ipc.Reader.{Stream}
use teeproxyd.Acts.Tracking.{Acts-AreTracked}
use teeproxyd.Daemon.Acts.{accept_client-Goes, waking-Goes, round-Goes}
use teeproxyd.Daemon.Children.{WaitStatus}
use teeproxyd.Daemon.Signals.{chld_byte, term_byte}
use teeproxyd.Daemon.Poll.{poll_timeout}
use teeproxyd.Daemon.Waking.{drained, waking}
use teeproxyd.Daemon.{
  Daemon, Wakeup, check_health, reset_counts, accept_client, rest_of_round, reap, round,
  unless_term,
}

module _ (env : Env) (config : Config) where
  pub reap-phase :
      (got_chld : Bool) (statuses : List WaitStatus) (d : Daemon) (t : Trace)
      → (reap env config got_chld statuses d t).0.phase ≡ d.phase
  unfolding reap
  reap-phase false statuses d t = refl
  reap-phase true statuses d t = refl

  pub accept_client-phase :
      (started_at : ℕ) (client : Option Stream) (d : Daemon) (t : Trace)
      → (accept_client env config started_at client d t).0.phase ≡ d.phase
  unfolding accept_client
  accept_client-phase started_at none d t = refl
  accept_client-phase started_at (some stream) d t = refl

  pub check_health-phase :
      (d : Daemon) (t : Trace) → (check_health env config d t).0.phase ≡ d.phase
  unfolding check_health
  check_health-phase d t = ground arith

  pub reset_counts-phase :
      (d : Daemon) (t : Trace) → (reset_counts env config d t).0.phase ≡ d.phase
  unfolding reset_counts
  reset_counts-phase d t = refl

  pub accept_client-IsTracked :
      (started_at : ℕ) (client : Option Stream) (d : Daemon) (t : Trace)
      → IsTracked d.startup
      → IsTracked (accept_client env config started_at client d t).0.startup
  accept_client-IsTracked started_at client d t v =
      Acts-AreTracked env config
        (accept_client-Goes env config anybody true true started_at client d t (λ h. refl)
          (λ h. cc))
        v

  rest_of_round-⟶ :
      (started_at : ℕ) (client : Option Stream) (d : Daemon) (t : Trace)
      → IsTracked d.startup
      → let d' = (rest_of_round env config started_at client d t).0 in
        (d'.phase ≡ d.phase) ⊎ (d.phase ⟶ d'.phase)
  unfolding rest_of_round
  rest_of_round-⟶ started_at client d t v =
      let (served, t₁) = accept_client env config started_at client d t in
      let (startup, t₂) = advance_startup env config served.startup t₁ in
      let advanced : Daemon = record served { startup = startup } in
      let (checked, t₃) = check_health env config advanced t₂ in
      rw (reset_counts-phase checked t₃, check_health-phase advanced t₂)
        (rw (accept_client-phase started_at client d t) at (
          advance_startup-⟶ env config served.startup t₁
            (accept_client-IsTracked started_at client d t v)))

  unless_term-⟶ :
      (got_term : Bool) (started_at : ℕ) (client : Option Stream) (d : Daemon) (t : Trace)
      → IsTracked d.startup
      → let d' = (unless_term env config got_term started_at client d t).0.0 in
        (d'.phase ≡ d.phase) ⊎ (d.phase ⟶ d'.phase)
  unfolding unless_term
  unless_term-⟶ true started_at client d t v = inl refl
  unless_term-⟶ false started_at client d t v = rest_of_round-⟶ started_at client d t v

module _ (env : Env) (config : Config) (started_at : ℕ) (w : Wakeup) (d : Daemon) (t : Trace) where
  pub waking-IsTracked :
      IsTracked d.startup → IsTracked (waking env config started_at w d t).0.startup
  waking-IsTracked v =
      Acts-AreTracked env config
        (waking-Goes env config anybody true true started_at w d t (anybody-MayDie w.statuses)) v

  pub round-IsTracked :
      IsTracked d.startup → IsTracked (round env config started_at w d t).0.0.startup
  round-IsTracked v = Acts-AreTracked env config (round-Goes env config started_at w d t) v

  pub round-⟶ :
      IsTracked d.startup
      → let d' = (round env config started_at w d t).0.0 in
        (d'.phase ≡ d.phase) ⊎ (d.phase ⟶ d'.phase)
  unfolding round
  round-⟶ v =
      let read = drained env config started_at w d t in
      let (woken, t₁) = waking env config started_at w d t in
      rw
        (reap-phase env config (contains chld_byte read.0) w.statuses (record d { pipe = read.1 })
          (poll (poll_timeout config d.phase d.last_health (env.now_at t)) ∷ clock ∷ t))
        at
        (unless_term-⟶ env config (contains term_byte read.0) started_at w.client woken t₁
          (waking-IsTracked v))
