-- ===== src/Daemon/Acts.antt =====
-- src/main.rs: what the daemon does, from a death to a whole run, is a sequence of acts on its
-- managers.
use teeproxyd.Base.{
  is_some, ℕ, ◌≡◌, refl, inl, inr, List, [], ◌∷◌, Bool, true, false, Option, none, some, Bool-cases,
  leb, here, ◌-◌,
}
use teeproxyd.System.{Env, Trace, Connect, connected, clock, connect, exchange, poll, secs}
use teeproxyd.Config.{Config}
use teeproxyd.Health.{HealthResult, HealthMonitor, healthy, degraded, restart_needed, probe, talk}
use teeproxyd.Ca
use teeproxyd.Startup.{advance_startup}
use teeproxyd.Startup.Acts.{managers, Permits, Permits-any, advance_startup-Acts}
use teeproxyd.Ipc.Reader.{Stream}
use teeproxyd.Ipc.Handlers.{Managers}
use teeproxyd.Ipc.Acts.{handle_client-Acts}
use teeproxyd.Acts.{
  anybody, Acts, Acts-trans, Acts-weaken, act, calls, ca_starts, vm_stops, ca_stops, vm_resets,
  ca_resets,
}
use teeproxyd.Daemon.Children.{WaitStatus}
use teeproxyd.Daemon.Mortal.{MayDie, anybody-MayDie, reap_children-Acts}
use teeproxyd.Daemon.Waking.{waking}
use teeproxyd.Daemon.{
  Daemon, Wakeup, accept_client, reap, check_health, act_on, probe_ca, is_up, reset_counts,
  rest_of_round, unless_term, round, run, shut_down,
}

module _ (env : Env) (config : Config) where
  -- From a daemon and a history to others.
  abbrev pub Goes : (ℕ → Bool) → Bool → Bool → Daemon × Trace → Daemon × Trace → Type 0
  Goes mortal launching careless a b =
      Acts env config mortal launching careless (managers a.0.startup, a.1)
        (managers b.0.startup, b.1)

module _ (env : Env) (config : Config) (mortal : ℕ → Bool) (launching careless : Bool) where
  -- A client may have the VM launched.
  pub accept_client-Goes :
      (started_at : ℕ) (client : Option Stream) (d : Daemon) (t : Trace)
      → (is_some client ≡ true → launching ≡ true)
      → (careless ≡ false → client ≡ none)
      → Goes env config mortal launching careless
          (d, t)
          (accept_client env config started_at client d t)
  unfolding accept_client
  accept_client-Goes started_at none d t may none_here = here
  accept_client-Goes started_at (some stream) d t may none_here =
      Acts-weaken (λ h. may refl) (λ h. cc (none_here h))
        (handle_client-Acts env config mortal d.phase started_at stream (managers d.startup) t)

  talk-Acts :
      (outcome : Connect) (m : Managers) (t : Trace)
      → Acts env config mortal launching careless (m, t) (m, (talk env outcome t).1)
  talk-Acts connected m t = act (calls (exchange _) refl)
  talk-Acts _ m t = here

  probe-Acts :
      (h : HealthMonitor) (m : Managers) (t : Trace)
      → Acts env config mortal launching careless (m, t) (m, (probe env h t).1)
  unfolding probe
  probe-Acts h m t =
      Acts-trans (act (calls (connect h.port 2) refl)) (talk-Acts (env.connect_at h.port 2 t) m _)

  act_on-Acts :
      (result : HealthResult) (m : Managers) (t : Trace)
      → let (ca, t') = act_on env config result m.ca t in
        Acts env config mortal launching careless (m, t) (record m { ca = ca }, t')
  act_on-Acts healthy m t = here
  act_on-Acts (degraded n) m t = here
  act_on-Acts restart_needed m t =
      Acts-trans (act ca_stops) (unfold Ca.stop in act (ca_starts (λ h. refl)))

  pub probe_ca-Goes :
      (d : Daemon) (t : Trace)
      → Goes env config mortal launching careless (d, t) (probe_ca env config d t)
  unfolding probe_ca
  probe_ca-Goes d t =
      let m = managers d.startup in
      let (probed, u) = probe env d.health t in
      elim (Bool-cases (is_up d.ca.state)) [
        | inl up ↦ rw up (Acts-trans (probe-Acts d.health m t) (act_on-Acts probed.1 m u))
        | inr down ↦ rw down here
      ]

  pub check_health-Goes :
      (d : Daemon) (t : Trace)
      → Goes env config mortal launching careless (d, t) (check_health env config d t)
  unfolding check_health
  check_health-Goes d t =
      let ticked : Acts env config mortal launching careless (managers d.startup, t)
          (managers d.startup, clock ∷ t) =
        act (calls clock refl) in
      elim (Bool-cases (leb (secs config.health_interval_secs) (env.now_at t - d.last_health))) [
        | inl due ↦
            rw due (
              Acts-trans ticked (Acts-trans (probe_ca-Goes d (clock ∷ t)) (act (calls clock refl))))
        | inr early ↦ rw early ticked
      ]

  pub reset_counts-Goes :
      (d : Daemon) (t : Trace)
      → Goes env config mortal launching careless (d, t) (reset_counts env config d t)
  unfolding reset_counts
  reset_counts-Goes d t = Acts-trans (act vm_resets) (act ca_resets)

  pub advance_startup-Goes :
      (d : Daemon) (t : Trace)
      → Permits launching careless d.phase d.startup
      → let (startup, t') = advance_startup env config d.startup t in
        Goes env config mortal launching careless (d, t) (record d { startup = startup }, t')
  advance_startup-Goes d t may =
      advance_startup-Acts env config mortal launching careless d.startup t may

  pub shut_down-Goes :
      (d : Daemon) (t : Trace)
      → Goes env config mortal launching careless (d, t) (shut_down env config d t)
  unfolding shut_down
  shut_down-Goes d t = Acts-trans (act ca_stops) (act vm_stops)

module _ (env : Env) (config : Config) (mortal : ℕ → Bool) where
  pub rest_of_round-Goes :
      (started_at : ℕ) (client : Option Stream) (d : Daemon) (t : Trace)
      → Goes env config mortal true true (d, t) (rest_of_round env config started_at client d t)
  unfolding rest_of_round
  rest_of_round-Goes started_at client d t =
      let (served, t₁) = accept_client env config started_at client d t in
      let (startup, t₂) = advance_startup env config served.startup t₁ in
      let advanced : Daemon = record served { startup = startup } in
      let (checked, t₃) = check_health env config advanced t₂ in
      Acts-trans
        (accept_client-Goes env config mortal true true started_at client d t (λ h. refl) (λ h. cc))
        (Acts-trans
          (advance_startup-Goes env config mortal true true served t₁
            (Permits-any served.phase served.startup))
          (Acts-trans (check_health-Goes env config mortal true true advanced t₂)
            (reset_counts-Goes env config mortal true true checked t₃)))

  unless_term-Goes :
      (got_term : Bool) (started_at : ℕ) (client : Option Stream) (d : Daemon) (t : Trace)
      → let (step, t') = unless_term env config got_term started_at client d t in
        Goes env config mortal true true (d, t) (step.0, t')
  unfolding unless_term
  unless_term-Goes true started_at client d t = here
  unless_term-Goes false started_at client d t = rest_of_round-Goes started_at client d t

module _ (env : Env) (config : Config) (mortal : ℕ → Bool) (launching careless : Bool) where
  pub reap-Goes :
      (got_chld : Bool) (statuses : List WaitStatus) (d : Daemon) (t : Trace)
      → MayDie mortal statuses
      → Goes env config mortal launching careless (d, t) (reap env config got_chld statuses d t)
  unfolding reap
  reap-Goes false statuses d t all = here
  reap-Goes true statuses d t all =
      reap_children-Acts env config mortal launching careless statuses (managers d.startup) t all

  -- What the round does before the test for a shutdown signal.
  pub waking-Goes :
      (started_at : ℕ) (w : Wakeup) (d : Daemon) (t : Trace)
      → MayDie mortal w.statuses
      → Goes env config mortal launching careless (d, t) (waking env config started_at w d t)
  waking-Goes started_at w d t all =
      Acts-trans (Acts-trans (act (calls clock refl)) (act (calls (poll _) refl)))
        (reap-Goes _ w.statuses _ _ all)

-- All that the wakeups hold of deaths is of processes that may die.
abbrev pub MayAllDie : (ℕ → Bool) → List Wakeup → Type 0
MayAllDie mortal [] = Unit
MayAllDie mortal (w ∷ ws) = MayDie mortal w.statuses × MayAllDie mortal ws

anybody-MayAllDie : (ws : List Wakeup) → MayAllDie anybody ws
anybody-MayAllDie [] = tt
anybody-MayAllDie (w ∷ ws) = (anybody-MayDie w.statuses, anybody-MayAllDie ws)

module _ (env : Env) (config : Config) (mortal : ℕ → Bool) where
  round-reported :
      (started_at : ℕ) (w : Wakeup) (d : Daemon) (t : Trace)
      → MayDie mortal w.statuses
      → let (step, t') = round env config started_at w d t in
        Goes env config mortal true true (d, t) (step.0, t')
  unfolding round
  round-reported started_at w d t all =
      let (woken, t₁) = waking env config started_at w d t in
      Acts-trans (waking-Goes env config mortal true true started_at w d t all)
        (unless_term-Goes env config mortal _ started_at w.client woken t₁)

  -- Only those die whose deaths the wakeups hold.
  pub run-reported :
      (started_at : ℕ) (ws : List Wakeup) (d : Daemon) (t : Trace)
      → MayAllDie mortal ws
      → let (step, t') = run env config started_at ws d t in
        Goes env config mortal true true (d, t) (step.0, t')
  unfolding run
  run-reported started_at [] d t all = here
  run-reported started_at (w ∷ ws) d t all =
      let (step, t') = round env config started_at w d t in
      let one = round-reported started_at w d t all.0 in
      elim (Bool-cases step.1) [
        | inl on ↦ rw (on, run) (Acts-trans one (run-reported started_at ws step.0 t' all.1))
        | inr off ↦
            rw (off, run) (Acts-trans one (shut_down-Goes env config mortal true true step.0 t'))
      ]

module _ (env : Env) (config : Config) where
  pub round-Goes :
      (started_at : ℕ) (w : Wakeup) (d : Daemon) (t : Trace)
      → let (step, t') = round env config started_at w d t in
        Goes env config anybody true true (d, t) (step.0, t')
  round-Goes started_at w d t =
      round-reported env config anybody started_at w d t (anybody-MayDie w.statuses)

  pub run-Goes :
      (started_at : ℕ) (ws : List Wakeup) (d : Daemon) (t : Trace)
      → let (step, t') = run env config started_at ws d t in
        Goes env config anybody true true (d, t) (step.0, t')
  run-Goes started_at ws d t =
      run-reported env config anybody started_at ws d t (anybody-MayAllDie ws)
