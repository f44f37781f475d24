-- ===== src/Daemon/Override.antt =====
-- src/main.rs: what becomes of a client's command to stop the CA while the startup is about to start
-- it.
use teeproxyd.Base.{ℕ, ◌∷◌, ◌≡◌, ◌∙◌, true, Option, arith, is_some}
use teeproxyd.System.{Env, Trace, clock, ok}
use teeproxyd.Config.{Config}
use teeproxyd.Health.{HealthResult, healthy, degraded, restart_needed, probe}
use teeproxyd.Ca
use teeproxyd.Ca.{CaManager, CaState}
use teeproxyd.Ca.Lifecycle.{ca_start_outcome}
use teeproxyd.Startup.{Startup, ca_starting, advance_startup}
use teeproxyd.Startup.Phases.{IsTracked, advance_startup-ca}
use teeproxyd.Ipc.Reader.{Stream}
use teeproxyd.Daemon.Steps.{accept_client-IsTracked, accept_client-phase}
use teeproxyd.Daemon.{
  Daemon, rest_of_round, accept_client, check_health, reset_counts, act_on, probe_ca,
}

-- The CA is Running, and has a process.
pub record IsRunning (ca : CaManager) : Type 0 where
  pub state : ca.state ≡ CaState.running
  pub child : is_some ca.child_pid ≡ true

module _ (env : Env) (config : Config) where
  abbrev pub CaStarts : Type 0
  CaStarts = (ca : CaManager) (t : Trace) → (Ca.start env config config.vsock_cid ca t).0.1 ≡ ok tt

  start-IsRunning :
      (ca : CaManager) (t : Trace)
      → CaStarts
      → IsRunning (Ca.start env config config.vsock_cid ca t).0.0
  start-IsRunning ca t starts =
      ground (arith, ca_start_outcome env config config.vsock_cid ca t, starts ca t)

  advance_startup-IsRunning :
      (s : Startup) (t : Trace)
      → IsTracked s
      → s.phase ≡ ca_starting
      → CaStarts
      → IsRunning (advance_startup env config s t).0.ca
  advance_startup-IsRunning s t v e starts =
      rw (advance_startup-ca env config s t v e) (start-IsRunning s.ca t starts)

  act_on-IsRunning :
      (result : HealthResult) (ca : CaManager) (t : Trace)
      → CaStarts
      → IsRunning ca
      → IsRunning (act_on env config result ca t).0
  act_on-IsRunning healthy ca t starts v = v
  act_on-IsRunning (degraded n) ca t starts v = v
  act_on-IsRunning restart_needed ca t starts v =
      let (stopped, u) = Ca.stop env config ca t in start-IsRunning stopped u starts

  check_health-IsRunning :
      (d : Daemon) (t : Trace)
      → CaStarts
      → IsRunning d.ca
      → IsRunning (check_health env config d t).0.ca
  unfolding check_health probe_ca
  check_health-IsRunning d t starts v =
      let (probed, u) = probe env d.health (clock ∷ t) in
      ground (arith, v, act_on-IsRunning probed.1 d.ca u starts v)

  reset_counts-IsRunning :
      (d : Daemon) (t : Trace) → IsRunning d.ca → IsRunning (reset_counts env config d t).0.ca
  unfolding reset_counts Ca.maybe_reset_crash_count
  reset_counts-IsRunning d t v = ground (arith, v)

  -- A client cannot stop the CA in the round in which the startup starts it: in CaStarting, with
  -- managers that hold no child while they are down, if starts of the CA succeed, then whatever the
  -- client of the round has asked for, also to stop everything, the CA is Running with a process at
  -- the end of the round.
  pub stop_is_overridden :
      (started_at : ℕ) (client : Option Stream) (d : Daemon) (t : Trace)
      → IsTracked d.startup
      → d.phase ≡ ca_starting
      → CaStarts
      → IsRunning (rest_of_round env config started_at client d t).0.ca
  unfolding rest_of_round
  stop_is_overridden started_at client d t v e starts =
      let (served, t₁) = accept_client env config started_at client d t in
      let (startup, t₂) = advance_startup env config served.startup t₁ in
      let advanced : Daemon = record served { startup = startup } in
      let (checked, t₃) = check_health env config advanced t₂ in
      reset_counts-IsRunning checked t₃ (
        check_health-IsRunning advanced t₂ starts (
          advance_startup-IsRunning served.startup t₁
            (accept_client-IsTracked env config started_at client d t v)
            (accept_client-phase env config started_at client d t ∙ e) starts))
