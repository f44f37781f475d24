-- ===== src/Daemon/Quiet.antt =====
-- src/main.rs: a round without signals and clients, while the CA answers its health probes.
use teeproxyd.Base.{ℕ, ◌≡◌, refl, ◌∷◌, [], none, Bool-cases, true, inl, inr, arith}
use teeproxyd.System.{Env, Trace, connected, poll, clock}
use teeproxyd.Config.{Config}
use teeproxyd.Health.{probe, record_outcome}
use teeproxyd.Vm
use teeproxyd.Ca
use teeproxyd.Startup.{Startup, advance_startup}
use teeproxyd.Daemon.Poll.{poll_timeout}
use teeproxyd.Daemon.Signals.{deliver}
use teeproxyd.Daemon.{
  Daemon, Wakeup, round, accept_client, reap, rest_of_round, unless_term, check_health,
  reset_counts, probe_ca,
}

pub record IsQuiet (w : Wakeup) : Type 0 where
  pub no_signal : w.signals ≡ []
  pub no_client : w.client ≡ none

-- No signal is pending, and it is the CA's port that is probed.
pub record IsCalm (config : Config) (d : Daemon) : Type 0 where
  pub empty : d.pipe ≡ []
  pub port : d.health.port ≡ config.ca_port

-- What the startup machine can see of itself.
pub record LooksLike (s s' : Startup) : Type 0 where
  pub phase : s.phase ≡ s'.phase
  pub vm : s.vm.state ≡ s'.vm.state
  pub ca : s.ca.state ≡ s'.ca.state

module _ (env : Env) (config : Config) where
  -- Health probes find the CA.
  abbrev pub IsReachable : Type 0
  IsReachable = (t : Trace) → env.connect_at config.ca_port 2 t ≡ connected

  check_health-healthy :
      (d : Daemon) (t : Trace)
      → IsReachable
      → IsCalm config d
      → let d' = (check_health env config d t).0 in (d'.startup ≡ d.startup) × IsCalm config d'
  unfolding check_health probe_ca probe record_outcome
  check_health-healthy d t reached v = ground (arith, reached (clock ∷ t))

  reset_counts-LooksLike :
      (d : Daemon) (t : Trace)
      → let d' = (reset_counts env config d t).0 in
        LooksLike d'.startup d.startup × (d'.pipe ≡ d.pipe) × (d'.health ≡ d.health)
  unfolding reset_counts Vm.maybe_reset_crash_count Ca.maybe_reset_crash_count
  reset_counts-LooksLike d t = ground arith

  -- The history once `poll` has returned.
  abbrev pub polled : Daemon → Trace → Trace
  polled d t = poll (poll_timeout config d.phase d.last_health (env.now_at t)) ∷ clock ∷ t

  rest_of_round-quiet :
      (started_at : ℕ) (d : Daemon) (t : Trace)
      → IsReachable
      → IsCalm config d
      → let d' = (rest_of_round env config started_at none d t).0 in
        LooksLike d'.startup (advance_startup env config d.startup t).0 × IsCalm config d'
  unfolding rest_of_round accept_client
  rest_of_round-quiet started_at d t reached v =
      let (startup, u) = advance_startup env config d.startup t in
      let advanced : Daemon = record d { startup = startup } in
      let calm : IsCalm config advanced = record { empty = v.empty; port = v.port } in
      let (checked, u') = check_health env config advanced u in
      ground
        (arith, check_health-healthy advanced u reached calm, reset_counts-LooksLike checked u')

  -- A quiet round is one call of `advance_startup`, as far as the startup machine can see.
  pub round-quiet :
      (started_at : ℕ) (w : Wakeup) (d : Daemon) (t : Trace)
      → IsReachable
      → IsQuiet w
      → IsCalm config d
      → let (step, t') = round env config started_at w d t in
        (step.1 ≡ true)
        × LooksLike step.0.startup (advance_startup env config d.startup (polled d t)).0
        × IsCalm config step.0
  unfolding round reap unless_term deliver
  round-quiet started_at w d t reached q v =
      let emptied : Daemon = record d { pipe = [] } in
      let calm : IsCalm config emptied = record { empty = refl; port = v.port } in
      let rest = rest_of_round-quiet started_at emptied (polled d t) reached calm in
      elim (Bool-cases w.pipe_ready) [
        | inl ready ↦ rw (ready, q.no_signal, q.no_client, v.empty) (refl, rest.0, rest.1)
        | inr unready ↦ rw (unready, q.no_signal, q.no_client, v.empty) (refl, rest.0, rest.1)
      ]
