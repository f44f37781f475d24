-- ===== src/Daemon/Unhealthy.antt =====
-- src/main.rs: what the main loop does about a CA that refuses its health probes.
use teeproxyd.Base.{◌+◌, ◌-◌, ◌≤◌, ◌<◌, ◌^◌, ◌≡◌, refl, ap, ◌∙◌, List, [], ◌∷◌, true, arith, length}
use teeproxyd.System.{Env, Trace, refused, clock, connect, secs}
use teeproxyd.Config.{Config}
use teeproxyd.Health.{probe, record_outcome}
use teeproxyd.Ca
use teeproxyd.Ca.{CaManager}
use teeproxyd.Ca.Lifecycle.{ca_start_outcome}
use teeproxyd.Daemon.{Daemon, check_health, probe_ca, is_up}

module _ (env : Env) (config : Config) where
  -- A check of the CA's health on each of these histories.
  unfoldable pub checks : List Trace → Daemon → Daemon
  checks [] d = d
  checks (t ∷ ts) d = checks ts (check_health env config d t).0

  abbrev pub IsDue : Trace → Daemon → Type 0
  IsDue t d = secs config.health_interval_secs ≤ env.now_at t - d.last_health

  abbrev pub AreDue : List Trace → Daemon → Type 0
  AreDue [] d = Unit
  AreDue (t ∷ ts) d = IsDue t d × AreDue ts (check_health env config d t).0

  -- The CA is up, and its monitor has not reached its threshold.
  pub record IsWatched (d : Daemon) : Type 0 where
    pub up : is_up d.ca.state ≡ true
    pub below : d.health.consecutive_failures < d.health.fail_threshold
    pub small : d.health.fail_threshold < 2 ^ 32
    pub refuses : (t : Trace) → env.connect_at d.health.port 2 t ≡ refused

  -- The CA after a stop and a start.
  abbrev pub restarted : CaManager → Trace → CaManager
  restarted ca t =
      let (stopped, t') = Ca.stop env config ca t in
      (Ca.start env config config.vsock_cid stopped t').0.0

  one_refusal :
      (d : Daemon) (t : Trace)
      → IsDue t d
      → IsWatched d
      → d.health.consecutive_failures + 1 < d.health.fail_threshold
      → let d' = (check_health env config d t).0 in
        (d'.ca ≡ d.ca)
        × IsWatched d'
        × (d'.health.consecutive_failures ≡ d.health.consecutive_failures + 1)
        × (d'.health.fail_threshold ≡ d.health.fail_threshold)
        × (d'.health.port ≡ d.health.port)
  unfolding check_health probe_ca probe record_outcome
  one_refusal d t due v below = ground (arith, v.refuses (clock ∷ t))

  last_refusal :
      (d : Daemon) (t : Trace)
      → IsDue t d
      → IsWatched d
      → d.health.consecutive_failures + 1 ≡ d.health.fail_threshold
      → let d' = (check_health env config d t).0 in
        (d'.ca ≡ restarted d.ca (connect d.health.port 2 ∷ clock ∷ t))
        × (d'.health.consecutive_failures ≡ 0)
  unfolding check_health probe_ca probe record_outcome
  last_refusal d t due v reached = ground (arith, v.refuses (clock ∷ t))

  first_refusals :
      (ts : List Trace) (d : Daemon)
      → AreDue ts d
      → IsWatched d
      → d.health.consecutive_failures + length ts < d.health.fail_threshold
      → let d' = checks ts d in
        (d'.ca ≡ d.ca)
        × IsWatched d'
        × (d'.health.consecutive_failures ≡ d.health.consecutive_failures + length ts)
        × (d'.health.fail_threshold ≡ d.health.fail_threshold)
        × (d'.health.port ≡ d.health.port)
  unfolding checks
  first_refusals [] d due v below = (refl, v, omega arith, refl, refl)
  first_refusals (t ∷ ts) d due v below =
      let (same, v', counted, kept, port) = one_refusal d t due.0 v (omega arith) in
      let (same', v'', counted', kept', port') =
        first_refusals ts (check_health env config d t).0 due.1 v' (omega (arith, counted, kept)) in
      (same' ∙ same, v'', omega (arith, counted', counted), kept' ∙ kept, port' ∙ port)

  restarted-crash_count :
      (ca : CaManager) (t : Trace) → (restarted ca t).crash_count ≡ ca.crash_count
  unfolding Ca.stop
  restarted-crash_count ca t =
      let (stopped, t') = Ca.stop env config ca t in
      (ca_start_outcome env config config.vsock_cid stopped t').0

  -- A CA that is up and refuses every probe: the health checks that are due leave it alone as long
  -- as there are fewer refusals than the threshold; the one that reaches the threshold stops it and
  -- starts it again, and the count of refusals starts anew. The crash count does not change, so that
  -- its limit does not bound these restarts.
  pub refused_checks_restart :
      (ts : List Trace) (t : Trace) (d : Daemon)
      → IsWatched d
      → AreDue ts d
      → IsDue t (checks ts d)
      → d.health.consecutive_failures + length ts + 1 ≡ d.health.fail_threshold
      → let d₁ = checks ts d in
        let d₂ = (check_health env config d₁ t).0 in
        (d₁.ca ≡ d.ca)
        × (d₂.ca ≡ restarted d.ca (connect d.health.port 2 ∷ clock ∷ t))
        × (d₂.health.consecutive_failures ≡ 0)
        × (d₂.ca.crash_count ≡ d.ca.crash_count)
  refused_checks_restart ts t d v due due₁ reached =
      let (same, v₁, counted, kept, port) = first_refusals ts d due v (omega arith) in
      let (again, anew) = last_refusal (checks ts d) t due₁ v₁ (omega (arith, counted, kept)) in
      let restart : (check_health env config (checks ts d) t).0.ca
          ≡ restarted d.ca (connect d.health.port 2 ∷ clock ∷ t) =
        again ∙ cc (same, port) in
      (
        same,
        restart,
        anew,
        ap (λ (ca : CaManager). ca.crash_count) restart ∙ restarted-crash_count d.ca _,
      )
