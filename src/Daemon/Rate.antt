-- ===== src/Daemon/Rate.antt =====
-- src/main.rs: how many health probes the daemon makes in the time that it runs.
use teeproxyd.Base.{◌-◌, ◌+◌, ◌*◌, ℕ, ◌≤◌, ◌≡◌, List, arith, Option, none, some}
use teeproxyd.System.{Env, Trace, IsClock, secs}
use teeproxyd.Config.{Config, load_with_warnings}
use teeproxyd.Process.Growth.{Extends-now, Minor-Extends}
use teeproxyd.Process.Outer.{Minor-outer, probes}
use teeproxyd.Daemon.Spacing.{silent-probes}
use teeproxyd.Daemon.Probes.{run-Spaced}
use teeproxyd.Daemon.Start.{load_with_warnings-Minor, boot-Minor, IsStamped, boot-IsStamped}
use teeproxyd.Daemon.{Daemon, Wakeup, boot, serve_from, daemon_main}

-- Between the two histories, the probes have taken their time.
abbrev Rated : Env → ℕ → Trace → Trace → Type 0
Rated env interval t u =
    (count : ℕ) × (probes u ≡ count + probes t) × (count * interval ≤ env.now_at u - env.now_at t)

module _ (env : Env) (c : IsClock env) where
  serve_from-Rated :
      (config : Config) (ws : List Wakeup) (t₀ t : Trace) (booted : Option (Daemon × ℕ))
      → 1 ≤ config.health_interval_secs
      → IsStamped env config t₀ (booted, t)
      → probes t ≡ probes t₀
      → Rated env (secs config.health_interval_secs) t₀ (serve_from env config ws booted t).1
  serve_from-Rated config ws t₀ t none some_time v quiet = (0, omega (arith, quiet), omega arith)
  serve_from-Rated config ws t₀ t (some entered) some_time v quiet =
      let spaced = run-Spaced env config c entered.1 ws entered.0 t some_time in
      (
        spaced.count,
        omega (arith, spaced.probed, quiet),
        omega (arith, spaced.spaced, spaced.past, v.0, v.1, Extends-now env c spaced.grown),
      )

  -- The daemon never probes the CA's health more often than its interval allows: from its start to
  -- its end, on a monotonic clock, with an interval that is not 0 in the configuration that it loads,
  -- whatever wakes it and whatever its clients ask for, the number of probes that it has made times
  -- the interval is at most the time for which it has run.
  pub daemon_main-probes_in_time :
      (ws : List Wakeup) (t : Trace)
      → 1 ≤ (load_with_warnings env t).0.health_interval_secs
      → let interval = (load_with_warnings env t).0.health_interval_secs in
        let u = (daemon_main env ws t).1 in
        (probes u - probes t) * secs interval ≤ env.now_at u - env.now_at t
  unfolding daemon_main
  daemon_main-probes_in_time ws t some_time =
      let (config, t₁) = load_with_warnings env t in
      let (booted, t₂) = boot env config t₁ in
      let u = (daemon_main env ws t).1 in
      let (n, made, timely) =
        serve_from-Rated config ws t₁ t₂ booted some_time (boot-IsStamped env config c t₁)
          (silent-probes t₁ t₂ (Minor-outer (boot-Minor env config t₁))) in
      let loaded = silent-probes t t₁ (Minor-outer (load_with_warnings-Minor env t)) in
      let later = Extends-now env c (Minor-Extends (load_with_warnings-Minor env t)) in
      let counted : probes u - probes t ≡ n = omega (arith, made, loaded) in
      rw counted (omega (arith, timely, later))
