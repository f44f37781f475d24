-- ===== src/Daemon/Spacing.antt =====
-- src/main.rs: how far apart the health probes of one check and of the next are.
use teeproxyd.Base.{
  true, ◌-◌, ℕ, ◌+◌, ◌*◌, ◌≤◌, ◌≡◌, refl, ap, sym, ◌∙◌, ◌∷◌, arith, leb, leb→le, Bool-cases, inl,
  inr, zero, suc, ◌<◌, max,
}
use teeproxyd.Acts.{anybody}
use teeproxyd.System.{Env, Trace, IsClock, clock, secs}
use teeproxyd.Config.{Config}
use teeproxyd.Process.Growth.{Extends, same, more, Extends-trans, Extends-now}
use teeproxyd.Acts.Growth.{Acts-Extends}
use teeproxyd.Daemon.Acts.{probe_ca-Goes, check_health-Goes}
use teeproxyd.Process.Outer.{outer, probes, probes-outer}
use teeproxyd.Health.{probe}
use teeproxyd.Health.Asks.{probe-probes}
use teeproxyd.Daemon.Silence.{act_on-outer}
use teeproxyd.Daemon.{Daemon, check_health, act_on, probe_ca, is_up}

-- What is silent to the outside is no health probe.
pub silent-probes : (t t' : Trace) → outer t' ≡ outer t → probes t' ≡ probes t
silent-probes t t' e = sym (probes-outer t') ∙ ap probes e ∙ probes-outer t

-- From the one state to the other, `last_health` has moved on by at least one interval for each
-- probe, and it is no later than it was before or than the time now.
pub record Spaced (env : Env) (interval : ℕ) (before after : Daemon × Trace) : Type 0 where
  pub count : ℕ
  pub probed : probes after.1 ≡ count + probes before.1
  pub spaced : before.0.last_health + count * interval ≤ after.0.last_health
  pub grown : Extends before.1 after.1
  pub past : after.0.last_health ≤ max before.0.last_health (env.now_at after.1)

pub Spaced-refl :
    (env : Env) (interval : ℕ) (a b : Daemon × Trace)
    → b.0.last_health ≡ a.0.last_health
    → probes b.1 ≡ probes a.1
    → Extends a.1 b.1
    → Spaced env interval a b
Spaced-refl env interval a b kept quiet grown = record {
  count = 0;
  probed = omega (arith, quiet);
  spaced = omega (arith, kept);
  grown = grown;
  past = omega (arith, kept);
}

pub Spaced-trans :
    (env : Env) (interval : ℕ) {a b c : Daemon × Trace}
    → IsClock env
    → Spaced env interval a b
    → Spaced env interval b c
    → Spaced env interval a c
Spaced-trans env interval clocked p q = record {
  count = q.count + p.count;
  probed = omega (arith, p.probed, q.probed);
  spaced = omega (arith, p.spaced, q.spaced);
  grown = Extends-trans p.grown q.grown;
  past = omega (arith, p.past, q.past, Extends-now env clocked q.grown);
}

at_most_once : (n k : ℕ) → n ≤ 1 → n * k ≤ k
at_most_once zero k h = omega arith
at_most_once (suc zero) k h = omega arith
at_most_once (suc (suc n)) k h = absurd (omega arith)

module _ (env : Env) (config : Config) (c : IsClock env) where
  -- The CA is probed once, or not at all.
  probe_ca-probes :
      (d : Daemon) (t : Trace)
      → (n : ℕ) × (n ≤ 1) × (probes (probe_ca env config d t).1 ≡ n + probes t)
  unfolding probe_ca
  probe_ca-probes d t =
      let (probed, u) = probe env d.health t in
      let asked =
        silent-probes u (act_on env config probed.1 d.ca u).1
          (act_on-outer env config probed.1 d.ca u)
        ∙ probe-probes env d.health t in
      elim (Bool-cases (is_up d.ca.state)) [
        | inl up ↦ rw up (1, omega arith, omega (arith, asked))
        | inr down ↦ rw down (0, omega arith, omega arith)
      ]

  pub check_health-Spaced :
      (d : Daemon) (t : Trace)
      → 1 ≤ config.health_interval_secs
      → Spaced env (secs config.health_interval_secs) (d, t) (check_health env config d t)
  unfolding check_health probes
  check_health-Spaced d t some_time =
      let interval = secs config.health_interval_secs in
      let positive : 0 < interval = omega (arith, some_time) in
      let (probed, u) = probe_ca env config d (clock ∷ t) in
      let (n, small, asked) = probe_ca-probes d (clock ∷ t) in
      let later =
        Extends-now env c
          (Acts-Extends env config (probe_ca-Goes env config anybody true true d (clock ∷ t))) in
      let ticks = c.monotone clock t in
      let ends = c.monotone clock u in
      let grown = Acts-Extends env config (check_health-Goes env config anybody true true d t) in
      elim (Bool-cases (leb interval (env.now_at t - d.last_health))) [
        | inl due ↦
            let waited : interval ≤ env.now_at t - d.last_health = leb→le interval _ due in
            rw due (record {
              count = n;
              probed = asked;
              spaced = omega (arith, waited, later, ticks, at_most_once n interval small, positive);
              grown = rw due at grown;
              past = omega (arith, ends);
            })
        | inr early ↦
            rw early (Spaced-refl env interval (d, t) (d, clock ∷ t) refl refl (more same clock))
      ]
