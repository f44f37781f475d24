-- ===== src/Health/Asks.antt =====
-- src/health.rs: a probe asks once.
use teeproxyd.Base.{suc, ◌≡◌, refl, ◌∷◌}
use teeproxyd.System.{Env, Trace, Connect, connected, connect}
use teeproxyd.Process.Outer.{probes}
use teeproxyd.Health.{HealthMonitor, probe, talk}

module _ (env : Env) where
  talk-probes : (outcome : Connect) (t : Trace) → probes (talk env outcome t).1 ≡ probes t
  unfolding probes
  talk-probes connected t = refl
  talk-probes _ t = refl

  pub probe-probes : (h : HealthMonitor) (t : Trace) → probes (probe env h t).1 ≡ suc (probes t)
  unfolding probe probes
  probe-probes h t = talk-probes (env.connect_at h.port 2 t) (connect h.port 2 ∷ t)
