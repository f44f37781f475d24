-- ===== src/Health/UnitTests.antt =====
-- src/health.rs: its tests, and in which worlds those that connect pass.
use teeproxyd.Base.{ℕ, Bool, true, false, ◌&&◌, ◌==◌, ◌≡◌, refl, if◌then◌else◌}
use teeproxyd.System.{Env, Trace, refused, connected}
use teeproxyd.Health.{
  HealthMonitor, HealthResult, healthy, degraded, restart_needed, new, probe, record_outcome,
}

abbrev is_healthy : HealthResult → Bool
is_healthy healthy = true
is_healthy _ = false

abbrev is_restart : HealthResult → Bool
is_restart restart_needed = true
is_restart _ = false

new_monitor_starts_healthy : Bool
new_monitor_starts_healthy =
    let h = new 1 3 in h.consecutive_failures == 0 && h.consecutive_timeouts == 0

threshold_defaults : Bool
threshold_defaults =
    let h = new 19030 3 in h.fail_threshold == 3 && h.timeout_threshold == 10 && h.port == 19030

module _ (env : Env) where
  -- The arms of the `match` on the first result.
  abbrev after_first : HealthResult → HealthMonitor → Trace → Bool
  after_first (degraded n) h t =
      let (h₂, r₂) = (probe env h t).0 in
      if n == 1 then is_restart r₂ && h₂.consecutive_failures == 0 else true
  after_first restart_needed h t = true
  after_first healthy h t = true

  probe_unreachable_port_returns_degraded_then_restart : Trace → Bool
  probe_unreachable_port_returns_degraded_then_restart t =
      let ((h, r₁), t₁) = probe env (new 1 2) t in after_first r₁ h t₁

  -- `port` is that of the listener that the test binds.
  probe_localhost_open_port_returns_ok : ℕ → Trace → Bool
  probe_localhost_open_port_returns_ok port t =
      let (h, r) = (probe env (new port 3) t).0 in is_healthy r && h.consecutive_failures == 0

constructor_tests_pass : (new_monitor_starts_healthy ≡ true) × (threshold_defaults ≡ true)
unfolding new_monitor_starts_healthy threshold_defaults new
constructor_tests_pass = (refl, refl)

module _ (env : Env) (t : Trace) where
  -- With nothing at port 1.
  unreachable_port_test_passes :
      ((u : Trace) → env.connect_at 1 2 u ≡ refused)
      → probe_unreachable_port_returns_degraded_then_restart env t ≡ true
  unfolding probe_unreachable_port_returns_degraded_then_restart new probe record_outcome
  unreachable_port_test_passes h = rw (h t, h _) refl

  -- With a listener at the port.
  open_port_test_passes :
      (port : ℕ)
      → env.connect_at port 2 t ≡ connected
      → probe_localhost_open_port_returns_ok env port t ≡ true
  unfolding probe_localhost_open_port_returns_ok new probe record_outcome
  open_port_test_passes port h = rw h refl
