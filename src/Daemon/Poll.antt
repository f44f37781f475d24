-- ===== src/Daemon/Poll.antt =====
-- src/main.rs: the timeout of `poll` in each round.
use teeproxyd.Base.{
  ℤ, pos, negsuc, ◌≤◌, ◌<◌, ◌≡◌, Bool, arith, ℕ, ◌-◌, ◌/◌, ◌%◌, ◌^◌, true, false, min, max, ltb,
  if◌then◌else◌,
}
use teeproxyd.System.{secs, millis}
use teeproxyd.Config.{Config}
use teeproxyd.Startup.{StartupPhase, waiting_vsock, waiting_ca_port}

-- `as i32` keeps the low 32 bits.
abbrev pub as_i32 : ℕ → ℤ
as_i32 n = let low = n % 2 ^ 32 in if ltb low (2 ^ 31) then pos low else negsuc (2 ^ 32 - low - 1)

-- `.max(100).min(10_000)`
abbrev pub clamp : ℤ → ℕ
clamp (pos n) = min (max n 100) 10000
clamp (negsuc n) = 100

module _ (config : Config) where
  -- `health_interval.saturating_sub(last_health.elapsed())`
  abbrev pub until_health : ℕ → ℕ → ℕ
  until_health last_health time = secs config.health_interval_secs - (time - last_health)

  poll_timeout_ms : StartupPhase → ℕ → ℕ → ℤ
  poll_timeout_ms (waiting_vsock deadline boot_start false) last_health time = pos 1000
  poll_timeout_ms (waiting_vsock deadline boot_start true) last_health time = pos 2000
  poll_timeout_ms (waiting_ca_port deadline) last_health time = pos 500
  poll_timeout_ms _ last_health time = as_i32 (until_health last_health time / millis 1)

  unfoldable pub poll_timeout : StartupPhase → ℕ → ℕ → ℕ
  unfolding poll_timeout_ms
  poll_timeout phase last_health time = clamp (poll_timeout_ms phase last_health time)

  abbrev pub is_waiting : StartupPhase → Bool
  is_waiting (waiting_vsock deadline boot_start delay_done) = true
  is_waiting (waiting_ca_port deadline) = true
  is_waiting _ = false

  -- Outside the two waiting phases, and with an interval below 2147483 seconds, for which the number
  -- of milliseconds is an i32, the wait ends with the next health check at the latest, or after 100 ms.
  pub poll_wakes_for_health :
      (phase : StartupPhase) (last_health time : ℕ)
      → is_waiting phase ≡ false
      → config.health_interval_secs < 2147483
      → millis (poll_timeout phase last_health time)
        ≤ max (millis 100) (until_health last_health time)
  unfolding poll_timeout
  poll_wakes_for_health phase last_health time calm small = ground arith
