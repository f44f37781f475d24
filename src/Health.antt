-- ===== src/Health.antt =====
-- src/health.rs: the health probe of the CA and its two failure counters.
mod UnitTests
pub mod Counters
pub mod Asks
use teeproxyd.Base.{ℕ, suc, ◌+◌, ◌%◌, ◌^◌, ◌<>◌, List, leb, if◌then◌else◌, codes}
use teeproxyd.System.{
  Connect, connected, refused, timed_out, other_error, Env, M, pure, ◌>>=◌, ◌>>◌, connect_to,
  exchange_bytes,
}

pub data HealthResult : Type 0 where
  healthy : HealthResult  -- HealthResult::Ok
  degraded : ℕ → HealthResult
  restart_needed : HealthResult

pub record HealthMonitor : Type 0 where
  pub port : ℕ
  pub fail_threshold : ℕ
  pub consecutive_failures : ℕ
  pub consecutive_timeouts : ℕ
  pub timeout_threshold : ℕ

-- u32 arithmetic wraps.
abbrev pub u32 : ℕ → ℕ
u32 n = n % 2 ^ 32

unfoldable pub new : ℕ → ℕ → HealthMonitor
new port fail_threshold = record {
  port = port;
  fail_threshold = fail_threshold;
  consecutive_failures = 0;
  consecutive_timeouts = 0;
  timeout_threshold = 10;
}

count_refused : HealthMonitor → HealthMonitor × HealthResult
count_refused h =
    let failures = u32 (h.consecutive_failures + 1) in
    if leb h.fail_threshold failures
    then (record h { consecutive_timeouts = 0; consecutive_failures = 0 }, restart_needed)
    else (record h { consecutive_timeouts = 0; consecutive_failures = failures }, degraded failures)

count_timeout : HealthMonitor → HealthMonitor × HealthResult
count_timeout h =
    let timeouts = u32 (h.consecutive_timeouts + 1) in
    if leb h.timeout_threshold timeouts
    then (record h { consecutive_timeouts = 0 }, restart_needed)
    else (record h { consecutive_timeouts = timeouts }, healthy)

-- What `probe` does with the outcome of the connection.
unfoldable pub record_outcome : Connect → HealthMonitor → HealthMonitor × HealthResult
unfolding count_refused count_timeout
record_outcome connected h =
    (record h { consecutive_failures = 0; consecutive_timeouts = 0 }, healthy)
record_outcome refused h = count_refused h
record_outcome timed_out h = count_timeout h
record_outcome other_error h = (h, healthy)

abbrev pub health_request : List ℕ
health_request =
    codes
      "GET /health HTTP/1.0\r\nHost: 127.0.0.1\r\nUser-Agent: teeproxyd-health\r\nConnection: close\r\n\r\n"

module _ (env : Env) where
  -- The request is written to a connection that is open, and the answer is dropped.
  abbrev pub talk : Connect → M (Unit {0})
  talk connected = exchange_bytes health_request
  talk refused = pure tt
  talk timed_out = pure tt
  talk other_error = pure tt

  unfoldable pub probe : HealthMonitor → M (HealthMonitor × HealthResult)
  unfolding record_outcome
  probe h = do outcome ← connect_to env h.port 2; talk outcome; pure (record_outcome outcome h)
