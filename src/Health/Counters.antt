-- ===== src/Health/Counters.antt =====
-- src/health.rs: what the two counters count, and when a restart is asked for.
use teeproxyd.Base.{ℕ, suc, ◌+◌, ◌<◌, ◌^◌, ◌≡◌, ◌≢◌, refl, ◌∙◌, ◌⊎◌, ◌↔◌, List, [], ◌∷◌, arith, All}
use teeproxyd.System.{Connect, connected, refused, timed_out}
use teeproxyd.Health.{HealthMonitor, restart_needed, new, record_outcome}

-- The counters stand below their thresholds, which are u32.
pub record IsBounded (h : HealthMonitor) : Type 0 where
  pub failures : (h.consecutive_failures ≡ 0) ⊎ (h.consecutive_failures < h.fail_threshold)
  pub timeouts : h.consecutive_timeouts < h.timeout_threshold
  pub fail_u32 : h.fail_threshold < 2 ^ 32
  pub timeout_u32 : h.timeout_threshold < 2 ^ 32

pub new-IsBounded : (port n : ℕ) → n < 2 ^ 32 → IsBounded (new port n)
unfolding new
new-IsBounded port n h = ground arith

-- If the counters are below their thresholds, no outcome of a probe brings one to its threshold
-- or makes it wrap, and a restart is asked for only by a refusal or by a timeout, which then has
-- its counter at 0.
pub record_outcome-IsBounded :
    (outcome : Connect) (h : HealthMonitor)
    → IsBounded h
    → let (h', result) = record_outcome outcome h in
      IsBounded h'
      × ((result ≢ restart_needed)
          ⊎ (((outcome ≡ refused) × (h'.consecutive_failures ≡ 0))
              ⊎ ((outcome ≡ timed_out) × (h'.consecutive_timeouts ≡ 0))))
unfolding record_outcome
record_outcome-IsBounded outcome h v = ground arith

-- The monitor after some probes, the first outcome first.
pub probes : HealthMonitor → List Connect → HealthMonitor
probes h [] = h
probes h (o ∷ os) = probes (record_outcome o h).0 os

-- How many of some outcomes are refusals.
abbrev pub refusals : List Connect → ℕ
refusals [] = 0
refusals (refused ∷ os) = suc (refusals os)
refusals (_ ∷ os) = refusals os

failures-step :
    (o : Connect) (os : List Connect) (h : HealthMonitor)
    → h.fail_threshold < 2 ^ 32
    → o ≢ connected
    → h.consecutive_failures + refusals (o ∷ os) < h.fail_threshold
    → let h' = (record_outcome o h).0 in
      (h'.fail_threshold ≡ h.fail_threshold)
      × (h'.consecutive_failures + refusals os ≡ h.consecutive_failures + refusals (o ∷ os))
unfolding record_outcome
failures-step connected os h w ne below = absurd (ne refl)
failures-step _ os h w ne below = ground arith

failures-probes :
    (os : List Connect) (h : HealthMonitor)
    → h.fail_threshold < 2 ^ 32
    → All (λ o. o ≢ connected) os
    → h.consecutive_failures + refusals os < h.fail_threshold
    → let h' = probes h os in
      (h'.fail_threshold ≡ h.fail_threshold)
      × (h'.consecutive_failures ≡ h.consecutive_failures + refusals os)
unfolding probes
failures-probes [] h w lost below = (refl, omega arith)
failures-probes (o ∷ os) h w lost below =
    let (same, moved) = failures-step o os h w lost.0 below in
    let (same', moved') =
      failures-probes os (record_outcome o h).0 (omega arith) lost.1 (omega arith) in
    (same' ∙ same, moved' ∙ moved)

-- From a new monitor with a u32 threshold, with no connection made in between: as long as there
-- were fewer refusals than the threshold, the next refusal asks for a restart exactly when it is
-- the one that reaches the threshold. Timeouts and other errors between the refusals do not count
-- and do not interrupt.
pub restart_at_threshold :
    (port n : ℕ) (os : List Connect)
    → n < 2 ^ 32
    → All (λ o. o ≢ connected) os
    → refusals os < n
    → ((record_outcome refused (probes (new port n) os)).1 ≡ restart_needed) ↔ (refusals os + 1 ≡ n)
unfolding new record_outcome
restart_at_threshold port n os w lost below =
    ground (arith, failures-probes os (new port n) w lost (omega arith))
