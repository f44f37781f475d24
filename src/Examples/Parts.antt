-- ===== src/Examples/Parts.antt =====
-- The theorems on the parts, at concrete inputs, and runs of the parts.
use teeproxyd.Base.{
  ℕ, ◌+◌, ◌-◌, ◌≤◌, ◌≡◌, ◌≢◌, ◌↔◌, ◌⊎◌, refl, Bool, true, false, not, none, some, [], ◌∷◌, arith,
  codes, length, drop, file_stem,
}
use teeproxyd.System
use teeproxyd.System.{
  Env, Trace, ok, err, Result, is_ok, kill, clock, sigterm, sigkill, secs, millis, refused,
  timed_out, connected, from, join, display, Request, PathBuf, with_extension,
}
use teeproxyd.Process.{graceful_kill, out_of_fuel, wait_exit, rounds}
use teeproxyd.Process.Kill.{
  sent, LastQuery, graceful_kill_ends, graceful_kill-LastQuery, graceful_kill_signals, KilledLate,
  unreaped_child_is_killed,
}
use teeproxyd.Health.{record_outcome, new, restart_needed}
use teeproxyd.Health.Counters.{
  IsBounded, new-IsBounded, record_outcome-IsBounded, restart_at_threshold, probes, refusals,
}
use teeproxyd.LogCollector.{last_lines, join_lines}
use teeproxyd.LogCollector.Tail.{unlines, last_lines-unlines}
use teeproxyd.Examples.World.{calm, calm-IsClock, world}

-- A child that is not reaped answers every query, so it is killed after 3 seconds.
unreaped_child_is_killed_example :
    let (gone, t) = graceful_kill calm 7 3 [] in
    (gone ≡ false) × (sent 7 t ≡ sigkill ∷ sigterm ∷ sent 7 []) × (0 + secs 3 ≤ calm.now_at t)
unreaped_child_is_killed_example = unreaped_child_is_killed calm 7 3 [] calm-IsClock (λ u. refl)

-- A process that is gone after the SIGTERM.
abbrev polite : Env
polite = world answers connected "status"
  where
    answers : ℕ → Trace → Bool
    answers pid [] = true
    answers pid (kill p none ∷ []) = true
    answers pid (_ ∷ t) = false

graceful_kill_runs : (graceful_kill polite 7 3 []).0 ≡ true
unfolding graceful_kill
graceful_kill_runs = refl

graceful_kill_ends_example :
    (wait_exit calm
      (rounds calm 3)
      7
      (calm.now_at (kill 7 (some sigterm) ∷ kill 7 none ∷ []) + secs 3)
      (clock ∷ kill 7 (some sigterm) ∷ kill 7 none ∷ [])).0
    ≢ out_of_fuel
graceful_kill_ends_example = graceful_kill_ends calm 7 3 [] calm-IsClock

graceful_kill-LastQuery_example :
    let (gone, t) = graceful_kill calm 7 3 [] in LastQuery calm 7 (not gone) t
graceful_kill-LastQuery_example = graceful_kill-LastQuery calm 7 3 []

graceful_kill_signals_example :
    let t = (graceful_kill calm 7 3 []).1 in
    ((calm.kill_at 7 none [] ≡ false) × (sent 7 t ≡ sent 7 []))
    ⊎ ((calm.kill_at 7 none [] ≡ true)
        × ((sent 7 t ≡ sigterm ∷ sent 7 []) ⊎ KilledLate calm 7 3 [] t))
graceful_kill_signals_example = graceful_kill_signals calm 7 3 [] calm-IsClock

abbrev log : PathBuf
log = join (from "/data") "pvm.log"

rotated_name : with_extension log "log.1" ≡ join (from "/data") "pvm.log.1"
unfolding with_extension file_stem
rotated_name = refl

-- Two refusals with a timeout between them, and the third asks for a restart.
restart_at_threshold_example :
    ((record_outcome refused (probes (new 19030 3) (refused ∷ timed_out ∷ refused ∷ []))).1
      ≡ restart_needed)
    ↔ (refusals (refused ∷ timed_out ∷ refused ∷ []) + 1 ≡ 3)
restart_at_threshold_example =
    restart_at_threshold 19030 3 (refused ∷ timed_out ∷ refused ∷ []) (omega arith)
      ((λ e. cc), ((λ e. cc), ((λ e. cc), tt))) (omega arith)

record_outcome-IsBounded_example :
    IsBounded (record_outcome refused (new 19030 3)).0
    × (((record_outcome refused (new 19030 3)).1 ≢ restart_needed)
        ⊎ (((◌≡◌ {A = System.Connect} refused refused)
              × ((record_outcome refused (new 19030 3)).0.consecutive_failures ≡ 0))
            ⊎ ((◌≡◌ {A = System.Connect} refused timed_out)
                × ((record_outcome refused (new 19030 3)).0.consecutive_timeouts ≡ 0))))
record_outcome-IsBounded_example =
    record_outcome-IsBounded refused (new 19030 3) (new-IsBounded 19030 3 (omega arith))

last_lines-unlines_example :
    last_lines (unlines (codes "ab" ∷ codes "c" ∷ codes "d" ∷ [])) 2
    ≡ join_lines (
        drop
          (length (codes "ab" ∷ codes "c" ∷ codes "d" ∷ []) - 2)
          (codes "ab" ∷ codes "c" ∷ codes "d" ∷ []))
last_lines-unlines_example =
    last_lines-unlines (codes "ab" ∷ codes "c" ∷ codes "d" ∷ []) 2 (omega arith)
