-- ===== src/Daemon/Wear.antt =====
-- src/main.rs and src/ca.rs: the crash count of the CA after startup is complete.
use teeproxyd.Base.{
  ◌+◌, ◌^◌, ℕ, ◌≤◌, ◌<◌, ◌≡◌, refl, sym, subst, ◌∙◌, List, [], ◌∷◌, Bool, true, false, none, arith,
}
use teeproxyd.System.{Env, Trace}
use teeproxyd.Config.{Config}
use teeproxyd.Health.{HealthResult, healthy, degraded, restart_needed}
use teeproxyd.Ca
use teeproxyd.Ca.{CaManager, CaState}
use teeproxyd.Ca.Lifecycle.{ca_start_outcome}
use teeproxyd.Startup.{complete, Startup, advance_startup}
use teeproxyd.Startup.Phases.{IsTracked, advance_startup-settled}
use teeproxyd.Ipc.Handlers.{Managers}
use teeproxyd.Daemon.Children.{WaitStatus, exited, signaled, handle_child_death, reap_children}
use teeproxyd.Daemon.Waking.{waking}
use teeproxyd.Daemon.Steps.{reap-phase, round-IsTracked, waking-IsTracked}
use teeproxyd.Daemon.Reach.{round-settled}
use teeproxyd.Daemon.Recovery.{IsQuiet}
use teeproxyd.Daemon.{
  Daemon, Wakeup, round, run, shut_down, accept_client, reap, rest_of_round, unless_term,
  check_health, reset_counts, act_on, is_up,
}

-- The CA is not ready any more and has crashed at least `n` times, and it has no process left once
-- the count is the largest u32.
record IsWorn (n : ℕ) (ca : CaManager) : Type 0 where
  unready : ca.ready_since ≡ none
  counted : n ≤ ca.crash_count
  fits : ca.crash_count < 2 ^ 32
  spent : ca.crash_count + 1 ≡ 2 ^ 32 → (ca.child_pid ≡ none) × (is_up ca.state ≡ false)

module _ (env : Env) (config : Config) (n : ℕ) where
  start-IsWorn :
      (ca : CaManager) (t : Trace)
      → ca.ready_since ≡ none
      → n ≤ ca.crash_count
      → ca.crash_count + 1 < 2 ^ 32
      → IsWorn n (Ca.start env config config.vsock_cid ca t).0.0
  start-IsWorn ca t u c l =
      let o = ca_start_outcome env config config.vsock_cid ca t in
      record {
        unready = rw (o.1) u;
        counted = rw (o.0) c;
        fits = rw (o.0) (omega arith);
        spent = λ e. absurd (omega (arith, o.0));
      }

  handle_child_death-IsWorn :
      (pid : ℕ) (m : Managers) (t : Trace)
      → IsWorn n m.ca
      → IsWorn n (handle_child_death env config pid m t).0.ca
  unfolding handle_child_death Ca.mark_dead Ca.set_state Ca.owns_pid
  handle_child_death-IsWorn pid m t v = ground (arith, start-IsWorn (Ca.mark_dead m.ca) t)

  reap_children-IsWorn :
      (statuses : List WaitStatus) (m : Managers) (t : Trace)
      → IsWorn n m.ca
      → IsWorn n (reap_children env config statuses m t).0.ca
  unfolding reap_children
  reap_children-IsWorn [] m t v = v
  reap_children-IsWorn (exited pid ∷ rest) m t v =
      let (m', t') = handle_child_death env config pid m t in
      reap_children-IsWorn rest m' t' (handle_child_death-IsWorn pid m t v)
  reap_children-IsWorn (signaled pid ∷ rest) m t v =
      let (m', t') = handle_child_death env config pid m t in
      reap_children-IsWorn rest m' t' (handle_child_death-IsWorn pid m t v)
  reap_children-IsWorn (_ ∷ rest) m t v = v

  reap-IsWorn :
      (got_chld : Bool) (statuses : List WaitStatus) (d : Daemon) (t : Trace)
      → IsWorn n d.ca
      → IsWorn n (reap env config got_chld statuses d t).0.ca
  unfolding reap
  reap-IsWorn false statuses d t v = v
  reap-IsWorn true statuses d t v =
      reap_children-IsWorn statuses (record { vm = d.vm; ca = d.ca }) t v

  act_on-IsWorn :
      (result : HealthResult) (ca : CaManager) (t : Trace)
      → IsWorn n ca
      → is_up ca.state ≡ true
      → IsWorn n (act_on env config result ca t).0
  unfolding Ca.stop
  act_on-IsWorn healthy ca t v up = v
  act_on-IsWorn (degraded k) ca t v up = v
  act_on-IsWorn restart_needed ca t v up =
      let (ca', t') = Ca.stop env config ca t in
      let below : ca.crash_count + 1 < 2 ^ 32 = ground (arith, v.fits, v.spent) in
      start-IsWorn ca' t' refl v.counted below

  check_health-IsWorn :
      (d : Daemon) (t : Trace) → IsWorn n d.ca → IsWorn n (check_health env config d t).0.ca
  unfolding check_health
  check_health-IsWorn d t v = grind (arith, act_on-IsWorn)

  reset_counts-IsWorn :
      (d : Daemon) (t : Trace) → IsWorn n d.ca → IsWorn n (reset_counts env config d t).0.ca
  unfolding reset_counts Ca.maybe_reset_crash_count
  reset_counts-IsWorn d t v = ground arith

  unless_term-IsWorn :
      (got_term : Bool) (started_at : ℕ) (d : Daemon) (t : Trace)
      → IsTracked d.startup
      → d.phase ≡ complete
      → IsWorn n d.ca
      → IsWorn n (unless_term env config got_term started_at none d t).0.0.ca
  unfolding unless_term rest_of_round accept_client
  unless_term-IsWorn true started_at d t v e worn = worn
  unless_term-IsWorn false started_at d t v e worn =
      let (startup, t₁) = advance_startup env config d.startup t in
      let advanced : Daemon = record d { startup = startup } in
      let (checked, t₂) = check_health env config advanced t₁ in
      let same = advance_startup-settled env config d.startup t v (rw e refl) in
      reset_counts-IsWorn checked t₂ (
        check_health-IsWorn advanced t₁
          (subst (λ (p : Startup × Trace). IsWorn n p.0.ca) (sym same) worn))

  round-IsWorn :
      (started_at : ℕ) (w : Wakeup) (d : Daemon) (t : Trace)
      → w.client ≡ none
      → IsTracked d.startup
      → d.phase ≡ complete
      → IsWorn n d.ca
      → IsWorn n (round env config started_at w d t).0.0.ca
  unfolding round
  round-IsWorn started_at w d t quiet v e worn =
      let (woken, t₁) = waking env config started_at w d t in
      let same : woken.phase ≡ d.phase = reap-phase env config _ w.statuses _ _ in
      rw quiet (
        unless_term-IsWorn _ started_at woken t₁ (waking-IsTracked env config started_at w d t v)
          (same ∙ e) (reap-IsWorn _ w.statuses _ _ worn))

  shut_down-IsWorn :
      (d : Daemon) (t : Trace)
      → IsWorn n d.ca
      → (n ≤ (shut_down env config d t).0.ca.crash_count)
        × ((shut_down env config d t).0.ca.ready_since ≡ none)
  unfolding shut_down Ca.stop
  shut_down-IsWorn d t worn = (worn.counted, refl)

  run-worn :
      (started_at : ℕ) (ws : List Wakeup) (d : Daemon) (t : Trace)
      → IsQuiet ws
      → IsTracked d.startup
      → d.phase ≡ complete
      → IsWorn n d.ca
      → let ca = (run env config started_at ws d t).0.0.ca in
        (n ≤ ca.crash_count) × (ca.ready_since ≡ none)
  unfolding run
  run-worn started_at [] d t q v e worn = (worn.counted, worn.unready)
  run-worn started_at (w ∷ ws) d t q v e worn =
      let (step, t') = round env config started_at w d t in
      let worn' = round-IsWorn started_at w d t q.0 v e worn in
      let e' = round-settled env config started_at d w t v (rw e refl) ∙ e in
      ground (
        arith,
        shut_down-IsWorn step.0 t' worn',
        run-worn started_at ws step.0 t' q.1 (round-IsTracked env config started_at w d t v) e'
            worn',
      )

module _ (env : Env) (config : Config) where
  -- From a state in which a manager that is down holds no child, startup is complete, the CA has
  -- no time of readiness, as after a death, and its crash count is below 2^32 − 1: no run of the
  -- daemon without clients gives the CA a time of readiness or lowers its crash count, however long
  -- the CA then runs.
  pub crash_count_never_reset :
      (started_at : ℕ) (ws : List Wakeup) (d : Daemon) (t : Trace)
      → IsQuiet ws
      → IsTracked d.startup
      → d.phase ≡ complete
      → d.ca.ready_since ≡ none
      → d.ca.crash_count + 1 < 2 ^ 32
      → let ca = (run env config started_at ws d t).0.0.ca in
        (d.ca.crash_count ≤ ca.crash_count) × (ca.ready_since ≡ none)
  crash_count_never_reset started_at ws d t q v e unready room =
      run-worn env config d.ca.crash_count started_at ws d t q v e (record {
        unready = unready;
        counted = omega arith;
        fits = omega arith;
        spent = λ e. absurd (omega arith);
      })
