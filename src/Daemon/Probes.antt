-- ===== src/Daemon/Probes.antt =====
-- src/main.rs: how often the main loop probes the CA's health.
use teeproxyd.Base.{
  ℕ, ◌≤◌, ◌≡◌, refl, ◌∙◌, List, [], ◌∷◌, Bool, true, false, Option, none, some, Bool-cases, inl,
  inr,
}
use teeproxyd.Daemon.Mortal.{anybody-MayDie}
use teeproxyd.Acts.{anybody}
use teeproxyd.System.{Env, Trace, IsClock, secs}
use teeproxyd.Config.{Config}
use teeproxyd.Process.Growth.{same}
use teeproxyd.Process.Outer.{probes}
use teeproxyd.Acts.Growth.{Acts-Extends}
use teeproxyd.Daemon.Acts.{
  accept_client-Goes, advance_startup-Goes, reset_counts-Goes, waking-Goes, shut_down-Goes,
}
use teeproxyd.Ca
use teeproxyd.Ca.{CaManager}
use teeproxyd.Startup.{advance_startup}
use teeproxyd.Startup.Acts.{Permits-any}
use teeproxyd.Startup.Silence.{advance_startup-outer}
use teeproxyd.Ipc.Reader.{Stream}
use teeproxyd.Ipc.Handlers.{Managers}
use teeproxyd.Ipc.Silence.{vm_stop-outer, ca_stop-outer}
use teeproxyd.Ipc.Probes.{handle_client-probes}
use teeproxyd.Daemon.Children.{WaitStatus}
use teeproxyd.Daemon.Spacing.{Spaced, Spaced-refl, Spaced-trans, silent-probes, check_health-Spaced}
use teeproxyd.Daemon.Silence.{reap_children-outer, reset_counts-outer}
use teeproxyd.Daemon.Waking.{waking}
use teeproxyd.Daemon.{
  Daemon, Wakeup, round, run, shut_down, accept_client, reap, rest_of_round, unless_term,
  check_health, reset_counts,
}

module _ (env : Env) (config : Config) (c : IsClock env) where
  reap-probes :
      (got_chld : Bool) (statuses : List WaitStatus) (d : Daemon) (t : Trace)
      → probes (reap env config got_chld statuses d t).1 ≡ probes t
  unfolding reap
  reap-probes false statuses d t = refl
  reap-probes true statuses d t =
      let m : Managers = record { vm = d.vm; ca = d.ca } in
      silent-probes t _ (reap_children-outer env config statuses m t)

  reap-last_health :
      (got_chld : Bool) (statuses : List WaitStatus) (d : Daemon) (t : Trace)
      → (reap env config got_chld statuses d t).0.last_health ≡ d.last_health
  unfolding reap
  reap-last_health false statuses d t = refl
  reap-last_health true statuses d t = refl

  accept_client-Spaced :
      (interval started_at : ℕ) (client : Option Stream) (d : Daemon) (t : Trace)
      → Spaced env interval (d, t) (accept_client env config started_at client d t)
  unfolding accept_client
  accept_client-Spaced interval started_at none d t =
      Spaced-refl env interval (d, t) (d, t) refl refl same
  accept_client-Spaced interval started_at (some stream) d t =
      let m : Managers = record { vm = d.vm; ca = d.ca } in
      Spaced-refl env interval (d, t) (accept_client env config started_at (some stream) d t) refl
        (handle_client-probes env config d.phase started_at stream m t)
        (Acts-Extends env config (
          accept_client-Goes env config anybody true true started_at (some stream) d t (λ h. refl)
            (λ h. cc)))

  rest_of_round-Spaced :
      (started_at : ℕ) (client : Option Stream) (d : Daemon) (t : Trace)
      → 1 ≤ config.health_interval_secs
      → Spaced env
          (secs config.health_interval_secs)
          (d, t)
          (rest_of_round env config started_at client d t)
  unfolding rest_of_round reset_counts
  rest_of_round-Spaced started_at client d t some_time =
      let interval = secs config.health_interval_secs in
      let (served, t₁) = accept_client env config started_at client d t in
      let (startup, t₂) = advance_startup env config served.startup t₁ in
      let advanced : Daemon = record served { startup = startup } in
      let (checked, t₃) = check_health env config advanced t₂ in
      Spaced-trans env interval c (accept_client-Spaced interval started_at client d t) (
        Spaced-trans env interval c
          (Spaced-refl env interval (served, t₁) (advanced, t₂) refl
            (silent-probes t₁ t₂ (advance_startup-outer env config served.startup t₁))
            (Acts-Extends env config (
              advance_startup-Goes env config anybody true true served t₁
                (Permits-any served.phase served.startup))))
          (Spaced-trans env interval c (check_health-Spaced env config c advanced t₂ some_time) (
            Spaced-refl env interval (checked, t₃) (reset_counts env config checked t₃) refl
              (silent-probes t₃ _ (reset_counts-outer env config checked t₃))
              (Acts-Extends env config
                (reset_counts-Goes env config anybody true true checked t₃)))))

  unless_term-Spaced :
      (got_term : Bool) (started_at : ℕ) (client : Option Stream) (d : Daemon) (t : Trace)
      → 1 ≤ config.health_interval_secs
      → let (step, t') = unless_term env config got_term started_at client d t in
        Spaced env (secs config.health_interval_secs) (d, t) (step.0, t')
  unfolding unless_term
  unless_term-Spaced true started_at client d t some_time =
      Spaced-refl env (secs config.health_interval_secs) (d, t) (d, t) refl refl same
  unless_term-Spaced false started_at client d t some_time =
      rest_of_round-Spaced started_at client d t some_time

  round-Spaced :
      (started_at : ℕ) (w : Wakeup) (d : Daemon) (t : Trace)
      → 1 ≤ config.health_interval_secs
      → let (step, t') = round env config started_at w d t in
        Spaced env (secs config.health_interval_secs) (d, t) (step.0, t')
  unfolding round probes
  round-Spaced started_at w d t some_time =
      let interval = secs config.health_interval_secs in
      let (woken, t₁) = waking env config started_at w d t in
      Spaced-trans env interval c
        (Spaced-refl env interval (d, t) (woken, t₁) (reap-last_health _ w.statuses _ _)
          (reap-probes _ w.statuses _ _)
          (Acts-Extends env config (
            waking-Goes env config anybody true true started_at w d t (anybody-MayDie w.statuses))))
        (unless_term-Spaced _ started_at w.client woken t₁ some_time)

  shut_down-Spaced :
      (interval : ℕ) (d : Daemon) (t : Trace)
      → Spaced env interval (d, t) (shut_down env config d t)
  unfolding shut_down
  shut_down-Spaced interval d t =
      let (ca, u) = Ca.stop env config d.ca t in
      Spaced-refl env interval (d, t) (shut_down env config d t) refl
        (silent-probes t _ (vm_stop-outer env config d.vm u ∙ ca_stop-outer env config d.ca t))
        (Acts-Extends env config (shut_down-Goes env config anybody true true d t))

  -- Over a run of the main loop with an interval that is not 0, on a monotonic clock, the time of the
  -- last health check has moved on by at least one interval for each health probe made, whatever
  -- wakes the loop meanwhile.
  pub run-Spaced :
      (started_at : ℕ) (ws : List Wakeup) (d : Daemon) (t : Trace)
      → 1 ≤ config.health_interval_secs
      → let (step, t') = run env config started_at ws d t in
        Spaced env (secs config.health_interval_secs) (d, t) (step.0, t')
  unfolding run
  run-Spaced started_at [] d t some_time =
      Spaced-refl env (secs config.health_interval_secs) (d, t) (d, t) refl refl same
  run-Spaced started_at (w ∷ ws) d t some_time =
      let interval = secs config.health_interval_secs in
      let (step, t') = round env config started_at w d t in
      let one = round-Spaced started_at w d t some_time in
      let rest = run-Spaced started_at ws step.0 t' some_time in
      elim (Bool-cases step.1) [
        | inl on ↦ rw (on, run) (Spaced-trans env interval c one rest)
        | inr off ↦
            rw (off, run) (Spaced-trans env interval c one (shut_down-Spaced interval step.0 t'))
      ]
