-- ===== src/Daemon/Once.antt =====
-- src/main.rs: how often the daemon launches the VM by itself.
use teeproxyd.Base.{
  ap, refl, if◌then◌else◌, contains, ℕ, ◌+◌, ◌≤◌, ◌≡◌, List, [], ◌∷◌, Bool, true, false, none, some,
  arith, Bool-cases, inl, inr,
}
use teeproxyd.Daemon.Mortal.{anybody-MayDie}
use teeproxyd.Acts.{anybody}
use teeproxyd.System.{Env, Trace}
use teeproxyd.Config.{Config}
use teeproxyd.Process.Launches.{vm_launches, Minor-launches}
use teeproxyd.Startup.{advance_startup, vm_starting, not_started}
use teeproxyd.Startup.Launches.{due, advance_startup-launches}
use teeproxyd.Startup.Phases.{IsTracked}
use teeproxyd.Acts.Launches.{Acts-launches}
use teeproxyd.Daemon.Acts.{check_health-Goes, reset_counts-Goes, waking-Goes, shut_down-Goes}
use teeproxyd.Daemon.Signals.{term_byte}
use teeproxyd.Daemon.Waking.{drained, waking}
use teeproxyd.Daemon.Steps.{
  reap-phase, waking-IsTracked, round-IsTracked, check_health-phase, reset_counts-phase,
}
use teeproxyd.Daemon.Start.{boot-Minor}
use teeproxyd.Daemon.Reach.{boot-IsFresh, IsFresh-IsTracked, shut_down-phase}
use teeproxyd.Daemon.Recovery.{IsQuiet}
use teeproxyd.Daemon.{
  Daemon, Wakeup, boot, round, run, rest_of_round, unless_term, accept_client, check_health,
}

-- The launches so far, and the one that is due.
abbrev toll : Daemon × Trace → ℕ
toll (d, t) = vm_launches t + due d.phase

module _ (env : Env) (config : Config) (started_at : ℕ) where
  rest_of_round-toll :
      (d : Daemon) (t : Trace)
      → IsTracked d.startup
      → toll (rest_of_round env config started_at none d t) ≤ toll (d, t)
  unfolding rest_of_round accept_client
  rest_of_round-toll d t v =
      let (startup, t₁) = advance_startup env config d.startup t in
      let advanced : Daemon = record d { startup = startup } in
      let (checked, t₂) = check_health env config advanced t₁ in
      let asked =
        Acts-launches env config (check_health-Goes env config anybody false true advanced t₁) in
      let kept =
        Acts-launches env config (reset_counts-Goes env config anybody false true checked t₂) in
      rw (reset_counts-phase env config checked t₂, check_health-phase env config advanced t₁)
        (omega (arith, advance_startup-launches env config d.startup t v, asked, kept))

  unless_term-toll :
      (got_term : Bool) (d : Daemon) (t : Trace)
      → IsTracked d.startup
      → let (step, t') = unless_term env config got_term started_at none d t in
        toll (step.0, t') ≤ toll (d, t)
  unfolding unless_term
  unless_term-toll true d t v = omega arith
  unless_term-toll false d t v = rest_of_round-toll d t v

  round-toll :
      (w : Wakeup) (d : Daemon) (t : Trace)
      → w.client ≡ none
      → IsTracked d.startup
      → let (step, t') = round env config started_at w d t in toll (step.0, t') ≤ toll (d, t)
  unfolding round
  round-toll w d t quiet v =
      let (woken, t₁) = waking env config started_at w d t in
      let woke =
        Acts-launches env config (
          waking-Goes env config anybody false true started_at w d t (anybody-MayDie w.statuses)) in
      let same : due woken.phase ≡ due d.phase = ap due (reap-phase env config _ w.statuses _ _) in
      let read = drained env config started_at w d t in
      let rest =
        unless_term-toll (contains term_byte read.0) woken t₁
          (waking-IsTracked env config started_at w d t v) in
      rw quiet (omega (arith, woke, same, rest))

  run-toll :
      (ws : List Wakeup) (d : Daemon) (t : Trace)
      → IsQuiet ws
      → IsTracked d.startup
      → let (step, t') = run env config started_at ws d t in toll (step.0, t') ≤ toll (d, t)
  unfolding run
  run-toll [] d t q v = omega arith
  run-toll (w ∷ ws) d t q v =
      let (step, t') = round env config started_at w d t in
      let one = round-toll w d t q.0 v in
      let later = round-IsTracked env config started_at w d t v in
      let ended =
        Acts-launches env config (shut_down-Goes env config anybody false true step.0 t') in
      elim (Bool-cases step.1) [
        | inl on ↦ rw (on, run) (omega (arith, one, run-toll ws step.0 t' q.1 later))
        | inr off ↦
            rw (off, run, shut_down-phase env config started_at step.0 t')
              (omega (arith, one, ended))
      ]

due_first :
    (auto_start : Bool)
    → due (if auto_start then vm_starting else not_started) ≡ (if auto_start then 1 else 0)
due_first true = refl
due_first false = refl

module _ (env : Env) (config : Config) where
  -- As long as no client connects, the daemon launches the VM at most once from its start on: not
  -- again after a death, not by a health check, and not at all in a run without auto_start.
  pub vm_launched_once :
      (ws : List Wakeup) (t : Trace) (d : Daemon) (started_at : ℕ)
      → IsQuiet ws
      → (boot env config t).0 ≡ some (d, started_at)
      → let u = (run env config started_at ws d (boot env config t).1).1 in
        vm_launches u ≤ vm_launches t + (if config.auto_start then 1 else 0)
  vm_launched_once ws t d started_at q e =
      let t₁ = (boot env config t).1 in
      let fresh = boot-IsFresh env config t (d, started_at) e in
      omega (
        arith,
        ap due fresh.phase,
        due_first config.auto_start,
        Minor-launches (boot-Minor env config t),
        run-toll env config started_at ws d t₁ q (IsFresh-IsTracked config d fresh),
      )
