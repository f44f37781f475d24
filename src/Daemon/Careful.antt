-- ===== src/Daemon/Careful.antt =====
-- src/main.rs: whether the daemon starts a child over another by itself.
use teeproxyd.Base.{
  ℕ, ◌≡◌, ap, ◌∙◌, List, [], ◌∷◌, Bool, true, false, none, some, Bool-cases, inl, inr, here,
  contains,
}
use teeproxyd.Daemon.Mortal.{MayDie}
use teeproxyd.Process.Own.{Minor-children}
use teeproxyd.Process.Logs.{children}
use teeproxyd.Acts.Fates.{AllHaveFates, each-AllHaveFates, Acts-HaveFates}
use teeproxyd.Daemon.Start.{boot-Minor}
use teeproxyd.System.{Env, Trace}
use teeproxyd.Config.{Config}
use teeproxyd.Startup.{advance_startup}
use teeproxyd.Startup.Acts.{managers}
use teeproxyd.Startup.Phases.{IsTracked}
use teeproxyd.Acts.{Acts-trans}
use teeproxyd.Daemon.Acts.{
  MayAllDie, Goes, advance_startup-Goes, check_health-Goes, reset_counts-Goes, waking-Goes,
  shut_down-Goes,
}
use teeproxyd.Daemon.Signals.{term_byte}
use teeproxyd.Daemon.Waking.{drained, waking}
use teeproxyd.Daemon.Steps.{waking-IsTracked, round-IsTracked}
use teeproxyd.Daemon.Reach.{boot-IsFresh, IsFresh-IsTracked}
use teeproxyd.Daemon.Recovery.{IsQuiet}
use teeproxyd.Daemon.{
  Daemon, Wakeup, boot, round, run, rest_of_round, unless_term, accept_client, check_health,
}
use teeproxyd.Daemon.Ahead.{
  IsAhead, waking-IsAhead, advance_startup-IsAhead, check_health-IsAhead, reset_counts-IsAhead,
  IsAhead-Permits, IsFresh-IsAhead,
}

-- From the one state to the other, carefully.
record GoesOn (env : Env) (config : Config) (mortal : ℕ → Bool) (a b : Daemon × Trace)
    : Type 0 where
  acts : Goes env config mortal true false a b
  ahead : IsAhead b.0

module _ (env : Env) (config : Config) (mortal : ℕ → Bool) (started_at : ℕ) where
  rest_of_round-GoesOn :
      (d : Daemon) (t : Trace)
      → IsTracked d.startup
      → IsAhead d
      → GoesOn env config mortal (d, t) (rest_of_round env config started_at none d t)
  unfolding rest_of_round accept_client
  rest_of_round-GoesOn d t v w =
      let (startup, t₁) = advance_startup env config d.startup t in
      let advanced : Daemon = record d { startup = startup } in
      let (checked, t₂) = check_health env config advanced t₁ in
      record {
        acts =
            Acts-trans (advance_startup-Goes env config mortal true false d t (IsAhead-Permits d w))
              (Acts-trans (check_health-Goes env config mortal true false advanced t₁)
                (reset_counts-Goes env config mortal true false checked t₂));
        ahead = reset_counts-IsAhead env config checked t₂ (
            check_health-IsAhead env config advanced t₁
              (advance_startup-IsAhead env config d t v w));
      }

  unless_term-GoesOn :
      (got_term : Bool) (d : Daemon) (t : Trace)
      → IsTracked d.startup
      → IsAhead d
      → let (step, t') = unless_term env config got_term started_at none d t in
        GoesOn env config mortal (d, t) (step.0, t')
  unfolding unless_term
  unless_term-GoesOn true d t v w = record { acts = here; ahead = w }
  unless_term-GoesOn false d t v w = rest_of_round-GoesOn d t v w

  round-GoesOn :
      (w : Wakeup) (d : Daemon) (t : Trace)
      → w.client ≡ none
      → MayDie mortal w.statuses
      → IsTracked d.startup
      → IsAhead d
      → let (step, t') = round env config started_at w d t in
        GoesOn env config mortal (d, t) (step.0, t')
  unfolding round
  round-GoesOn w d t quiet all v ahead =
      let (woken, t₁) = waking env config started_at w d t in
      let read = drained env config started_at w d t in
      let rest =
        unless_term-GoesOn (contains term_byte read.0) woken t₁
          (waking-IsTracked env config started_at w d t v)
          (waking-IsAhead env config started_at w d t ahead) in
      rw quiet (record {
        acts = Acts-trans (waking-Goes env config mortal true false started_at w d t all) rest.acts;
        ahead = rest.ahead;
      })

  run-careful :
      (ws : List Wakeup) (d : Daemon) (t : Trace)
      → IsQuiet ws
      → MayAllDie mortal ws
      → IsTracked d.startup
      → IsAhead d
      → let (step, t') = run env config started_at ws d t in
        Goes env config mortal true false (d, t) (step.0, t')
  unfolding run
  run-careful [] d t q all v w = here
  run-careful (w ∷ ws) d t q all v ahead =
      let (step, t') = round env config started_at w d t in
      let one = round-GoesOn w d t q.0 all.0 v ahead in
      let later = round-IsTracked env config started_at w d t v in
      elim (Bool-cases step.1) [
        | inl on ↦
            rw (on, run) (Acts-trans one.acts (run-careful ws step.0 t' q.1 all.1 later one.ahead))
        | inr off ↦
            rw (off, run)
              (Acts-trans one.acts (shut_down-Goes env config mortal true false step.0 t'))
      ]

-- A daemon without children owns no process.
childless_lem : (pid : ℕ) (pids : List ℕ) → contains pid pids ≡ true → pids ≡ [] → ⊥
childless_lem pid pids own e = cc (ap (contains pid) e)

module _ (env : Env) (config : Config) (mortal : ℕ → Bool) where
  -- From its start on, as long as no client connects.
  boot-careful :
      (ws : List Wakeup) (t : Trace) (d : Daemon) (started_at : ℕ)
      → IsQuiet ws
      → MayAllDie mortal ws
      → (boot env config t).0 ≡ some (d, started_at)
      → let t' = (boot env config t).1 in
        let (step, u) = run env config started_at ws d t' in
        Goes env config mortal true false (d, t') (step.0, u)
  boot-careful ws t d started_at q all e =
      let fresh = boot-IsFresh env config t (d, started_at) e in
      run-careful env config mortal started_at ws d (boot env config t).1 q all
        (IsFresh-IsTracked config d fresh) (IsFresh-IsAhead config d fresh)

  -- No child is forgotten: from the start of a daemon that has created no child before, as long as no
  -- client connects, whatever dies and whatever the health checks find, each child that it has created
  -- is held by a manager, or its process id is among the deaths that the wakeups hold, or it was sent
  -- SIGTERM or was not found by a query. `mortal` is any set with the process ids of all those deaths.
  pub forgets_no_child :
      (ws : List Wakeup) (t : Trace) (d : Daemon) (started_at : ℕ)
      → IsQuiet ws
      → MayAllDie mortal ws
      → (boot env config t).0 ≡ some (d, started_at)
      → children env t ≡ []
      → let (step, u) = run env config started_at ws d (boot env config t).1 in
        AllHaveFates env mortal (managers step.0.startup, u) (children env u)
  forgets_no_child ws t d started_at q all e childless =
      let same = Minor-children env (boot-Minor env config t) ∙ childless in
      let fated =
        Acts-HaveFates env config mortal (boot-careful ws t d started_at q all e)
          (λ pid own. absurd (childless_lem pid _ own same)) in
      let (step, u) = run env config started_at ws d (boot env config t).1 in
      each-AllHaveFates env mortal (managers step.0.startup, u) (children env u) fated
