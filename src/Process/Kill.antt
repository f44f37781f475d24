-- ===== src/Process/Kill.antt =====
-- src/process.rs: `graceful_kill` ends, asks last, and kills only after the grace period.
use teeproxyd.Base.{
  ℕ, zero, suc, ◌+◌, ◌*◌, ◌≤◌, ◌≡◌, ◌≢◌, refl, ◌∙◌, ◌⊎◌, inl, inr, Bool, true, false, not, none,
  some, List, [], ◌∷◌, arith, ◌==◌, if◌then◌else◌, Bool-cases,
}
use teeproxyd.System.{
  Env, Trace, clock, kill, sleep, Signal, sigterm, sigkill, secs, millis, IsClock,
}
use teeproxyd.Process.{
  Wait, exited, expired, out_of_fuel, is_alive, wait_exit, rounds, force_kill, after_wait,
  graceful_kill,
}

-- The signals that a process was sent, the newest first.
unfoldable pub sent : ℕ → Trace → List Signal
sent pid [] = []
sent pid (kill p (some s) ∷ t) = if p == pid then s ∷ sent pid t else sent pid t
sent pid (_ ∷ t) = sent pid t

-- The newest call is a query of the process, and this is what it answered.
abbrev pub LastQuery : Env → ℕ → Bool → Trace → Type 0
LastQuery env pid b (kill p none ∷ u) = (p ≡ pid) × (env.kill_at p none u ≡ b)
LastQuery env pid b _ = ⊥

module _ (env : Env) (pid deadline : ℕ) where
  wait_exit_ends :
      IsClock env
      → (k : ℕ) (t : Trace) → deadline ≤ env.now_at t + k * millis 200
      → (wait_exit env (suc k) pid deadline t).0 ≢ out_of_fuel
  unfolding wait_exit
  wait_exit_ends c zero t h = ground arith
  wait_exit_ends c (suc k) t h =
      let u : Trace = kill pid none ∷ clock ∷ t in
      ground (
        arith,
        c.monotone clock t,
        c.monotone (kill pid none) (clock ∷ t),
        c.sleeps 200 u,
        wait_exit_ends c k (sleep 200 ∷ u),
      )

  -- The loop sends no signal.
  wait_exit-sent :
      (fuel : ℕ) (t : Trace) → sent pid (wait_exit env fuel pid deadline t).1 ≡ sent pid t
  unfolding wait_exit sent
  wait_exit-sent zero t = refl
  wait_exit-sent (suc fuel) t =
      ground (arith, wait_exit-sent fuel (sleep 200 ∷ kill pid none ∷ clock ∷ t))

  -- It says that the process has exited only if its last query said so.
  wait_exit-exited :
      (fuel : ℕ) (t : Trace)
      → (wait_exit env fuel pid deadline t).0 ≡ exited
      → LastQuery env pid false (wait_exit env fuel pid deadline t).1
  unfolding wait_exit
  wait_exit-exited zero t h = cc
  wait_exit-exited (suc fuel) t h =
      ground (arith, wait_exit-exited fuel (sleep 200 ∷ kill pid none ∷ clock ∷ t))

  -- It says that the time is over only if the clock said so.
  wait_exit-expired :
      IsClock env
      → (fuel : ℕ) (t : Trace) → (wait_exit env fuel pid deadline t).0 ≡ expired
      → deadline ≤ env.now_at (wait_exit env fuel pid deadline t).1
  unfolding wait_exit
  wait_exit-expired c zero t h = cc
  wait_exit-expired c (suc fuel) t h =
      ground (
        arith,
        c.monotone clock t,
        wait_exit-expired c fuel (sleep 200 ∷ kill pid none ∷ clock ∷ t),
      )

  -- A process that answers every query is waited for until the deadline.
  wait_exit-alive :
      ((u : Trace) → env.kill_at pid none u ≡ true)
      → (fuel : ℕ) (t : Trace) → (wait_exit env fuel pid deadline t).0 ≢ exited
  unfolding wait_exit
  wait_exit-alive a zero t = cc
  wait_exit-alive a (suc fuel) t =
      ground (arith, a (clock ∷ t), wait_exit-alive a fuel (sleep 200 ∷ kill pid none ∷ clock ∷ t))

module _ (env : Env) (pid grace : ℕ) (t : Trace) where
  -- What the polling loop of a call at this point of the history starts from.
  abbrev asked : Trace
  asked = clock ∷ kill pid (some sigterm) ∷ kill pid none ∷ t

  abbrev deadline_at : ℕ
  deadline_at = env.now_at (kill pid (some sigterm) ∷ kill pid none ∷ t) + secs grace

  abbrev loop : Wait × Trace
  loop = wait_exit env (rounds env grace) pid deadline_at asked

  -- On a clock that never goes back and that sleeping advances, the polling loop of
  -- `graceful_kill` ends by its own test or because the process has exited, and never because the
  -- fuel of the model, five rounds for each second of the grace period and one more, has run out.
  pub graceful_kill_ends : IsClock env → loop.0 ≢ out_of_fuel
  graceful_kill_ends c =
      wait_exit_ends env pid deadline_at c (5 * grace) asked
        (omega (arith, c.monotone clock (kill pid (some sigterm) ∷ kill pid none ∷ t)))

  -- The result says what the last call, a query of the process, has answered: true exactly when
  -- the process was not found.
  pub graceful_kill-LastQuery :
      let (gone, t') = graceful_kill env pid grace t in LastQuery env pid (not gone) t'
  unfolding graceful_kill force_kill is_alive
  graceful_kill-LastQuery =
      ground (arith, wait_exit-exited env pid deadline_at (rounds env grace) asked)

  -- The history ends with the SIGKILL, a sleep and a query, and when the SIGKILL was sent, the
  -- grace period was over on the clock and the process had been sent SIGTERM only.
  pub record KilledLate (v : Trace) : Type 0 where
    pub at_kill : Trace
    pub kills : v ≡ kill pid none ∷ sleep 100 ∷ kill pid (some sigkill) ∷ at_kill
    pub warned : sent pid at_kill ≡ sigterm ∷ sent pid t
    pub late : env.now_at t + secs grace ≤ env.now_at at_kill

  pub KilledLate-sent : (v : Trace) → KilledLate v → sent pid v ≡ sigkill ∷ sigterm ∷ sent pid t
  unfolding sent
  KilledLate-sent v k = rw (k.kills) (ground (arith, k.warned))

  -- How the signals stand after the loop: SIGTERM alone, or SIGKILL on top of it.
  abbrev Escalated : Trace → Type 0
  Escalated u = (sent pid u ≡ sigterm ∷ sent pid t) ⊎ KilledLate u

  force_kill-late :
      IsClock env
      → (u : Trace) → deadline_at ≤ env.now_at u
      → env.now_at t + secs grace
        ≤ env.now_at (kill pid none ∷ sleep 100 ∷ kill pid (some sigkill) ∷ u)
  force_kill-late c u late = omega (
    arith,
    c.monotone (kill pid none) t,
    c.monotone (kill pid (some sigterm)) (kill pid none ∷ t),
    c.monotone (kill pid (some sigkill)) u,
    c.sleeps 100 (kill pid (some sigkill) ∷ u),
    c.monotone (kill pid none) (sleep 100 ∷ kill pid (some sigkill) ∷ u),
  )

  after_wait-Escalated :
      IsClock env
      → (w : Wait) (u : Trace) → w ≢ out_of_fuel
      → (w ≡ expired → deadline_at ≤ env.now_at u)
      → sent pid u ≡ sigterm ∷ sent pid t
      → Escalated (after_wait env pid w u).1
  unfolding after_wait sent is_alive
  after_wait-Escalated c exited u n late h = inl h
  after_wait-Escalated c expired u n late h = inr (record {
    at_kill = u;
    kills = refl;
    warned = h;
    late = omega (
      arith,
      c.monotone (kill pid none) t,
      c.monotone (kill pid (some sigterm)) (kill pid none ∷ t),
      late refl,
    );
  })
  after_wait-Escalated c out_of_fuel u n late h = absurd (n refl)

  after_wait-killed :
      IsClock env
      → ((u : Trace) → env.kill_at pid none u ≡ true)
      → (w : Wait) (u : Trace) → w ≢ out_of_fuel
      → w ≢ exited
      → (w ≡ expired → deadline_at ≤ env.now_at u)
      → sent pid u ≡ sigterm ∷ sent pid t
      → let (gone, u') = after_wait env pid w u in
        (gone ≡ false)
        × (sent pid u' ≡ sigkill ∷ sigterm ∷ sent pid t)
        × (env.now_at t + secs grace ≤ env.now_at u')
  unfolding after_wait sent is_alive
  after_wait-killed c a exited u n x late h = absurd (x refl)
  after_wait-killed c a out_of_fuel u n x late h = absurd (n refl)
  after_wait-killed c a expired u n x late h = (
    ground (arith, a (sleep 100 ∷ kill pid (some sigkill) ∷ u)),
    ground arith,
    force_kill-late c u (late refl),
  )

  loop-sent : sent pid loop.1 ≡ sigterm ∷ sent pid t
  unfolding sent
  loop-sent = wait_exit-sent env pid deadline_at (rounds env grace) asked ∙ ground arith

  signalled-Escalated : IsClock env → Escalated (after_wait env pid loop.0 loop.1).1
  signalled-Escalated c =
      after_wait-Escalated c loop.0 loop.1 (graceful_kill_ends c)
        (wait_exit-expired env pid deadline_at c (rounds env grace) asked) loop-sent

  -- On a clock that never goes back: no signal is sent to a process that is not found at the
  -- start. Otherwise it gets SIGTERM alone, or SIGTERM and then one SIGKILL, which is sent at a point
  -- of the history at which the grace period has run out on the clock, and after which there are only
  -- a sleep of 100 ms and a query.
  pub graceful_kill_signals :
      IsClock env
      → let t' = (graceful_kill env pid grace t).1 in
        ((env.kill_at pid none t ≡ false) × (sent pid t' ≡ sent pid t))
        ⊎ ((env.kill_at pid none t ≡ true) × ((sent pid t' ≡ sigterm ∷ sent pid t) ⊎ KilledLate t'))
  unfolding graceful_kill is_alive sent
  graceful_kill_signals c = elim (Bool-cases (env.kill_at pid none t)) [
    | inl there ↦ rw there (inr (refl, signalled-Escalated c))
    | inr gone ↦ rw gone (inl (refl, refl))
  ]

  -- On a clock that never goes back, a process that answers every query, as a child does until it
  -- is reaped, uses up the grace period and gets SIGKILL after SIGTERM, and the result is false.
  pub unreaped_child_is_killed :
      IsClock env
      → ((u : Trace) → env.kill_at pid none u ≡ true)
      → let (gone, t') = graceful_kill env pid grace t in
        (gone ≡ false)
        × (sent pid t' ≡ sigkill ∷ sigterm ∷ sent pid t)
        × (env.now_at t + secs grace ≤ env.now_at t')
  unfolding graceful_kill is_alive
  unreaped_child_is_killed c a = rw (a t) (
      after_wait-killed c a loop.0 loop.1 (graceful_kill_ends c)
        (wait_exit-alive env pid deadline_at a (rounds env grace) asked)
        (wait_exit-expired env pid deadline_at c (rounds env grace) asked) loop-sent)
