-- ===== src/Process/Others.antt =====
-- src/process.rs: what is done to one process sends no signal to another one.
use teeproxyd.Base.{
  ℕ, zero, suc, ◌+◌, ◌≡◌, ◌≢◌, refl, ◌⊎◌, inl, inr, Bool, true, false, none, some, List, ◌∷◌, arith,
}
use teeproxyd.System.{Env, Trace, clock, kill, sleep, Signal, sigterm, sigkill, secs, IsClock}
use teeproxyd.Process.{
  Wait, exited, is_alive, wait_exit, rounds, after_wait, graceful_kill, kill_tree,
}
use teeproxyd.Process.Kill.{sent, KilledLate-sent, graceful_kill_signals}

module _ (env : Env) (pid other : ℕ) (apart : pid ≢ other) where
  wait_exit-sent_other :
      (fuel deadline : ℕ) (t : Trace)
      → sent other (wait_exit env fuel pid deadline t).1 ≡ sent other t
  unfolding wait_exit sent is_alive
  wait_exit-sent_other zero deadline t = refl
  wait_exit-sent_other (suc fuel) deadline t =
      ground (arith, wait_exit-sent_other fuel deadline (sleep 200 ∷ kill pid none ∷ clock ∷ t))

  after_wait-sent_other :
      (w : Wait) (t : Trace) → sent other (after_wait env pid w t).1 ≡ sent other t
  unfolding after_wait sent is_alive
  after_wait-sent_other exited t = refl
  after_wait-sent_other _ t = ground (arith, apart)

  pub graceful_kill-sent_other :
      (grace : ℕ) (t : Trace) → sent other (graceful_kill env pid grace t).1 ≡ sent other t
  unfolding graceful_kill is_alive sent
  graceful_kill-sent_other grace t =
      let asked = clock ∷ kill pid (some sigterm) ∷ kill pid none ∷ t in
      let deadline = env.now_at (kill pid (some sigterm) ∷ kill pid none ∷ t) + secs grace in
      let (ended, t') = wait_exit env (rounds env grace) pid deadline asked in
      ground (
        arith,
        apart,
        wait_exit-sent_other (rounds env grace) deadline asked,
        after_wait-sent_other ended t',
      )

  pub kill_tree-sent_other :
      (sig : Signal) (t : Trace) → sent other (kill_tree env pid sig t).1 ≡ sent other t
  unfolding kill_tree sent
  kill_tree-sent_other sig t = ground (arith, apart)

-- What a stop of a process, found or not found, makes of the signals that it was sent: nothing, or
-- SIGTERM, or SIGTERM and then SIGKILL.
abbrev pub Stopped : Bool → List Signal → List Signal → Type 0
Stopped found before after =
    ((found ≡ false) × (after ≡ before))
    ⊎ ((found ≡ true) × ((after ≡ sigterm ∷ before) ⊎ (after ≡ sigkill ∷ sigterm ∷ before)))

pub graceful_kill-Stopped :
    (env : Env) (pid grace : ℕ) (t : Trace)
    → IsClock env
    → Stopped (env.kill_at pid none t) (sent pid t) (sent pid (graceful_kill env pid grace t).1)
graceful_kill-Stopped env pid grace t c = elim (graceful_kill_signals env pid grace t c) [
  | inl gone ↦ inl gone
  | inr (found, inl warned) ↦ inr (found, inl warned)
  | inr (found, inr late) ↦ inr (found, inr (KilledLate-sent env pid grace t _ late))
]
