-- ===== src/Process/Ended.antt =====
-- src/process.rs: which processes `graceful_kill` has dealt with.
use teeproxyd.Base.{
  ℕ, ◌≡◌, ◌==◌, Bool, true, false, none, some, [], ◌∷◌, ◌||◌, ◌&&◌, not, arith, Bool-cases, inl,
  inr,
}
use teeproxyd.System.{Env, Trace, Event, kill, sigterm}
use teeproxyd.Process.{graceful_kill, is_alive}
use teeproxyd.Process.Growth.{Extends, same, more, graceful_kill-warns}

-- The process was sent SIGTERM, or a query did not find it.
unfoldable pub was_ended : Env → ℕ → Trace → Bool
was_ended env pid [] = false
was_ended env pid (kill p (some sigterm) ∷ t) = p == pid || was_ended env pid t
was_ended env pid (kill p none ∷ t) =
    (p == pid && not (env.kill_at p none t)) || was_ended env pid t
was_ended env pid (_ ∷ t) = was_ended env pid t

module _ (env : Env) (pid : ℕ) where
  was_ended-cons :
      (e : Event) (t : Trace) → was_ended env pid t ≡ true → was_ended env pid (e ∷ t) ≡ true
  unfolding was_ended
  was_ended-cons e t h = ground arith

  pub was_ended-Extends :
      {t u : Trace} → Extends t u → was_ended env pid t ≡ true → was_ended env pid u ≡ true
  was_ended-Extends same h = h
  was_ended-Extends (more {u} p e) h = was_ended-cons e u (was_ended-Extends p h)

  pub graceful_kill-was_ended :
      (grace : ℕ) (t : Trace) → was_ended env pid (graceful_kill env pid grace t).1 ≡ true
  unfolding was_ended
  graceful_kill-was_ended grace t = elim (Bool-cases (env.kill_at pid none t)) [
    | inl found ↦ was_ended-Extends (graceful_kill-warns env pid grace t found) (ground arith)
    | inr gone ↦ unfold graceful_kill is_alive in ground arith
  ]
