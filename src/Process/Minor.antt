-- ===== src/Process/Minor.antt =====
-- src/process.rs: the calls that only look, wait, or move a log file.
use teeproxyd.Base.{ℕ, zero, suc, ◌≡◌, refl, ◌∷◌, Bool, true, false, none, some, arith}
use teeproxyd.System.{Env, Trace, Event, PathBuf, spawn, kill, clock, sleep, poll, connect, reply}
use teeproxyd.Process.{wait_exit, is_alive, rotate_if_needed}

-- No child is created, nothing signalled or connected to, and no poll and no reply is made.
abbrev pub is_minor : Event → Bool
is_minor (spawn c) = false
is_minor (kill pid (some s)) = false
is_minor (connect port timeout) = false
is_minor (poll ms) = false
is_minor (reply b) = false
is_minor _ = true

-- The second history goes on from the first by such calls.
pub data Minor (t : Trace) : Trace → Type 0 where
  still : Minor t t
  call : {u : Trace} → Minor t u → (e : Event) → is_minor e ≡ true → Minor t (e ∷ u)

pub Minor-trans : {t u v : Trace} → Minor t u → Minor u v → Minor t v
Minor-trans p still = p
Minor-trans p (call q e h) = call (Minor-trans p q) e h

module _ (env : Env) where
  pub wait_exit-Minor :
      (fuel pid deadline : ℕ) (t : Trace) → Minor t (wait_exit env fuel pid deadline t).1
  unfolding wait_exit is_alive
  wait_exit-Minor zero pid deadline t = still
  wait_exit-Minor (suc fuel) pid deadline t =
      let late : Minor t (clock ∷ t) = call still clock refl in
      let gone : Minor t (kill pid none ∷ clock ∷ t) = call late (kill pid none) refl in
      let again =
        Minor-trans (call gone (sleep 200) refl)
          (wait_exit-Minor fuel pid deadline (sleep 200 ∷ kill pid none ∷ clock ∷ t)) in
      ground (arith, late, gone, again)

  pub rotate_if_needed-Minor :
      (log : PathBuf) (max : ℕ) (t : Trace) → Minor t (rotate_if_needed env log max t).1
  unfolding rotate_if_needed
  rotate_if_needed-Minor log max t = grind (arith, still, call)
