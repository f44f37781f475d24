-- ===== src/Process/Outer.antt =====
-- src/process.rs: none of its functions polls, probes the CA's health or writes to a client.
use teeproxyd.Base.{
  true, ◌∙◌, ap, ltb, if◌then◌else◌, ℕ, suc, ◌+◌, ◌≡◌, refl, Option, none, some, List, [], ◌∷◌,
  String, arith,
}
use teeproxyd.System.{Env, Trace, PathBuf, reply, poll, connect, clock, kill, sigterm, secs}
use teeproxyd.System.{Event}
use teeproxyd.Process.Minor.{is_minor, Minor, still, call, wait_exit-Minor}
use teeproxyd.Process.{
  wait_exit, graceful_kill, spawn_with_log, rounds, is_alive, Wait, exited, after_wait,
}

-- The calls by which the main loop and its clients meet the world, the newest first: its waits, the
-- health probes, which are the connections with a timeout of two seconds, and the replies.
unfoldable pub outer : Trace → Trace
outer [] = []
outer (reply b ∷ t) = reply b ∷ outer t
outer (poll ms ∷ t) = poll ms ∷ outer t
outer (connect port timeout ∷ t) =
    let rest = outer t in if ltb timeout 2 then rest else connect port timeout ∷ rest
outer (_ ∷ t) = outer t

-- What was written to clients, the newest first.
unfoldable pub replies : Trace → List (List ℕ)
replies [] = []
replies (reply b ∷ t) = b ∷ replies t
replies (_ ∷ t) = replies t

-- The health probes.
unfoldable pub probes : Trace → ℕ
probes [] = 0
probes (connect port timeout ∷ t) = if ltb timeout 2 then probes t else suc (probes t)
probes (_ ∷ t) = probes t

pub replies-outer : (t : Trace) → replies (outer t) ≡ replies t
unfolding replies outer
replies-outer [] = refl
replies-outer (reply b ∷ t) = ap (◌∷◌ b) (replies-outer t)
replies-outer (connect port timeout ∷ t) = ground (arith, replies-outer t)
replies-outer (_ ∷ t) = replies-outer t

pub probes-outer : (t : Trace) → probes (outer t) ≡ probes t
unfolding probes outer
probes-outer [] = refl
probes-outer (connect port timeout ∷ t) = ground (arith, probes-outer t)
probes-outer (_ ∷ t) = probes-outer t

outer-cons : (e : Event) (t : Trace) → is_minor e ≡ true → outer (e ∷ t) ≡ outer t
unfolding outer
outer-cons e t h = ground arith

-- Such calls are silent.
pub Minor-outer : {t u : Trace} → Minor t u → outer u ≡ outer t
Minor-outer still = refl
Minor-outer (call {u} p e h) = outer-cons e u h ∙ Minor-outer p

module _ (env : Env) where
  after_wait-outer : (pid : ℕ) (w : Wait) (t : Trace) → outer (after_wait env pid w t).1 ≡ outer t
  unfolding outer after_wait
  after_wait-outer pid exited t = refl
  after_wait-outer pid _ t = refl

  pub graceful_kill-outer :
      (pid grace : ℕ) (t : Trace) → outer (graceful_kill env pid grace t).1 ≡ outer t
  unfolding graceful_kill is_alive outer
  graceful_kill-outer pid grace t =
      let asked = clock ∷ kill pid (some sigterm) ∷ kill pid none ∷ t in
      let deadline = env.now_at (kill pid (some sigterm) ∷ kill pid none ∷ t) + secs grace in
      let (ended, t') = wait_exit env (rounds env grace) pid deadline asked in
      ground (
        arith,
        Minor-outer (wait_exit-Minor env (rounds env grace) pid deadline asked),
        after_wait-outer pid ended t',
      )

  pub spawn_with_log-outer :
      (cmd : String) (args : List String) (envs : List (String × String)) (log : PathBuf)
      (cwd : Option PathBuf) (t : Trace)
      → outer (spawn_with_log env cmd args envs log cwd t).1 ≡ outer t
  unfolding outer spawn_with_log
  spawn_with_log-outer cmd args envs log cwd t = ground arith
