-- ===== src/Process/Growth.antt =====
-- src/process.rs: its functions only add to the history, and take their time.
use teeproxyd.Base.{
  ℕ, ◌+◌, ◌≤◌, ◌∷◌, Option, none, some, arith, String, List, ◌≢◌, ◌*◌, ◌≡◌, true, Bool-cases, inl,
  inr,
}
use teeproxyd.System.{
  Env, Trace, Event, IsClock, clock, kill, sleep, sigterm, sigkill, secs, PathBuf, ok, Command,
  try_clone, open_append,
}
use teeproxyd.Process.Minor.{Minor, still, call, wait_exit-Minor, rotate_if_needed-Minor}
use teeproxyd.Process.{
  wait_exit, graceful_kill, spawn_with_log, rounds, is_alive, Wait, exited, after_wait,
  rotate_if_needed,
}

-- The second history goes on from the first.
pub data Extends (t : Trace) : Trace → Type 0 where
  same : Extends t t
  more : {u : Trace} → Extends t u → (e : Event) → Extends t (e ∷ u)

pub Extends-trans : {t u v : Trace} → Extends t u → Extends u v → Extends t v
Extends-trans p same = p
Extends-trans p (more q e) = more (Extends-trans p q) e

pub Minor-Extends : {t u : Trace} → Minor t u → Extends t u
Minor-Extends still = same
Minor-Extends (call p e h) = more (Minor-Extends p) e

module _ (env : Env) where
  pub Extends-now : {t u : Trace} → IsClock env → Extends t u → env.now_at t ≤ env.now_at u
  Extends-now c same = omega arith
  Extends-now c (more {u} p e) = omega (arith, Extends-now c p, c.monotone e u)

  after_wait-Extends : (pid : ℕ) (w : Wait) (t : Trace) → Extends t (after_wait env pid w t).1
  unfolding after_wait is_alive
  after_wait-Extends pid exited t = same
  after_wait-Extends pid _ t =
      more (more (more same (kill pid (some sigkill))) (sleep 100)) (kill pid none)

  pub graceful_kill-Extends :
      (pid grace : ℕ) (t : Trace) → Extends t (graceful_kill env pid grace t).1
  unfolding graceful_kill is_alive
  graceful_kill-Extends pid grace t =
      let u = kill pid (some sigterm) ∷ kill pid none ∷ t in
      let (ended, t') =
        wait_exit env (rounds env grace) pid (env.now_at u + secs grace) (clock ∷ u) in
      let gone : Extends t (kill pid none ∷ t) = more same (kill pid none) in
      let killed = Extends-trans (more (more gone (kill pid (some sigterm))) clock) (
        Extends-trans
          (Minor-Extends
            (wait_exit-Minor env (rounds env grace) pid (env.now_at u + secs grace) (clock ∷ u)))
          (after_wait-Extends pid ended t')) in
      ground (arith, gone, killed)

  -- A process that is found gets SIGTERM at once.
  pub graceful_kill-warns :
      (pid grace : ℕ) (t : Trace)
      → env.kill_at pid none t ≡ true
      → Extends (kill pid (some sigterm) ∷ kill pid none ∷ t) (graceful_kill env pid grace t).1
  unfolding graceful_kill is_alive
  graceful_kill-warns pid grace t found =
      let u = kill pid (some sigterm) ∷ kill pid none ∷ t in
      let (ended, t') =
        wait_exit env (rounds env grace) pid (env.now_at u + secs grace) (clock ∷ u) in
      rw found (
        Extends-trans (more same clock) (
          Extends-trans
            (Minor-Extends
              (wait_exit-Minor env (rounds env grace) pid (env.now_at u + secs grace) (clock ∷ u)))
            (after_wait-Extends pid ended t')))

  -- The first call is a query.
  pub graceful_kill-asks :
      (pid grace : ℕ) (t : Trace) → Extends (kill pid none ∷ t) (graceful_kill env pid grace t).1
  unfolding graceful_kill is_alive
  graceful_kill-asks pid grace t = elim (Bool-cases (env.kill_at pid none t)) [
    | inl found ↦
        Extends-trans (more same (kill pid (some sigterm))) (graceful_kill-warns pid grace t found)
    | inr gone ↦ rw gone same
  ]

  pub spawn_with_log-Extends :
      (cmd : String) (args : List String) (envs : List (String × String)) (log : PathBuf)
      (cwd : Option PathBuf) (t : Trace)
      → Extends t (spawn_with_log env cmd args envs log cwd t).1
  unfolding spawn_with_log
  spawn_with_log-Extends cmd args envs log cwd t = grind (arith, same, more)

  -- No child created from now on gets this pid.
  abbrev pub IsNeverUsed : Trace → ℕ → Type 0
  IsNeverUsed t pid = (u : Trace) → Extends t u → (c : Command) → env.pid_at c u ≢ ok pid

  pub Extends-IsNeverUsed :
      {t u : Trace} (pid : ℕ) → Extends t u → IsNeverUsed t pid → IsNeverUsed u pid
  Extends-IsNeverUsed pid p v u' q c = v u' (Extends-trans p q) c

  pub spawn_with_log-ne :
      (cmd : String) (args : List String) (envs : List (String × String)) (log : PathBuf)
      (cwd : Option PathBuf) (t : Trace) (pid : ℕ)
      → IsNeverUsed t pid
      → (spawn_with_log env cmd args envs log cwd t).0 ≢ ok pid
  unfolding spawn_with_log
  spawn_with_log-ne cmd args envs log cwd t pid v =
      let rotated = (rotate_if_needed env log (10 * 1024 * 1024) t).1 in
      let u = try_clone log ∷ open_append log ∷ rotated in
      let grown : Extends t u =
        more (more (Minor-Extends (rotate_if_needed-Minor env log _ t)) (open_append log))
          (try_clone log) in
      let command : Command = record {
        program = cmd;
        args = args;
        envs = envs;
        current_dir = cwd;
        output = some log;
      } in
      ground (arith, v u grown command)
