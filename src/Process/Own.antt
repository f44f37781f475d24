-- ===== src/Process/Own.antt =====
-- src/process.rs: to which processes signals are sent.
use teeproxyd.Base.{
  ℕ, ◌+◌, ◌≡◌, refl, ap, ◌∙◌, List, [], ◌∷◌, true, Option, none, some, arith, contains, String,
  if◌then◌else◌,
}
use teeproxyd.System.{Env, Trace, kill, clock, sigterm, secs, PathBuf, Result, ok, err, Signal}
use teeproxyd.System.{Event}
use teeproxyd.Process.Minor.{is_minor, Minor, still, call, wait_exit-Minor}
use teeproxyd.Process.{
  wait_exit, graceful_kill, kill_tree, spawn_with_log, rounds, is_alive, Wait, exited, after_wait,
  rotate_if_needed,
}
use teeproxyd.Process.Logs.{children, child_of}

-- The process is a child that was created before.
abbrev pub IsOwn : Env → Trace → ℕ → Type 0
IsOwn env t pid = contains pid (children env t) ≡ true

-- The processes that were sent a signal by kill(2) and were no child created before, the newest
-- first.
unfoldable pub strays : Env → Trace → List ℕ
strays env [] = []
strays env (kill pid (some s) ∷ t) =
    let rest = strays env t in if contains pid (children env t) then rest else pid ∷ rest
strays env (_ ∷ t) = strays env t

-- No stray signal from the one history to the other, and no child forgotten.
pub record IsClean (env : Env) (t t' : Trace) : Type 0 where
  pub same_strays : strays env t' ≡ strays env t
  pub grows : (pid : ℕ) → IsOwn env t pid → IsOwn env t' pid

pub IsClean-refl : (env : Env) (t : Trace) → IsClean env t t
IsClean-refl env t = record { same_strays = refl; grows = λ pid h. h }

pub IsClean-trans :
    {env : Env} {t u v : Trace} → IsClean env t u → IsClean env u v → IsClean env t v
IsClean-trans p q = record {
  same_strays = q.same_strays ∙ p.same_strays;
  grows = λ pid h. q.grows pid (p.grows pid h);
}

-- What neither signals nor creates.
abbrev pub deeds : Env → Trace → List ℕ × List ℕ
deeds env t = (children env t, strays env t)

pub IsClean-deeds : (env : Env) (t t' : Trace) → deeds env t' ≡ deeds env t → IsClean env t t'
IsClean-deeds env t t' e = record {
  same_strays = ap (λ (p : List ℕ × List ℕ). p.1) e;
  grows = λ pid h. ap (λ (p : List ℕ × List ℕ). contains pid p.0) e ∙ h;
}

module _ (env : Env) where
  deeds-cons : (e : Event) (t : Trace) → is_minor e ≡ true → deeds env (e ∷ t) ≡ deeds env t
  unfolding children strays
  deeds-cons e t h = ground arith

  pub Minor-deeds : {t u : Trace} → Minor t u → deeds env u ≡ deeds env t
  Minor-deeds still = refl
  Minor-deeds (call {u} p e h) = deeds-cons e u h ∙ Minor-deeds p

  pub Minor-children : {t u : Trace} → Minor t u → children env u ≡ children env t
  Minor-children p = ap (λ (d : List ℕ × List ℕ). d.0) (Minor-deeds p)

  after_wait-deeds :
      (pid : ℕ) (w : Wait) (t : Trace)
      → IsOwn env t pid
      → deeds env (after_wait env pid w t).1 ≡ deeds env t
  unfolding after_wait is_alive children strays
  after_wait-deeds pid exited t own = refl
  after_wait-deeds pid _ t own = ground arith

  -- A child of one's own may be signalled.
  pub graceful_kill-deeds :
      (pid grace : ℕ) (t : Trace)
      → IsOwn env t pid
      → deeds env (graceful_kill env pid grace t).1 ≡ deeds env t
  unfolding graceful_kill is_alive children strays
  graceful_kill-deeds pid grace t own =
      let u = kill pid (some sigterm) ∷ kill pid none ∷ t in
      let deadline = env.now_at u + secs grace in
      let (ended, t') = wait_exit env (rounds env grace) pid deadline (clock ∷ u) in
      let waited = Minor-deeds (wait_exit-Minor env (rounds env grace) pid deadline (clock ∷ u)) in
      ground (arith, waited, after_wait-deeds pid ended t')

  pub kill_tree-deeds :
      (pid : ℕ) (sig : Signal) (t : Trace)
      → IsOwn env t pid
      → deeds env (kill_tree env pid sig t).1 ≡ deeds env t
  unfolding kill_tree children strays
  kill_tree-deeds pid sig t own = ground arith

  pub spawn_with_log-strays :
      (cmd : String) (args : List String) (envs : List (String × String)) (log : PathBuf)
      (cwd : Option PathBuf) (t : Trace)
      → strays env (spawn_with_log env cmd args envs log cwd t).1 ≡ strays env t
  unfolding spawn_with_log rotate_if_needed strays
  spawn_with_log-strays cmd args envs log cwd t = ground arith

-- A child that was created is one's own.
pub contains-cons :
    (p pid : ℕ) (pids : List ℕ) → contains p pids ≡ true → contains p (pid ∷ pids) ≡ true
contains-cons p pid pids h = ground arith

pub IsClean-child :
    (env : Env) (t t' : Trace) (child : Result ℕ)
    → children env t' ≡ child_of child (children env t)
    → strays env t' ≡ strays env t
    → IsClean env t t'
IsClean-child env t t' (ok pid) e same = record {
  same_strays = same;
  grows = λ p h. rw e (contains-cons p pid (children env t) h);
}
IsClean-child env t t' (err why) e same = record { same_strays = same; grows = λ p h. rw e h }

-- What a manager holds is a child of its own, or nothing.
abbrev pub Owns : Env → Trace → Option ℕ → Type 0
Owns env t none = Unit
Owns env t (some pid) = IsOwn env t pid

pub IsClean-Owns :
    {env : Env} {t t' : Trace} (held : Option ℕ)
    → IsClean env t t'
    → Owns env t held
    → Owns env t' held
IsClean-Owns none c v = tt
IsClean-Owns (some pid) c v = c.grows pid v

module _ (env : Env) where
  after_wait-children :
      (pid : ℕ) (w : Wait) (t : Trace) → children env (after_wait env pid w t).1 ≡ children env t
  unfolding after_wait is_alive children
  after_wait-children pid exited t = refl
  after_wait-children pid _ t = refl

  -- Killing creates no child.
  pub graceful_kill-children :
      (pid grace : ℕ) (t : Trace) → children env (graceful_kill env pid grace t).1 ≡ children env t
  unfolding graceful_kill is_alive children
  graceful_kill-children pid grace t =
      let u = kill pid (some sigterm) ∷ kill pid none ∷ t in
      let deadline = env.now_at u + secs grace in
      let (ended, t') = wait_exit env (rounds env grace) pid deadline (clock ∷ u) in
      let waited =
        Minor-children env (wait_exit-Minor env (rounds env grace) pid deadline (clock ∷ u)) in
      ground (arith, waited, after_wait-children pid ended t')
