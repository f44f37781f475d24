-- ===== src/Process/Logs.antt =====
-- src/process.rs: the start of a child.
use teeproxyd.Base.{
  sym, ap, ◌≢◌, ◌∙◌, length, ℕ, ◌≡◌, Bool, false, Option, none, some, List, [], ◌∷◌, arith, String,
  if◌then◌else◌, ltb,
}
use teeproxyd.System.{Env, Trace, spawn, PathBuf, Result, ok, err, rename, with_extension}
use teeproxyd.Process.{rotate_if_needed, spawn_with_log}

abbrev pub child_of : Result ℕ → List ℕ → List ℕ
child_of (ok pid) pids = pid ∷ pids
child_of (err e) pids = pids

-- The children that were created, the newest first.
unfoldable pub children : Env → Trace → List ℕ
children env [] = []
children env (spawn c ∷ t) = child_of (env.pid_at c t) (children env t)
children env (_ ∷ t) = children env t

-- What a `start` with this result and this child held has created, given the children before.
abbrev pub CreatedIs : Result (Unit {0}) → Option ℕ → List ℕ → List ℕ → Type 0
CreatedIs (ok _) (some pid) before after = after ≡ pid ∷ before
CreatedIs (ok _) none before after = ⊥
CreatedIs (err e) held before after = after ≡ before

-- No list is itself with an element in front.
cons-ne : (x : ℕ) (xs : List ℕ) → xs ≢ x ∷ xs
cons-ne x xs e = omega (arith, ap length e)

-- If a child was created, it is the child that is held.
pub holds_created :
    (r : Result (Unit {0})) (held : Option ℕ) (pid : ℕ) (before after : List ℕ)
    → CreatedIs r held before after
    → after ≡ pid ∷ before
    → held ≡ some pid
holds_created (ok _) (some p) pid before after c e = cc
holds_created (ok _) none pid before after c e = absurd c
holds_created (err m) held pid before after c e = absurd (cons-ne pid before (sym c ∙ e))

module _ (env : Env) where
  rotate_if_needed-children :
      (p : PathBuf) (n : ℕ) (t : Trace)
      → children env (rotate_if_needed env p n t).1 ≡ children env t
  unfolding children rotate_if_needed
  rotate_if_needed-children p n t = ground arith

  -- `spawn_with_log` creates at most one child: the one whose pid it returns if it succeeds, and
  -- none if it fails, be it at the log file, at its copy, or at the spawn itself.
  pub spawn_with_log-children :
      (cmd : String) (args : List String) (envs : List (String × String)) (log : PathBuf)
      (cwd : Option PathBuf) (t : Trace)
      → let (child, t') = spawn_with_log env cmd args envs log cwd t in
        children env t' ≡ child_of child (children env t)
  unfolding children spawn_with_log
  spawn_with_log-children cmd args envs log cwd t =
      ground (arith, rotate_if_needed-children log (10485760) t)

-- The renames that were made, the newest first.
pub renames : Trace → List (PathBuf × PathBuf)
renames [] = []
renames (rename p q ∷ t) = (p, q) ∷ renames t
renames (_ ∷ t) = renames t

-- `len > 10 * 1024 * 1024`
abbrev pub is_too_long : Result ℕ → Bool
is_too_long (ok len) = ltb 10485760 len
is_too_long (err e) = false

module _ (env : Env) where
  -- The start of a child moves its log file aside, to the same name with `log.1` for its extension,
  -- exactly when the file can be measured and is longer than 10 MiB; and it renames nothing else.
  pub spawn_with_log-renames :
      (cmd : String) (args : List String) (envs : List (String × String)) (log : PathBuf)
      (cwd : Option PathBuf) (t : Trace)
      → renames (spawn_with_log env cmd args envs log cwd t).1 ≡ (
          if is_too_long (env.len_at log t)
          then (log, with_extension log "log.1") ∷ renames t
          else renames t)
  unfolding renames spawn_with_log
  spawn_with_log-renames cmd args envs log cwd t = ground arith
