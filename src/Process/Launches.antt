-- ===== src/Process/Launches.antt =====
-- src/process.rs: the spawns of a child with a directory of its own, which only the VM is given.
use teeproxyd.Base.{
  ℕ, suc, ◌+◌, ◌≤◌, ◌≡◌, refl, ◌∙◌, Option, none, some, List, [], ◌∷◌, String, true, arith, is_some,
  if◌then◌else◌,
}
use teeproxyd.System.{Env, Trace, Event, PathBuf, spawn, clock, kill, sigterm, secs}
use teeproxyd.Process.Minor.{is_minor, Minor, still, call, wait_exit-Minor}
use teeproxyd.Process.{
  wait_exit, graceful_kill, spawn_with_log, rounds, is_alive, Wait, exited, after_wait,
  rotate_if_needed,
}

unfoldable pub vm_launches : Trace → ℕ
vm_launches [] = 0
vm_launches (spawn c ∷ t) =
    let rest = vm_launches t in if is_some c.current_dir then suc rest else rest
vm_launches (_ ∷ t) = vm_launches t

launches-cons : (e : Event) (t : Trace) → is_minor e ≡ true → vm_launches (e ∷ t) ≡ vm_launches t
unfolding vm_launches
launches-cons e t h = ground arith

pub Minor-launches : {t u : Trace} → Minor t u → vm_launches u ≡ vm_launches t
Minor-launches still = refl
Minor-launches (call {u} p e h) = launches-cons e u h ∙ Minor-launches p

module _ (env : Env) where
  after_wait-launches :
      (pid : ℕ) (w : Wait) (t : Trace) → vm_launches (after_wait env pid w t).1 ≡ vm_launches t
  unfolding after_wait is_alive vm_launches
  after_wait-launches pid exited t = refl
  after_wait-launches pid _ t = refl

  pub graceful_kill-launches :
      (pid grace : ℕ) (t : Trace) → vm_launches (graceful_kill env pid grace t).1 ≡ vm_launches t
  unfolding graceful_kill is_alive vm_launches
  graceful_kill-launches pid grace t =
      let u = kill pid (some sigterm) ∷ kill pid none ∷ t in
      let deadline = env.now_at u + secs grace in
      let (ended, t') = wait_exit env (rounds env grace) pid deadline (clock ∷ u) in
      ground (
        arith,
        Minor-launches (wait_exit-Minor env (rounds env grace) pid deadline (clock ∷ u)),
        after_wait-launches pid ended t',
      )

  -- A child that is started without a directory is no VM.
  pub spawn_with_log-launches :
      (cmd : String) (args : List String) (envs : List (String × String)) (log : PathBuf)
      (t : Trace)
      → vm_launches (spawn_with_log env cmd args envs log none t).1 ≡ vm_launches t
  unfolding spawn_with_log rotate_if_needed vm_launches
  spawn_with_log-launches cmd args envs log t = ground arith

  pub spawn_with_log-launches_le :
      (cmd : String) (args : List String) (envs : List (String × String)) (log : PathBuf)
      (cwd : Option PathBuf) (t : Trace)
      → vm_launches (spawn_with_log env cmd args envs log cwd t).1 ≤ 1 + vm_launches t
  unfolding spawn_with_log rotate_if_needed vm_launches
  spawn_with_log-launches_le cmd args envs log cwd t = ground arith
