-- ===== src/Process.antt =====
-- src/process.rs: children, their log files, and how they are stopped.
pub mod Kill
pub mod Logs
pub mod Outer
pub mod Launches
pub mod Minor
pub mod Growth
pub mod Own
pub mod Ended
pub mod Others
use teeproxyd.Base.{
  ℕ, zero, suc, ◌+◌, ◌*◌, String, Bool, true, false, not, Option, none, some, List, [], ◌∷◌, ltb,
  to_string, if◌then◌else◌, ◌<>◌,
}
use teeproxyd.System.{
  PathBuf, Result, ok, err, Signal, sigterm, sigkill, Command, Env, M, pure, ◌>>=◌, ◌>>◌, on_ok,
  now, file_len, open_file, clone_file, run_spawn, run_status, send_signal, rename_file,
  thread_sleep, secs, with_extension,
}

-- How the polling loop of `graceful_kill` ends.
pub data Wait : Type 0 where
  exited expired out_of_fuel : Wait

abbrev pub signal_number : Signal → ℕ
signal_number sigterm = 15
signal_number sigkill = 9

module _ (env : Env) where
  -- The file is renamed to `<stem>.log.1` if it is longer than `max_bytes`.
  unfoldable pub rotate_if_needed : PathBuf → ℕ → M (Unit {0})
  unfolding with_extension
  rotate_if_needed log_path max_bytes = do
    meta ← file_len env log_path
    elim meta [
      | ok len ↦
          if ltb max_bytes len
          then rename_file log_path (with_extension log_path "log.1")
          else pure tt
      | err e ↦ pure tt
    ]

  unfoldable pub spawn_with_log :
      String → List String → List (String × String) → PathBuf → Option PathBuf → M (Result ℕ)
  unfolding rotate_if_needed
  spawn_with_log cmd args envs log_file cwd = do
    rotate_if_needed log_file (10 * 1024 * 1024)
    file ← open_file env log_file
    on_ok (λ e. e) file
        (λ _. do
          stderr_file ← clone_file env log_file
          on_ok (λ e. e) stderr_file
              (λ _. run_spawn env (record {
                program = cmd;
                args = args;
                envs = envs;
                current_dir = cwd;
                output = some log_file;
              })))

  unfoldable pub is_alive : ℕ → M Bool
  is_alive pid = send_signal env pid none

  -- `while Instant::now() < deadline { if !is_alive(pid) { return true; } sleep(200ms); }`
  pub wait_exit : ℕ → ℕ → ℕ → M Wait
  unfolding is_alive
  wait_exit zero pid deadline t = (out_of_fuel, t)
  wait_exit (suc fuel) pid deadline t =
      let (time, t₁) = now env t in
      elim (ltb time deadline) [
        | false ↦ (expired, t₁)
        | true ↦
            let (alive, t₂) = is_alive pid t₁ in
            elim alive [
              | false ↦ (exited, t₂)
              | true ↦ wait_exit fuel pid deadline (thread_sleep 200 t₂).1
            ]
      ]

  -- The rounds that a grace period of `grace_secs` seconds can take, five in a second, and the
  -- last test of the loop.
  abbrev pub rounds : ℕ → ℕ
  rounds grace_secs = suc (5 * grace_secs)

  force_kill : ℕ → M Bool
  unfolding is_alive
  force_kill pid = do
    send_signal env pid (some sigkill)
    thread_sleep 100
    alive ← is_alive pid
    pure (not alive)

  after_wait : ℕ → Wait → M Bool
  unfolding force_kill
  after_wait pid exited = pure true
  after_wait pid expired = force_kill pid
  after_wait pid out_of_fuel = force_kill pid

  unfoldable pub graceful_kill : ℕ → ℕ → M Bool
  unfolding is_alive after_wait wait_exit
  graceful_kill pid grace_secs = do
    alive ← is_alive pid
    if not alive then pure true else do
      send_signal env pid (some sigterm)
      start ← now env
      ended ← wait_exit (rounds grace_secs) pid (start + secs grace_secs)
      after_wait pid ended

  unfoldable pub kill_tree : ℕ → Signal → M (Unit {0})
  kill_tree pid sig = do
    send_signal env pid (some sig)
    run_status env (record {
      program = "pkill";
      args = "-P" ∷ to_string pid ∷ ("-" <> to_string (signal_number sig)) ∷ [];
      envs = [];
      current_dir = none;
      output = none;
    })
    pure tt
