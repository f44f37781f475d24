-- ===== src/Daemon/Boot.antt =====
-- src/main.rs: when `main` enters its loop, and what it panics on.
use teeproxyd.Base.{some, negsuc, ◌≢◌, ◌≡◌, ◌↔◌, ◌⊎◌, ◌∷◌, true, arith, is_some}
use teeproxyd.System.{
  Env, Trace, sig_term, sig_int, sig_chld, create_dir, make_pipe, set_handler, remove_file,
}
use teeproxyd.Config.{Config}
use teeproxyd.Daemon.Socket.{acquire_listener, listen_on, inherited_fd, socket_path}
use teeproxyd.Daemon.Signals.{register, setup_signal_handler}
use teeproxyd.Daemon.{boot}

module _ (env : Env) (config : Config) (t : Trace) where
  -- The history after the directories and the pipe, and the one after the handlers.
  abbrev pub piped : Trace
  piped = make_pipe ∷ create_dir config.image_dir ∷ create_dir config.log_dir ∷ t

  abbrev pub guarded : Trace
  guarded = set_handler sig_chld ∷ set_handler sig_int ∷ set_handler sig_term ∷ piped

  pub record CanBoot : Type 0 where
    pub has_pipe :
        is_some (env.pipe_at (create_dir config.image_dir ∷ create_dir config.log_dir ∷ t)) ≡ true
    pub handles_term : env.sigaction_at sig_term piped ≡ true
    pub handles_int : env.sigaction_at sig_int (set_handler sig_term ∷ piped) ≡ true
    pub handles_chld :
        env.sigaction_at sig_chld (set_handler sig_int ∷ set_handler sig_term ∷ piped) ≡ true
    pub valid_fd : inherited_fd (env.var "ANDROID_SOCKET_teeproxyd") ≢ some (negsuc 0)
    pub listens :
        (is_some (inherited_fd (env.var "ANDROID_SOCKET_teeproxyd")) ≡ true)
        ⊎ (env.bind_at (socket_path env config) (remove_file (socket_path env config) ∷ guarded)
            ≡ true)

  -- `main` enters its loop exactly if there is a pipe, the handlers of SIGTERM, SIGINT and SIGCHLD
  -- can be registered, in this order, and init has passed on a descriptor or a socket can be bound
  -- after the file at its path has been removed, and the descriptor passed on is not −1; otherwise it
  -- panics.
  pub boots_iff : (is_some (boot env config t).0 ≡ true) ↔ CanBoot
  unfolding boot setup_signal_handler register acquire_listener listen_on
  boots_iff = ground arith
