-- ===== src/Daemon/Start.antt =====
-- src/main.rs: what the daemon does before its loop, and when its first health check is due.
use teeproxyd.Base.{ℤ, ℕ, ◌≤◌, refl, List, [], ◌∷◌, Option, none, some, arith}
use teeproxyd.System.{
  Env, Trace, IsClock, OsSignal, clock, set_handler, create_dir, make_pipe, remove_file, bind,
}
use teeproxyd.Config.{Config, load_with_warnings}
use teeproxyd.Process.Minor.{Minor, still, call, Minor-trans}
use teeproxyd.Process.Growth.{Extends-now, Minor-Extends}
use teeproxyd.Daemon.Signals.{register, handled, setup_signal_handler}
use teeproxyd.Daemon.Socket.{Listener, acquire_listener, listen_on, socket_path}
use teeproxyd.Daemon.{Daemon, boot, on_listener, on_handler, on_pipe}

module _ (env : Env) where
  pub load_with_warnings-Minor : (t : Trace) → Minor t (load_with_warnings env t).1
  unfolding load_with_warnings
  load_with_warnings-Minor t = grind (arith, still, call)

  register-Minor : (sigs : List OsSignal) (t : Trace) → Minor t (register env sigs t).1
  unfolding register
  register-Minor [] t = still
  register-Minor (sig ∷ sigs) t =
      let asked : Minor t (set_handler sig ∷ t) = call still (set_handler sig) refl in
      let rest = Minor-trans asked (register-Minor sigs (set_handler sig ∷ t)) in
      ground (arith, asked, rest)

module _ (env : Env) (config : Config) where
  listen_on-Minor : (fd : Option ℤ) (t : Trace) → Minor t (listen_on env config fd t).1
  unfolding listen_on
  listen_on-Minor (some fd) t = still
  listen_on-Minor none t =
      let path = socket_path env config in
      call (call still (remove_file path) refl) (bind path) refl

  acquire_listener-Minor : (t : Trace) → Minor t (acquire_listener env config t).1
  unfolding acquire_listener
  acquire_listener-Minor t = listen_on-Minor _ t

  on_listener-Minor :
      (fd : ℤ) (listener : Option Listener) (t : Trace)
      → Minor t (on_listener env config fd listener t).1
  on_listener-Minor fd none t = still
  on_listener-Minor fd (some listener) t = call (call still clock refl) clock refl

  on_handler-Minor : (handler : Option ℤ) (t : Trace) → Minor t (on_handler env config handler t).1
  on_handler-Minor none t = still
  on_handler-Minor (some fd) t =
      let (listener, u) = acquire_listener env config t in
      Minor-trans (acquire_listener-Minor t) (on_listener-Minor fd listener u)

  setup_signal_handler-Minor : (fd : ℕ) (t : Trace) → Minor t (setup_signal_handler env fd t).1
  unfolding setup_signal_handler
  setup_signal_handler-Minor fd t = register-Minor env (handled env) t

  on_pipe-Minor : (sig_pipe : Option ℕ) (t : Trace) → Minor t (on_pipe env config sig_pipe t).1
  on_pipe-Minor none t = still
  on_pipe-Minor (some fd) t =
      let (handler, u) = setup_signal_handler env fd t in
      Minor-trans (setup_signal_handler-Minor fd t) (on_handler-Minor handler u)

  -- Before its loop the daemon creates no child, signals nothing, connects to nothing.
  pub boot-Minor : (t : Trace) → Minor t (boot env config t).1
  unfolding boot
  boot-Minor t =
      let made : Minor t (make_pipe ∷ create_dir config.image_dir ∷ create_dir config.log_dir ∷ t) =
        call (call (call still (create_dir config.log_dir) refl) (create_dir config.image_dir) refl)
          make_pipe refl in
      Minor-trans made (on_pipe-Minor _ _)

  -- The daemon that enters its loop takes the time for that of its last health check.
  abbrev pub IsStamped : Trace → Option (Daemon × ℕ) × Trace → Type 0
  IsStamped t (none, u) = Unit
  IsStamped t (some entered, u) =
      (env.now_at t ≤ entered.0.last_health) × (entered.0.last_health ≤ env.now_at u)

  module _ (c : IsClock env) where
    earlier :
        {t u : Trace} (r : Option (Daemon × ℕ) × Trace) → Minor t u → IsStamped u r → IsStamped t r
    earlier (none, u') p v = tt
    earlier (some entered, u') p v = (omega (arith, v.0, Extends-now env c (Minor-Extends p)), v.1)

    on_listener-IsStamped :
        (fd : ℤ) (listener : Option Listener) (t : Trace)
        → IsStamped t (on_listener env config fd listener t)
    on_listener-IsStamped fd none t = tt
    on_listener-IsStamped fd (some listener) t = (c.monotone clock t, c.monotone clock (clock ∷ t))

    on_handler-IsStamped :
        (handler : Option ℤ) (t : Trace) → IsStamped t (on_handler env config handler t)
    on_handler-IsStamped none t = tt
    on_handler-IsStamped (some fd) t =
        let (listener, u) = acquire_listener env config t in
        earlier _ (acquire_listener-Minor t) (on_listener-IsStamped fd listener u)

    on_pipe-IsStamped :
        (sig_pipe : Option ℕ) (t : Trace) → IsStamped t (on_pipe env config sig_pipe t)
    on_pipe-IsStamped none t = tt
    on_pipe-IsStamped (some fd) t =
        let (handler, u) = setup_signal_handler env fd t in
        earlier _ (setup_signal_handler-Minor fd t) (on_handler-IsStamped handler u)

    pub boot-IsStamped : (t : Trace) → IsStamped t (boot env config t)
    unfolding boot
    boot-IsStamped t =
        let u = create_dir config.image_dir ∷ create_dir config.log_dir ∷ t in
        let made : Minor t (make_pipe ∷ u) =
          call
            (call (call still (create_dir config.log_dir) refl) (create_dir config.image_dir) refl)
            make_pipe refl in
        earlier _ made (on_pipe-IsStamped (env.pipe_at u) (make_pipe ∷ u))
