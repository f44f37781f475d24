-- ===== src/Daemon/Signalled.antt =====
-- src/main.rs: to which processes the daemon sends signals, from its start to its end.
use teeproxyd.Base.{ℕ, ◌≡◌, refl, ◌∙◌, ap, inl, inr, List, Option-cases}
use teeproxyd.System.{Env, Trace}
use teeproxyd.Config.{Config, load_with_warnings}
use teeproxyd.Process.Minor.{Minor}
use teeproxyd.Daemon.Start.{load_with_warnings-Minor, boot-Minor}
use teeproxyd.Process.Own.{Minor-deeds, strays}
use teeproxyd.Vm
use teeproxyd.Vm.{VmManager}
use teeproxyd.Ca
use teeproxyd.Ca.{CaManager}
use teeproxyd.Startup.Acts.{managers}
use teeproxyd.Acts.Own.{IsOwner, Acts-IsFine}
use teeproxyd.Daemon.Acts.{run-Goes}
use teeproxyd.Daemon.Reach.{IsFresh, boot-IsFresh}
use teeproxyd.Daemon.{Daemon, Wakeup, boot, daemon_main, serve_from}

module _ (env : Env) (config : Config) where
  new-IsOwner : (t : Trace) (d : Daemon) → IsFresh config d → IsOwner env t (managers d.startup)
  unfolding Vm.new Ca.new
  new-IsOwner t d v = record { vm = rw v.vm tt; ca = rw v.ca tt }

module _ (env : Env) where
  silent-strays : {t u : Trace} → Minor t u → strays env u ≡ strays env t
  silent-strays p = ap (λ (d : List ℕ × List ℕ). d.1) (Minor-deeds env p)

  serve_from-strays :
      (config : Config) (ws : List Wakeup) (t₀ t : Trace)
      → strays env (serve_from env config ws (boot env config t₀).0 t).1 ≡ strays env t
  serve_from-strays config ws t₀ t = elim (Option-cases (boot env config t₀).0) [
    | inl panics ↦ rw panics refl
    | inr (entered, e) ↦
        let owner = new-IsOwner env config t entered.0 (boot-IsFresh env config t₀ entered e) in
        let (clean, _) =
          (Acts-IsFine env config (run-Goes env config entered.1 ws entered.0 t)).fine owner in
        rw e clean.same_strays
  ]

  -- From its start to its end, whatever wakes it and whatever its clients ask for, the daemon sends
  -- no signal by kill(2) to a process other than the children that it has created before.
  pub daemon_main-strays :
      (ws : List Wakeup) (t : Trace) → strays env (daemon_main env ws t).1 ≡ strays env t
  unfolding daemon_main
  daemon_main-strays ws t =
      let (config, u) = load_with_warnings env t in
      let (booted, u') = boot env config u in
      serve_from-strays config ws u u'
      ∙ silent-strays (boot-Minor env config u)
      ∙ silent-strays (load_with_warnings-Minor env t)
