-- ===== src/Examples/Alone.antt =====
-- The theorems on what the daemon does without clients, and on when it gives up, at concrete inputs.
use teeproxyd.Base.{
  ℕ, Bool, ◌==◌, List, pos, some, codes, ◌≡◌, ◌+◌, ◌≤◌, true, false, refl, [], ◌∷◌,
}
use teeproxyd.System.{Env, connected}
use teeproxyd.Config.{Config, default}
use teeproxyd.Startup.Acts.{managers}
use teeproxyd.Acts.Fates.{AllHaveFates}
use teeproxyd.Process.Logs.{children}
use teeproxyd.Process.Launches.{vm_launches}
use teeproxyd.Daemon.{Daemon, Wakeup, boot, run, enter_loop}
use teeproxyd.Daemon.Socket.{acquire_listener, listen_on, inherited_fd}
use teeproxyd.Daemon.Signals.{register, setup_signal_handler}
use teeproxyd.Daemon.Children.{exited}
use teeproxyd.Daemon.Careful.{forgets_no_child}
use teeproxyd.Daemon.Once.{vm_launched_once}
use teeproxyd.Daemon.Patience.{
  losses, vm_child, ca_child, vm_toll, ca_toll, gives_up_after_five_deaths,
}
use teeproxyd.Examples.World.{calm, world}
use teeproxyd.Examples.Start.{before_loop, first, start_time, first-booted}
use teeproxyd.Examples.Lives.{loss, quiet}

-- The process with the pid that every child gets dies.
abbrev vm_loss : Wakeup
vm_loss = record loss { statuses = exited 7 ∷ [] }

-- A daemon that starts nothing by itself, whose client starts the CA; its process dies five times.
abbrev manual : Config
manual = record default { auto_start = false }

abbrev starting : Env
starting = world (λ pid t. true) connected "start_ca"

abbrev idle_first : Daemon
idle_first = (enter_loop starting manual (pos 4) before_loop).0.0

idle_first-booted : (boot starting manual []).0 ≡ some (idle_first, start_time)
unfolding boot acquire_listener listen_on inherited_fd register setup_signal_handler
idle_first-booted = refl

abbrev start_ca : Wakeup
start_ca = record quiet { client = some (record { bytes = codes "{}\n"; fails = false }) }

abbrev five_losses : List Wakeup
five_losses = start_ca ∷ vm_loss ∷ vm_loss ∷ vm_loss ∷ vm_loss ∷ vm_loss ∷ []

gives_up_after_five_deaths_example :
    let d = (run starting manual start_time five_losses idle_first []).0.0 in
    (vm_toll d.vm.state ≤ losses starting manual vm_child start_time five_losses idle_first [])
    × (ca_toll d.ca.state ≤ losses starting manual ca_child start_time five_losses idle_first [])
gives_up_after_five_deaths_example =
    gives_up_after_five_deaths starting manual five_losses [] [] idle_first start_time
      idle_first-booted

-- The first round launches the VM, and it is not launched again.
vm_launched_once_example :
    let u =
      (run calm default start_time
        (quiet ∷ vm_loss ∷ quiet ∷ [])
        first
        (boot calm default []).1).1 in
    vm_launches u ≤ vm_launches [] + 1
vm_launched_once_example =
    vm_launched_once calm default (quiet ∷ vm_loss ∷ quiet ∷ []) [] first start_time
      (refl, (refl, (refl, tt))) first-booted

-- The only process that dies.
abbrev seven : ℕ → Bool
seven pid = pid == 7

forgets_no_child_example :
    let (step, u) =
      run calm default start_time (quiet ∷ vm_loss ∷ quiet ∷ []) first (boot calm default []).1 in
    AllHaveFates calm seven (managers step.0.startup, u) (children calm u)
forgets_no_child_example =
    forgets_no_child calm default seven (quiet ∷ vm_loss ∷ quiet ∷ []) [] first start_time
      (refl, (refl, (refl, tt))) (tt, ((refl, tt), (tt, tt))) first-booted (unfold children in refl)
