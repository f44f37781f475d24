-- ===== src/Daemon/Silence.antt =====
-- src/main.rs: what the main loop does about dead children, about crash counts and about an unhealthy
-- CA neither polls, nor probes the CA's health, nor writes to a client.
use teeproxyd.Base.{ℕ, ◌≡◌, refl, ◌∙◌, List, [], ◌∷◌, arith}
use teeproxyd.System.{Env, Trace}
use teeproxyd.Config.{Config}
use teeproxyd.Process.Minor.{Minor-trans}
use teeproxyd.Process.Outer.{Minor-outer, outer}
use teeproxyd.Health.{HealthResult, healthy, degraded, restart_needed}
use teeproxyd.Vm
use teeproxyd.Vm.{VmManager}
use teeproxyd.Ca
use teeproxyd.Ca.{CaManager}
use teeproxyd.Ipc.Handlers.{Managers}
use teeproxyd.Ipc.Silence.{ca_stop-outer, ca_start-outer}
use teeproxyd.Daemon.Children.{
  WaitStatus, exited, signaled, handle_child_death, reap_children, vm_death, ca_death,
}
use teeproxyd.Daemon.{Daemon, reset_counts, act_on}

module _ (env : Env) (config : Config) where
  handle_child_death-outer :
      (pid : ℕ) (m : Managers) (t : Trace)
      → outer (handle_child_death env config pid m t).1 ≡ outer t
  unfolding handle_child_death vm_death ca_death Vm.set_state Ca.set_state
  handle_child_death-outer pid m t =
      ground (arith, ca_start-outer env config config.vsock_cid (Ca.mark_dead m.ca) t)

  pub reap_children-outer :
      (statuses : List WaitStatus) (m : Managers) (t : Trace)
      → outer (reap_children env config statuses m t).1 ≡ outer t
  unfolding reap_children
  reap_children-outer [] m t = refl
  reap_children-outer (exited pid ∷ rest) m t =
      let (m', t') = handle_child_death env config pid m t in
      reap_children-outer rest m' t' ∙ handle_child_death-outer pid m t
  reap_children-outer (signaled pid ∷ rest) m t =
      let (m', t') = handle_child_death env config pid m t in
      reap_children-outer rest m' t' ∙ handle_child_death-outer pid m t
  reap_children-outer (_ ∷ rest) m t = refl

  pub reset_counts-outer :
      (d : Daemon) (t : Trace) → outer (reset_counts env config d t).1 ≡ outer t
  unfolding reset_counts
  reset_counts-outer d t =
      let u = (Vm.maybe_reset_crash_count env d.vm t).1 in
      Minor-outer (
        Minor-trans (Vm.Minor.maybe_reset_crash_count-Minor env d.vm t)
          (Ca.Minor.maybe_reset_crash_count-Minor env d.ca u))

  pub act_on-outer :
      (result : HealthResult) (ca : CaManager) (t : Trace)
      → outer (act_on env config result ca t).1 ≡ outer t
  act_on-outer healthy ca t = refl
  act_on-outer (degraded n) ca t = refl
  act_on-outer restart_needed ca t =
      let (ca', t') = Ca.stop env config ca t in
      ca_start-outer env config config.vsock_cid ca' t' ∙ ca_stop-outer env config ca t
