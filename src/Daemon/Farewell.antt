-- ===== src/Daemon/Farewell.antt =====
-- src/main.rs: the signals that the shutdown sends to the two children.
use teeproxyd.Base.{ℕ, ◌≡◌, ◌≢◌, sym, ◌∙◌, none, some, List, ◌∷◌, arith}
use teeproxyd.System.{Env, Trace, Signal, sigkill, IsClock}
use teeproxyd.Config.{Config}
use teeproxyd.Process.{graceful_kill, kill_tree}
use teeproxyd.Process.Kill.{sent}
use teeproxyd.Process.Others.{
  graceful_kill-sent_other, kill_tree-sent_other, Stopped, graceful_kill-Stopped,
}
use teeproxyd.Vm
use teeproxyd.Ca
use teeproxyd.Daemon.{Daemon, shut_down}

module _ (env : Env) (config : Config) where
  abbrev grace : ℕ
  grace = config.shutdown_grace_secs

  vm_stop_child-sent_other :
      (pid other : ℕ) (t : Trace)
      → pid ≢ other
      → sent other (Vm.stop_child env config (some pid) t).1 ≡ sent other t
  unfolding Vm.stop_child sent
  vm_stop_child-sent_other pid other t apart =
      kill_tree-sent_other env pid other apart sigkill (graceful_kill env pid grace t).1
      ∙ graceful_kill-sent_other env pid other apart grace t

  -- The VM's tree gets SIGKILL in any case.
  vm_stop_child-sent :
      (pid : ℕ) (t : Trace)
      → sent pid (Vm.stop_child env config (some pid) t).1
        ≡ sigkill ∷ sent pid (graceful_kill env pid grace t).1
  unfolding Vm.stop_child sent kill_tree
  vm_stop_child-sent pid t = ground arith

  -- On a clock that never goes back, the shutdown of a daemon with two different children sends
  -- the CA's and the VM's SIGTERM, and SIGKILL after it if need be, unless it is not found; and
  -- the VM's gets a last SIGKILL in any case. The daemon itself sends them no other signal.
  pub shut_down_signals :
      (ca_pid vm_pid : ℕ) (d : Daemon) (t : Trace)
      → IsClock env
      → d.ca.child_pid ≡ some ca_pid
      → d.vm.child_pid ≡ some vm_pid
      → vm_pid ≢ ca_pid
      → let t' = (shut_down env config d t).1 in
        let ca_stopped = (Ca.stop env config d.ca t).1 in
        Stopped (env.kill_at ca_pid none t) (sent ca_pid t) (sent ca_pid t')
        × ((before_last : List Signal) × (sent vm_pid t' ≡ sigkill ∷ before_last)
            × Stopped (env.kill_at vm_pid none ca_stopped) (sent vm_pid t) before_last)
  unfolding shut_down Ca.stop Vm.stop Ca.stop_child
  shut_down_signals ca_pid vm_pid d t c held_ca held_vm apart =
      let u = (graceful_kill env ca_pid grace t).1 in
      rw (held_ca, held_vm)
        (
          rw (vm_stop_child-sent_other vm_pid ca_pid u apart)
              (graceful_kill-Stopped env ca_pid grace t c),
          (
            sent vm_pid (graceful_kill env vm_pid grace u).1,
            vm_stop_child-sent vm_pid u,
            rw (sym (graceful_kill-sent_other env ca_pid vm_pid (λ e. apart (sym e)) grace t))
                (graceful_kill-Stopped env vm_pid grace u c),
          ),
        )
