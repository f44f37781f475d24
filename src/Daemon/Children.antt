-- ===== src/Daemon/Children.antt =====
-- src/main.rs: `reap_children` and `handle_child_death`.
use teeproxyd.Base.{ℕ, List, [], ◌∷◌, ltb, leb, if◌then◌else◌}
use teeproxyd.System.{Env, M, pure, ◌>>=◌}
use teeproxyd.Config.{Config}
use teeproxyd.Vm
use teeproxyd.Vm.{VmState}
use teeproxyd.Ca
use teeproxyd.Ca.{CaManager, CaState}
use teeproxyd.Ipc.Handlers.{Managers}

-- The answers of `waitpid(None, WNOHANG)`; the reason of a death is only logged.
pub data WaitStatus : Type 0 where
  exited : ℕ → WaitStatus
  signaled : ℕ → WaitStatus
  still_alive : WaitStatus
  failed : WaitStatus
  other : WaitStatus

module _ (env : Env) (config : Config) where
  unfoldable pub vm_death : Managers → M Managers
  vm_death m =
      let dead = Vm.mark_dead m.vm in
      if leb 5 dead.crash_count
      then (do vm ← Vm.set_state env VmState.error dead; pure (record m { vm = vm }))
      else pure (record m { vm = dead })

  unfoldable pub ca_death : Managers → M Managers
  ca_death m =
      let dead = Ca.mark_dead m.ca in
      if ltb dead.crash_count 5
      then (do
        started ← Ca.start env config config.vsock_cid dead
        pure (record m { ca = started.0 }))
      else (do ca ← Ca.set_state env CaState.error dead; pure (record m { ca = ca }))

  unfoldable pub handle_child_death : ℕ → Managers → M Managers
  unfolding vm_death ca_death
  handle_child_death pid m =
      if Vm.owns_pid m.vm pid
      then vm_death m
      else if Ca.owns_pid m.ca pid
      then ca_death m
      else pure m

  -- The loop ends at the first answer that is no death; where the answers given end, `waitpid` has
  -- nothing left to report. Whether any child was reaped is returned too, and the caller drops it.
  unfoldable pub reap_children : List WaitStatus → Managers → M Managers
  reap_children [] m t = (m, t)
  reap_children (exited pid ∷ rest) m t =
      let (m', t') = handle_child_death pid m t in reap_children rest m' t'
  reap_children (signaled pid ∷ rest) m t =
      let (m', t') = handle_child_death pid m t in reap_children rest m' t'
  reap_children (still_alive ∷ rest) m t = (m, t)
  reap_children (failed ∷ rest) m t = (m, t)
  reap_children (other ∷ rest) m t = (m, t)
