-- ===== src/Daemon/Patience.antt =====
-- src/main.rs: how many deaths it takes until the daemon gives up.
use teeproxyd.Base.{
  ◌==◌, if◌then◌else◌, none, ℕ, ◌+◌, ◌≤◌, ◌≡◌, refl, List, [], ◌∷◌, Bool, true, false, Option, some,
  arith, Bool-cases, inl, inr, contains,
}
use teeproxyd.Acts.{nobody}
use teeproxyd.System.{Env, Trace, poll, clock}
use teeproxyd.Daemon.Poll.{poll_timeout}
use teeproxyd.Config.{Config}
use teeproxyd.Life.{IsSound}
use teeproxyd.Vm
use teeproxyd.Vm.{VmState}
use teeproxyd.Vm.Edges.{vm_life}
use teeproxyd.Ca
use teeproxyd.Ca.Edges.{ca_life}
use teeproxyd.Ca.{CaState}
use teeproxyd.Startup.Acts.{managers}
use teeproxyd.Ipc.Handlers.{Managers}
use teeproxyd.Ipc.Reader.{Stream}
use teeproxyd.Acts.Counts.{Counted, Counted-trans, Acts-crashes}
use teeproxyd.Acts.Lives.{Acts-Moves}
use teeproxyd.Daemon.Children.{
  WaitStatus, exited, signaled, handle_child_death, reap_children, vm_death, ca_death,
}
use teeproxyd.Daemon.Signals.{chld_byte, term_byte}
use teeproxyd.Daemon.Waking.{waking, drained}
use teeproxyd.Daemon.Acts.{rest_of_round-Goes, shut_down-Goes, run-Goes}
use teeproxyd.Daemon.Reach.{boot-IsFresh}
use teeproxyd.Daemon.Soundness.{Moves-AreSound, IsFresh-AreSound}
use teeproxyd.Daemon.{Daemon, Wakeup, boot, round, run, reap, unless_term, shut_down}

-- One if the process whose death is reported is the one that is held.
abbrev loss : Option ℕ → ℕ → ℕ
loss none pid = 0
loss (some held) pid = if held == pid then 1 else 0

module _ (env : Env) (config : Config) (child : Managers → Option ℕ) where
  -- How often a report that is handled is of the child that is held then.
  losses_in : List WaitStatus → Managers → Trace → ℕ
  losses_in [] m t = 0
  losses_in (exited pid ∷ rest) m t =
      let (m', t') = handle_child_death env config pid m t in
      loss (child m) pid + losses_in rest m' t'
  losses_in (signaled pid ∷ rest) m t =
      let (m', t') = handle_child_death env config pid m t in
      loss (child m) pid + losses_in rest m' t'
  losses_in (_ ∷ rest) m t = 0

  -- The reports are asked for only if the byte of SIGCHLD was read.
  losses_of : Bool → List WaitStatus → Daemon → Trace → ℕ
  unfolding losses_in
  losses_of false statuses d t = 0
  losses_of true statuses d t = losses_in statuses (managers d.startup) t

  losses_in_round : ℕ → Wakeup → Daemon → Trace → ℕ
  unfolding losses_of
  losses_in_round started_at w d t =
      let read = drained env config started_at w d t in
      losses_of (contains chld_byte read.0) w.statuses (record d { pipe = read.1 })
        (poll (poll_timeout config d.phase d.last_health (env.now_at t)) ∷ clock ∷ t)

  -- The same in all rounds of a run.
  pub losses : ℕ → List Wakeup → Daemon → Trace → ℕ
  unfolding losses_in_round
  losses started_at [] d t = 0
  losses started_at (w ∷ ws) d t =
      let (step, t') = round env config started_at w d t in
      let later = losses started_at ws step.0 t' in
      losses_in_round started_at w d t + (if step.1 then later else 0)

abbrev pub vm_child : Managers → Option ℕ
vm_child m = m.vm.child_pid

abbrev pub ca_child : Managers → Option ℕ
ca_child m = m.ca.child_pid

module _ (env : Env) (config : Config) where
  handle_child_death-Counted :
      (pid : ℕ) (m : Managers) (t : Trace)
      → Counted
          (loss (vm_child m) pid)
          (loss (ca_child m) pid)
          m
          (handle_child_death env config pid m t).0
  unfolding handle_child_death vm_death ca_death Vm.mark_dead Ca.mark_dead Vm.set_state Ca.set_state
      Vm.owns_pid Ca.owns_pid
  handle_child_death-Counted pid m t =
      let kept = Ca.Lifecycle.ca_start_outcome env config config.vsock_cid (Ca.mark_dead m.ca) t in
      ground (arith, kept.0)

  reap_children-Counted :
      (statuses : List WaitStatus) (m : Managers) (t : Trace)
      → Counted
          (losses_in env config vm_child statuses m t)
          (losses_in env config ca_child statuses m t)
          m
          (reap_children env config statuses m t).0
  unfolding reap_children losses_in
  reap_children-Counted [] m t = ground arith
  reap_children-Counted (exited pid ∷ rest) m t =
      let (m', t') = handle_child_death env config pid m t in
      Counted-trans _ _ _ _ m m' (reap_children env config rest m' t').0
        (handle_child_death-Counted pid m t) (reap_children-Counted rest m' t')
  reap_children-Counted (signaled pid ∷ rest) m t =
      let (m', t') = handle_child_death env config pid m t in
      Counted-trans _ _ _ _ m m' (reap_children env config rest m' t').0
        (handle_child_death-Counted pid m t) (reap_children-Counted rest m' t')
  reap_children-Counted (_ ∷ rest) m t = ground arith

  reap-Counted :
      (got_chld : Bool) (statuses : List WaitStatus) (d : Daemon) (t : Trace)
      → Counted
          (losses_of env config vm_child got_chld statuses d t)
          (losses_of env config ca_child got_chld statuses d t)
          (managers d.startup)
          (managers (reap env config got_chld statuses d t).0.startup)
  unfolding reap losses_of
  reap-Counted false statuses d t = ground arith
  reap-Counted true statuses d t = reap_children-Counted statuses (managers d.startup) t

  unless_term-Counted :
      (got_term : Bool) (started_at : ℕ) (client : Option Stream) (d : Daemon) (t : Trace)
      → Counted 0 0
          (managers d.startup)
          (managers (unless_term env config got_term started_at client d t).0.0.startup)
  unfolding unless_term
  unless_term-Counted true started_at client d t = ground arith
  unless_term-Counted false started_at client d t =
      Acts-crashes env config (rest_of_round-Goes env config nobody started_at client d t)

  round-Counted :
      (started_at : ℕ) (w : Wakeup) (d : Daemon) (t : Trace)
      → Counted
          (losses_in_round env config vm_child started_at w d t)
          (losses_in_round env config ca_child started_at w d t)
          (managers d.startup)
          (managers (round env config started_at w d t).0.0.startup)
  unfolding round losses_in_round
  round-Counted started_at w d t =
      let (woken, t₁) = waking env config started_at w d t in
      let read = drained env config started_at w d t in
      let reaped =
        reap-Counted (contains chld_byte read.0) w.statuses (record d { pipe = read.1 })
          (poll (poll_timeout config d.phase d.last_health (env.now_at t)) ∷ clock ∷ t) in
      let rest = unless_term-Counted (contains term_byte read.0) started_at w.client woken t₁ in
      (omega (arith, reaped.0, rest.0), omega (arith, reaped.1, rest.1))

  run-Counted :
      (started_at : ℕ) (ws : List Wakeup) (d : Daemon) (t : Trace)
      → Counted
          (losses env config vm_child started_at ws d t)
          (losses env config ca_child started_at ws d t)
          (managers d.startup)
          (managers (run env config started_at ws d t).0.0.startup)
  unfolding run losses
  run-Counted started_at [] d t = ground arith
  run-Counted started_at (w ∷ ws) d t =
      let (step, t') = round env config started_at w d t in
      let one = round-Counted started_at w d t in
      elim (Bool-cases step.1) [
        | inl on ↦
            rw (on, run)
              (Counted-trans _ _ _ _ (managers d.startup) (managers step.0.startup)
                (managers (run env config started_at ws step.0 t').0.0.startup) one
                (run-Counted started_at ws step.0 t'))
        | inr off ↦
            rw (off, run)
              (Counted-trans _ _ _ _ (managers d.startup) (managers step.0.startup)
                (managers (shut_down env config step.0 t').0.startup) one
                (Acts-crashes env config (shut_down-Goes env config nobody true true step.0 t')))
      ]

-- Five for a manager that has been given up.
abbrev pub vm_toll : VmState → ℕ
vm_toll VmState.error = 5
vm_toll _ = 0

abbrev pub ca_toll : CaState → ℕ
ca_toll CaState.error = 5
ca_toll _ = 0

vm_toll-le : (vm : Vm.VmManager) → IsSound (vm_life vm) → vm_toll vm.state ≤ vm.crash_count
vm_toll-le vm v = ground (arith, v.worn)

ca_toll-le : (ca : Ca.CaManager) → IsSound (ca_life ca) → ca_toll ca.state ≤ ca.crash_count
ca_toll-le ca v = ground (arith, v.worn)

module _ (env : Env) (config : Config) where
  -- A daemon that has started and runs gives up on a child only after its manager has lost five:
  -- whatever wakes the daemon, and whatever its clients ask for, the VM is in Error only if at least
  -- five of the reports that were asked for and handled were of the process that the VM manager held
  -- at that point of the run, and the CA is in Error only if five were of the one that the CA manager
  -- held.
  pub gives_up_after_five_deaths :
      (ws : List Wakeup) (t₀ t : Trace) (d : Daemon) (started_at : ℕ)
      → (boot env config t₀).0 ≡ some (d, started_at)
      → let d' = (run env config started_at ws d t).0.0 in
        (vm_toll d'.vm.state ≤ losses env config vm_child started_at ws d t)
        × (ca_toll d'.ca.state ≤ losses env config ca_child started_at ws d t)
  unfolding Vm.new Ca.new
  gives_up_after_five_deaths ws t₀ t d started_at e =
      let fresh = boot-IsFresh env config t₀ (d, started_at) e in
      let d' = (run env config started_at ws d t).0.0 in
      let sound =
        Moves-AreSound (Acts-Moves env config (run-Goes env config started_at ws d t))
          (IsFresh-AreSound config d fresh) in
      let counted = run-Counted env config started_at ws d t in
      let no_vm : d.vm.crash_count ≡ 0 = rw fresh.vm refl in
      let no_ca : d.ca.crash_count ≡ 0 = rw fresh.ca refl in
      (
        omega (arith, counted.0, no_vm, vm_toll-le d'.vm sound.vm),
        omega (arith, counted.1, no_ca, ca_toll-le d'.ca sound.ca),
      )
