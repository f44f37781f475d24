-- ===== src/Daemon/Recovery.antt =====
-- src/main.rs: what the daemon does by itself after a death, with no client at its socket.
use teeproxyd.Base.{ℕ, ◌≤◌, ◌≡◌, refl, List, [], ◌∷◌, Bool, true, false, none, arith, All}
use teeproxyd.System.{Env, Trace}
use teeproxyd.Config.{Config}
use teeproxyd.Vm
use teeproxyd.Startup.{advance_startup}
use teeproxyd.Startup.Phases.{IsTracked, rank, advance_startup-vm}
use teeproxyd.Ipc.Handlers.{Managers}
use teeproxyd.Daemon.Children.{WaitStatus, exited, signaled, handle_child_death, reap_children}
use teeproxyd.Daemon.Waking.{waking}
use teeproxyd.Daemon.Steps.{reap-phase, round-IsTracked, waking-IsTracked}
use teeproxyd.Daemon.Reach.{round-rank}
use teeproxyd.Daemon.{
  Daemon, Wakeup, round, run, shut_down, accept_client, reap, rest_of_round, unless_term,
  check_health, reset_counts,
}

abbrev pub IsQuiet : List Wakeup → Type 0
IsQuiet = All (λ (w : Wakeup). w.client ≡ none)

module _ (env : Env) (config : Config) where
  handle_child_death-vm :
      (pid : ℕ) (m : Managers) (t : Trace)
      → m.vm.child_pid ≡ none
      → (handle_child_death env config pid m t).0.vm ≡ m.vm
  unfolding handle_child_death Vm.owns_pid
  handle_child_death-vm pid m t h = ground arith

  reap_children-vm :
      (statuses : List WaitStatus) (m : Managers) (t : Trace)
      → m.vm.child_pid ≡ none
      → (reap_children env config statuses m t).0.vm ≡ m.vm
  unfolding reap_children
  reap_children-vm [] m t h = refl
  reap_children-vm (exited pid ∷ rest) m t h =
      let (m', t') = handle_child_death env config pid m t in
      let same = handle_child_death-vm pid m t h in
      ground (arith, same, reap_children-vm rest m' t' (rw same h))
  reap_children-vm (signaled pid ∷ rest) m t h =
      let (m', t') = handle_child_death env config pid m t in
      let same = handle_child_death-vm pid m t h in
      ground (arith, same, reap_children-vm rest m' t' (rw same h))
  reap_children-vm (_ ∷ rest) m t h = refl

  pub reap-vm :
      (got_chld : Bool) (statuses : List WaitStatus) (d : Daemon) (t : Trace)
      → d.vm.child_pid ≡ none
      → (reap env config got_chld statuses d t).0.vm.child_pid ≡ none
  unfolding reap
  reap-vm false statuses d t h = h
  reap-vm true statuses d t h =
      ground (arith, reap_children-vm statuses (record { vm = d.vm; ca = d.ca }) t)

  pub check_health-vm : (d : Daemon) (t : Trace) → (check_health env config d t).0.vm ≡ d.vm
  unfolding check_health
  check_health-vm d t = ground arith

  pub reset_counts-vm :
      (d : Daemon) (t : Trace) → (reset_counts env config d t).0.vm.child_pid ≡ d.vm.child_pid
  unfolding reset_counts Vm.maybe_reset_crash_count
  reset_counts-vm d t = ground arith

  unless_term-vm :
      (got_term : Bool) (started_at : ℕ) (d : Daemon) (t : Trace)
      → IsTracked d.startup
      → 1 ≤ rank d.phase
      → d.vm.child_pid ≡ none
      → (unless_term env config got_term started_at none d t).0.0.vm.child_pid ≡ none
  unfolding unless_term rest_of_round accept_client
  unless_term-vm true started_at d t v r h = h
  unless_term-vm false started_at d t v r h =
      let (startup, t₁) = advance_startup env config d.startup t in
      let advanced : Daemon = record d { startup = startup } in
      let (checked, t₂) = check_health env config advanced t₁ in
      ground (
        arith,
        advance_startup-vm env config d.startup t v r,
        check_health-vm advanced t₁,
        reset_counts-vm checked t₂,
      )

module _ (env : Env) (config : Config) (started_at : ℕ) where
  waking-vm :
      (w : Wakeup) (d : Daemon) (t : Trace)
      → d.vm.child_pid ≡ none
      → (waking env config started_at w d t).0.vm.child_pid ≡ none
  waking-vm w d t h = reap-vm env config _ w.statuses _ _ h

  round-vm :
      (w : Wakeup) (d : Daemon) (t : Trace)
      → w.client ≡ none
      → IsTracked d.startup
      → 1 ≤ rank d.phase
      → d.vm.child_pid ≡ none
      → (round env config started_at w d t).0.0.vm.child_pid ≡ none
  unfolding round
  round-vm w d t quiet v r h =
      let (woken, t₁) = waking env config started_at w d t in
      let same : woken.phase ≡ d.phase = reap-phase env config _ w.statuses _ _ in
      rw quiet (
        unless_term-vm env config _ started_at woken t₁
          (waking-IsTracked env config started_at w d t v) (rw same r) (waking-vm w d t h))

  shut_down-vm : (d : Daemon) (t : Trace) → (shut_down env config d t).0.vm.child_pid ≡ none
  unfolding shut_down Vm.stop
  shut_down-vm d t = refl

  -- From a state in which a manager that is down holds no child, the startup phase is behind
  -- VmStarting and the VM has no process, as after its death: no run of the daemon without
  -- clients starts the VM.
  pub vm_stays_down :
      (ws : List Wakeup) (d : Daemon) (t : Trace)
      → IsQuiet ws
      → IsTracked d.startup
      → 1 ≤ rank d.phase
      → d.vm.child_pid ≡ none
      → (run env config started_at ws d t).0.0.vm.child_pid ≡ none
  unfolding run
  vm_stays_down [] d t q v r h = h
  vm_stays_down (w ∷ ws) d t q v r h =
      let (step, t') = round env config started_at w d t in
      ground (
        arith,
        shut_down-vm step.0 t',
        vm_stays_down ws step.0 t' q.1 (round-IsTracked env config started_at w d t v)
            (omega (arith, round-rank env config started_at d w t v)) (round-vm w d t q.0 v r h),
      )
