-- ===== src/Daemon/Rest.antt =====
-- src/main.rs: what the daemon does by itself when the startup is over and the CA is down.
use teeproxyd.Base.{
  ℕ, ◌≡◌, refl, ap, ◌∙◌, List, [], ◌∷◌, Bool, true, false, none, arith, Bool-cases, inl, inr,
}
use teeproxyd.Acts.Fates.{vm_stop_child-children, ca_stop_child-children}
use teeproxyd.System.{Env, Trace}
use teeproxyd.Config.{Config}
use teeproxyd.Process.Logs.{children}
use teeproxyd.Process.Minor.{Minor-trans}
use teeproxyd.Process.Own.{Minor-children}
use teeproxyd.Vm
use teeproxyd.Vm.{VmManager}
use teeproxyd.Ca
use teeproxyd.Ca.{CaManager}
use teeproxyd.Startup.{is_settled}
use teeproxyd.Startup.Phases.{IsTracked, advance_startup-settled}
use teeproxyd.Ipc.Handlers.{Managers}
use teeproxyd.Daemon.Children.{
  WaitStatus, exited, signaled, handle_child_death, reap_children, vm_death,
}
use teeproxyd.Daemon.Waking.{waking}
use teeproxyd.Daemon.Steps.{reap-phase, round-IsTracked, waking-IsTracked}
use teeproxyd.Daemon.Reach.{round-settled}
use teeproxyd.Daemon.Recovery.{IsQuiet}
use teeproxyd.Daemon.{
  Daemon, Wakeup, round, run, shut_down, accept_client, reap, rest_of_round, unless_term,
  check_health, reset_counts, probe_ca,
}

-- The startup is over, and the CA is Idle or in Error.
pub record IsResting (d : Daemon) : Type 0 where
  pub tracked : IsTracked d.startup
  pub settled : is_settled d.phase ≡ true
  pub down : Ca.is_down d.ca.state ≡ true

module _ (env : Env) (config : Config) where
  -- Of a death only the VM's count of crashes is left.
  handle_child_death-resting :
      (pid : ℕ) (m : Managers) (t : Trace)
      → m.ca.child_pid ≡ none
      → let (m', t') = handle_child_death env config pid m t in (m'.ca ≡ m.ca) × (t' ≡ t)
  unfolding handle_child_death vm_death Ca.owns_pid Vm.set_state
  handle_child_death-resting pid m t h = ground arith

  reap_children-resting :
      (statuses : List WaitStatus) (m : Managers) (t : Trace)
      → m.ca.child_pid ≡ none
      → let (m', t') = reap_children env config statuses m t in (m'.ca ≡ m.ca) × (t' ≡ t)
  unfolding reap_children
  reap_children-resting [] m t h = (refl, refl)
  reap_children-resting (exited pid ∷ rest) m t h =
      let (m', t') = handle_child_death env config pid m t in
      let (same, quiet) = handle_child_death-resting pid m t h in
      let (same', quiet') =
        reap_children-resting rest m' t' (ap (λ (c : CaManager). c.child_pid) same ∙ h) in
      (same' ∙ same, quiet' ∙ quiet)
  reap_children-resting (signaled pid ∷ rest) m t h =
      let (m', t') = handle_child_death env config pid m t in
      let (same, quiet) = handle_child_death-resting pid m t h in
      let (same', quiet') =
        reap_children-resting rest m' t' (ap (λ (c : CaManager). c.child_pid) same ∙ h) in
      (same' ∙ same, quiet' ∙ quiet)
  reap_children-resting (_ ∷ rest) m t h = (refl, refl)

  pub reap-resting :
      (got_chld : Bool) (statuses : List WaitStatus) (d : Daemon) (t : Trace)
      → d.ca.child_pid ≡ none
      → let (d', t') = reap env config got_chld statuses d t in (d'.ca ≡ d.ca) × (t' ≡ t)
  unfolding reap
  reap-resting false statuses d t h = (refl, refl)
  reap-resting true statuses d t h =
      reap_children-resting statuses (record { vm = d.vm; ca = d.ca }) t h

  check_health-resting :
      (d : Daemon) (t : Trace)
      → Ca.is_down d.ca.state ≡ true
      → let (d', t') = check_health env config d t in
        (d'.ca ≡ d.ca) × (children env t' ≡ children env t)
  unfolding check_health probe_ca children
  check_health-resting d t down = ground arith

  reset_counts-resting :
      (d : Daemon) (t : Trace)
      → let (d', t') = reset_counts env config d t in
        (d'.ca.state ≡ d.ca.state) × (children env t' ≡ children env t)
  unfolding reset_counts Ca.maybe_reset_crash_count
  reset_counts-resting d t =
      let u = (Vm.maybe_reset_crash_count env d.vm t).1 in
      let silent =
        Minor-trans (Vm.Minor.maybe_reset_crash_count-Minor env d.vm t)
          (Ca.Minor.maybe_reset_crash_count-Minor env d.ca u) in
      (ground arith, unfold Ca.maybe_reset_crash_count in Minor-children env silent)

  unless_term-resting :
      (got_term : Bool) (started_at : ℕ) (d : Daemon) (t : Trace)
      → IsResting d
      → let (step, t') = unless_term env config got_term started_at none d t in
        (Ca.is_down step.0.ca.state ≡ true) × (children env t' ≡ children env t)
  unfolding unless_term rest_of_round accept_client
  unless_term-resting true started_at d t v = (v.down, refl)
  unless_term-resting false started_at d t v =
      let (checked, u) = check_health env config d t in
      rw (advance_startup-settled env config d.startup t v.tracked v.settled)
        (ground (arith, check_health-resting d t v.down, reset_counts-resting checked u, v.down))

  shut_down-resting :
      (d : Daemon) (t : Trace)
      → let (d', t') = shut_down env config d t in
        (Ca.is_down d'.ca.state ≡ true) × (children env t' ≡ children env t)
  unfolding shut_down Vm.stop Ca.stop
  shut_down-resting d t =
      let u = (Ca.stop_child env config d.ca.child_pid t).1 in
      (
        refl,
        vm_stop_child-children env config d.vm.child_pid u
            ∙ ca_stop_child-children env config d.ca.child_pid t,
      )

module _ (env : Env) (config : Config) (started_at : ℕ) where
  waking-IsResting :
      (w : Wakeup) (d : Daemon) (t : Trace)
      → IsResting d
      → let (d', t') = waking env config started_at w d t in
        IsResting d' × (children env t' ≡ children env t)
  unfolding children
  waking-IsResting w d t v =
      let (same, quiet) = reap-resting env config _ w.statuses _ _ (v.tracked.ca v.down) in
      (
        record {
          tracked = waking-IsTracked env config started_at w d t v.tracked;
          settled = rw (reap-phase env config _ w.statuses _ _) v.settled;
          down = rw same v.down;
        },
        ap (children env) quiet,
      )

  round-IsResting :
      (w : Wakeup) (d : Daemon) (t : Trace)
      → w.client ≡ none
      → IsResting d
      → let (step, t') = round env config started_at w d t in
        IsResting step.0 × (children env t' ≡ children env t)
  unfolding round
  round-IsResting w d t alone v =
      let (woken, t₁) = waking env config started_at w d t in
      let (woken_rests, woke) = waking-IsResting w d t v in
      let (down, rest) = unless_term-resting env config _ started_at woken t₁ woken_rests in
      (
        record {
          tracked = round-IsTracked env config started_at w d t v.tracked;
          settled = rw (round-settled env config started_at d w t v.tracked v.settled) v.settled;
          down = rw (alone, round) down;
        },
        rw (alone, round) (rest ∙ woke),
      )

  -- When the startup is over and the CA is Idle or in Error, as after a client has stopped it or
  -- after five deaths, and a manager that is down holds no child: no run of the daemon without
  -- clients creates a child, and the CA is still Idle or in Error after it, whatever dies meanwhile
  -- and whether or not a signal ends the run.
  pub nothing_starts_at_rest :
      (ws : List Wakeup) (d : Daemon) (t : Trace)
      → IsQuiet ws
      → IsResting d
      → let (step, t') = run env config started_at ws d t in
        (Ca.is_down step.0.ca.state ≡ true) × (children env t' ≡ children env t)
  unfolding run
  nothing_starts_at_rest [] d t q v = (v.down, refl)
  nothing_starts_at_rest (w ∷ ws) d t q v =
      let (step, t') = round env config started_at w d t in
      let (rests, one) = round-IsResting w d t q.0 v in
      let (down, more) = nothing_starts_at_rest ws step.0 t' q.1 rests in
      let (down', more') = shut_down-resting env config step.0 t' in
      elim (Bool-cases step.1) [
        | inl on ↦ rw (on, run) (down, more ∙ one)
        | inr off ↦ rw (off, run) (down', more' ∙ one)
      ]
