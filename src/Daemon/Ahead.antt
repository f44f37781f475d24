-- ===== src/Daemon/Ahead.antt =====
-- src/main.rs: what is still to be started has no child, in a daemon without clients.
use teeproxyd.Base.{ℕ, ◌≤◌, ◌≡◌, refl, ap, ◌∙◌, true, false, none, arith}
use teeproxyd.System.{Env, Trace}
use teeproxyd.Config.{Config}
use teeproxyd.Vm
use teeproxyd.Ca
use teeproxyd.Startup.{advance_startup}
use teeproxyd.Startup.Acts.{Permits, is_vm_starting}
use teeproxyd.Startup.Launches.{
  advance_startup-leaves, advance_startup-ca_early, advance_startup-rank,
}
use teeproxyd.Startup.Phases.{IsTracked, rank}
use teeproxyd.Daemon.Waking.{waking}
use teeproxyd.Daemon.Steps.{reap-phase, check_health-phase, reset_counts-phase}
use teeproxyd.Daemon.Reach.{IsFresh}
use teeproxyd.Daemon.Recovery.{reap-vm, check_health-vm, reset_counts-vm}
use teeproxyd.Daemon.Rest.{reap-resting}
use teeproxyd.Daemon.{Daemon, Wakeup, check_health, reset_counts, is_up}

-- What the startup is still to start has no child.
pub record IsAhead (d : Daemon) : Type 0 where
  vm_free : is_vm_starting d.phase ≡ true → d.vm.child_pid ≡ none
  ca_free : rank d.phase ≤ 3 → (d.ca.child_pid ≡ none) × (is_up d.ca.state ≡ false)

pub IsAhead-Permits : (d : Daemon) → IsAhead d → Permits true false d.phase d.startup
IsAhead-Permits d v = record {
  launches = λ h. refl;
  vm_free = λ e. v.vm_free;
  ca_free = λ e h. (v.ca_free (ground arith)).0;
}

module _ (env : Env) (config : Config) where
  pub waking-IsAhead :
      (started_at : ℕ) (w : Wakeup) (d : Daemon) (t : Trace)
      → IsAhead d
      → IsAhead (waking env config started_at w d t).0
  waking-IsAhead started_at w d t v =
      let same : (waking env config started_at w d t).0.phase ≡ d.phase =
        reap-phase env config _ w.statuses _ _ in
      record {
        vm_free = λ h. reap-vm env config _ w.statuses _ _ (v.vm_free (rw same at h));
        ca_free = λ h.
            let (gone, down) = v.ca_free (rw same at h) in
            let kept : (waking env config started_at w d t).0.ca ≡ d.ca =
              (reap-resting env config _ w.statuses _ _ gone).0 in
            rw kept (gone, down);
      }

  pub advance_startup-IsAhead :
      (d : Daemon) (t : Trace)
      → IsTracked d.startup
      → IsAhead d
      → IsAhead (record d { startup = (advance_startup env config d.startup t).0 })
  advance_startup-IsAhead d t v w = record {
    vm_free = λ h. cc (advance_startup-leaves env config d.startup t v);
    ca_free = λ h.
        rw (advance_startup-ca_early env config d.startup t v h)
          (w.ca_free (omega (arith, h, advance_startup-rank env config d.startup t v)));
  }

  check_health-ca :
      (d : Daemon) (t : Trace)
      → is_up d.ca.state ≡ false
      → (check_health env config d t).0.ca ≡ d.ca
  unfolding check_health
  check_health-ca d t down = ground arith

  pub check_health-IsAhead :
      (d : Daemon) (t : Trace) → IsAhead d → IsAhead (check_health env config d t).0
  check_health-IsAhead d t v =
      let same = check_health-phase env config d t in
      record {
        vm_free = λ h. rw (check_health-vm env config d t) (v.vm_free (rw same at h));
        ca_free = λ h.
            let (gone, down) = v.ca_free (rw same at h) in
            rw (check_health-ca d t down) (gone, down);
      }

  reset_counts-ca :
      (d : Daemon) (t : Trace)
      → let d' = (reset_counts env config d t).0 in
        (d'.ca.child_pid ≡ d.ca.child_pid) × (d'.ca.state ≡ d.ca.state)
  unfolding reset_counts Ca.maybe_reset_crash_count
  reset_counts-ca d t = ground arith

  pub reset_counts-IsAhead :
      (d : Daemon) (t : Trace) → IsAhead d → IsAhead (reset_counts env config d t).0
  reset_counts-IsAhead d t v =
      let same = reset_counts-phase env config d t in
      record {
        vm_free = λ h. reset_counts-vm env config d t ∙ v.vm_free (rw same at h);
        ca_free = λ h.
            let (gone, down) = v.ca_free (rw same at h) in
            let (kept, stays) = reset_counts-ca d t in (kept ∙ gone, ap is_up stays ∙ down);
      }

pub IsFresh-IsAhead : (config : Config) (d : Daemon) → IsFresh config d → IsAhead d
unfolding Vm.new Ca.new
IsFresh-IsAhead config d v = record {
  vm_free = λ h. rw v.vm refl;
  ca_free = λ h. rw v.ca (refl, refl);
}
