-- ===== src/Daemon/Deaths.antt =====
-- src/main.rs: what the death of a child does, `handle_child_death`.
use teeproxyd.Base.{
  ℕ, zero, suc, ◌+◌, ◌≤◌, ◌<◌, ◌≡◌, true, false, Option, none, some, arith, is_some,
}
use teeproxyd.System.{Env, Trace, M, pure, ok}
use teeproxyd.Config.{Config}
use teeproxyd.Vm
use teeproxyd.Ca
use teeproxyd.Ca.{CaState, CaManager}
use teeproxyd.Ca.Lifecycle.{ca_start_outcome}
use teeproxyd.Ipc.Handlers.{Managers}
use teeproxyd.Daemon.Children.{handle_child_death}

module _ (env : Env) (config : Config) where
  -- The death of a process that is not the VM's, when the CA was stopped before, is no crash:
  -- whenever the news comes, nothing changes and nothing is started.
  pub stopped_child_is_ignored :
      (m : Managers) (pid : ℕ) (t u : Trace)
      → Vm.owns_pid m.vm pid ≡ false
      → let m' = record m { ca = (Ca.stop env config m.ca t).0 } in
        handle_child_death env config pid m' u ≡ (m', u)
  unfolding handle_child_death Ca.stop Ca.owns_pid
  stopped_child_is_ignored m pid t u h = ground arith

  dies_with : Option ℕ → Managers → M Managers
  dies_with none m = pure m
  dies_with (some pid) m = handle_child_death env config pid m

  -- The CA's process of the moment dies, `n` times in a row.
  pub ca_deaths : ℕ → Managers → M Managers
  unfolding dies_with
  ca_deaths zero m t = (m, t)
  ca_deaths (suc n) m t = let (m', t') = dies_with m.ca.child_pid m t in ca_deaths n m' t'

  -- Every start of the CA succeeds.
  abbrev pub StartsWell : Type 0
  StartsWell =
      (ca : CaManager) (t : Trace) → (Ca.start env config config.vsock_cid ca t).0.1 ≡ ok tt

  -- The CA has a process, has crashed `c` times, and the VM has no process.
  pub record HasCrashed (c : ℕ) (m : Managers) : Type 0 where
    pub count : m.ca.crash_count ≡ c
    pub alive : is_some m.ca.child_pid ≡ true
    pub no_vm : m.vm.child_pid ≡ none

  death-HasCrashed :
      (c : ℕ) (m : Managers) (t : Trace)
      → StartsWell
      → c < 4
      → HasCrashed c m
      → HasCrashed (suc c) (dies_with m.ca.child_pid m t).0
  unfolding dies_with handle_child_death Ca.mark_dead Ca.owns_pid Vm.owns_pid
  death-HasCrashed c m t well below h = ground (
    arith,
    well (Ca.mark_dead m.ca) t,
    ca_start_outcome env config config.vsock_cid (Ca.mark_dead m.ca) t,
  )

  deaths-HasCrashed :
      (k c : ℕ) (m : Managers) (t : Trace)
      → StartsWell
      → c + k ≤ 4
      → HasCrashed c m
      → HasCrashed (c + k) (ca_deaths k m t).0
  unfolding ca_deaths
  deaths-HasCrashed zero c m t well below h = record {
    count = omega (arith, h.count);
    alive = h.alive;
    no_vm = h.no_vm;
  }
  deaths-HasCrashed (suc k) c m t well below h =
      let (m', t') = dies_with m.ca.child_pid m t in
      let v =
        deaths-HasCrashed k (suc c) m' t' well (omega arith)
          (death-HasCrashed c m t well (omega arith) h) in
      record { count = omega (arith, v.count); alive = v.alive; no_vm = v.no_vm }

  -- What the fifth death leaves.
  abbrev pub IsGivenUp : CaManager → Type 0
  IsGivenUp ca = (ca.state ≡ CaState.error) × (ca.child_pid ≡ none) × (ca.crash_count ≡ 5)

  last_death :
      (m : Managers) (t : Trace) → HasCrashed 4 m → IsGivenUp (dies_with m.ca.child_pid m t).0.ca
  unfolding dies_with handle_child_death Ca.mark_dead Ca.set_state Ca.owns_pid Vm.owns_pid
  last_death m t h = ground arith

  deaths-IsGivenUp :
      (k c : ℕ) (m : Managers) (t : Trace)
      → StartsWell
      → c + k ≡ 4
      → HasCrashed c m
      → IsGivenUp (ca_deaths (suc k) m t).0.ca
  unfolding ca_deaths
  deaths-IsGivenUp zero c m t well e h =
      let four : c ≡ 4 = omega arith in last_death m t (rw four at h)
  deaths-IsGivenUp (suc k) c m t well e h =
      let (m', t') = dies_with m.ca.child_pid m t in
      deaths-IsGivenUp k (suc c) m' t' well (omega arith)
        (death-HasCrashed c m t well (omega arith) h)

  -- If every start of the CA succeeds, then a running CA that has not crashed, beside a VM with
  -- no process, is started again after each of up to four deaths in a row, with the deaths
  -- counted; the fifth leaves it in Error with no process.
  pub five_deaths :
      (m : Managers) (k : ℕ) (t : Trace)
      → StartsWell
      → HasCrashed 0 m
      → k ≤ 4
      → HasCrashed k (ca_deaths k m t).0 × IsGivenUp (ca_deaths 5 m t).0.ca
  five_deaths m k t well h few =
      let v = deaths-HasCrashed k 0 m t well (omega arith) h in
      (
        record { count = omega (arith, v.count); alive = v.alive; no_vm = v.no_vm },
        deaths-IsGivenUp 4 0 m t well (omega arith) h,
      )
