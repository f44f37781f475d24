-- ===== src/Acts/Stories.antt =====
-- src/vm.rs and src/ca.rs: the life of a child next to the history. What a step of the life says is
-- borne out by what happens in the world meanwhile. Each operation of a manager has such a story.
use teeproxyd.Base.{
  inl, inr, ◌≡◌, ◌≤◌, ◌+◌, ◌-◌, ◌%◌, ◌^◌, refl, ◌∙◌, ap, Bool, true, ℕ, Option, none, some, ◌∷◌,
  arith, Star, here, next, Bool-cases, leb, leb→le,
}
use teeproxyd.System.{Env, Trace, Result, ok, err, clock, kill, exists, secs}
use teeproxyd.Config.{Config}
use teeproxyd.Process
use teeproxyd.Process.Minor.{Minor, still, call}
use teeproxyd.Process.Logs.{children, child_of}
use teeproxyd.Process.Own.{Minor-children}
use teeproxyd.Process.Ended.{was_ended}
use teeproxyd.Process.Growth.{Extends, same, more, Extends-trans, Minor-Extends, graceful_kill-asks}
use teeproxyd.Life.{Life, Stage}
use teeproxyd.Vm
use teeproxyd.Vm.Edges.{vm_life}
use teeproxyd.Ca
use teeproxyd.Ca.Edges.{ca_life}
use teeproxyd.Acts.Fates.{vm_stop_child-was_ended, ca_stop_child-was_ended}
use teeproxyd.Acts.Growth.{vm_launch-Extends}
use teeproxyd.Acts.{State}

module _ (env : Env) (mortal : ℕ → Bool) where
  -- A stop of a child asks for it first, and then it was sent SIGTERM, or a query did not find it.
  abbrev pub HasStopped : Option ℕ → Trace → Trace → Type 0
  HasStopped none t u = Unit
  HasStopped (some pid) t u = Extends (kill pid none ∷ t) u × (was_ended env pid u ≡ true)

  pub data Chapter (a : Life × Trace) : Life × Trace → Type 0 where
    -- What has nothing to do with the child leaves its life as it is.
    elsewhere : (u : Trace) → Extends a.1 u → Chapter a (a.0, u)
    refused :
        (u : Trace)
        → Extends a.1 u
        → children env u ≡ children env a.1
        → Chapter a (record a.0 { stage = Stage.starting }, u)
    launched_as :
        (pid : ℕ) (u : Trace)
        → Extends a.1 u
        → children env u ≡ pid ∷ children env a.1
        → Chapter a (record a.0 { child = some pid; stage = Stage.launched }, u)
    answered :
        Chapter a (record a.0 { stage = Stage.ready; since = some (env.now_at a.1) }, clock ∷ a.1)
    died :
        (pid : ℕ)
        → mortal pid ≡ true
        → a.0.child ≡ some pid
        → Chapter a (
          record a.0 {
            crashes = (a.0.crashes + 1) % 2 ^ 32;
            child = none;
            stage = Stage.idle;
            since = none;
          },
          a.1,
        )
    given_up :
        5 ≤ a.0.crashes
        → a.0.child ≡ none
        → a.0.since ≡ none
        → Chapter a (record a.0 { stage = Stage.error }, a.1)
    stopped :
        (u : Trace)
        → Extends a.1 u
        → HasStopped a.0.child a.1 u
        → Chapter a (record a.0 { child = none; stage = Stage.idle; since = none }, u)
    proved_stable :
        (since : ℕ)
        → a.0.since ≡ some since
        → secs 60 ≤ env.now_at a.1 - since
        → Chapter a (record a.0 { crashes = 0 }, clock ∷ a.1)

  abbrev pub Story : Life × Trace → Life × Trace → Type 0
  Story = Star Chapter

  -- Both managers have such a story from the one state to the other.
  pub record Tells (a b : State) : Type 0 where
    pub vm : Story (vm_life a.0.vm, a.1) (vm_life b.0.vm, b.1)
    pub ca : Story (ca_life a.0.ca, a.1) (ca_life b.0.ca, b.1)

module _ (env : Env) (config : Config) (mortal : ℕ → Bool) where
  pub vm_owned : (vm : Vm.VmManager) (pid : ℕ) → Vm.owns_pid vm pid ≡ true → vm.child_pid ≡ some pid
  unfolding Vm.owns_pid
  vm_owned vm pid h = ground arith

  pub ca_owned : (ca : Ca.CaManager) (pid : ℕ) → Ca.owns_pid ca pid ≡ true → ca.child_pid ≡ some pid
  unfolding Ca.owns_pid
  ca_owned ca pid h = ground arith

  vm_launched-Story :
      (vm : Vm.VmManager) (r : Result ℕ) (t u : Trace)
      → Extends t u
      → children env u ≡ child_of r (children env t)
      → Story env mortal
          (vm_life vm, t)
          (vm_life (Vm.launched env config (record vm { state = Vm.VmState.starting }) r).0, u)
  vm_launched-Story vm (err e) t u grown c = next here (refused u grown c)
  vm_launched-Story vm (ok pid) t u grown c = next here (launched_as pid u grown c)

  pub vm_start-Story :
      (vm : Vm.VmManager) (t : Trace)
      → let (r, t') = Vm.start env config vm t in Story env mortal (vm_life vm, t) (vm_life r.0, t')
  unfolding Vm.start
  vm_start-Story vm t =
      let u = (Vm.validate_images env config t).1 in
      let asked = Vm.Minor.validate_images-Minor env config t in
      let (child, t') = Vm.launch env config u in
      let looked : Story env mortal (vm_life vm, t) (vm_life vm, u) =
        next here (elsewhere u (Minor-Extends asked)) in
      let started =
        vm_launched-Story vm child t t'
          (Extends-trans (Minor-Extends asked) (vm_launch-Extends env config u))
          (Vm.Lifecycle.launch-children env config u
            ∙ ap (child_of child) (Minor-children env asked)) in
      ground (arith, looked, started)

  pub vm_stop_child-HasStopped :
      (child : Option ℕ) (t : Trace)
      → HasStopped env mortal child t (Vm.stop_child env config child t).1
  unfolding Vm.stop_child Process.kill_tree
  vm_stop_child-HasStopped none t = tt
  vm_stop_child-HasStopped (some pid) t = (
    more (more (more (graceful_kill-asks env pid config.shutdown_grace_secs t) _) _) _,
    vm_stop_child-was_ended env config pid t,
  )

  pub vm_reset-Story :
      (since : Option ℕ) (vm : Vm.VmManager) (t : Trace)
      → vm.ready_since ≡ since
      → let (vm', t') = Vm.reset_since env since vm t in
        Story env mortal (vm_life vm, t) (vm_life vm', t')
  vm_reset-Story none vm t e = here
  vm_reset-Story (some since) vm t e = elim (Bool-cases (leb (secs 60) (env.now_at t - since))) [
    | inl stable ↦ rw stable (next here (proved_stable since e (leb→le _ _ stable)))
    | inr early ↦ rw early (next here (elsewhere (clock ∷ t) (more same clock)))
  ]

  ca_launched-Story :
      (ca : Ca.CaManager) (r : Result ℕ) (t u : Trace)
      → Extends t u
      → children env u ≡ child_of r (children env t)
      → Story env mortal
          (ca_life ca, t)
          (ca_life (Ca.launched env config (record ca { state = Ca.CaState.starting }) r).0, u)
  ca_launched-Story ca (err e) t u grown c = next here (refused u grown c)
  ca_launched-Story ca (ok pid) t u grown c = next here (launched_as pid u grown c)

  pub ca_start-Story :
      (ca : Ca.CaManager) (t : Trace)
      → let (r, t') = Ca.start env config config.vsock_cid ca t in
        Story env mortal (ca_life ca, t) (ca_life r.0, t')
  unfolding Ca.start
  ca_start-Story ca t =
      let u = exists config.ca_binary ∷ t in
      let asked : Minor t u = call still (exists config.ca_binary) refl in
      let (child, t') = Ca.launch env config config.vsock_cid u in
      let looked : Story env mortal (ca_life ca, t) (ca_life ca, u) =
        next here (elsewhere u (Minor-Extends asked)) in
      let started =
        ca_launched-Story ca child t t'
          (Extends-trans (Minor-Extends asked)
            (Ca.Growth.launch-Extends env config config.vsock_cid u))
          (Ca.Lifecycle.launch-children env config config.vsock_cid u
            ∙ ap (child_of child) (Minor-children env asked)) in
      ground (arith, looked, started)

  pub ca_stop_child-HasStopped :
      (child : Option ℕ) (t : Trace)
      → HasStopped env mortal child t (Ca.stop_child env config child t).1
  unfolding Ca.stop_child Process.kill_tree
  ca_stop_child-HasStopped none t = tt
  ca_stop_child-HasStopped (some pid) t = (
    graceful_kill-asks env pid config.shutdown_grace_secs t,
    ca_stop_child-was_ended env config pid t,
  )

  pub ca_reset-Story :
      (since : Option ℕ) (ca : Ca.CaManager) (t : Trace)
      → ca.ready_since ≡ since
      → let (ca', t') = Ca.reset_since env since ca t in
        Story env mortal (ca_life ca, t) (ca_life ca', t')
  ca_reset-Story none ca t e = here
  ca_reset-Story (some since) ca t e = elim (Bool-cases (leb (secs 60) (env.now_at t - since))) [
    | inl stable ↦ rw stable (next here (proved_stable since e (leb→le _ _ stable)))
    | inr early ↦ rw early (next here (elsewhere (clock ∷ t) (more same clock)))
  ]
