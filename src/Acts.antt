-- ===== src/Acts.antt =====
-- What the daemon does, act by act: src/vm.rs and src/ca.rs as src/main.rs, src/ipc.rs and
-- src/startup.rs use them. An act is an operation of one manager, with the condition under which
-- the daemon takes it, or a call of the operating system that leaves the managers as they are.
pub mod Lives
pub mod Own
pub mod Growth
pub mod Counts
pub mod Launches
pub mod Tracking
pub mod Fates
pub mod Stories
pub mod Chronicle
use teeproxyd.Base.{
  ◌≤◌, ◌≡◌, ℕ, Bool, true, false, none, some, ◌∷◌, arith, Star, here, next, Star_trans,
}
use teeproxyd.System.{Env, Trace, Event, spawn, kill}
use teeproxyd.Config.{Config}
use teeproxyd.Process.Minor.{is_minor, Minor, still, call}
use teeproxyd.Vm
use teeproxyd.Vm.{VmState}
use teeproxyd.Ca
use teeproxyd.Ca.{CaState}
use teeproxyd.Ipc.Handlers.{Managers}

abbrev pub State : Type 0
State = Managers × Trace

-- No child is created, and none is signalled.
abbrev pub is_plain : Event → Bool
is_plain (spawn c) = false
is_plain (kill pid (some s)) = false
is_plain _ = true

abbrev pub with_vm : State → Vm.VmManager × Trace → State
with_vm a (vm, t) = (record a.0 { vm = vm }, t)

abbrev pub with_ca : State → Ca.CaManager × Trace → State
with_ca a (ca, t) = (record a.0 { ca = ca }, t)

-- Which children may die.
abbrev pub anybody : ℕ → Bool
anybody pid = true

abbrev pub nobody : ℕ → Bool
nobody pid = false

module _ (env : Env) (config : Config) where
  abbrev pub started_vm : State → State
  started_vm a = let (r, t) = Vm.start env config a.0.vm a.1 in with_vm a (r.0, t)

  abbrev pub started_ca : State → State
  started_ca a = let (r, t) = Ca.start env config config.vsock_cid a.0.ca a.1 in with_ca a (r.0, t)

  -- What allows acts: only a process of `mortal` dies, without `launching` the VM is not started,
  -- and without `careless` a child is started only where none is held.
  pub data Act (mortal : ℕ → Bool) (launching careless : Bool) (a : State) : State → Type 0 where
    calls : (e : Event) → is_plain e ≡ true → Act mortal launching careless a (a.0, e ∷ a.1)
    vm_starts :
        launching ≡ true
        → (careless ≡ false → a.0.vm.child_pid ≡ none)
        → Act mortal launching careless a (started_vm a)
    ca_starts :
        (careless ≡ false → a.0.ca.child_pid ≡ none)
        → Act mortal launching careless a (started_ca a)
    vm_stops : Act mortal launching careless a (with_vm a (Vm.stop env config a.0.vm a.1))
    ca_stops : Act mortal launching careless a (with_ca a (Ca.stop env config a.0.ca a.1))
    vm_answers :
        Act mortal launching careless a (with_vm a (Vm.set_state env VmState.ready a.0.vm a.1))
    ca_answers :
        Act mortal launching careless a (with_ca a (Ca.set_state env CaState.ready a.0.ca a.1))
    vm_dies :
        (pid : ℕ)
        → mortal pid ≡ true
        → Vm.owns_pid a.0.vm pid ≡ true
        → Act mortal launching careless a (with_vm a (Vm.mark_dead a.0.vm, a.1))
    ca_dies :
        (pid : ℕ)
        → mortal pid ≡ true
        → Ca.owns_pid a.0.ca pid ≡ true
        → Act mortal launching careless a (with_ca a (Ca.mark_dead a.0.ca, a.1))
    vm_gives_up :
        5 ≤ a.0.vm.crash_count
        → a.0.vm.child_pid ≡ none
        → a.0.vm.ready_since ≡ none
        → Act mortal launching careless a (with_vm a (Vm.set_state env VmState.error a.0.vm a.1))
    ca_gives_up :
        5 ≤ a.0.ca.crash_count
        → a.0.ca.child_pid ≡ none
        → a.0.ca.ready_since ≡ none
        → Act mortal launching careless a (with_ca a (Ca.set_state env CaState.error a.0.ca a.1))
    vm_resets :
        Act mortal launching careless a (with_vm a (Vm.maybe_reset_crash_count env a.0.vm a.1))
    ca_resets :
        Act mortal launching careless a (with_ca a (Ca.maybe_reset_crash_count env a.0.ca a.1))

  abbrev pub Acts : (ℕ → Bool) → Bool → Bool → State → State → Type 0
  Acts mortal launching careless = Star (Act mortal launching careless)

is_minor-is_plain : (e : Event) → is_minor e ≡ true → is_plain e ≡ true
is_minor-is_plain e h = ground arith

module _ {env : Env} {config : Config} {mortal : ℕ → Bool} {launching careless : Bool} where
  pub Acts-trans :
      {a b c : State}
      → Acts env config mortal launching careless a b
      → Acts env config mortal launching careless b c
      → Acts env config mortal launching careless a c
  Acts-trans p q = Star_trans (Act env config mortal launching careless) p q

  pub act :
      {a b : State}
      → Act env config mortal launching careless a b
      → Acts env config mortal launching careless a b
  act one = next here one

  -- A call that only looks is a call.
  pub Minor-Acts :
      (m : Managers) {t u : Trace}
      → Minor t u
      → Acts env config mortal launching careless (m, t) (m, u)
  Minor-Acts m still = here
  Minor-Acts m (call p e h) = next (Minor-Acts m p) (calls e (is_minor-is_plain e h))

module _ {env : Env} {config : Config} {mortal : ℕ → Bool}
    {launching launching' careless careless' : Bool} where
  Act-weaken :
      (a b : State)
      → (launching ≡ true → launching' ≡ true)
      → (careless' ≡ false → careless ≡ false)
      → Act env config mortal launching careless a b
      → Act env config mortal launching' careless' a b
  Act-weaken a _ may care (calls e h) = calls e h
  Act-weaken a _ may care (vm_starts h free) = vm_starts (may h) (λ e. free (care e))
  Act-weaken a _ may care (ca_starts free) = ca_starts (λ e. free (care e))
  Act-weaken a _ may care vm_stops = vm_stops
  Act-weaken a _ may care ca_stops = ca_stops
  Act-weaken a _ may care vm_answers = vm_answers
  Act-weaken a _ may care ca_answers = ca_answers
  Act-weaken a _ may care (vm_dies pid may_die h) = vm_dies pid may_die h
  Act-weaken a _ may care (ca_dies pid may_die h) = ca_dies pid may_die h
  Act-weaken a _ may care (vm_gives_up spent gone unready) = vm_gives_up spent gone unready
  Act-weaken a _ may care (ca_gives_up spent gone unready) = ca_gives_up spent gone unready
  Act-weaken a _ may care vm_resets = vm_resets
  Act-weaken a _ may care ca_resets = ca_resets

  -- What was done under a restriction, may be done without it.
  pub Acts-weaken :
      {a b : State}
      → (launching ≡ true → launching' ≡ true)
      → (careless' ≡ false → careless ≡ false)
      → Acts env config mortal launching careless a b
      → Acts env config mortal launching' careless' a b
  Acts-weaken may care here = here
  Acts-weaken may care (next p r) = next (Acts-weaken may care p) (Act-weaken _ _ may care r)
