-- ===== src/Daemon/Mortal.antt =====
-- src/main.rs: what the daemon does when its children die is a sequence of acts on its managers.
use teeproxyd.Base.{
  ℕ, ◌≡◌, refl, inl, inr, List, [], ◌∷◌, Bool, true, arith, Bool-cases, leb, ltb, leb→le, here,
}
use teeproxyd.System.{Env, Trace}
use teeproxyd.Config.{Config}
use teeproxyd.Vm
use teeproxyd.Ca
use teeproxyd.Ipc.Handlers.{Managers}
use teeproxyd.Acts.{
  anybody, Acts, Acts-trans, act, ca_starts, vm_dies, ca_dies, vm_gives_up, ca_gives_up,
}
use teeproxyd.Daemon.Children.{
  WaitStatus, exited, signaled, handle_child_death, reap_children, vm_death, ca_death,
}

-- The processes whose deaths are reported may die.
abbrev pub MayDie : (ℕ → Bool) → List WaitStatus → Type 0
MayDie mortal [] = Unit
MayDie mortal (exited pid ∷ rest) = (mortal pid ≡ true) × MayDie mortal rest
MayDie mortal (signaled pid ∷ rest) = (mortal pid ≡ true) × MayDie mortal rest
MayDie mortal (_ ∷ rest) = Unit

pub anybody-MayDie : (statuses : List WaitStatus) → MayDie anybody statuses
anybody-MayDie [] = tt
anybody-MayDie (exited pid ∷ rest) = (refl, anybody-MayDie rest)
anybody-MayDie (signaled pid ∷ rest) = (refl, anybody-MayDie rest)
anybody-MayDie (_ ∷ rest) = tt

module _ (env : Env) (config : Config) (mortal : ℕ → Bool) (launching careless : Bool) where
  vm_death-Acts :
      (pid : ℕ) (m : Managers) (t : Trace)
      → mortal pid ≡ true
      → Vm.owns_pid m.vm pid ≡ true
      → Acts env config mortal launching careless (m, t) (vm_death env config m t)
  unfolding vm_death
  vm_death-Acts pid m t may h =
      let died =
        act {env = env} {config = config} {mortal = mortal} {launching = launching}
          {careless = careless} {a = (m, t)} (vm_dies pid may h) in
      elim (Bool-cases (leb 5 (Vm.mark_dead m.vm).crash_count)) [
        | inl spent ↦ rw spent (
            Acts-trans died (unfold Vm.mark_dead in act (vm_gives_up (leb→le 5 _ spent) refl refl)))
        | inr few ↦ rw few died
      ]

  ca_death-Acts :
      (pid : ℕ) (m : Managers) (t : Trace)
      → mortal pid ≡ true
      → Ca.owns_pid m.ca pid ≡ true
      → Acts env config mortal launching careless (m, t) (ca_death env config m t)
  unfolding ca_death
  ca_death-Acts pid m t may h =
      let died =
        act {env = env} {config = config} {mortal = mortal} {launching = launching}
          {careless = careless} {a = (m, t)} (ca_dies pid may h) in
      elim (Bool-cases (ltb (Ca.mark_dead m.ca).crash_count 5)) [
        | inl few ↦ rw few (Acts-trans died (unfold Ca.mark_dead in act (ca_starts (λ h. refl))))
        | inr spent ↦
            rw spent
              (Acts-trans died (unfold Ca.mark_dead in act (ca_gives_up (ground arith) refl refl)))
      ]

  handle_child_death-Acts :
      (pid : ℕ) (m : Managers) (t : Trace)
      → mortal pid ≡ true
      → Acts env config mortal launching careless (m, t) (handle_child_death env config pid m t)
  unfolding handle_child_death
  handle_child_death-Acts pid m t may = elim (Bool-cases (Vm.owns_pid m.vm pid)) [
    | inl vms ↦ rw vms (vm_death-Acts pid m t may vms)
    | inr other ↦ rw other (elim (Bool-cases (Ca.owns_pid m.ca pid)) [
      | inl cas ↦ rw cas (ca_death-Acts pid m t may cas)
      | inr unknown ↦ rw unknown here
    ])
  ]

  pub reap_children-Acts :
      (statuses : List WaitStatus) (m : Managers) (t : Trace)
      → MayDie mortal statuses
      → Acts env config mortal launching careless (m, t) (reap_children env config statuses m t)
  unfolding reap_children
  reap_children-Acts [] m t all = here
  reap_children-Acts (exited pid ∷ rest) m t all =
      let (m', t') = handle_child_death env config pid m t in
      Acts-trans (handle_child_death-Acts pid m t all.0) (reap_children-Acts rest m' t' all.1)
  reap_children-Acts (signaled pid ∷ rest) m t all =
      let (m', t') = handle_child_death env config pid m t in
      Acts-trans (handle_child_death-Acts pid m t all.0) (reap_children-Acts rest m' t' all.1)
  reap_children-Acts (_ ∷ rest) m t all = here
