-- ===== src/Acts/Fates.antt =====
-- src/vm.rs and src/ca.rs: what becomes of each child that was created.
use teeproxyd.Base.{
  [], ◌⊎◌, inl, inr, ◌≡◌, refl, sym, ◌∙◌, ap, Bool, true, false, ℕ, Option, none, some, List, ◌∷◌,
  arith, contains, Star-keeps,
}
use teeproxyd.System.{Env, Trace, Event, Result, ok, err}
use teeproxyd.Config.{Config}
use teeproxyd.Process
use teeproxyd.Process.Logs.{children, CreatedIs}
use teeproxyd.Process.Own.{IsOwn, contains-cons, graceful_kill-children, Minor-children}
use teeproxyd.Process.Ended.{was_ended, was_ended-Extends, graceful_kill-was_ended}
use teeproxyd.Process.Growth.{Extends, same, more, Minor-Extends}
use teeproxyd.Vm
use teeproxyd.Ca
use teeproxyd.Ipc.Handlers.{Managers}
use teeproxyd.Acts.Growth.{vm_start-Extends, vm_stop_child-Extends}
use teeproxyd.Acts.{
  State, Act, Acts, is_plain, calls, vm_starts, ca_starts, vm_stops, ca_stops, vm_answers,
  ca_answers, vm_dies, ca_dies, vm_gives_up, ca_gives_up, vm_resets, ca_resets,
}

module _ (env : Env) (mortal : ℕ → Bool) where
  -- A manager holds the process, its death was reported, or a stop has dealt with it.
  abbrev pub HasFate : State → ℕ → Type 0
  HasFate (m, t) pid =
      (m.vm.child_pid ≡ some pid)
      ⊎ ((m.ca.child_pid ≡ some pid) ⊎ ((mortal pid ≡ true) ⊎ (was_ended env pid t ≡ true)))

  -- No child that was created is lost from sight.
  abbrev pub HaveFates : State → Type 0
  HaveFates a = (pid : ℕ) → IsOwn env a.1 pid → HasFate a pid

  abbrev pub AllHaveFates : State → List ℕ → Type 0
  AllHaveFates a [] = Unit
  AllHaveFates a (pid ∷ pids) = HasFate a pid × AllHaveFates a pids

  -- One by one.
  pub each-AllHaveFates :
      (a : State) (pids : List ℕ)
      → ((pid : ℕ) → contains pid pids ≡ true → HasFate a pid)
      → AllHaveFates a pids
  each-AllHaveFates a [] each = tt
  each-AllHaveFates a (pid ∷ pids) each = (
    each pid (ground arith),
    each-AllHaveFates a pids (λ p h. each p (contains-cons p pid pids h)),
  )

  -- From the one state to the other, each child keeps a fate.
  HaveFates-step :
      (a b : State)
      → Extends a.1 b.1
      → children env b.1 ≡ children env a.1
      → ((pid : ℕ) → a.0.vm.child_pid ≡ some pid → HasFate b pid)
      → ((pid : ℕ) → a.0.ca.child_pid ≡ some pid → HasFate b pid)
      → HaveFates a
      → HaveFates b
  HaveFates-step a b grown e vm ca v pid own = elim (v pid (ap (contains pid) (sym e) ∙ own)) [
    | inl held ↦ vm pid held
    | inr (inl held) ↦ ca pid held
    | inr (inr (inl dead)) ↦ inr (inr (inl dead))
    | inr (inr (inr ended)) ↦ inr (inr (inr (was_ended-Extends env pid grown ended)))
  ]

  -- The children that are held stay so.
  HaveFates-same :
      (a b : State)
      → Extends a.1 b.1
      → children env b.1 ≡ children env a.1
      → b.0.vm.child_pid ≡ a.0.vm.child_pid
      → b.0.ca.child_pid ≡ a.0.ca.child_pid
      → HaveFates a
      → HaveFates b
  HaveFates-same a b grown e vm ca =
      HaveFates-step a b grown e (λ pid h. inl (vm ∙ h)) (λ pid h. inr (inl (ca ∙ h)))

none-some : {x : ℕ} → ¬ none ≡ some x
none-some e = cc

contains-created :
    (r : Result (Unit {0})) (held : Option ℕ) (before after : List ℕ) (pid : ℕ)
    → CreatedIs r held before after
    → contains pid after ≡ true
    → (held ≡ some pid) ⊎ (contains pid before ≡ true)
contains-created (ok _) (some p) before after pid c h = ground arith
contains-created (ok _) none before after pid c h = absurd c
contains-created (err m) held before after pid c h = inr (ap (contains pid) (sym c) ∙ h)

module _ (env : Env) (config : Config) where
  pub vm_stop_child-children :
      (held : Option ℕ) (t : Trace)
      → children env (Vm.stop_child env config held t).1 ≡ children env t
  unfolding Vm.stop_child Process.kill_tree children
  vm_stop_child-children none t = refl
  vm_stop_child-children (some pid) t = graceful_kill-children env pid config.shutdown_grace_secs t

  pub ca_stop_child-children :
      (held : Option ℕ) (t : Trace)
      → children env (Ca.stop_child env config held t).1 ≡ children env t
  unfolding Ca.stop_child
  ca_stop_child-children none t = refl
  ca_stop_child-children (some pid) t = graceful_kill-children env pid config.shutdown_grace_secs t

  pub vm_stop_child-was_ended :
      (pid : ℕ) (t : Trace) → was_ended env pid (Vm.stop_child env config (some pid) t).1 ≡ true
  unfolding Vm.stop_child Process.kill_tree
  vm_stop_child-was_ended pid t =
      was_ended-Extends env pid (more (more (more same _) _) _)
        (graceful_kill-was_ended env pid config.shutdown_grace_secs t)

  pub ca_stop_child-was_ended :
      (pid : ℕ) (t : Trace) → was_ended env pid (Ca.stop_child env config (some pid) t).1 ≡ true
  unfolding Ca.stop_child
  ca_stop_child-was_ended pid t = graceful_kill-was_ended env pid config.shutdown_grace_secs t

  reset_vm-child :
      (vm : Vm.VmManager) (t : Trace)
      → (Vm.maybe_reset_crash_count env vm t).0.child_pid ≡ vm.child_pid
  unfolding Vm.maybe_reset_crash_count
  reset_vm-child vm t = ground arith

  reset_ca-child :
      (ca : Ca.CaManager) (t : Trace)
      → (Ca.maybe_reset_crash_count env ca t).0.child_pid ≡ ca.child_pid
  unfolding Ca.maybe_reset_crash_count
  reset_ca-child ca t = ground arith

  plain-children :
      (e : Event) (t : Trace) → is_plain e ≡ true → children env (e ∷ t) ≡ children env t
  unfolding children
  plain-children e t h = ground arith

module _ (env : Env) (config : Config) (mortal : ℕ → Bool) where
  vm_start-HaveFates :
      (m : Managers) (t : Trace)
      → m.vm.child_pid ≡ none
      → HaveFates env mortal (m, t)
      → let (r, t') = Vm.start env config m.vm t in HaveFates env mortal (record m { vm = r.0 }, t')
  vm_start-HaveFates m t free v pid own =
      let grown : Extends t (Vm.start env config m.vm t).1 = vm_start-Extends env config m.vm t in
      elim (contains-created _ _ (children env t) _ pid
        (Vm.Lifecycle.vm_start_tracks env config m.vm t) own) [
          | inl now_held ↦ inl now_held
          | inr before ↦ elim (v pid before) [
            | inl held ↦ absurd (none-some (sym free ∙ held))
            | inr (inl held) ↦ inr (inl held)
            | inr (inr (inl dead)) ↦ inr (inr (inl dead))
            | inr (inr (inr ended)) ↦ inr (inr (inr (was_ended-Extends env pid grown ended)))
          ]
        ]

  ca_start-HaveFates :
      (m : Managers) (t : Trace)
      → m.ca.child_pid ≡ none
      → HaveFates env mortal (m, t)
      → let (r, t') = Ca.start env config config.vsock_cid m.ca t in
        HaveFates env mortal (record m { ca = r.0 }, t')
  ca_start-HaveFates m t free v pid own =
      let grown = Ca.Growth.start-Extends env config config.vsock_cid m.ca t in
      elim (contains-created _ _ (children env t) _ pid
        (Ca.Lifecycle.ca_start_tracks env config config.vsock_cid m.ca t) own) [
          | inl now_held ↦ inr (inl now_held)
          | inr before ↦ elim (v pid before) [
            | inl held ↦ inl held
            | inr (inl held) ↦ absurd (none-some (sym free ∙ held))
            | inr (inr (inl dead)) ↦ inr (inr (inl dead))
            | inr (inr (inr ended)) ↦ inr (inr (inr (was_ended-Extends env pid grown ended)))
          ]
        ]

  Act-HaveFates :
      {launching : Bool} (a b : State)
      → Act env config mortal launching false a b
      → HaveFates env mortal a
      → HaveFates env mortal b
  unfolding Vm.stop Ca.stop Vm.set_state Ca.set_state Vm.mark_dead Ca.mark_dead children Vm.owns_pid
      Ca.owns_pid
  Act-HaveFates (m, t) _ (calls e h) v =
      HaveFates-same env mortal (m, t) (m, e ∷ t) (more same e) (plain-children env config e t h)
        refl refl v
  Act-HaveFates (m, t) _ (vm_starts may free) v = vm_start-HaveFates m t (free refl) v
  Act-HaveFates (m, t) _ (ca_starts free) v = ca_start-HaveFates m t (free refl) v
  Act-HaveFates (m, t) b vm_stops v =
      HaveFates-step env mortal (m, t) b (vm_stop_child-Extends env config m.vm.child_pid t)
        (vm_stop_child-children env config m.vm.child_pid t)
        (λ pid held. inr (inr (inr (rw held (vm_stop_child-was_ended env config pid t)))))
        (λ pid held. inr (inl held)) v
  Act-HaveFates (m, t) b ca_stops v =
      HaveFates-step env mortal (m, t) b (Ca.Growth.stop-Extends env config m.ca t)
        (ca_stop_child-children env config m.ca.child_pid t) (λ pid held. inl held)
        (λ pid held. inr (inr (inr (rw held (ca_stop_child-was_ended env config pid t))))) v
  Act-HaveFates (m, t) b vm_answers v =
      HaveFates-same env mortal (m, t) b (more same _) refl refl refl v
  Act-HaveFates (m, t) b ca_answers v =
      HaveFates-same env mortal (m, t) b (more same _) refl refl refl v
  Act-HaveFates (m, t) b (vm_dies pid may h) v =
      HaveFates-step env mortal (m, t) b same refl (λ p held. inr (inr (inl (ground arith))))
        (λ p held. inr (inl held)) v
  Act-HaveFates (m, t) b (ca_dies pid may h) v =
      HaveFates-step env mortal (m, t) b same refl (λ p held. inl held)
        (λ p held. inr (inr (inl (ground arith)))) v
  Act-HaveFates (m, t) b (vm_gives_up spent gone unready) v =
      HaveFates-same env mortal (m, t) b same refl refl refl v
  Act-HaveFates (m, t) b (ca_gives_up spent gone unready) v =
      HaveFates-same env mortal (m, t) b same refl refl refl v
  Act-HaveFates (m, t) b vm_resets v =
      let asked = Vm.Minor.maybe_reset_crash_count-Minor env m.vm t in
      HaveFates-same env mortal (m, t) b (Minor-Extends asked) (Minor-children env asked)
        (reset_vm-child env config m.vm t) refl v
  Act-HaveFates (m, t) b ca_resets v =
      let asked = Ca.Minor.maybe_reset_crash_count-Minor env m.ca t in
      HaveFates-same env mortal (m, t) b (Minor-Extends asked) (Minor-children env asked) refl
        (reset_ca-child env config m.ca t) v

  -- As long as no child is started over another.
  pub Acts-HaveFates :
      {launching : Bool} {a b : State}
      → Acts env config mortal launching false a b
      → HaveFates env mortal a
      → HaveFates env mortal b
  Acts-HaveFates {launching} p v =
      Star-keeps (Act env config mortal launching false) (HaveFates env mortal) Act-HaveFates p v
