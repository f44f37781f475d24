-- ===== src/Acts/Own.antt =====
-- src/vm.rs and src/ca.rs: the acts of the daemon signal no process but the children that it holds.
use teeproxyd.Base.{
  Bool, ℕ, ◌≡◌, refl, ◌⊎◌, inl, inr, Option, none, some, ◌∷◌, true, arith, Star-keeps,
}
use teeproxyd.System.{Env, Trace, Event}
use teeproxyd.Process.Logs.{children}
use teeproxyd.Config.{Config}
use teeproxyd.Process.Own.{
  IsClean, IsClean-refl, IsClean-trans, IsClean-deeds, Owns, IsClean-Owns, deeds, strays,
  Minor-deeds,
}
use teeproxyd.Vm
use teeproxyd.Vm.{VmManager}
use teeproxyd.Ca
use teeproxyd.Ca.{CaManager}
use teeproxyd.Ipc.Handlers.{Managers}
use teeproxyd.Acts.{
  State, Act, Acts, is_plain, calls, vm_starts, ca_starts, vm_stops, ca_stops, vm_answers,
  ca_answers, vm_dies, ca_dies, vm_gives_up, ca_gives_up, vm_resets, ca_resets,
}

-- Each manager holds a child of the daemon, or none.
pub record IsOwner (env : Env) (t : Trace) (m : Managers) : Type 0 where
  pub vm : Owns env t m.vm.child_pid
  pub ca : Owns env t m.ca.child_pid

-- From managers that hold nothing but children, no stray signal, and managers of this kind again.
pub record IsFine (env : Env) (a b : Managers × Trace) : Type 0 where
  pub fine : IsOwner env a.1 a.0 → IsClean env a.1 b.1 × IsOwner env b.1 b.0

abbrev Sheds : Option ℕ → Option ℕ → Type 0
Sheds before after = (after ≡ before) ⊎ (after ≡ none)

Sheds-Owns :
    (env : Env) (t t' : Trace) (o o' : Option ℕ)
    → IsClean env t t'
    → Sheds o o'
    → Owns env t o
    → Owns env t' o'
Sheds-Owns env t t' o o' c (inl e) v = rw e (IsClean-Owns o c v)
Sheds-Owns env t t' o o' c (inr e) v = rw e tt

module _ (env : Env) where
  IsFine-refl : (a : Managers × Trace) → IsFine env a a
  IsFine-refl a = record { fine = λ v. (IsClean-refl env a.1, v) }

  IsFine-trans : {a b c : Managers × Trace} → IsFine env a b → IsFine env b c → IsFine env a c
  IsFine-trans p q = record {
    fine = λ v. let (c, w) = p.fine v in let (c', w') = q.fine w in (IsClean-trans c c', w');
  }

  -- Nothing is signalled or created, and at most a child is let go.
  IsFine-deeds :
      (m m' : Managers) (t t' : Trace)
      → deeds env t' ≡ deeds env t
      → Sheds m.vm.child_pid m'.vm.child_pid
      → Sheds m.ca.child_pid m'.ca.child_pid
      → IsFine env (m, t) (m', t')
  IsFine-deeds m m' t t' e sheds_vm sheds_ca = record {
    fine = λ v.
        let c = IsClean-deeds env t t' e in
        (
          c,
          record {
            vm = Sheds-Owns env t t' m.vm.child_pid m'.vm.child_pid c sheds_vm v.vm;
            ca = Sheds-Owns env t t' m.ca.child_pid m'.ca.child_pid c sheds_ca v.ca;
          },
        );
  }

module _ (env : Env) (config : Config) where
  vm_start-IsFine :
      (m : Managers) (t : Trace)
      → let (r, t') = Vm.start env config m.vm t in IsFine env (m, t) (record m { vm = r.0 }, t')
  vm_start-IsFine m t = record {
    fine = λ v.
        let (c, w) = Vm.Own.start-Own env config m.vm t v.vm in
        (c, record { vm = w; ca = IsClean-Owns m.ca.child_pid c v.ca });
  }

  ca_start-IsFine :
      (m : Managers) (t : Trace)
      → let (r, t') = Ca.start env config config.vsock_cid m.ca t in
        IsFine env (m, t) (record m { ca = r.0 }, t')
  ca_start-IsFine m t = record {
    fine = λ v.
        let (c, w) = Ca.Own.start-Own env config config.vsock_cid m.ca t v.ca in
        (c, record { vm = IsClean-Owns m.vm.child_pid c v.vm; ca = w });
  }

  vm_stop-IsFine :
      (m : Managers) (t : Trace)
      → let (vm, t') = Vm.stop env config m.vm t in IsFine env (m, t) (record m { vm = vm }, t')
  unfolding Vm.stop
  vm_stop-IsFine m t = record {
    fine = λ v.
        let c = Vm.Own.stop-Own env config m.vm t v.vm in
        (c, record { vm = tt; ca = IsClean-Owns m.ca.child_pid c v.ca });
  }

  ca_stop-IsFine :
      (m : Managers) (t : Trace)
      → let (ca, t') = Ca.stop env config m.ca t in IsFine env (m, t) (record m { ca = ca }, t')
  unfolding Ca.stop
  ca_stop-IsFine m t = record {
    fine = λ v.
        let c = Ca.Own.stop-Own env config m.ca t v.ca in
        (c, record { vm = IsClean-Owns m.vm.child_pid c v.vm; ca = tt });
  }

  plain-deeds : (e : Event) (t : Trace) → is_plain e ≡ true → deeds env (e ∷ t) ≡ deeds env t
  unfolding children strays
  plain-deeds e t h = ground arith

  reset_vm-child :
      (since : Option ℕ) (vm : VmManager) (t : Trace)
      → (Vm.reset_since env since vm t).0.child_pid ≡ vm.child_pid
  reset_vm-child none vm t = refl
  reset_vm-child (some since) vm t = ground arith

  reset_ca-child :
      (since : Option ℕ) (ca : CaManager) (t : Trace)
      → (Ca.reset_since env since ca t).0.child_pid ≡ ca.child_pid
  reset_ca-child none ca t = refl
  reset_ca-child (some since) ca t = ground arith

  vm_resets-IsFine :
      (m : Managers) (t : Trace)
      → let (vm, t') = Vm.maybe_reset_crash_count env m.vm t in
        IsFine env (m, t) (record m { vm = vm }, t')
  unfolding Vm.maybe_reset_crash_count
  vm_resets-IsFine m t =
      let asked = Minor-deeds env (Vm.Minor.maybe_reset_crash_count-Minor env m.vm t) in
      IsFine-deeds env m _ t _ asked (inl (reset_vm-child m.vm.ready_since m.vm t)) (inl refl)

  ca_resets-IsFine :
      (m : Managers) (t : Trace)
      → let (ca, t') = Ca.maybe_reset_crash_count env m.ca t in
        IsFine env (m, t) (record m { ca = ca }, t')
  unfolding Ca.maybe_reset_crash_count
  ca_resets-IsFine m t =
      let asked = Minor-deeds env (Ca.Minor.maybe_reset_crash_count-Minor env m.ca t) in
      IsFine-deeds env m _ t _ asked (inl refl) (inl (reset_ca-child m.ca.ready_since m.ca t))

  Act-IsFine :
      {mortal : ℕ → Bool} {launching careless : Bool} (a b : State)
      → Act env config mortal launching careless a b
      → IsFine env a b
  unfolding children strays Vm.set_state Ca.set_state Vm.mark_dead Ca.mark_dead
  Act-IsFine (m, t) _ (calls e h) =
      IsFine-deeds env m m t (e ∷ t) (plain-deeds e t h) (inl refl) (inl refl)
  Act-IsFine (m, t) _ (vm_starts may free) = vm_start-IsFine m t
  Act-IsFine (m, t) _ (ca_starts free) = ca_start-IsFine m t
  Act-IsFine (m, t) _ vm_stops = vm_stop-IsFine m t
  Act-IsFine (m, t) _ ca_stops = ca_stop-IsFine m t
  Act-IsFine (m, t) _ vm_answers = IsFine-deeds env m _ t _ refl (inl refl) (inl refl)
  Act-IsFine (m, t) _ ca_answers = IsFine-deeds env m _ t _ refl (inl refl) (inl refl)
  Act-IsFine (m, t) _ (vm_dies pid may h) = IsFine-deeds env m _ t _ refl (inr refl) (inl refl)
  Act-IsFine (m, t) _ (ca_dies pid may h) = IsFine-deeds env m _ t _ refl (inl refl) (inr refl)
  Act-IsFine (m, t) _ (vm_gives_up spent gone unready) =
      IsFine-deeds env m _ t _ refl (inl refl) (inl refl)
  Act-IsFine (m, t) _ (ca_gives_up spent gone unready) =
      IsFine-deeds env m _ t _ refl (inl refl) (inl refl)
  Act-IsFine (m, t) _ vm_resets = vm_resets-IsFine m t
  Act-IsFine (m, t) _ ca_resets = ca_resets-IsFine m t

  pub Acts-IsFine :
      {mortal : ℕ → Bool} {launching careless : Bool} {a b : State}
      → Acts env config mortal launching careless a b
      → IsFine env a b
  Acts-IsFine {mortal} {launching} {careless} {a} p =
      Star-keeps (Act env config mortal launching careless) (IsFine env a)
        (λ b c r fine. IsFine-trans env fine (Act-IsFine b c r)) p (IsFine-refl env a)
