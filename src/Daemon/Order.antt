-- ===== src/Daemon/Order.antt =====
-- src/main.rs: the order in which `waitpid` reports the deaths of children.
use teeproxyd.Base.{ℕ, ◌≡◌, refl, sym, ap, subst, ◌∙◌, List, [], ◌∷◌, true, false, arith, All}
use mathlib.Core.List.{Permᴰ}
use teeproxyd.System.{Env, Trace}
use teeproxyd.Config.{Config}
use teeproxyd.Process.Growth.{Extends, same, IsNeverUsed, Extends-IsNeverUsed}
use teeproxyd.Vm
use teeproxyd.Ca
use teeproxyd.Ca.Growth.{start-Extends, start-ne}
use teeproxyd.Ipc.Handlers.{Managers}
use teeproxyd.Daemon.Children.{
  WaitStatus, exited, signaled, still_alive, failed, other, handle_child_death, reap_children,
  vm_death, ca_death,
}

All-Perm : (P : WaitStatus → Type 0) {xs ys : List WaitStatus} → Permᴰ xs ys → All P xs → All P ys
All-Perm P Permᴰ.nil v = v
All-Perm P (Permᴰ.cons e p) v = (subst P e v.0, All-Perm P p v.1)
All-Perm P (Permᴰ.swap e₁ e₂) v = (subst P e₂ v.1.0, (subst P e₁ v.0, v.1.1))
All-Perm P (Permᴰ.trans p q) v = All-Perm P q (All-Perm P p v)

module _ (env : Env) (config : Config) where
  -- The report of a death, of a child whose pid no child gets from now on.
  abbrev pub IsLost : Trace → WaitStatus → Type 0
  IsLost t (exited pid) = IsNeverUsed env t pid
  IsLost t (signaled pid) = IsNeverUsed env t pid
  IsLost t _ = true ≡ false

  death-Extends :
      (pid : ℕ) (m : Managers) (t : Trace) → Extends t (handle_child_death env config pid m t).1
  unfolding handle_child_death vm_death ca_death Vm.set_state Ca.set_state
  death-Extends pid m t =
      let unchanged : Extends t t = same in
      ground (arith, unchanged, start-Extends env config config.vsock_cid (Ca.mark_dead m.ca) t)

  deaths_commute :
      (p q : ℕ) (m : Managers) (t : Trace)
      → IsNeverUsed env t p
      → IsNeverUsed env t q
      → (let (m', t') = handle_child_death env config p m t in
          handle_child_death env config q m' t')
        ≡ (let (m', t') = handle_child_death env config q m t in
            handle_child_death env config p m' t')
  unfolding handle_child_death vm_death ca_death Vm.owns_pid Ca.owns_pid Vm.mark_dead Ca.mark_dead
      Vm.set_state Ca.set_state
  deaths_commute p q m t v w = ground (
    arith,
    start-ne env config config.vsock_cid (Ca.mark_dead m.ca) t p v refl,
    start-ne env config config.vsock_cid (Ca.mark_dead m.ca) t q w refl,
  )

  -- What a report of a death leads to, and what follows.
  reap-cons :
      (s : WaitStatus) (t : Trace)
      → IsLost t s
      → (pid : ℕ) × IsNeverUsed env t pid
        × ((ys : List WaitStatus) (m : Managers) (u : Trace)
            → reap_children env config (s ∷ ys) m u ≡ (
                let (m', u') = handle_child_death env config pid m u in
                reap_children env config ys m' u'))
  unfolding reap_children
  reap-cons (exited pid) t v = (pid, v, λ ys m u. refl)
  reap-cons (signaled pid) t v = (pid, v, λ ys m u. refl)
  reap-cons still_alive t v = cc
  reap-cons failed t v = cc
  reap-cons other t v = cc

  swapped :
      (a b : WaitStatus) (l : List WaitStatus) (m : Managers) (t : Trace)
      → IsLost t a
      → IsLost t b
      → reap_children env config (a ∷ b ∷ l) m t ≡ reap_children env config (b ∷ a ∷ l) m t
  swapped a b l m t v w =
      let (p, never_p, steps_p) = reap-cons a t v in
      let (q, never_q, steps_q) = reap-cons b t w in
      let (m₁, t₁) = handle_child_death env config p m t in
      let (m₂, t₂) = handle_child_death env config q m t in
      steps_p (b ∷ l) m t
      ∙ steps_q l m₁ t₁
      ∙ ap (λ (r : Managers × Trace). reap_children env config l r.0 r.1)
          (deaths_commute p q m t never_p never_q)
      ∙ sym (steps_p l m₂ t₂)
      ∙ sym (steps_q (a ∷ l) m t)

  later-IsLost :
      {t t' : Trace} (xs : List WaitStatus) → Extends t t' → All (IsLost t) xs → All (IsLost t') xs
  later-IsLost [] p v = tt
  later-IsLost (exited pid ∷ xs) p v = (Extends-IsNeverUsed env pid p v.0, later-IsLost xs p v.1)
  later-IsLost (signaled pid ∷ xs) p v = (Extends-IsNeverUsed env pid p v.0, later-IsLost xs p v.1)
  later-IsLost (still_alive ∷ xs) p v = (v.0, later-IsLost xs p v.1)
  later-IsLost (failed ∷ xs) p v = (v.0, later-IsLost xs p v.1)
  later-IsLost (other ∷ xs) p v = (v.0, later-IsLost xs p v.1)

  -- Reports of deaths may come in any order, of the VM, of the CA and of unknown children: as long
  -- as no child created from now on gets the pid of a dead one, the managers and the history come out
  -- the same, also what is counted and what is started again.
  pub report_order_is_irrelevant :
      {xs ys : List WaitStatus} (m : Managers) (t : Trace)
      → Permᴰ xs ys
      → All (IsLost t) xs
      → reap_children env config xs m t ≡ reap_children env config ys m t
  report_order_is_irrelevant m t Permᴰ.nil v = refl
  report_order_is_irrelevant m t (Permᴰ.cons {a} {b} {l₁} {l₂} e p) v =
      let (pid, never, steps) = reap-cons a t v.0 in
      let (m', t') = handle_child_death env config pid m t in
      let rest = report_order_is_irrelevant m' t' p (later-IsLost l₁ (death-Extends pid m t) v.1) in
      steps l₁ m t ∙ rest ∙ sym (steps l₂ m t) ∙ ap (λ s. reap_children env config (s ∷ l₂) m t) e
  report_order_is_irrelevant m t (Permᴰ.swap {a} {b} {a'} {b'} {l} e₁ e₂) v =
      swapped a b l m t v.0 v.1.0
      ∙ ap (λ s. reap_children env config (s ∷ a ∷ l) m t) e₂
      ∙ ap (λ s. reap_children env config (a' ∷ s ∷ l) m t) e₁
  report_order_is_irrelevant m t (Permᴰ.trans {l₂ = l₂} p q) v =
      report_order_is_irrelevant m t p v
      ∙ report_order_is_irrelevant m t q (All-Perm (IsLost t) p v)
