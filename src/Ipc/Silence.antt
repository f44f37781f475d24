-- ===== src/Ipc/Silence.antt =====
-- src/ipc.rs: what the handlers do to the managers neither polls, nor probes the CA's health, nor
-- writes to the client.
use teeproxyd.Base.{ap, sym, ℕ, ◌≡◌, refl, ◌∙◌, min, Option, none, some, ◌∷◌, arith}
use teeproxyd.System.{Env, Trace, exists, Request}
use teeproxyd.Config.{Config, or_default}
use teeproxyd.Process.{kill_tree}
use teeproxyd.Ipc.Minor.{tail_answer-Minor}
use teeproxyd.Process.Outer.{
  Minor-outer, outer, graceful_kill-outer, spawn_with_log-outer, replies, replies-outer, probes,
  probes-outer,
}
use teeproxyd.Vm
use teeproxyd.Vm.{VmManager, all_exist, all_large, validate_images, required, large}
use teeproxyd.Ca
use teeproxyd.Ca.{CaManager}
use teeproxyd.Startup.{StartupPhase}
use teeproxyd.Ipc.Handlers.{
  Managers, handle_request, handle_start_all, handle_stop_all, handle_start_vm, handle_stop_vm,
  handle_start_ca, handle_stop_ca, handle_status, handle_tail_log, log_of, answer, Cmd, cmd_of,
  max_tail_lines, ping, get_status, start_all, stop_all, start_vm, stop_vm, start_ca, stop_ca,
  get_tail, unknown,
}

module _ (env : Env) (config : Config) where
  vm_launch-outer : (t : Trace) → outer (Vm.launch env config t).1 ≡ outer t
  unfolding Vm.launch
  vm_launch-outer t = spawn_with_log-outer env _ _ _ _ _ t

  pub vm_start-outer : (vm : VmManager) (t : Trace) → outer (Vm.start env config vm t).1 ≡ outer t
  unfolding Vm.start
  vm_start-outer vm t = ground (
    arith,
    Minor-outer (Vm.Minor.validate_images-Minor env config t),
    vm_launch-outer (validate_images env config t).1,
  )

  ca_launch-outer : (cid : ℕ) (t : Trace) → outer (Ca.launch env config cid t).1 ≡ outer t
  unfolding Ca.launch
  ca_launch-outer cid t = spawn_with_log-outer env _ _ _ _ _ t

  pub ca_start-outer :
      (cid : ℕ) (ca : CaManager) (t : Trace) → outer (Ca.start env config cid ca t).1 ≡ outer t
  unfolding Ca.start outer
  ca_start-outer cid ca t = ground (arith, ca_launch-outer cid (exists config.ca_binary ∷ t))

  vm_stop_child-outer :
      (child : Option ℕ) (t : Trace) → outer (Vm.stop_child env config child t).1 ≡ outer t
  unfolding Vm.stop_child kill_tree outer
  vm_stop_child-outer none t = refl
  vm_stop_child-outer (some pid) t = graceful_kill-outer env pid config.shutdown_grace_secs t

  pub vm_stop-outer : (vm : VmManager) (t : Trace) → outer (Vm.stop env config vm t).1 ≡ outer t
  unfolding Vm.stop
  vm_stop-outer vm t = vm_stop_child-outer vm.child_pid t

  ca_stop_child-outer :
      (child : Option ℕ) (t : Trace) → outer (Ca.stop_child env config child t).1 ≡ outer t
  unfolding Ca.stop_child
  ca_stop_child-outer none t = refl
  ca_stop_child-outer (some pid) t = graceful_kill-outer env pid config.shutdown_grace_secs t

  pub ca_stop-outer : (ca : CaManager) (t : Trace) → outer (Ca.stop env config ca t).1 ≡ outer t
  unfolding Ca.stop
  ca_stop-outer ca t = ca_stop_child-outer ca.child_pid t

  answer-outer :
      (phase : StartupPhase) (started_at : ℕ) (req : Request) (cmd : Cmd) (m : Managers) (t : Trace)
      → outer (answer env config phase started_at req cmd m t).1 ≡ outer t
  unfolding handle_start_all handle_start_vm handle_start_ca handle_stop_all handle_stop_vm
      handle_stop_ca handle_status handle_tail_log
  answer-outer phase started_at req ping m t = refl
  answer-outer phase started_at req get_status m t = unfold outer in refl
  answer-outer phase started_at req start_all m t = vm_start-outer m.vm t
  answer-outer phase started_at req start_vm m t = vm_start-outer m.vm t
  answer-outer phase started_at req start_ca m t = ca_start-outer config.vsock_cid m.ca t
  answer-outer phase started_at req stop_all m t =
      vm_stop-outer m.vm (Ca.stop env config m.ca t).1 ∙ ca_stop-outer m.ca t
  answer-outer phase started_at req stop_vm m t = vm_stop-outer m.vm t
  answer-outer phase started_at req stop_ca m t = ca_stop-outer m.ca t
  answer-outer phase started_at req get_tail m t = Minor-outer (
      tail_answer-Minor env config (or_default req.source "daemon")
        (log_of env config (or_default req.source "daemon"))
        (min (or_default req.lines 200) max_tail_lines) t)
  answer-outer phase started_at req (unknown cmd) m t = refl

  -- A handler writes nothing: the answer is written after it.
  pub handle_request-outer :
      (phase : StartupPhase) (started_at : ℕ) (req : Request) (m : Managers) (t : Trace)
      → outer (handle_request env config phase started_at req m t).1 ≡ outer t
  unfolding handle_request
  handle_request-outer phase started_at req m t =
      answer-outer phase started_at req (cmd_of (or_default req.cmd "")) m t

  pub handle_request-replies :
      (phase : StartupPhase) (started_at : ℕ) (req : Request) (m : Managers) (t : Trace)
      → replies (handle_request env config phase started_at req m t).1 ≡ replies t
  handle_request-replies phase started_at req m t =
      let t' = (handle_request env config phase started_at req m t).1 in
      sym (replies-outer t')
      ∙ ap replies (handle_request-outer phase started_at req m t)
      ∙ replies-outer t

  pub handle_request-probes :
      (phase : StartupPhase) (started_at : ℕ) (req : Request) (m : Managers) (t : Trace)
      → probes (handle_request env config phase started_at req m t).1 ≡ probes t
  handle_request-probes phase started_at req m t =
      let t' = (handle_request env config phase started_at req m t).1 in
      sym (probes-outer t')
      ∙ ap probes (handle_request-outer phase started_at req m t)
      ∙ probes-outer t
