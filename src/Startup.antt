-- ===== src/Startup.antt =====
-- src/startup.rs: the startup state machine, advanced once in every round of the main loop.
pub mod Phases
pub mod Completion
pub mod Acts
pub mod Launches
pub mod Silence
use teeproxyd.Base.{ℕ, ◌+◌, ◌-◌, ◌%◌, ◌^◌, String, Bool, true, false, ltb, leb, if◌then◌else◌}
use teeproxyd.System.{Result, ok, err, Env, M, pure, ◌>>=◌, secs, now}
use teeproxyd.Config.{Config}
use teeproxyd.Vm
use teeproxyd.Vm.{VmManager, VmState}
use teeproxyd.Ca
use teeproxyd.Ca.{CaManager, CaState}

pub data StartupPhase : Type 0 where
  not_started : StartupPhase
  vm_starting : StartupPhase
  waiting_vsock : ℕ → ℕ → Bool → StartupPhase  -- deadline, boot_start, delay_done
  ca_starting : StartupPhase
  waiting_ca_port : ℕ → StartupPhase  -- deadline
  complete : StartupPhase
  failed : String → StartupPhase

-- What `advance_startup` mutates.
pub record Startup : Type 0 where
  pub phase : StartupPhase
  pub vm : VmManager
  pub ca : CaManager

-- NotStarted, Failed or Complete
abbrev pub is_settled : StartupPhase → Bool
is_settled not_started = true
is_settled complete = true
is_settled (failed e) = true
is_settled _ = false

abbrev pub is_waiting_ca_port : StartupPhase → Bool
is_waiting_ca_port (waiting_ca_port deadline) = true
is_waiting_ca_port _ = false

-- `deadline` of `WaitingVsock`: the sum of the two settings is a u64, which wraps.
abbrev pub vsock_secs : Config → ℕ
vsock_secs config = (config.vsock_probe_delay_secs + config.vm_boot_timeout_secs) % 2 ^ 64

abbrev vm_died : Startup → Startup
vm_died s =
    if ltb s.vm.crash_count 5
    then record s { phase = vm_starting }
    else record s { phase = failed "VM crashed too many times" }

abbrev ca_died : Startup → Startup
ca_died s =
    if ltb s.ca.crash_count 5
    then record s { phase = ca_starting }
    else record s { phase = failed "CA crashed too many times" }

module _ (env : Env) (config : Config) where
  vm_started : Startup → VmManager × Result (Unit {0}) → M Startup
  vm_started s (vm, ok _) = do
    time ← now env
    pure (record s { vm = vm; phase = waiting_vsock (time + secs (vsock_secs config)) time false })
  vm_started s (vm, err e) = pure (record s { vm = vm; phase = failed e })

  ca_started : Startup → CaManager × Result (Unit {0}) → M Startup
  ca_started s (ca, ok _) = do
    time ← now env
    pure (record s { ca = ca; phase = waiting_ca_port (time + secs config.ca_ready_timeout_secs) })
  ca_started s (ca, err e) = pure (record s { ca = ca; phase = failed e })

  vsock_probed : Startup → Bool → M Startup
  vsock_probed s false = pure s
  vsock_probed s true = do
    vm ← Vm.set_state env VmState.ready s.vm
    pure (record s { vm = vm; phase = ca_starting })

  wait_vsock : ℕ → ℕ → Bool → Startup → M Startup
  unfolding vsock_probed
  wait_vsock deadline boot_start false s = do
    time ← now env
    pure (
        if leb (secs config.vsock_probe_delay_secs) (time - boot_start)
        then record s { phase = waiting_vsock deadline boot_start true }
        else s)
  wait_vsock deadline boot_start true s = do
    time ← now env
    if ltb deadline time
        then pure (record s { phase = failed "vsock timeout" })
        else do responsive ← Vm.probe_vsock env config; vsock_probed s responsive

  port_probed : ℕ → Startup → Bool → M Startup
  port_probed deadline s true = do
    ca ← Ca.set_state env CaState.ready s.ca
    pure (record s { ca = ca; phase = complete })
  port_probed deadline s false = do
    time ← now env
    pure (if ltb deadline time then record s { phase = complete } else s)

  -- The `match startup` of `advance_startup`.
  pub step_phase : StartupPhase → Startup → M Startup
  unfolding vm_started ca_started wait_vsock port_probed
  step_phase not_started s = pure s
  step_phase complete s = pure s
  step_phase (failed e) s = pure s
  step_phase vm_starting s = do started ← Vm.start env config s.vm; vm_started s started
  step_phase (waiting_vsock deadline boot_start delay_done) s =
      wait_vsock deadline boot_start delay_done s
  step_phase ca_starting s = do
    started ← Ca.start env config config.vsock_cid s.ca
    ca_started s started
  step_phase (waiting_ca_port deadline) s = do
    accepting ← Ca.is_port_ready env config
    port_probed deadline s accepting

  -- The guard on a dead CA, and the rest.
  after_vm_check : Startup → M Startup
  unfolding step_phase
  after_vm_check s = do
    ca_dead ← Ca.is_dead env s.ca
    if ca_dead
        then (if is_waiting_ca_port s.phase then pure (ca_died s) else step_phase s.phase s)
        else step_phase s.phase s

  pub advance_startup : Startup → M Startup
  unfolding after_vm_check
  advance_startup s = do
    vm_dead ← Vm.is_dead env s.vm
    if vm_dead
        then (if is_settled s.phase then after_vm_check s else pure (vm_died s))
        else after_vm_check s
