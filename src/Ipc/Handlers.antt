-- ===== src/Ipc/Handlers.antt =====
-- src/ipc.rs: the handlers of the commands, and the choice among them.
use teeproxyd.Base.{
  ℕ, ◌-◌, ◌/◌, String, Bool, true, false, Option, none, some, [], ◌∷◌, min, str_eq, if◌then◌else◌,
  ◌<>◌, ◌||◌,
}
use teeproxyd.System.{
  PathBuf, join, Result, ok, err, bool, text, bytes, num, Object, Request, Env, M, pure, ◌>>=◌, now,
  secs,
}
use teeproxyd.Config.{Config, or_default}
use teeproxyd.LogCollector.{tail_log}
use teeproxyd.Vm
use teeproxyd.Vm.{VmManager, VmState}
use teeproxyd.Ca
use teeproxyd.Ca.{CaManager, CaState}
use teeproxyd.Startup.{
  StartupPhase, not_started, vm_starting, waiting_vsock, ca_starting, waiting_ca_port, complete,
  failed,
}

pub record Managers : Type 0 where
  pub vm : VmManager
  pub ca : CaManager

abbrev pub max_tail_lines : ℕ
max_tail_lines = 10000

-- `{"ok": false, "error": e}` and `{"ok": true, "msg": m}`
abbrev pub failure : String → Object
failure e = ("ok", bool false) ∷ ("error", text e) ∷ []

abbrev pub success : String → Object
success m = ("ok", bool true) ∷ ("msg", text m) ∷ []

-- serde's `rename_all = "snake_case"`
abbrev pub vm_state_name : VmState → String
vm_state_name VmState.idle = "idle"
vm_state_name VmState.starting = "starting"
vm_state_name VmState.booting = "booting"
vm_state_name VmState.ready = "ready"
vm_state_name VmState.stopping = "stopping"
vm_state_name VmState.error = "error"

abbrev pub ca_state_name : CaState → String
ca_state_name CaState.idle = "idle"
ca_state_name CaState.starting = "starting"
ca_state_name CaState.running = "running"
ca_state_name CaState.ready = "ready"
ca_state_name CaState.stopping = "stopping"
ca_state_name CaState.error = "error"

abbrev bool_name : Bool → String
bool_name true = "true"
bool_name false = "false"

abbrev pub report : Managers → String → Result (Unit {0}) → (String → String) → Managers × Object
report m msg (ok _) prefix = (m, success msg)
report m msg (err e) prefix = (m, failure (prefix e))

-- The commands, and every other text.
pub data Cmd : Type 0 where
  ping get_status start_all stop_all start_vm stop_vm start_ca stop_ca get_tail : Cmd
  unknown : String → Cmd

unfoldable pub cmd_of : String → Cmd
cmd_of cmd =
    if str_eq cmd "ping"
    then ping
    else if str_eq cmd "status"
    then get_status
    else if str_eq cmd "start_all"
    then start_all
    else if str_eq cmd "stop_all"
    then stop_all
    else if str_eq cmd "start_vm"
    then start_vm
    else if str_eq cmd "stop_vm"
    then stop_vm
    else if str_eq cmd "start_ca"
    then start_ca
    else if str_eq cmd "stop_ca"
    then stop_ca
    else if str_eq cmd "tail_log"
    then get_tail
    else unknown cmd

-- A handler that changes no manager.
abbrev pub keeping : Managers → M Object → M (Managers × Object)
keeping m answer = do value ← answer; pure (m, value)

module _ (env : Env) where
  -- `format!("{startup:?}")`
  debug_phase : StartupPhase → String
  debug_phase not_started = "NotStarted"
  debug_phase vm_starting = "VmStarting"
  debug_phase (waiting_vsock deadline boot_start delay_done) =
      "WaitingVsock { deadline: "
      <> env.debug_instant deadline
      <> ", boot_start: "
      <> env.debug_instant boot_start
      <> ", delay_done: "
      <> bool_name delay_done
      <> " }"
  debug_phase ca_starting = "CaStarting"
  debug_phase (waiting_ca_port deadline) =
      "WaitingCaPort { deadline: " <> env.debug_instant deadline <> " }"
  debug_phase complete = "Complete"
  debug_phase (failed e) = "Failed(" <> env.debug_str e <> ")"

module _ (env : Env) (config : Config) where
  unfoldable pub handle_status : StartupPhase → ℕ → Managers → M Object
  unfolding debug_phase
  handle_status phase started_at m = do
    time ← now env
    pure (
        ("ok", bool true)
        ∷ ("vm", text (vm_state_name (Vm.state m.vm)))
        ∷ ("ca", text (ca_state_name (Ca.state m.ca)))
        ∷ ("startup_phase", text (debug_phase env phase))
        ∷ ("vm_cid", num config.vsock_cid)
        ∷ ("ca_port", num config.ca_port)
        ∷ ("uptime_secs", num ((time - started_at) / secs 1))
        ∷ [])

  unfoldable pub handle_start_all : Managers → M (Managers × Object)
  handle_start_all m = do
    started ← Vm.start env config m.vm
    pure (report (record m { vm = started.0 }) "starting" started.1 (λ e. "VM: " <> e))

  unfoldable pub handle_stop_all : Managers → M (Managers × Object)
  handle_stop_all m = do
    ca ← Ca.stop env config m.ca
    vm ← Vm.stop env config m.vm
    pure (record { vm = vm; ca = ca }, success "stopped")

  unfoldable pub handle_start_vm : Managers → M (Managers × Object)
  handle_start_vm m = do
    started ← Vm.start env config m.vm
    pure (report (record m { vm = started.0 }) "vm starting" started.1 (λ e. e))

  unfoldable pub handle_stop_vm : Managers → M (Managers × Object)
  handle_stop_vm m = do
    vm ← Vm.stop env config m.vm
    pure (record m { vm = vm }, success "vm stopped")

  unfoldable pub handle_start_ca : Managers → M (Managers × Object)
  handle_start_ca m = do
    started ← Ca.start env config config.vsock_cid m.ca
    pure (report (record m { ca = started.0 }) "ca starting" started.1 (λ e. e))

  unfoldable pub handle_stop_ca : Managers → M (Managers × Object)
  handle_stop_ca m = do
    ca ← Ca.stop env config m.ca
    pure (record m { ca = ca }, success "ca stopped")

  -- The file of a source, if it is a known one.
  abbrev pub log_of : String → Option PathBuf
  log_of source =
      if str_eq source "vm" || str_eq source "pvm"
      then some (join config.log_dir "pvm.log")
      else if str_eq source "ca"
      then some (join config.log_dir "ca.log")
      else if str_eq source "daemon"
      then some (join config.log_dir "daemon.log")
      else none

  unfoldable pub tail_answer : String → Option PathBuf → ℕ → M Object
  tail_answer source none n = pure (failure ("unknown source: " <> source))
  tail_answer source (some log_path) n = do
    content ← tail_log env log_path n
    pure (("ok", bool true) ∷ ("content", bytes content) ∷ [])

  -- `as usize` keeps a u64 as it is on a 64-bit target.
  unfoldable pub handle_tail_log : Request → M Object
  handle_tail_log req =
      let source = or_default req.source "daemon" in
      tail_answer source (log_of source) (min (or_default req.lines 200) max_tail_lines)

  abbrev pub answer : StartupPhase → ℕ → Request → Cmd → Managers → M (Managers × Object)
  answer phase started_at req ping m = pure (m, success "pong")
  answer phase started_at req get_status m = keeping m (handle_status phase started_at m)
  answer phase started_at req start_all m = handle_start_all m
  answer phase started_at req stop_all m = handle_stop_all m
  answer phase started_at req start_vm m = handle_start_vm m
  answer phase started_at req stop_vm m = handle_stop_vm m
  answer phase started_at req start_ca m = handle_start_ca m
  answer phase started_at req stop_ca m = handle_stop_ca m
  answer phase started_at req get_tail m = keeping m (handle_tail_log req)
  answer phase started_at req (unknown cmd) m = pure (m, failure ("unknown cmd: " <> cmd))

  -- The `match cmd` of `handle_client`.
  unfoldable pub handle_request : StartupPhase → ℕ → Request → Managers → M (Managers × Object)
  handle_request phase started_at req m =
      answer phase started_at req (cmd_of (or_default req.cmd "")) m
