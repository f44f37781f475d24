-- ===== src/Vm.antt =====
-- src/vm.rs: the manager of the virtual machine. The reference to the configuration that the
-- struct holds is a parameter here.
mod UnitTests
pub mod Images
pub mod Lifecycle
pub mod Orphans
pub mod Edges
pub mod Minor
pub mod Own
use teeproxyd.Base.{
  ℕ, ◌+◌, ◌-◌, ◌%◌, ◌^◌, String, Bool, true, false, not, Option, none, some, List, [], ◌∷◌, ltb,
  leb, is_some_of, to_string, if◌then◌else◌, ◌<>◌,
}
use teeproxyd.System.{
  PathBuf, join, display, Result, ok, err, sigkill, Command, Env, M, pure, ◌>>=◌, ◌>>◌, secs, now,
  path_exists, file_len, run_status,
}
use teeproxyd.Config.{Config}
use teeproxyd.Process.{spawn_with_log, graceful_kill, kill_tree, is_alive}

pub data VmState : Type 0 where
  idle starting booting ready stopping error : VmState

pub record VmManager : Type 0 where
  pub state : VmState
  pub child_pid : Option ℕ
  pub crash_count : ℕ
  pub ready_since : Option ℕ

unfoldable pub new : VmManager
new = record { state = idle; child_pid = none; crash_count = 0; ready_since = none }

abbrev pub state : VmManager → VmState
state vm = vm.state

unfoldable pub owns_pid : VmManager → ℕ → Bool
owns_pid vm pid = is_some_of pid vm.child_pid

-- `crash_count` is a u32, which wraps.
unfoldable pub mark_dead : VmManager → VmManager
mark_dead vm = record vm {
  crash_count = (vm.crash_count + 1) % 2 ^ 32;
  child_pid = none;
  state = idle;
  ready_since = none;
}

-- Idle or Error
abbrev pub is_down : VmState → Bool
is_down idle = true
is_down error = true
is_down _ = false

abbrev pub is_ready : VmState → Bool
is_ready ready = true
is_ready _ = false

abbrev pub required : List String
required = "pvm-manage" ∷ "crosvm" ∷ "custom_pvmfw" ∷ "kernel.bin" ∷ "disk.img" ∷ []

abbrev pub large : List String
large = "kernel.bin" ∷ "disk.img" ∷ []

abbrev pub min_len : ℕ
min_len = 1000000

abbrev pkill_crosvm : Command
pkill_crosvm = record {
  program = "pkill";
  args = "-9" ∷ "-f" ∷ "crosvm" ∷ [];
  envs = [];
  current_dir = none;
  output = none;
}

module _ (env : Env) where
  unfoldable pub set_state : VmState → VmManager → M VmManager
  set_state s vm =
      if is_ready s
      then (do time ← now env; pure (record vm { state = s; ready_since = some time }))
      else pure (record vm { state = s })

  abbrev pub dead_child : Option ℕ → M Bool
  dead_child none = pure false
  dead_child (some pid) = do alive ← is_alive env pid; pure (not alive)

  -- The last two conditions of `&&` are asked only if those before them hold.
  unfoldable pub is_dead : VmManager → M Bool
  is_dead vm = if is_down vm.state then dead_child vm.child_pid else pure false

  abbrev pub reset_since : Option ℕ → VmManager → M VmManager
  reset_since none vm = pure vm
  reset_since (some since) vm = do
    time ← now env
    pure (if leb (secs 60) (time - since) then record vm { crash_count = 0 } else vm)

  unfoldable pub maybe_reset_crash_count : VmManager → M VmManager
  maybe_reset_crash_count vm = reset_since vm.ready_since vm

  -- The first loop of `validate_images`: each file exists.
  unfoldable pub all_exist : PathBuf → List String → M (Result (Unit {0}))
  all_exist dir [] t = (ok tt, t)
  all_exist dir (name ∷ names) t =
      let (found, t') = path_exists env (join dir name) t in
      elim found [
        | false ↦ (err (name <> " not found in " <> display dir), t')
        | true ↦ all_exist dir names t'
      ]

  -- The second loop: each of these files is large enough.
  unfoldable pub all_large : PathBuf → List String → M (Result (Unit {0}))
  all_large dir [] t = (ok tt, t)
  all_large dir (name ∷ names) t =
      let (meta, t') = file_len env (join dir name) t in
      elim meta [
        | err e ↦ (err ("stat " <> name <> ": " <> e), t')
        | ok len ↦ elim (ltb len min_len) [
          | true ↦ (err (name <> " too small (" <> to_string len <> "B)"), t')
          | false ↦ all_large dir names t'
        ]
      ]

module _ (env : Env) (config : Config) where
  unfoldable pub validate_images : M (Result (Unit {0}))
  validate_images = do
    found ← all_exist env config.image_dir required
    elim found [ err e ↦ pure (err e) | ok _ ↦ all_large env config.image_dir large ]

  -- The child that `start` asks for.
  unfoldable pub launch : M (Result ℕ)
  launch =
      spawn_with_log env (display (join config.image_dir "pvm-manage"))
        ("run"
          ∷ "--protected-vm-with-pvmfw"
          ∷ "--"
          ∷ "--cpus"
          ∷ to_string config.vm_cpus
          ∷ "--mem"
          ∷ ("size=" <> to_string config.vm_mem_mb)
          ∷ "--block"
          ∷ "disk.img"
          ∷ "--cid"
          ∷ to_string config.vsock_cid
          ∷ "kernel.bin"
          ∷ [])
        (("HOME", display config.image_dir) ∷ []) (join config.log_dir "pvm.log")
        (some config.image_dir)

  -- What the result of the launch leaves.
  abbrev pub launched : VmManager → Result ℕ → VmManager × Result (Unit {0})
  launched vm (err e) = (vm, err ("spawn pvm-manage: " <> e))
  launched vm (ok pid) = (record vm { child_pid = some pid; state = booting }, ok tt)

  unfoldable pub start : VmManager → M (VmManager × Result (Unit {0}))
  start vm = do
    valid ← validate_images
    elim valid [
      | err e ↦ pure (vm, err e)
      | ok _ ↦ (do child ← launch; pure (launched (record vm { state = starting }) child))
    ]

  unfoldable pub stop_child : Option ℕ → M (Unit {0})
  stop_child none = pure tt
  stop_child (some pid) = do
    graceful_kill env pid config.shutdown_grace_secs
    kill_tree env pid sigkill
    run_status env pkill_crosvm
    pure tt

  -- `stop` always returns `Ok(())`.
  unfoldable pub stop : VmManager → M VmManager
  stop vm = do
    stop_child vm.child_pid
    pure (record vm { child_pid = none; state = idle; ready_since = none })

  unfoldable pub probe_vsock : M Bool
  probe_vsock = run_status env (record {
    program = display config.ca_binary;
    args = "vsock-test" ∷ to_string config.vsock_cid ∷ "9999" ∷ [];
    envs = ("VSOCK_CID", to_string config.vsock_cid) ∷ [];
    current_dir = none;
    output = none;
  })
