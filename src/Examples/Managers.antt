-- ===== src/Examples/Managers.antt =====
-- The theorems on the configuration and on the two managers, at concrete inputs.
use teeproxyd.Base.{◌∷◌, is_utf8, ℕ, ◌≡◌, ◌↔◌, refl, Bool, true, false, some, [], arith}
use teeproxyd.System.{Env, ok, Result, is_ok, PathBuf, RawConfig}
use teeproxyd.Config.{default, load_with_warnings}
use teeproxyd.Config.Load.{load_lem, usable, empty, Obeys}
use teeproxyd.Process.{spawn_with_log}
use teeproxyd.Process.Kill.{sent}
use teeproxyd.Process.Logs.{children, CreatedIs}
use teeproxyd.Vm
use teeproxyd.Vm.{
  VmState, VmManager, owns_pid, required, large, validate_images, all_exist, all_large, launch,
}
use teeproxyd.Vm.Images.{IsSnapshot, AllPresent, AllLarge, images_valid_iff}
use teeproxyd.Vm.Lifecycle.{vm_start_tracks}
use teeproxyd.Vm.Orphans.{start_forgets_child}
use teeproxyd.Examples.World.{calm}

-- A file that sets the port, the number of processors and the automatic start only.
abbrev written : RawConfig
written = record empty { ca_port = some 9000; vm_cpus = some 4; auto_start = some false }

abbrev configured : Env
configured = record calm { parse_config = λ content. ok written }

load_lem_example : Obeys written (load_with_warnings configured []).0
load_lem_example =
    load_lem configured [] (some written) (usable written refl (unfold is_utf8 in refl, refl))

abbrev all_there : PathBuf → Bool
all_there p = true

abbrev two_mb : PathBuf → Result ℕ
two_mb p = ok 2000000

calm-IsSnapshot : IsSnapshot calm all_there two_mb
calm-IsSnapshot = record { exists_same = λ p t. refl; len_same = λ p t. refl }

images_valid_iff_example :
    (is_ok (validate_images calm default []).0 ≡ true)
    ↔ (AllPresent all_there default.image_dir required × AllLarge two_mb default.image_dir large)
images_valid_iff_example = images_valid_iff calm default all_there two_mb calm-IsSnapshot []

-- A VM that runs as process 5.
abbrev running_vm : VmManager
running_vm = record {
  state = VmState.ready;
  child_pid = some 5;
  crash_count = 1;
  ready_since = some 0;
}

vm_start_runs :
    (Vm.start calm default running_vm []).0
    ≡ (record running_vm { state = VmState.booting; child_pid = some 7 }, ok tt)
unfolding Vm.start validate_images all_exist all_large launch spawn_with_log
vm_start_runs = refl

vm_start_tracks_example :
    let (r, t) = Vm.start calm default running_vm [] in
    CreatedIs r.1 r.0.child_pid (children calm []) (children calm t)
vm_start_tracks_example = vm_start_tracks calm default running_vm []

vm_start_creates : children calm (Vm.start calm default running_vm []).1 ≡ 7 ∷ children calm []
unfolding Vm.start validate_images all_exist all_large launch spawn_with_log children
vm_start_creates = refl

start_forgets_child_example :
    let (r, t) = Vm.start calm default running_vm [] in
    (r.0.child_pid ≡ some 7) × (owns_pid r.0 5 ≡ false) × (sent 5 t ≡ sent 5 [])
start_forgets_child_example =
    start_forgets_child calm default 5 running_vm 7 [] refl vm_start_creates (omega arith)
