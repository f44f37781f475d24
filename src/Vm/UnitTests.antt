-- ===== src/Vm/UnitTests.antt =====
-- src/vm.rs: its tests. What a test writes to a directory is the disk of its environment.
use teeproxyd.Base.{
  ℕ, String, Bool, true, false, not, ◌&&◌, ◌==◌, ◌<>◌, [], ◌∷◌, ◌++◌, ◌≡◌, refl, to_string,
  text_contains,
}
use teeproxyd.System.{Env, Trace, PathBuf, from, join, display, Result, ok, err, is_ok}
use teeproxyd.System.Disk.{with_files, files_of}
use teeproxyd.Config.{Config, default}
use teeproxyd.Vm.{
  VmState, idle, ready, is_ready, new, state, set_state, mark_dead, validate_images, all_exist,
  all_large,
}

abbrev test_config : PathBuf → Config
test_config dir = record default {
  image_dir = dir;
  ca_binary = join dir "secret_proxy_ca";
  log_dir = join dir "logs";
}

-- `unwrap_err().contains(part)`; a success panics.
abbrev fails_with : String → Result (Unit {0}) → Bool
fails_with part (ok _) = false
fails_with part (err e) = text_contains e part

abbrev is_idle : VmState → Bool
is_idle idle = true
is_idle _ = false

module _ (env : Env) (t : Trace) where
  validate_images_missing_dir : Bool
  validate_images_missing_dir =
      not (is_ok (validate_images env (test_config (from "/nonexistent")) t).0)

  state_transitions : Bool
  state_transitions =
      let (vm, t₁) = set_state env ready new t in
      let dead = mark_dead vm in
      is_idle (state new)
      && is_ready (state vm)
      && vm.crash_count == 0
      && is_idle (state dead)
      && dead.crash_count == 1

  module _ (temp_dir : PathBuf) (pid : ℕ) where
    validate_images_missing_file : Bool
    validate_images_missing_file =
        let dir = join temp_dir ("teeproxyd_vm_test_" <> to_string pid) in
        let made =
          files_of dir 2000000 ("pvm-manage" ∷ "crosvm" ∷ "custom_pvmfw" ∷ "kernel.bin" ∷ []) in
        fails_with "disk.img" (validate_images (with_files made env) (test_config dir) t).0

    validate_images_too_small : Bool
    validate_images_too_small =
        let dir = join temp_dir ("teeproxyd_vm_small_" <> to_string pid) in
        let made =
          files_of dir 0 ("pvm-manage" ∷ "crosvm" ∷ "custom_pvmfw" ∷ [])
          ++ (join dir "kernel.bin", 4) ∷ (join dir "disk.img", 2000000) ∷ [] in
        let result = (validate_images (with_files made env) (test_config dir) t).0 in
        fails_with "kernel.bin" result && fails_with "too small" result

    validate_images_all_present : Bool
    validate_images_all_present =
        let dir = join temp_dir ("teeproxyd_vm_ok_" <> to_string pid) in
        let made =
          files_of dir 0 ("pvm-manage" ∷ "crosvm" ∷ "custom_pvmfw" ∷ [])
          ++ files_of dir 2000000 ("kernel.bin" ∷ "disk.img" ∷ []) in
        is_ok (validate_images (with_files made env) (test_config dir) t).0

abbrev temp : PathBuf
temp = from "/data/local/tmp"

module _ (env : Env) (t : Trace) where
  vm_tests_pass :
      (validate_images_missing_dir (with_files [] env) t ≡ true)
      × (validate_images_missing_file env t temp 4711 ≡ true)
      × (validate_images_too_small env t temp 4711 ≡ true)
      × (validate_images_all_present env t temp 4711 ≡ true)
      × (state_transitions env t ≡ true)
  unfolding validate_images_missing_dir validate_images_missing_file validate_images_too_small
      validate_images_all_present state_transitions validate_images all_exist all_large set_state
      mark_dead new display to_string
  vm_tests_pass = (refl, refl, refl, refl, refl)
