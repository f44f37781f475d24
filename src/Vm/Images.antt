-- ===== src/Vm/Images.antt =====
-- src/vm.rs: what `validate_images` accepts, and which file its error names.
use teeproxyd.Base.{
  ℕ, ◌≡◌, ◌≤◌, ◌↔◌, Bool, true, false, List, [], ◌∷◌, ◌++◌, String, arith, All, ◌<>◌,
}
use teeproxyd.System.{Env, Trace, PathBuf, join, display, Result, ok, err, is_ok, exists, metadata}
use teeproxyd.Config.{Config}
use teeproxyd.Vm.{all_exist, all_large, required, large, min_len, validate_images}

-- The files do not change while they are looked at.
pub record IsSnapshot (env : Env) (present : PathBuf → Bool) (len : PathBuf → Result ℕ)
    : Type 0 where
  pub exists_same : (p : PathBuf) (t : Trace) → env.exists_at p t ≡ present p
  pub len_same : (p : PathBuf) (t : Trace) → env.len_at p t ≡ len p

-- At least a million bytes, as far as the file can be measured.
abbrev pub IsLarge : Result ℕ → Type 0
IsLarge (ok n) = min_len ≤ n
IsLarge (err e) = ⊥

abbrev pub AllPresent : (PathBuf → Bool) → PathBuf → List String → Type 0
AllPresent present dir = All (λ name. present (join dir name) ≡ true)

abbrev pub AllLarge : (PathBuf → Result ℕ) → PathBuf → List String → Type 0
AllLarge len dir = All (λ name. IsLarge (len (join dir name)))

module _ (env : Env) (present : PathBuf → Bool) (len : PathBuf → Result ℕ)
    (snap : IsSnapshot env present len) (dir : PathBuf) where
  all_exist_iff :
      (names : List String) (t : Trace)
      → (is_ok (all_exist env dir names t).0 ≡ true) ↔ AllPresent present dir names
  unfolding all_exist
  all_exist_iff [] t = ground arith
  all_exist_iff (name ∷ names) t =
      ground (
        arith,
        snap.exists_same (join dir name) t,
        all_exist_iff names (exists (join dir name) ∷ t),
      )

  all_large_iff :
      (names : List String) (t : Trace)
      → (is_ok (all_large env dir names t).0 ≡ true) ↔ AllLarge len dir names
  unfolding all_large
  all_large_iff [] t = ground arith
  all_large_iff (name ∷ names) t =
      ground
        (arith, snap.len_same (join dir name) t, all_large_iff names (metadata (join dir name) ∷ t))

  all_exist-missing :
      (before after : List String) (name : String) (t : Trace)
      → AllPresent present dir before
      → present (join dir name) ≡ false
      → (all_exist env dir (before ++ name ∷ after) t).0
        ≡ err (name <> " not found in " <> display dir)
  unfolding all_exist
  all_exist-missing [] after name t v h = ground (arith, snap.exists_same (join dir name) t)
  all_exist-missing (b ∷ before) after name t v h = ground (
    arith,
    snap.exists_same (join dir b) t,
    all_exist-missing before after name (exists (join dir b) ∷ t) v.1 h,
  )

module _ (env : Env) (config : Config) (present : PathBuf → Bool) (len : PathBuf → Result ℕ)
    (snap : IsSnapshot env present len) (t : Trace) where
  -- If the files do not change meanwhile, `validate_images` succeeds exactly when all five files are
  -- in the image directory and kernel.bin and disk.img hold a million bytes at least.
  pub images_valid_iff :
      (is_ok (validate_images env config t).0 ≡ true)
      ↔ (AllPresent present config.image_dir required × AllLarge len config.image_dir large)
  unfolding validate_images
  images_valid_iff = ground (
    arith,
    all_exist_iff env present len snap config.image_dir required t,
    all_large_iff env present len snap config.image_dir large
        (all_exist env config.image_dir required t).1,
  )

  -- If the files do not change meanwhile and one is missing, the error names the first one that
  -- is, in the order of the list.
  pub first_missing_is_named :
      (before after : List String) (name : String)
      → required ≡ before ++ name ∷ after
      → AllPresent present config.image_dir before
      → present (join config.image_dir name) ≡ false
      → (validate_images env config t).0
        ≡ err (name <> " not found in " <> display config.image_dir)
  unfolding validate_images
  first_missing_is_named before after name e v h =
      let missing =
        all_exist-missing env present len snap config.image_dir before after name t v h in
      ground (arith, rw (← e) at missing)
