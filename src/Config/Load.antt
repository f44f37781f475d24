-- ===== src/Config/Load.antt =====
-- src/config.rs: what loading a configuration promises.
use teeproxyd.Base.{
  Option, ℕ, ◌≡◌, refl, inl, inr, String, true, false, none, some, List, ◌∷◌, arith, is_utf8,
}
use teeproxyd.System.{
  Result-cases, Env, Trace, RawConfig, Result, ok, err, exists, PathBuf, from, utf8_text,
}
use teeproxyd.Config.{
  Config, default, or_default, path_or, from_raw, parsed, load_with_warnings, config_path,
}

-- A file that sets every field.
abbrev pub full : String → String → String → String → Config → RawConfig
full image_dir ca_binary data_dir log_dir c = record {
  image_dir = some image_dir;
  vm_cpus = some c.vm_cpus;
  vm_mem_mb = some c.vm_mem_mb;
  vsock_cid = some c.vsock_cid;
  ca_binary = some ca_binary;
  ca_port = some c.ca_port;
  ca_admin_token = some c.ca_admin_token;
  ca_log_level = some c.ca_log_level;
  data_dir = some data_dir;
  log_dir = some log_dir;
  auto_start = some c.auto_start;
  health_interval_secs = some c.health_interval_secs;
  health_fail_threshold = some c.health_fail_threshold;
  vm_boot_timeout_secs = some c.vm_boot_timeout_secs;
  vsock_probe_delay_secs = some c.vsock_probe_delay_secs;
  ca_ready_timeout_secs = some c.ca_ready_timeout_secs;
  shutdown_grace_secs = some c.shutdown_grace_secs;
}

-- A file that sets nothing.
abbrev pub empty : RawConfig
empty = record {
  image_dir = none;
  vm_cpus = none;
  vm_mem_mb = none;
  vsock_cid = none;
  ca_binary = none;
  ca_port = none;
  ca_admin_token = none;
  ca_log_level = none;
  data_dir = none;
  log_dir = none;
  auto_start = none;
  health_interval_secs = none;
  health_fail_threshold = none;
  vm_boot_timeout_secs = none;
  vsock_probe_delay_secs = none;
  ca_ready_timeout_secs = none;
  shutdown_grace_secs = none;
}

-- A file that sets every field, with directories that are UTF-8 text, is loaded as it stands, and
-- one that sets none gives the defaults.
pub from_raw-full :
    (c : Config) (image_dir ca_binary data_dir log_dir : String)
    → c.image_dir ≡ from image_dir
    → c.ca_binary ≡ from ca_binary
    → c.data_dir ≡ from data_dir
    → c.log_dir ≡ from log_dir
    → (from_raw (full image_dir ca_binary data_dir log_dir c) ≡ c) × (from_raw empty ≡ default)
unfolding from_raw
from_raw-full c image_dir ca_binary data_dir log_dir e₁ e₂ e₃ e₄ = ground arith

-- What was read is a configuration in UTF-8.
abbrev pub Says : Env → Result (List ℕ) → RawConfig → Type 0
Says env (ok content) raw = (is_utf8 content ≡ true) × (env.parse_config content ≡ ok raw)
Says env (err e) raw = ⊥

-- What there is to load: a file that is there and says `raw`, or no such file, where the path is
-- missing, or what was read is an error, not in UTF-8, or no configuration.
pub data Found (env : Env) (t : Trace) : Option RawConfig → Type 0 where
  usable :
      (raw : RawConfig)
      → env.exists_at config_path t ≡ true
      → Says env (env.bytes_at config_path (exists config_path ∷ t)) raw
      → Found env t (some raw)
  absent : env.exists_at config_path t ≡ false → Found env t none
  garbled :
      env.exists_at config_path t ≡ true
      → ((raw : RawConfig) → ¬ Says env (env.bytes_at config_path (exists config_path ∷ t)) raw)
      → Found env t none

-- The value of a field, given what the file sets it to, if it sets it, and the default.
abbrev pub HasValue : {A : Type 0} → Option A → A → A → Type 0
HasValue none value actual = actual ≡ value
HasValue (some set) value actual = actual ≡ set

abbrev pub HasPath : Option String → String → PathBuf → Type 0
HasPath none value actual = actual ≡ from value
HasPath (some set) value actual = actual ≡ from set

-- Each field is what the file sets it to, and else its default.
pub record Obeys (raw : RawConfig) (c : Config) : Type 0 where
  image_dir : HasPath raw.image_dir "/data/teeproxy/vm" c.image_dir
  vm_cpus : HasValue raw.vm_cpus 2 c.vm_cpus
  vm_mem_mb : HasValue raw.vm_mem_mb 256 c.vm_mem_mb
  vsock_cid : HasValue raw.vsock_cid 103 c.vsock_cid
  ca_binary : HasPath raw.ca_binary "/data/teeproxy/bin/secret_proxy_ca" c.ca_binary
  ca_port : HasValue raw.ca_port 19030 c.ca_port
  ca_admin_token :
      HasValue raw.ca_admin_token "dev-admin-token-change-me-please-0001" c.ca_admin_token
  ca_log_level : HasValue raw.ca_log_level "info" c.ca_log_level
  data_dir : HasPath raw.data_dir "/data/teeproxy" c.data_dir
  log_dir : HasPath raw.log_dir "/data/teeproxy/logs" c.log_dir
  auto_start : HasValue raw.auto_start true c.auto_start
  health_interval_secs : HasValue raw.health_interval_secs 10 c.health_interval_secs
  health_fail_threshold : HasValue raw.health_fail_threshold 3 c.health_fail_threshold
  vm_boot_timeout_secs : HasValue raw.vm_boot_timeout_secs 60 c.vm_boot_timeout_secs
  vsock_probe_delay_secs : HasValue raw.vsock_probe_delay_secs 15 c.vsock_probe_delay_secs
  ca_ready_timeout_secs : HasValue raw.ca_ready_timeout_secs 15 c.ca_ready_timeout_secs
  shutdown_grace_secs : HasValue raw.shutdown_grace_secs 3 c.shutdown_grace_secs

or_default-HasValue : {A : Type 0} → (o : Option A) (d : A) → HasValue o d (or_default o d)
or_default-HasValue none d = refl
or_default-HasValue (some a) d = refl

path_or-HasPath : (o : Option String) (d : String) → HasPath o d (path_or o (from d))
path_or-HasPath none d = refl
path_or-HasPath (some s) d = refl

from_raw-Obeys : (raw : RawConfig) → Obeys raw (from_raw raw)
unfolding from_raw
from_raw-Obeys raw = record {
  image_dir = path_or-HasPath raw.image_dir _;
  vm_cpus = or_default-HasValue raw.vm_cpus _;
  vm_mem_mb = or_default-HasValue raw.vm_mem_mb _;
  vsock_cid = or_default-HasValue raw.vsock_cid _;
  ca_binary = path_or-HasPath raw.ca_binary _;
  ca_port = or_default-HasValue raw.ca_port _;
  ca_admin_token = or_default-HasValue raw.ca_admin_token _;
  ca_log_level = or_default-HasValue raw.ca_log_level _;
  data_dir = path_or-HasPath raw.data_dir _;
  log_dir = path_or-HasPath raw.log_dir _;
  auto_start = or_default-HasValue raw.auto_start _;
  health_interval_secs = or_default-HasValue raw.health_interval_secs _;
  health_fail_threshold = or_default-HasValue raw.health_fail_threshold _;
  vm_boot_timeout_secs = or_default-HasValue raw.vm_boot_timeout_secs _;
  vsock_probe_delay_secs = or_default-HasValue raw.vsock_probe_delay_secs _;
  ca_ready_timeout_secs = or_default-HasValue raw.ca_ready_timeout_secs _;
  shutdown_grace_secs = or_default-HasValue raw.shutdown_grace_secs _;
}

default-Obeys : Obeys empty default
default-Obeys = record {
  image_dir = refl;
  vm_cpus = refl;
  vm_mem_mb = refl;
  vsock_cid = refl;
  ca_binary = refl;
  ca_port = refl;
  ca_admin_token = refl;
  ca_log_level = refl;
  data_dir = refl;
  log_dir = refl;
  auto_start = refl;
  health_interval_secs = refl;
  health_fail_threshold = refl;
  vm_boot_timeout_secs = refl;
  vsock_probe_delay_secs = refl;
  ca_ready_timeout_secs = refl;
  shutdown_grace_secs = refl;
}

module _ (env : Env) where
  parsed-Says :
      (r : Result (List ℕ)) (raw : RawConfig)
      → Says env r raw
      → parsed env (utf8_text r) ≡ from_raw raw
  unfolding parsed
  parsed-Says (ok content) raw h = ground arith
  parsed-Says (err e) raw h = absurd h

  parsed-default :
      (r : Result (List ℕ))
      → ((raw : RawConfig) → ¬ Says env r raw)
      → parsed env (utf8_text r) ≡ default
  unfolding parsed
  parsed-default (ok content) h = elim (Result-cases (env.parse_config content)) [
    | inl (raw, e) ↦ ground (arith, h raw)
    | inr (why, e) ↦ ground arith
  ]
  parsed-default (err e) h = refl

  -- Loading gives a configuration in which each field has the value that a usable file sets it to,
  -- or its default if the file does not set it. A file that is missing, unreadable, not in UTF-8 or no
  -- configuration counts as one that sets nothing.
  pub load_lem :
      (t : Trace) (found : Option RawConfig)
      → Found env t found
      → Obeys (or_default found empty) (load_with_warnings env t).0
  unfolding load_with_warnings
  load_lem t _ (usable raw there h) = rw (there, parsed-Says _ raw h) (from_raw-Obeys raw)
  load_lem t _ (absent missing) = rw missing default-Obeys
  load_lem t _ (garbled there h) = rw (there, parsed-default _ h) default-Obeys
