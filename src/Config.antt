-- ===== src/Config.antt =====
-- src/config.rs: the configuration, its defaults, and how it is loaded.
pub mod Load
mod UnitTests
use teeproxyd.Base.{ℕ, String, Bool, true, false, Option, none, some, List}
use teeproxyd.System.{
  PathBuf, from, Result, ok, err, Env, RawConfig, M, pure, ◌>>=◌, path_exists, file_text,
}

pub record Config : Type 0 where
  pub image_dir : PathBuf
  pub vm_cpus : ℕ  -- u32
  pub vm_mem_mb : ℕ  -- u32
  pub vsock_cid : ℕ  -- u32
  pub ca_binary : PathBuf
  pub ca_port : ℕ  -- u16
  pub ca_admin_token : String
  pub ca_log_level : String
  pub data_dir : PathBuf
  pub log_dir : PathBuf
  pub auto_start : Bool
  pub health_interval_secs : ℕ  -- u64
  pub health_fail_threshold : ℕ  -- u32
  pub vm_boot_timeout_secs : ℕ  -- u64
  pub vsock_probe_delay_secs : ℕ  -- u64
  pub ca_ready_timeout_secs : ℕ  -- u64
  pub shutdown_grace_secs : ℕ  -- u64

abbrev pub default : Config
default = record {
  image_dir = from "/data/teeproxy/vm";
  vm_cpus = 2;
  vm_mem_mb = 256;
  vsock_cid = 103;
  ca_binary = from "/data/teeproxy/bin/secret_proxy_ca";
  ca_port = 19030;
  ca_admin_token = "dev-admin-token-change-me-please-0001";
  ca_log_level = "info";
  data_dir = from "/data/teeproxy";
  log_dir = from "/data/teeproxy/logs";
  auto_start = true;
  health_interval_secs = 10;
  health_fail_threshold = 3;
  vm_boot_timeout_secs = 60;
  vsock_probe_delay_secs = 15;
  ca_ready_timeout_secs = 15;
  shutdown_grace_secs = 3;
}

abbrev pub or_default {ℓ} : {A : Type ℓ} → Option A → A → A
or_default none d = d
or_default (some a) d = a

abbrev pub path_or : Option String → PathBuf → PathBuf
path_or none d = d
path_or (some s) d = from s

-- `#[serde(default = "…")]` on each field.
pub from_raw : RawConfig → Config
from_raw r = record {
  image_dir = path_or r.image_dir default.image_dir;
  vm_cpus = or_default r.vm_cpus default.vm_cpus;
  vm_mem_mb = or_default r.vm_mem_mb default.vm_mem_mb;
  vsock_cid = or_default r.vsock_cid default.vsock_cid;
  ca_binary = path_or r.ca_binary default.ca_binary;
  ca_port = or_default r.ca_port default.ca_port;
  ca_admin_token = or_default r.ca_admin_token default.ca_admin_token;
  ca_log_level = or_default r.ca_log_level default.ca_log_level;
  data_dir = path_or r.data_dir default.data_dir;
  log_dir = path_or r.log_dir default.log_dir;
  auto_start = or_default r.auto_start default.auto_start;
  health_interval_secs = or_default r.health_interval_secs default.health_interval_secs;
  health_fail_threshold = or_default r.health_fail_threshold default.health_fail_threshold;
  vm_boot_timeout_secs = or_default r.vm_boot_timeout_secs default.vm_boot_timeout_secs;
  vsock_probe_delay_secs = or_default r.vsock_probe_delay_secs default.vsock_probe_delay_secs;
  ca_ready_timeout_secs = or_default r.ca_ready_timeout_secs default.ca_ready_timeout_secs;
  shutdown_grace_secs = or_default r.shutdown_grace_secs default.shutdown_grace_secs;
}

abbrev pub config_path : PathBuf
config_path = from "/data/teeproxy/teeproxyd.conf"

module _ (env : Env) where
  -- What the text of the file amounts to: any error gives the defaults.
  pub parsed : Result (List ℕ) → Config
  unfolding from_raw
  parsed (err e) = default
  parsed (ok content) = elim (env.parse_config content) [ ok raw ↦ from_raw raw | err e ↦ default ]

  unfoldable pub load_with_warnings : M Config
  unfolding parsed
  load_with_warnings = do
    found ← path_exists env config_path
    elim found [
      | false ↦ pure default
      | true ↦ (do content ← file_text env config_path; pure (parsed content))
    ]
