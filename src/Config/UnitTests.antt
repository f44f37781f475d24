-- ===== src/Config/UnitTests.antt =====
-- src/config.rs: its tests, and what they take of serde_json, as hypotheses on the parser.
use teeproxyd.Base.{String, Bool, true, false, not, ◌&&◌, ◌==◌, some, ◌≡◌, refl, codes}
use teeproxyd.System.{Env, RawConfig, Result, ok, err, is_ok}
use teeproxyd.Config.{Config, default, from_raw}
use teeproxyd.Config.Load.{empty}

default_config_is_valid : Bool
default_config_is_valid =
    let c = default in c.ca_port == 19030 && c.vsock_cid == 103 && c.auto_start

abbrev full_json : String
full_json =
    "{\n            \"image_dir\": \"/tmp/vm\",\n            \"vm_cpus\": 8,\n            \"vm_mem_mb\": 4096,\n            \"vsock_cid\": 200,\n            \"ca_binary\": \"/tmp/ca\",\n            \"ca_port\": 9999,\n            \"ca_admin_token\": \"my-secure-token-that-is-long-enough\",\n            \"ca_log_level\": \"debug\",\n            \"data_dir\": \"/tmp/data\",\n            \"log_dir\": \"/tmp/logs\",\n            \"auto_start\": false,\n            \"health_interval_secs\": 30,\n            \"health_fail_threshold\": 5,\n            \"vm_boot_timeout_secs\": 120,\n            \"vsock_probe_delay_secs\": 20,\n            \"ca_ready_timeout_secs\": 30,\n            \"shutdown_grace_secs\": 5\n        }"

-- The members of that text.
abbrev full_raw : RawConfig
full_raw = record {
  image_dir = some "/tmp/vm";
  vm_cpus = some 8;
  vm_mem_mb = some 4096;
  vsock_cid = some 200;
  ca_binary = some "/tmp/ca";
  ca_port = some 9999;
  ca_admin_token = some "my-secure-token-that-is-long-enough";
  ca_log_level = some "debug";
  data_dir = some "/tmp/data";
  log_dir = some "/tmp/logs";
  auto_start = some false;
  health_interval_secs = some 30;
  health_fail_threshold = some 5;
  vm_boot_timeout_secs = some 120;
  vsock_probe_delay_secs = some 20;
  ca_ready_timeout_secs = some 30;
  shutdown_grace_secs = some 5;
}

module _ (env : Env) where
  abbrev raw_to_config : Result RawConfig → Result Config
  raw_to_config (ok raw) = ok (from_raw raw)
  raw_to_config (err e) = err e

  -- `serde_json::from_str::<Config>`
  abbrev from_str : String → Result Config
  from_str json = raw_to_config (env.parse_config (codes json))

  -- `unwrap()`, and the assertions; an error panics.
  abbrev unwrapped : Result Config → (Config → Bool) → Bool
  unwrapped (ok c) holds = holds c
  unwrapped (err e) holds = false

  partial_json_uses_defaults_for_missing : Bool
  partial_json_uses_defaults_for_missing =
      unwrapped (from_str "{\"vm_cpus\": 4}") (λ c. c.vm_cpus == 4 && c.ca_port == 19030)

  empty_json_gives_all_defaults : Bool
  empty_json_gives_all_defaults =
      unwrapped (from_str "{}")
        (λ c. c.vm_cpus == 2 && c.vm_mem_mb == 256 && c.vsock_cid == 103 && c.auto_start)

  malformed_json_returns_error : Bool
  malformed_json_returns_error = not (is_ok (from_str "{broken"))

  wrong_type_field_fails_entire_parse : Bool
  wrong_type_field_fails_entire_parse = not (is_ok (from_str "{\"vm_cpus\": \"not_a_number\"}"))

  all_fields_overridden : Bool
  all_fields_overridden =
      unwrapped (from_str full_json)
        (λ c. c.vm_cpus == 8 && c.vsock_cid == 200 && c.ca_port == 9999 && not c.auto_start)

-- What the parser answers to the texts of the tests.
record Parses (env : Env) : Type 0 where
  partial : env.parse_config (codes "{\"vm_cpus\": 4}") ≡ ok (record empty { vm_cpus = some 4 })
  nothing : env.parse_config (codes "{}") ≡ ok empty
  broken : is_ok (env.parse_config (codes "{broken")) ≡ false
  wrong : is_ok (env.parse_config (codes "{\"vm_cpus\": \"not_a_number\"}")) ≡ false
  whole : env.parse_config (codes full_json) ≡ ok full_raw

raw_to_config-is_ok : (env : Env) (r : Result RawConfig) → is_ok (raw_to_config env r) ≡ is_ok r
raw_to_config-is_ok env (ok raw) = refl
raw_to_config-is_ok env (err e) = refl

config_tests_pass :
    (env : Env)
    → Parses env
    → (default_config_is_valid ≡ true)
      × (partial_json_uses_defaults_for_missing env ≡ true)
      × (empty_json_gives_all_defaults env ≡ true)
      × (malformed_json_returns_error env ≡ true)
      × (wrong_type_field_fails_entire_parse env ≡ true)
      × (all_fields_overridden env ≡ true)
unfolding default_config_is_valid partial_json_uses_defaults_for_missing
    empty_json_gives_all_defaults malformed_json_returns_error wrong_type_field_fails_entire_parse
    all_fields_overridden from_raw
config_tests_pass env v = (
  refl,
  rw v.partial refl,
  rw v.nothing refl,
  rw (raw_to_config-is_ok env _, v.broken) refl,
  rw (raw_to_config-is_ok env _, v.wrong) refl,
  rw v.whole refl,
)
