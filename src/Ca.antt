-- ===== src/Ca.antt =====
-- src/ca.rs: the manager of the CA process. The reference to the configuration that the struct
-- holds is a parameter here.
pub mod Lifecycle
pub mod Edges
pub mod Minor
pub mod Own
pub mod Growth
use teeproxyd.Base.{
  ℕ, suc, ◌+◌, ◌-◌, ◌%◌, ◌^◌, String, Bool, true, false, not, Option, none, some, List, [], ◌∷◌,
  leb, is_some_of, to_string, if◌then◌else◌, ◌<>◌, codes,
}
use teeproxyd.System.{
  PathBuf, join, display, Result, ok, err, Env, M, pure, ◌>>=◌, ◌>>◌, secs, now, path_exists,
  connect_to, exchange_bytes, Connect, connected, refused, timed_out, other_error,
}
use teeproxyd.Config.{Config}
use teeproxyd.Process.{spawn_with_log, graceful_kill, is_alive}

pub data CaState : Type 0 where
  idle starting running ready stopping error : CaState

pub record CaManager : Type 0 where
  pub state : CaState
  pub child_pid : Option ℕ
  pub crash_count : ℕ
  pub ready_since : Option ℕ

unfoldable pub new : CaManager
new = record { state = idle; child_pid = none; crash_count = 0; ready_since = none }

abbrev pub state : CaManager → CaState
state ca = ca.state

unfoldable pub owns_pid : CaManager → ℕ → Bool
owns_pid ca pid = is_some_of pid ca.child_pid

-- `crash_count` is a u32, which wraps.
unfoldable pub mark_dead : CaManager → CaManager
mark_dead ca = record ca {
  crash_count = (ca.crash_count + 1) % 2 ^ 32;
  child_pid = none;
  state = idle;
  ready_since = none;
}

-- Idle or Error
abbrev pub is_down : CaState → Bool
is_down idle = true
is_down error = true
is_down _ = false

abbrev pub is_ready : CaState → Bool
is_ready ready = true
is_ready _ = false

abbrev pub port_request : List ℕ
port_request =
    codes
      "GET /health HTTP/1.0\r\nHost: 127.0.0.1\r\nUser-Agent: teeproxyd-probe\r\nConnection: close\r\n\r\n"

module _ (env : Env) where
  unfoldable pub set_state : CaState → CaManager → M CaManager
  set_state s ca =
      if is_ready s
      then (do time ← now env; pure (record ca { state = s; ready_since = some time }))
      else pure (record ca { state = s })

  abbrev pub dead_child : Option ℕ → M Bool
  dead_child none = pure false
  dead_child (some pid) = do alive ← is_alive env pid; pure (not alive)

  -- The last two conditions of `&&` are asked only if those before them hold.
  unfoldable pub is_dead : CaManager → M Bool
  is_dead ca = if is_down ca.state then dead_child ca.child_pid else pure false

  abbrev pub reset_since : Option ℕ → CaManager → M CaManager
  reset_since none ca = pure ca
  reset_since (some since) ca = do
    time ← now env
    pure (if leb (secs 60) (time - since) then record ca { crash_count = 0 } else ca)

  unfoldable pub maybe_reset_crash_count : CaManager → M CaManager
  maybe_reset_crash_count ca = reset_since ca.ready_since ca

module _ (env : Env) (config : Config) where
  -- The child that `start` asks for.
  unfoldable pub launch : ℕ → M (Result ℕ)
  launch vsock_cid =
      spawn_with_log env (display config.ca_binary)
        ("serve" ∷ "--port" ∷ to_string config.ca_port ∷ [])
        (("VSOCK_CID", to_string vsock_cid)
          ∷ ("RUST_LOG", config.ca_log_level)
          ∷ ("SECRET_PROXY_CA_ADMIN_TOKEN", config.ca_admin_token)
          ∷ [])
        (join config.log_dir "ca.log") none

  -- What the result of the launch leaves.
  abbrev pub launched : CaManager → Result ℕ → CaManager × Result (Unit {0})
  launched ca (err e) = (ca, err ("spawn CA: " <> e))
  launched ca (ok pid) = (record ca { child_pid = some pid; state = running }, ok tt)

  unfoldable pub start : ℕ → CaManager → M (CaManager × Result (Unit {0}))
  start vsock_cid ca = do
    found ← path_exists env config.ca_binary
    elim found [
      | false ↦ pure (ca, err ("CA binary not found: " <> display config.ca_binary))
      | true ↦ (do child ← launch vsock_cid; pure (launched (record ca { state = starting }) child))
    ]

  unfoldable pub stop_child : Option ℕ → M (Unit {0})
  stop_child none = pure tt
  stop_child (some pid) = do graceful_kill env pid config.shutdown_grace_secs; pure tt

  -- `stop` always returns `Ok(())`.
  unfoldable pub stop : CaManager → M CaManager
  stop ca = do
    stop_child ca.child_pid
    pure (record ca { child_pid = none; state = idle; ready_since = none })

  -- The request is written to a connection that is open, and the answer is dropped.
  abbrev pub answered : Connect → M Bool
  answered connected = do exchange_bytes port_request; pure true
  answered refused = pure false
  answered timed_out = pure false
  answered other_error = pure false

  unfoldable pub is_port_ready : M Bool
  is_port_ready = do outcome ← connect_to env config.ca_port 1; answered outcome
