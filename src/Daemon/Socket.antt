-- ===== src/Daemon/Socket.antt =====
-- src/main.rs: `acquire_listener`.
use teeproxyd.Base.{
  ℕ, zero, suc, ◌<◌, ◌^◌, ◌≡◌, refl, String, Option, none, some, ℤ, pos, negsuc, codes, to_string,
  parse_i32, parse_i32-to_string, if◌then◌else◌,
}
use teeproxyd.System.{PathBuf, join, Env, Trace, M, pure, ◌>>=◌, ◌>>◌, unlink, bind_listener}
use teeproxyd.Config.{Config}

-- The listener that the main loop polls.
pub data Listener : Type 0 where
  inherited : ℤ → Listener  -- UnixListener::from_raw_fd
  bound : PathBuf → Listener

-- `UnixListener::from_raw_fd` panics on −1, which the standard library keeps for no descriptor.
abbrev pub from_raw_fd : ℤ → Option Listener
from_raw_fd (pos n) = some (inherited (pos n))
from_raw_fd (negsuc zero) = none
from_raw_fd (negsuc (suc n)) = some (inherited (negsuc (suc n)))

-- `fd_str.parse::<RawFd>()` of a variable that is set.
unfoldable pub inherited_fd : Option String → Option ℤ
inherited_fd none = none
inherited_fd (some fd_str) = parse_i32 (codes fd_str)

module _ (env : Env) (config : Config) where
  abbrev pub socket_path : PathBuf
  socket_path = join config.data_dir "teeproxyd.sock"

  unfoldable pub listen_on : Option ℤ → M (Option Listener)
  listen_on (some fd) = pure (from_raw_fd fd)
  listen_on none = do
    unlink socket_path
    is_bound ← bind_listener env socket_path
    pure (if is_bound then some (bound socket_path) else none)

  -- `none` is the panic of `from_raw_fd` or of `expect("bind socket")`.
  unfoldable pub acquire_listener : M (Option Listener)
  unfolding listen_on
  acquire_listener = listen_on (inherited_fd (env.var "ANDROID_SOCKET_teeproxyd"))

  -- A descriptor that init passes on, as a decimal number below 2^31, is the listener, and then no
  -- file is removed and no socket created.
  pub inherited_socket_is_used :
      (fd : ℕ) (t : Trace)
      → fd < 2 ^ 31
      → env.var "ANDROID_SOCKET_teeproxyd" ≡ some (to_string fd)
      → acquire_listener t ≡ (some (inherited (pos fd)), t)
  unfolding acquire_listener inherited_fd
  inherited_socket_is_used fd t small e = rw (e, parse_i32-to_string fd small) refl
