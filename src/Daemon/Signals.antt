-- ===== src/Daemon/Signals.antt =====
-- src/main.rs: the signal handler, its registration, and the self-pipe.
use teeproxyd.Base.{
  ℕ, ℤ, pos, negsuc, Bool, true, false, Option, none, some, List, [], ◌∷◌, ◌++◌, if◌then◌else◌,
}
use teeproxyd.System.{OsSignal, sig_term, sig_int, sig_chld, Env, M, pure, ◌>>=◌, sigaction}

abbrev pub term_byte : ℕ
term_byte = b'T'

abbrev pub chld_byte : ℕ
chld_byte = b'C'

abbrev pub signal_byte : OsSignal → ℕ
signal_byte sig_chld = chld_byte
signal_byte sig_term = term_byte
signal_byte sig_int = term_byte

-- `static SIG_PIPE_FD: AtomicI32`
abbrev pub no_fd : ℤ
no_fd = negsuc 0

-- The first argument is what `SIG_PIPE_FD` holds. `pipe(2)` gives a pipe that blocks, so a write to
-- a full one waits; then `poll` does not return, and no wakeup has such a signal.
unfoldable pub signal_handler : ℤ → OsSignal → List ℕ → List ℕ
signal_handler (negsuc n) sig pipe = pipe
signal_handler (pos fd) sig pipe = pipe ++ signal_byte sig ∷ []

-- Several signals, in order.
unfoldable pub deliver : ℤ → List OsSignal → List ℕ → List ℕ
deliver fd [] pipe = pipe
deliver fd (sig ∷ sigs) pipe = deliver fd sigs (signal_handler fd sig pipe)

module _ (env : Env) where
  -- `sigaction(..).expect(..)` for each signal in order.
  unfoldable pub register : List OsSignal → M Bool
  register [] t = (true, t)
  register (sig ∷ sigs) t =
      let (done, t') = sigaction env sig t in
      elim done [ false ↦ (false, t') | true ↦ register sigs t' ]

  abbrev pub handled : List OsSignal
  handled = sig_term ∷ sig_int ∷ sig_chld ∷ []

  -- What `SIG_PIPE_FD` holds afterwards; `none` is a panic.
  unfoldable pub setup_signal_handler : ℕ → M (Option ℤ)
  setup_signal_handler write_fd = do
    registered ← register handled
    pure (if registered then some (pos write_fd) else none)
