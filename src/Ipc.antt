-- ===== src/Ipc.antt =====
-- src/ipc.rs: the control socket. The reader of lines is in `Ipc.Reader`, the answers in
-- `Ipc.Handlers`, the loop over a client's lines here.
pub mod Reader
pub mod Silence
pub mod Requests
pub mod Replies
pub mod Handlers
pub mod Framing
pub mod Acts
pub mod Minor
pub mod Probes
pub mod Answers
pub mod Status
use teeproxyd.Base.{
  ℕ, zero, suc, ◌+◌, String, Bool, true, false, Option, none, some, List, [], ◌∷◌, ◌++◌, length,
  codes, if◌then◌else◌,
}
use teeproxyd.System.{
  Result, ok, err, Scalar, bool, text, Object, Request, Env, M, pure, ◌>>=◌, write_reply,
}
use teeproxyd.Config.{Config}
use teeproxyd.LogCollector.{lf}
use teeproxyd.Startup.{StartupPhase}
use Reader.{Stream, Read, eof, line, broken, read_line, trim_line}
use Handlers.{Managers, handle_request, failure}

abbrev unprintable : List ℕ
unprintable = codes "{\"ok\":false}"

abbrev pub printed : Option (List ℕ) → List ℕ
printed (some b) = b
printed none = unprintable

-- The bytes of a response: its print, and a line feed.
abbrev pub framed : Env → Object → List ℕ
framed env value = printed (env.print value) ++ lf ∷ []

module _ (env : Env) (config : Config) (phase : StartupPhase) (started_at : ℕ) where
  unfoldable pub write_response : Object → M Bool
  write_response value = write_reply env (framed env value)

  -- One line that is not empty: the managers behind it, and whether the loop goes on.
  unfoldable pub handle_line : List ℕ → Managers → M (Managers × Bool)
  handle_line l m = elim (env.parse_request l) [
    | err e ↦ (do written ← write_response (failure e); pure (m, true))
    | ok req ↦ (do
      answer ← handle_request env config phase started_at req m
      written ← write_response answer.1
      pure (answer.0, written))
  ]

  handle_text : List ℕ → Managers → M (Managers × Bool)
  handle_text [] m = pure (m, true)
  handle_text (c ∷ l) m = handle_line (c ∷ l) m

  -- The loop of `handle_client`. The second part says that it ended by itself, before the fuel.
  pub serve : ℕ → Stream → Managers → M (Managers × Bool)
  unfolding handle_text
  serve zero stream m t = ((m, false), t)
  serve (suc fuel) stream m t =
      let (read, stream') = read_line stream in
      elim read [
        | eof ↦ ((m, true), t)
        | broken ↦ ((m, true), t)
        | line l ↦
            let (step, t') = handle_text (trim_line l) m t in
            elim step.1 [ true ↦ serve fuel stream' step.0 t' | false ↦ ((step.0, true), t') ]
      ]

  -- A round takes at least one byte of the stream.
  unfoldable pub handle_client : Stream → Managers → M Managers
  unfolding serve
  handle_client stream m = do served ← serve (suc (length stream.bytes)) stream m; pure served.0
