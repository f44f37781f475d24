-- ===== src/Ipc/Framing.antt =====
-- src/ipc.rs: how a client's bytes are cut into lines, and that the loop over them ends.
use teeproxyd.Base.{
  ℕ, zero, suc, ◌+◌, ◌≤◌, ◌<◌, ◌≡◌, refl, List, [], ◌∷◌, ◌++◌, Bool, true, false, arith, length,
  is_utf8,
}
use teeproxyd.System.{Env, Trace}
use teeproxyd.Config.{Config}
use teeproxyd.Startup.{StartupPhase}
use teeproxyd.Ipc.{serve, handle_text}
use teeproxyd.Ipc.Reader.{
  Stream, Read, line, read_line, trim_line, take_line, as_text, max_request_line_bytes,
}
use teeproxyd.Ipc.Handlers.{Managers}

take_line-append :
    (limit : ℕ) (s : List ℕ) → (take_line limit s).taken ++ (take_line limit s).left ≡ s
unfolding take_line
take_line-append zero s = refl
take_line-append (suc limit) [] = refl
take_line-append (suc limit) (c ∷ s) = ground (arith, take_line-append limit s)

take_line-le : (limit : ℕ) (s : List ℕ) → length (take_line limit s).taken ≤ limit
unfolding take_line
take_line-le zero s = omega arith
take_line-le (suc limit) [] = omega arith
take_line-le (suc limit) (c ∷ s) = ground (arith, take_line-le limit s)

take_line-length :
    (limit : ℕ) (s : List ℕ)
    → length (take_line limit s).taken + length (take_line limit s).left ≡ length s
unfolding take_line
take_line-length zero s = omega arith
take_line-length (suc limit) [] = omega arith
take_line-length (suc limit) (c ∷ s) = ground (arith, take_line-length limit s)

as_text-line : (b l : List ℕ) → as_text b ≡ line l → (l ≡ b) × (is_utf8 l ≡ true) × (0 < length b)
unfolding as_text
as_text-line [] l h = cc
as_text-line (c ∷ b) l h = ground arith

-- A read takes a prefix of what the client sends and leaves the rest; a line that it returns is that
-- prefix, holds at most 64 KiB, and is UTF-8.
pub read_line_lem :
    (stream : Stream) (l : List ℕ)
    → (read_line stream).0 ≡ line l
    → let rest = (read_line stream).1 in
      (stream.bytes ≡ l ++ rest.bytes)
      × (length l ≤ 65536)
      × (is_utf8 l ≡ true)
      × (length rest.bytes < length stream.bytes)
      × (rest.fails ≡ stream.fails)
unfolding read_line
read_line_lem stream l h =
    let limit = max_request_line_bytes in
    let (same, utf8, some_byte) =
      as_text-line (take_line limit stream.bytes).taken l (ground arith) in
    (
      cc (same, take_line-append limit stream.bytes),
      rw same (take_line-le limit stream.bytes),
      utf8,
      omega (arith, take_line-length limit stream.bytes),
      refl,
    )

abbrev pub text_of : Read → List ℕ
text_of (line l) = l
text_of _ = []

abbrev is_line : Read → Bool
is_line (line l) = true
is_line _ = false

read_line-lt :
    (stream : Stream)
    → is_line (read_line stream).0 ≡ true
    → length (read_line stream).1.bytes < length stream.bytes
read_line-lt stream h = go (read_line stream).0 refl h
  where
    go :
        (read : Read)
        → (read_line stream).0 ≡ read
        → is_line read ≡ true
        → length (read_line stream).1.bytes < length stream.bytes
    go (line l) e is_read = (read_line_lem stream l e).3
    go _ e is_read = cc

module _ (env : Env) (config : Config) (phase : StartupPhase) (started_at : ℕ) where
  serve_within :
      (fuel : ℕ) (stream : Stream) (m : Managers) (t : Trace)
      → length stream.bytes < fuel
      → (serve env config phase started_at fuel stream m t).0.1 ≡ true
  unfolding serve
  serve_within zero stream m t h = absurd (omega arith)
  serve_within (suc fuel) stream m t h =
      let rest = (read_line stream).1 in
      let (step, t') =
        handle_text env config phase started_at (trim_line (text_of (read_line stream).0)) m t in
      ground (arith, read_line-lt stream, serve_within fuel rest step.0 t')

  -- The loop over a client's lines ends by itself, whatever the client sends and however the handlers
  -- answer: each round takes a byte at least, so the fuel of the model is never used up.
  pub handle_client_ends :
      (stream : Stream) (m : Managers) (t : Trace)
      → (serve env config phase started_at (suc (length stream.bytes)) stream m t).0.1 ≡ true
  handle_client_ends stream m t = serve_within (suc (length stream.bytes)) stream m t (omega arith)
