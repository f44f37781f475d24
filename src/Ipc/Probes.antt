-- ===== src/Ipc/Probes.antt =====
-- src/ipc.rs: serving a client is no health probe.
use teeproxyd.Base.{ℕ, zero, suc, ◌≡◌, refl, ◌∙◌, List, [], ◌∷◌, arith, length, inl, inr}
use teeproxyd.System.{Env, Trace, Result-cases}
use teeproxyd.Config.{Config}
use teeproxyd.Process.Outer.{probes}
use teeproxyd.Startup.{StartupPhase}
use teeproxyd.Ipc.{serve, handle_client, handle_text, handle_line, write_response}
use teeproxyd.Ipc.Framing.{text_of}
use teeproxyd.Ipc.Reader.{Stream, read_line, trim_line}
use teeproxyd.Ipc.Handlers.{Managers}
use teeproxyd.Ipc.Silence.{handle_request-probes}

module _ (env : Env) (config : Config) (phase : StartupPhase) (started_at : ℕ) where
  handle_text-probes :
      (l : List ℕ) (m : Managers) (t : Trace)
      → probes (handle_text env config phase started_at l m t).1 ≡ probes t
  unfolding handle_text handle_line write_response probes
  handle_text-probes [] m t = refl
  handle_text-probes (c ∷ l) m t = elim (Result-cases (env.parse_request (c ∷ l))) [
    | inl (req, e) ↦ rw (e, handle_line) (handle_request-probes env config phase started_at req m t)
    | inr (why, e) ↦ rw (e, handle_line) refl
  ]

  serve-probes :
      (fuel : ℕ) (stream : Stream) (m : Managers) (t : Trace)
      → probes (serve env config phase started_at fuel stream m t).1 ≡ probes t
  unfolding serve
  serve-probes zero stream m t = refl
  serve-probes (suc fuel) stream m t =
      let l = trim_line (text_of (read_line stream).0) in
      let (step, t') = handle_text env config phase started_at l m t in
      let one = handle_text-probes l m t in
      let all = serve-probes fuel (read_line stream).1 step.0 t' ∙ one in ground (arith, one, all)

  pub handle_client-probes :
      (stream : Stream) (m : Managers) (t : Trace)
      → probes (handle_client env config phase started_at stream m t).1 ≡ probes t
  unfolding handle_client
  handle_client-probes stream m t = serve-probes (suc (length stream.bytes)) stream m t
