-- ===== src/Ipc/Acts.antt =====
-- src/ipc.rs: what a client makes the daemon do is a sequence of acts on the managers.
use teeproxyd.Base.{
  true, Bool, ℕ, zero, suc, refl, List, [], ◌∷◌, arith, length, min, inl, inr, here,
}
use teeproxyd.System.{Env, Trace, Request, Result-cases, clock, reply}
use teeproxyd.Config.{Config, or_default}
use teeproxyd.Startup.{StartupPhase}
use teeproxyd.Acts.{
  Acts, Acts-trans, act, Minor-Acts, calls, vm_starts, ca_starts, vm_stops, ca_stops,
}
use teeproxyd.Ipc.Framing.{text_of}
use teeproxyd.Ipc.Minor.{tail_answer-Minor}
use teeproxyd.Ipc.{serve, handle_client, handle_line, handle_text, write_response}
use teeproxyd.Ipc.Reader.{Stream, read_line, trim_line}
use teeproxyd.Ipc.Handlers.{
  Managers, handle_request, handle_start_all, handle_stop_all, handle_start_vm, handle_stop_vm,
  handle_start_ca, handle_stop_ca, handle_status, handle_tail_log, log_of, answer, Cmd, ping,
  get_status, start_all, start_vm, start_ca, stop_all, stop_vm, stop_ca, get_tail, unknown, cmd_of,
  max_tail_lines,
}

module _ (env : Env) (config : Config) (mortal : ℕ → Bool) (phase : StartupPhase)
    (started_at : ℕ) where
  answer-Acts :
      (req : Request) (cmd : Cmd) (m : Managers) (t : Trace)
      → let (r, t') = answer env config phase started_at req cmd m t in
        Acts env config mortal true true (m, t) (r.0, t')
  unfolding handle_start_all handle_start_vm handle_start_ca handle_stop_all handle_stop_vm
      handle_stop_ca handle_status handle_tail_log
  answer-Acts req ping m t = here
  answer-Acts req get_status m t = act (calls clock refl)
  answer-Acts req start_all m t =
      let started =
        act {env = env} {config = config} {mortal = mortal} {launching = true} {careless = true}
          {a = (m, t)} (vm_starts refl (λ h. cc)) in
      ground (arith, started)
  answer-Acts req start_vm m t =
      let started =
        act {env = env} {config = config} {mortal = mortal} {launching = true} {careless = true}
          {a = (m, t)} (vm_starts refl (λ h. cc)) in
      ground (arith, started)
  answer-Acts req start_ca m t =
      let started =
        act {env = env} {config = config} {mortal = mortal} {launching = true} {careless = true}
          {a = (m, t)} (ca_starts (λ h. cc)) in
      ground (arith, started)
  answer-Acts req stop_all m t = Acts-trans (act ca_stops) (act vm_stops)
  answer-Acts req stop_vm m t = act vm_stops
  answer-Acts req stop_ca m t = act ca_stops
  answer-Acts req get_tail m t = Minor-Acts m (
      tail_answer-Minor env config (or_default req.source "daemon")
        (log_of env config (or_default req.source "daemon"))
        (min (or_default req.lines 200) max_tail_lines) t)
  answer-Acts req (unknown cmd) m t = here

  handle_text-Acts :
      (l : List ℕ) (m : Managers) (t : Trace)
      → let (step, t') = handle_text env config phase started_at l m t in
        Acts env config mortal true true (m, t) (step.0, t')
  unfolding handle_text handle_line handle_request write_response
  handle_text-Acts [] m t = here
  handle_text-Acts (c ∷ l) m t = elim (Result-cases (env.parse_request (c ∷ l))) [
    | inl (req, e) ↦
        rw (e, handle_line)
          (Acts-trans (answer-Acts req (cmd_of (or_default req.cmd "")) m t)
            (act (calls (reply _) refl)))
    | inr (why, e) ↦ rw (e, handle_line) (act (calls (reply _) refl))
  ]

  serve-Acts :
      (fuel : ℕ) (stream : Stream) (m : Managers) (t : Trace)
      → let (r, t') = serve env config phase started_at fuel stream m t in
        Acts env config mortal true true (m, t) (r.0, t')
  unfolding serve
  serve-Acts zero stream m t = here
  serve-Acts (suc fuel) stream m t =
      let l = trim_line (text_of (read_line stream).0) in
      let (step, t') = handle_text env config phase started_at l m t in
      let none_yet : Acts env config mortal true true (m, t) (m, t) = here in
      let one = handle_text-Acts l m t in
      let all = Acts-trans one (serve-Acts fuel (read_line stream).1 step.0 t') in
      ground (arith, one, all, none_yet)

  pub handle_client-Acts :
      (stream : Stream) (m : Managers) (t : Trace)
      → Acts env config mortal true true
          (m, t)
          (handle_client env config phase started_at stream m t)
  unfolding handle_client
  handle_client-Acts stream m t = serve-Acts (suc (length stream.bytes)) stream m t
