-- ===== src/Ipc/Answers.antt =====
-- src/ipc.rs: the table of commands, the commands that change nothing, and the size of a tail.
use teeproxyd.Base.{
  ℕ, ◌-◌, ◌≤◌, ◌≡◌, refl, List, [], ◌∷◌, Bool, true, false, String, Option, none, some, arith, All,
  min, str_eq,
}
use teeproxyd.System.{Env, Trace, PathBuf, bytes, Object, Request, file_text, Result, ok, err}
use teeproxyd.Config.{Config, or_default}
use teeproxyd.LogCollector.{tail_log, tail_of}
use teeproxyd.LogCollector.Tail.{feeds, last_lines-feeds}
use teeproxyd.Startup.{StartupPhase}
use teeproxyd.Ipc.Handlers.{
  Managers, Cmd, ping, get_status, start_all, stop_all, start_vm, stop_vm, start_ca, stop_ca,
  get_tail, unknown, cmd_of, handle_request, handle_tail_log, max_tail_lines, answer, tail_answer,
  log_of,
}

-- The names of the commands, as the README lists them.
abbrev pub names : List (String × Cmd)
names =
    ("ping", ping)
    ∷ ("status", get_status)
    ∷ ("start_all", start_all)
    ∷ ("stop_all", stop_all)
    ∷ ("start_vm", start_vm)
    ∷ ("stop_vm", stop_vm)
    ∷ ("start_ca", start_ca)
    ∷ ("stop_ca", stop_ca)
    ∷ ("tail_log", get_tail)
    ∷ []

-- Ping, status, tail_log, and what is no command.
abbrev pub is_query : Cmd → Bool
is_query ping = true
is_query get_status = true
is_query get_tail = true
is_query (unknown cmd) = true
is_query _ = false

module _ (env : Env) (config : Config) (phase : StartupPhase) (started_at : ℕ) where
  answer-query :
      (req : Request) (cmd : Cmd) (m : Managers) (t : Trace)
      → is_query cmd ≡ true
      → (answer env config phase started_at req cmd m t).0.0 ≡ m
  answer-query req ping m t h = refl
  answer-query req get_status m t h = refl
  answer-query req get_tail m t h = refl
  answer-query req (unknown cmd) m t h = refl
  answer-query req _ m t h = cc

  -- A request whose command is none of the six that start or stop something changes no manager; so
  -- a missing, a misspelt or an unknown command has no effect.
  pub queries_change_nothing :
      (req : Request) (m : Managers) (t : Trace)
      → All
          (λ (name : String). str_eq (or_default req.cmd "") name ≡ false)
          ("start_all" ∷ "stop_all" ∷ "start_vm" ∷ "stop_vm" ∷ "start_ca" ∷ "stop_ca" ∷ [])
      → (handle_request env config phase started_at req m t).0.0 ≡ m
  unfolding handle_request
  queries_change_nothing req m t h =
      answer-query req (cmd_of (or_default req.cmd "")) m t (unfold cmd_of in ground arith)

tail_of-feeds : (r : Result (List ℕ)) (n : ℕ) → feeds (tail_of r n) ≤ n - 1
unfolding feeds
tail_of-feeds (ok content) n = last_lines-feeds content n
tail_of-feeds (err e) n = omega arith

tail_log-feeds :
    (env : Env) (p : PathBuf) (n : ℕ) (t : Trace) → feeds (tail_log env p n t).0 ≤ n - 1
unfolding tail_log
tail_log-feeds env p n t = tail_of-feeds (file_text env p t).0 n

-- No text of bytes in the answer has more line feeds than this.
abbrev pub FeedsWithin : ℕ → Object → Type 0
FeedsWithin n [] = Unit
FeedsWithin n ((key, bytes b) ∷ fields) = (feeds b ≤ n) × FeedsWithin n fields
FeedsWithin n (_ ∷ fields) = FeedsWithin n fields

tail_answer-FeedsWithin :
    (env : Env) (config : Config) (source : String) (p : Option PathBuf) (n : ℕ) (t : Trace)
    → n ≤ 10000
    → FeedsWithin 9999 (tail_answer env config source p n t).0
unfolding tail_answer
tail_answer-FeedsWithin env config source none n t h = tt
tail_answer-FeedsWithin env config source (some p) n t h =
    (omega (arith, tail_log-feeds env p n t), tt)

-- However many lines a client asks for, and whatever the log holds, the answer to tail_log carries
-- ten thousand lines at most.
pub tail_is_bounded :
    (env : Env) (config : Config) (req : Request) (t : Trace)
    → FeedsWithin 9999 (handle_tail_log env config req t).0
unfolding handle_tail_log
tail_is_bounded env config req t =
    tail_answer-FeedsWithin env config (or_default req.source "daemon")
      (log_of env config (or_default req.source "daemon"))
      (min (or_default req.lines 200) max_tail_lines) t (omega arith)
