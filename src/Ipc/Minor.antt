-- ===== src/Ipc/Minor.antt =====
-- src/ipc.rs: the answers that only look.
use teeproxyd.Base.{ℕ, refl, Option, none, some, String}
use teeproxyd.System.{Env, Trace, PathBuf, read_file}
use teeproxyd.Config.{Config}
use teeproxyd.LogCollector.{tail_log}
use teeproxyd.Process.Minor.{Minor, still, call}
use teeproxyd.Ipc.Handlers.{tail_answer}

module _ (env : Env) (config : Config) where
  pub tail_answer-Minor :
      (source : String) (p : Option PathBuf) (n : ℕ) (t : Trace)
      → Minor t (tail_answer env config source p n t).1
  unfolding tail_answer tail_log
  tail_answer-Minor source none n t = still
  tail_answer-Minor source (some p) n t = call still (read_file p) refl
