-- ===== src/LogCollector/UnitTests.antt =====
-- src/log_collector.rs: its tests. The file that a test writes is that of its environment.
use teeproxyd.Base.{ℕ, String, Bool, true, ◌<>◌, ◌≡◌, refl, to_string, codes, bytes_eq, is_utf8}
use teeproxyd.System.{Env, Trace, PathBuf, from, join, display}
use teeproxyd.System.Disk.{with_text}
use teeproxyd.LogCollector.{tail_log, last_lines}

module _ (env : Env) (t : Trace) where
  -- `tail_log` of a file with this text, compared.
  abbrev tails : PathBuf → String → ℕ → String → Bool
  tails path content n expected =
      bytes_eq (tail_log (with_text path content env) path n t).0 (codes expected)

  tail_nonexistent_file : Bool
  tail_nonexistent_file =
      bytes_eq (tail_log env (from "/nonexistent/path") 10 t).0 (codes "(file not found)")

  module _ (temp_dir : PathBuf) (pid : ℕ) where
    abbrev temp_file : String → PathBuf
    temp_file name = join temp_dir ("teeproxyd_test_" <> name <> "_" <> to_string pid)

    tail_empty_file : Bool
    tail_empty_file = tails (temp_file "empty") "" 10 ""

    tail_fewer_lines_than_requested : Bool
    tail_fewer_lines_than_requested =
        tails (temp_file "few") "line1\nline2\nline3\n" 10 "line1\nline2\nline3"

    tail_exact_lines : Bool
    tail_exact_lines = tails (temp_file "exact") "a\nb\nc\nd\ne\n" 3 "c\nd\ne"

    tail_one_line : Bool
    tail_one_line = tails (temp_file "one") "a\nb\nc\nd\ne\n" 1 "e"

abbrev temp : PathBuf
temp = from "/data/local/tmp"

module _ (env : Env) (t : Trace) where
  tail_tests_pass :
      (tail_nonexistent_file (with_text temp "" env) t ≡ true)
      × (tail_empty_file env t temp 4711 ≡ true)
      × (tail_fewer_lines_than_requested env t temp 4711 ≡ true)
      × (tail_exact_lines env t temp 4711 ≡ true)
      × (tail_one_line env t temp 4711 ≡ true)
  unfolding tail_nonexistent_file tail_empty_file tail_fewer_lines_than_requested tail_exact_lines
      tail_one_line tail_log last_lines display to_string is_utf8
  tail_tests_pass = (refl, refl, refl, refl, refl)
