-- ===== src/LogCollector.antt =====
-- src/log_collector.rs: the last lines of a log file. A text is its list of bytes.
mod UnitTests
pub mod Tail
use teeproxyd.Base.{
  ℕ, ◌-◌, List, [], ◌∷◌, ◌++◌, length, drop, ◌==◌, if◌then◌else◌, codes, true, false, ◌≡◌, refl,
}
use teeproxyd.System.{PathBuf, Result, ok, err, Env, M, pure, ◌>>=◌, file_text}

abbrev pub lf : ℕ
lf = 10

abbrev pub cr : ℕ
cr = 13

-- A carriage return at the end of a line that a line feed has ended goes with it.
pub strip_cr : List ℕ → List ℕ
strip_cr [] = []
strip_cr (c ∷ []) = if c == cr then [] else c ∷ []
strip_cr (c ∷ d ∷ s) = c ∷ strip_cr (d ∷ s)

-- The last line, if no line feed ends it.
abbrev pub rest_line : List ℕ → List (List ℕ)
rest_line [] = []
rest_line (c ∷ cur) = (c ∷ cur) ∷ []

pub lines_from : List ℕ → List ℕ → List (List ℕ)
unfolding strip_cr
lines_from cur [] = rest_line cur
lines_from cur (c ∷ s) = elim (c == lf) [
  | true ↦ strip_cr cur ∷ lines_from [] s
  | false ↦ lines_from (cur ++ c ∷ []) s
]

-- `str::lines`
unfoldable pub lines : List ℕ → List (List ℕ)
unfolding lines_from
lines = lines_from []

-- `[&str]::join("\n")`
unfoldable pub join_lines : List (List ℕ) → List ℕ
join_lines [] = []
join_lines (l ∷ []) = l
join_lines (l ∷ m ∷ ls) = l ++ lf ∷ join_lines (m ∷ ls)

-- The part of `tail_log` behind the read.
unfoldable pub last_lines : List ℕ → ℕ → List ℕ
unfolding lines join_lines
last_lines content n =
    let all_lines = lines content in join_lines (drop (length all_lines - n) all_lines)

abbrev pub not_found : List ℕ
not_found = codes "(file not found)"

abbrev pub tail_of : Result (List ℕ) → ℕ → List ℕ
tail_of (ok content) n = last_lines content n
tail_of (err e) n = not_found

unfoldable pub tail_log : Env → PathBuf → ℕ → M (List ℕ)
unfolding last_lines
tail_log env log_path n = do content ← file_text env log_path; pure (tail_of content n)
