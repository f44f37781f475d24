-- ===== src/LogCollector/Tail.antt =====
-- src/log_collector.rs: which lines `tail_log` returns, and how many.
use teeproxyd.Base.{
  ℕ, zero, suc, ◌+◌, ◌-◌, ◌≤◌, ◌≡◌, ◌≢◌, refl, ap, List, [], ◌∷◌, ◌++◌, arith, All, length, drop,
  append-nil, append_assoc, ◌==◌, if◌then◌else◌, length-drop,
}
use teeproxyd.LogCollector.{lf, cr, strip_cr, lines_from, lines, join_lines, last_lines}

-- A line as a program writes it: no line feed in it, and no carriage return.
abbrev pub IsClean : List ℕ → Type 0
IsClean = All (λ c. (c ≢ lf) × (c ≢ cr))

-- The lines as they stand in a log file, each ended by a line feed.
abbrev pub unlines : List (List ℕ) → List ℕ
unlines [] = []
unlines (l ∷ ls) = l ++ lf ∷ unlines ls

strip_cr-IsClean : (l : List ℕ) → IsClean l → strip_cr l ≡ l
unfolding strip_cr
strip_cr-IsClean [] h = refl
strip_cr-IsClean (c ∷ []) h = ground arith
strip_cr-IsClean (c ∷ d ∷ l) h = ap (◌∷◌ c) (strip_cr-IsClean (d ∷ l) h.1)

lines_from-append :
    (l : List ℕ) (cur rest : List ℕ)
    → IsClean l
    → lines_from cur (l ++ lf ∷ rest) ≡ strip_cr (cur ++ l) ∷ lines_from [] rest
unfolding lines_from
lines_from-append [] cur rest h = rw append-nil
lines_from-append (c ∷ l) cur rest h =
    ground (arith, lines_from-append l (cur ++ c ∷ []) rest h.1, append_assoc cur (c ∷ []) l)

lines-unlines : (ls : List (List ℕ)) → All IsClean ls → lines (unlines ls) ≡ ls
unfolding lines
lines-unlines [] h = unfold lines_from in refl
lines-unlines (l ∷ ls) h =
    rw (lines_from-append l [] (unlines ls) h.0, strip_cr-IsClean l h.0)
      (ap (◌∷◌ l) (lines-unlines ls h.1))

-- Of a log of lines without carriage returns, each ended by a line feed, `tail_log` returns the
-- last `n`, or all if there are fewer, joined by line feeds.
pub last_lines-unlines :
    (ls : List (List ℕ)) (n : ℕ)
    → All IsClean ls
    → last_lines (unlines ls) n ≡ join_lines (drop (length ls - n) ls)
unfolding last_lines
last_lines-unlines ls n h = rw (lines-unlines ls h)

-- How many line feeds a text has.
unfoldable pub feeds : List ℕ → ℕ
feeds [] = 0
feeds (c ∷ s) = if c == lf then suc (feeds s) else feeds s

pub feeds-append : (s u : List ℕ) → feeds (s ++ u) ≡ feeds s + feeds u
unfolding feeds
feeds-append [] u = omega arith
feeds-append (c ∷ s) u = ground (arith, feeds-append s u)

abbrev OneLine : List ℕ → Type 0
OneLine l = feeds l ≡ 0

strip_cr-feeds : (l : List ℕ) → OneLine l → OneLine (strip_cr l)
unfolding feeds strip_cr
strip_cr-feeds [] h = refl
strip_cr-feeds (c ∷ []) h = ground arith
strip_cr-feeds (c ∷ d ∷ l) h = ground (arith, strip_cr-feeds (d ∷ l))

lines_from-OneLine : (s cur : List ℕ) → OneLine cur → All OneLine (lines_from cur s)
unfolding lines_from feeds
lines_from-OneLine [] [] h = tt
lines_from-OneLine [] (c ∷ cur) h = (h, tt)
lines_from-OneLine (c ∷ s) cur h = ground (
  arith,
  strip_cr-feeds cur h,
  lines_from-OneLine s [] refl,
  lines_from-OneLine s (cur ++ c ∷ []),
  feeds-append cur (c ∷ []),
)

drop-All : (n : ℕ) (ls : List (List ℕ)) → All OneLine ls → All OneLine (drop n ls)
drop-All zero ls h = h
drop-All (suc n) [] h = tt
drop-All (suc n) (l ∷ ls) h = drop-All n ls h.1

join_lines-feeds : (ls : List (List ℕ)) → All OneLine ls → feeds (join_lines ls) ≡ length ls - 1
unfolding join_lines feeds
join_lines-feeds [] h = refl
join_lines-feeds (l ∷ []) h = h.0
join_lines-feeds (l ∷ m ∷ ls) h =
    ground (arith, feeds-append l (lf ∷ join_lines (m ∷ ls)), join_lines-feeds (m ∷ ls) h.1)

-- Whatever the file holds, `tail_log` for `n` lines returns at most `n` of them: fewer than `n` line
-- feeds separate them, or none if `n` is 0.
pub last_lines-feeds : (content : List ℕ) (n : ℕ) → feeds (last_lines content n) ≤ n - 1
unfolding last_lines lines
last_lines-feeds content n =
    let all = lines content in
    let k = length all - n in
    omega (
      arith,
      join_lines-feeds (drop k all)
          (drop-All k all (lines_from-OneLine content [] (unfold feeds in refl))),
      length-drop k all,
    )
