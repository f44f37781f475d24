-- ===== src/Ipc/Requests.antt =====
-- src/ipc.rs: a request that is sent as a line is read as it was sent.
use teeproxyd.Base.{
  ℕ, zero, suc, ◌<◌, ◌≡◌, ◌≢◌, refl, List, [], ◌∷◌, ◌++◌, Bool, true, arith, length, is_utf8, All,
}
use teeproxyd.LogCollector.{lf, cr}
use teeproxyd.LogCollector.Tail.{IsClean}
use teeproxyd.Ipc.Reader.{line, read_line, trim_line, trim_end, take_line, as_text}

-- A line that a client may send: clean, not empty, within the limit with its line feed, and UTF-8.
pub record IsRequest (l : List ℕ) : Type 0 where
  pub clean : IsClean l
  pub filled : 0 < length l
  pub short : length l < 65536
  pub utf8 : is_utf8 (l ++ lf ∷ []) ≡ true

take_line-eq :
    (l rest : List ℕ) (limit : ℕ)
    → IsClean l
    → length l < limit
    → take_line limit (l ++ lf ∷ rest)
      ≡ record { taken = l ++ lf ∷ []; left = rest; is_full = true }
unfolding take_line
take_line-eq l rest zero h fits = absurd (omega arith)
take_line-eq [] rest (suc limit) h fits = refl
take_line-eq (c ∷ l) rest (suc limit) h fits =
    ground (arith, take_line-eq l rest limit h.1 (omega arith))

trim_end-clean : (c : ℕ) (l : List ℕ) → All (λ x. x ≢ c) l → trim_end c l ≡ l
unfolding trim_end
trim_end-clean c [] h = refl
trim_end-clean c (x ∷ l) h = ground (arith, trim_end-clean c l h.1)

trim_end-feed : (l : List ℕ) → IsClean l → trim_end lf (l ++ lf ∷ []) ≡ l
unfolding trim_end
trim_end-feed [] h = refl
trim_end-feed (x ∷ l) h = ground (arith, trim_end-feed l h.1)

without_cr : (l : List ℕ) → IsClean l → All (λ x. x ≢ cr) l
without_cr [] h = tt
without_cr (x ∷ l) h = (h.0.1, without_cr l h.1)

pub trim_line-clean : (l : List ℕ) → IsClean l → trim_line (l ++ lf ∷ []) ≡ l
unfolding trim_line
trim_line-clean l h = rw (trim_end-feed l h) (trim_end-clean cr l (without_cr l h))

as_text-line :
    (l : List ℕ) → is_utf8 (l ++ lf ∷ []) ≡ true → as_text (l ++ lf ∷ []) ≡ line (l ++ lf ∷ [])
unfolding as_text
as_text-line [] h = rw h
as_text-line (c ∷ l) h = rw h

-- A request is read as it was sent, and what follows it is left.
pub read_line-eq :
    (l rest : List ℕ) (fails : Bool)
    → IsRequest l
    → read_line (record { bytes = l ++ lf ∷ rest; fails = fails })
      ≡ (line (l ++ lf ∷ []), record { bytes = rest; fails = fails })
unfolding read_line
read_line-eq l rest fails v =
    rw (take_line-eq l rest 65536 v.clean v.short) (ground (arith, as_text-line l v.utf8))
