-- ===== src/Ipc/Reader.antt =====
-- src/ipc.rs: `reader.by_ref().take(MAX_REQUEST_LINE_BYTES).read_line(&mut line)` over the bytes
-- that a client sends, and the trimming of the line.
use teeproxyd.Base.{
  ℕ, zero, suc, ◌*◌, Bool, true, false, not, ◌&&◌, List, [], ◌∷◌, ◌==◌, if◌then◌else◌, is_utf8,
}
use teeproxyd.LogCollector.{lf, cr}

-- What the client still sends, and what comes behind it: the end of the stream, or a read that
-- times out or fails.
pub record Stream : Type 0 where
  pub bytes : List ℕ
  pub fails : Bool

abbrev pub max_request_line_bytes : ℕ
max_request_line_bytes = 64 * 1024

pub record Taken : Type 0 where
  pub taken : List ℕ
  pub left : List ℕ
  pub is_full : Bool  -- a line feed was met, or the limit

-- At most `limit` bytes, up to the first line feed.
unfoldable pub take_line : ℕ → List ℕ → Taken
take_line zero s = record { taken = []; left = s; is_full = true }
take_line (suc limit) [] = record { taken = []; left = []; is_full = false }
take_line (suc limit) (c ∷ s) =
    let next = take_line limit s in
    if c == lf
    then record { taken = c ∷ []; left = s; is_full = true }
    else record { taken = c ∷ next.taken; left = next.left; is_full = next.is_full }

-- `Ok(0)`, `Ok(n)` and `Err(_)`
pub data Read : Type 0 where
  eof : Read
  line : List ℕ → Read
  broken : Read

unfoldable pub as_text : List ℕ → Read
as_text [] = eof
as_text (c ∷ l) = if is_utf8 (c ∷ l) then line (c ∷ l) else broken

unfoldable pub read_line : Stream → Read × Stream
unfolding as_text
read_line stream =
    let next = take_line max_request_line_bytes stream.bytes in
    (
      if stream.fails && not next.is_full then broken else as_text next.taken,
      record stream { bytes = next.left },
    )

-- `trim_end_matches`
unfoldable pub trim_end : ℕ → List ℕ → List ℕ
trim_end c [] = []
trim_end c (x ∷ s) = elim (trim_end c s) [
  | [] ↦ if x == c then [] else x ∷ []
  | (y ∷ r) ↦ x ∷ y ∷ r
]

unfoldable pub trim_line : List ℕ → List ℕ
unfolding trim_end
trim_line l = trim_end cr (trim_end lf l)
