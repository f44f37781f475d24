-- ===== src/Daemon/Pipe.antt =====
-- src/main.rs: what the signals that arrive make of the self-pipe.
use teeproxyd.Base.{
  ◌∙◌, ℕ, pos, zero, suc, ◌+◌, ◌<◌, ◌≡◌, refl, sym, ap, List, [], ◌∷◌, ◌++◌, map, append_assoc,
  append-nil, true, arith, length, length-append, take, contains,
}
use teeproxyd.System.{OsSignal}
use teeproxyd.Daemon.Signals.{deliver, no_fd, signal_byte, signal_handler}
use teeproxyd.Daemon.{buf_len}

contains-take :
    (n b : ℕ) (p rest : List ℕ) → length p < n → contains b (take n (p ++ b ∷ rest)) ≡ true
contains-take zero b p rest h = absurd (omega arith)
contains-take (suc n) b [] rest h = ground arith
contains-take (suc n) b (x ∷ p) rest h = ground (arith, contains-take n b p rest)

length-map : (sigs : List OsSignal) → length (map signal_byte sigs) ≡ length sigs
length-map [] = refl
length-map (s ∷ sigs) = ap suc (length-map sigs)

contains-take-append :
    (n b : ℕ) (p rest : List ℕ)
    → contains b (take n p) ≡ true
    → contains b (take n (p ++ rest)) ≡ true
contains-take-append zero b p rest h = cc
contains-take-append (suc n) b [] rest h = cc
contains-take-append (suc n) b (x ∷ p) rest h = ground (arith, contains-take-append n b p rest)

-- Before the registration a signal is dropped.
pub deliver-no_fd : (sigs : List OsSignal) (pipe : List ℕ) → deliver no_fd sigs pipe ≡ pipe
unfolding deliver signal_handler
deliver-no_fd [] pipe = refl
deliver-no_fd (sig ∷ sigs) pipe = deliver-no_fd sigs pipe

-- The handler has a pipe to write to.
module _ (fd : ℕ) where
  deliver-map :
      (sigs : List OsSignal) (pipe : List ℕ)
      → deliver (pos fd) sigs pipe ≡ pipe ++ map signal_byte sigs
  unfolding deliver signal_handler
  deliver-map [] pipe = sym (append-nil pipe)
  deliver-map (sig ∷ sigs) pipe =
      deliver-map sigs (pipe ++ signal_byte sig ∷ [])
      ∙ append_assoc pipe (signal_byte sig ∷ []) (map signal_byte sigs)

  deliver-append :
      (xs ys : List OsSignal) (pipe : List ℕ)
      → deliver (pos fd) (xs ++ ys) pipe ≡ deliver (pos fd) ys (deliver (pos fd) xs pipe)
  unfolding deliver
  deliver-append [] ys pipe = refl
  deliver-append (x ∷ xs) ys pipe = deliver-append xs ys (signal_handler (pos fd) x pipe)

  -- The byte of a signal that finds fewer than 64 bytes ahead of it in the pipe is in the next read.
  pub delivered :
      (before after : List OsSignal) (sig : OsSignal) (pipe : List ℕ)
      → length pipe + length before < 64
      → contains (signal_byte sig) (take buf_len (deliver (pos fd) (before ++ sig ∷ after) pipe))
        ≡ true
  delivered before after sig pipe h =
      let ahead : List ℕ = pipe ++ map signal_byte before in
      let room : length ahead < 64 =
        omega (arith, length-append pipe (map signal_byte before), length-map before) in
      rw (deliver-append, deliver-map before pipe, deliver-map (sig ∷ after) ahead)
        (contains-take buf_len (signal_byte sig) ahead (map signal_byte after) room)

  -- What is next to be read stays so when more signals come.
  pub deliver-contains :
      (n b : ℕ) (sigs : List OsSignal) (pipe : List ℕ)
      → contains b (take n pipe) ≡ true
      → contains b (take n (deliver (pos fd) sigs pipe)) ≡ true
  deliver-contains n b sigs pipe h =
      rw (deliver-map sigs pipe) (contains-take-append n b pipe (map signal_byte sigs) h)
