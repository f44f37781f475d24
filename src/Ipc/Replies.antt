-- ===== src/Ipc/Replies.antt =====
-- src/ipc.rs: each request gets one reply of one line.
use teeproxyd.Base.{
  ℕ, zero, suc, ◌<◌, ◌≡◌, refl, ap, sym, ◌∙◌, List, [], ◌∷◌, ◌++◌, Bool, true, false, Option, none,
  some, inl, inr, arith, length, All, append_assoc, length-append,
}
use teeproxyd.System.{Result-cases, Env, Trace, Object}
use teeproxyd.Config.{Config}
use teeproxyd.Process.Outer.{replies}
use teeproxyd.LogCollector.{lf}
use teeproxyd.LogCollector.Tail.{feeds, unlines}
use teeproxyd.Startup.{StartupPhase}
use teeproxyd.Ipc.{
  serve, handle_client, handle_line, handle_text, write_response, framed, printed, unprintable,
}
use teeproxyd.Ipc.Reader.{Stream, read_line, take_line}
use teeproxyd.Ipc.Handlers.{Managers, handle_request, failure}
use teeproxyd.Ipc.Requests.{IsRequest, read_line-eq, trim_line-clean}
use teeproxyd.Ipc.Silence.{handle_request-replies}

-- A text that ends in its only line feed.
pub data IsReplyLine : List ℕ → Type 0 where
  ends : (b : List ℕ) → feeds b ≡ 0 → IsReplyLine (b ++ lf ∷ [])

append-AreLines :
    (rs ss : List (List ℕ)) → All IsReplyLine rs → All IsReplyLine ss → All IsReplyLine (rs ++ ss)
append-AreLines [] ss v w = w
append-AreLines (r ∷ rs) ss v w = (v.0, append-AreLines rs ss v.1 w)

-- From the one history to the other, exactly this many replies were written, each one line.
abbrev pub Replied : ℕ → Trace → Trace → Type 0
Replied n before after =
    (rs : List (List ℕ)) × All IsReplyLine rs
    × (length rs ≡ n)
    × (replies after ≡ rs ++ replies before)

-- A client that sends these lines.
abbrev pub sends : List (List ℕ) → Bool → Stream
sends ls fails = record { bytes = unlines ls; fails = fails }

module _ (env : Env) (config : Config) (phase : StartupPhase) (started_at : ℕ) where
  -- serde_json prints an object on one line: it escapes control characters in texts.
  abbrev pub PrintsLines : Type 0
  PrintsLines = (o : Object) (b : List ℕ) → env.print o ≡ some b → feeds b ≡ 0

  framed-IsReplyLine : PrintsLines → (o : Object) → IsReplyLine (framed env o)
  framed-IsReplyLine one_line o = go (env.print o) refl
    where
      go : (p : Option (List ℕ)) → env.print o ≡ p → IsReplyLine (printed p ++ lf ∷ [])
      go none e = ends unprintable (unfold feeds in refl)
      go (some b) e = ends b (one_line o b e)

  abbrev pub Writes : Type 0
  Writes = (b : List ℕ) (u : Trace) → env.reply_at b u ≡ true

  -- What a line that is not empty leads to: one reply, of one line, and the loop goes on.
  abbrev IsAnswered : (Managers × Bool) × Trace → Trace → Type 0
  IsAnswered (step, t') t =
      (step.1 ≡ true) × ((b : List ℕ) × IsReplyLine b × (replies t' ≡ b ∷ replies t))

  handle_line-IsAnswered :
      (l : List ℕ) (m : Managers) (t : Trace)
      → PrintsLines
      → Writes
      → IsAnswered (handle_line env config phase started_at l m t) t
  unfolding handle_line write_response
  handle_line-IsAnswered l m t one_line writes = elim (Result-cases (env.parse_request l)) [
    | inl (req, e) ↦
        let (answer, t') = handle_request env config phase started_at req m t in
        rw (e, handle_line)
          (
            writes (framed env answer.1) t',
            (
              framed env answer.1,
              framed-IsReplyLine one_line answer.1,
              unfold replies in
                  ap (◌∷◌ (framed env answer.1))
                    (handle_request-replies env config phase started_at req m t),
            ),
          )
    | inr (why, e) ↦
        rw (e, handle_line)
          (
            refl,
            (
              framed env (failure why),
              framed-IsReplyLine one_line (failure why),
              unfold replies in refl,
            ),
          )
  ]

  handle_text-IsAnswered :
      (l : List ℕ) (m : Managers) (t : Trace)
      → PrintsLines
      → Writes
      → 0 < length l
      → IsAnswered (handle_text env config phase started_at l m t) t
  unfolding handle_text
  handle_text-IsAnswered [] m t one_line writes some_byte = absurd (omega arith)
  handle_text-IsAnswered (c ∷ l) m t one_line writes some_byte =
      handle_line-IsAnswered (c ∷ l) m t one_line writes

  serve_nothing :
      (fuel : ℕ) (fails : Bool) (m : Managers) (t : Trace)
      → (serve env config phase started_at (suc fuel) (sends [] fails) m t).1 ≡ t
  unfolding serve read_line take_line
  serve_nothing fuel true m t = refl
  serve_nothing fuel false m t = refl

  serve_one :
      (fuel : ℕ) (l : List ℕ) (ls : List (List ℕ)) (fails : Bool) (m : Managers) (t : Trace)
      → IsRequest l
      → let (step, t') = handle_text env config phase started_at l m t in
        step.1 ≡ true
        → serve env config phase started_at (suc fuel) (sends (l ∷ ls) fails) m t
          ≡ serve env config phase started_at fuel (sends ls fails) step.0 t'
  unfolding serve
  serve_one fuel l ls fails m t v goes_on =
      rw (read_line-eq l (unlines ls) fails v, trim_line-clean l v.clean, goes_on, serve)
        (cc (read_line-eq l (unlines ls) fails v, trim_line-clean l v.clean))

  serve-replies :
      (fuel : ℕ) (ls : List (List ℕ)) (fails : Bool) (m : Managers) (t : Trace)
      → PrintsLines
      → Writes
      → All IsRequest ls
      → length (unlines ls) < fuel
      → Replied (length ls) t (serve env config phase started_at fuel (sends ls fails) m t).1
  unfolding serve
  serve-replies zero ls fails m t one_line writes v fits = absurd (omega arith)
  serve-replies (suc fuel) [] fails m t one_line writes v fits =
      ([], tt, refl, ap replies (serve_nothing fuel fails m t))
  serve-replies (suc fuel) (l ∷ ls) fails m t one_line writes v fits =
      let (step, t') = handle_text env config phase started_at l m t in
      let (goes_on, (b, one, written)) = handle_text-IsAnswered l m t one_line writes v.0.filled in
      let (rs, lines, count, all) =
        serve-replies fuel ls fails step.0 t' one_line writes v.1
          (omega (arith, fits, length-append l (lf ∷ unlines ls))) in
      (
        rs ++ b ∷ [],
        append-AreLines rs (b ∷ []) lines (one, tt),
        omega (arith, count, length-append rs (b ∷ [])),
        ap (λ u. replies u.1) (serve_one fuel l ls fails m t v.0 goes_on)
            ∙ all
            ∙ ap (λ u. rs ++ u) written
            ∙ sym (append_assoc rs (b ∷ []) (replies t)),
      )

  -- A client that sends requests, each a line of its own, gets one reply for each of them, and each
  -- reply is one line: for requests that are not empty, are below 64 KiB, and are UTF-8 without
  -- carriage returns, if serde_json prints on one line and the writes succeed.
  pub reply_per_request :
      (ls : List (List ℕ)) (fails : Bool) (m : Managers) (t : Trace)
      → PrintsLines
      → Writes
      → All IsRequest ls
      → Replied (length ls) t (handle_client env config phase started_at (sends ls fails) m t).1
  unfolding handle_client
  reply_per_request ls fails m t one_line writes v =
      serve-replies (suc (length (unlines ls))) ls fails m t one_line writes v (omega arith)
