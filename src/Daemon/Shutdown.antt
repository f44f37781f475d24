-- ===== src/Daemon/Shutdown.antt =====
-- src/main.rs: a shutdown signal reaches the loop, and what the loop leaves behind.
use teeproxyd.Base.{
  ℤ, pos, sym, ℕ, ◌+◌, ◌<◌, ◌≡◌, refl, ap, ◌∙◌, List, [], ◌∷◌, ◌++◌, Bool, true, false, Option,
  none, some, arith, length, take, contains, Bool-cases, inl, inr,
}
use teeproxyd.System.{OsSignal, Env, Trace}
use teeproxyd.Config.{Config}
use teeproxyd.Vm
use teeproxyd.Vm.{VmState}
use teeproxyd.Ca
use teeproxyd.Ca.{CaState}
use teeproxyd.Daemon.Signals.{deliver, term_byte, signal_byte}
use teeproxyd.Daemon.Children.{WaitStatus}
use teeproxyd.Ipc.Reader.{Stream}
use teeproxyd.Daemon.Pipe.{delivered, deliver-contains}
use teeproxyd.Daemon.Waking.{waking}
use teeproxyd.Daemon.Reach.{Reach, booted, next, boot-IsFresh}
use teeproxyd.Daemon.{
  Daemon, Wakeup, round, run, shut_down, unless_term, buf_len, rest_of_round, accept_client,
  check_health, reset_counts, reap, read_pipe,
}

module _ (env : Env) (config : Config) (started_at : ℕ) where
  unless_term-stops :
      (b : Bool) (client : Option Stream) (d : Daemon) (t : Trace)
      → b ≡ true
      → (unless_term env config b started_at client d t).0.1 ≡ false
  unfolding unless_term
  unless_term-stops true client d t h = refl
  unless_term-stops false client d t h = cc

  -- A shutdown byte that stands far enough ahead in the pipe ends the round that reads it.
  round-stops :
      (w : Wakeup) (d : Daemon) (t : Trace)
      → w.pipe_ready ≡ true
      → contains term_byte (take buf_len (deliver d.sig_pipe_fd w.signals d.pipe)) ≡ true
      → (round env config started_at w d t).0.1 ≡ false
  unfolding round
  round-stops w d t ready h =
      let (woken, t₁) = waking env config started_at w d t in
      unless_term-stops _ w.client woken t₁ (rw ready h)

  -- Both ends of the self-pipe.
  abbrev ends : Daemon → ℤ × List ℕ
  ends d = (d.sig_pipe_fd, d.pipe)

  -- What follows the read leaves the signals in the pipe.
  rest_of_round-ends :
      (client : Option Stream) (d : Daemon) (t : Trace)
      → ends (rest_of_round env config started_at client d t).0 ≡ ends d
  unfolding rest_of_round accept_client check_health reset_counts
  rest_of_round-ends none d t = ground arith
  rest_of_round-ends (some stream) d t = ground arith

  unless_term-ends :
      (got_term : Bool) (client : Option Stream) (d : Daemon) (t : Trace)
      → ends (unless_term env config got_term started_at client d t).0.0 ≡ ends d
  unfolding unless_term
  unless_term-ends true client d t = refl
  unless_term-ends false client d t = rest_of_round-ends client d t

  reap-ends :
      (got_chld : Bool) (statuses : List WaitStatus) (d : Daemon) (t : Trace)
      → ends (reap env config got_chld statuses d t).0 ≡ ends d
  unfolding reap
  reap-ends false statuses d t = refl
  reap-ends true statuses d t = refl

  round-ends :
      (w : Wakeup) (d : Daemon) (t : Trace)
      → ends (round env config started_at w d t).0.0
        ≡ (d.sig_pipe_fd, (read_pipe w.pipe_ready (deliver d.sig_pipe_fd w.signals d.pipe)).1)
  unfolding round
  round-ends w d t =
      let (woken, t₁) = waking env config started_at w d t in
      unless_term-ends _ w.client woken t₁ ∙ reap-ends _ w.statuses _ _

  round-fd :
      (w : Wakeup) (d : Daemon) (t : Trace)
      → (round env config started_at w d t).0.0.sig_pipe_fd ≡ d.sig_pipe_fd
  round-fd w d t = ap (λ (p : ℤ × List ℕ). p.0) (round-ends w d t)

  round-pipe :
      (w : Wakeup) (d : Daemon) (t : Trace)
      → w.pipe_ready ≡ false
      → (round env config started_at w d t).0.0.pipe ≡ deliver d.sig_pipe_fd w.signals d.pipe
  round-pipe w d t unready =
      ap (λ (p : ℤ × List ℕ). p.1) (round-ends w d t)
      ∙ ap (λ b. (read_pipe b (deliver d.sig_pipe_fd w.signals d.pipe)).1) unready

  run-stops :
      (w : Wakeup) (ws : List Wakeup) (d : Daemon) (t : Trace)
      → (round env config started_at w d t).0.1 ≡ false
      → (run env config started_at (w ∷ ws) d t).0.1 ≡ false
  unfolding run
  run-stops w ws d t h = ground arith

  run-later :
      (w : Wakeup) (ws : List Wakeup) (d : Daemon) (t : Trace)
      → let (step, t') = round env config started_at w d t in
        (run env config started_at ws step.0 t').0.1 ≡ false
        → (run env config started_at (w ∷ ws) d t).0.1 ≡ false
  unfolding run
  run-later w ws d t h = ground arith

  -- In every reachable state the handler has a pipe to write to.
  Reach-opened : {d : Daemon} → Reach env config started_at d → (fd : ℕ) × (d.sig_pipe_fd ≡ pos fd)
  Reach-opened (booted t d e) =
      let v = boot-IsFresh env config t (d, started_at) e in (v.fd, v.opened)
  Reach-opened (next {d} r w t d' e) =
      let (fd, opened) = Reach-opened r in
      (fd, sym (ap (λ (p : Daemon × Bool). p.0.sig_pipe_fd) e) ∙ round-fd w d t ∙ opened)

  -- In a reachable state, a SIGTERM or SIGINT that arrives with fewer than 64 signals ahead of it,
  -- pending or new, ends the main loop in this round or in the next one, if `poll` reports the pipe
  -- then, whatever else happens: also if the signal has interrupted `poll`, so that this round does
  -- not read the pipe.
  pub signal_stops_the_loop :
      (before after : List OsSignal) (sig : OsSignal) (w w₂ : Wakeup) (ws : List Wakeup)
      (d : Daemon) (t : Trace)
      → Reach env config started_at d
      → w.signals ≡ before ++ sig ∷ after
      → signal_byte sig ≡ term_byte
      → length d.pipe + length before < 64
      → w₂.pipe_ready ≡ true
      → (run env config started_at (w ∷ w₂ ∷ ws) d t).0.1 ≡ false
  signal_stops_the_loop before after sig w w₂ ws d t r e is_term h ready₂ =
      let (fd, opened) = Reach-opened r in
      let pipe₁ : List ℕ = deliver (pos fd) w.signals d.pipe in
      let ahead : contains term_byte (take buf_len pipe₁) ≡ true =
        rw e (rw is_term at (delivered fd before after sig d.pipe h)) in
      elim (Bool-cases w.pipe_ready) [
        | inl ready ↦ run-stops w (w₂ ∷ ws) d t (round-stops w d t ready (rw opened ahead))
        | inr unready ↦
            let (step, t') = round env config started_at w d t in
            run-later w (w₂ ∷ ws) d t (
              run-stops w₂ ws step.0 t' (
                round-stops w₂ step.0 t' ready₂ (
                  rw (round-pipe w d t unready, round-fd w d t, opened)
                    (deliver-contains fd buf_len term_byte w₂.signals pipe₁ ahead))))
      ]

  shut_down-idle :
      (d : Daemon) (t : Trace)
      → let d' = (shut_down env config d t).0 in
        ((d'.vm.state ≡ VmState.idle) × (d'.vm.child_pid ≡ none))
        × ((d'.ca.state ≡ CaState.idle) × (d'.ca.child_pid ≡ none))
  unfolding shut_down Vm.stop Ca.stop
  shut_down-idle d t = ((refl, refl), (refl, refl))

  -- When the main loop has ended, on whatever history, both managers are Idle and hold no child.
  pub stopped_is_idle :
      (ws : List Wakeup) (d : Daemon) (t : Trace)
      → (run env config started_at ws d t).0.1 ≡ false
      → let d' = (run env config started_at ws d t).0.0 in
        ((d'.vm.state ≡ VmState.idle) × (d'.vm.child_pid ≡ none))
        × ((d'.ca.state ≡ CaState.idle) × (d'.ca.child_pid ≡ none))
  unfolding run
  stopped_is_idle [] d t h = cc
  stopped_is_idle (w ∷ ws) d t h =
      let (step, t') = round env config started_at w d t in
      ground (arith, shut_down-idle step.0 t', stopped_is_idle ws step.0 t')
