-- ===== src/Examples/World.antt =====
-- Environments to run the daemon in: a clock that counts calls and sleeps, files that are all there,
-- spawns that succeed, and processes that answer as told.
use teeproxyd.Base.{ℕ, ◌+◌, ◌≤◌, Bool, true, none, some, [], ◌∷◌, String, arith, codes}
use teeproxyd.System.{
  Env, Trace, Event, IsClock, sleep, millis, ok, Connect, connected, Request, clock,
}
use teeproxyd.Config.Load.{empty}

abbrev pub ticks : Trace → ℕ
ticks [] = 0
ticks (sleep ms ∷ t) = ticks t + millis ms
ticks (_ ∷ t) = ticks t + 1

ticks-monotone : (e : Event) (t : Trace) → ticks t ≤ ticks (e ∷ t)
ticks-monotone clock t = omega arith
ticks-monotone _ t = omega arith

-- A request of the command `cmd`, whatever the bytes.
abbrev pub asks : String → Request
asks cmd = record { cmd = some cmd; source = none; lines = none }

-- `alive` says which processes answer, and `outcome` how connections end.
abbrev pub world : (ℕ → Trace → Bool) → Connect → String → Env
world alive outcome cmd = record {
  now_at = ticks;
  exists_at = λ p t. true;
  len_at = λ p t. ok 2000000;
  open_at = λ p t. ok tt;
  clone_at = λ p t. ok tt;
  bytes_at = λ p t. ok [];
  pid_at = λ c t. ok 7;
  success_at = λ c t. true;
  kill_at = λ pid s t. alive pid t;
  connect_at = λ port timeout t. outcome;
  reply_at = λ b t. true;
  bind_at = λ p t. true;
  pipe_at = λ t. some 4;
  sigaction_at = λ sig t. true;
  var = λ name. none;
  parse_request = λ b. ok (asks cmd);
  parse_config = λ b. ok empty;
  print = λ o. some (codes "{}");
  debug_instant = λ n. "Instant";
  debug_str = λ s. s;
}

pub world-IsClock :
    (alive : ℕ → Trace → Bool) (outcome : Connect) (cmd : String)
    → IsClock (world alive outcome cmd)
world-IsClock alive outcome cmd = record { monotone = ticks-monotone; sleeps = λ ms t. omega arith }

-- Every process answers, connections are made, and clients ask for the status.
abbrev pub calm : Env
calm = world (λ pid t. true) connected "status"

pub calm-IsClock : IsClock calm
calm-IsClock = world-IsClock (λ pid t. true) connected "status"
