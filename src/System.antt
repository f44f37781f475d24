-- ===== src/System.antt =====
-- What the daemon asks of the operating system and of serde_json. Every call is answered by a
-- function of its arguments and of the history of all calls so far, so an `Env` is any environment;
-- a call that may change the world, or that takes time, is added to the history.
pub mod Disk
use teeproxyd.Base.{
  ◌≡◌, refl, ◌⊎◌, inl, inr, ℕ, ◌+◌, ◌*◌, ◌≤◌, String, Bool, true, false, Option, List, ◌∷◌, ◌<>◌,
  file_stem, is_utf8, if◌then◌else◌,
}

-- `PathBuf`, as the source builds it: `PathBuf::from` and `join`.
pub data PathBuf : Type 0 where
  from : String → PathBuf
  join : PathBuf → String → PathBuf

-- `display()` and `to_string_lossy()`
unfoldable pub display : PathBuf → String
display (from s) = s
display (join dir name) = display dir <> "/" <> name

-- `Path::with_extension`, for paths that end in one name.
unfoldable pub with_extension : PathBuf → String → PathBuf
with_extension (from s) ext = from (file_stem s <> "." <> ext)
with_extension (join dir name) ext = join dir (file_stem name <> "." <> ext)

-- `Result<T, String>`; an `io::Error` is the text that it prints as.
pub data Result {ℓ} (A : Type ℓ) : Type ℓ where
  ok : A → Result A
  err : String → Result A

abbrev pub is_ok {ℓ} : {A : Type ℓ} → Result A → Bool
is_ok (ok a) = true
is_ok (err e) = false

pub Result-cases {ℓ} :
    {A : Type ℓ} (r : Result A) → ((a : A) × (r ≡ ok a)) ⊎ ((e : String) × (r ≡ err e))
Result-cases (ok a) = inl (a, refl)
Result-cases (err e) = inr (e, refl)

pub data Signal : Type 0 where
  sigterm sigkill : Signal

-- The signals that the daemon asks for.
pub data OsSignal : Type 0 where
  sig_term sig_int sig_chld : OsSignal

-- `std::process::Command` with what the source sets on it.
pub record Command : Type 0 where
  pub program : String
  pub args : List String
  pub envs : List (String × String)
  pub current_dir : Option PathBuf
  pub output : Option PathBuf  -- the file behind stdout and stderr

-- How `TcpStream::connect_timeout` ends.
pub data Connect : Type 0 where
  connected refused timed_out other_error : Connect

pub data Event : Type 0 where
  clock : Event  -- Instant::now, elapsed
  exists : PathBuf → Event  -- Path::exists
  metadata : PathBuf → Event  -- fs::metadata
  open_append : PathBuf → Event
  try_clone : PathBuf → Event
  rename : PathBuf → PathBuf → Event
  read_file : PathBuf → Event  -- fs::read_to_string
  spawn : Command → Event
  status : Command → Event  -- Command::status, Command::output
  kill : ℕ → Option Signal → Event
  sleep : ℕ → Event  -- milliseconds
  connect : ℕ → ℕ → Event  -- a port of 127.0.0.1 and a timeout in seconds
  exchange : List ℕ → Event  -- a request written to the connection, and a read of the answer
  reply : List ℕ → Event  -- bytes written to the IPC client
  poll : ℕ → Event  -- the wait of the main loop, with its timeout in milliseconds
  create_dir : PathBuf → Event  -- fs::create_dir_all
  remove_file : PathBuf → Event
  bind : PathBuf → Event  -- UnixListener::bind
  make_pipe : Event  -- pipe(2)
  set_handler : OsSignal → Event  -- sigaction(2)

-- The newest event first.
abbrev pub Trace : Type 0
Trace = List Event

-- Nanoseconds.
abbrev pub secs : ℕ → ℕ
secs n = n * 1000000000

abbrev pub millis : ℕ → ℕ
millis n = n * 1000000

-- A value of a response, as `json!` builds it.
pub data Scalar : Type 0 where
  bool : Bool → Scalar
  text : String → Scalar
  bytes : List ℕ → Scalar
  num : ℕ → Scalar

abbrev pub Object : Type 0
Object = List (String × Scalar)

-- A parsed request, by the members that the handlers read: `["cmd"].as_str()`,
-- `["source"].as_str()` and `["lines"].as_u64()`.
pub record Request : Type 0 where
  pub cmd : Option String
  pub source : Option String
  pub lines : Option ℕ

-- The members of a configuration file that serde finds; a `none` takes the field's default.
pub record RawConfig : Type 0 where
  pub image_dir : Option String
  pub vm_cpus : Option ℕ
  pub vm_mem_mb : Option ℕ
  pub vsock_cid : Option ℕ
  pub ca_binary : Option String
  pub ca_port : Option ℕ
  pub ca_admin_token : Option String
  pub ca_log_level : Option String
  pub data_dir : Option String
  pub log_dir : Option String
  pub auto_start : Option Bool
  pub health_interval_secs : Option ℕ
  pub health_fail_threshold : Option ℕ
  pub vm_boot_timeout_secs : Option ℕ
  pub vsock_probe_delay_secs : Option ℕ
  pub ca_ready_timeout_secs : Option ℕ
  pub shutdown_grace_secs : Option ℕ

pub record Env : Type 0 where
  pub now_at : Trace → ℕ
  pub exists_at : PathBuf → Trace → Bool
  pub len_at : PathBuf → Trace → Result ℕ
  pub open_at : PathBuf → Trace → Result (Unit {0})
  pub clone_at : PathBuf → Trace → Result (Unit {0})
  pub bytes_at : PathBuf → Trace → Result (List ℕ)
  pub pid_at : Command → Trace → Result ℕ
  pub success_at : Command → Trace → Bool
  pub kill_at : ℕ → Option Signal → Trace → Bool
  pub connect_at : ℕ → ℕ → Trace → Connect
  pub reply_at : List ℕ → Trace → Bool
  pub bind_at : PathBuf → Trace → Bool
  pub pipe_at : Trace → Option ℕ  -- the descriptor of the end to write
  pub sigaction_at : OsSignal → Trace → Bool
  pub var : String → Option String  -- std::env::var
  -- serde_json: a request, a configuration and the print of a response
  pub parse_request : List ℕ → Result Request
  pub parse_config : List ℕ → Result RawConfig
  pub print : Object → Option (List ℕ)
  -- the `Debug` prints of an `Instant` and of a text
  pub debug_instant : ℕ → String
  pub debug_str : String → String

-- `Instant` is monotonic, and `thread::sleep` sleeps at least as long as it is told.
pub record IsClock (env : Env) : Type 0 where
  pub monotone : (e : Event) (t : Trace) → env.now_at t ≤ env.now_at (e ∷ t)
  pub sleeps : (ms : ℕ) (t : Trace) → env.now_at t + millis ms ≤ env.now_at (sleep ms ∷ t)

-- An action: it reads the history and adds to it.
abbrev pub M : Type 0 → Type 0
M A = Trace → A × Trace

abbrev pub pure : {A : Type 0} → A → M A
pure a t = (a, t)

infixl 5 ◌>>=◌ ◌>>◌
abbrev pub ◌>>=◌ : {A B : Type 0} → M A → (A → M B) → M B
◌>>=◌ m f t = let (a, t') = m t in f a t'

abbrev pub ◌>>◌ : {A B : Type 0} → M A → M B → M B
m >> k = m >>= λ _. k

-- `map_err` and `?`: the rest runs on success only.
abbrev pub on_ok : {A B : Type 0} → (String → String) → Result A → (A → M (Result B)) → M (Result B)
on_ok f (ok a) k = k a
on_ok f (err e) k = pure (err (f e))

module _ (env : Env) where
  abbrev pub now : M ℕ
  now t = (env.now_at t, clock ∷ t)

  abbrev pub path_exists : PathBuf → M Bool
  path_exists p t = (env.exists_at p t, exists p ∷ t)

  abbrev pub file_len : PathBuf → M (Result ℕ)
  file_len p t = (env.len_at p t, metadata p ∷ t)

  abbrev pub open_file : PathBuf → M (Result (Unit {0}))
  open_file p t = (env.open_at p t, open_append p ∷ t)

  abbrev pub clone_file : PathBuf → M (Result (Unit {0}))
  clone_file p t = (env.clone_at p t, try_clone p ∷ t)

  abbrev pub file_bytes : PathBuf → M (Result (List ℕ))
  file_bytes p t = (env.bytes_at p t, read_file p ∷ t)

  abbrev pub run_spawn : Command → M (Result ℕ)
  run_spawn c t = (env.pid_at c t, spawn c ∷ t)

  abbrev pub run_status : Command → M Bool
  run_status c t = (env.success_at c t, status c ∷ t)

  abbrev pub send_signal : ℕ → Option Signal → M Bool
  send_signal pid s t = (env.kill_at pid s t, kill pid s ∷ t)

  abbrev pub connect_to : ℕ → ℕ → M Connect
  connect_to port timeout t = (env.connect_at port timeout t, connect port timeout ∷ t)

  abbrev pub bind_listener : PathBuf → M Bool
  bind_listener p t = (env.bind_at p t, bind p ∷ t)

  abbrev pub open_pipe : M (Option ℕ)
  open_pipe t = (env.pipe_at t, make_pipe ∷ t)

  abbrev pub sigaction : OsSignal → M Bool
  sigaction sig t = (env.sigaction_at sig t, set_handler sig ∷ t)

  abbrev pub write_reply : List ℕ → M Bool
  write_reply b t = (env.reply_at b t, reply b ∷ t)

-- Calls whose result the source drops.
abbrev pub rename_file : PathBuf → PathBuf → M (Unit {0})
rename_file p q t = (tt, rename p q ∷ t)

abbrev pub thread_sleep : ℕ → M (Unit {0})
thread_sleep ms t = (tt, sleep ms ∷ t)

abbrev pub poll_for : ℕ → M (Unit {0})
poll_for ms t = (tt, poll ms ∷ t)

abbrev pub make_dir : PathBuf → M (Unit {0})
make_dir p t = (tt, create_dir p ∷ t)

abbrev pub unlink : PathBuf → M (Unit {0})
unlink p t = (tt, remove_file p ∷ t)

abbrev pub exchange_bytes : List ℕ → M (Unit {0})
exchange_bytes b t = (tt, exchange b ∷ t)

-- `fs::read_to_string`: the bytes of the file, if they are UTF-8.
abbrev pub utf8_text : Result (List ℕ) → Result (List ℕ)
utf8_text (err e) = err e
utf8_text (ok b) = if is_utf8 b then ok b else err "stream did not contain valid UTF-8"

abbrev pub file_text : Env → PathBuf → M (Result (List ℕ))
file_text env p = do content ← file_bytes env p; pure (utf8_text content)
