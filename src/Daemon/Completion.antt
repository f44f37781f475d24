-- ===== src/Daemon/Completion.antt =====
-- src/main.rs: from the start of the daemon to both managers being ready.
use teeproxyd.Base.{ℕ, ◌+◌, ◌≤◌, ◌≡◌, ◌∙◌, true, some, arith}
use teeproxyd.System.{Env, Trace, secs}
use teeproxyd.Config.{Config}
use teeproxyd.Vm
use teeproxyd.Vm.{VmState}
use teeproxyd.Ca.{CaState}
use teeproxyd.Startup.{vm_starting, complete, vsock_secs}
use teeproxyd.Startup.Phases.{IsTracked}
use teeproxyd.Startup.Completion.{
  Cooperates, launch_vm, pass_delay, meet_vsock, launch_ca, meet_port, next,
}
use teeproxyd.Daemon.Steps.{round-IsTracked}
use teeproxyd.Daemon.Reach.{IsFresh-IsTracked, boot-IsFresh}
use teeproxyd.Daemon.Quiet.{IsQuiet, IsCalm, IsReachable, LooksLike, polled, round-quiet}
use teeproxyd.Daemon.{Daemon, Wakeup, boot, round}

-- What holds between quiet rounds.
record IsSteady (config : Config) (d : Daemon) : Type 0 where
  pub tracked : IsTracked d.startup
  pub calm : IsCalm config d

module _ (env : Env) (config : Config) (started_at : ℕ) where
  abbrev pub after : Wakeup → Daemon → Trace → Daemon
  after w d t = (round env config started_at w d t).0.0

  after-IsSteady :
      (w : Wakeup) (d : Daemon) (t : Trace)
      → IsReachable env config
      → IsQuiet w
      → IsSteady config d
      → IsSteady config (after w d t)
  after-IsSteady w d t reached q v = record {
    tracked = round-IsTracked env config started_at w d t v.tracked;
    calm = (round-quiet env config started_at w d t reached q v.calm).2;
  }

  after-LooksLike :
      (w : Wakeup) (d : Daemon) (t : Trace)
      → IsReachable env config
      → IsQuiet w
      → IsSteady config d
      → LooksLike (after w d t).startup (next env config d.startup (polled env config d t))
  after-LooksLike w d t reached q v = (round-quiet env config started_at w d t reached q v.calm).1

  -- The daemon that `main` enters its loop with, if `auto_start` is set.
  boot-IsSteady :
      (t : Trace) (d : Daemon)
      → config.auto_start ≡ true
      → (boot env config t).0 ≡ some (d, started_at)
      → IsSteady config d × (d.phase ≡ vm_starting)
  boot-IsSteady t d auto e =
      let v = boot-IsFresh env config t (d, started_at) e in
      (
        record {
          tracked = IsFresh-IsTracked config d v;
          calm = record { empty = v.empty; port = v.port };
        },
        ground (arith, v.phase),
      )

  -- With `auto_start`, in a world that cooperates and whose CA answers its health probes, the daemon
  -- comes up by itself: five rounds after it has entered its loop, each without signals and clients,
  -- whatever happens to the history between them, the startup is Complete and both managers are
  -- Ready, provided that `poll` returns in the second round after the boot delay, and in the third
  -- by the deadline.
  pub boot_completes :
      (t₀ t₁ t₂ t₃ t₄ t₅ : Trace) (w₁ w₂ w₃ w₄ w₅ : Wakeup) (d : Daemon)
      → Cooperates env config
      → IsReachable env config
      → config.auto_start ≡ true
      → (boot env config t₀).0 ≡ some (d, started_at)
      → IsQuiet w₁
      → IsQuiet w₂
      → IsQuiet w₃
      → IsQuiet w₄
      → IsQuiet w₅
      → let d₁ = after w₁ d t₁ in
        let d₂ = after w₂ d₁ t₂ in
        let boot_start = env.now_at (Vm.start env config d.vm (polled env config d t₁)).1 in
        boot_start + secs config.vsock_probe_delay_secs ≤ env.now_at (polled env config d₁ t₂)
        → env.now_at (polled env config d₂ t₃) ≤ boot_start + secs (vsock_secs config)
        → let d₅ = after w₅ (after w₄ (after w₃ d₂ t₃) t₄) t₅ in
          (d₅.phase ≡ complete) × (d₅.vm.state ≡ VmState.ready) × (d₅.ca.state ≡ CaState.ready)
  boot_completes t₀ t₁ t₂ t₃ t₄ t₅ w₁ w₂ w₃ w₄ w₅ d c reached auto booted q₁ q₂ q₃ q₄ q₅ late soon =
      let (v, e) = boot-IsSteady t₀ d auto booted in
      let d₁ = after w₁ d t₁ in
      let d₂ = after w₂ d₁ t₂ in
      let d₃ = after w₃ d₂ t₃ in
      let d₄ = after w₄ d₃ t₄ in
      let v₁ = after-IsSteady w₁ d t₁ reached q₁ v in
      let v₂ = after-IsSteady w₂ d₁ t₂ reached q₂ v₁ in
      let v₃ = after-IsSteady w₃ d₂ t₃ reached q₃ v₂ in
      let v₄ = after-IsSteady w₄ d₃ t₄ reached q₄ v₃ in
      let l₁ = after-LooksLike w₁ d t₁ reached q₁ v in
      let l₂ = after-LooksLike w₂ d₁ t₂ reached q₂ v₁ in
      let l₃ = after-LooksLike w₃ d₂ t₃ reached q₃ v₂ in
      let l₄ = after-LooksLike w₄ d₃ t₄ reached q₄ v₃ in
      let l₅ = after-LooksLike w₅ d₄ t₅ reached q₅ v₄ in
      let launched = l₁.phase ∙ launch_vm env config d.startup _ c v.tracked e in
      let delayed = l₂.phase ∙ pass_delay env config d₁.startup _ _ _ v₁.tracked launched late in
      let (met, up) = meet_vsock env config d₂.startup _ _ _ c v₂.tracked delayed soon in
      let ((deadline, waiting), kept) =
        launch_ca env config d₃.startup (polled env config d₃ t₄) c v₃.tracked (l₃.phase ∙ met) in
      let (over, still, ready) =
        meet_port env config d₄.startup (polled env config d₄ t₅) deadline c v₄.tracked
          (l₄.phase ∙ waiting) in
      (l₅.phase ∙ over, l₅.vm ∙ still ∙ l₄.vm ∙ kept ∙ l₃.vm ∙ up, l₅.ca ∙ ready)
