-- ===== src/Daemon/Soundness.antt =====
-- src/main.rs: what the fields of the two managers say of one another between two rounds.
use teeproxyd.Base.{ℕ, ap, Bool}
use teeproxyd.System.{Env}
use teeproxyd.Config.{Config}
use teeproxyd.Life.{IsSound, LifePath-IsSound}
use teeproxyd.Vm
use teeproxyd.Vm.Edges.{vm_life}
use teeproxyd.Ca
use teeproxyd.Ca.Edges.{ca_life}
use teeproxyd.Ipc.Handlers.{Managers}
use teeproxyd.Acts.Lives.{Moves, Acts-Moves}
use teeproxyd.Startup.Acts.{managers}
use teeproxyd.Daemon.{Daemon}
use teeproxyd.Daemon.Reach.{IsFresh, Reach, booted, next, boot-IsFresh}
use teeproxyd.Daemon.Acts.{round-Goes}

pub record AreSound (m : Managers) : Type 0 where
  pub vm : IsSound (vm_life m.vm)
  pub ca : IsSound (ca_life m.ca)

pub Moves-AreSound : {m m' : Managers} → Moves m m' → AreSound m → AreSound m'
Moves-AreSound p v = record { vm = LifePath-IsSound p.vm v.vm; ca = LifePath-IsSound p.ca v.ca }

pub IsFresh-AreSound :
    (config : Config) (d : Daemon) → IsFresh config d → AreSound (managers d.startup)
IsFresh-AreSound config d v = record {
  vm = rw v.vm Vm.Edges.new-IsSound;
  ca = rw v.ca Ca.Edges.new-IsSound;
}

module _ (env : Env) (config : Config) (started_at : ℕ) where
  -- In every reachable state, of each manager: if it is Idle or in Error, it has no child and no
  -- time of readiness; if it is Booting or Running, it has a child; if it is Ready, it has a time of
  -- readiness; if it is in Error, it has crashed five times; it is never left in Stopping; and its
  -- crash count is a u32.
  pub Reach-AreSound : (d : Daemon) → Reach env config started_at d → AreSound (managers d.startup)
  Reach-AreSound d (booted t _ e) =
      IsFresh-AreSound config d (boot-IsFresh env config t (d, started_at) e)
  Reach-AreSound after (next {d} r w t _ e) = rw (ap (λ (p : Daemon × Bool). p.0) e) at (
      Moves-AreSound (Acts-Moves env config (round-Goes env config started_at w d t))
        (Reach-AreSound d r))
