-- ===== src/Life.antt =====
-- src/vm.rs and src/ca.rs: the life of a child as its manager may see it. Vm/Edges and
-- Ca/Edges have the operations of both managers as steps of it.
use teeproxyd.Base.{
  ℕ, ◌+◌, ◌%◌, ◌^◌, ◌≤◌, ◌<◌, ◌≡◌, ◌≢◌, Bool, true, false, Option, none, some, arith, Star,
  Star-keeps, is_some,
}

-- Of a child that is `launched` nothing has been heard: the VM is Booting, the CA Running.
pub data Stage : Type 0 where
  idle starting launched ready stopping error : Stage

pub record Life : Type 0 where
  pub stage : Stage
  pub child : Option ℕ
  pub crashes : ℕ
  pub since : Option ℕ

pub data LifeStep (l : Life) : Life → Type 0 where
  refused : LifeStep l (record l { stage = starting })
  launched_as : (pid : ℕ) → LifeStep l (record l { child = some pid; stage = launched })
  answered_at : (time : ℕ) → LifeStep l (record l { stage = ready; since = some time })
  died :
      (pid : ℕ)
      → l.child ≡ some pid
      → LifeStep l (record l {
        crashes = (l.crashes + 1) % 2 ^ 32;
        child = none;
        stage = idle;
        since = none;
      })
  given_up :
      5 ≤ l.crashes → l.child ≡ none → l.since ≡ none → LifeStep l (record l { stage = error })
  stopped : LifeStep l (record l { child = none; stage = idle; since = none })
  proved_stable : (since : ℕ) → l.since ≡ some since → LifeStep l (record l { crashes = 0 })

abbrev pub LifePath : Life → Life → Type 0
LifePath = Star LifeStep

-- Idle or Error
abbrev is_out : Stage → Bool
is_out idle = true
is_out error = true
is_out _ = false

abbrev is_launched : Stage → Bool
is_launched launched = true
is_launched _ = false

abbrev is_ready : Stage → Bool
is_ready ready = true
is_ready _ = false

abbrev is_error : Stage → Bool
is_error error = true
is_error _ = false

-- What the parts of a life say of one another.
pub record IsSound (l : Life) : Type 0 where
  -- Idle or in Error, it has no child and is not ready.
  pub down : is_out l.stage ≡ true → (l.child ≡ none) × (l.since ≡ none)
  pub held : is_launched l.stage ≡ true → is_some l.child ≡ true
  pub timed : is_ready l.stage ≡ true → is_some l.since ≡ true
  pub worn : is_error l.stage ≡ true → 5 ≤ l.crashes
  pub settled : l.stage ≢ stopping
  pub counted : l.crashes < 2 ^ 32

LifeStep-IsSound : (a b : Life) → LifeStep a b → IsSound a → IsSound b
LifeStep-IsSound a _ refused v = ground arith
LifeStep-IsSound a _ (launched_as pid) v = ground arith
LifeStep-IsSound a _ (answered_at time) v = ground arith
LifeStep-IsSound a _ (died pid h) v = ground arith
LifeStep-IsSound a _ (given_up spent gone unready) v = ground arith
LifeStep-IsSound a _ stopped v = ground arith
LifeStep-IsSound a _ (proved_stable since h) v = ground arith

pub LifePath-IsSound : {a b : Life} → LifePath a b → IsSound a → IsSound b
LifePath-IsSound p v = Star-keeps LifeStep IsSound LifeStep-IsSound p v

-- A child that has not been started.
abbrev pub unborn : Life
unborn = record { stage = idle; child = none; crashes = 0; since = none }

pub unborn-IsSound : IsSound unborn
unborn-IsSound = ground arith
