-- ===== src/Ipc/Status.antt =====
-- src/ipc.rs: what the answer to `status` says of the managers.
use mathlib.Core.Quot
use mathlib.Core.Quot.{Quot}
use teeproxyd.Base.{
  ℕ, ◌≡◌, refl, ap, sym, ◌∙◌, ◌↔◌, String, Option, none, some, [], ◌∷◌, str_eq, if◌then◌else◌,
}
use teeproxyd.System.{Env, Trace, text, Object}
use teeproxyd.Config.{Config}
use teeproxyd.Vm.{VmState}
use teeproxyd.Ca.{CaState}
use teeproxyd.Startup.{StartupPhase}
use teeproxyd.Ipc.Handlers.{Managers, handle_status, vm_state_name, ca_state_name}

-- How a client reads the name of a state.
abbrev pub vm_state_of : String → Option VmState
vm_state_of s =
    if str_eq s "idle"
    then some VmState.idle
    else if str_eq s "starting"
    then some VmState.starting
    else if str_eq s "booting"
    then some VmState.booting
    else if str_eq s "ready"
    then some VmState.ready
    else if str_eq s "stopping"
    then some VmState.stopping
    else if str_eq s "error"
    then some VmState.error
    else none

abbrev pub ca_state_of : String → Option CaState
ca_state_of s =
    if str_eq s "idle"
    then some CaState.idle
    else if str_eq s "starting"
    then some CaState.starting
    else if str_eq s "running"
    then some CaState.running
    else if str_eq s "ready"
    then some CaState.ready
    else if str_eq s "stopping"
    then some CaState.stopping
    else if str_eq s "error"
    then some CaState.error
    else none

vm_state_of-name : (s : VmState) → vm_state_of (vm_state_name s) ≡ some s
vm_state_of-name VmState.idle = refl
vm_state_of-name VmState.starting = refl
vm_state_of-name VmState.booting = refl
vm_state_of-name VmState.ready = refl
vm_state_of-name VmState.stopping = refl
vm_state_of-name VmState.error = refl

ca_state_of-name : (s : CaState) → ca_state_of (ca_state_name s) ≡ some s
ca_state_of-name CaState.idle = refl
ca_state_of-name CaState.starting = refl
ca_state_of-name CaState.running = refl
ca_state_of-name CaState.ready = refl
ca_state_of-name CaState.stopping = refl
ca_state_of-name CaState.error = refl

-- The text of a member.
abbrev pub text_at : String → Object → Option String
text_at key [] = none
text_at key ((name, text s) ∷ rest) = if str_eq name key then some s else text_at key rest
text_at key ((name, _) ∷ rest) = if str_eq name key then none else text_at key rest

abbrev pub read_vm : Object → Option VmState
read_vm answer = elim (text_at "vm" answer) [ none ↦ none | some s ↦ vm_state_of s ]

abbrev pub read_ca : Object → Option CaState
read_ca answer = elim (text_at "ca" answer) [ none ↦ none | some s ↦ ca_state_of s ]

module _ (env : Env) (config : Config) (phase : StartupPhase) (started_at : ℕ) where
  -- A client that reads the names of the states gets the states of both managers.
  pub status_is_readable :
      (m : Managers) (t : Trace)
      → let answer = (handle_status env config phase started_at m t).0 in
        (read_vm answer ≡ some m.vm.state) × (read_ca answer ≡ some m.ca.state)
  unfolding handle_status
  status_is_readable m t = (vm_state_of-name m.vm.state, ca_state_of-name m.ca.state)

-- Two pairs of managers look alike if each manager is in the same state in both.
abbrev pub LookAlike : Managers → Managers → Type 0
LookAlike m m' = (m.vm.state ≡ m'.vm.state) × (m.ca.state ≡ m'.ca.state)

-- What can be seen of the managers.
abbrev pub View : Type 0
View = Quot LookAlike

abbrev pub view : Managers → View
view m = Quot.mk m

VmState-set : IsSet VmState
VmState-set = hlevel

CaState-set : IsSet CaState
CaState-set = hlevel

seen_vm : View → VmState
seen_vm = Quot.lift VmState-set (λ m. m.vm.state) (λ m m' h. h.0)

seen_ca : View → CaState
seen_ca = Quot.lift CaState-set (λ m. m.ca.state) (λ m m' h. h.1)

view-LookAlike : (m m' : Managers) → view m ≡ view m' → LookAlike m m'
unfolding seen_vm seen_ca
view-LookAlike m m' e = (ap seen_vm e, ap seen_ca e)

some-injective {ℓ} : {A : Type ℓ} (a b : A) → some a ≡ some b → a ≡ b
some-injective a b e = cc

module _ (env : Env) (config : Config) (phase : StartupPhase) (started_at : ℕ) where
  -- The answer to `status` shows the states of the managers, and nothing else of them: at the same
  -- time and in the same phase, two pairs of managers get the same answer exactly if they have the
  -- same view, where a view is managers up to what is not their states.
  pub status_shows_view :
      (m m' : Managers) (t : Trace)
      → let answer = λ (n : Managers). (handle_status env config phase started_at n t).0 in
        (answer m ≡ answer m') ↔ (view m ≡ view m')
  status_shows_view m m' t =
      let answer = λ (n : Managers). (handle_status env config phase started_at n t).0 in
      let read = status_is_readable env config phase started_at m t in
      let read' = status_is_readable env config phase started_at m' t in
      (
        λ e. Quot.sound (
          some-injective m.vm.state m'.vm.state (sym read.0 ∙ ap read_vm e ∙ read'.0),
          some-injective m.ca.state m'.ca.state (sym read.1 ∙ ap read_ca e ∙ read'.1),
        ),
        λ e. let same = view-LookAlike m m' e in unfold handle_status in cc,
      )
