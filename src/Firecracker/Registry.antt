-- ===== src/Firecracker/Registry.antt =====
-- The manager's map of VMs against an abstract registry of phases, over any sequence of calls.
pub mod Moves
pub mod Invariant
pub mod Devices
pub mod Processes
pub mod Ownership
pub mod Start
pub mod Restart
use firecracker_agent.Base.{
  Bytes, Bool, true, false, ◌&&◌, ◌≡◌, ◌⊎◌, inl, inr, refl, List, [], ◌∷◌, Option, none, some,
  Result, ok, err, arith, ◌==◌, Option-cases, if◌then◌else◌,
}
use firecracker_agent.Base.Dict.{
  Dict, lookup, insert, erase, lookup-insert, lookup-erase, NodupKeys, insert-NodupKeys,
  erase-NodupKeys,
}
use firecracker_agent.Host.{Host, History}
use firecracker_agent.Network.Taps.{is_ok}
use firecracker_agent.Firecracker.State.{
  VmState, unspecified, creating, running, stopping, stopped, deleting, error, VmInfo, Vm,
  CreateVmRequest, Manager, State,
}
use firecracker_agent.Firecracker.Create.{Build, Resources, new_vm, build_vm, commit, create_vm}
use firecracker_agent.Firecracker.Manager.{
  start_vm, stop_vm, delete_vm, get_vm, list_vms, mark_stopped,
}

-- A call of the `VMManager` interface.
pub data Call : Type 0 where
  create : CreateVmRequest → Call
  start : Bytes → Call
  stop : Bytes → Bool → Call
  delete : Bytes → Call
  get : Bytes → Call
  list : Call

-- Whether the call gave no error, and the state after it.
unfoldable pub perform : Host → Manager → Call → State → Bool × State
perform host m (create req) s = let (r, s') = create_vm host m req s in (is_ok r, s')
perform host m (start i) s = let (r, s') = start_vm host i s in (is_ok r, s')
perform host m (stop i force) s = let (r, s') = stop_vm host i force s in (is_ok r, s')
perform host m (delete i) s = let (r, s') = delete_vm host m i s in (is_ok r, s')
perform host m (get i) s = let (r, s') = get_vm host i s in (is_ok r, s')
perform host m list s = (true, (list_vms host s).1)

unfoldable pub perform_all : Host → Manager → List Call → State → State
perform_all host m [] s = s
perform_all host m (c ∷ cs) s = perform_all host m cs (perform host m c s).1

-- What the registry promises of one id: the stored state, if the VM is known.
unfoldable pub phase : State → Bytes → Option VmState
phase s i = elim (lookup i s.vms) [ none ↦ none | some vm ↦ some vm.info.state ]

-- The abstract effect of a call that gave no error (`done`), or gave one, on the phase of `j`.
unfoldable pub moves : Call → Bool → Bytes → Option VmState → Option VmState
moves (create req) done j old = if done && (j == req.vm_id) then some running else old
moves (stop i force) done j old = if done && (j == i) then some stopped else old
moves (delete i) done j old = if done && (j == i) then none else old
moves _ done j old = old

-- When the abstract registry accepts a call, from the phase of the call's own id.
unfoldable pub target : Call → Bytes
target (create req) = req.vm_id
target (start i) = i
target (stop i force) = i
target (delete i) = i
target (get i) = i
target list = []

abbrev pub known : Option VmState → Bool
known none = false
known (some _) = true

-- `create` may fail on a new id, and `start` on a known one; the other calls depend on the phase alone.
abbrev pub Admits : Call → Bool → Option VmState → Type 0
Admits (create req) done old = done ≡ true → known old ≡ false
Admits (start i) done old = done ≡ true → known old ≡ true
Admits (stop i force) done old = done ≡ known old
Admits (delete i) done old = done ≡ known old
Admits (get i) done old = done ≡ known old
Admits list done old = done ≡ true
