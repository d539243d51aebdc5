-- ===== src/Firecracker/Interleaving.antt =====
-- The VM manager as its goroutines share it: `m.vms` holds pointers, and `StopVM` of
-- `internal/firecracker/manager.go` gives up the lock between its lookup and its write, so that other
-- calls come between. `CreateVM` and `DeleteVM` hold the lock throughout.
pub mod Pointers
pub mod Invariant
pub mod Refines
pub mod Unreached
pub mod Recreated
use firecracker_agent.Base.{
  ℕ, zero, suc, Bytes, Bool, true, List, [], ◌∷◌, ◌++◌, Option, none, some, Result, ok, err, Act, ⊤,
  length, text, if◌then◌else◌,
}
use firecracker_agent.Base.Dict.{Dict, lookup, insert, erase}
use firecracker_agent.Base.Places.{get_at, set_at}
use firecracker_agent.Host.{Host, Event, History}
use firecracker_agent.Host.Ledger.{same}
use firecracker_agent.Network.Taps.{is_ok}
use firecracker_agent.Firecracker.State.{VmState, VmInfo, Vm, CreateVmRequest, Manager}
use firecracker_agent.Firecracker.Create.{Build, build_vm, unwind}
use firecracker_agent.Firecracker.Manager.{halt, release, mark_stopped, not_found}
use firecracker_agent.Firecracker.Registry.{Call, create, stop, delete, list}

-- A goroutine in `StopVM`: before its first lock, with the VM that it found, before its second lock,
-- and when it has returned.
pub data Stopping : Type 0 where
  asked : Bytes → Bool → Stopping
  halting : ℕ → Bool → Stopping
  marking : ℕ → Stopping
  returned : Result ⊤ → Stopping

-- A pointer is a place in `objects`, which only grows: no VM is freed while it is pointed to.
pub record Shared : Type 0 where
  pub vms : Dict ℕ
  pub objects : List Vm
  pub stops : List Stopping
  pub history : History

unfoldable pub deref : ℕ → List Vm → Option Vm
deref p [] = none
deref zero (vm ∷ vms) = some vm
deref (suc p) (vm ∷ vms) = deref p vms

-- A write through a pointer.
unfoldable pub assign : ℕ → (Vm → Vm) → List Vm → List Vm
assign p f [] = []
assign zero f (vm ∷ vms) = f vm ∷ vms
assign (suc p) f (vm ∷ vms) = vm ∷ assign p f vms

-- One section of `StopVM`: its first lock, what it does to the host, its second lock.
unfoldable pub stop_section : Host → Stopping → Shared → Stopping × Shared
stop_section host (asked vm_id force) s = elim (lookup vm_id s.vms) [
  | none ↦ (returned (err (not_found vm_id)), s)
  | some p ↦ (halting p force, s)
]
stop_section host (halting p force) s = elim (deref p s.objects) [
  | none ↦ (halting p force, s)
  | some vm ↦ (marking p, record s { history = (halt host force vm.process s.history).1 })
]
stop_section host (marking p) s =
    (returned (ok tt), record s { objects = assign p mark_stopped s.objects })
stop_section host (returned r) s = (returned r, s)

-- The next section of the goroutine `n`.
unfoldable pub advance_stop : Host → ℕ → Shared → Shared
advance_stop host n s = elim (get_at n s.stops) [
  | none ↦ s
  | some t ↦ let (t', s') = stop_section host t s in record s' { stops = set_at n t' s'.stops }
]

-- `m.vms[req.VmId] = &VM{…}` puts a new object into the map.
unfoldable pub commit_shared :
    Host → Manager → CreateVmRequest → Shared → Result Vm × Build → Result VmInfo × Shared
commit_shared host m req s (ok vm, b) = (
  ok vm.info,
  record s {
    vms = insert req.vm_id (length s.objects) s.vms;
    objects = s.objects ++ (vm ∷ []);
    history = b.history;
  },
)
commit_shared host m req s (err e, b) =
    (err e, record s { history = unwind host m b.cleanups b.history })

unfoldable pub create_shared : Host → Manager → CreateVmRequest → Act Shared VmInfo
create_shared host m req s = elim (lookup req.vm_id s.vms) [
  | some _ ↦ (err (text "VM " ++ (req.vm_id ++ text " already exists")), s)
  | none ↦
      commit_shared host m req s
        (build_vm host m req (record { cleanups = []; history = s.history }))
]

-- The VM at an id: `m.vms[vmID]`, read through its pointer.
unfoldable pub find_vm : Bytes → Shared → Option Vm
find_vm vm_id s = elim (lookup vm_id s.vms) [ none ↦ none | some p ↦ deref p s.objects ]

unfoldable pub delete_shared : Host → Manager → Bytes → Act Shared ⊤
delete_shared host m vm_id s = elim (find_vm vm_id s) [
  | none ↦ (err (not_found vm_id), s)
  | some vm ↦
      let (r, h) = release host m vm_id vm s.history in
      (ok tt, record s { vms = erase vm_id s.vms; history = h })
]

-- A turn: a call under the lock, a new call of `StopVM`, a section of one, or what any other code
-- does to the host meanwhile.
pub data Turn : Type 0 where
  created : CreateVmRequest → Turn
  deleted : Bytes → Turn
  stop_asked : Bytes → Bool → Turn
  stop_moves : ℕ → Turn
  elsewhere : Event → Turn

unfoldable pub take_turn : Host → Manager → Turn → Shared → Shared
take_turn host m (created req) s = (create_shared host m req s).1
take_turn host m (deleted vm_id) s = (delete_shared host m vm_id s).1
take_turn host m (stop_asked vm_id force) s = record s {
  stops = s.stops ++ (asked vm_id force ∷ []);
}
take_turn host m (stop_moves n) s = advance_stop host n s
take_turn host m (elsewhere e) s = record s { history = e ∷ s.history }

unfoldable pub take_turns : Host → Manager → List Turn → Shared → Shared
take_turns host m [] s = s
take_turns host m (t ∷ ts) s = take_turns host m ts (take_turn host m t s)

-- The stored state of a VM, as `phase` of the registry.
unfoldable pub shared_phase : Shared → Bytes → Option VmState
shared_phase s i = elim (find_vm i s) [ none ↦ none | some vm ↦ some vm.info.state ]

-- The id under which the map holds a pointer.
unfoldable pub owner : ℕ → Dict ℕ → Option Bytes
owner p [] = none
owner p ((i, q) ∷ d) = let rest = owner p d in if same q p then some i else rest

-- The call of the abstract registry that a turn amounts to, and whether it succeeds. A call that does
-- nothing to the phases stands as `list`.
unfoldable pub stop_effect : Option Stopping → Dict ℕ → Call × Bool
stop_effect (some (marking p)) d = elim (owner p d) [
  | none ↦ (list, true)
  | some i ↦ (stop i true, true)
]
stop_effect _ d = (list, true)

unfoldable pub effect : Host → Manager → Turn → Shared → Call × Bool
effect host m (created req) s = (create req, is_ok (create_shared host m req s).0)
effect host m (deleted vm_id) s = (delete vm_id, is_ok (delete_shared host m vm_id s).0)
effect host m (stop_moves n) s = stop_effect (get_at n s.stops) s.vms
effect host m _ s = (list, true)
