-- ===== src/Firecracker/Interleaving/Recreated.antt =====
-- A `StopVM` that is still under way when its VM is deleted, and a new VM under the same id.
use firecracker_agent.Base.{
  ℕ, Bytes, ◌≡◌, ◌≢◌, inl, inr, refl, List, some, Result, ok, err, arith, length, Option-cases,
}
use firecracker_agent.Base.Places.{get_at}
use firecracker_agent.Base.Dict.{lookup, lookup-insert}
use firecracker_agent.Host.{Host}
use firecracker_agent.Firecracker.State.{Vm, VmInfo, CreateVmRequest, Manager}
use firecracker_agent.Firecracker.Create.{Build}
use firecracker_agent.Firecracker.Interleaving.{
  Stopping, asked, halting, marking, returned, Shared, commit_shared, create_shared, find_vm, Turn,
  take_turns,
}
use firecracker_agent.Firecracker.Interleaving.Pointers.{PointsBelow, IsShared, deref-length}
use firecracker_agent.Firecracker.Interleaving.Invariant.{commit_shared-IsShared}
use firecracker_agent.Firecracker.Interleaving.Unreached.{Misses, IsOut, AllSpare, take_turns-IsOut}

-- What a goroutine in `StopVM` has yet to look up is another id.
abbrev pub AsksNot : Bytes → Stopping → Type 0
AsksNot i (asked j force) = j ≢ i
AsksNot i _ = Unit

Misses-new : (i : Bytes) (n : ℕ) (t : Stopping) → PointsBelow n t → AsksNot i t → Misses i n t
Misses-new i n (asked j force) p a = a
Misses-new i n (halting q force) p a = omega arith
Misses-new i n (marking q) p a = omega arith
Misses-new i n (returned r) p a = tt

-- What is at the id after a call of `CreateVM` stays there.
abbrev pub Stays : Host → Manager → Bytes → List Turn → Result VmInfo × Shared → Type 0
Stays host m i ts (err e, s) = Unit
Stays host m i ts (ok info, s) =
    (vm : Vm) × (vm.info ≡ info)
    × (find_vm i s ≡ some vm)
    × (find_vm i (take_turns host m ts s) ≡ some vm)

IsOut-find_vm : (i : Bytes) (p : ℕ) (vm : Vm) (s : Shared) → IsOut i p vm s → find_vm i s ≡ some vm
unfolding find_vm
IsOut-find_vm i p vm s o = ground (arith, o.filed, o.held)

commit_shared-Stays :
    (host : Host) (m : Manager) (req : CreateVmRequest) (ts : List Turn) (s : Shared)
    (x : Result Vm × Build)
    → IsShared s
    → ((n : ℕ) (t : Stopping) → get_at n s.stops ≡ some t → AsksNot req.vm_id t)
    → AllSpare req.vm_id ts
    → IsShared (commit_shared host m req s x).1
    → Stays host m req.vm_id ts (commit_shared host m req s x)
unfolding commit_shared
commit_shared-Stays host m req ts s (err e, b) v a sp w = tt
commit_shared-Stays host m req ts s (ok vm, b) v a sp w =
    let out : IsOut req.vm_id (length s.objects) vm (commit_shared host m req s (ok vm, b)).1 =
      record {
        filed = ground (arith, lookup-insert req.vm_id req.vm_id (length s.objects) s.vms);
        held = deref-length s.objects vm;
        missed = λ n {t} e. Misses-new req.vm_id _ t (v.aimed n e) (a n t e);
      } in
    let later = take_turns-IsOut req.vm_id _ vm host m ts _ w sp out in
    (vm, refl, IsOut-find_vm _ _ vm _ out, IsOut-find_vm _ _ vm _ later)

-- If no two ids share an object, no pointer dangles, and every running `StopVM` of the id has looked it
-- up already, then after a `CreateVM` of the id that succeeds the new VM stays as it was stored,
-- through any turns but a new `StopVM` or `DeleteVM` of the id: a `StopVM` that was under way for an
-- older VM of that id does not mark the new one as stopped.
pub create_shared-Stays :
    (host : Host) (m : Manager) (req : CreateVmRequest) (ts : List Turn) (s : Shared)
    → IsShared s
    → ((n : ℕ) (t : Stopping) → get_at n s.stops ≡ some t → AsksNot req.vm_id t)
    → AllSpare req.vm_id ts
    → Stays host m req.vm_id ts (create_shared host m req s)
unfolding create_shared
create_shared-Stays host m req ts s v a sp = elim (Option-cases (lookup req.vm_id s.vms)) [
  | inl absent ↦
      rw (absent, create_shared)
        (commit_shared-Stays host m req ts s _ v a sp (commit_shared-IsShared host m req s _ v))
  | inr (q, found) ↦ rw (found, create_shared, Stays) tt
]
