-- ===== src/Firecracker/Registry/Invariant.antt =====
-- The invariant of the manager's map.
use firecracker_agent.Base.{
  Bytes, Bool, ◌≡◌, ◌⊎◌, inl, inr, refl, List, [], ◌∷◌, some, Result, ok, err, arith, Option-cases,
}
use firecracker_agent.Base.Dict.{
  lookup, insert, erase, lookup-insert, lookup-erase, NodupKeys, insert-NodupKeys, erase-NodupKeys,
}
use firecracker_agent.Host.{Host, History}
use firecracker_agent.Firecracker.State.{running, stopped, Vm, CreateVmRequest, Manager, State}
use firecracker_agent.Firecracker.Create.{Build, commit, create_vm}
use firecracker_agent.Firecracker.Manager.{
  start_vm, stop_vm, delete_vm, get_vm, list_vms, mark_stopped,
}
use firecracker_agent.Firecracker.Registry.{
  Call, create, start, stop, delete, get, list, perform, perform_all,
}
use firecracker_agent.Firecracker.Registry.Moves.{Built, build_vm-Built}

-- The map has each id once, files each VM under its own id, and stores no VM in a state other than
-- running or stopped.
pub record IsValid (s : State) : Type 0 where
  pub once : NodupKeys s.vms
  pub named : (i : Bytes) (vm : Vm) → lookup i s.vms ≡ some vm → vm.info.vm_id ≡ i
  pub settled :
      (i : Bytes) (vm : Vm)
      → lookup i s.vms ≡ some vm
      → (vm.info.state ≡ running) ⊎ (vm.info.state ≡ stopped)

insert-IsValid :
    (i : Bytes) (vm : Vm) (s : State) (h : History)
    → vm.info.vm_id ≡ i
    → (vm.info.state ≡ running) ⊎ (vm.info.state ≡ stopped)
    → IsValid s
    → IsValid (record { vms = insert i vm s.vms; history = h })
insert-IsValid i vm s h n p v = record {
  once = insert-NodupKeys i vm s.vms v.once;
  named = λ j w e. ground (arith, lookup-insert j i vm s.vms, v.named j w);
  settled = λ j w e. ground (arith, lookup-insert j i vm s.vms, v.settled j w);
}

erase-IsValid :
    (i : Bytes) (s : State) (h : History)
    → IsValid s
    → IsValid (record { vms = erase i s.vms; history = h })
erase-IsValid i s h v = record {
  once = erase-NodupKeys i s.vms v.once;
  named = λ j w e. ground (arith, lookup-erase j i s.vms, v.named j w);
  settled = λ j w e. ground (arith, lookup-erase j i s.vms, v.settled j w);
}

pub same-IsValid : (s : State) (h : History) → IsValid s → IsValid (record s { history = h })
same-IsValid s h v = record { once = v.once; named = v.named; settled = v.settled }

module _ (host : Host) (m : Manager) where
  commit-IsValid :
      (req : CreateVmRequest) (s : State) (x : Result Vm × Build)
      → Built req x
      → IsValid s
      → IsValid (commit host m req s x).1
  unfolding commit
  commit-IsValid req s (ok vm, b) p v = insert-IsValid req.vm_id vm s b.history p.1 (inl p.0) v
  commit-IsValid req s (err e, b) p v = same-IsValid s _ v

  pub create_vm-IsValid :
      (req : CreateVmRequest) (s : State) → IsValid s → IsValid (create_vm host m req s).1
  unfolding create_vm
  create_vm-IsValid req s v = elim (Option-cases (lookup req.vm_id s.vms)) [
    | inl absent ↦ rw (absent, create_vm) (commit-IsValid req s _ (build_vm-Built host m req _) v)
    | inr (vm, found) ↦ rw (found, create_vm) v
  ]

  pub stop_vm-IsValid :
      (i : Bytes) (force : Bool) (s : State) → IsValid s → IsValid (stop_vm host i force s).1
  unfolding stop_vm
  stop_vm-IsValid i force s v = elim (Option-cases (lookup i s.vms)) [
    | inl absent ↦ rw (absent, stop_vm) v
    | inr (vm, found) ↦
        rw (found, stop_vm)
          (insert-IsValid i (mark_stopped vm) s _ (v.named i vm found) (inr refl) v)
  ]

  pub delete_vm-IsValid : (i : Bytes) (s : State) → IsValid s → IsValid (delete_vm host m i s).1
  unfolding delete_vm
  delete_vm-IsValid i s v = elim (Option-cases (lookup i s.vms)) [
    | inl absent ↦ rw (absent, delete_vm) v
    | inr (vm, found) ↦ rw (found, delete_vm) (erase-IsValid i s _ v)
  ]

  start_vm_same : (i : Bytes) (s : State) → (start_vm host i s).1.vms ≡ s.vms
  unfolding start_vm
  start_vm_same i s = ground arith

  get_vm_same : (i : Bytes) (s : State) → (get_vm host i s).1.vms ≡ s.vms
  unfolding get_vm
  get_vm_same i s = ground arith

  -- A call that leaves the map alone.
  unmoved-IsValid : (s s' : State) → s'.vms ≡ s.vms → IsValid s → IsValid s'
  unmoved-IsValid s s' e v = rw (← e) at (same-IsValid s s'.history v)

  pub start_vm-IsValid : (i : Bytes) (s : State) → IsValid s → IsValid (start_vm host i s).1
  start_vm-IsValid i s v = unmoved-IsValid s _ (start_vm_same i s) v

  pub get_vm-IsValid : (i : Bytes) (s : State) → IsValid s → IsValid (get_vm host i s).1
  get_vm-IsValid i s v = unmoved-IsValid s _ (get_vm_same i s) v

  pub list_vms-IsValid : (s : State) → IsValid s → IsValid (list_vms host s).1
  unfolding list_vms
  list_vms-IsValid s v = same-IsValid s _ v

  perform-IsValid : (c : Call) (s : State) → IsValid s → IsValid (perform host m c s).1
  unfolding perform
  perform-IsValid (create req) s v = create_vm-IsValid req s v
  perform-IsValid (start i) s v = start_vm-IsValid i s v
  perform-IsValid (stop i force) s v = stop_vm-IsValid i force s v
  perform-IsValid (delete i) s v = delete_vm-IsValid i s v
  perform-IsValid (get i) s v = get_vm-IsValid i s v
  perform-IsValid list s v = list_vms-IsValid s v

  -- If the map has each id once, files each VM under its own id and stores only the states `running`
  -- and `stopped`, then so it does after any sequence of calls.
  pub perform_all-IsValid :
      (cs : List Call) (s : State) → IsValid s → IsValid (perform_all host m cs s)
  unfolding perform_all
  perform_all-IsValid [] s v = v
  perform_all-IsValid (c ∷ cs) s v = perform_all-IsValid cs _ (perform-IsValid c s v)
