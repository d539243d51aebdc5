-- ===== src/Firecracker/Registry/Moves.antt =====
-- The calls of the VM manager against those of the abstract registry.
use firecracker_agent.Base.{
  Bytes, Bool, ◌≡◌, inl, inr, refl, [], Result, ok, err, arith, Option-cases,
}
use firecracker_agent.Base.Dict.{lookup, lookup-insert, lookup-erase}
use firecracker_agent.Host.{Host}
use firecracker_agent.Network.Taps.{is_ok}
use firecracker_agent.Firecracker.State.{running, Vm, CreateVmRequest, Manager, State}
use firecracker_agent.Firecracker.Create.{Build, new_vm, build_vm, commit, create_vm}
use firecracker_agent.Firecracker.Manager.{
  start_vm, stop_vm, delete_vm, get_vm, list_vms, mark_stopped,
}
use firecracker_agent.Firecracker.Registry.{
  Call, create, start, stop, delete, get, list, perform, phase, moves, target, Admits,
}

-- A VM that was built is running, under the requested id.
abbrev pub Built : CreateVmRequest → Result Vm × Build → Type 0
Built req (ok vm, b) = (vm.info.state ≡ running) × (vm.info.vm_id ≡ req.vm_id)
Built req (err e, b) = Unit

pub build_vm-Built :
    (host : Host) (m : Manager) (req : CreateVmRequest) (b : Build)
    → Built req (build_vm host m req b)
unfolding build_vm new_vm
build_vm-Built host m req b = ground arith

commit-moves :
    (host : Host) (m : Manager) (req : CreateVmRequest) (s : State) (j : Bytes)
    (x : Result Vm × Build)
    → Built req x
    → let (r, s') = commit host m req s x in phase s' j ≡ moves (create req) (is_ok r) j (phase s j)
unfolding commit phase moves
commit-moves host m req s j (ok vm, b) p = ground (arith, lookup-insert j req.vm_id vm s.vms)
commit-moves host m req s j (err e, b) p = refl

module _ (host : Host) (m : Manager) where
  create-moves :
      (req : CreateVmRequest) (s : State) (j : Bytes)
      → let (done, s') = perform host m (create req) s in
        (phase s' j ≡ moves (create req) done j (phase s j))
        × Admits (create req) done (phase s req.vm_id)
  unfolding perform create_vm phase moves
  create-moves req s j =
      let start : Build = record { cleanups = []; history = s.history } in
      ground (
        arith,
        commit-moves host m req s j (build_vm host m req start) (build_vm-Built host m req start),
      )

  stop-moves :
      (i : Bytes) (force : Bool) (s : State) (j : Bytes)
      → let (done, s') = perform host m (stop i force) s in
        (phase s' j ≡ moves (stop i force) done j (phase s j))
        × Admits (stop i force) done (phase s i)
  unfolding perform stop_vm phase moves
  stop-moves i force s j = elim (Option-cases (lookup i s.vms)) [
    | inl absent ↦ ground arith
    | inr (vm, found) ↦ ground (arith, lookup-insert j i (mark_stopped vm) s.vms)
  ]

  -- Every call acts on the map as the abstract registry of phases does, for every id `j`; and whether
  -- the call succeeds is what the registry admits in the phase of the id that it names.
  pub perform-moves :
      (c : Call) (s : State) (j : Bytes)
      → let (done, s') = perform host m c s in
        (phase s' j ≡ moves c done j (phase s j)) × Admits c done (phase s (target c))
  unfolding target
  perform-moves (create req) s j = create-moves req s j
  perform-moves (start i) s j = unfold perform start_vm phase moves in ground arith
  perform-moves (stop i force) s j = stop-moves i force s j
  perform-moves (delete i) s j =
      unfold perform delete_vm phase moves in ground (arith, lookup-erase j i s.vms)
  perform-moves (get i) s j = unfold perform get_vm phase moves in ground arith
  perform-moves list s j = unfold perform list_vms phase moves in (refl, refl)
