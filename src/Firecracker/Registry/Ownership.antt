-- ===== src/Firecracker/Registry/Ownership.antt =====
-- The calls of the VM manager, and the devices of the VMs in the map.
use firecracker_agent.Base.{
  Bytes, Bool, true, false, ◌≡◌, refl, ap, ◌∙◌, List, [], ◌∷◌, Result, ok, err, arith, ◌==◌,
  if◌then◌else◌, Option-cases, inl, inr, is_empty,
}
use firecracker_agent.Base.Dict.{lookup}
use firecracker_agent.Host.{Host}
use firecracker_agent.Host.Ledger.{tap_exists, TapLaws}
use firecracker_agent.Network.{tap_name}
use firecracker_agent.Network.Taps.{is_ok}
use firecracker_agent.Firecracker.State.{Vm, CreateVmRequest, Manager, State}
use firecracker_agent.Firecracker.Create.{Build, build_vm, commit, create_vm}
use firecracker_agent.Firecracker.Create.Leaks.{commit-tap_exists, build_vm-Settled}
use firecracker_agent.Firecracker.Manager.{
  start_vm, stop_vm, delete_vm, get_vm, list_vms, mark_stopped,
}
use firecracker_agent.Firecracker.Manager.Devices.{
  tap_name-not_empty, start_vm-Quiet, get_vm-Quiet, list_vms-Quiet, release-tap_exists, halt-Quiet,
  Named, build_vm-Named,
}
use firecracker_agent.Firecracker.Registry.{
  Call, create, start, stop, delete, get, list, perform, perform_all,
}
use firecracker_agent.Firecracker.Registry.Devices.{
  Owns, same-Owns, updated-Owns, added-Owns, removed-Owns,
}

module _ (host : Host) (laws : TapLaws host) (m : Manager) where
  -- The new VM, or the map and the devices as they were.
  commit-Owns :
      (req : CreateVmRequest) (s : State) (x : Result Vm × Build)
      → let y = commit host m req s x in
        let tap = tap_name m.network_manager req.vm_id in
        Named host m req x
        → ((u : Bytes)
            → (tap_exists u y.1.history ≡ (
                if is_ok y.0
                then if tap == u then true else tap_exists u s.history
                else tap_exists u s.history))
              × (is_ok y.0 ≡ true → (if tap == u then tap_exists u s.history else false) ≡ false))
        → Owns m s
        → Owns m y.1
  unfolding commit
  commit-Owns req s (ok vm, b) n q o =
      added-Owns m req.vm_id vm s b.history n
        (ground (arith, (q (tap_name m.network_manager req.vm_id)).1)) (λ u. (q u).0) o
  commit-Owns req s (err e, b) n q o = same-Owns m s _ refl (λ u. (q u).0) o

  create_vm-Owns :
      (req : CreateVmRequest) (s : State) → Owns m s → Owns m (create_vm host m req s).1
  unfolding create_vm
  create_vm-Owns req s o = elim (Option-cases (lookup req.vm_id s.vms)) [
    | inl absent ↦
        let start : Build = record { cleanups = []; history = s.history } in
        rw (absent, create_vm)
          (commit-Owns req s (build_vm host m req start) (build_vm-Named host m req start)
            (λ u.
              commit-tap_exists host laws m u req s (tap_name m.network_manager req.vm_id) _
                (build_vm-Settled host laws m u req s.history))
            o)
    | inr (vm, found) ↦ rw (found, create_vm) o
  ]

  stop_vm-Owns :
      (i : Bytes) (force : Bool) (s : State) → Owns m s → Owns m (stop_vm host i force s).1
  unfolding stop_vm
  stop_vm-Owns i force s o = elim (Option-cases (lookup i s.vms)) [
    | inl absent ↦ rw (absent, stop_vm) o
    | inr (vm, found) ↦
        rw (found, stop_vm)
          (updated-Owns m i vm (mark_stopped vm) s _ found refl
            (λ u. halt-Quiet host u force vm.process s.history) o)
  ]

  delete_vm-Owns : (i : Bytes) (s : State) → Owns m s → Owns m (delete_vm host m i s).1
  unfolding delete_vm
  delete_vm-Owns i s o = elim (Option-cases (lookup i s.vms)) [
    | inl absent ↦ rw (absent, delete_vm) o
    | inr (vm, found) ↦
        rw (found, delete_vm)
          (removed-Owns m i vm s _ found
            (λ u. rw (← o.tap_of i vm found) (
              release-tap_exists host u laws m i vm s.history
                (ap is_empty (o.tap_of i vm found) ∙ tap_name-not_empty m.network_manager i)))
            o)
  ]

  perform-Owns : (c : Call) (s : State) → Owns m s → Owns m (perform host m c s).1
  unfolding perform
  perform-Owns (create req) s o = create_vm-Owns req s o
  perform-Owns (start i) s o =
      same-Owns m s _ (unfold start_vm in ground arith) (λ u. start_vm-Quiet host u i s) o
  perform-Owns (stop i force) s o = stop_vm-Owns i force s o
  perform-Owns (delete i) s o = delete_vm-Owns i s o
  perform-Owns (get i) s o =
      same-Owns m s _ (unfold get_vm in ground arith) (λ u. get_vm-Quiet host u i s) o
  perform-Owns list s o = same-Owns m s _ (unfold list_vms in refl) (λ u. list_vms-Quiet host u s) o

  -- With the laws of `ip`, if each VM's device exists, each device that exists belongs to a VM of the
  -- map, and no two VMs share one, then the same holds after any sequence of calls, whichever of
  -- them fail: no device leaks, and none is taken from a VM that is still in the map.
  pub perform_all-Owns : (cs : List Call) (s : State) → Owns m s → Owns m (perform_all host m cs s)
  unfolding perform_all
  perform_all-Owns [] s o = o
  perform_all-Owns (c ∷ cs) s o = perform_all-Owns cs _ (perform-Owns c s o)
