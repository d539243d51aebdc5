-- ===== src/Firecracker/Manager/Reports.antt =====
-- What `GetVM` and `ListVMs` report.
use firecracker_agent.Base.{
  Bytes, Bool, true, false, not, ◌≡◌, refl, ap, List, [], ◌∷◌, none, some, ok, arith, if◌then◌else◌,
}
use mathlib.Core.Path.{subst}
use firecracker_agent.Base.Dict.{Dict, lookup, lookup-insert}
use firecracker_agent.Host.{Host, History, probe, signalled}
use firecracker_agent.Firecracker.Process.{is_none, is_running}
use firecracker_agent.Firecracker.State.{stopped, VmInfo, Vm, State}
use firecracker_agent.Firecracker.Manager.{
  stop_vm, mark_stopped, resolve_vm_state, copy_vm_info, get_vm, list_from, list_vms,
}

module _ (host : Host) where
  -- The VM has a process, which was never started or refuses the probe.
  abbrev pub gone : Vm → History → Bool
  gone vm h = elim vm.process [
    | none ↦ false
    | some p ↦ elim p.cmd [ none ↦ true | some pid ↦ not (is_none (host.signal h pid probe)) ]
  ]

  -- The probe, if there is a process to be probed.
  abbrev pub probed : Vm → History → History
  probed vm h = elim vm.process [
    | none ↦ h
    | some p ↦ elim p.cmd [
      | none ↦ h
      | some pid ↦ signalled pid probe (host.signal h pid probe) ∷ h
    ]
  ]

  -- One copy for each VM, whose state is `stopped` if the VM is gone when its turn comes, and all else
  -- as stored; from the history `h` to the history `h'`.
  abbrev pub CopiesOf : Dict Vm → History → List VmInfo → History → Type 0
  CopiesOf [] h [] h' = h' ≡ h
  CopiesOf [] h (info ∷ infos) h' = ⊥
  CopiesOf (e ∷ d) h [] h' = ⊥
  CopiesOf ((_, vm) ∷ d) h (info ∷ infos) h' =
      (info ≡ record (vm.info) { state = if gone vm h then stopped else vm.info.state })
      × CopiesOf d (probed vm h) infos h'

  copy_vm_info_lem :
      (vm : Vm) (h : History)
      → copy_vm_info host vm h
        ≡ (record (vm.info) { state = if gone vm h then stopped else vm.info.state }, probed vm h)
  unfolding copy_vm_info resolve_vm_state is_running
  copy_vm_info_lem vm h = ground arith

  list_from-CopiesOf :
      (d : Dict Vm) (h : History) → let (infos, h') = list_from host d h in CopiesOf d h infos h'
  unfolding list_from
  list_from-CopiesOf [] h = refl
  list_from-CopiesOf ((i, vm) ∷ d) h = (
    ap (λ x. x.0) (copy_vm_info_lem vm h),
    subst
        (λ g.
          CopiesOf d g (list_from host d (copy_vm_info host vm h).1).0
            (list_from host d (copy_vm_info host vm h).1).1)
        (ap (λ x. x.1) (copy_vm_info_lem vm h)) (list_from-CopiesOf d (copy_vm_info host vm h).1),
  )

  -- `ListVMs` gives one copy for each VM of the map, in the map's order, with every field as stored
  -- but the state, which is `stopped` if the VM has a process that was never started or that refuses
  -- the probe, and as stored otherwise. It probes each started process once, in that order, and does
  -- nothing else to the host; and it leaves the map alone.
  pub list_vms-CopiesOf :
      (s : State)
      → let (infos, s') = list_vms host s in
        CopiesOf s.vms s.history infos s'.history × (s'.vms ≡ s.vms)
  unfolding list_vms
  list_vms-CopiesOf s = (list_from-CopiesOf s.vms s.history, refl)

  resolve_vm_state_stopped :
      (vm : Vm) (h : History) → (resolve_vm_state host (mark_stopped vm) h).0 ≡ stopped
  unfolding resolve_vm_state
  resolve_vm_state_stopped vm h = ground arith

  -- After `StopVM` of a VM in the map, forced or not and whatever the host answers, `GetVM` succeeds
  -- and reports the VM as it was stored, but stopped.
  pub get_vm-stop_vm :
      (i : Bytes) (force : Bool) (s : State) (vm : Vm)
      → lookup i s.vms ≡ some vm
      → (get_vm host i (stop_vm host i force s).1).0 ≡ ok (record (vm.info) { state = stopped })
  unfolding stop_vm get_vm copy_vm_info
  get_vm-stop_vm i force s vm found =
      grind (arith, lookup-insert i i (mark_stopped vm) s.vms, resolve_vm_state_stopped)
