-- ===== src/Firecracker/Registry/Processes.antt =====
-- The processes that may be living against those of the VMs in the map.
use firecracker_agent.Base.{
  ℕ, Bytes, Bool, true, ◌≡◌, refl, ap, ◌∙◌, List, [], ◌∷◌, none, some, Result, ok, err, arith,
  bytes_dec, Option-cases, Bool-cases, inl, inr,
}
use firecracker_agent.Base.Dict.{lookup, lookup-insert, lookup-erase}
use firecracker_agent.Host.{Host}
use firecracker_agent.Host.Ledger.{may_live}
use firecracker_agent.Firecracker.State.{Vm, CreateVmRequest, Manager, State}
use firecracker_agent.Firecracker.Create.{Build, commit, create_vm}
use firecracker_agent.Firecracker.Create.Orphans.{
  runs_vm, Populated, build_vm-Populated, commit-Survives,
}
use firecracker_agent.Firecracker.Manager.{
  start_vm, stop_vm, delete_vm, get_vm, list_vms, mark_stopped,
}
use firecracker_agent.Firecracker.Manager.Processes.{
  start_vm_ends, get_vm_ends, list_vms_ends, stop_vm_ends, may_live-release,
}
use firecracker_agent.Firecracker.Registry.{
  Call, create, start, stop, delete, get, list, perform, perform_all,
}

-- The process is that of a VM in the map.
abbrev pub Kept : ℕ → State → Type 0
Kept p s = (i : Bytes) × (vm : Vm) × (lookup i s.vms ≡ some vm) × (runs_vm p vm ≡ true)

abbrev pub NoOrphans : State → Type 0
NoOrphans s = (p : ℕ) → may_live p s.history ≡ true → Kept p s

unmoved : (p : ℕ) (s s' : State) → s'.vms ≡ s.vms → Kept p s → Kept p s'
unmoved p s s' e (i, vm, f, r) = (i, vm, ap (lookup i) e ∙ f, r)

module _ (host : Host) (m : Manager) where
  commit-NoOrphans :
      (req : CreateVmRequest) (s : State) (x : Result Vm × Build)
      → lookup req.vm_id s.vms ≡ none
      → ((p : ℕ) → Populated host m p s.history x)
      → NoOrphans s
      → NoOrphans (commit host m req s x).1
  unfolding commit
  commit-NoOrphans req s (ok vm, b) absent q o p a = elim (Bool-cases (runs_vm p vm)) [
    | inl own ↦ (req.vm_id, vm, ground (arith, lookup-insert req.vm_id req.vm_id vm s.vms), own)
    | inr other ↦
        let (i, w, f, r) = o p (ground (arith, q p)) in
        (i, w, ground (arith, lookup-insert i req.vm_id vm s.vms), r)
  ]
  commit-NoOrphans req s (err e, b) absent q o p a =
      o p (ground (arith, commit-Survives host m p req s (err e, b) (q p)))

  create_vm-NoOrphans :
      (req : CreateVmRequest) (s : State) → NoOrphans s → NoOrphans (create_vm host m req s).1
  unfolding create_vm
  create_vm-NoOrphans req s o = elim (Option-cases (lookup req.vm_id s.vms)) [
    | inl absent ↦
        rw (absent, create_vm)
          (commit-NoOrphans req s _ absent (λ p. build_vm-Populated host m p req s.history) o)
    | inr (vm, found) ↦ rw (found, create_vm) o
  ]

  stop_vm-NoOrphans :
      (i : Bytes) (force : Bool) (s : State) → NoOrphans s → NoOrphans (stop_vm host i force s).1
  unfolding stop_vm
  stop_vm-NoOrphans i force s o p a =
      let (j, w, f, r) = o p (stop_vm_ends host p i force s a) in
      elim (Option-cases (lookup i s.vms)) [
        | inl absent ↦ (j, w, ground arith, r)
        | inr (vm, found) ↦ elim (bytes_dec j i) [
          | yes e ↦ (
            j,
            mark_stopped vm,
            ground (arith, lookup-insert j i (mark_stopped vm) s.vms),
            ground arith,
          )
          | no e ↦ (j, w, ground (arith, lookup-insert j i (mark_stopped vm) s.vms), r)
        ]
      ]

  delete_vm-NoOrphans : (i : Bytes) (s : State) → NoOrphans s → NoOrphans (delete_vm host m i s).1
  unfolding delete_vm
  delete_vm-NoOrphans i s o p a = elim (Option-cases (lookup i s.vms)) [
    | inl absent ↦ ground (arith, o p)
    | inr (vm, found) ↦
        let (j, w, f, r) = o p (ground (arith, may_live-release host p m i vm s.history)) in
        (j, w, ground (arith, lookup-erase j i s.vms, may_live-release host p m i vm s.history), r)
  ]

  perform-NoOrphans : (c : Call) (s : State) → NoOrphans s → NoOrphans (perform host m c s).1
  unfolding perform
  perform-NoOrphans (create req) s o p a = create_vm-NoOrphans req s o p a
  perform-NoOrphans (start i) s o p a =
      unmoved p s (start_vm host i s).1 (unfold start_vm in ground arith)
        (o p (start_vm_ends host p i s a))
  perform-NoOrphans (stop i force) s o p a = stop_vm-NoOrphans i force s o p a
  perform-NoOrphans (delete i) s o p a = delete_vm-NoOrphans i s o p a
  perform-NoOrphans (get i) s o p a =
      unmoved p s (get_vm host i s).1 (unfold get_vm in ground arith)
        (o p (get_vm_ends host p i s a))
  perform-NoOrphans list s o p a =
      unmoved p s (list_vms host s).1 (unfold list_vms in refl) (o p (list_vms_ends host p s a))

  -- If every process that may be living is that of a VM in the map, then so it is after any sequence of
  -- calls, whichever of them fail: no process that they started and that may be living is left without a
  -- VM.
  pub perform_all-NoOrphans :
      (cs : List Call) (s : State) → NoOrphans s → NoOrphans (perform_all host m cs s)
  unfolding perform_all
  perform_all-NoOrphans [] s o = o
  perform_all-NoOrphans (c ∷ cs) s o = perform_all-NoOrphans cs _ (perform-NoOrphans c s o)
