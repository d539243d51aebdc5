-- ===== src/Firecracker/Create/Orphans.antt =====
-- What `CreateVM` does to the processes that may be living, its deferred cleanups included.
use firecracker_agent.Base.{
  ℕ, Bytes, Bool, true, false, ◌≡◌, refl, List, [], ◌∷◌, Option, none, some, Result, ok, err, arith,
  if◌then◌else◌, Option-cases, inl, inr,
}
use firecracker_agent.Base.Dict.{lookup, lookup-insert}
use firecracker_agent.Host.{Host, History}
use firecracker_agent.Host.Ledger.{same, may_live, starts}
use firecracker_agent.Firecracker.Calm.{
  prepare_vm_storage-Calm, setup_jail_directory-Calm, cleanup_vm_storage-Calm, cleanup_jail-Calm,
  delete_tap_device-Calm, create_tap_device-Calm, put-Calm,
}
use firecracker_agent.Firecracker.Client
use firecracker_agent.Firecracker.Process.{is_none}
use firecracker_agent.Firecracker.State.{CreateVmRequest, Manager, State, Vm}
use firecracker_agent.Firecracker.Create.{
  Cleanup, remove_jail_and_storage, remove_storage, delete_tap, kill_process, run_cleanup, unwind,
  Build, Resources, acquire_jailed, acquire_direct, acquire_by, acquire, configure, new_vm,
  build_vm, commit, create_vm,
}
use firecracker_agent.Firecracker.Create.Processes.{
  names, may_live-kill, starts-kill, Undone, Began, start_firecracker_process-Launched,
  start_jailed_process-LaunchedJailed,
}

-- What a cleanup makes of a process.
abbrev pub end : ℕ → Cleanup → Bool → Bool
end p (kill_process v) old = if names p v then false else old
end p _ old = old

abbrev pub end_all : ℕ → List Cleanup → Bool → Bool
end_all p [] old = old
end_all p (c ∷ cs) old = end_all p cs (end p c old)

-- The process behind the VM.
abbrev pub pid_of_vm : Vm → Option ℕ
pid_of_vm vm = elim vm.process [ none ↦ none | some v ↦ v.cmd ]

abbrev pub runs_vm : ℕ → Vm → Bool
runs_vm p vm = elim (pid_of_vm vm) [ none ↦ false | some q ↦ same q p ]

module _ (host : Host) (m : Manager) (p : ℕ) where
  may_live-run_cleanup :
      (c : Cleanup) (h : History) → may_live p (run_cleanup host m c h).1 ≡ end p c (may_live p h)
  unfolding run_cleanup
  may_live-run_cleanup (remove_jail_and_storage i) h =
      grind (arith, cleanup_jail-Calm, cleanup_vm_storage-Calm)
  may_live-run_cleanup (remove_storage i) h = grind (arith, cleanup_vm_storage-Calm)
  may_live-run_cleanup (delete_tap t) h = grind (arith, delete_tap_device-Calm)
  may_live-run_cleanup (kill_process v) h = ground (arith, may_live-kill host p v h)

  may_live-unwind :
      (cs : List Cleanup) (h : History)
      → may_live p (unwind host m cs h) ≡ end_all p cs (may_live p h)
  unfolding unwind
  may_live-unwind [] h = refl
  may_live-unwind (c ∷ cs) h =
      ground (arith, may_live-run_cleanup c h, may_live-unwind cs (run_cleanup host m c h).1)

  starts-run_cleanup :
      (c : Cleanup) (h : History) → starts p (run_cleanup host m c h).1 ≡ starts p h
  unfolding run_cleanup
  starts-run_cleanup (remove_jail_and_storage i) h =
      grind (arith, cleanup_jail-Calm, cleanup_vm_storage-Calm)
  starts-run_cleanup (remove_storage i) h = grind (arith, cleanup_vm_storage-Calm)
  starts-run_cleanup (delete_tap t) h = grind (arith, delete_tap_device-Calm)
  starts-run_cleanup (kill_process v) h = ground (arith, starts-kill host p v h)

  starts-unwind : (cs : List Cleanup) (h : History) → starts p (unwind host m cs h) ≡ starts p h
  unfolding unwind
  starts-unwind [] h = refl
  starts-unwind (c ∷ cs) h =
      ground (arith, starts-run_cleanup c h, starts-unwind cs (run_cleanup host m c h).1)

  configure-Calm :
      (req : CreateVmRequest) (res : Resources) (h : History)
      → (may_live p (configure host m req res h).1 ≡ may_live p h)
        × (starts p (configure host m req res h).1 ≡ starts p h)
  unfolding configure Client.set_boot_source Client.set_machine_config Client.add_drive
      Client.add_network_interface Client.start_instance
  configure-Calm req res h = grind (arith, put-Calm)

  -- After ending what the cleanups end, the process may be living only if it might before, and is as it
  -- was if none of its id was started.
  abbrev Restores : History → Build → Type 0
  Restores h b =
      (end_all p b.cleanups (may_live p b.history) ≡ true → may_live p h ≡ true)
      × (starts p b.history ≡ starts p h
          → end_all p b.cleanups (may_live p b.history) ≡ may_live p h)

  -- With a result, its process may be living, and the others are as they were.
  abbrev Acquired : History → Result Resources × Build → Type 0
  Acquired h (err e, b) = Restores h b
  Acquired h (ok res, b) =
      Restores h b
      × Began host p (names p res.process) h b.history
      × (is_none res.process.cmd ≡ false)

  acquire_direct-Acquired :
      (req : CreateVmRequest) (k r : Bytes) (h : History)
      → Acquired h (acquire_direct host m req k r (record { cleanups = []; history = h }))
  unfolding acquire_direct
  acquire_direct-Acquired req k r h = grind (
    arith,
    prepare_vm_storage-Calm,
    create_tap_device-Calm,
    start_firecracker_process-Launched host p,
  )

  acquire_jailed-Acquired :
      (req : CreateVmRequest) (k r : Bytes) (h : History)
      → Acquired h (acquire_jailed host m req k r (record { cleanups = []; history = h }))
  unfolding acquire_jailed
  acquire_jailed-Acquired req k r h = grind (
    arith,
    setup_jail_directory-Calm,
    create_tap_device-Calm,
    start_jailed_process-LaunchedJailed host p,
  )

  acquire_by-Acquired :
      (req : CreateVmRequest) (k r : Bytes) (jailed : Bool) (h : History)
      → Acquired h (acquire_by host m req k r jailed (record { cleanups = []; history = h }))
  unfolding acquire_by
  acquire_by-Acquired req k r true h = acquire_jailed-Acquired req k r h
  acquire_by-Acquired req k r false h = acquire_direct-Acquired req k r h

  -- The same of the VM that is built.
  abbrev pub Populated : History → Result Vm × Build → Type 0
  Populated h (err e, b) = Restores h b
  Populated h (ok vm, b) =
      (is_none (pid_of_vm vm) ≡ false) × Began host p (runs_vm p vm) h b.history

  pub build_vm-Populated :
      (req : CreateVmRequest) (h : History)
      → Populated h (build_vm host m req (record { cleanups = []; history = h }))
  unfolding build_vm acquire new_vm
  build_vm-Populated req h = grind (arith, acquire_by-Acquired, configure-Calm)

  -- After a success the process of the VM in the map may be living, and the others are as they were;
  -- after a failure the process `p` may be living only if it might before, and is as it was if none of
  -- its id was started.
  abbrev pub Survives : Bytes → State → {A : Type 0} → Result A × State → Type 0
  Survives i s (err e, s') = Undone host p s.history s'.history
  Survives i s (ok _, s') =
      (vm : Vm) × (lookup i s'.vms ≡ some vm)
      × (is_none (pid_of_vm vm) ≡ false)
      × Began host p (runs_vm p vm) s.history s'.history

  pub commit-Survives :
      (req : CreateVmRequest) (s : State) (x : Result Vm × Build)
      → Populated s.history x
      → Survives req.vm_id s (commit host m req s x)
  unfolding commit
  commit-Survives req s (ok vm, b) q =
      (vm, ground (arith, lookup-insert req.vm_id req.vm_id vm s.vms), q.0, q.1)
  commit-Survives req s (err e, b) q = (
    λ a. q.0 (ground (arith, may_live-unwind b.cleanups b.history)),
    λ same. ground (
      arith,
      q.1 (ground (arith, starts-unwind b.cleanups b.history)),
      may_live-unwind b.cleanups b.history,
    ),
  )

  -- `CreateVM` either succeeds, and then it started one process, that of the VM that it put into the map,
  -- which may be living, and it is as before whether any other process may be; or it fails, at whatever
  -- step, and then a process `p` may be living only if it might before, so that one that it started was
  -- sent SIGKILL or had refused a signal, and it is as before whether `p` may be living if no process of
  -- the id `p` was started.
  pub create_vm-Survives :
      (req : CreateVmRequest) (s : State) → Survives req.vm_id s (create_vm host m req s)
  unfolding create_vm
  create_vm-Survives req s = elim (Option-cases (lookup req.vm_id s.vms)) [
    | inl absent ↦
        rw (absent, create_vm) (commit-Survives req s _ (build_vm-Populated req s.history))
    | inr (vm, found) ↦ rw (found, create_vm) ((λ a. a), (λ n. refl))
  ]
