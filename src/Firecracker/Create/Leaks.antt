-- ===== src/Firecracker/Create/Leaks.antt =====
-- What `CreateVM` does to the TAP devices, its deferred cleanups included.
use firecracker_agent.Base.{
  Bytes, Bool, true, false, ◌≡◌, refl, ◌∙◌, List, [], ◌∷◌, Result, ok, err, arith, ◌==◌,
  if◌then◌else◌,
}
use firecracker_agent.Host.{Host, History}
use firecracker_agent.Host.Ledger.{tap_exists, TapLaws}
use firecracker_agent.Network.{tap_name}
use firecracker_agent.Storage.{prepare_vm_storage, setup_jail_directory}
use firecracker_agent.Network.Taps.{is_ok, tap_exists-delete, create_tap_device_atomic}
use firecracker_agent.Firecracker.Quiet.{
  setup_jail_directory-Quiet, prepare_vm_storage-Quiet, cleanup_vm_storage-Quiet,
  cleanup_jail-Quiet, kill-Quiet, put-Quiet, start_firecracker_process-Quiet,
  start_jailed_process-Quiet,
}
use firecracker_agent.Firecracker.Client
use firecracker_agent.Firecracker.State.{CreateVmRequest, Manager, State, Vm}
use firecracker_agent.Firecracker.Create.{
  Cleanup, remove_jail_and_storage, remove_storage, delete_tap, kill_process, run_cleanup, unwind,
  Build, Resources, acquire_jailed, acquire_direct, acquire_by, acquire, configure, build_vm,
  commit, create_vm,
}

-- What a cleanup makes of a device.
abbrev pub undo : Bytes → Cleanup → Bool → Bool
undo u (delete_tap t) old = if t == u then false else old
undo u _ old = old

abbrev pub undo_all : Bytes → List Cleanup → Bool → Bool
undo_all u [] old = old
undo_all u (c ∷ cs) old = undo_all u cs (undo u c old)

module _ (host : Host) (laws : TapLaws host) (m : Manager) (u : Bytes) where
  tap_exists-run_cleanup :
      (c : Cleanup) (h : History)
      → tap_exists u (run_cleanup host m c h).1 ≡ undo u c (tap_exists u h)
  unfolding run_cleanup
  tap_exists-run_cleanup (remove_jail_and_storage i) h =
      grind (arith, cleanup_jail-Quiet, cleanup_vm_storage-Quiet)
  tap_exists-run_cleanup (remove_storage i) h = grind (arith, cleanup_vm_storage-Quiet)
  tap_exists-run_cleanup (delete_tap t) h = ground (arith, tap_exists-delete host laws t u h)
  tap_exists-run_cleanup (kill_process p) h = grind (arith, kill-Quiet)

  tap_exists-unwind :
      (cs : List Cleanup) (h : History)
      → tap_exists u (unwind host m cs h) ≡ undo_all u cs (tap_exists u h)
  unfolding unwind
  tap_exists-unwind [] h = refl
  tap_exists-unwind (c ∷ cs) h =
      ground (arith, tap_exists-run_cleanup c h, tap_exists-unwind cs (run_cleanup host m c h).1)

  configure-Quiet :
      (req : CreateVmRequest) (res : Resources) (h : History)
      → tap_exists u (configure host m req res h).1 ≡ tap_exists u h
  unfolding configure Client.set_boot_source Client.set_machine_config Client.add_drive
      Client.add_network_interface Client.start_instance
  configure-Quiet req res h = grind (arith, put-Quiet)

  -- Undoing the cleanups so far restores the device.
  abbrev pub Restores : History → Build → Type 0
  Restores h b = undo_all u b.cleanups (tap_exists u b.history) ≡ tap_exists u h

  -- With a result, the VM's own device did not exist and exists, and the others are as before.
  abbrev pub Settled : {A : Type 0} → Bytes → History → Result A × Build → Type 0
  Settled tap h (r, b) =
      Restores h b
      × (is_ok r ≡ true
          → ((if tap == u then tap_exists u h else false) ≡ false)
            × (tap_exists u b.history ≡ (if tap == u then true else tap_exists u h)))

  acquire_direct-Settled :
      (req : CreateVmRequest) (k r : Bytes) (h : History)
      → Settled
          (tap_name m.network_manager req.vm_id)
          h
          (acquire_direct host m req k r (record { cleanups = []; history = h }))
  unfolding acquire_direct
  acquire_direct-Settled req k r h = grind (
    arith,
    prepare_vm_storage-Quiet,
    start_firecracker_process-Quiet,
    prepare_vm_storage-Quiet host u m.storage_manager req.vm_id k r h,
    create_tap_device_atomic host laws m.network_manager req.vm_id u
        (prepare_vm_storage host m.storage_manager req.vm_id k r h).1,
  )

  acquire_jailed-Settled :
      (req : CreateVmRequest) (k r : Bytes) (h : History)
      → Settled
          (tap_name m.network_manager req.vm_id)
          h
          (acquire_jailed host m req k r (record { cleanups = []; history = h }))
  unfolding acquire_jailed
  acquire_jailed-Settled req k r h = grind (
    arith,
    start_jailed_process-Quiet,
    setup_jail_directory-Quiet host u m.storage_manager req.vm_id k r h,
    create_tap_device_atomic host laws m.network_manager req.vm_id u
        (setup_jail_directory host m.storage_manager req.vm_id k r h).1,
  )

  acquire_by-Settled :
      (req : CreateVmRequest) (k r : Bytes) (jailed : Bool) (h : History)
      → Settled
          (tap_name m.network_manager req.vm_id)
          h
          (acquire_by host m req k r jailed (record { cleanups = []; history = h }))
  unfolding acquire_by
  acquire_by-Settled req k r true h = acquire_jailed-Settled req k r h
  acquire_by-Settled req k r false h = acquire_direct-Settled req k r h

  pub build_vm-Settled :
      (req : CreateVmRequest) (h : History)
      → Settled
          (tap_name m.network_manager req.vm_id)
          h
          (build_vm host m req (record { cleanups = []; history = h }))
  unfolding build_vm acquire
  build_vm-Settled req h = grind (arith, acquire_by-Settled, configure-Quiet)

  abbrev pub Outcome : {A : Type 0} → Bytes → History → Result A × State → Type 0
  Outcome tap h (r, s') =
      (tap_exists u s'.history
        ≡ (if is_ok r then if tap == u then true else tap_exists u h else tap_exists u h))
      × (is_ok r ≡ true → (if tap == u then tap_exists u h else false) ≡ false)

  pub commit-tap_exists :
      (req : CreateVmRequest) (s : State) (tap : Bytes) (x : Result Vm × Build)
      → Settled tap s.history x
      → Outcome tap s.history (commit host m req s x)
  unfolding commit
  commit-tap_exists req s tap (ok vm, b) p = ((p.1 refl).1, λ _. (p.1 refl).0)
  commit-tap_exists req s tap (err e, b) p =
      (tap_exists-unwind b.cleanups b.history ∙ p.0, λ e. ground arith)

  -- With the laws of `ip`, `CreateVM` either succeeds, and then the VM's device did not exist and exists
  -- and every other device is as it was; or it fails, at whatever step, and then every device `u` is
  -- as it was: a device that it created is deleted again, and one that existed before is left alone.
  pub create_vm-tap_exists :
      (req : CreateVmRequest) (s : State)
      → let (r, s') = create_vm host m req s in
        let tap = tap_name m.network_manager req.vm_id in
        (tap_exists u s'.history ≡ (
          if is_ok r
          then if tap == u then true else tap_exists u s.history
          else tap_exists u s.history))
        × (is_ok r ≡ true → (if tap == u then tap_exists u s.history else false) ≡ false)
  unfolding create_vm
  create_vm-tap_exists req s = ground (
    arith,
    commit-tap_exists req s (tap_name m.network_manager req.vm_id)
        (build_vm host m req (record { cleanups = []; history = s.history }))
        (build_vm-Settled req s.history),
  )
