-- ===== src/Firecracker/Manager/Devices.antt =====
-- What each method of the VM manager does to the TAP devices.
use firecracker_agent.Base.{
  Bytes, Bool, true, false, ◌≡◌, refl, ◌∙◌, [], ◌∷◌, ◌++◌, Option, Result, ok, err, arith, ◌==◌,
  is_empty, if◌then◌else◌, take,
}
use firecracker_agent.Base.Dict.{Dict}
use firecracker_agent.Host.{Host, History}
use firecracker_agent.Host.Ledger.{tap_exists, TapLaws}
use firecracker_agent.Network
use firecracker_agent.Network.{tap_name}
use firecracker_agent.Network.Taps.{tap_exists-delete}
use firecracker_agent.Firecracker.Quiet.{
  cleanup_vm_storage-Quiet, cleanup_jail-Quiet, kill-Quiet, put-Quiet,
}
use firecracker_agent.Firecracker.Client.{send_ctrl_alt_del}
use firecracker_agent.Firecracker.Process.{VmProcess, stop, terminate, close_files, is_running}
use firecracker_agent.Firecracker.State.{CreateVmRequest, Manager, State, Vm}
use firecracker_agent.Firecracker.Create.{
  Build, Resources, acquire_jailed, acquire_direct, acquire_by, acquire, new_vm, build_vm,
}
use firecracker_agent.Firecracker.Manager.{
  runs, start_vm, shut_down, halt, stop_vm, release, resolve_vm_state, copy_vm_info, get_vm,
  list_from, list_vms,
}

pub tap_name-not_empty : (m : Network.Manager) (i : Bytes) → is_empty (tap_name m i) ≡ false
unfolding tap_name
tap_name-not_empty m i = go m.tap_prefix
  where
    go : (p : Bytes) → is_empty (p ++ (45 ∷ take 8 i)) ≡ false
    go [] = refl
    go (c ∷ p) = refl

module _ (host : Host) (u : Bytes) where
  is_running-Quiet :
      (p : VmProcess) (h : History) → tap_exists u (is_running host p h).1 ≡ tap_exists u h
  unfolding is_running
  is_running-Quiet p h = ground arith

  copy_vm_info-Quiet :
      (vm : Vm) (h : History) → tap_exists u (copy_vm_info host vm h).1 ≡ tap_exists u h
  unfolding copy_vm_info resolve_vm_state
  copy_vm_info-Quiet vm h = grind (arith, is_running-Quiet)

  list_from-Quiet :
      (d : Dict Vm) (h : History) → tap_exists u (list_from host d h).1 ≡ tap_exists u h
  unfolding list_from
  list_from-Quiet [] h = refl
  list_from-Quiet ((_, vm) ∷ d) h = list_from-Quiet d _ ∙ copy_vm_info-Quiet vm h

  stop-Quiet : (p : VmProcess) (h : History) → tap_exists u (stop host p h).1 ≡ tap_exists u h
  unfolding stop terminate close_files
  stop-Quiet p h = grind (arith, is_running-Quiet)

  pub halt-Quiet :
      (force : Bool) (p : Option VmProcess) (h : History)
      → tap_exists u (halt host force p h).1 ≡ tap_exists u h
  unfolding halt shut_down send_ctrl_alt_del
  halt-Quiet force p h = grind (arith, kill-Quiet, stop-Quiet, put-Quiet)

  pub start_vm-Quiet :
      (i : Bytes) (s : State) → tap_exists u (start_vm host i s).1.history ≡ tap_exists u s.history
  unfolding start_vm runs
  start_vm-Quiet i s = grind (arith, is_running-Quiet)

  pub get_vm-Quiet :
      (i : Bytes) (s : State) → tap_exists u (get_vm host i s).1.history ≡ tap_exists u s.history
  unfolding get_vm
  get_vm-Quiet i s = grind (arith, copy_vm_info-Quiet)

  pub list_vms-Quiet :
      (s : State) → tap_exists u (list_vms host s).1.history ≡ tap_exists u s.history
  unfolding list_vms
  list_vms-Quiet s = list_from-Quiet s.vms s.history

  pub stop_vm-Quiet :
      (i : Bytes) (force : Bool) (s : State)
      → tap_exists u (stop_vm host i force s).1.history ≡ tap_exists u s.history
  unfolding stop_vm
  stop_vm-Quiet i force s = grind (arith, halt-Quiet)

  pub release-tap_exists :
      TapLaws host
      → (m : Manager) (i : Bytes) (vm : Vm) (h : History) → is_empty vm.tap_device ≡ false
      → tap_exists u (release host m i vm h).1
        ≡ (if vm.tap_device == u then false else tap_exists u h)
  unfolding release
  release-tap_exists laws m i vm h e = grind (
    arith,
    kill-Quiet,
    cleanup_jail-Quiet,
    cleanup_vm_storage-Quiet,
    tap_exists-delete host laws vm.tap_device u,
  )

module _ (host : Host) (m : Manager) where
  -- The VM, or what it is built of, has the device of its id.
  abbrev pub Named : CreateVmRequest → Result Vm × Build → Type 0
  Named req (ok vm, b) = vm.tap_device ≡ tap_name m.network_manager req.vm_id
  Named req (err e, b) = Unit

  abbrev HasTap : CreateVmRequest → Result Resources × Build → Type 0
  HasTap req (ok res, b) = res.tap_device ≡ tap_name m.network_manager req.vm_id
  HasTap req (err e, b) = Unit

  acquire_by-HasTap :
      (req : CreateVmRequest) (k r : Bytes) (jailed : Bool) (b : Build)
      → HasTap req (acquire_by host m req k r jailed b)
  unfolding acquire_by acquire_jailed acquire_direct Network.create_tap_device
  acquire_by-HasTap req k r true b = ground arith
  acquire_by-HasTap req k r false b = ground arith

  pub build_vm-Named : (req : CreateVmRequest) (b : Build) → Named req (build_vm host m req b)
  unfolding build_vm acquire new_vm
  build_vm-Named req b = grind (arith, acquire_by-HasTap)
