-- ===== src/Firecracker/Manager/Processes.antt =====
-- What each method of the VM manager does to the processes that may be living.
use firecracker_agent.Base.{ℕ, Bytes, Bool, true, false, ◌≡◌, [], ◌∷◌, Option, arith, if◌then◌else◌}
use firecracker_agent.Base.Dict.{Dict}
use firecracker_agent.Host.{Host, History}
use firecracker_agent.Host.Ledger.{may_live}
use firecracker_agent.Firecracker.Calm.{
  cleanup_vm_storage-Calm, cleanup_jail-Calm, delete_tap_device-Calm, put-Calm,
}
use firecracker_agent.Firecracker.Client.{send_ctrl_alt_del}
use firecracker_agent.Firecracker.Process.{
  VmProcess, kill, kill_now, stop, terminate, close_files, is_running,
}
use firecracker_agent.Firecracker.State.{Manager, State, Vm}
use firecracker_agent.Firecracker.Create.Processes.{may_live-kill}
use firecracker_agent.Firecracker.Create.Orphans.{runs_vm}
use firecracker_agent.Firecracker.Manager.{
  runs, start_vm, shut_down, halt, stop_vm, release, get_vm, resolve_vm_state, copy_vm_info,
  list_from, list_vms,
}

module _ (host : Host) (p : ℕ) where
  -- Whatever the host answers, no process that had ended may be living.
  is_running_ends :
      (v : VmProcess) (h : History)
      → may_live p (is_running host v h).1 ≡ true
      → may_live p h ≡ true
  unfolding is_running
  is_running_ends v h a = ground arith

  copy_vm_info_ends :
      (vm : Vm) (h : History) → may_live p (copy_vm_info host vm h).1 ≡ true → may_live p h ≡ true
  unfolding copy_vm_info resolve_vm_state
  copy_vm_info_ends vm h a = grind (arith, is_running_ends)

  list_from_ends :
      (d : Dict Vm) (h : History) → may_live p (list_from host d h).1 ≡ true → may_live p h ≡ true
  unfolding list_from
  list_from_ends [] h a = a
  list_from_ends ((_, vm) ∷ d) h a = copy_vm_info_ends vm h (list_from_ends d _ a)

  kill_ends :
      (v : VmProcess) (h : History) → may_live p (kill host v h).1 ≡ true → may_live p h ≡ true
  unfolding kill kill_now close_files
  kill_ends v h a = ground arith

  stop_ends :
      (v : VmProcess) (h : History) → may_live p (stop host v h).1 ≡ true → may_live p h ≡ true
  unfolding stop terminate close_files
  stop_ends v h a = grind (arith, is_running_ends)

  halt_ends :
      (force : Bool) (o : Option VmProcess) (h : History)
      → may_live p (halt host force o h).1 ≡ true
      → may_live p h ≡ true
  unfolding halt shut_down send_ctrl_alt_del
  halt_ends force o h a = grind (arith, kill_ends, stop_ends, put-Calm)

  pub start_vm_ends :
      (i : Bytes) (s : State)
      → may_live p (start_vm host i s).1.history ≡ true
      → may_live p s.history ≡ true
  unfolding start_vm runs
  start_vm_ends i s a = grind (arith, is_running_ends)

  pub get_vm_ends :
      (i : Bytes) (s : State)
      → may_live p (get_vm host i s).1.history ≡ true
      → may_live p s.history ≡ true
  unfolding get_vm
  get_vm_ends i s a = grind (arith, copy_vm_info_ends)

  pub list_vms_ends :
      (s : State) → may_live p (list_vms host s).1.history ≡ true → may_live p s.history ≡ true
  unfolding list_vms
  list_vms_ends s a = list_from_ends s.vms s.history a

  pub stop_vm_ends :
      (i : Bytes) (force : Bool) (s : State)
      → may_live p (stop_vm host i force s).1.history ≡ true
      → may_live p s.history ≡ true
  unfolding stop_vm
  stop_vm_ends i force s a = grind (arith, halt_ends)

  -- `DeleteVM` ends the VM's process and no other.
  pub may_live-release :
      (m : Manager) (i : Bytes) (vm : Vm) (h : History)
      → may_live p (release host m i vm h).1 ≡ (if runs_vm p vm then false else may_live p h)
  unfolding release
  may_live-release m i vm h = grind (
    arith,
    cleanup_jail-Calm,
    cleanup_vm_storage-Calm,
    delete_tap_device-Calm,
    may_live-kill host p,
  )
