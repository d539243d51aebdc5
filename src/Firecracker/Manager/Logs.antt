-- ===== src/Firecracker/Manager/Logs.antt =====
-- The log files of the VMs' processes.
use firecracker_agent.Base.{ℕ, Bytes, false, ◌≡◌, none, some, ok, arith, if◌then◌else◌}
use firecracker_agent.Base.Dict.{lookup, lookup-erase}
use firecracker_agent.Host.{Host, History, sigkill}
use firecracker_agent.Host.Ledger.{log_open}
use firecracker_agent.Network
use firecracker_agent.Storage.{Manager, cleanup_vm_storage, cleanup_jail}
use firecracker_agent.Firecracker.Process.{VmProcess, kill, kill_now, close_files, is_none}
use firecracker_agent.Firecracker.State
use firecracker_agent.Firecracker.State.{State, Vm}
use firecracker_agent.Firecracker.Manager.{release, delete_vm}

module _ (host : Host) (log : Bytes) where
  cleanup_vm_storage-log :
      (m : Manager) (i : Bytes) (h : History)
      → log_open log (cleanup_vm_storage host m i h).1 ≡ log_open log h
  unfolding cleanup_vm_storage
  cleanup_vm_storage-log m i h = ground arith

  cleanup_jail-log :
      (m : Manager) (i : Bytes) (h : History)
      → log_open log (cleanup_jail host m i h).1 ≡ log_open log h
  unfolding cleanup_jail
  cleanup_jail-log m i h = ground arith

  delete_tap_device-log :
      (tap : Bytes) (h : History)
      → log_open log (Network.delete_tap_device host tap h).1 ≡ log_open log h
  unfolding Network.delete_tap_device
  delete_tap_device-log tap h = ground arith

  -- The log is closed only if the process could be killed.
  kill-log :
      (p : VmProcess) (pid : ℕ) (h : History)
      → p.cmd ≡ some pid
      → p.log_file ≡ some log
      → log_open log (kill host p h).1
        ≡ (if is_none (host.signal h pid sigkill) then false else log_open log h)
  unfolding kill kill_now close_files
  kill-log p pid h e f = ground arith

  -- `DeleteVM` of a VM in the map succeeds and takes the VM out of the map; but the log file of its
  -- process is closed only if SIGKILL could be sent to the process: if not, a log that is open stays so.
  pub delete_vm-log :
      (m : State.Manager) (i : Bytes) (s : State) (vm : Vm) (p : VmProcess) (pid : ℕ)
      → lookup i s.vms ≡ some vm
      → vm.process ≡ some p
      → p.cmd ≡ some pid
      → p.log_file ≡ some log
      → let (r, s') = delete_vm host m i s in
        (r ≡ ok tt)
        × (lookup i s'.vms ≡ none)
        × (log_open log s'.history ≡ (
            if is_none (host.signal s.history pid sigkill) then false else log_open log s.history))
  unfolding delete_vm release
  delete_vm-log m i s vm p pid found has started logs = (
    ground arith,
    ground (arith, lookup-erase i i s.vms),
    grind (
      arith,
      kill-log p pid s.history started logs,
      cleanup_jail-log,
      cleanup_vm_storage-log,
      delete_tap_device-log,
    ),
  )
