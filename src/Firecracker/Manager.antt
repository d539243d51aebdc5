-- ===== src/Firecracker/Manager.antt =====
-- The other methods of `internal/firecracker/manager.go`. Each is one critical section here; what
-- `StopVM` does between its two locks stands as one step (Interleaving.antt takes it apart).
pub mod Devices
pub mod Processes
pub mod Reports
pub mod Logs
use firecracker_agent.Base.{
  sure, ◌*◌, Bytes, Bool, true, false, List, [], ◌∷◌, ◌++◌, Option, none, some, ok, err, Act, ⊤,
  pure, fail, ◌>>=◌, ◌>>◌, ignore, text, is_empty, if◌then◌else◌,
}
use firecracker_agent.Base.Dict.{Dict, lookup, insert, erase}
use firecracker_agent.Host.{Host, History, sleep}
use firecracker_agent.Network
use firecracker_agent.Storage
use firecracker_agent.Firecracker.Client.{send_ctrl_alt_del}
use firecracker_agent.Firecracker.Process.{VmProcess, stop, kill, is_running, millisecond}
use firecracker_agent.Firecracker.State.{
  VmState, VmInfo, stopped, Vm, Manager, State, on_host, use_jailer,
}

unfoldable pub not_found : Bytes → Bytes
not_found vm_id = text "VM " ++ (vm_id ++ text " not found")

-- `vm.Process != nil && vm.Process.IsRunning()`
unfoldable pub runs : Host → Vm → History → Bool × History
runs host vm h = elim vm.process [ none ↦ (false, h) | some p ↦ is_running host p h ]

unfoldable pub start_vm : Host → Bytes → Act State ⊤
start_vm host vm_id s = elim (lookup vm_id s.vms) [
  | none ↦ (err (not_found vm_id), s)
  | some vm ↦
      (do
        alive ← on_host (sure (runs host vm))
        elim alive [
          | true ↦ pure tt
          | false ↦ fail (
              text "VM "
              ++ (vm_id ++ text " cannot be restarted - Firecracker VMs must be recreated"))
        ])
        s
]

-- The graceful branch of `StopVM`.
unfoldable pub shut_down : Host → VmProcess → Act History ⊤
shut_down host p h =
    let (r, h') = send_ctrl_alt_del host p.client h in
    elim r [
      | err _ ↦ ignore (kill host p) h'
      | ok _ ↦ (sleep (2000 * millisecond) >> ignore (stop host p)) h'
    ]

unfoldable pub halt : Host → Bool → Option VmProcess → Act History ⊤
halt host force none h = (ok tt, h)
halt host force (some p) h = if force then ignore (kill host p) h else shut_down host p h

-- `vm.Info.State = VM_STATE_STOPPED`
abbrev pub mark_stopped : Vm → Vm
mark_stopped vm = record vm { info = record (vm.info) { state = stopped } }

unfoldable pub stop_vm : Host → Bytes → Bool → Act State ⊤
stop_vm host vm_id force s = elim (lookup vm_id s.vms) [
  | none ↦ (err (not_found vm_id), s)
  | some vm ↦
      let (r, h) = halt host force vm.process s.history in
      (ok tt, record { vms = insert vm_id (mark_stopped vm) s.vms; history = h })
]

-- All that `DeleteVM` does to the host; every failure is only logged.
unfoldable pub release : Host → Manager → Bytes → Vm → Act History ⊤
release host m vm_id vm = do
  elim vm.process [ none ↦ pure tt | some p ↦ ignore (kill host p) ]
  elim (is_empty vm.tap_device) [
    | true ↦ pure tt
    | false ↦ ignore (Network.delete_tap_device host vm.tap_device)
  ]
  elim (use_jailer m) [
    | true ↦ ignore (Storage.cleanup_jail host m.storage_manager vm_id)
    | false ↦ pure tt
  ]
  ignore (Storage.cleanup_vm_storage host m.storage_manager vm_id)

unfoldable pub delete_vm : Host → Manager → Bytes → Act State ⊤
delete_vm host m vm_id s = elim (lookup vm_id s.vms) [
  | none ↦ (err (not_found vm_id), s)
  | some vm ↦
      let (r, h) = release host m vm_id vm s.history in
      (ok tt, record { vms = erase vm_id s.vms; history = h })
]

unfoldable pub resolve_vm_state : Host → Vm → History → VmState × History
resolve_vm_state host vm h = elim vm.process [
  | none ↦ (vm.info.state, h)
  | some p ↦ let (alive, h') = is_running host p h in (if alive then vm.info.state else stopped, h')
]

unfoldable pub copy_vm_info : Host → Vm → History → VmInfo × History
copy_vm_info host vm h =
    let (state, h') = resolve_vm_state host vm h in (record (vm.info) { state = state }, h')

unfoldable pub get_vm : Host → Bytes → Act State VmInfo
get_vm host vm_id s = elim (lookup vm_id s.vms) [
  | none ↦ (err (not_found vm_id), s)
  | some vm ↦ on_host (sure (copy_vm_info host vm)) s
]

-- The loop of `ListVMs`.
unfoldable pub list_from : Host → Dict Vm → History → List VmInfo × History
list_from host [] h = ([], h)
list_from host ((_, vm) ∷ rest) h =
    let (info, h') = copy_vm_info host vm h in
    let (infos, h'') = list_from host rest h' in (info ∷ infos, h'')

unfoldable pub list_vms : Host → State → List VmInfo × State
list_vms host s =
    let (infos, h) = list_from host s.vms s.history in (infos, record s { history = h })
