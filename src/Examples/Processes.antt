-- ===== src/Examples/Processes.antt =====
-- Processes that are stopped, logs, the bridge, and a restart of the agent, on the working host; a process that has crashed is stopped.
use firecracker_agent.Base.{
  bytes_dec, [], ◌<◌, contains_text, is_empty, ℕ, true, false, ◌≡◌, ◌≢◌, refl, none, ok, text,
}
use firecracker_agent.Base.Dict.{lookup}
use firecracker_agent.Host.{argv}
use firecracker_agent.Host.Ledger.{tap_exists, alive, may_live, log_open}
use firecracker_agent.Network
use firecracker_agent.Storage
use firecracker_agent.Network.Bridge.{
  brought_up, settled_address, times, ensure_bridge_exists-times,
}
use firecracker_agent.Network.Taps.{is_ok}
use firecracker_agent.Firecracker.Process.{stop}
use firecracker_agent.Firecracker.Process.Stopping.{stop-may_live}
use firecracker_agent.Firecracker.State.{CreateVmRequest, new_manager, managers_of}
use firecracker_agent.Firecracker.Create.{create_vm}
use firecracker_agent.Firecracker.Manager.{delete_vm}
use firecracker_agent.Firecracker.Manager.Logs.{delete_vm-log}
use firecracker_agent.Firecracker.Registry.Restart.{new_manager_forgets}
use firecracker_agent.Examples.Hosts.{working_host, crashing_host, working_host_taps}
use firecracker_agent.Examples.Machines.{
  config, manager, process, vm, past, one_vm, found, one_vm-Owns,
}

stop-may_live_example :
    let (r, h) = stop crashing_host process past in
    (r ≡ ok tt) × (may_live 7 h ≡ false) × ((q : ℕ) → q ≢ 7 → may_live q h ≡ may_live q past)
stop-may_live_example = stop-may_live crashing_host process 7 past refl

delete_vm-log_example :
    let (r, s) = delete_vm working_host manager (text "web") one_vm in
    (r ≡ ok tt)
    × (lookup (text "web") s.vms ≡ none)
    × (log_open (text "/srv/vms/web/firecracker.log") s.history ≡ false)
delete_vm-log_example =
    delete_vm-log working_host (text "/srv/vms/web/firecracker.log") manager (text "web") one_vm vm
      process 7 found refl refl refl

new_manager_forgets_example :
    let s = (new_manager working_host config one_vm.history).1 in
    (lookup (text "web") s.vms ≡ none)
    × (tap_exists vm.tap_device s.history ≡ true)
    × ((p : ℕ) → alive p s.history ≡ alive p past)
    × ((req : CreateVmRequest)
        → req.vm_id ≡ text "web"
        → is_ok (create_vm working_host (managers_of config) req s).0 ≡ false)
unfolding managers_of Network.new_manager Storage.new_manager
new_manager_forgets_example =
    new_manager_forgets working_host working_host_taps config one_vm (text "web") vm one_vm-Owns
      found

bridge_works : is_ok (Network.ensure_bridge_exists working_host manager.network_manager []).0 ≡ true
unfolding Network.ensure_bridge_exists Network.assign_ip Network.check_assigned text contains_text
    argv bytes_dec
bridge_works = refl

ensure_bridge_exists-times_example :
    let b = manager.network_manager in
    let h = (Network.ensure_bridge_exists working_host b []).1 in
    (0 < times (brought_up b.bridge_name) h)
    × (is_empty b.bridge_ip ≡ false → 0 < times (settled_address b) h)
ensure_bridge_exists-times_example =
    ensure_bridge_exists-times working_host manager.network_manager [] bridge_works
