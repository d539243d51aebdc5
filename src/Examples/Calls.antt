-- ===== src/Examples/Calls.antt =====
-- Calls of the VM manager on the working host, and on one where each process crashes.
use firecracker_agent.Base.{
  ℕ, true, false, ◌≡◌, ◌↔◌, ◌≢◌, ◌⊎◌, refl, List, [], ◌∷◌, some, ok, text, take, ◌==◌,
  if◌then◌else◌, bytes_dec, ℕ_discrete,
}
use firecracker_agent.Base.Dict.{lookup}
use firecracker_agent.Host.Ledger.{tap_exists, alive}
use firecracker_agent.Network.{tap_name, create_tap_device}
use firecracker_agent.Network.Taps.{is_ok, tap_name-eq_iff, create_tap_device_atomic, Attached}
use firecracker_agent.Firecracker.Process.{kill, wait_for_socket}
use firecracker_agent.Firecracker.Process.Killing.{kill-alive}
use firecracker_agent.Firecracker.Process.Waiting.{Waited, wait_for_socket-Waited}
use firecracker_agent.Firecracker.State.{running, stopped}
use firecracker_agent.Firecracker.Create.{create_vm}
use firecracker_agent.Firecracker.Create.Leaks.{create_vm-tap_exists}
use firecracker_agent.Firecracker.Create.Orphans.{create_vm-Survives, Survives}
use firecracker_agent.Firecracker.Manager.{stop_vm, get_vm, list_vms}
use firecracker_agent.Firecracker.Manager.Reports.{CopiesOf, list_vms-CopiesOf, get_vm-stop_vm}
use firecracker_agent.Firecracker.Registry.{
  Call, create, stop, delete, list, perform, perform_all, phase, moves, target,
}
use firecracker_agent.Firecracker.Registry.Moves.{perform-moves}
use firecracker_agent.Firecracker.Registry.Invariant.{IsValid, perform_all-IsValid}
use firecracker_agent.Firecracker.Registry.Devices.{Owns}
use firecracker_agent.Firecracker.Registry.Ownership.{perform_all-Owns}
use firecracker_agent.Firecracker.Registry.Processes.{NoOrphans, perform_all-NoOrphans}
use firecracker_agent.Examples.Hosts.{
  working_host, crashing_host, working_host_taps, working_host_clock,
}
use firecracker_agent.Examples.Machines.{
  manager, request, process, vm, past, one_vm, found, one_vm-IsValid, one_vm-Owns, one_vm-NoOrphans,
}

-- Two VMs are created, one of them twice; then calls on both.
abbrev calls : List Call
calls =
    create (record request { vm_id = text "db" })
    ∷ (create request
        ∷ (stop (text "web") true ∷ (delete (text "web") ∷ (create request ∷ (list ∷ [])))))

perform_all-IsValid_example : IsValid (perform_all working_host manager calls one_vm)
perform_all-IsValid_example = perform_all-IsValid working_host manager calls one_vm one_vm-IsValid

perform_all-Owns_example : Owns manager (perform_all working_host manager calls one_vm)
perform_all-Owns_example =
    perform_all-Owns working_host working_host_taps manager calls one_vm one_vm-Owns

perform_all-NoOrphans_example : NoOrphans (perform_all crashing_host manager calls one_vm)
perform_all-NoOrphans_example =
    perform_all-NoOrphans crashing_host manager calls one_vm one_vm-NoOrphans

perform-moves_example :
    let (done, s) = perform working_host manager (stop (text "web") true) one_vm in
    (phase s (text "web") ≡ moves (stop (text "web") true) done (text "web") (some running))
    × (done ≡ true)
unfolding phase target lookup text bytes_dec
perform-moves_example =
    perform-moves working_host manager (stop (text "web") true) one_vm (text "web")

create_vm-tap_exists_example :
    let (r, s) = create_vm working_host manager (record request { vm_id = text "db" }) one_vm in
    let tap = tap_name manager.network_manager (text "db") in
    let before = tap_exists (text "tap-db") one_vm.history in
    (tap_exists (text "tap-db") s.history
      ≡ (if is_ok r then if tap == text "tap-db" then true else before else before))
    × (is_ok r ≡ true → (if tap == text "tap-db" then before else false) ≡ false)
create_vm-tap_exists_example =
    create_vm-tap_exists working_host working_host_taps manager (text "tap-db")
      (record request { vm_id = text "db" }) one_vm

create_vm-Survives_example :
    Survives crashing_host manager 7
      (text "db")
      one_vm
      (create_vm crashing_host manager (record request { vm_id = text "db" }) one_vm)
create_vm-Survives_example =
    create_vm-Survives crashing_host manager 7 (record request { vm_id = text "db" }) one_vm

create_tap_device_atomic_example :
    let (r, h) = create_tap_device working_host manager.network_manager (text "db") past in
    ((r ≡ ok (tap_name manager.network_manager (text "db")))
      × ((if tap_name manager.network_manager (text "db") == text "tap-web" then true else false)
          ≡ false)
      × (tap_exists (text "tap-web") h
          ≡ (if tap_name manager.network_manager (text "db") == text "tap-web" then true else true))
      × Attached (tap_name manager.network_manager (text "db")) (text "br0") past h)
    ⊎ ((is_ok r ≡ false) × (tap_exists (text "tap-web") h ≡ true))
unfolding text bytes_dec
create_tap_device_atomic_example =
    create_tap_device_atomic working_host working_host_taps manager.network_manager (text "db")
      (text "tap-web") past

tap_name-eq_iff_example :
    (tap_name manager.network_manager (text "customer-1")
      ≡ tap_name manager.network_manager (text "customer-2"))
    ↔ (take 8 (text "customer-1") ≡ take 8 (text "customer-2"))
tap_name-eq_iff_example =
    tap_name-eq_iff manager.network_manager (text "customer-1") (text "customer-2")

kill-alive_example :
    let (r, h) = kill working_host process past in
    (is_ok r ≡ true → alive 7 h ≡ false)
    × (is_ok r ≡ false → alive 7 h ≡ true)
    × ((q : ℕ) → q ≢ 7 → alive q h ≡ alive q past)
unfolding ℕ_discrete
kill-alive_example = kill-alive working_host process 7 past refl

wait_for_socket-Waited_example :
    Waited
      (text "/run/vm.socket")
      500
      (wait_for_socket working_host (text "/run/vm.socket") 500 past)
wait_for_socket-Waited_example =
    wait_for_socket-Waited working_host working_host_clock (text "/run/vm.socket") 500 past

list_vms-CopiesOf_example :
    let (infos, s) = list_vms working_host one_vm in
    CopiesOf working_host one_vm.vms past infos s.history × (s.vms ≡ one_vm.vms)
list_vms-CopiesOf_example = list_vms-CopiesOf working_host one_vm

get_vm-stop_vm_example :
    (get_vm working_host (text "web") (stop_vm working_host (text "web") false one_vm).1).0
    ≡ ok (record (vm.info) { state = stopped })
get_vm-stop_vm_example = get_vm-stop_vm working_host (text "web") false one_vm vm found
