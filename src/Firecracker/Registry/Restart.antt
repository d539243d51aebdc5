-- ===== src/Firecracker/Registry/Restart.antt =====
-- The map of VMs is kept in memory only: what a new manager knows of the VMs of an older one.
use firecracker_agent.Base.{ℕ, Bytes, true, false, ◌≡◌, refl, ap, ◌∙◌, none, some, arith}
use firecracker_agent.Base.Dict.{lookup}
use firecracker_agent.Host.{Host}
use firecracker_agent.Host.Ledger.{tap_exists, alive, TapLaws}
use firecracker_agent.Config.{Config}
use firecracker_agent.Network.{tap_name}
use firecracker_agent.Network.Taps.{is_ok}
use firecracker_agent.Firecracker.State.{State, Vm, CreateVmRequest, new_manager, managers_of}
use firecracker_agent.Firecracker.Create.{create_vm}
use firecracker_agent.Firecracker.Create.Leaks.{create_vm-tap_exists}
use firecracker_agent.Firecracker.Registry.Devices.{Owns}
use firecracker_agent.Firecracker.Registry.Start.{started, new_manager-Quiet, new_manager-Calm}

module _ (host : Host) (laws : TapLaws host) (cfg : Config) where
  create_taken :
      (req : CreateVmRequest) (s : State)
      → tap_exists (tap_name (managers_of cfg).network_manager req.vm_id) s.history ≡ true
      → is_ok (create_vm host (managers_of cfg) req s).0 ≡ false
  create_taken req s up = ground (
    arith,
    create_vm-tap_exists host laws (managers_of cfg)
        (tap_name (managers_of cfg).network_manager req.vm_id) req s,
  )

  -- With the laws of `ip`, for a VM in the map of a manager whose VMs have the devices that exist: after
  -- `NewManager` is called again the map does not have it, although its device exists as before, and
  -- every process that lived lives; and no `CreateVM` with its id succeeds.
  pub new_manager_forgets :
      (s : State) (i : Bytes) (vm : Vm)
      → Owns (managers_of cfg) s
      → lookup i s.vms ≡ some vm
      → let s' = (new_manager host cfg s.history).1 in
        (lookup i s'.vms ≡ none)
        × (tap_exists vm.tap_device s'.history ≡ true)
        × ((p : ℕ) → alive p s'.history ≡ alive p s.history)
        × ((req : CreateVmRequest)
            → req.vm_id ≡ i
            → is_ok (create_vm host (managers_of cfg) req s').0 ≡ false)
  new_manager_forgets s i vm o found =
      let held =
        new_manager-Quiet host cfg s.history (tap_name (managers_of cfg).network_manager i)
        ∙ o.up i vm found in
      (
        unfold new_manager lookup in refl,
        ap (λ t. tap_exists t (started host cfg s.history).history) (o.tap_of i vm found) ∙ held,
        λ p. new_manager-Calm host cfg s.history p,
        λ req e. create_taken req (started host cfg s.history) (
            ap
              (λ j.
                tap_exists (tap_name (managers_of cfg).network_manager j)
                  (started host cfg s.history).history)
              e
            ∙ held),
      )
