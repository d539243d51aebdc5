-- ===== src/Agent/Watch/Delivery.antt =====
-- The events that a watcher asks for.
use firecracker_agent.Base.{Bytes, Bool, true, not, ◌≡◌, refl, [], ◌∷◌, ◌==◌}
use firecracker_agent.Agent.Events.{VmEvent}
use firecracker_agent.Agent.Watch.{skips}

-- The request asks for the VM of the event, or for all VMs.
abbrev pub asked : Bytes → VmEvent → Bool
asked [] e = true
asked (c ∷ vm_id) e = e.vm_id == (c ∷ vm_id)

pub skips-asked : (vm_id : Bytes) (e : VmEvent) → skips vm_id e ≡ not (asked vm_id e)
skips-asked [] e = refl
skips-asked (c ∷ vm_id) e = refl
