-- ===== src/Firecracker/Registry/Devices.antt =====
-- The TAP devices that exist against those of the VMs in the map.
use firecracker_agent.Base.{
  Bytes, true, false, ◌≡◌, sym, ap, ◌∙◌, some, arith, ◌==◌, bytes_dec, if◌then◌else◌,
}
use firecracker_agent.Base.Dict.{lookup, insert, erase, lookup-insert, lookup-erase}
use firecracker_agent.Host.{History}
use firecracker_agent.Host.Ledger.{tap_exists}
use firecracker_agent.Network.{tap_name}
use firecracker_agent.Firecracker.State.{Vm, Manager, State}

-- Each VM has the device named after its id, and it exists; every device that exists is the device of
-- a VM of the map; and no two VMs share one.
pub record Owns (m : Manager) (s : State) : Type 0 where
  pub tap_of :
      (i : Bytes) (vm : Vm)
      → lookup i s.vms ≡ some vm
      → vm.tap_device ≡ tap_name m.network_manager i
  pub up :
      (i : Bytes) (vm : Vm)
      → lookup i s.vms ≡ some vm
      → tap_exists (tap_name m.network_manager i) s.history ≡ true
  pub owned :
      (u : Bytes)
      → tap_exists u s.history ≡ true
      → (i : Bytes) × (vm : Vm) × (lookup i s.vms ≡ some vm) × (tap_name m.network_manager i ≡ u)
  pub apart :
      (i j : Bytes) (v w : Vm)
      → lookup i s.vms ≡ some v
      → lookup j s.vms ≡ some w
      → tap_name m.network_manager i ≡ tap_name m.network_manager j
      → i ≡ j

module _ (m : Manager) where
  abbrev tap : Bytes → Bytes
  tap i = tap_name m.network_manager i

  -- The map and the devices are as before.
  pub same-Owns :
      (s s' : State)
      → s'.vms ≡ s.vms
      → ((u : Bytes) → tap_exists u s'.history ≡ tap_exists u s.history)
      → Owns m s
      → Owns m s'
  same-Owns s s' e q o = record {
    tap_of = λ i vm f. o.tap_of i vm (ap (lookup i) (sym e) ∙ f);
    up = λ i vm f. q (tap i) ∙ o.up i vm (ap (lookup i) (sym e) ∙ f);
    owned = λ u f. let (i, vm, g, n) = o.owned u (sym (q u) ∙ f) in (i, vm, ap (lookup i) e ∙ g, n);
    apart =
        λ i j v w f g n. o.apart i j v w (ap (lookup i) (sym e) ∙ f) (ap (lookup j) (sym e) ∙ g) n;
  }

  -- A VM of the map changes, but for its device.
  pub updated-Owns :
      (i : Bytes) (vm vm' : Vm) (s : State) (h : History)
      → lookup i s.vms ≡ some vm
      → vm'.tap_device ≡ vm.tap_device
      → ((u : Bytes) → tap_exists u h ≡ tap_exists u s.history)
      → Owns m s
      → Owns m (record { vms = insert i vm' s.vms; history = h })
  updated-Owns i vm vm' s h found e q o = record {
    tap_of =
        λ j w f. ground (arith, lookup-insert j i vm' s.vms, o.tap_of i vm found, o.tap_of j w);
    up = λ j w f. ground (arith, lookup-insert j i vm' s.vms, q (tap j), o.up i vm found, o.up j w);
    owned = λ u f.
        let (j, w, g, n) = o.owned u (sym (q u) ∙ f) in
        elim (bytes_dec j i) [
          | yes p ↦ (j, vm', ground (arith, lookup-insert j i vm' s.vms), n)
          | no p ↦ (j, w, ground (arith, lookup-insert j i vm' s.vms), n)
        ];
    apart = λ j k v w f g n.
        let (v', f') = before j v f in let (w', g') = before k w g in o.apart j k v' w' f' g' n;
  }
    where
      before :
          (j : Bytes) (v : Vm)
          → lookup j (insert i vm' s.vms) ≡ some v
          → (v' : Vm) × (lookup j s.vms ≡ some v')
      before j v f = elim (bytes_dec j i) [
        | yes p ↦ (vm, ap (λ x. lookup x s.vms) p ∙ found)
        | no p ↦ (v, ground (arith, lookup-insert j i vm' s.vms))
      ]

  -- A new VM, whose device did not exist.
  pub added-Owns :
      (i : Bytes) (vm : Vm) (s : State) (h : History)
      → vm.tap_device ≡ tap i
      → tap_exists (tap i) s.history ≡ false
      → ((u : Bytes) → tap_exists u h ≡ (if tap i == u then true else tap_exists u s.history))
      → Owns m s
      → Owns m (record { vms = insert i vm s.vms; history = h })
  added-Owns i vm s h e down q o = record {
    tap_of = λ j w f. ground (arith, lookup-insert j i vm s.vms, o.tap_of j w);
    up = λ j w f. ground (arith, lookup-insert j i vm s.vms, q (tap j), o.up j w);
    owned = λ u f. elim (bytes_dec (tap i) u) [
      | yes p ↦ (i, vm, ground (arith, lookup-insert i i vm s.vms), p)
      | no p ↦
          let (j, w, g, n) = o.owned u (ground (arith, q u)) in
          (j, w, ground (arith, lookup-insert j i vm s.vms), n)
    ];
    apart = λ j k v w f g n. ground (
      arith,
      lookup-insert j i vm s.vms,
      lookup-insert k i vm s.vms,
      o.apart j k v w,
      o.up j v,
      o.up k w,
    );
  }

  -- A VM is gone, and its device is deleted.
  pub removed-Owns :
      (i : Bytes) (vm : Vm) (s : State) (h : History)
      → lookup i s.vms ≡ some vm
      → ((u : Bytes) → tap_exists u h ≡ (if tap i == u then false else tap_exists u s.history))
      → Owns m s
      → Owns m (record { vms = erase i s.vms; history = h })
  removed-Owns i vm s h found q o = record {
    tap_of = λ j w f. ground (arith, lookup-erase j i s.vms, o.tap_of j w);
    up = λ j w f.
        ground (arith, lookup-erase j i s.vms, q (tap j), o.up j w, o.apart i j vm w found);
    owned = λ u f.
        let (j, w, g, n) = o.owned u (ground (arith, q u)) in
        (j, w, ground (arith, lookup-erase j i s.vms, q u), n);
    apart = λ j k v w f g n.
        ground (arith, lookup-erase j i s.vms, lookup-erase k i s.vms, o.apart j k v w);
  }
