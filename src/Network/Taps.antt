-- ===== src/Network/Taps.antt =====
-- TAP devices: names, and what creating and deleting leaves behind.
use firecracker_agent.Base.{
  ◌+◌, ◌≤◌, Bytes, Bool, true, false, ◌≡◌, ◌↔◌, ◌⊎◌, inl, inr, ap, Result, ok, err, ◌∷◌, ◌++◌,
  arith, take, length, length-append, length-take-le, ◌==◌, if◌then◌else◌, text,
}
use mathlib.Core.List.{append_cancel_left, tail-eq_of_cons-eq}
use firecracker_agent.Host.{Host, History, Output, argv, tuntap_add, link_up, link_set_master, ran}
use firecracker_agent.Host.Ledger.{tap_exists, succeeded, TapLaws}
use firecracker_agent.Network.{Manager, tap_name, delete_tap_device, or_delete, create_tap_device}

-- Two ids have the same TAP device exactly if they agree in their first eight bytes.
pub tap_name-eq_iff :
    (m : Manager) (a b : Bytes) → (tap_name m a ≡ tap_name m b) ↔ (take 8 a ≡ take 8 b)
unfolding tap_name
tap_name-eq_iff m a b = (
  λ e. tail-eq_of_cons-eq (append_cancel_left m.tap_prefix _ _ e),
  λ e. ap (λ s. m.tap_prefix ++ (45 ∷ s)) e,
)

pub length-tap_name-le : (m : Manager) (a : Bytes) → length (tap_name m a) ≤ length m.tap_prefix + 9
unfolding tap_name
length-tap_name-le m a =
    omega (arith, length-append m.tap_prefix (45 ∷ take 8 a), length-take-le 8 a)

-- Deleting a device that exists removes it, and deleting changes no other device.
pub tap_exists-delete :
    (host : Host)
    → TapLaws host
    → (t u : Bytes) (h : History)
    → tap_exists u (delete_tap_device host t h).1 ≡ (if t == u then false else tap_exists u h)
unfolding delete_tap_device
tap_exists-delete host laws t u h = ground (arith, laws.delete_existing u h)

abbrev pub is_ok : {A : Type 0} → Result A → Bool
is_ok (ok _) = true
is_ok (err _) = false

-- One failing command after the first: the device is deleted again.
tap_exists-or_delete :
    (host : Host)
    → TapLaws host
    → (t prefix u : Bytes) (out : Output) (h : History)
    → let (r, h') = or_delete host t prefix out h in
      (is_ok r ≡ succeeded out)
      × (tap_exists u h'
          ≡ (if succeeded out then tap_exists u h else if t == u then false else tap_exists u h))
unfolding or_delete
tap_exists-or_delete host laws t prefix u out h = ground (arith, tap_exists-delete host laws t u h)

-- The three commands of a creation have run and succeeded, in order, and nothing else has.
abbrev pub Attached : Bytes → Bytes → History → History → Type 0
Attached tap bridge h h' =
    (added : Output) × (up : Output) × (joined : Output) × (h'
      ≡ ran (link_set_master tap bridge) joined
        ∷ (ran (link_up tap) up ∷ (ran (tuntap_add tap) added ∷ h)))
    × (succeeded added ≡ true)
    × (succeeded up ≡ true)
    × (succeeded joined ≡ true)

create_tap_device-Attached :
    (host : Host) (m : Manager) (vm_id : Bytes) (h : History)
    → let (r, h') = create_tap_device host m vm_id h in
      is_ok r ≡ true → Attached (tap_name m vm_id) m.bridge_name h h'
unfolding create_tap_device or_delete
create_tap_device-Attached host m vm_id h works =
    let tap = tap_name m vm_id in
    let out = host.run h (argv (tuntap_add tap)) in
    let h1 : History = ran (tuntap_add tap) out ∷ h in
    let up = host.run h1 (argv (link_up tap)) in
    let h2 : History = ran (link_up tap) up ∷ h1 in
    let joined = host.run h2 (argv (link_set_master tap m.bridge_name)) in
    (out, up, joined, ground arith, ground arith, ground arith, ground arith)

-- Which devices exist afterwards.
create_tap_device_kept :
    (host : Host)
    → TapLaws host
    → (m : Manager) (vm_id u : Bytes) (h : History)
    → let (r, h') = create_tap_device host m vm_id h in
      ((r ≡ ok (tap_name m vm_id))
        × ((if tap_name m vm_id == u then tap_exists u h else false) ≡ false)
        × (tap_exists u h' ≡ (if tap_name m vm_id == u then true else tap_exists u h)))
      ⊎ ((is_ok r ≡ false) × (tap_exists u h' ≡ tap_exists u h))
unfolding create_tap_device
create_tap_device_kept host laws m vm_id u h =
    let tap = tap_name m vm_id in
    let out = host.run h (argv (tuntap_add tap)) in
    let h1 : History = ran (tuntap_add tap) out ∷ h in
    let up = host.run h1 (argv (link_up tap)) in
    let h2 : History = ran (link_up tap) up ∷ h1 in
    let (r3, h3) = or_delete host tap (text "failed to bring up TAP device: ") up h2 in
    let joined = host.run h3 (argv (link_set_master tap m.bridge_name)) in
    ground (
      arith,
      laws.add_existing u h,
      tap_exists-or_delete host laws tap (text "failed to bring up TAP device: ") u up h2,
      tap_exists-or_delete host laws tap (text "failed to add TAP to bridge: ") u joined
          (ran (link_set_master tap m.bridge_name) joined ∷ h3),
    )

-- With the laws of `ip`: creating a device succeeds only if it did not exist, and then it exists, its
-- name is given, the other devices are as they were, and exactly three commands have run, all with
-- success: the device was added, set up and joined to the bridge. Or it fails and leaves it as it was
-- which devices `u` exist.
pub create_tap_device_atomic :
    (host : Host)
    → TapLaws host
    → (m : Manager) (vm_id u : Bytes) (h : History)
    → let (r, h') = create_tap_device host m vm_id h in
      ((r ≡ ok (tap_name m vm_id))
        × ((if tap_name m vm_id == u then tap_exists u h else false) ≡ false)
        × (tap_exists u h' ≡ (if tap_name m vm_id == u then true else tap_exists u h))
        × Attached (tap_name m vm_id) m.bridge_name h h')
      ⊎ ((is_ok r ≡ false) × (tap_exists u h' ≡ tap_exists u h))
create_tap_device_atomic host laws m vm_id u h =
    elim (create_tap_device_kept host laws m vm_id u h) [
      | inl (e, new, now) ↦
          inl (e, new, now, create_tap_device-Attached host m vm_id h (ap is_ok e))
      | inr failed ↦ inr failed
    ]
