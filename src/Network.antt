-- ===== src/Network.antt =====
-- `internal/network/manager.go`: TAP devices, the bridge and MAC addresses.
pub mod Taps
pub mod Mac
pub mod Bridge
use firecracker_agent.Base.{
  ℕ, zero, suc, Bytes, Bool, true, false, not, ◌&&◌, [], ◌∷◌, ◌++◌, none, some, Result, ok, err,
  Act, ⊤, pure, ◌>>=◌, ◌>>◌, text, take, is_empty, contains_text, hex_byte, bit_xor, if◌then◌else◌,
}
use firecracker_agent.Host.{
  Host, History, Output, tuntap_add, link_up, link_set_master, link_delete, link_show,
  link_add_bridge, addr_show, addr_add, ip_forward, masquerade, combined_output, check_output,
}

pub record Manager : Type 0 where
  pub bridge_name : Bytes
  pub bridge_ip : Bytes
  pub tap_prefix : Bytes

unfoldable pub new_manager : Bytes → Bytes → Bytes → Manager
new_manager name ip prefix = record { bridge_name = name; bridge_ip = ip; tap_prefix = prefix }

-- The name of a VM's device: the prefix, a dash and at most eight bytes of the id.
unfoldable pub tap_name : Manager → Bytes → Bytes
tap_name m vm_id = m.tap_prefix ++ (45 ∷ take 8 vm_id)

-- The failed command's own test on its output: the device was gone already.
unfoldable pub delete_outcome : Output → Result ⊤
delete_outcome out = elim out.error [
  | none ↦ ok tt
  | some e ↦
      if contains_text out.output (text "Cannot find device")
      then ok tt
      else err (
          text "failed to delete TAP device: "
          ++ (e ++ (text " (output: " ++ (out.output ++ text ")"))))
]

-- The part of `DeleteTAPDevice` after the command has run; and `if err != nil` on each command
-- of `CreateTAPDevice` after the first, which cleans up.
unfoldable pub delete_tap_device : Host → Bytes → Act History ⊤
delete_tap_device host tap h =
    let (r, h') = combined_output host (link_delete tap) h in
    elim r [ ok out ↦ (delete_outcome out, h') | err e ↦ (err e, h') ]

unfoldable pub or_delete : Host → Bytes → Bytes → Output → Act History ⊤
or_delete host tap prefix out h = elim out.error [
  | none ↦ (ok tt, h)
  | some e ↦ let (r, h') = delete_tap_device host tap h in check_output prefix out h'
]

unfoldable pub create_tap_device : Host → Manager → Bytes → Act History Bytes
create_tap_device host m vm_id =
    let tap = tap_name m vm_id in
    do
      added ← combined_output host (tuntap_add tap)
      check_output (text "failed to create TAP device: ") added
      up ← combined_output host (link_up tap)
      or_delete host tap (text "failed to bring up TAP device: ") up
      joined ← combined_output host (link_set_master tap m.bridge_name)
      or_delete host tap (text "failed to add TAP to bridge: ") joined
      pure tap

-- The test on the answer of `ip addr add`.
unfoldable pub check_assigned : Output → Act History ⊤
check_assigned out h =
    if contains_text out.output (text "File exists")
    then (ok tt, h)
    else check_output (text "failed to assign IP to bridge: ") out h

abbrev succeeded : Output → Bool
succeeded out = elim out.error [ none ↦ true | some _ ↦ false ]

unfoldable pub assign_ip : Host → Manager → Act History ⊤
assign_ip host m = do
  shown ← combined_output host (addr_show m.bridge_name)
  let needed = succeeded shown && not (contains_text shown.output m.bridge_ip)
  elim needed [
    | true ↦ (combined_output host (addr_add m.bridge_ip m.bridge_name) >>= check_assigned)
    | false ↦ pure tt
  ]

unfoldable pub ensure_bridge_exists : Host → Manager → Act History ⊤
ensure_bridge_exists host m = do
  shown ← combined_output host (link_show m.bridge_name)
  elim (succeeded shown) [
    | true ↦ pure tt
    | false ↦
        (combined_output host (link_add_bridge m.bridge_name)
          >>= check_output (text "failed to create bridge: "))
  ]
  up ← combined_output host (link_up m.bridge_name)
  check_output (text "failed to bring up bridge: ") up
  elim (is_empty m.bridge_ip) [ true ↦ pure tt | false ↦ assign_ip host m ]

-- `vmID[i*2]^vmID[i*2+1]` printed by `:%02x` for each pair left, and `:00` where the id is short.
unfoldable pub mac_octets : ℕ → Bytes → Bytes
mac_octets zero s = []
mac_octets (suc n) (a ∷ (b ∷ s)) = 58 ∷ (hex_byte (bit_xor a b) ++ mac_octets n s)
mac_octets (suc n) (a ∷ []) = text ":00" ++ mac_octets n []
mac_octets (suc n) [] = text ":00" ++ mac_octets n []

unfoldable pub generate_mac : Bytes → Bytes
generate_mac vm_id = text "02:FC" ++ mac_octets 4 vm_id

unfoldable pub configure_iptables : Host → Bytes → Bytes → Act History ⊤
configure_iptables host tap vm_ip = do
  combined_output host ip_forward
  combined_output host masquerade
  pure tt

unfoldable pub remove_iptables_rules : Bytes → Bytes → Act History ⊤
remove_iptables_rules tap vm_ip = pure tt
