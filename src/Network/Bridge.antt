-- ===== src/Network/Bridge.antt =====
-- What `EnsureBridgeExists` has done when it succeeds.
use firecracker_agent.Base.{
  ℕ, suc, ◌<◌, Bytes, Bool, true, false, not, ◌&&◌, ◌||◌, ◌≡◌, [], ◌∷◌, text, arith, is_empty,
  contains_text, ◌==◌, if◌then◌else◌,
}
use firecracker_agent.Host.{Host, History, Event, ran, link_up, addr_show, addr_add}
use firecracker_agent.Host.Ledger.{succeeded}
use firecracker_agent.Network.{Manager, ensure_bridge_exists, assign_ip, check_assigned}
use firecracker_agent.Network.Taps.{is_ok}

-- `ip link set <bridge> up` has succeeded.
abbrev pub brought_up : Bytes → Event → Bool
brought_up b (ran (link_up d) out) = (d == b) && succeeded out
brought_up b _ = false

-- `ip addr show` of the bridge failed, or its output contains the text of the address (a longer address
-- that ends in it counts); or the address was added, or `ip` said `File exists`.
abbrev pub settled_address : Manager → Event → Bool
settled_address m (ran (addr_show d) out) =
    (d == m.bridge_name) && (not (succeeded out) || contains_text out.output m.bridge_ip)
settled_address m (ran (addr_add ip d) out) =
    (ip == m.bridge_ip)
    && ((d == m.bridge_name) && (succeeded out || contains_text out.output (text "File exists")))
settled_address m _ = false

-- How often it happened.
abbrev pub times : (Event → Bool) → History → ℕ
times p [] = 0
times p (e ∷ h) = if p e then suc (times p h) else times p h

-- If `EnsureBridgeExists` succeeds then it has brought the bridge up, and, if an address is configured,
-- then `ip addr show` printed a text that contains the address, be it as part of a longer one, or `ip
-- addr show` failed, which the code passes over, or the address was added, or `ip` answered that it
-- exists.
pub ensure_bridge_exists-times :
    (host : Host) (m : Manager) (h : History)
    → let (r, h') = ensure_bridge_exists host m h in
      is_ok r ≡ true
      → (times (brought_up m.bridge_name) h < times (brought_up m.bridge_name) h')
        × (is_empty m.bridge_ip ≡ false
            → times (settled_address m) h < times (settled_address m) h')
unfolding ensure_bridge_exists assign_ip check_assigned
ensure_bridge_exists-times host m h works = (ground arith, λ configured. ground arith)
