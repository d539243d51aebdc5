-- ===== src/Firecracker/Registry/Start.antt =====
-- The manager as `NewManager` leaves it: its map is valid, and no device or process has changed.
use firecracker_agent.Base.{ℕ, Bytes, ◌≡◌, arith}
use firecracker_agent.Base.Dict.{lookup}
use firecracker_agent.Host.{Host, History}
use firecracker_agent.Host.Ledger.{tap_exists, alive}
use firecracker_agent.Network
use firecracker_agent.Storage
use firecracker_agent.Config.{Config}
use firecracker_agent.Firecracker.State.{State, new_manager}
use firecracker_agent.Firecracker.Registry.Invariant.{IsValid}

module _ (host : Host) (cfg : Config) (h : History) where
  abbrev pub started : State
  started = (new_manager host cfg h).1

  ensure_bridge-Quiet :
      (u : Bytes) (m : Network.Manager) (g : History)
      → tap_exists u (Network.ensure_bridge_exists host m g).1 ≡ tap_exists u g
  unfolding Network.ensure_bridge_exists Network.assign_ip Network.check_assigned
  ensure_bridge-Quiet u m g = ground arith

  ensure_bridge-Calm :
      (p : ℕ) (m : Network.Manager) (g : History)
      → alive p (Network.ensure_bridge_exists host m g).1 ≡ alive p g
  unfolding Network.ensure_bridge_exists Network.assign_ip Network.check_assigned
  ensure_bridge-Calm p m g = ground arith

  pub new_manager-Quiet : (u : Bytes) → tap_exists u started.history ≡ tap_exists u h
  unfolding new_manager Storage.ensure_vms_dir
  new_manager-Quiet u = grind (arith, ensure_bridge-Quiet)

  pub new_manager-Calm : (p : ℕ) → alive p started.history ≡ alive p h
  unfolding new_manager Storage.ensure_vms_dir
  new_manager-Calm p = grind (arith, ensure_bridge-Calm)

  pub new_manager-IsValid : IsValid started
  unfolding new_manager lookup
  new_manager-IsValid = record { once = tt; named = λ i vm f. cc; settled = λ i vm f. cc }
