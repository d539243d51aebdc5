-- ===== src/Firecracker/State.antt =====
-- `internal/firecracker/manager.go`: the data of the VM manager, and `NewManager`.
use firecracker_agent.Base.{
  ℕ, ℤ, Bytes, Bool, false, Option, none, some, [], Result, Act, pure, ◌>>◌, wrap, text,
}
use firecracker_agent.Base.Dict.{Dict}
use firecracker_agent.Host.{Host, History}
use firecracker_agent.Config.{Config}
use firecracker_agent.Network
use firecracker_agent.Storage
use firecracker_agent.Firecracker.Process.{VmProcess}

pub data VmState : Type 0 where
  unspecified creating running stopping stopped deleting error : VmState

pub record VmInfo : Type 0 where
  pub vm_id : Bytes
  pub state : VmState
  pub vcpu_count : ℤ
  pub memory_mb : ℤ
  pub ip_address : Bytes
  pub socket_path : Bytes
  pub created_at : ℕ
  pub metadata : Dict Bytes

pub record Vm : Type 0 where
  pub info : VmInfo
  pub process : Option VmProcess
  pub socket_path : Bytes
  pub tap_device : Bytes
  pub created_at : ℕ

pub record CreateVmRequest : Type 0 where
  pub vm_id : Bytes
  pub vcpu_count : ℤ
  pub memory_mb : ℤ
  pub ip_address : Bytes
  pub kernel_path : Bytes
  pub rootfs_path : Bytes
  pub metadata : Dict Bytes

-- The fields of `Manager` that never change.
pub record Manager : Type 0 where
  pub cfg : Config
  pub network_manager : Network.Manager
  pub storage_manager : Storage.Manager

-- `m.vms`, with the history of the host.
pub record State : Type 0 where
  pub vms : Dict Vm
  pub history : History

-- A call that does not touch `m.vms`.
abbrev pub on_host : {A : Type 0} → Act History A → Act State A
on_host m s = let (r, h) = m s.history in (r, record s { history = h })

-- `m.cfg.Firecracker.UseJailer != nil && *m.cfg.Firecracker.UseJailer`
abbrev pub use_jailer : Manager → Bool
use_jailer m = elim m.cfg.firecracker.use_jailer [ none ↦ false | some b ↦ b ]

unfoldable pub managers_of : Config → Manager
managers_of cfg = record {
  cfg = cfg;
  network_manager =
      Network.new_manager cfg.network.bridge_name cfg.network.bridge_ip cfg.network.tap_prefix;
  storage_manager = Storage.new_manager cfg.storage.vms_dir cfg.storage.use_overlay;
}

-- The manager starts with no VM.
unfoldable pub new_manager : Host → Config → History → Result Manager × State
new_manager host cfg h =
    let m = managers_of cfg in
    let (r, h') =
      (do
        wrap (text "failed to ensure bridge exists: ")
            (Network.ensure_bridge_exists host m.network_manager)
        wrap (text "failed to ensure VMs directory: ")
            (Storage.ensure_vms_dir host m.storage_manager)
        pure m)
        h in
    (r, record { vms = []; history = h' })
