-- ===== src/Config.antt =====
-- `pkg/config/config.go`: the agent's configuration and its defaults.
pub mod Complete
use firecracker_agent.Base.{
  ℤ, pos, Bytes, Bool, true, Option, none, some, Result, ok, err, ◌++◌, text, or_default, is_zero,
  if◌then◌else◌,
}

pub record ServerConfig : Type 0 where
  pub host : Bytes
  pub port : ℤ

-- `use_jailer` is a pointer: `none` where the file does not give it.
pub record FirecrackerConfig : Type 0 where
  pub binary_path : Bytes
  pub jailer_path : Bytes
  pub kernel_path : Bytes
  pub rootfs_path : Bytes
  pub use_jailer : Option Bool
  pub jail_uid : ℤ
  pub jail_gid : ℤ

pub record NetworkConfig : Type 0 where
  pub bridge_name : Bytes
  pub tap_prefix : Bytes
  pub bridge_ip : Bytes

pub record StorageConfig : Type 0 where
  pub vms_dir : Bytes
  pub use_overlay : Bool

pub record MonitoringConfig : Type 0 where
  pub enabled : Bool
  pub metrics_port : ℤ

pub record LogConfig : Type 0 where
  pub level : Bytes
  pub format : Bytes

pub record Config : Type 0 where
  pub server : ServerConfig
  pub firecracker : FirecrackerConfig
  pub network : NetworkConfig
  pub storage : StorageConfig
  pub monitoring : MonitoringConfig
  pub log : LogConfig

abbrev pub int_or : ℤ → ℤ → ℤ
int_or n d = if is_zero n then d else n

abbrev pub flag_or : Option Bool → Bool → Option Bool
flag_or none d = some d
flag_or (some b) d = some b

-- "Set defaults"
unfoldable pub set_defaults : Config → Config
set_defaults cfg = record {
  server = record {
    host = or_default cfg.server.host (text "0.0.0.0");
    port = int_or cfg.server.port (pos 50051);
  };
  firecracker = record (cfg.firecracker) {
    use_jailer = flag_or cfg.firecracker.use_jailer true;
    jail_uid = int_or cfg.firecracker.jail_uid (pos 1000);
    jail_gid = int_or cfg.firecracker.jail_gid (pos 1000);
  };
  network = record {
    bridge_name = or_default cfg.network.bridge_name (text "br0");
    tap_prefix = or_default cfg.network.tap_prefix (text "vmtap");
    bridge_ip = or_default cfg.network.bridge_ip (text "172.16.0.1/24");
  };
  storage = record (cfg.storage) {
    vms_dir = or_default cfg.storage.vms_dir (text "/srv/firecracker/vms");
  };
  monitoring = record (cfg.monitoring) {
    metrics_port = int_or cfg.monitoring.metrics_port (pos 9090);
  };
  log = record {
    level = or_default cfg.log.level (text "info");
    format = or_default cfg.log.format (text "json");
  };
}

-- `os.ReadFile` and `yaml.Unmarshal` are parameters.
unfoldable pub load : (Bytes → Result Bytes) → (Bytes → Result Config) → Bytes → Result Config
load read_file unmarshal path = elim (read_file path) [
  | err e ↦ err (text "failed to read config file: " ++ e)
  | ok content ↦ elim (unmarshal content) [
    | err e ↦ err (text "failed to parse config: " ++ e)
    | ok cfg ↦ ok (set_defaults cfg)
  ]
]
