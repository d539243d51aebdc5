-- ===== src/Host/Types.antt =====
-- What the agent asks of the operating system, the answers, and the history of both.
use firecracker_agent.Base.{ℕ, ℤ, Bytes, Bool, Option, List, [], ◌∷◌, text, Result}

-- An error of the operating system; `not_exist` is what `os.IsNotExist` says of it.
pub record OsError : Type 0 where
  pub message : Bytes
  pub not_exist : Bool

-- The external commands, one constructor for each `exec.Command` of the source.
pub data Command : Type 0 where
  tuntap_add : Bytes → Command
  link_up : Bytes → Command
  link_set_master : Bytes → Bytes → Command
  link_delete : Bytes → Command
  link_show : Bytes → Command
  link_add_bridge : Bytes → Command
  addr_show : Bytes → Command
  addr_add : Bytes → Bytes → Command
  ip_forward : Command
  masquerade : Command
  qemu_img_create : Bytes → Bytes → Command
  copy : Bytes → Bytes → Command

-- The argument vector that each command passes to `exec.Command`.
unfoldable pub argv : Command → List Bytes
unfolding text
argv (tuntap_add tap) = text "ip" ∷ text "tuntap" ∷ text "add" ∷ tap ∷ text "mode" ∷ text "tap" ∷ []
argv (link_up dev) = text "ip" ∷ text "link" ∷ text "set" ∷ dev ∷ text "up" ∷ []
argv (link_set_master dev bridge) =
    text "ip" ∷ text "link" ∷ text "set" ∷ dev ∷ text "master" ∷ bridge ∷ []
argv (link_delete dev) = text "ip" ∷ text "link" ∷ text "delete" ∷ dev ∷ []
argv (link_show dev) = text "ip" ∷ text "link" ∷ text "show" ∷ dev ∷ []
argv (link_add_bridge dev) =
    text "ip" ∷ text "link" ∷ text "add" ∷ text "name" ∷ dev ∷ text "type" ∷ text "bridge" ∷ []
argv (addr_show dev) = text "ip" ∷ text "addr" ∷ text "show" ∷ dev ∷ []
argv (addr_add ip dev) = text "ip" ∷ text "addr" ∷ text "add" ∷ ip ∷ text "dev" ∷ dev ∷ []
argv ip_forward = text "sysctl" ∷ text "-w" ∷ text "net.ipv4.ip_forward=1" ∷ []
argv masquerade =
    text "iptables"
    ∷ text "-t"
    ∷ text "nat"
    ∷ text "-A"
    ∷ text "POSTROUTING"
    ∷ text "-o"
    ∷ text "eth0"
    ∷ text "-j"
    ∷ text "MASQUERADE"
    ∷ []
argv (qemu_img_create base overlay) =
    text "qemu-img"
    ∷ text "create"
    ∷ text "-f"
    ∷ text "qcow2"
    ∷ text "-b"
    ∷ base
    ∷ text "-F"
    ∷ text "raw"
    ∷ overlay
    ∷ []
argv (copy src dst) = text "cp" ∷ text "-p" ∷ src ∷ dst ∷ []

-- What `CombinedOutput` returns.
pub record Output : Type 0 where
  pub output : Bytes
  pub error : Option Bytes

pub data Signal : Type 0 where
  sigterm sigkill probe : Signal

-- `os.Stat`: the error, or whether the path is a directory.
pub data Stat : Type 0 where
  missing : Bytes → Stat
  present : Bool → Stat

-- `cmd.Start`: the error, or the process id.
pub data Started : Type 0 where
  not_started : Bytes → Started
  started : ℕ → Started

-- The request bodies of Firecracker's API (client.go).
pub record BootSource : Type 0 where
  pub kernel_image_path : Bytes
  pub boot_args : Bytes

pub record Drive : Type 0 where
  pub drive_id : Bytes
  pub path_on_host : Bytes
  pub is_root_device : Bool
  pub is_read_only : Bool

pub record MachineConfig : Type 0 where
  pub vcpu_count : ℤ
  pub mem_size_mib : ℤ
  pub smt : Bool

pub record NetworkInterface : Type 0 where
  pub iface_id : Bytes
  pub host_dev_name : Bytes
  pub guest_mac : Bytes

pub record InstanceActionInfo : Type 0 where
  pub action_type : Bytes

pub data Body : Type 0 where
  boot_source : BootSource → Body
  drive : Drive → Body
  machine_config : MachineConfig → Body
  network_interface : NetworkInterface → Body
  action : InstanceActionInfo → Body

-- An HTTP exchange over a Unix socket: the error of `Do`, or the status code, the body that
-- `io.ReadAll` gave and the error that it returned.
pub data Reply : Type 0 where
  no_reply : Bytes → Reply
  reply : ℕ → Bytes → Option Bytes → Reply

-- What `http.NewRequestWithContext` is given.
pub record Request : Type 0 where
  pub method : Bytes
  pub url : Bytes
  pub payload : Option Body

pub data Event : Type 0 where
  ran : Command → Output → Event
  made_dirs : Bytes → Option OsError → Event
  removed_all : Bytes → Option OsError → Event
  removed : Bytes → Event
  looked_up : Bytes → Stat → Event
  opened_log : Bytes → Option OsError → Event
  closed_log : Bytes → Event
  read_log : Bytes → Bytes → Event
  owner_set : Bytes → ℤ → ℤ → Option OsError → Event
  spawned : List Bytes → Bytes → Started → Event
  reaping : ℕ → Event
  signalled : ℕ → Signal → Option OsError → Event
  requested : Bytes → Request → Reply → Event
  slept : ℕ → Event
  clock_read : ℕ → Event

-- Newest event first.
abbrev pub History : Type 0
History = List Event

-- Times are in nanoseconds since 1970.
pub record Host : Type 0 where
  pub run : History → List Bytes → Output
  pub mkdir_all : History → Bytes → Option OsError
  pub remove_all : History → Bytes → Option OsError
  pub stat : History → Bytes → Stat
  pub open_append : History → Bytes → Option OsError
  pub read : History → Bytes → Bytes
  pub chown : History → Bytes → ℤ → ℤ → Option OsError
  pub start : History → List Bytes → Bytes → Started
  pub signal : History → ℕ → Signal → Option OsError
  pub exchange : History → Bytes → Request → Reply
  pub check_request : Request → Option Bytes
  pub marshal : Body → Option Bytes
  pub clock : History → ℕ
  pub parse_cidr : Bytes → Result Bytes
