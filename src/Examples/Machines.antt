-- ===== src/Examples/Machines.antt =====
-- A configuration, a request and a VM of the VM manager.
use firecracker_agent.Base.{pos, false, ◌≡◌, refl, [], ◌∷◌, none, some, text, arith, bytes_dec}
use firecracker_agent.Base.Dict.{lookup}
use firecracker_agent.Host.{History, started, spawned, ran, tuntap_add}
use firecracker_agent.Config.{Config}
use firecracker_agent.Network.{tap_name}
use firecracker_agent.Firecracker.Process.{VmProcess, direct}
use firecracker_agent.Firecracker.State.{Vm, running, CreateVmRequest, Manager, State}
use firecracker_agent.Firecracker.Registry.Invariant.{IsValid}
use firecracker_agent.Firecracker.Registry.Devices.{Owns}
use firecracker_agent.Firecracker.Registry.Processes.{NoOrphans}

-- Without the jailer, and with copies in place of overlays.
abbrev pub config : Config
config = record {
  server = record { host = text "0.0.0.0"; port = pos 50051 };
  firecracker = record {
    binary_path = text "/usr/bin/firecracker";
    jailer_path = text "/usr/bin/jailer";
    kernel_path = text "/srv/vmlinux";
    rootfs_path = text "/srv/rootfs";
    use_jailer = some false;
    jail_uid = pos 1000;
    jail_gid = pos 1000;
  };
  network = record {
    bridge_name = text "br0";
    tap_prefix = text "tap";
    bridge_ip = text "10.0.0.1/24";
  };
  storage = record { vms_dir = text "/srv/vms"; use_overlay = false };
  monitoring = record { enabled = false; metrics_port = pos 9090 };
  log = record { level = text "info"; format = text "json" };
}

abbrev pub manager : Manager
manager = record {
  cfg = config;
  network_manager = record {
    bridge_name = text "br0";
    bridge_ip = text "10.0.0.1/24";
    tap_prefix = text "tap";
  };
  storage_manager = record { vms_dir = text "/srv/vms"; use_overlay = false };
}

abbrev pub request : CreateVmRequest
request = record {
  vm_id = text "web";
  vcpu_count = pos 2;
  memory_mb = pos 512;
  ip_address = [];
  kernel_path = [];
  rootfs_path = [];
  metadata = [];
}

-- A VM as `CreateVM` leaves it, with what was done for it.
abbrev pub process : VmProcess
process = record {
  pid = 7;
  cmd = some 7;
  socket_path = text "/srv/vms/web/firecracker.socket";
  log_file = some (text "/srv/vms/web/firecracker.log");
  client = record { socket_path = text "/srv/vms/web/firecracker.socket" };
  mode = direct;
  jail_path = [];
}

abbrev pub vm : Vm
vm = record {
  info = record {
    vm_id = text "web";
    state = running;
    vcpu_count = pos 2;
    memory_mb = pos 512;
    ip_address = [];
    socket_path = text "/srv/vms/web/firecracker.socket";
    created_at = 0;
    metadata = [];
  };
  process = some process;
  socket_path = text "/srv/vms/web/firecracker.socket";
  tap_device = text "tap-web";
  created_at = 0;
}

abbrev pub past : History
past =
    spawned [] [] (started 7)
    ∷ (ran (tuntap_add (text "tap-web")) (record { output = []; error = none }) ∷ [])

abbrev pub one_vm : State
one_vm = record { vms = (text "web", vm) ∷ []; history = past }

pub found : lookup (text "web") one_vm.vms ≡ some vm
unfolding lookup text bytes_dec
found = refl

pub one_vm-IsValid : IsValid one_vm
unfolding lookup text
one_vm-IsValid = record {
  once = (refl, tt);
  named = λ i w f. ground arith;
  settled = λ i w f. ground arith;
}

pub one_vm-Owns : Owns manager one_vm
unfolding lookup text tap_name
one_vm-Owns = record {
  tap_of = λ i w f. ground arith;
  up = λ i w f. ground arith;
  owned = λ u f. (text "web", vm, ground arith, ground arith);
  apart = λ i j v w f g e. ground arith;
}

pub one_vm-NoOrphans : NoOrphans one_vm
unfolding lookup text
one_vm-NoOrphans p f = (text "web", vm, ground arith, ground arith)
