-- ===== src/Examples/Paths.antt =====
-- Directories, names and configurations.
use firecracker_agent.Base.{
  pos, true, false, ◌≡◌, ◌↔◌, ◌≢◌, refl, [], ◌∷◌, ◌++◌, some, ok, text, arith, length,
}
use firecracker_agent.FilePath.{dot_dot}
use firecracker_agent.FilePath.Absolute.{IsPlain, absolute}
use firecracker_agent.Network.{generate_mac}
use firecracker_agent.Network.Mac.{octet, generate_mac_octets}
use firecracker_agent.Storage.{Manager, JailPaths, dir_of_vm, jail_of_vm}
use firecracker_agent.Storage.Places.{
  IsBelow, dir_of_vm_apart, jail_of-jail_of_vm, firecracker_holds_jails, dir_of_vm_up,
}
use firecracker_agent.Firecracker.Jailer.{jail_of}
use firecracker_agent.Config.{Config, load, set_defaults}
use firecracker_agent.Config.Complete.{IsComplete, set_defaults_keeps, load-IsComplete}
use firecracker_agent.Examples.Machines.{config}

abbrev manager : Manager
manager = record { vms_dir = text "/srv/vms"; use_overlay = true }

srv-IsPlain : IsPlain (text "srv")
unfolding text
srv-IsPlain = record {
  no_slash = ground arith;
  not_empty = λ e. cc;
  not_dot = λ e. ground arith;
  not_dot_dot = λ e. ground arith;
}

vms-IsPlain : IsPlain (text "vms")
unfolding text
vms-IsPlain = record {
  no_slash = ground arith;
  not_empty = λ e. cc;
  not_dot = λ e. ground arith;
  not_dot_dot = λ e. ground arith;
}

web-IsPlain : IsPlain (text "web")
unfolding text
web-IsPlain = record {
  no_slash = ground arith;
  not_empty = λ e. cc;
  not_dot = λ e. ground arith;
  not_dot_dot = λ e. ground arith;
}

at : manager.vms_dir ≡ absolute (text "srv" ∷ (text "vms" ∷ []))
unfolding absolute text
at = refl

dir_of_vm_apart_example :
    (dir_of_vm manager (text "web") ≢ dir_of_vm manager (text "vms"))
    × (¬ IsBelow (dir_of_vm manager (text "web")) (dir_of_vm manager (text "vms")))
unfolding text
dir_of_vm_apart_example =
    dir_of_vm_apart manager (text "srv") (text "vms" ∷ []) at (srv-IsPlain, (vms-IsPlain, tt))
      (text "web") (text "vms") web-IsPlain vms-IsPlain (λ e. ground arith)

abbrev jail_paths : JailPaths
jail_paths = record {
  jail_dir = dir_of_vm manager (text "web");
  firecracker_binary = text "/usr/bin/firecracker";
  kernel_path = text "/srv/vmlinux";
  rootfs_path = text "/srv/rootfs";
  socket_path = [];
  log_path = text "/srv/vms/web/firecracker.log";
}

jail_of-jail_of_vm_example :
    ((jail_of jail_paths (text "web")).base ≡ text "/srv/vms")
    × ((jail_of jail_paths (text "web")).id_dir ≡ jail_of_vm manager (text "web"))
jail_of-jail_of_vm_example =
    jail_of-jail_of_vm manager (text "srv") (text "vms" ∷ []) at (srv-IsPlain, (vms-IsPlain, tt))
      jail_paths (text "web") web-IsPlain refl

firecracker_holds_jails_example :
    IsBelow (dir_of_vm manager (text "firecracker")) (jail_of_vm manager (text "web"))
firecracker_holds_jails_example =
    firecracker_holds_jails manager (text "srv") (text "vms" ∷ []) at
      (srv-IsPlain, (vms-IsPlain, tt)) (text "web") web-IsPlain

dir_of_vm_up_example :
    (dir_of_vm manager dot_dot ≡ absolute (text "srv" ∷ []))
    × IsBelow (dir_of_vm manager dot_dot) (text "/srv/vms")
dir_of_vm_up_example =
    dir_of_vm_up manager (text "srv") [] (text "vms") at (srv-IsPlain, tt) vms-IsPlain

generate_mac_octets_example :
    let s = text "vm-11111" in
    (length (generate_mac s) ≡ 17)
    × (generate_mac s ≡ text "02:FC" ++ (octet 0 s ++ (octet 1 s ++ (octet 2 s ++ octet 3 s))))
generate_mac_octets_example = generate_mac_octets (text "vm-11111")

-- The file gives a few settings only.
abbrev given : Config
given = record config {
  server = record { host = []; port = pos 0 };
  network = record { bridge_name = []; tap_prefix = text "tap"; bridge_ip = [] };
}

config-IsComplete : IsComplete config
unfolding text
config-IsComplete = record {
  host = λ e. cc;
  port = λ e. ground arith;
  level = λ e. cc;
  format = λ e. cc;
  bridge_name = λ e. cc;
  tap_prefix = λ e. cc;
  bridge_ip = λ e. cc;
  vms_dir = λ e. cc;
  metrics_port = λ e. ground arith;
  use_jailer = λ e. cc;
  jail_uid = λ e. ground arith;
  jail_gid = λ e. ground arith;
}

set_defaults_keeps_example : set_defaults config ≡ config
set_defaults_keeps_example = set_defaults_keeps config config-IsComplete

load-IsComplete_example :
    IsComplete (set_defaults given)
    × (((set_defaults given).firecracker.use_jailer ≡ some false) ↔ (some false ≡ some false))
unfolding load
load-IsComplete_example =
    load-IsComplete (λ path. ok []) (λ content. ok given) (text "configs/agent.yaml") {content = []}
      {given = given} {c = set_defaults given} refl refl refl
