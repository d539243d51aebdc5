-- ===== src/Firecracker/Create.antt =====
-- `Manager.CreateVM`, with its stack of deferred cleanups.
pub mod Leaks
pub mod Processes
pub mod Orphans
pub mod Boots
use firecracker_agent.Base.{
  Bool, ℕ, ◌/◌, Bytes, true, false, List, [], ◌∷◌, ◌++◌, none, some, Result, ok, err, Act, ⊤, pure,
  ◌>>=◌, ◌>>◌, wrap, ignore, text, is_empty, or_default, if◌then◌else◌,
}
use firecracker_agent.Base.Dict.{lookup, insert}
use firecracker_agent.Host.{Host, History, now}
use firecracker_agent.Network
use firecracker_agent.Storage
use firecracker_agent.Storage.{VmStorage}
use firecracker_agent.Firecracker.Client
use firecracker_agent.Firecracker.Client.{Client}
use firecracker_agent.Firecracker.Process.{VmProcess, kill, start_firecracker_process}
use firecracker_agent.Firecracker.Jailer.{start_jailed_process}
use firecracker_agent.Firecracker.State.{
  VmInfo, running, Vm, CreateVmRequest, Manager, State, use_jailer,
}

-- The closures that `CreateVM` appends to `cleanups`.
pub data Cleanup : Type 0 where
  remove_jail_and_storage : Bytes → Cleanup
  remove_storage : Bytes → Cleanup
  delete_tap : Bytes → Cleanup
  kill_process : VmProcess → Cleanup

unfoldable pub run_cleanup : Host → Manager → Cleanup → Act History ⊤
run_cleanup host m (remove_jail_and_storage vm_id) =
    (ignore (Storage.cleanup_jail host m.storage_manager vm_id)
      >> ignore (Storage.cleanup_vm_storage host m.storage_manager vm_id))
run_cleanup host m (remove_storage vm_id) =
    ignore (Storage.cleanup_vm_storage host m.storage_manager vm_id)
run_cleanup host m (delete_tap tap) = ignore (Network.delete_tap_device host tap)
run_cleanup host m (kill_process p) = ignore (kill host p)

-- The deferred function. The newest cleanup stands first, so the list is run from its head.
unfoldable pub unwind : Host → Manager → List Cleanup → History → History
unwind host m [] h = h
unwind host m (c ∷ cs) h = unwind host m cs (run_cleanup host m c h).1

pub record Build : Type 0 where
  pub cleanups : List Cleanup
  pub history : History

abbrev call : {A : Type 0} → Act History A → Act Build A
call m b = let (r, h) = m b.history in (r, record b { history = h })

-- `cleanups = append(cleanups, c)`
abbrev defer : Cleanup → Act Build ⊤
defer c b = (ok tt, record b { cleanups = c ∷ b.cleanups })

-- The variables `vmStorage`, `process`, `tapDevice` and `macAddr`.
pub record Resources : Type 0 where
  pub storage : VmStorage
  pub process : VmProcess
  pub tap_device : Bytes
  pub mac_addr : Bytes

abbrev storage_of_jail : Storage.JailPaths → VmStorage
storage_of_jail paths = record {
  vm_dir = paths.jail_dir;
  rootfs_path = paths.rootfs_path;
  kernel_path = paths.kernel_path;
  socket_path = paths.socket_path;
  log_path = paths.log_path;
}

-- `if useJailer { … }`
unfoldable pub acquire_jailed :
    Host → Manager → CreateVmRequest → Bytes → Bytes → Act Build Resources
acquire_jailed host m req kernel rootfs = do
  jail_paths ← call (
      wrap (text "failed to setup jail directory: ")
        (Storage.setup_jail_directory host m.storage_manager req.vm_id kernel rootfs))
  defer (remove_jail_and_storage req.vm_id)
  tap ← call (
      wrap (text "failed to create TAP device: ")
        (Network.create_tap_device host m.network_manager req.vm_id))
  defer (delete_tap tap)
  jailed ← call (
      wrap (text "failed to start jailed Firecracker process: ") (
        start_jailed_process host m.cfg.firecracker.jailer_path req.vm_id
          (record jail_paths { firecracker_binary = m.cfg.firecracker.binary_path })
          m.cfg.firecracker.jail_uid m.cfg.firecracker.jail_gid))
  defer (kill_process jailed.0)
  pure (record {
    storage = storage_of_jail jailed.1;
    process = jailed.0;
    tap_device = tap;
    mac_addr = Network.generate_mac req.vm_id;
  })

-- `else { … }`
unfoldable pub acquire_direct :
    Host → Manager → CreateVmRequest → Bytes → Bytes → Act Build Resources
acquire_direct host m req kernel rootfs = do
  storage ← call (
      wrap (text "failed to prepare storage: ")
        (Storage.prepare_vm_storage host m.storage_manager req.vm_id kernel rootfs))
  defer (remove_storage req.vm_id)
  tap ← call (
      wrap (text "failed to create TAP device: ")
        (Network.create_tap_device host m.network_manager req.vm_id))
  defer (delete_tap tap)
  process ← call (
      wrap (text "failed to start Firecracker process: ") (
        start_firecracker_process host m.cfg.firecracker.binary_path storage.socket_path
          storage.log_path))
  defer (kill_process process)
  pure (record {
    storage = storage;
    process = process;
    tap_device = tap;
    mac_addr = Network.generate_mac req.vm_id;
  })

-- Both branches of `if useJailer`.
unfoldable pub acquire_by :
    Host → Manager → CreateVmRequest → Bytes → Bytes → Bool → Act Build Resources
acquire_by host m req kernel rootfs true = acquire_jailed host m req kernel rootfs
acquire_by host m req kernel rootfs false = acquire_direct host m req kernel rootfs

unfoldable pub acquire : Host → Manager → CreateVmRequest → Act Build Resources
acquire host m req =
    acquire_by host m req (or_default req.kernel_path m.cfg.firecracker.kernel_path)
      (or_default req.rootfs_path m.cfg.firecracker.rootfs_path) (use_jailer m)

-- `net.ParseCIDR` is the host's `parse_cidr`, which gives the text of the address.
unfoldable pub extract_gateway_ip : Host → Bytes → Bytes
extract_gateway_ip host cidr = elim (host.parse_cidr cidr) [ ok ip ↦ ip | err _ ↦ cidr ]

unfoldable pub boot_args : Host → Manager → CreateVmRequest → Bytes
boot_args host m req =
    let base = text "console=ttyS0 reboot=k panic=1 pci=off" in
    let gateway = extract_gateway_ip host m.cfg.network.bridge_ip in
    if is_empty req.ip_address
    then base
    else base
      ++ (text " ip="
          ++ (req.ip_address
              ++ (text ":"
                  ++ (gateway ++ (text ":" ++ (gateway ++ text ":255.255.255.0::eth0:off"))))))

-- "Configure Firecracker via API"
unfoldable pub configure : Host → Manager → CreateVmRequest → Resources → Act History ⊤
configure host m req res =
    let client = res.process.client in
    do
      wrap (text "failed to set boot source: ") (
          Client.set_boot_source host client (record {
            kernel_image_path = res.storage.kernel_path;
            boot_args = boot_args host m req;
          }))
      wrap (text "failed to set machine config: ") (
          Client.set_machine_config host client
            (record { vcpu_count = req.vcpu_count; mem_size_mib = req.memory_mb; smt = false }))
      wrap (text "failed to add drive: ") (
          Client.add_drive host client (record {
            drive_id = text "rootfs";
            path_on_host = res.storage.rootfs_path;
            is_root_device = true;
            is_read_only = false;
          }))
      wrap (text "failed to add network interface: ") (
          Client.add_network_interface host client (record {
            iface_id = text "eth0";
            host_dev_name = res.tap_device;
            guest_mac = res.mac_addr;
          }))
      wrap (text "failed to start instance: ") (Client.start_instance host client)

-- Nanoseconds to seconds: `time.Now().Unix()`.
abbrev pub unix : ℕ → ℕ
unix t = t / 1_000_000_000

unfoldable pub new_vm : CreateVmRequest → Resources → ℕ → ℕ → Vm
new_vm req res created stamp = record {
  info = record {
    vm_id = req.vm_id;
    state = running;
    vcpu_count = req.vcpu_count;
    memory_mb = req.memory_mb;
    ip_address = req.ip_address;
    socket_path = res.storage.socket_path;
    created_at = unix created;
    metadata = req.metadata;
  };
  process = some res.process;
  socket_path = res.storage.socket_path;
  tap_device = res.tap_device;
  created_at = stamp;
}

-- All of `CreateVM` between the check of the map and the write to it.
unfoldable pub build_vm : Host → Manager → CreateVmRequest → Act Build Vm
build_vm host m req = do
  res ← acquire host m req
  call (configure host m req res)
  created ← call (now host)
  stamp ← call (now host)
  pure (new_vm req res created stamp)

-- `m.vms[req.VmId] = &VM{…}; committed = true`, or the deferred cleanups.
unfoldable pub commit :
    Host → Manager → CreateVmRequest → State → Result Vm × Build → Result VmInfo × State
commit host m req s (ok vm, b) =
    (ok vm.info, record { vms = insert req.vm_id vm s.vms; history = b.history })
commit host m req s (err e, b) =
    (err e, record { vms = s.vms; history = unwind host m b.cleanups b.history })

unfoldable pub create_vm : Host → Manager → CreateVmRequest → Act State VmInfo
create_vm host m req s = elim (lookup req.vm_id s.vms) [
  | some _ ↦ (err (text "VM " ++ (req.vm_id ++ text " already exists")), s)
  | none ↦ commit host m req s (build_vm host m req (record { cleanups = []; history = s.history }))
]
