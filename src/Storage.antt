-- ===== src/Storage.antt =====
-- `internal/storage/manager.go`: the directories and images of each VM.
pub mod Places
use firecracker_agent.Base.{
  Bytes, Bool, true, false, [], ◌∷◌, Option, none, some, Act, ⊤, pure, ◌>>=◌, ◌>>◌, wrap, text,
  if◌then◌else◌,
}
use firecracker_agent.Host.{
  Host, History, OsError, qemu_img_create, combined_output, mkdir_all, remove_all, check_os,
  check_output,
}
use firecracker_agent.FilePath.{join}
use firecracker_agent.FileUtil.{copy_file}

pub record Manager : Type 0 where
  pub vms_dir : Bytes
  pub use_overlay : Bool

unfoldable pub new_manager : Bytes → Bool → Manager
new_manager dir overlay = record { vms_dir = dir; use_overlay = overlay }

pub record VmStorage : Type 0 where
  pub vm_dir : Bytes
  pub rootfs_path : Bytes
  pub kernel_path : Bytes
  pub socket_path : Bytes
  pub log_path : Bytes

pub record JailPaths : Type 0 where
  pub jail_dir : Bytes
  pub firecracker_binary : Bytes
  pub kernel_path : Bytes
  pub rootfs_path : Bytes
  pub socket_path : Bytes
  pub log_path : Bytes

-- `filepath.Join(m.vmsDir, vmID)`
unfoldable pub dir_of_vm : Manager → Bytes → Bytes
dir_of_vm m vm_id = join (m.vms_dir ∷ (vm_id ∷ []))

-- `filepath.Join(m.vmsDir, "firecracker", vmID)`
unfoldable pub jail_of_vm : Manager → Bytes → Bytes
jail_of_vm m vm_id = join (m.vms_dir ∷ (text "firecracker" ∷ (vm_id ∷ [])))

unfoldable pub create_overlay : Host → Bytes → Bytes → Bytes → Act History ⊤
create_overlay host base overlay work = do
  upper ← mkdir_all host (join (work ∷ (text "upper" ∷ [])))
  check_os (text "failed to create upper dir: ") upper
  worked ← mkdir_all host (join (work ∷ (text "work" ∷ [])))
  check_os (text "failed to create work dir: ") worked
  out ← combined_output host (qemu_img_create base overlay)
  check_output (text "failed to create overlay: ") out

-- "Handle kernel"
unfoldable pub place_kernel : Host → Manager → Bytes → Bytes → Act History Bytes
place_kernel host m vm_dir kernel =
    let copied = join (vm_dir ∷ (text "vmlinux.bin" ∷ [])) in
    elim m.use_overlay [
      | true ↦ pure kernel
      | false ↦
          (wrap (text "failed to copy kernel: ") (copy_file host kernel copied) >> pure copied)
    ]

-- "Handle rootfs"
unfoldable pub place_rootfs : Host → Manager → Bytes → Bytes → Act History Bytes
place_rootfs host m vm_dir rootfs =
    let placed = join (vm_dir ∷ (text "rootfs.ext4" ∷ [])) in
    elim m.use_overlay [
      | true ↦
          (wrap (text "failed to create overlay: ") (create_overlay host rootfs placed vm_dir)
            >> pure placed)
      | false ↦
          (wrap (text "failed to copy rootfs: ") (copy_file host rootfs placed) >> pure placed)
    ]

unfoldable pub prepare_vm_storage : Host → Manager → Bytes → Bytes → Bytes → Act History VmStorage
prepare_vm_storage host m vm_id kernel rootfs =
    let vm_dir = dir_of_vm m vm_id in
    do
      made ← mkdir_all host vm_dir
      check_os (text "failed to create VM directory: ") made
      kernel_path ← place_kernel host m vm_dir kernel
      rootfs_path ← place_rootfs host m vm_dir rootfs
      pure (record {
        vm_dir = vm_dir;
        rootfs_path = rootfs_path;
        kernel_path = kernel_path;
        socket_path = join (vm_dir ∷ (text "firecracker.socket" ∷ []));
        log_path = join (vm_dir ∷ (text "firecracker.log" ∷ []));
      })

unfoldable pub cleanup_vm_storage : Host → Manager → Bytes → Act History ⊤
cleanup_vm_storage host m vm_id = do
  gone ← remove_all host (dir_of_vm m vm_id)
  check_os (text "failed to remove VM directory: ") gone

unfoldable pub ensure_vms_dir : Host → Manager → Act History ⊤
ensure_vms_dir host m = do
  made ← mkdir_all host m.vms_dir
  check_os (text "failed to create VMs directory: ") made

unfoldable pub setup_jail_directory : Host → Manager → Bytes → Bytes → Bytes → Act History JailPaths
setup_jail_directory host m vm_id kernel rootfs =
    let vm_dir = dir_of_vm m vm_id in
    do
      made ← mkdir_all host vm_dir
      check_os (text "failed to create VM directory: ") made
      pure (record {
        jail_dir = vm_dir;
        firecracker_binary = [];
        kernel_path = kernel;
        rootfs_path = rootfs;
        socket_path = [];
        log_path = join (vm_dir ∷ (text "firecracker.log" ∷ []));
      })

-- The test on the error of `os.RemoveAll`.
unfoldable pub unless_not_exist : Option OsError → Option OsError
unless_not_exist none = none
unless_not_exist (some e) = if e.not_exist then none else some e

unfoldable pub cleanup_jail : Host → Manager → Bytes → Act History ⊤
cleanup_jail host m vm_id = do
  gone ← remove_all host (jail_of_vm m vm_id)
  check_os (text "failed to remove jail directory: ") (unless_not_exist gone)
