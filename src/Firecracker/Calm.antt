-- ===== src/Firecracker/Calm.antt =====
-- The steps of a VM's creation and removal that start and signal no process.
use firecracker_agent.Base.{ℕ, zero, suc, ℤ, Bytes, ◌≡◌, refl, arith, Act}
use firecracker_agent.Host.{Host, History, Body}
use firecracker_agent.Host.Ledger.{may_live, starts}
use firecracker_agent.FileUtil.{copy_file}
use firecracker_agent.Network
use firecracker_agent.Storage.{
  Manager, JailPaths, create_overlay, place_kernel, place_rootfs, prepare_vm_storage,
  cleanup_vm_storage, setup_jail_directory, cleanup_jail,
}
use firecracker_agent.Firecracker.Client
use firecracker_agent.Firecracker.Client.{Client}
use firecracker_agent.Firecracker.Process.{poll, poll_found, wait_loop, wait_for_socket}
use firecracker_agent.Firecracker.Jailer.{
  Jail, verify_file_exists, file_check, verify_sources, fill_jail, own_jail,
}

-- The step starts no process of the id `p`, and leaves it as it was whether `p` may be living.
abbrev pub Calm : ℕ → {A : Type 0} → Act History A → Type 0
Calm p m = (h : History) → (may_live p (m h).1 ≡ may_live p h) × (starts p (m h).1 ≡ starts p h)

module _ (host : Host) (p : ℕ) where
  copy_file-Calm : (src dst : Bytes) → Calm p (copy_file host src dst)
  unfolding copy_file
  copy_file-Calm src dst h = ground arith

  create_overlay-Calm : (base overlay work : Bytes) → Calm p (create_overlay host base overlay work)
  unfolding create_overlay
  create_overlay-Calm base overlay work h = ground arith

  place_kernel-Calm : (m : Manager) (d k : Bytes) → Calm p (place_kernel host m d k)
  unfolding place_kernel
  place_kernel-Calm m d k h = grind (arith, copy_file-Calm)

  place_rootfs-Calm : (m : Manager) (d r : Bytes) → Calm p (place_rootfs host m d r)
  unfolding place_rootfs
  place_rootfs-Calm m d r h = grind (arith, copy_file-Calm, create_overlay-Calm)

  pub prepare_vm_storage-Calm :
      (m : Manager) (i k r : Bytes) → Calm p (prepare_vm_storage host m i k r)
  unfolding prepare_vm_storage
  prepare_vm_storage-Calm m i k r h = grind (arith, place_kernel-Calm, place_rootfs-Calm)

  pub setup_jail_directory-Calm :
      (m : Manager) (i k r : Bytes) → Calm p (setup_jail_directory host m i k r)
  unfolding setup_jail_directory
  setup_jail_directory-Calm m i k r h = ground arith

  pub cleanup_vm_storage-Calm : (m : Manager) (i : Bytes) → Calm p (cleanup_vm_storage host m i)
  unfolding cleanup_vm_storage
  cleanup_vm_storage-Calm m i h = ground arith

  pub cleanup_jail-Calm : (m : Manager) (i : Bytes) → Calm p (cleanup_jail host m i)
  unfolding cleanup_jail
  cleanup_jail-Calm m i h = ground arith

  pub delete_tap_device-Calm : (tap : Bytes) → Calm p (Network.delete_tap_device host tap)
  unfolding Network.delete_tap_device
  delete_tap_device-Calm tap h = ground arith

  pub create_tap_device-Calm :
      (m : Network.Manager) (i : Bytes) → Calm p (Network.create_tap_device host m i)
  unfolding Network.create_tap_device Network.or_delete
  create_tap_device-Calm m i h = grind (arith, delete_tap_device-Calm)

  pub put-Calm : (c : Client) (path : Bytes) (b : Body) → Calm p (Client.put host c path b)
  unfolding Client.put
  put-Calm c path b h = ground arith

  wait_loop-Calm :
      (fuel : ℕ) (socket : Bytes) (deadline : ℕ) → Calm p (wait_loop host socket deadline fuel)
  unfolding wait_loop poll poll_found
  wait_loop-Calm zero socket deadline h = (refl, refl)
  wait_loop-Calm (suc fuel) socket deadline h = grind (arith, wait_loop-Calm fuel socket deadline)

  pub wait_for_socket-Calm :
      (socket : Bytes) (timeout : ℕ) → Calm p (wait_for_socket host socket timeout)
  unfolding wait_for_socket
  wait_for_socket-Calm socket timeout h = grind (arith, wait_loop-Calm)

  verify_file_exists-Calm : (path what : Bytes) → Calm p (verify_file_exists host path what)
  unfolding verify_file_exists file_check
  verify_file_exists-Calm path what h = ground arith

  pub verify_sources-Calm : (paths : JailPaths) → Calm p (verify_sources host paths)
  unfolding verify_sources
  verify_sources-Calm paths h = grind (arith, verify_file_exists-Calm)

  pub fill_jail-Calm : (paths : JailPaths) (jail : Jail) → Calm p (fill_jail host paths jail)
  unfolding fill_jail
  fill_jail-Calm paths jail h = grind (arith, copy_file-Calm)

  pub own_jail-Calm : (jail : Jail) (uid gid : ℤ) → Calm p (own_jail host jail uid gid)
  unfolding own_jail
  own_jail-Calm jail uid gid h = (refl, refl)
