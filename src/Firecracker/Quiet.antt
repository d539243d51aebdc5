-- ===== src/Firecracker/Quiet.antt =====
-- The steps of a VM's creation and removal that touch no TAP device.
use firecracker_agent.Base.{
  ℕ, zero, suc, ℤ, Bytes, ◌≡◌, refl, List, ok, err, arith, Act, Result, ◌>>=◌,
}
use firecracker_agent.Host.{Host, History, Body}
use firecracker_agent.Host.Ledger.{tap_exists}
use firecracker_agent.FileUtil.{copy_file}
use firecracker_agent.Storage.{
  Manager, JailPaths, create_overlay, place_kernel, place_rootfs, prepare_vm_storage,
  cleanup_vm_storage, setup_jail_directory, cleanup_jail,
}
use firecracker_agent.Firecracker.Client
use firecracker_agent.Firecracker.Client.{Client}
use firecracker_agent.Firecracker.Process.{
  VmProcess, poll, poll_found, wait_loop, wait_for_socket, await_api, start_firecracker_process,
  close_files, kill_now, kill,
}
use firecracker_agent.Firecracker.Jailer.{
  Jail, verify_file_exists, file_check, verify_sources, fill_jail, own_jail, await_jail,
  is_process_running, launch_jailer, start_jailed_process,
}

-- The step leaves the device `u` as it is.
abbrev pub Quiet : Bytes → {A : Type 0} → Act History A → Type 0
Quiet u m = (h : History) → tap_exists u (m h).1 ≡ tap_exists u h

Quiet-bind :
    {A B : Type 0} (u : Bytes) (m : Act History A) (f : A → Act History B)
    → Quiet u m
    → ((a : A) → Quiet u (f a))
    → Quiet u (m >>= f)
Quiet-bind {A} {B} u m f p q h = go (m h) refl
  where
    go : (x : Result A × History) → m h ≡ x → tap_exists u ((m >>= f) h).1 ≡ tap_exists u h
    go (ok a, s) e = ground (arith, p h, q a s)
    go (err e', s) e = ground (arith, p h)

module _ (host : Host) (u : Bytes) where
  pub copy_file-Quiet : (src dst : Bytes) → Quiet u (copy_file host src dst)
  unfolding copy_file
  copy_file-Quiet src dst h = ground arith

  pub create_overlay-Quiet :
      (base overlay work : Bytes) → Quiet u (create_overlay host base overlay work)
  unfolding create_overlay
  create_overlay-Quiet base overlay work h = ground arith

  pub place_kernel-Quiet : (m : Manager) (d k : Bytes) → Quiet u (place_kernel host m d k)
  unfolding place_kernel
  place_kernel-Quiet m d k h = grind (arith, copy_file-Quiet)

  pub put-Quiet : (c : Client) (path : Bytes) (b : Body) → Quiet u (Client.put host c path b)
  unfolding Client.put
  put-Quiet c path b h = ground arith

  pub wait_loop-Quiet :
      (fuel : ℕ) (socket : Bytes) (deadline : ℕ) → Quiet u (wait_loop host socket deadline fuel)
  unfolding wait_loop poll poll_found
  wait_loop-Quiet zero socket deadline h = refl
  wait_loop-Quiet (suc fuel) socket deadline h = grind (arith, wait_loop-Quiet fuel socket deadline)

  pub kill-Quiet : (p : VmProcess) → Quiet u (kill host p)
  unfolding kill kill_now close_files
  kill-Quiet p h = ground arith

  pub setup_jail_directory-Quiet :
      (m : Manager) (i k r : Bytes) → Quiet u (setup_jail_directory host m i k r)
  unfolding setup_jail_directory
  setup_jail_directory-Quiet m i k r h = ground arith

  pub place_rootfs-Quiet : (m : Manager) (d r : Bytes) → Quiet u (place_rootfs host m d r)
  unfolding place_rootfs
  place_rootfs-Quiet m d r h = grind (arith, copy_file-Quiet, create_overlay-Quiet)

  pub prepare_vm_storage-Quiet :
      (m : Manager) (i k r : Bytes) → Quiet u (prepare_vm_storage host m i k r)
  unfolding prepare_vm_storage
  prepare_vm_storage-Quiet m i k r h = grind (arith, place_kernel-Quiet, place_rootfs-Quiet)

  pub cleanup_vm_storage-Quiet : (m : Manager) (i : Bytes) → Quiet u (cleanup_vm_storage host m i)
  unfolding cleanup_vm_storage
  cleanup_vm_storage-Quiet m i h = ground arith

  pub cleanup_jail-Quiet : (m : Manager) (i : Bytes) → Quiet u (cleanup_jail host m i)
  unfolding cleanup_jail
  cleanup_jail-Quiet m i h = ground arith

  pub wait_for_socket-Quiet :
      (socket : Bytes) (timeout : ℕ) → Quiet u (wait_for_socket host socket timeout)
  unfolding wait_for_socket
  wait_for_socket-Quiet socket timeout h = grind (arith, wait_loop-Quiet)

  pub await_api-Quiet : (socket log : Bytes) (pid : ℕ) → Quiet u (await_api host socket log pid)
  unfolding await_api
  await_api-Quiet socket log pid h = grind (arith, wait_for_socket-Quiet)

  pub start_firecracker_process-Quiet :
      (binary socket log : Bytes) → Quiet u (start_firecracker_process host binary socket log)
  unfolding start_firecracker_process
  start_firecracker_process-Quiet binary socket log h = grind (arith, await_api-Quiet)

  pub verify_file_exists-Quiet : (path what : Bytes) → Quiet u (verify_file_exists host path what)
  unfolding verify_file_exists file_check
  verify_file_exists-Quiet path what h = ground arith

  pub verify_sources-Quiet : (paths : JailPaths) → Quiet u (verify_sources host paths)
  unfolding verify_sources
  verify_sources-Quiet paths h = grind (arith, verify_file_exists-Quiet)

  pub fill_jail-Quiet : (paths : JailPaths) (jail : Jail) → Quiet u (fill_jail host paths jail)
  unfolding fill_jail
  fill_jail-Quiet paths jail h = grind (arith, copy_file-Quiet)

  pub own_jail-Quiet : (jail : Jail) (uid gid : ℤ) → Quiet u (own_jail host jail uid gid)
  unfolding own_jail
  own_jail-Quiet jail uid gid h = refl

  pub await_jail-Quiet : (socket log : Bytes) (pid : ℕ) → Quiet u (await_jail host socket log pid)
  unfolding await_jail
  await_jail-Quiet socket log pid h = grind (arith, wait_for_socket-Quiet)

  pub launch_jailer-Quiet :
      (line : List Bytes) (socket log : Bytes) → Quiet u (launch_jailer host line socket log)
  unfolding launch_jailer is_process_running
  launch_jailer-Quiet line socket log h = grind (arith, await_jail-Quiet)

  pub start_jailed_process-Quiet :
      (j i : Bytes) (paths : JailPaths) (uid gid : ℤ)
      → Quiet u (start_jailed_process host j i paths uid gid)
  unfolding start_jailed_process
  start_jailed_process-Quiet j i paths uid gid h =
      grind (arith, verify_sources-Quiet, fill_jail-Quiet, own_jail-Quiet, launch_jailer-Quiet)
