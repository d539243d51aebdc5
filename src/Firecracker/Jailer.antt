-- ===== src/Firecracker/Jailer.antt =====
-- `internal/firecracker/jailer.go`: a VM's process behind Firecracker's native jailer.
use firecracker_agent.Base.{
  ℕ, ℤ, ◌*◌, Bytes, Bool, true, false, List, [], ◌∷◌, ◌++◌, none, some, Act, ⊤, ok, err, pure, fail,
  ◌>>=◌, ◌>>◌, wrap, text, show_int,
}
use firecracker_agent.Host.{
  Host, History, Stat, sigkill, probe, missing, present, not_started, started, mkdir_all, remove,
  stat, open_append, close, read_file, chown, start, reap_later, signal, sleep, check_os,
}
use firecracker_agent.FilePath.{join, dir}
use firecracker_agent.FileUtil.{copy_file}
use firecracker_agent.Storage.{JailPaths}
use firecracker_agent.Firecracker.Client.{new_client}
use firecracker_agent.Firecracker.Process.{VmProcess, jailer, millisecond, wait_for_socket}

-- What `verifyFileExists` makes of `os.Stat`.
unfoldable pub file_check : Bytes → Bytes → Stat → Act History ⊤
file_check path what (missing e) h =
    (err (what ++ (text " not found at " ++ (path ++ (text ": " ++ e)))), h)
file_check path what (present true) h =
    (err (what ++ (text " at " ++ (path ++ text " is a directory, not a file"))), h)
file_check path what (present false) h = (ok tt, h)

unfoldable pub verify_file_exists : Host → Bytes → Bytes → Act History ⊤
verify_file_exists host path what = do found ← stat host path; file_check path what found

-- `os.FindProcess` always succeeds on Unix, so the probe decides.
unfoldable pub is_process_running : Host → ℕ → Act History Bool
is_process_running host pid = do
  e ← signal host pid probe
  elim e [ none ↦ pure true | some _ ↦ pure false ]

-- The paths inside `<chroot-base-dir>/firecracker/<vm_id>/root`.
pub record Jail : Type 0 where
  pub base : Bytes
  pub id_dir : Bytes
  pub root : Bytes
  pub socket : Bytes
  pub run_dir : Bytes
  pub binary : Bytes
  pub kernel : Bytes
  pub rootfs : Bytes

unfoldable pub jail_of : JailPaths → Bytes → Jail
jail_of paths vm_id =
    let base = dir paths.jail_dir in
    let id_dir = join (base ∷ (text "firecracker" ∷ (vm_id ∷ []))) in
    let root = join (id_dir ∷ (text "root" ∷ [])) in
    record {
      base = base;
      id_dir = id_dir;
      root = root;
      socket = join (root ∷ (text "run" ∷ (text "firecracker.socket" ∷ [])));
      run_dir = join (root ∷ (text "run" ∷ []));
      binary = join (root ∷ (text "firecracker" ∷ []));
      kernel = join (root ∷ (text "vmlinux" ∷ []));
      rootfs = join (root ∷ (text "rootfs.ext4" ∷ []));
    }

unfoldable pub verify_sources : Host → JailPaths → Act History ⊤
verify_sources host paths = do
  verify_file_exists host paths.firecracker_binary (text "firecracker binary")
  verify_file_exists host paths.kernel_path (text "kernel")
  verify_file_exists host paths.rootfs_path (text "rootfs")

-- Steps 1 and 2: the directories, and the files to run.
unfoldable pub fill_jail : Host → JailPaths → Jail → Act History ⊤
fill_jail host paths jail = do
  root ← mkdir_all host jail.root
  check_os (text "failed to create jail root directory: ") root
  run_dir ← mkdir_all host jail.run_dir
  check_os (text "failed to create run directory: ") run_dir
  wrap (text "failed to copy firecracker binary: ")
      (copy_file host paths.firecracker_binary jail.binary)
  wrap (text "failed to copy kernel: ") (copy_file host paths.kernel_path jail.kernel)
  wrap (text "failed to copy rootfs: ") (copy_file host paths.rootfs_path jail.rootfs)

-- Step 3; failures are only logged.
unfoldable pub own_jail : Host → Jail → ℤ → ℤ → Act History ⊤
own_jail host jail uid gid = do
  chown host jail.root uid gid
  chown host jail.run_dir uid gid
  chown host jail.binary uid gid
  chown host jail.kernel uid gid
  chown host jail.rootfs uid gid
  pure tt

-- Step 4
unfoldable pub jailer_line : Bytes → Bytes → Jail → ℤ → ℤ → List Bytes
jailer_line jailer_path vm_id jail uid gid =
    jailer_path
    ∷ text "--id"
    ∷ vm_id
    ∷ text "--uid"
    ∷ show_int uid
    ∷ text "--gid"
    ∷ show_int gid
    ∷ text "--chroot-base-dir"
    ∷ jail.base
    ∷ text "--exec-file"
    ∷ jail.binary
    ∷ text "--cgroup-version"
    ∷ text "2"
    ∷ text "--"
    ∷ text "--api-sock"
    ∷ text "/run/firecracker.socket"
    ∷ text "--boot-timer"
    ∷ []

-- The wait for the socket, after the process was seen running.
unfoldable pub await_jail : Host → Bytes → Bytes → ℕ → Act History ⊤
await_jail host socket log pid h =
    let (r, h') = (reap_later pid >> wait_for_socket host socket (20000 * millisecond)) h in
    elim r [
      | ok _ ↦ (ok tt, h')
      | err e ↦
          (do
            content ← read_file host log
            signal host pid sigkill
            fail (text "socket not ready: " ++ (e ++ (text ". Jailer log: " ++ content))))
            h'
    ]

-- From `cmd.Start()` on, under the deferred `logFile.Close()`.
unfoldable pub launch_jailer : Host → List Bytes → Bytes → Bytes → Act History ℕ
launch_jailer host line socket log = do
  launched ← start host line log
  elim launched [
    | not_started e ↦ fail (text "failed to start jailer: " ++ e)
    | started pid ↦ do
      sleep (500 * millisecond)
      alive ← is_process_running host pid
      elim alive [
        | false ↦ do
          content ← read_file host log
          fail (text "jailer exited immediately. Log: " ++ content)
        | true ↦ (await_jail host socket log pid >> pure pid)
      ]
  ]

-- `defer logFile.Close()`
abbrev closing : {A : Type 0} → Bytes → Act History A → Act History A
closing log m h = let (r, h') = m h in (r, (close log h').1)

-- The process, and `jailPaths` as it is left.
abbrev pub Jailed : Type 0
Jailed = VmProcess × JailPaths

unfoldable pub start_jailed_process : Host → Bytes → Bytes → JailPaths → ℤ → ℤ → Act History Jailed
start_jailed_process host jailer_path vm_id paths uid gid =
    let jail = jail_of paths vm_id in
    do
      verify_sources host paths
      fill_jail host paths jail
      own_jail host jail uid gid
      remove jail.socket
      opened ← open_append host paths.log_path
      check_os (text "failed to open log file: ") opened
      pid ← closing paths.log_path (
          launch_jailer host (jailer_line jailer_path vm_id jail uid gid) jail.socket
            paths.log_path)
      pure (
        record {
          pid = pid;
          cmd = some pid;
          socket_path = jail.socket;
          log_file = some paths.log_path;
          client = new_client jail.socket;
          mode = jailer;
          jail_path = jail.id_dir;
        },
        record paths {
          kernel_path = text "/vmlinux";
          rootfs_path = text "/rootfs.ext4";
          socket_path = jail.socket;
          jail_dir = jail.id_dir;
        },
      )
