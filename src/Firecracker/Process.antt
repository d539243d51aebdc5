-- ===== src/Firecracker/Process.antt =====
-- `internal/firecracker/process.go`: starting, probing, stopping and killing a VM's process.
pub mod Waiting
pub mod Killing
pub mod Stopping
use firecracker_agent.Base.{
  sure, ℕ, zero, suc, ◌+◌, ◌*◌, ◌/◌, Bytes, Bool, true, false, List, [], ◌∷◌, ◌++◌, Option, none,
  some, Act, ⊤, ok, err, pure, fail, ◌>>=◌, ◌>>◌, text, ltb,
}
use firecracker_agent.Host.{
  Stat, Host, History, sigterm, sigkill, probe, missing, present, not_started, started, remove,
  stat, open_append, close, start, reap_later, signal, sleep, now, check_os,
}
use firecracker_agent.Firecracker.Client.{Client, new_client}

pub data ProcessMode : Type 0 where
  direct jailer : ProcessMode

-- `cmd` is the started process behind `Cmd.Process`; `none` where either is nil.
pub record VmProcess : Type 0 where
  pub pid : ℕ
  pub cmd : Option ℕ
  pub socket_path : Bytes
  pub log_file : Option Bytes
  pub client : Client
  pub mode : ProcessMode
  pub jail_path : Bytes

-- 1 ms, in nanoseconds.
abbrev pub millisecond : ℕ
millisecond = 1_000_000

abbrev pub poll_interval : ℕ
poll_interval = 100_000_000

-- The body of the loop of `waitForSocket`, with the rest of the loop as `again`: after `os.Stat`,
-- and from the test of the deadline on.
unfoldable pub poll_found : Act History ⊤ → Stat → Act History ⊤
poll_found again (present _) = pure tt
poll_found again (missing _) = (sleep poll_interval >> again)

unfoldable pub poll : Host → Bytes → Act History ⊤ → Bool → Act History ⊤
poll host socket again true = do found ← stat host socket; poll_found again found
poll host socket again false = fail (text "timeout waiting for socket: " ++ socket)

-- The `for` loop, on fuel. The two outcomes of the source are `ok` and the timeout error; a loop
-- that ran out of fuel would end in another error.
unfoldable pub wait_loop : Host → Bytes → ℕ → ℕ → Act History ⊤
wait_loop host socket deadline zero h = (err (text "out of fuel"), h)
wait_loop host socket deadline (suc fuel) h =
    let body = do
      t ← now host
      poll host socket (wait_loop host socket deadline fuel) (ltb t deadline)
    in body h

-- The fuel is a round for each 100 ms of the timeout, and one more to see the deadline.
unfoldable pub wait_for_socket : Host → Bytes → ℕ → Act History ⊤
wait_for_socket host socket timeout = do
  t ← now host
  wait_loop host socket (t + timeout) (timeout / poll_interval + 2)

abbrev firecracker_line : Bytes → Bytes → Bytes → List Bytes
firecracker_line binary socket log =
    binary
    ∷ text "--api-sock"
    ∷ socket
    ∷ text "--log-path"
    ∷ log
    ∷ text "--level"
    ∷ text "Info"
    ∷ []

-- After `cmd.Start()`: the background goroutine, and the wait for the socket.
unfoldable pub await_api : Host → Bytes → Bytes → ℕ → Act History VmProcess
await_api host socket log pid h =
    let (r, h') = (reap_later pid >> wait_for_socket host socket (5000 * millisecond)) h in
    elim r [
      | ok _ ↦ (
        ok (record {
          pid = pid;
          cmd = some pid;
          socket_path = socket;
          log_file = some log;
          client = new_client socket;
          mode = direct;
          jail_path = [];
        }),
        h',
      )
      | err e ↦ (signal host pid sigkill >> close log >> fail (text "socket not ready: " ++ e)) h'
    ]

unfoldable pub start_firecracker_process : Host → Bytes → Bytes → Bytes → Act History VmProcess
start_firecracker_process host binary socket log = do
  remove socket
  opened ← open_append host log
  check_os (text "failed to open log file: ") opened
  launched ← start host (firecracker_line binary socket log) log
  elim launched [
    | not_started e ↦ (close log >> fail (text "failed to start Firecracker process: " ++ e))
    | started pid ↦ await_api host socket log pid
  ]

abbrev pub is_none : {A : Type 0} → Option A → Bool
is_none none = true
is_none (some _) = false

-- The probe is the signal 0.
unfoldable pub is_running : Host → VmProcess → History → Bool × History
is_running host p h = elim p.cmd [
  | none ↦ (false, h)
  | some pid ↦ (is_none (host.signal h pid probe), (signal host pid probe h).1)
]

-- Both `Stop` and `Kill` end so.
unfoldable pub close_files : VmProcess → Act History ⊤
close_files p = (elim p.log_file [ none ↦ pure tt | some log ↦ close log ] >> remove p.socket_path)

-- The body of the first `if` of `Stop`.
unfoldable pub terminate : Host → VmProcess → ℕ → Act History ⊤
terminate host p pid = do
  sent ← signal host pid sigterm
  elim sent [
    | some _ ↦ pure tt
    | none ↦ do
      sleep (2000 * millisecond)
      alive ← sure (is_running host p)
      elim alive [ true ↦ (signal host pid sigkill >> sleep (200 * millisecond)) | false ↦ pure tt ]
  ]

unfoldable pub stop : Host → VmProcess → Act History ⊤
stop host p = do elim p.cmd [ none ↦ pure tt | some pid ↦ terminate host p pid ]; close_files p

-- The body of the first `if` of `Kill`.
unfoldable pub kill_now : Host → ℕ → Act History ⊤
kill_now host pid = do
  sent ← signal host pid sigkill
  check_os (text "failed to kill process: ") sent
  sleep (100 * millisecond)

unfoldable pub kill : Host → VmProcess → Act History ⊤
kill host p = do elim p.cmd [ none ↦ pure tt | some pid ↦ kill_now host pid ]; close_files p
