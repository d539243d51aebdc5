-- ===== src/Host/Calls.antt =====
-- The calls. Each appends one event, and none looks at the history itself.
use firecracker_agent.Base.{ℕ, ℤ, Bytes, Option, none, some, List, ◌∷◌, ◌++◌, Act, ok, err, ⊤, text}
use firecracker_agent.Host.Types.{
  Command, argv, Output, OsError, Signal, Stat, Started, Reply, Request, ran, made_dirs,
  removed_all, removed, looked_up, opened_log, closed_log, read_log, owner_set, spawned, reaping,
  signalled, requested, slept, clock_read, History, Host,
}

-- `os.Remove(path)`, whose error the program never reads.
abbrev pub remove : Bytes → Act History ⊤
remove path h = (ok tt, removed path ∷ h)

abbrev pub close : Bytes → Act History ⊤
close path h = (ok tt, closed_log path ∷ h)

-- `go func() { cmd.Wait() … }()`: from here on the process is reaped when it exits.
abbrev pub reap_later : ℕ → Act History ⊤
reap_later pid h = (ok tt, reaping pid ∷ h)

-- `time.Sleep`, in nanoseconds.
abbrev pub sleep : ℕ → Act History ⊤
sleep ns h = (ok tt, slept ns ∷ h)

module _ (host : Host) where
  -- `cmd.CombinedOutput()`, also for `cmd.Run()`, which reads the error alone.
  abbrev pub combined_output : Command → Act History Output
  combined_output c h = let out = host.run h (argv c) in (ok out, ran c out ∷ h)

  -- `os.MkdirAll(path, 0755)`
  abbrev pub mkdir_all : Bytes → Act History (Option OsError)
  mkdir_all path h = let e = host.mkdir_all h path in (ok e, made_dirs path e ∷ h)

  -- `os.RemoveAll(path)`
  abbrev pub remove_all : Bytes → Act History (Option OsError)
  remove_all path h = let e = host.remove_all h path in (ok e, removed_all path e ∷ h)

  abbrev pub stat : Bytes → Act History Stat
  stat path h = let s = host.stat h path in (ok s, looked_up path s ∷ h)

  -- `os.OpenFile(path, O_CREATE|O_WRONLY|O_APPEND, 0644)`. The file is named by its path.
  abbrev pub open_append : Bytes → Act History (Option OsError)
  open_append path h = let e = host.open_append h path in (ok e, opened_log path e ∷ h)

  abbrev pub read_file : Bytes → Act History Bytes
  read_file path h = let b = host.read h path in (ok b, read_log path b ∷ h)

  abbrev pub chown : Bytes → ℤ → ℤ → Act History (Option OsError)
  chown path uid gid h = let e = host.chown h path uid gid in (ok e, owner_set path uid gid e ∷ h)

  -- `cmd.Start()` of a command line, with its output sent to a log file.
  abbrev pub start : List Bytes → Bytes → Act History Started
  start line log h = let s = host.start h line log in (ok s, spawned line log s ∷ h)

  -- `process.Signal(s)`; `process.Kill()` is SIGKILL, and the signal 0 only probes.
  abbrev pub signal : ℕ → Signal → Act History (Option OsError)
  signal pid s h = let e = host.signal h pid s in (ok e, signalled pid s e ∷ h)

  -- `httpClient.Do(req)` over the socket, and `io.ReadAll` of the answer.
  abbrev pub exchange : Bytes → Request → Act History Reply
  exchange socket r h = let a = host.exchange h socket r in (ok a, requested socket r a ∷ h)

  -- `time.Now()`
  abbrev pub now : Act History ℕ
  now h = let t = host.clock h in (ok t, clock_read t ∷ h)

-- `if err != nil { return fmt.Errorf("<prefix>%w", err) }`
abbrev pub check_os : Bytes → Option OsError → Act History ⊤
check_os prefix none h = (ok tt, h)
check_os prefix (some e) h = (err (prefix ++ e.message), h)

-- `fmt.Errorf("<prefix>%w (output: %s)", err, string(output))` if the command failed.
abbrev pub check_output : Bytes → Output → Act History ⊤
check_output prefix out h = elim out.error [
  | none ↦ (ok tt, h)
  | some e ↦ (err (prefix ++ (e ++ (text " (output: " ++ (out.output ++ text ")")))), h)
]
