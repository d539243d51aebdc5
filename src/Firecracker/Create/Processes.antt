-- ===== src/Firecracker/Create/Processes.antt =====
-- What starting and killing a VM's process does to the processes that may be living.
use firecracker_agent.Base.{
  ◌⊎◌, inl, inr, ℕ, suc, ℤ, ◌*◌, ⊤, Bytes, Bool, true, false, ◌≡◌, refl, List, ◌∷◌, none, some,
  Result, ok, err, arith, if◌then◌else◌,
}
use firecracker_agent.Host.{
  Host, History, Started as Launch, not_started, started, probe, spawned, signalled, slept, reaping,
}
use firecracker_agent.Host.Ledger.{same, may_live, starts}
use firecracker_agent.Storage.{JailPaths}
use firecracker_agent.Firecracker.Calm.{
  wait_for_socket-Calm, verify_sources-Calm, fill_jail-Calm, own_jail-Calm,
}
use firecracker_agent.Firecracker.Process.{
  is_none, VmProcess, millisecond, await_api, start_firecracker_process, close_files, kill_now,
  kill,
}
use firecracker_agent.Firecracker.Jailer.{
  Jailed, is_process_running, await_jail, launch_jailer, start_jailed_process,
}

-- The process is the one behind `Cmd`.
abbrev pub names : ℕ → VmProcess → Bool
names p v = elim v.cmd [ none ↦ false | some q ↦ same q p ]

launch_cases : (x : Launch) → ((e : Bytes) × (x ≡ not_started e)) ⊎ ((pid : ℕ) × (x ≡ started pid))
launch_cases (not_started e) = inl (e, refl)
launch_cases (started pid) = inr (pid, refl)

module _ (host : Host) (p : ℕ) where
  pub starts-kill : (v : VmProcess) (h : History) → starts p (kill host v h).1 ≡ starts p h
  unfolding kill kill_now close_files
  starts-kill v h = ground arith

  -- `Kill` ends its process, and no other.
  pub may_live-kill :
      (v : VmProcess) (h : History)
      → may_live p (kill host v h).1 ≡ (if names p v then false else may_live p h)
  unfolding kill kill_now close_files
  may_live-kill v h = ground arith

  -- The process may be living only if it might before, and if no process of its id was started, then it
  -- is as it was.
  abbrev pub Undone : History → History → Type 0
  Undone h h' =
      (may_live p h' ≡ true → may_live p h ≡ true)
      × (starts p h' ≡ starts p h → may_live p h' ≡ may_live p h)

  -- The new process has been started, which is of the id `p` if `own`, and no other.
  abbrev pub Began : Bool → History → History → Type 0
  Began own h h' =
      (may_live p h' ≡ (if own then true else may_live p h))
      × (starts p h' ≡ (if own then suc (starts p h) else starts p h))

  -- The new process may be living, and the others are as they were; or the start is undone.
  abbrev pub Launched : History → Result VmProcess × History → Type 0
  Launched h (ok v, h') = Began (names p v) h h' × (is_none v.cmd ≡ false)
  Launched h (err e, h') = Undone h h'

  await_api-Launched :
      (socket log : Bytes) (pid : ℕ) (h before : History)
      → Began (same pid p) before h
      → Launched before (await_api host socket log pid h)
  unfolding await_api
  await_api-Launched socket log pid h before e =
      let waiting : History = reaping pid ∷ h in
      ground (arith, wait_for_socket-Calm host p socket (5000 * millisecond) waiting)

  pub start_firecracker_process-Launched :
      (binary socket log : Bytes) (h : History)
      → Launched h (start_firecracker_process host binary socket log h)
  unfolding start_firecracker_process
  start_firecracker_process-Launched binary socket log h = grind (arith, await_api-Launched)

  -- The same of the process id that the jailer's launch returns.
  abbrev Started : History → Result ℕ × History → Type 0
  Started h (ok pid, h') = Began (same pid p) h h'
  Started h (err e, h') = Undone h h'

  abbrev Kept : ℕ → History → Result ⊤ × History → Type 0
  Kept pid before (ok _, h') = Began (same pid p) before h'
  Kept pid before (err e, h') = Undone before h'

  await_jail-Kept :
      (socket log : Bytes) (pid : ℕ) (h before : History)
      → Began (same pid p) before h
      → Kept pid before (await_jail host socket log pid h)
  unfolding await_jail
  await_jail-Kept socket log pid h before e =
      let waiting : History = reaping pid ∷ h in
      ground (arith, wait_for_socket-Calm host p socket (20000 * millisecond) waiting)

  launch_jailer-Started :
      (line : List Bytes) (socket log : Bytes) (h : History)
      → Started h (launch_jailer host line socket log h)
  unfolding launch_jailer is_process_running
  launch_jailer-Started line socket log h = elim (launch_cases (host.start h line log)) [
    | inl (e, failed) ↦ ground arith
    | inr (pid, new) ↦
        let probed : History =
          signalled pid probe none
          ∷ (slept (500 * millisecond) ∷ (spawned line log (started pid) ∷ h)) in
        ground (arith, await_jail-Kept socket log pid probed h)
  ]

  abbrev pub LaunchedJailed : History → Result Jailed × History → Type 0
  LaunchedJailed h (ok (v, paths), h') = Began (names p v) h h' × (is_none v.cmd ≡ false)
  LaunchedJailed h (err e, h') = Undone h h'

  pub start_jailed_process-LaunchedJailed :
      (j i : Bytes) (paths : JailPaths) (uid gid : ℤ) (h : History)
      → LaunchedJailed h (start_jailed_process host j i paths uid gid h)
  unfolding start_jailed_process
  start_jailed_process-LaunchedJailed j i paths uid gid h =
      grind (arith, verify_sources-Calm, fill_jail-Calm, own_jail-Calm, launch_jailer-Started)
