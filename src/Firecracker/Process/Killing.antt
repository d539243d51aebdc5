-- ===== src/Firecracker/Process/Killing.antt =====
-- What `Kill` leaves behind.
use firecracker_agent.Base.{ℕ, true, false, ◌≡◌, ◌≢◌, some, arith}
use firecracker_agent.Host.{Host, History}
use firecracker_agent.Host.Ledger.{alive}
use firecracker_agent.Network.Taps.{is_ok}
use firecracker_agent.Firecracker.Process.{VmProcess, kill, kill_now, close_files}

-- If `Kill` of a started process succeeds, the process is no longer alive; if it fails, the process
-- is as alive as it was. No other process is touched either way.
pub kill-alive :
    (host : Host) (p : VmProcess) (pid : ℕ) (h : History)
    → p.cmd ≡ some pid
    → let (r, h') = kill host p h in
      (is_ok r ≡ true → alive pid h' ≡ false)
      × (is_ok r ≡ false → alive pid h' ≡ alive pid h)
      × ((q : ℕ) → q ≢ pid → alive q h' ≡ alive q h)
unfolding kill kill_now close_files
kill-alive host p pid h e = (ground arith, ground arith, λ q ne. ground arith)
