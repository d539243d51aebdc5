-- ===== src/Firecracker/Process/Stopping.antt =====
-- What `Stop` leaves behind.
use firecracker_agent.Base.{ℕ, false, ◌≡◌, ◌≢◌, some, ok, arith}
use firecracker_agent.Host.{Host, History}
use firecracker_agent.Host.Ledger.{may_live}
use firecracker_agent.Firecracker.Process.{VmProcess, stop, terminate, is_running, close_files}

-- `Stop` of a started process always succeeds, and whichever of its signals are refused, afterwards the
-- process cannot be living: it was sent SIGKILL, or a signal to it was refused. Whether any other
-- process may be living is as before.
pub stop-may_live :
    (host : Host) (p : VmProcess) (pid : ℕ) (h : History)
    → p.cmd ≡ some pid
    → let (r, h') = stop host p h in
      (r ≡ ok tt) × (may_live pid h' ≡ false) × ((q : ℕ) → q ≢ pid → may_live q h' ≡ may_live q h)
unfolding stop terminate is_running close_files
stop-may_live host p pid h e = (ground arith, ground arith, λ q ne. ground arith)
