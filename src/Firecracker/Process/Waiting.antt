-- ===== src/Firecracker/Process/Waiting.antt =====
-- How `waitForSocket` ends.
use firecracker_agent.Base.{
  ℕ, zero, suc, ◌+◌, ◌*◌, ◌/◌, ◌≤◌, ◌<◌, Bytes, Bool, true, false, ◌≡◌, refl, ◌∷◌, ◌++◌, Result, ok,
  err, ⊤, text, arith, ltb,
}
use firecracker_agent.Host.{
  Host, History, Event, Stat, present, missing, looked_up, slept, clock_read,
}
use firecracker_agent.Firecracker.Process.{
  poll_interval, poll_found, poll, wait_loop, wait_for_socket,
}

-- The clock never goes back, and a sleep takes at least its time.
pub record ClockLaws (host : Host) : Type 0 where
  pub forward : (h : History) (e : Event) → host.clock h ≤ host.clock (e ∷ h)
  pub sleeps : (h : History) (ns : ℕ) → host.clock h + ns ≤ host.clock (slept ns ∷ h)

-- The socket was seen last; or the clock was read last, at the deadline or later.
abbrev pub Waited : Bytes → ℕ → Result ⊤ × History → Type 0
Waited socket deadline (ok _, h) =
    (d : Bool) × (before : History) × (h ≡ looked_up socket (present d) ∷ before)
Waited socket deadline (err e, h) =
    (t : ℕ) × (before : History) × (h ≡ clock_read t ∷ before)
    × (deadline ≤ t)
    × (e ≡ text "timeout waiting for socket: " ++ socket)

module _ (host : Host) (laws : ClockLaws host) (socket : Bytes) (deadline : ℕ) where
  -- What the rest of the loop must do, from a clock reading one interval after `t`.
  abbrev Continues : ℕ → (History → Result ⊤ × History) → Type 0
  Continues t again =
      (h : History) → t + poll_interval ≤ host.clock h → Waited socket deadline (again h)

  poll_found-Waited :
      (t : ℕ) (again : History → Result ⊤ × History) (x : Stat) (h : History)
      → Continues t again
      → t ≤ host.clock h
      → Waited socket deadline (poll_found again x (looked_up socket x ∷ h))
  unfolding poll_found
  poll_found-Waited t again (present d) h go p = (d, h, refl)
  poll_found-Waited t again (missing e) h go p = go _ (
      omega (
        arith,
        laws.forward h (looked_up socket (missing e)),
        laws.sleeps (looked_up socket (missing e) ∷ h) poll_interval,
      ))

  poll-Waited :
      (again : History → Result ⊤ × History) (b : Bool) (h : History)
      → b ≡ ltb (host.clock h) deadline
      → (host.clock h < deadline → Continues (host.clock h) again)
      → Waited socket deadline (poll host socket again b (clock_read (host.clock h) ∷ h))
  unfolding poll
  poll-Waited again true h e go =
      poll_found-Waited (host.clock h) again _ _ (go (ground arith)) (laws.forward h _)
  poll-Waited again false h e go = (host.clock h, h, refl, ground arith, refl)

  wait_loop-Waited :
      (fuel : ℕ) (h : History)
      → 0 < fuel
      → deadline + poll_interval ≤ host.clock h + fuel * poll_interval
      → Waited socket deadline (wait_loop host socket deadline fuel h)
  unfolding wait_loop
  wait_loop-Waited zero h p q = elim p [ ]
  wait_loop-Waited (suc fuel) h p q =
      poll-Waited (wait_loop host socket deadline fuel) _ h refl
        λ early h' passed. wait_loop-Waited fuel h' (omega arith) (omega arith)

-- With the laws of the clock the wait always ends by one of its two exits: the socket was seen by
-- the last call of `Stat`, or the last call of `Now` gave the deadline or later and the error says
-- so. The deadline is the time at the start plus the timeout.
pub wait_for_socket-Waited :
    (host : Host)
    → ClockLaws host
    → (socket : Bytes) (timeout : ℕ) (h : History)
    → Waited socket (host.clock h + timeout) (wait_for_socket host socket timeout h)
unfolding wait_for_socket
wait_for_socket-Waited host laws socket timeout h =
    wait_loop-Waited host laws socket (host.clock h + timeout) (timeout / poll_interval + 2) _
      (omega arith) (omega (arith, laws.forward h (clock_read (host.clock h))))
