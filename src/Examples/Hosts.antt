-- ===== src/Examples/Hosts.antt =====
-- A host on which every call works, and which keeps the laws that are assumed of hosts.
use firecracker_agent.Base.{
  ℕ, suc, ◌+◌, ◌≤◌, Bytes, false, ◌&&◌, List, [], ◌∷◌, none, some, ok, text, arith, ◌==◌,
  if◌then◌else◌,
}
use Prim.Native.Nat.{max}
use firecracker_agent.Host.{
  Output, present, started, spawned, slept, reply, argv, Event, History, Host,
}
use firecracker_agent.Host.Ledger.{tap_exists, TapLaws}
use firecracker_agent.Firecracker.Process.Waiting.{ClockLaws}

abbrev fine : Output
fine = record { output = []; error = none }

abbrev busy : Output
busy = record { output = text "Device or resource busy"; error = some (text "exit status 1") }

-- `ip tuntap add` of a device that exists fails; every other command works.
abbrev answer : History → List Bytes → Output
answer h (ip ∷ (tuntap ∷ (add ∷ (dev ∷ rest)))) =
    if (tuntap == text "tuntap") && tap_exists dev h then busy else fine
answer h _ = fine

abbrev duration : Event → ℕ
duration (slept ns) = ns
duration _ = 0

abbrev elapsed : History → ℕ
elapsed [] = 0
elapsed (e ∷ h) = elapsed h + duration e

abbrev pid_of : Event → ℕ
pid_of (spawned line log (started pid)) = pid
pid_of _ = 0

-- The largest process id given so far.
abbrev last_pid : History → ℕ
last_pid [] = 0
last_pid (e ∷ h) = max (pid_of e) (last_pid h)

abbrev pub working_host : Host
working_host = record {
  run = answer;
  mkdir_all = λ h path. none;
  remove_all = λ h path. none;
  stat = λ h path. present false;
  open_append = λ h path. none;
  read = λ h path. [];
  chown = λ h path uid gid. none;
  start = λ h line log. started (suc (last_pid h));
  signal = λ h pid s. none;
  exchange = λ h socket r. reply 204 [] none;
  check_request = λ r. none;
  marshal = λ b. none;
  clock = elapsed;
  parse_cidr = λ cidr. ok (text "172.16.0.1");
}

pub working_host_taps : TapLaws working_host
unfolding argv text
working_host_taps = record {
  add_existing = λ t h up. ground arith;
  delete_existing = λ t h up. ground arith;
}

elapsed_forward : (h : History) (e : Event) → elapsed h ≤ elapsed (e ∷ h)
elapsed_forward h e = omega arith

pub working_host_clock : ClockLaws working_host
working_host_clock = record { forward = λ h e. elapsed_forward h e; sleeps = λ h ns. omega arith }

-- A host on which a process that was started has finished by the time that it is sent a signal.
abbrev pub crashing_host : Host
crashing_host = record working_host {
  signal =
      λ h pid s. some (record { message = text "os: process already finished"; not_exist = false });
}
