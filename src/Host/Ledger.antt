-- ===== src/Host/Ledger.antt =====
-- What a history says of the devices and processes that it started: the abstract view by which
-- leaks are stated, and what is assumed of the host about them.
use firecracker_agent.Base.{
  suc, ℕ, Bytes, Bool, true, false, ◌&&◌, ◌≡◌, [], ◌∷◌, none, some, ◌==◌, if◌then◌else◌, ℕ_discrete,
}
use mathlib.Core.Logic.{ite}
use firecracker_agent.Host.Types.{
  argv, tuntap_add, link_delete, Output, sigkill, sigterm, probe, started, ran, opened_log,
  closed_log, spawned, signalled, Event, History, Host,
}

abbrev pub succeeded : Output → Bool
succeeded out = elim out.error [ none ↦ true | some _ ↦ false ]

-- A device exists from the `ip tuntap add` that succeeded to the `ip link delete` that did.
abbrev pub tap_after : Bytes → Event → Bool → Bool
tap_after t (ran (tuntap_add u) out) old = if (u == t) && succeeded out then true else old
tap_after t (ran (link_delete u) out) old = if (u == t) && succeeded out then false else old
tap_after t _ old = old

abbrev pub tap_exists : Bytes → History → Bool
tap_exists t [] = false
tap_exists t (e ∷ h) = tap_after t e (tap_exists t h)

-- Documented behaviour of `ip`: a device that exists cannot be added again, and can be deleted.
pub record TapLaws (host : Host) : Type 0 where
  pub add_existing :
      (t : Bytes) (h : History)
      → tap_exists t h ≡ true
      → succeeded (host.run h (argv (tuntap_add t))) ≡ false
  pub delete_existing :
      (t : Bytes) (h : History)
      → tap_exists t h ≡ true
      → succeeded (host.run h (argv (link_delete t))) ≡ true

abbrev pub same : ℕ → ℕ → Bool
same a b = ite (ℕ_discrete a b) true false

-- The process of an id is taken to be alive from the `Start` that gave the id until a SIGKILL was
-- delivered, or a probe was refused.
abbrev pub alive_after : ℕ → Event → Bool → Bool
alive_after p (spawned _ _ (started q)) old = if same q p then true else old
alive_after p (signalled q sigkill none) old = if same q p then false else old
alive_after p (signalled q probe (some _)) old = if same q p then false else old
alive_after p _ old = old

abbrev pub alive : ℕ → History → Bool
alive p [] = false
alive p (e ∷ h) = alive_after p e (alive p h)

-- A process may be living from the `Start` that gave its id on, for it may also have finished by
-- itself, until it was sent a SIGKILL, or any signal to it was refused: `os.Process` refuses a signal to
-- a child once that has finished (`os.ErrProcessDone`). A later `Start` may give the same id again.
abbrev pub may_live_after : ℕ → Event → Bool → Bool
may_live_after p (spawned _ _ (started q)) old = if same q p then true else old
may_live_after p (signalled q sigkill _) old = if same q p then false else old
may_live_after p (signalled q sigterm (some _)) old = if same q p then false else old
may_live_after p (signalled q probe (some _)) old = if same q p then false else old
may_live_after p _ old = old

abbrev pub may_live : ℕ → History → Bool
may_live p [] = false
may_live p (e ∷ h) = may_live_after p e (may_live p h)

-- How often the id was given to a new process.
abbrev pub starts_after : ℕ → Event → ℕ → ℕ
starts_after p (spawned _ _ (started q)) n = if same q p then suc n else n
starts_after p _ n = n

abbrev pub starts : ℕ → History → ℕ
starts p [] = 0
starts p (e ∷ h) = starts_after p e (starts p h)

-- A log file is open from the call that opened it until it is closed.
abbrev pub log_after : Bytes → Event → Bool → Bool
log_after l (opened_log path none) old = if path == l then true else old
log_after l (closed_log path) old = if path == l then false else old
log_after l _ old = old

abbrev pub log_open : Bytes → History → Bool
log_open l [] = false
log_open l (e ∷ h) = log_after l e (log_open l h)
