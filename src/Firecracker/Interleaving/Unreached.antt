-- ===== src/Firecracker/Interleaving/Unreached.antt =====
-- A VM that no running `StopVM` can reach, over any sequence of turns.
use firecracker_agent.Base.{
  ℕ, Bytes, ◌≡◌, ◌≢◌, sym, ◌∙◌, ap, inl, inr, List, [], ◌∷◌, some, Result, ok, err, arith, length,
  Option-cases,
}
use firecracker_agent.Base.Places.{get_at, get_at-append, get_at-set_at}
use firecracker_agent.Base.Dict.{lookup, lookup-insert, lookup-erase}
use firecracker_agent.Host.{Host}
use firecracker_agent.Firecracker.State.{Vm, CreateVmRequest, Manager}
use firecracker_agent.Firecracker.Create.{Build}
use firecracker_agent.Firecracker.Manager.{mark_stopped}
use firecracker_agent.Firecracker.Interleaving.{
  Stopping, asked, halting, marking, returned, Shared, deref, stop_section, advance_stop,
  commit_shared, create_shared, find_vm, delete_shared, Turn, created, deleted, stop_asked,
  stop_moves, elsewhere, take_turn, take_turns,
}
use firecracker_agent.Firecracker.Interleaving.Pointers.{IsShared, deref-assign, deref-append}
use firecracker_agent.Firecracker.Interleaving.Invariant.{take_turn-IsShared}

-- The goroutine neither points to `p` nor is about to look up `i`.
abbrev pub Misses : Bytes → ℕ → Stopping → Type 0
Misses i p (asked j force) = j ≢ i
Misses i p (halting q force) = q ≢ p
Misses i p (marking q) = q ≢ p
Misses i p (returned r) = Unit

-- The id has the object `p`, which is `vm`, and no goroutine in `StopVM` can reach it.
pub record IsOut (i : Bytes) (p : ℕ) (vm : Vm) (s : Shared) : Type 0 where
  pub filed : lookup i s.vms ≡ some p
  pub held : deref p s.objects ≡ some vm
  pub missed : (n : ℕ) {t : Stopping} → get_at n s.stops ≡ some t → Misses i p t

-- The turn does not call `StopVM` or `DeleteVM` with the id.
abbrev pub Spares : Bytes → Turn → Type 0
Spares i (deleted j) = j ≢ i
Spares i (stop_asked j force) = j ≢ i
Spares i _ = Unit

abbrev pub AllSpare : Bytes → List Turn → Type 0
AllSpare i [] = Unit
AllSpare i (t ∷ ts) = Spares i t × AllSpare i ts

module _ (i : Bytes) (p : ℕ) (vm : Vm) where
  commit_shared-IsOut :
      (host : Host) (m : Manager) (req : CreateVmRequest) (s : Shared) (x : Result Vm × Build)
      → IsShared s
      → req.vm_id ≢ i
      → IsOut i p vm s
      → IsOut i p vm (commit_shared host m req s x).1
  unfolding commit_shared
  commit_shared-IsOut host m req s (err e, b) v ne o = record {
    filed = o.filed;
    held = o.held;
    missed = o.missed;
  }
  commit_shared-IsOut host m req s (ok new, b) v ne o = record {
    filed = ground (arith, lookup-insert i req.vm_id (length s.objects) s.vms, o.filed);
    held = deref-append p s.objects (new ∷ []) (v.placed i o.filed) ∙ o.held;
    missed = o.missed;
  }

  created-IsOut :
      (host : Host) (m : Manager) (req : CreateVmRequest) (s : Shared)
      → IsShared s
      → IsOut i p vm s
      → IsOut i p vm (create_shared host m req s).1
  unfolding create_shared
  created-IsOut host m req s v o = elim (Option-cases (lookup req.vm_id s.vms)) [
    | inl absent ↦
        rw (absent, create_shared)
          (commit_shared-IsOut host m req s _ v
            (λ e. absurd (ground (arith, sym (ap (λ k. lookup k s.vms) e) ∙ absent, o.filed))) o)
    | inr (q, found) ↦ rw (found, create_shared) o
  ]

  deleted-IsOut :
      (host : Host) (m : Manager) (j : Bytes) (s : Shared)
      → j ≢ i
      → IsOut i p vm s
      → IsOut i p vm (delete_shared host m j s).1
  unfolding delete_shared
  deleted-IsOut host m j s ne o = elim (Option-cases (find_vm j s)) [
    | inl absent ↦ rw (absent, delete_shared) o
    | inr (w, found) ↦
        rw (found, delete_shared)
          (record {
            filed = ground (arith, lookup-erase i j s.vms, o.filed);
            held = o.held;
            missed = o.missed;
          })
  ]

  -- One section keeps the VM, and leaves its own goroutine unable to reach it.
  abbrev Passed : Stopping × Shared → Type 0
  Passed (t, s) = IsOut i p vm s × Misses i p t

  stop_section-Passed :
      (host : Host) (t : Stopping) (s : Shared)
      → IsShared s
      → IsOut i p vm s
      → Misses i p t
      → Passed (stop_section host t s)
  unfolding stop_section
  stop_section-Passed host (asked j force) s v o ne = elim (Option-cases (lookup j s.vms)) [
    | inl absent ↦ rw (absent, stop_section) (o, tt)
    | inr (q, found) ↦
        rw (found, stop_section) (o, λ e. ne (v.apart j i {p = p} (found ∙ ap some e) o.filed))
  ]
  stop_section-Passed host (halting q force) s v o ne = elim (Option-cases (deref q s.objects)) [
    | inl absent ↦ rw (absent, stop_section) (o, ne)
    | inr (w, found) ↦
        rw (found, stop_section) (record { filed = o.filed; held = o.held; missed = o.missed }, ne)
  ]
  stop_section-Passed host (marking q) s v o ne = (
    record {
      filed = o.filed;
      held = ground (arith, deref-assign q p mark_stopped s.objects, o.held, ne);
      missed = o.missed;
    },
    tt,
  )
  stop_section-Passed host (returned r) s v o ne = (o, tt)

  stop_moves-IsOut :
      (host : Host) (n : ℕ) (s : Shared)
      → IsShared s
      → IsOut i p vm s
      → IsOut i p vm (advance_stop host n s)
  unfolding advance_stop
  stop_moves-IsOut host n s v o = elim (Option-cases (get_at n s.stops)) [
    | inl absent ↦ rw (absent, advance_stop) o
    | inr (t, found) ↦
        let after = stop_section-Passed host t s v o (o.missed n found) in
        rw (found, advance_stop)
          (record {
            filed = after.0.filed;
            held = after.0.held;
            missed = λ k {t = u} e.
                elim (get_at-set_at k n (stop_section host t s).1.stops (stop_section host t s).0 u
                  e) [ inl old ↦ after.0.missed k old.0 | inr (new, _) ↦ rw new after.1 ];
          })
  ]

  take_turn-IsOut :
      (host : Host) (m : Manager) (t : Turn) (s : Shared)
      → IsShared s
      → Spares i t
      → IsOut i p vm s
      → IsOut i p vm (take_turn host m t s)
  unfolding take_turn
  take_turn-IsOut host m (created req) s v sp o = created-IsOut host m req s v o
  take_turn-IsOut host m (deleted j) s v sp o = deleted-IsOut host m j s sp o
  take_turn-IsOut host m (stop_asked j force) s v sp o = record {
    filed = o.filed;
    held = o.held;
    missed = λ n {t = u} e. elim (get_at-append n s.stops (asked j force) u e) [
      | inl old ↦ o.missed n old
      | inr (new, _) ↦ rw new sp
    ];
  }
  take_turn-IsOut host m (stop_moves n) s v sp o = stop_moves-IsOut host n s v o
  take_turn-IsOut host m (elsewhere e) s v sp o = record {
    filed = o.filed;
    held = o.held;
    missed = o.missed;
  }

  pub take_turns-IsOut :
      (host : Host) (m : Manager) (ts : List Turn) (s : Shared)
      → IsShared s
      → AllSpare i ts
      → IsOut i p vm s
      → IsOut i p vm (take_turns host m ts s)
  unfolding take_turns
  take_turns-IsOut host m [] s v sp o = o
  take_turns-IsOut host m (t ∷ ts) s v sp o =
      take_turns-IsOut host m ts (take_turn host m t s) (take_turn-IsShared host m t s v) sp.1
        (take_turn-IsOut host m t s v sp.0 o)
