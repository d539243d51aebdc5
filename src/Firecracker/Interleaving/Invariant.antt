-- ===== src/Firecracker/Interleaving/Invariant.antt =====
-- The invariant of the shared VM manager's pointers, turn by turn.
use firecracker_agent.Base.{
  ℕ, ◌≤◌, Bytes, inl, inr, List, [], ◌∷◌, ◌++◌, Result, ok, err, arith, length, length-append,
  Option-cases,
}
use firecracker_agent.Base.Places.{get_at, get_at-append, get_at-set_at, set_at}
use firecracker_agent.Base.Dict.{
  lookup, erase, lookup-insert, lookup-erase, insert-NodupKeys, erase-NodupKeys,
}
use firecracker_agent.Host.{Host, History}
use firecracker_agent.Firecracker.State.{Vm, CreateVmRequest, Manager}
use firecracker_agent.Firecracker.Create.{Build}
use firecracker_agent.Firecracker.Manager.{mark_stopped}
use firecracker_agent.Firecracker.Interleaving.{
  Stopping, asked, halting, marking, returned, Shared, deref, assign, stop_section, advance_stop,
  commit_shared, create_shared, find_vm, delete_shared, Turn, created, deleted, stop_asked,
  stop_moves, elsewhere, take_turn, take_turns,
}
use firecracker_agent.Firecracker.Interleaving.Pointers.{PointsBelow, IsShared, length-assign}

PointsBelow-le : (n n' : ℕ) (t : Stopping) → n ≤ n' → PointsBelow n t → PointsBelow n' t
PointsBelow-le n n' (asked i force) l p = tt
PointsBelow-le n n' (halting q force) l p = omega arith
PointsBelow-le n n' (marking q) l p = omega arith
PointsBelow-le n n' (returned r) l p = tt

-- A new goroutine, or a new stage of one.
aimed_append :
    (s : Shared) (t : Stopping)
    → IsShared s
    → PointsBelow (length s.objects) t
    → IsShared (record s { stops = s.stops ++ (t ∷ []) })
aimed_append s t v p = record {
  once = v.once;
  placed = v.placed;
  apart = v.apart;
  aimed = λ n {t = u} e. elim (get_at-append n s.stops t u e) [
    | inl old ↦ v.aimed n old
    | inr (new, _) ↦ rw new p
  ];
}

aimed_set :
    (s : Shared) (m : ℕ) (t : Stopping)
    → IsShared s
    → PointsBelow (length s.objects) t
    → IsShared (record s { stops = set_at m t s.stops })
aimed_set s m t v p = record {
  once = v.once;
  placed = v.placed;
  apart = v.apart;
  aimed = λ n {t = u} e. elim (get_at-set_at n m s.stops t u e) [
    | inl old ↦ v.aimed n old.0
    | inr (new, _) ↦ rw new p
  ];
}

pub assign-IsShared :
    (p : ℕ) (f : Vm → Vm) (s : Shared)
    → IsShared s
    → IsShared (record s { objects = assign p f s.objects })
assign-IsShared p f s v = record {
  once = v.once;
  placed = λ i e. rw (length-assign p f s.objects) (v.placed i e);
  apart = v.apart;
  aimed = λ n e. rw (length-assign p f s.objects) (v.aimed n e);
}

history-IsShared : (h : History) (s : Shared) → IsShared s → IsShared (record s { history = h })
history-IsShared h s v = record {
  once = v.once;
  placed = v.placed;
  apart = v.apart;
  aimed = v.aimed;
}

pub commit_shared-IsShared :
    (host : Host) (m : Manager) (req : CreateVmRequest) (s : Shared) (x : Result Vm × Build)
    → IsShared s
    → IsShared (commit_shared host m req s x).1
unfolding commit_shared
commit_shared-IsShared host m req s (err e, b) v = history-IsShared _ s v
commit_shared-IsShared host m req s (ok vm, b) v =
    let fits = length-append s.objects (vm ∷ []) in
    record {
      once = insert-NodupKeys req.vm_id (length s.objects) s.vms v.once;
      placed = λ i {p} e.
          ground
            (arith, fits, lookup-insert i req.vm_id (length s.objects) s.vms, v.placed i {p = p});
      apart = λ i j {p} e f. ground (
        arith,
        lookup-insert i req.vm_id (length s.objects) s.vms,
        lookup-insert j req.vm_id (length s.objects) s.vms,
        v.placed i {p = p},
        v.placed j {p = p},
        v.apart i j {p = p},
      );
      aimed = λ n {t} e. PointsBelow-le _ _ t (omega (arith, fits)) (v.aimed n e);
    }

erase-IsShared : (i : Bytes) (s : Shared) → IsShared s → IsShared (record s { vms = erase i s.vms })
erase-IsShared i s v = record {
  once = erase-NodupKeys i s.vms v.once;
  placed = λ j {p} e. ground (arith, lookup-erase j i s.vms, v.placed j {p = p});
  apart = λ j k {p} e f.
      ground (arith, lookup-erase j i s.vms, lookup-erase k i s.vms, v.apart j k {p = p});
  aimed = v.aimed;
}

-- A section keeps the pointers in order, and its goroutine points to an object.
abbrev Sectioned : Stopping × Shared → Type 0
Sectioned (t, s) = IsShared s × PointsBelow (length s.objects) t

stop_section-Sectioned :
    (host : Host) (t : Stopping) (s : Shared)
    → IsShared s
    → PointsBelow (length s.objects) t
    → Sectioned (stop_section host t s)
unfolding stop_section
stop_section-Sectioned host (asked i force) s v p = elim (Option-cases (lookup i s.vms)) [
  | inl absent ↦ rw (absent, stop_section) (v, tt)
  | inr (q, found) ↦ rw (found, stop_section) (v, v.placed i found)
]
stop_section-Sectioned host (halting q force) s v p = elim (Option-cases (deref q s.objects)) [
  | inl absent ↦ rw (absent, stop_section) (v, p)
  | inr (vm, found) ↦ rw (found, stop_section) (history-IsShared _ s v, p)
]
stop_section-Sectioned host (marking q) s v p = (assign-IsShared q mark_stopped s v, tt)
stop_section-Sectioned host (returned r) s v p = (v, tt)

pub advance_stop-IsShared :
    (host : Host) (n : ℕ) (s : Shared) → IsShared s → IsShared (advance_stop host n s)
unfolding advance_stop
advance_stop-IsShared host n s v = elim (Option-cases (get_at n s.stops)) [
  | inl absent ↦ rw (absent, advance_stop) v
  | inr (t, found) ↦
      let after = stop_section-Sectioned host t s v (v.aimed n found) in
      rw (found, advance_stop)
        (aimed_set (stop_section host t s).1 n (stop_section host t s).0 after.0 after.1)
]

create_shared-IsShared :
    (host : Host) (m : Manager) (req : CreateVmRequest) (s : Shared)
    → IsShared s
    → IsShared (create_shared host m req s).1
unfolding create_shared
create_shared-IsShared host m req s v = elim (Option-cases (lookup req.vm_id s.vms)) [
  | inl absent ↦ rw (absent, create_shared) (commit_shared-IsShared host m req s _ v)
  | inr (p, found) ↦ rw (found, create_shared) v
]

delete_shared-IsShared :
    (host : Host) (m : Manager) (i : Bytes) (s : Shared)
    → IsShared s
    → IsShared (delete_shared host m i s).1
unfolding delete_shared
delete_shared-IsShared host m i s v = elim (Option-cases (find_vm i s)) [
  | inl absent ↦ rw (absent, delete_shared) v
  | inr (vm, found) ↦ rw (found, delete_shared) (history-IsShared _ _ (erase-IsShared i s v))
]

pub take_turn-IsShared :
    (host : Host) (m : Manager) (t : Turn) (s : Shared)
    → IsShared s
    → IsShared (take_turn host m t s)
unfolding take_turn
take_turn-IsShared host m (created req) s v = create_shared-IsShared host m req s v
take_turn-IsShared host m (deleted i) s v = delete_shared-IsShared host m i s v
take_turn-IsShared host m (stop_asked i force) s v = aimed_append s (asked i force) v tt
take_turn-IsShared host m (stop_moves n) s v = advance_stop-IsShared host n s v
take_turn-IsShared host m (elsewhere e) s v = history-IsShared (e ∷ s.history) s v

pub take_turns-IsShared :
    (host : Host) (m : Manager) (ts : List Turn) (s : Shared)
    → IsShared s
    → IsShared (take_turns host m ts s)
unfolding take_turns
take_turns-IsShared host m [] s v = v
take_turns-IsShared host m (t ∷ ts) s v =
    take_turns-IsShared host m ts (take_turn host m t s) (take_turn-IsShared host m t s v)
