-- ===== src/Firecracker/Interleaving/Refines.antt =====
-- The turns of the shared VM manager against the abstract registry.
use firecracker_agent.Base.{
  ℕ, ◌<◌, Bytes, ◌≡◌, inl, inr, refl, [], ◌∷◌, ◌++◌, none, some, Result, ok, err, arith, length,
  Option-cases, ◌==◌, if◌then◌else◌,
}
use firecracker_agent.Base.Places.{get_at}
use firecracker_agent.Base.Dict.{lookup, insert, erase, lookup-insert, lookup-erase}
use firecracker_agent.Host.{Host, History}
use firecracker_agent.Network.Taps.{is_ok}
use firecracker_agent.Firecracker.State.{Vm, CreateVmRequest, Manager}
use firecracker_agent.Firecracker.Create.{Build, build_vm}
use firecracker_agent.Firecracker.Manager.{mark_stopped, release}
use firecracker_agent.Firecracker.Registry.{create, moves, target, Admits}
use firecracker_agent.Firecracker.Registry.Moves.{Built, build_vm-Built}
use firecracker_agent.Firecracker.Interleaving.{
  Stopping, asked, halting, marking, returned, Shared, assign, stop_section, advance_stop,
  commit_shared, create_shared, find_vm, delete_shared, Turn, created, deleted, stop_asked,
  stop_moves, elsewhere, take_turn, shared_phase, owner, stop_effect, effect,
}
use firecracker_agent.Firecracker.Interleaving.Pointers.{
  PointsBelow, IsShared, deref-assign, deref-append, deref-length, deref-lt, owner-lookup,
  owner-none,
}

-- What is found at an id when a new VM is put into the map.
pub find_vm-created :
    (j i : Bytes) (vm : Vm) (h : History) (s : Shared)
    → IsShared s
    → find_vm j (record s {
      vms = insert i (length s.objects) s.vms;
      objects = s.objects ++ (vm ∷ []);
      history = h;
    })
      ≡ (if j == i then some vm else find_vm j s)
unfolding find_vm
find_vm-created j i vm h s v = elim (Option-cases (lookup j s.vms)) [
  | inl absent ↦
      ground (arith, lookup-insert j i (length s.objects) s.vms, deref-length s.objects vm)
  | inr (q, found) ↦ ground (
    arith,
    lookup-insert j i (length s.objects) s.vms,
    deref-length s.objects vm,
    deref-append q s.objects (vm ∷ []) (v.placed j found),
  )
]

pub find_vm-erased :
    (j i : Bytes) (h : History) (s : Shared)
    → find_vm j (record s { vms = erase i s.vms; history = h })
      ≡ (if j == i then none else find_vm j s)
unfolding find_vm
find_vm-erased j i h s = ground (arith, lookup-erase j i s.vms)

-- What is found after a write through a pointer: the VM of its owner has changed, if it has one.
pub find_vm-assign :
    (j : Bytes) (p : ℕ) (f : Vm → Vm) (s : Shared)
    → IsShared s
    → find_vm j (record s { objects = assign p f s.objects }) ≡ elim (owner p s.vms) [
      | none ↦ find_vm j s
      | some i ↦
          if j == i then elim (find_vm i s) [ none ↦ none | some vm ↦ some (f vm) ] else find_vm j s
    ]
unfolding find_vm
find_vm-assign j p f s v = elim (Option-cases (owner p s.vms)) [
  | inl free ↦ elim (Option-cases (lookup j s.vms)) [
    | inl absent ↦ ground arith
    | inr (q, found) ↦
        ground (arith, deref-assign p q f s.objects, owner-none p q j s.vms free found)
  ]
  | inr (i, owned) ↦
      let there = owner-lookup p i s.vms v.once owned in
      elim (Option-cases (lookup j s.vms)) [
        | inl absent ↦ ground arith
        | inr (q, found) ↦ ground (arith, deref-assign p q f s.objects, v.apart i j {p = p} there)
      ]
]

module _ (host : Host) (m : Manager) where
  -- A turn amounts to its effect: on the phase of every id, and by what the registry admits.
  abbrev pub Amounts : Turn → Shared → Bytes → Type 0
  Amounts t s j =
      let (c, done) = effect host m t s in
      (shared_phase (take_turn host m t s) j ≡ moves c done j (shared_phase s j))
      × Admits c done (shared_phase s (target c))

  commit_shared-moves :
      (req : CreateVmRequest) (s : Shared) (j : Bytes) (x : Result Vm × Build)
      → IsShared s
      → Built req x
      → let (r, s') = commit_shared host m req s x in
        shared_phase s' j ≡ moves (create req) (is_ok r) j (shared_phase s j)
  unfolding commit_shared shared_phase moves
  commit_shared-moves req s j (err e, b) v p = unfold find_vm in refl
  commit_shared-moves req s j (ok vm, b) v p =
      ground (arith, find_vm-created j req.vm_id vm b.history s v)

  created-Amounts :
      (req : CreateVmRequest) (s : Shared) (j : Bytes) → IsShared s → Amounts (created req) s j
  unfolding effect take_turn create_shared target shared_phase moves find_vm
  created-Amounts req s j v =
      let start : Build = record { cleanups = []; history = s.history } in
      ground (
        arith,
        commit_shared-moves req s j (build_vm host m req start) v (build_vm-Built host m req start),
      )

  deleted-Amounts : (i : Bytes) (s : Shared) (j : Bytes) → Amounts (deleted i) s j
  unfolding effect take_turn delete_shared target shared_phase moves
  deleted-Amounts i s j = elim (Option-cases (find_vm i s)) [
    | inl absent ↦ ground arith
    | inr (vm, found) ↦ ground (arith, find_vm-erased j i (release host m i vm s.history).1 s)
  ]

  -- The phases after one section of `StopVM`.
  abbrev Moved : Stopping → Shared → Bytes → Type 0
  Moved t s j =
      let (c, done) = stop_effect (some t) s.vms in
      (shared_phase (stop_section host t s).1 j ≡ moves c done j (shared_phase s j))
      × Admits c done (shared_phase s (target c))

  marking-Moved :
      (p : ℕ) (s : Shared) (j : Bytes) → IsShared s → p < length s.objects → Moved (marking p) s j
  unfolding stop_section stop_effect shared_phase moves target
  marking-Moved p s j v l = elim (Option-cases (owner p s.vms)) [
    | inl free ↦ ground (arith, find_vm-assign j p mark_stopped s v)
    | inr (i, owned) ↦
        let there = owner-lookup p i s.vms v.once owned in
        unfold find_vm in
        ground (arith, find_vm-assign j p mark_stopped s v, deref-lt p s.objects l)
  ]

  stop_section-Moved :
      (t : Stopping) (s : Shared) (j : Bytes)
      → IsShared s
      → PointsBelow (length s.objects) t
      → Moved t s j
  unfolding stop_section stop_effect moves target
  stop_section-Moved (asked i force) s j v l = ground arith
  stop_section-Moved (halting p force) s j v l = unfold shared_phase find_vm in ground arith
  stop_section-Moved (marking p) s j v l = marking-Moved p s j v l
  stop_section-Moved (returned r) s j v l = ground arith

  stop_moves-Amounts : (n : ℕ) (s : Shared) (j : Bytes) → IsShared s → Amounts (stop_moves n) s j
  unfolding effect take_turn advance_stop
  stop_moves-Amounts n s j v = elim (Option-cases (get_at n s.stops)) [
    | inl absent ↦ unfold stop_effect moves target in ground arith
    | inr (t, found) ↦
        rw (found, take_turn, advance_stop)
          (unfold shared_phase find_vm in stop_section-Moved t s j v (v.aimed n found))
  ]

  -- If no two ids of the map share an object and no pointer dangles, then every turn, the sections of
  -- `StopVM` in any order with other calls included, acts on the phase of every id `j` as one call of
  -- the abstract registry does, or as none; a `StopVM` acts at its second lock, as a stop of the id
  -- under which its VM still stands in the map, and not at all if the VM is gone.
  pub take_turn-Amounts : (t : Turn) (s : Shared) (j : Bytes) → IsShared s → Amounts t s j
  take_turn-Amounts (created req) s j v = created-Amounts req s j v
  take_turn-Amounts (deleted i) s j v = deleted-Amounts i s j
  take_turn-Amounts (stop_asked i force) s j v =
      unfold effect take_turn shared_phase find_vm moves target in ground arith
  take_turn-Amounts (stop_moves n) s j v = stop_moves-Amounts n s j v
  take_turn-Amounts (elsewhere e) s j v =
      unfold effect take_turn shared_phase find_vm moves target in ground arith
