-- ===== src/Firecracker/Interleaving/Pointers.antt =====
-- Reads and writes through the pointers of the shared VM manager, and their invariant.
use firecracker_agent.Base.{
  ℕ, zero, suc, ◌<◌, Bytes, false, ◌≡◌, ◌≢◌, refl, List, [], ◌∷◌, ◌++◌, none, some, arith, length,
  if◌then◌else◌,
}
use firecracker_agent.Base.Places.{get_at}
use firecracker_agent.Base.Dict.{Dict, lookup, NodupKeys}
use firecracker_agent.Host.Ledger.{same}
use firecracker_agent.Firecracker.State.{Vm}
use firecracker_agent.Firecracker.Interleaving.{
  Stopping, asked, halting, marking, returned, Shared, deref, assign, owner,
}

pub length-assign : (p : ℕ) (f : Vm → Vm) (vms : List Vm) → length (assign p f vms) ≡ length vms
unfolding assign
length-assign p f [] = refl
length-assign zero f (vm ∷ vms) = refl
length-assign (suc p) f (vm ∷ vms) = omega (arith, length-assign p f vms)

-- A write through `p` is seen through `q` exactly if they are the same pointer.
pub deref-assign :
    (p q : ℕ) (f : Vm → Vm) (vms : List Vm)
    → deref q (assign p f vms) ≡ (
        if same p q
        then elim (deref q vms) [ none ↦ none | some vm ↦ some (f vm) ]
        else deref q vms)
unfolding deref assign
deref-assign p q f [] = ground arith
deref-assign zero zero f (vm ∷ vms) = ground arith
deref-assign zero (suc q) f (vm ∷ vms) = ground arith
deref-assign (suc p) zero f (vm ∷ vms) = ground arith
deref-assign (suc p) (suc q) f (vm ∷ vms) = ground (arith, deref-assign p q f vms)

pub deref-append : (p : ℕ) (vms ws : List Vm) → p < length vms → deref p (vms ++ ws) ≡ deref p vms
unfolding deref
deref-append p [] ws l = absurd (omega arith)
deref-append zero (vm ∷ vms) ws l = refl
deref-append (suc p) (vm ∷ vms) ws l = deref-append p vms ws (omega arith)

pub deref-length : (vms : List Vm) (vm : Vm) → deref (length vms) (vms ++ (vm ∷ [])) ≡ some vm
unfolding deref
deref-length [] vm = refl
deref-length (_ ∷ vms) vm = deref-length vms vm

pub deref-lt : (p : ℕ) (vms : List Vm) → p < length vms → deref p vms ≢ none
unfolding deref
deref-lt p [] l e = absurd (omega arith)
deref-lt zero (vm ∷ vms) l e = ground arith
deref-lt (suc p) (vm ∷ vms) l e = deref-lt p vms (omega arith) e

pub owner-lookup :
    (p : ℕ) (i : Bytes) (d : Dict ℕ) → NodupKeys d → owner p d ≡ some i → lookup i d ≡ some p
unfolding owner lookup
owner-lookup p i [] u e = ground arith
owner-lookup p i ((j, q) ∷ d) u e = ground (arith, owner-lookup p i d u.1)

pub owner-none :
    (p q : ℕ) (i : Bytes) (d : Dict ℕ) → owner p d ≡ none → lookup i d ≡ some q → same p q ≡ false
unfolding owner lookup
owner-none p q i [] e f = ground arith
owner-none p q i ((j, w) ∷ d) e f = ground (arith, owner-none p q i d)

-- A goroutine in `StopVM` points to one of the first `n` objects, if to any.
abbrev pub PointsBelow : ℕ → Stopping → Type 0
PointsBelow n (asked i force) = Unit
PointsBelow n (halting p force) = p < n
PointsBelow n (marking p) = p < n
PointsBelow n (returned r) = Unit

-- Each id stands once in the map, no two ids share an object, and no pointer dangles.
pub record IsShared (s : Shared) : Type 0 where
  pub once : NodupKeys s.vms
  pub placed : (i : Bytes) {p : ℕ} → lookup i s.vms ≡ some p → p < length s.objects
  pub apart : (i j : Bytes) {p : ℕ} → lookup i s.vms ≡ some p → lookup j s.vms ≡ some p → i ≡ j
  pub aimed : (n : ℕ) {t : Stopping} → get_at n s.stops ≡ some t → PointsBelow (length s.objects) t
