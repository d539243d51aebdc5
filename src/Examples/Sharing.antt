-- ===== src/Examples/Sharing.antt =====
-- Goroutines in `StopVM` while other calls come between, on the working host.
use firecracker_agent.Base.{true, ◌≡◌, refl, List, [], ◌∷◌, some, text, arith, zero, suc, ℕ}
use firecracker_agent.Base.Places.{get_at}
use firecracker_agent.Base.Dict.{lookup}
use firecracker_agent.Firecracker.Interleaving.{
  Stopping, halting, marking, Shared, create_shared, Turn, stop_asked, stop_moves, deleted,
}
use firecracker_agent.Firecracker.Interleaving.Pointers.{IsShared}
use firecracker_agent.Firecracker.Interleaving.Refines.{Amounts, take_turn-Amounts}
use firecracker_agent.Firecracker.Interleaving.Unreached.{AllSpare}
use firecracker_agent.Firecracker.Interleaving.Recreated.{AsksNot, Stays, create_shared-Stays}
use firecracker_agent.Examples.Hosts.{working_host}
use firecracker_agent.Examples.Machines.{manager, request, vm, past}

-- The VM `web` is in the map, and two calls of `StopVM` have found it.
abbrev sharing : Shared
sharing = record {
  vms = (text "web", 0) ∷ [];
  objects = vm ∷ [];
  stops = marking 0 ∷ (halting 0 true ∷ []);
  history = past;
}

-- The same after a `DeleteVM` of `web`.
abbrev orphaned : Shared
orphaned = record sharing { vms = [] }

sharing-IsShared : IsShared sharing
unfolding lookup text get_at
sharing-IsShared = record {
  once = (refl, tt);
  placed = λ i e. ground arith;
  apart = λ i j e f. ground arith;
  aimed = elim [
    | zero ↦ λ e. ground arith
    | suc zero ↦ λ e. ground arith
    | suc (suc n) ↦ λ e. ground arith
  ];
}

orphaned-IsShared : IsShared orphaned
unfolding lookup text get_at
orphaned-IsShared = record {
  once = tt;
  placed = λ i e. ground arith;
  apart = λ i j e f. ground arith;
  aimed = sharing-IsShared.aimed;
}

take_turn-Amounts_example : Amounts working_host manager (stop_moves 0) sharing (text "web")
take_turn-Amounts_example =
    take_turn-Amounts working_host manager (stop_moves 0) sharing (text "web") sharing-IsShared

-- Both calls end after `web` was created anew, and `db` is stopped and deleted.
abbrev later : List Turn
later =
    stop_moves 0
    ∷ stop_asked (text "db") true
    ∷ stop_moves 1
    ∷ deleted (text "db")
    ∷ stop_moves 1
    ∷ []

later-AllSpare : AllSpare (text "web") later
unfolding text
later-AllSpare = (tt, ((λ e. ground arith), (tt, ((λ e. ground arith), (tt, tt)))))

-- Both calls have looked up their VM.
orphaned-AsksNot :
    (n : ℕ) (t : Stopping) → get_at n orphaned.stops ≡ some t → AsksNot (text "web") t
unfolding get_at
orphaned-AsksNot zero t e = ground arith
orphaned-AsksNot (suc zero) t e = ground arith
orphaned-AsksNot (suc (suc n)) t e = ground arith

create_shared-Stays_example :
    Stays working_host manager
      (text "web")
      later
      (create_shared working_host manager request orphaned)
create_shared-Stays_example =
    create_shared-Stays working_host manager request later orphaned orphaned-IsShared
      orphaned-AsksNot later-AllSpare
