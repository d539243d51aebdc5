-- ===== src/Agent/Watch/Session/Promise.antt =====
-- What one client of `WatchVMEvents` can rely on.
use firecracker_agent.Base.{ℕ, Bytes, ◌≡◌, List, [], ◌∷◌, ◌++◌, Option, none, some, length}
use firecracker_agent.Base.Places.{get_at, get_at-length}
use mathlib.Core.Path.{subst}
use mathlib.Core.List.Sublist
use mathlib.Core.List.{Sublist}
use firecracker_agent.Agent.Events.{VmEvent, subscribe}
use firecracker_agent.Agent.Events.Buffers.{buffer_of-length}
use firecracker_agent.Agent.Watch.{Send}
use firecracker_agent.Agent.Watch.Session.{looping, Watcher, Sessions, Move, starts, move, play}
use firecracker_agent.Agent.Watch.Session.Safety.{IsServed, Served}
use firecracker_agent.Agent.Watch.Session.Serving.{AllFresh, move-Served, play-Served}
use firecracker_agent.Agent.Watch.Session.Owed.{wanted, sent-owed}
use firecracker_agent.Agent.Watch.Session.Sending.{told, Follows, play-Follows}

-- The watcher at the place watches `vm_id`, and was sent, in order, a part of the wanted events.
abbrev pub Delivered : ℕ → Bytes → List VmEvent → Option Sessions → Type 0
Delivered n vm_id es none = ⊥
Delivered n vm_id es (some x) =
    (w : Watcher) × (get_at n x.watchers ≡ some w)
    × (w.vm_id ≡ vm_id)
    × Sublist w.sent (wanted vm_id es)

Follows-Delivered :
    (n : ℕ) (w : Watcher) (es : List VmEvent) (o : Option Sessions)
    → Served o
    → Follows n w [] es o
    → Delivered n w.vm_id es o
Follows-Delivered n w es none s f = s
Follows-Delivered n w es (some x) s (w', at, same, sub) =
    (w', at, same, Sublist.trans (sent-owed w' x.stream.channels) sub)

-- If the stream is safe, and each watcher that has not unsubscribed is subscribed under an id of its
-- own, then a client that starts to watch, and any moves that follow, in which every new watcher gets
-- an id that is not subscribed, make no panic; and the client is sent only events that were broadcast
-- after it subscribed and that it asked for, in the order of their broadcasts, none twice.
pub play-Delivered :
    (send : Send) (id vm_id : Bytes) (ms : List Move) (x : Sessions)
    → IsServed x
    → AllFresh send (starts id vm_id ∷ ms) x
    → Delivered (length x.watchers) vm_id (told ms) (play send (starts id vm_id ∷ ms) x)
unfolding play move subscribe
play-Delivered send id vm_id ms x v f =
    let new : Watcher = record {
      subscriber_id = id;
      vm_id = vm_id;
      channel = length x.stream.channels;
      sent = [];
      stage = looping;
    } in
    let begun : Sessions = record {
      stream = (subscribe id x.stream).1;
      watchers = x.watchers ++ (new ∷ []);
    } in
    let after = move-Served send (starts id vm_id) x v f.0 in
    Follows-Delivered (length x.watchers) new (told ms) _ (play-Served send ms begun after f.1) (
      subst (λ b. Follows (length x.watchers) new (wanted vm_id b) (told ms) (play send ms begun))
        (buffer_of-length x.stream.channels)
        (play-Follows send (length x.watchers) ms begun new after f.1
          (get_at-length x.watchers new)))
