-- ===== src/Agent/Watch/Session.antt =====
-- `WatchVMEvents` of `internal/agent/handlers.go` as a whole, many calls of it over one event stream:
-- the subscription, the loop, and the deferred `Unsubscribe`.
pub mod Parting
pub mod Safety
pub mod Serving
pub mod Collision
pub mod Owed
pub mod Others
pub mod Sending
pub mod Promise
use firecracker_agent.Base.{
  ℕ, Bytes, Bool, true, false, List, [], ◌∷◌, ◌++◌, Option, none, some, ◌≡◌,
}
use firecracker_agent.Base.Places.{get_at, set_at}
use firecracker_agent.Base.Dict.{lookup}
use firecracker_agent.Agent.Events.{
  VmEvent, Received, event, closed_nil, blocked, EventStream, subscribe, unsubscribe, broadcast,
  receive,
}
use firecracker_agent.Agent.Watch.{Watching, finished, broken, Send, skips}

-- In the loop; returned from it, with `Unsubscribe` still deferred; returned from the handler. In
-- `got_nil` the loop has taken nil from a closed channel, whose fields it goes on to read.
pub data Stage : Type 0 where
  looping got_nil : Stage
  leaving left : Watching → Stage

pub record Watcher : Type 0 where
  pub subscriber_id : Bytes
  pub vm_id : Bytes
  pub channel : ℕ
  pub sent : List VmEvent
  pub stage : Stage

pub record Sessions : Type 0 where
  pub stream : EventStream
  pub watchers : List Watcher

-- The case of the `select` that has received from the channel.
unfoldable pub take_event : Send → Watcher → Received → Watcher
take_event send w blocked = w
take_event send w closed_nil = record w { stage = got_nil }
take_event send w (event e) = elim (skips w.vm_id e) [
  | true ↦ w
  | false ↦ elim (send w.sent e) [
    | some error ↦ record w { stage = leaving (broken error) }
    | none ↦ record w { sent = w.sent ++ (e ∷ []) }
  ]
]

-- What a watcher may do next: receive, see that its client is gone, or run the deferred call.
pub data Doing : Type 0 where
  receives gone unsubscribes : Doing

unfoldable pub watcher_acts :
    Send → Doing → Watcher → Stage → EventStream → Option (Watcher × EventStream)
watcher_acts send receives w looping es =
    let (r, channels) = receive w.channel es.channels in
    some (take_event send w r, record es { channels = channels })
watcher_acts send gone w looping es = some (record w { stage = leaving finished }, es)
watcher_acts send unsubscribes w (leaving how) es = elim (unsubscribe w.subscriber_id es) [
  | none ↦ none
  | some es' ↦ some (record w { stage = left how }, es')
]
watcher_acts send _ w _ es = some (w, es)

-- A new call of the handler, with the id that it has made of the time; an action of the watcher at a
-- place; a broadcast of another handler.
pub data Move : Type 0 where
  starts : Bytes → Bytes → Move
  acts : ℕ → Doing → Move
  tells : VmEvent → Move

unfoldable pub move : Send → Move → Sessions → Option Sessions
move send (starts id vm_id) x =
    let (ch, es) = subscribe id x.stream in
    some (record {
      stream = es;
      watchers =
          x.watchers
          ++ (record { subscriber_id = id; vm_id = vm_id; channel = ch; sent = []; stage = looping }
              ∷ []);
    })
move send (acts n a) x = elim (get_at n x.watchers) [
  | none ↦ some x
  | some w ↦ elim (watcher_acts send a w w.stage x.stream) [
    | none ↦ none
    | some (w', es) ↦ some (record { stream = es; watchers = set_at n w' x.watchers })
  ]
]
move send (tells e) x = elim (broadcast e x.stream) [
  | none ↦ none
  | some es ↦ some (record x { stream = es })
]

-- `none` is a panic.
unfoldable pub play : Send → List Move → Sessions → Option Sessions
play send [] x = some x
play send (a ∷ rest) x = elim (move send a x) [ none ↦ none | some x' ↦ play send rest x' ]
