-- ===== src/Examples/Watchers.antt =====
-- Watchers of an event stream, and what they are sent.
use firecracker_agent.Base.{refl, bytes_dec, ◌≡◌, List, [], ◌∷◌, none, some, text, arith}
use firecracker_agent.Base.Dict.{lookup, insert, erase}
use firecracker_agent.Base.Places.{get_at, set_at}
use firecracker_agent.Firecracker.State.{running}
use firecracker_agent.Agent.Events.{
  EventType, VmEvent, EventStream, closed_nil, new_event_stream, subscribe, unsubscribe, broadcast,
  receive, update, offer_all,
}
use firecracker_agent.Agent.Events.Subscribers.{Without, new_event_stream-IsSafe}
use firecracker_agent.Agent.Watch.{Send}
use firecracker_agent.Agent.Watch.Session.{
  Sessions, Move, starts, acts, tells, receives, gone, unsubscribes, move, play, watcher_acts,
  take_event,
}
use firecracker_agent.Agent.Watch.Session.Safety.{IsServed, Served}
use firecracker_agent.Agent.Watch.Session.Serving.{AllFresh, play-Served}
use firecracker_agent.Agent.Watch.Session.Sending.{told}
use firecracker_agent.Agent.Watch.Session.Promise.{Delivered, play-Delivered}
use firecracker_agent.Agent.Watch.Session.Collision.{subscribe_twice}

abbrev works : Send
works sent e = none

abbrev nobody : Sessions
nobody = record { stream = new_event_stream; watchers = [] }

nobody-IsServed : IsServed nobody
unfolding get_at
nobody-IsServed = record {
  safe = new_event_stream-IsSafe;
  held = λ n e. ground arith;
  apart = λ n m e f p q s. ground arith;
}

abbrev news : VmEvent
news = record {
  vm_id = text "web";
  state = running;
  message = [];
  timestamp = 0;
  type = EventType.started;
}

-- Two watchers, an event, and the first leaves.
abbrev story : List Move
story =
    starts (text "watch-1") (text "web")
    ∷ starts (text "watch-2") []
    ∷ tells news
    ∷ acts 0 receives
    ∷ acts 0 gone
    ∷ acts 0 unsubscribes
    ∷ acts 1 receives
    ∷ []

story-AllFresh : AllFresh works story nobody
unfolding new_event_stream lookup text bytes_dec move watcher_acts subscribe unsubscribe update
    broadcast offer_all receive take_event get_at set_at insert erase
story-AllFresh = (refl, (refl, (tt, (tt, (tt, (tt, (tt, tt)))))))

play-Served_example : Served (play works story nobody)
play-Served_example = play-Served works story nobody nobody-IsServed story-AllFresh

subscribe_twice_example :
    let (a, es1) = subscribe (text "watch-1") new_event_stream in
    let (b, es2) = subscribe (text "watch-1") es1 in
    Without a es2.subscribers
    × ((es3 : EventStream) × (unsubscribe (text "watch-1") es2 ≡ some es3)
        × ((receive b es3.channels).0 ≡ closed_nil))
subscribe_twice_example = subscribe_twice (text "watch-1") new_event_stream new_event_stream-IsSafe

one-AllFresh :
    AllFresh works (starts (text "watch-1") (text "web") ∷ tells news ∷ acts 0 receives ∷ []) nobody
unfolding new_event_stream lookup text bytes_dec move watcher_acts subscribe update broadcast
    offer_all receive take_event get_at set_at insert
one-AllFresh = (refl, (tt, (tt, tt)))

play-Delivered_example :
    Delivered 0
      (text "web")
      (told (tells news ∷ acts 0 receives ∷ []))
      (play works (starts (text "watch-1") (text "web") ∷ tells news ∷ acts 0 receives ∷ []) nobody)
play-Delivered_example =
    play-Delivered works (text "watch-1") (text "web") (tells news ∷ acts 0 receives ∷ []) nobody
      nobody-IsServed one-AllFresh
