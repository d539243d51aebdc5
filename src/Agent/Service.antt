-- ===== src/Agent/Service.antt =====
-- The requests of all clients to `internal/agent`, and the watchers that they leave at the event stream.
use firecracker_agent.Base.{
  ℕ, Bytes, Bool, true, false, ◌||◌, ◌≡◌, List, [], ◌∷◌, Option, none, some, text, if◌then◌else◌,
}
use firecracker_agent.Base.Dict.{lookup}
use firecracker_agent.Host.{Host}
use firecracker_agent.Firecracker.State.{CreateVmRequest}
use firecracker_agent.Agent.Server.{Server, Answer, response, status, panic}
use firecracker_agent.Agent.Watch.{Send}
use firecracker_agent.Agent.Watch.Session.{
  Stage, looping, got_nil, leaving, left, Watcher, Sessions, Doing, starts, acts, move,
}
use firecracker_agent.Agent.Handlers.{
  Sensors, create_vm, start_vm, stop_vm, delete_vm, get_vm, list_vms, get_host_info, health_check,
  logged,
}

-- A request. `watch` is the start of a `WatchVMEvents` with the id that it made of the time, and
-- `watcher_does` is what the watcher at a place does next.
pub data ClientRequest : Type 0 where
  create : CreateVmRequest → ClientRequest
  start delete get : Bytes → ClientRequest
  stop : Bytes → Bool → ClientRequest
  list host_info health : ClientRequest
  watch : Bytes → Bytes → ClientRequest
  watcher_does : ℕ → Doing → ClientRequest

-- The server, and the calls of `WatchVMEvents` that were made of it.
pub record Service : Type 0 where
  pub server : Server
  pub watchers : List Watcher

abbrev pub sessions : Service → Sessions
sessions x = record { stream = x.server.event_stream; watchers = x.watchers }

-- After a handler, unless it panicked.
abbrev pub settle : {A : Type 0} → List Watcher → Answer A × Server → Option Service
settle ws (panic, s) = none
settle ws (response a, s) = some (record { server = s; watchers = ws })
settle ws (status c e, s) = some (record { server = s; watchers = ws })

abbrev pub is_got_nil : Stage → Bool
is_got_nil got_nil = true
is_got_nil looping = false
is_got_nil (leaving how) = false
is_got_nil (left how) = false

abbrev pub any_got_nil : List Watcher → Bool
any_got_nil [] = false
any_got_nil (w ∷ ws) = is_got_nil w.stage || any_got_nil ws

-- After a watcher has moved: a loop that got nil goes on to read `event.VmId`, which panics, or, if its
-- request names no VM, to hand nil to `Send`. Either is taken for a panic here.
unfoldable pub watched : Server → Option Sessions → Option Service
watched s none = none
watched s (some x) =
    if any_got_nil x.watchers
    then none
    else some (record { server = record s { event_stream = x.stream }; watchers = x.watchers })

module _ {F : Type 0} (host : Host) (sensors : Sensors F) (send : Send) where
  -- The names are the last parts of the full method names that the interceptor counts.
  unfoldable pub serve : ClientRequest → Service → Option Service
  serve (create req) x = settle x.watchers (logged (text "CreateVM") (create_vm host req) x.server)
  serve (start i) x = settle x.watchers (logged (text "StartVM") (start_vm host i) x.server)
  serve (stop i force) x =
      settle x.watchers (logged (text "StopVM") (stop_vm host i force) x.server)
  serve (delete i) x = settle x.watchers (logged (text "DeleteVM") (delete_vm host i) x.server)
  serve (get i) x = settle x.watchers (logged (text "GetVM") (get_vm host i) x.server)
  serve list x = settle x.watchers (logged (text "ListVMs") (list_vms host) x.server)
  serve host_info x =
      settle x.watchers (logged (text "GetHostInfo") (get_host_info host sensors) x.server)
  serve health x = settle x.watchers (logged (text "HealthCheck") (health_check host) x.server)
  serve (watch id vm_id) x = watched x.server (move send (starts id vm_id) (sessions x))
  serve (watcher_does n a) x = watched x.server (move send (acts n a) (sessions x))

  unfoldable pub serve_all : List ClientRequest → Service → Option Service
  serve_all [] x = some x
  serve_all (r ∷ rs) x = elim (serve r x) [ none ↦ none | some x' ↦ serve_all rs x' ]

  -- The id of a new watcher is that of no subscriber.
  abbrev pub FreshRequest : ClientRequest → Service → Type 0
  FreshRequest (watch id vm_id) x = lookup id x.server.event_stream.subscribers ≡ none
  FreshRequest _ x = Unit

  -- So it is of every `watch` when it is served.
  abbrev pub FreshRequests : List ClientRequest → Service → Type 0
  FreshRequests [] x = Unit
  FreshRequests (r ∷ rs) x =
      FreshRequest r x × elim (serve r x) [ none ↦ Unit | some x' ↦ FreshRequests rs x' ]
