-- ===== src/Agent/Server.antt =====
-- The state of `agent.Server`, the metrics of `internal/monitor`, and events on the stream.
use firecracker_agent.Base.{
  Option, ℕ, suc, ℤ, pos, succ, pred, Bytes, List, [], none, some, Result, ok, err,
}
use firecracker_agent.Host.{Host, History, now}
use firecracker_agent.Config.{Config}
use firecracker_agent.Firecracker.State.{VmState, error, Manager, State, new_manager}
use firecracker_agent.Firecracker.Create.{unix}
use firecracker_agent.Agent.Events.{EventType, EventStream, new_event_stream, broadcast}

-- The counters and the gauge; a request is counted by its method and status.
pub record Metrics : Type 0 where
  pub vms_created : ℕ
  pub vms_running : ℤ
  pub grpc_requests : List (Bytes × Bytes)

pub record Server : Type 0 where
  pub manager : Manager
  pub state : State
  pub start_time : ℕ
  pub event_stream : EventStream
  pub metrics : Metrics

abbrev pub no_metrics : Metrics
no_metrics = record { vms_created = 0; vms_running = pos 0; grpc_requests = [] }

-- `NewServer`, in a process whose metrics are new.
unfoldable pub new_server : Host → Config → ℕ → History → Result Server
new_server host cfg start h =
    let (r, s) = new_manager host cfg h in
    elim r [
      | err e ↦ err e
      | ok m ↦ ok (record {
        manager = m;
        state = s;
        start_time = start;
        event_stream = new_event_stream;
        metrics = no_metrics;
      })
    ]

pub data Code : Type 0 where
  invalid_argument not_found : Code

-- What a handler gives: a response, a gRPC status error, or a panic.
pub data Answer (A : Type 0) : Type 0 where
  response : A → Answer A
  status : Code → Bytes → Answer A
  panic : Answer A

abbrev pub Handler : Type 0 → Type 0
Handler A = Server → Answer A × Server

-- The rest of a handler, after the stream took the event or panicked.
unfoldable pub after_broadcast :
    {A : Type 0} → Handler A → Server → Option EventStream → Answer A × Server
after_broadcast rest s none = (panic, s)
after_broadcast rest s (some stream) = rest (record s { event_stream = stream })

-- `broadcastEvent`, and then the rest of the handler.
unfoldable pub broadcast_event :
    {A : Type 0} → Host → Bytes → VmState → EventType → Bytes → Handler A → Handler A
broadcast_event host vm_id state type message rest s =
    let t = host.clock s.state.history in
    let read = record s { state = record (s.state) { history = (now host s.state.history).1 } } in
    after_broadcast rest read (
      broadcast
        (record {
          vm_id = vm_id;
          state = state;
          message = message;
          timestamp = unix t;
          type = type;
        })
        s.event_stream)

-- `broadcastError`, whose event carries the text of the error.
unfoldable pub broadcast_error : {A : Type 0} → Host → Bytes → Bytes → Handler A → Handler A
broadcast_error host vm_id e rest = broadcast_event host vm_id error EventType.error e rest

abbrev pub answer : {A : Type 0} → A → Handler A
answer a s = (response a, s)

-- `monitor.VMsCreated.Inc()`, `monitor.VMsRunning.Inc()` and `monitor.VMsRunning.Dec()`
abbrev pub count_created : Server → Server
count_created s = record s {
  metrics = record (s.metrics) {
    vms_created = suc s.metrics.vms_created;
    vms_running = succ s.metrics.vms_running;
  };
}

abbrev pub count_stopped : Server → Server
count_stopped s = record s {
  metrics = record (s.metrics) { vms_running = pred s.metrics.vms_running };
}
