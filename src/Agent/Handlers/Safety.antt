-- ===== src/Agent/Handlers/Safety.antt =====
-- The handlers of `internal/agent/handlers.go`, one by one: panics, and the validity of the server.
use firecracker_agent.Base.{
  ℕ, Bytes, Bool, ◌≡◌, List, [], ◌∷◌, ◌∙◌, Option, none, some, Result, ok, err,
}
use firecracker_agent.Base.Dict.{Dict}
use firecracker_agent.Host.{Host}
use firecracker_agent.Firecracker.State.{VmState, VmInfo, CreateVmRequest, State}
use firecracker_agent.Firecracker.Create
use firecracker_agent.Firecracker.Registry.Invariant
use firecracker_agent.Firecracker.Registry.Invariant.{
  create_vm-IsValid, stop_vm-IsValid, delete_vm-IsValid, start_vm-IsValid, get_vm-IsValid,
  list_vms-IsValid, same-IsValid,
}
use firecracker_agent.Agent.Events.{EventType, EventStream}
use firecracker_agent.Agent.Events.Subscribers.{IsSafe}
use firecracker_agent.Agent.Events.Safety.{Told, broadcast-Told}
use firecracker_agent.Agent.Server.{
  Server, Answer, response, status, panic, Handler, broadcast_event, broadcast_error,
  after_broadcast, Metrics,
}
use firecracker_agent.Agent.Handlers.{
  Sensors, get_host_info, create_vm, start_vm, stop_vm, delete_vm, get_vm, list_vms, health_check,
  logged, validate, reject, moved, require_id, report_got, label, count_request, CreateVmResponse,
  report_created, report_started, report_stopped, report_deleted,
}

-- Between two requests: the map of VMs and the event stream meet their invariants, and `d` are the
-- subscribers.
pub record IsValid (d : Dict ℕ) (s : Server) : Type 0 where
  pub registry : Invariant.IsValid s.state
  pub stream : IsSafe s.event_stream
  pub subscribers : s.event_stream.subscribers ≡ d

module _ (d : Dict ℕ) where
  -- No panic, and a valid server with the same subscribers.
  abbrev pub Fine : {A : Type 0} → Answer A × Server → Type 0
  Fine (panic, s) = ⊥
  Fine (response a, s) = IsValid d s
  Fine (status c e, s) = IsValid d s

  after_broadcast-Fine :
      {A : Type 0} (rest : Handler A) (s : Server) (o : Option EventStream)
      → ((t : Server) → IsValid d t → Fine (rest t))
      → Invariant.IsValid s.state
      → s.event_stream.subscribers ≡ d
      → Told s.event_stream o
      → Fine (after_broadcast rest s o)
  unfolding after_broadcast
  after_broadcast-Fine rest s none fine v e told = told
  after_broadcast-Fine rest s (some stream) fine v e told =
      fine (record s { event_stream = stream })
        (record { registry = v; stream = told.0; subscribers = told.1 ∙ e })

  broadcast_event-Fine :
      {A : Type 0} (host : Host) (i : Bytes) (state : VmState) (type : EventType) (message : Bytes)
      (rest : Handler A) (s : Server)
      → ((t : Server) → IsValid d t → Fine (rest t))
      → IsValid d s
      → Fine (broadcast_event host i state type message rest s)
  unfolding broadcast_event
  broadcast_event-Fine host i state type message rest s fine v =
      after_broadcast-Fine rest _ _ fine (same-IsValid s.state _ v.registry) v.subscribers
        (broadcast-Told _ s.event_stream v.stream)

  keeps : (s : Server) (m : Metrics) → IsValid d s → IsValid d (record s { metrics = m })
  keeps s m v = record { registry = v.registry; stream = v.stream; subscribers = v.subscribers }

  module _ (host : Host) where
    report_created-Fine :
        (i : Bytes) (r : Result VmInfo) (s : Server)
        → IsValid d s
        → Fine (report_created host i r s)
    unfolding report_created broadcast_error
    report_created-Fine i (ok info) s v =
        broadcast_event-Fine host i _ _ _ _ s (λ t w. keeps t _ w) v
    report_created-Fine i (err e) s v = broadcast_event-Fine host i _ _ _ _ s (λ t w. w) v

    report_started-Fine :
        (i : Bytes) (r : Result (Unit {0})) (s : Server)
        → IsValid d s
        → Fine (report_started host i r s)
    unfolding report_started broadcast_error
    report_started-Fine i (ok info) s v = broadcast_event-Fine host i _ _ _ _ s (λ t w. w) v
    report_started-Fine i (err e) s v = broadcast_event-Fine host i _ _ _ _ s (λ t w. w) v

    report_stopped-Fine :
        (i : Bytes) (r : Result (Unit {0})) (s : Server)
        → IsValid d s
        → Fine (report_stopped host i r s)
    unfolding report_stopped broadcast_error
    report_stopped-Fine i (ok info) s v =
        broadcast_event-Fine host i _ _ _ _ s (λ t w. keeps t _ w) v
    report_stopped-Fine i (err e) s v = broadcast_event-Fine host i _ _ _ _ s (λ t w. w) v

    report_deleted-Fine :
        (i : Bytes) (r : Result (Unit {0})) (s : Server)
        → IsValid d s
        → Fine (report_deleted host i r s)
    unfolding report_deleted
    report_deleted-Fine i (ok info) s v =
        broadcast_event-Fine host i _ _ _ _ s (λ t w. keeps t _ w) v
    report_deleted-Fine i (err e) s v = v

    -- The VM manager has moved.
    moved-IsValid :
        (s : Server) (state : State)
        → Invariant.IsValid state
        → IsValid d s
        → IsValid d (moved s state)
    moved-IsValid s state w v = record {
      registry = w;
      stream = v.stream;
      subscribers = v.subscribers;
    }

    pub create_vm-Fine :
        (req : CreateVmRequest) (s : Server) → IsValid d s → Fine (create_vm host req s)
    unfolding create_vm
    create_vm-Fine req s v = go (validate req)
      where
        go :
            (o : Option Bytes)
            → Fine {A = CreateVmResponse} (elim o [
              | some message ↦ reject message s
              | none ↦
                  let (r, state) = Create.create_vm host s.manager req s.state in
                  report_created host req.vm_id r (moved s state)
            ])
        go (some message) = v
        go none =
            report_created-Fine req.vm_id _ _
              (moved-IsValid s _ (create_vm-IsValid host s.manager req s.state v.registry) v)

    require_id-Fine :
        {A : Type 0} (i : Bytes) (rest : Handler A) (s : Server)
        → Fine (rest s)
        → IsValid d s
        → Fine (require_id i rest s)
    unfolding require_id
    require_id-Fine [] rest s fine v = v
    require_id-Fine (c ∷ i) rest s fine v = fine

    report_got-Fine : (r : Result VmInfo) (s : Server) → IsValid d s → Fine (report_got r s)
    unfolding report_got
    report_got-Fine (ok info) s v = v
    report_got-Fine (err e) s v = v

    pub logged-Fine :
        {A : Type 0} (method : Bytes) (handler : Handler A) (s : Server)
        → Fine (handler s)
        → Fine (logged method handler s)
    unfolding logged
    logged-Fine {A} method handler s fine = go (handler s) fine
      where
        go :
            (x : Answer A × Server)
            → Fine x
            → Fine {A = A}
                (elim (label x.0) [ none ↦ x | some l ↦ (x.0, count_request method l x.1) ])
        go (response a, t) w = keeps t _ w
        go (status c e, t) w = keeps t _ w
        go (panic, t) w = w

    pub start_vm-Fine : (i : Bytes) (s : Server) → IsValid d s → Fine (start_vm host i s)
    unfolding start_vm
    start_vm-Fine i s v =
        require_id-Fine i _ s
          (report_started-Fine i _ _
            (moved-IsValid s _ (start_vm-IsValid host s.manager i s.state v.registry) v))
          v

    pub stop_vm-Fine :
        (i : Bytes) (force : Bool) (s : Server) → IsValid d s → Fine (stop_vm host i force s)
    unfolding stop_vm
    stop_vm-Fine i force s v =
        require_id-Fine i _ s
          (report_stopped-Fine i _ _
            (moved-IsValid s _ (stop_vm-IsValid host s.manager i force s.state v.registry) v))
          v

    pub delete_vm-Fine : (i : Bytes) (s : Server) → IsValid d s → Fine (delete_vm host i s)
    unfolding delete_vm
    delete_vm-Fine i s v =
        require_id-Fine i _ s
          (report_deleted-Fine i _ _
            (moved-IsValid s _ (delete_vm-IsValid host s.manager i s.state v.registry) v))
          v

    pub get_vm-Fine : (i : Bytes) (s : Server) → IsValid d s → Fine (get_vm host i s)
    unfolding get_vm
    get_vm-Fine i s v =
        require_id-Fine i _ s
          (report_got-Fine _ _
            (moved-IsValid s _ (get_vm-IsValid host s.manager i s.state v.registry) v))
          v

    pub list_vms-Fine : (s : Server) → IsValid d s → Fine (list_vms host s)
    unfolding list_vms
    list_vms-Fine s v = moved-IsValid s _ (list_vms-IsValid host s.manager s.state v.registry) v

    pub health_check-Fine : (s : Server) → IsValid d s → Fine (health_check host s)
    unfolding health_check
    health_check-Fine s v = moved-IsValid s _ (same-IsValid s.state _ v.registry) v

    pub get_host_info-Fine :
        {F : Type 0} (sensors : Sensors F) {total available : ℕ} {percent : F} {percents : List F}
        → sensors.virtual_memory ≡ some (total, available)
        → sensors.cpu_percent ≡ percent ∷ percents
        → (s : Server) → IsValid d s
        → Fine (get_host_info host sensors s)
    unfolding get_host_info list_vms
    get_host_info-Fine sensors memory cpu s v = rw (memory, cpu) (list_vms-Fine s v)
