-- ===== src/Agent/Handlers/Counts.antt =====
-- What the gauge of running VMs and `GetHostInfo` count.
use firecracker_agent.Base.{
  ℕ, pred, Bytes, Bool, ◌≡◌, refl, ap, ◌∙◌, [], ◌∷◌, Option, none, some, ok, arith, length,
}
use firecracker_agent.Base.Dict.{Dict, lookup, insert, lookup-insert}
use firecracker_agent.Host.{Host, History}
use firecracker_agent.Firecracker.State.{Vm}
use firecracker_agent.Firecracker.Manager
use firecracker_agent.Firecracker.Manager.{list_from, mark_stopped}
use firecracker_agent.Agent.Events.{EventStream}
use firecracker_agent.Agent.Events.Subscribers.{IsSafe, Safe}
use firecracker_agent.Agent.Events.Safety.{broadcast-Safe}
use firecracker_agent.Agent.Server.{Server, response, Handler, broadcast_event, after_broadcast}
use firecracker_agent.Agent.Handlers.{
  stop_vm, delete_vm, require_id, report_stopped, report_deleted, Sensors, GetHostInfoResponse,
  get_host_info, list_vms,
}

length-list_from :
    (host : Host) (d : Dict Vm) (h : History) → length (list_from host d h).0 ≡ length d
unfolding list_from
length-list_from host [] h = refl
length-list_from host ((_, vm) ∷ d) h =
    ground (arith, length-list_from host d (Manager.copy_vm_info host vm h).1)

-- The number of running VMs that `GetHostInfo` reports is the number of VMs in the map, whatever
-- their states: a stopped VM counts.
pub get_host_info-length :
    {F : Type 0} (host : Host) (sensors : Sensors F) (s : Server) (r : GetHostInfoResponse F)
    → (get_host_info host sensors s).0 ≡ response r
    → r.running_vms ≡ length s.state.vms
unfolding get_host_info list_vms Manager.list_vms
get_host_info-length host sensors s r e =
    ground (arith, length-list_from host s.state.vms s.state.history)

-- The event is taken, and the rest of the handler goes on from a safe stream.
after_broadcast-Safe :
    {A : Type 0} (P : Server → Type 0) (rest : Handler A) (s : Server) (o : Option EventStream)
    → ((stream : EventStream) → IsSafe stream → P (rest (record s { event_stream = stream })).1)
    → Safe o
    → P (after_broadcast rest s o).1
unfolding after_broadcast
after_broadcast-Safe P rest s none p safe = absurd safe
after_broadcast-Safe P rest s (some stream) p safe = p stream safe

module _ (host : Host) (i : Bytes) where
  -- The gauge goes down by one, and the map stays.
  report_stopped-pred :
      (s : Server)
      → IsSafe s.event_stream
      → let t = (report_stopped host i (ok tt) s).1 in
        (t.metrics.vms_running ≡ pred s.metrics.vms_running)
        × IsSafe t.event_stream
        × (t.state.vms ≡ s.state.vms)
  unfolding report_stopped broadcast_event
  report_stopped-pred s v =
      after_broadcast-Safe
        (λ t.
          (t.metrics.vms_running ≡ pred s.metrics.vms_running)
          × IsSafe t.event_stream
          × (t.state.vms ≡ s.state.vms))
        _ _ _ (λ stream safe. (refl, safe, refl)) (broadcast-Safe _ s.event_stream v)

  report_deleted-pred :
      (s : Server)
      → IsSafe s.event_stream
      → (report_deleted host i (ok tt) s).1.metrics.vms_running ≡ pred s.metrics.vms_running
  unfolding report_deleted broadcast_event
  report_deleted-pred s v =
      after_broadcast-Safe (λ t. t.metrics.vms_running ≡ pred s.metrics.vms_running) _ _ _
        (λ stream safe. refl) (broadcast-Safe _ s.event_stream v)

module _ (host : Host) (c : ℕ) (i : Bytes) where
  -- `StopVM` of a VM in the map.
  stop_vm-pred :
      (force : Bool) (s : Server) (vm : Vm)
      → lookup (c ∷ i) s.state.vms ≡ some vm
      → IsSafe s.event_stream
      → let t = (stop_vm host (c ∷ i) force s).1 in
        (t.metrics.vms_running ≡ pred s.metrics.vms_running)
        × IsSafe t.event_stream
        × (t.state.vms ≡ insert (c ∷ i) (mark_stopped vm) s.state.vms)
  unfolding stop_vm require_id Manager.stop_vm
  stop_vm-pred force s vm found v =
      rw (found, stop_vm, require_id, Manager.stop_vm) (report_stopped-pred host (c ∷ i) _ v)

  delete_vm-pred :
      (s : Server) (vm : Vm)
      → lookup (c ∷ i) s.state.vms ≡ some vm
      → IsSafe s.event_stream
      → (delete_vm host (c ∷ i) s).1.metrics.vms_running ≡ pred s.metrics.vms_running
  unfolding delete_vm require_id Manager.delete_vm
  delete_vm-pred s vm found v =
      rw (found, delete_vm, require_id, Manager.delete_vm) (report_deleted-pred host (c ∷ i) _ v)

  -- On a safe stream, to stop and then delete one VM of the map lowers the gauge by two, although
  -- its creation raised it by one.
  pub stop_delete-pred :
      (force : Bool) (s : Server) (vm : Vm)
      → lookup (c ∷ i) s.state.vms ≡ some vm
      → IsSafe s.event_stream
      → (delete_vm host (c ∷ i) (stop_vm host (c ∷ i) force s).1).1.metrics.vms_running
        ≡ pred (pred s.metrics.vms_running)
  stop_delete-pred force s vm found v =
      let (gauge, safe, vms) = stop_vm-pred force s vm found v in
      delete_vm-pred (stop_vm host (c ∷ i) force s).1 (mark_stopped vm)
        (ap (lookup (c ∷ i)) vms
          ∙ ground (arith, lookup-insert (c ∷ i) (c ∷ i) (mark_stopped vm) s.state.vms))
        safe
      ∙ ap pred gauge
