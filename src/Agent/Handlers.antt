-- ===== src/Agent/Handlers.antt =====
-- The gRPC handlers of `internal/agent/handlers.go`, and the interceptor of `server.go`.
pub mod Requests
pub mod Safety
pub mod Serving
pub mod Counts
use firecracker_agent.Base.{
  ℕ, ◌-◌, ◌/◌, pos, Bytes, Bool, true, false, ◌||◌, List, [], ◌∷◌, ◌++◌, Option, none, some, Result,
  ok, err, text, is_empty, ltb_ℤ, length, if◌then◌else◌,
}
use firecracker_agent.Host.{Host, now}
use firecracker_agent.Firecracker.State.{
  VmState, running, stopped, deleting, error, VmInfo, CreateVmRequest, State,
}
use firecracker_agent.Firecracker.Create
use firecracker_agent.Firecracker.Manager
use firecracker_agent.Agent.Events.{EventType}
use firecracker_agent.Agent.Server.{
  Server, invalid_argument, not_found, Answer, response, status, panic, Handler, broadcast_event,
  broadcast_error, answer, count_created, count_stopped,
}

pub record CreateVmResponse : Type 0 where
  pub vm_id : Bytes
  pub state : VmState
  pub socket_path : Bytes
  pub created_at : ℕ
  pub error_message : Bytes

-- `StartVMResponse` and `StopVMResponse` have the same fields.
pub record StateResponse : Type 0 where
  pub vm_id : Bytes
  pub state : VmState
  pub error_message : Bytes

pub record DeleteVmResponse : Type 0 where
  pub vm_id : Bytes
  pub success : Bool
  pub error_message : Bytes

pub record ListVmsResponse : Type 0 where
  pub vms : List VmInfo
  pub total_count : ℕ

abbrev pub reject : {A : Type 0} → Bytes → Handler A
reject message s = (status invalid_argument message, s)

-- The server after a call of the VM manager.
abbrev pub moved : Server → State → Server
moved s state = record s { state = state }

-- "Validate request"
unfoldable pub validate : CreateVmRequest → Option Bytes
validate req =
    if is_empty req.vm_id
    then some (text "vm_id is required")
    else if ltb_ℤ req.vcpu_count (pos 1) || ltb_ℤ (pos 32) req.vcpu_count
    then some (text "vcpu_count must be between 1 and 32")
    else if ltb_ℤ req.memory_mb (pos 128)
    then some (text "memory_mb must be at least 128")
    else none

-- After the manager's `CreateVM`.
unfoldable pub report_created : Host → Bytes → Result VmInfo → Handler CreateVmResponse
report_created host vm_id (err e) = broadcast_error host vm_id e (
    answer (record {
      vm_id = vm_id;
      state = error;
      socket_path = [];
      created_at = 0;
      error_message = e;
    }))
report_created host vm_id (ok info) =
    broadcast_event host vm_id running EventType.created (text "VM created successfully") λ s.
      answer
        (record {
          vm_id = info.vm_id;
          state = info.state;
          socket_path = info.socket_path;
          created_at = info.created_at;
          error_message = [];
        })
        (count_created s)

unfoldable pub create_vm : Host → CreateVmRequest → Handler CreateVmResponse
create_vm host req s = elim (validate req) [
  | some message ↦ reject message s
  | none ↦
      let (r, state) = Create.create_vm host s.manager req s.state in
      report_created host req.vm_id r (moved s state)
]

-- The response to a failed `StartVM` or `StopVM`.
abbrev pub failed : Bytes → Bytes → StateResponse
failed vm_id e = record { vm_id = vm_id; state = error; error_message = e }

unfoldable pub report_started : Host → Bytes → Result (Unit {0}) → Handler StateResponse
report_started host vm_id (err e) = broadcast_error host vm_id e (answer (failed vm_id e))
report_started host vm_id (ok _) =
    broadcast_event host vm_id running EventType.started (text "VM started")
      (answer (record { vm_id = vm_id; state = running; error_message = [] }))

-- `if req.VmId == "" { return nil, status.Error(…) }`, and the rest of the handler.
unfoldable pub require_id : {A : Type 0} → Bytes → Handler A → Handler A
require_id [] rest s = reject (text "vm_id is required") s
require_id (c ∷ vm_id) rest s = rest s

unfoldable pub start_vm : Host → Bytes → Handler StateResponse
start_vm host vm_id = require_id vm_id λ s.
    let (r, state) = Manager.start_vm host vm_id s.state in
    report_started host vm_id r (moved s state)

unfoldable pub report_stopped : Host → Bytes → Result (Unit {0}) → Handler StateResponse
report_stopped host vm_id (err e) = broadcast_error host vm_id e (answer (failed vm_id e))
report_stopped host vm_id (ok _) =
    broadcast_event host vm_id stopped EventType.stopped (text "VM stopped")
      λ s. answer (record { vm_id = vm_id; state = stopped; error_message = [] }) (count_stopped s)

unfoldable pub stop_vm : Host → Bytes → Bool → Handler StateResponse
stop_vm host vm_id force = require_id vm_id λ s.
    let (r, state) = Manager.stop_vm host vm_id force s.state in
    report_stopped host vm_id r (moved s state)

unfoldable pub report_deleted : Host → Bytes → Result (Unit {0}) → Handler DeleteVmResponse
report_deleted host vm_id (err e) =
    answer (record { vm_id = vm_id; success = false; error_message = e })
report_deleted host vm_id (ok _) =
    broadcast_event host vm_id deleting EventType.deleted (text "VM deleted")
      λ s. answer (record { vm_id = vm_id; success = true; error_message = [] }) (count_stopped s)

unfoldable pub delete_vm : Host → Bytes → Handler DeleteVmResponse
delete_vm host vm_id = require_id vm_id λ s.
    let (r, state) = Manager.delete_vm host s.manager vm_id s.state in
    report_deleted host vm_id r (moved s state)

-- After the manager's `GetVM`.
unfoldable pub report_got : Result VmInfo → Handler VmInfo
report_got (err e) s = (status not_found (text "VM not found: " ++ e), s)
report_got (ok info) s = (response info, s)

unfoldable pub get_vm : Host → Bytes → Handler VmInfo
get_vm host vm_id =
    require_id vm_id
      λ s. let (r, state) = Manager.get_vm host vm_id s.state in report_got r (moved s state)

-- `page_size` and `page_token` of the request are not read. `int32(len(vms))` is exact below 2^31.
unfoldable pub list_vms : Host → Handler ListVmsResponse
list_vms host s =
    let (vms, state) = Manager.list_vms host s.state in
    (response (record { vms = vms; total_count = length vms }), moved s state)

-- What `os`, `runtime` and gopsutil say of the machine; `F` is the type of percentages.
pub record Sensors (F : Type 0) : Type 0 where
  pub hostname : Bytes
  pub num_cpu : ℕ
  pub cpu_percent : List F
  pub virtual_memory : Option (ℕ × ℕ)

pub record GetHostInfoResponse (F : Type 0) : Type 0 where
  pub hostname : Bytes
  pub total_cpus : ℕ
  pub total_memory_mb : ℕ
  pub available_memory_mb : ℕ
  pub running_vms : ℕ
  pub cpu_usage : F
  pub version : Bytes

-- `version.Version`
unfoldable pub version : Bytes
version = text "0.1.0"

abbrev megabytes : ℕ → ℕ
megabytes n = n / 1024 / 1024

-- A nil `vmem` is dereferenced before the VMs are listed, an empty `cpuPercent` indexed after. The
-- conversions to `int32` are exact below 2^31.
unfoldable pub get_host_info : {F : Type 0} → Host → Sensors F → Handler (GetHostInfoResponse F)
get_host_info host sensors s = elim sensors.virtual_memory [
  | none ↦ (panic, s)
  | some (total, available) ↦
      let (r, s') = list_vms host s in
      elim r [
        | status c e ↦ (status c e, s')
        | panic ↦ (panic, s')
        | response listed ↦ elim sensors.cpu_percent [
          | [] ↦ (panic, s')
          | percent ∷ _ ↦ (
            response (record {
              hostname = sensors.hostname;
              total_cpus = sensors.num_cpu;
              total_memory_mb = megabytes total;
              available_memory_mb = megabytes available;
              running_vms = listed.total_count;
              cpu_usage = percent;
              version = version;
            }),
            s',
          )
        ]
      ]
]

pub record HealthCheckResponse : Type 0 where
  pub healthy : Bool
  pub version : Bytes
  pub uptime_seconds : ℕ

-- The clock is monotonic, so `time.Since` is not negative.
unfoldable pub health_check : Host → Handler HealthCheckResponse
health_check host s =
    let t = host.clock s.state.history in
    (
      response (record {
        healthy = true;
        version = version;
        uptime_seconds = Create.unix (t - s.start_time);
      }),
      moved s (record (s.state) { history = (now host s.state.history).1 }),
    )

abbrev pub label : {A : Type 0} → Answer A → Option Bytes
label (response _) = some (text "ok")
label (status _ _) = some (text "error")
label panic = none

abbrev pub count_request : Bytes → Bytes → Server → Server
count_request method l s = record s {
  metrics = record (s.metrics) { grpc_requests = (method, l) ∷ s.metrics.grpc_requests };
}

-- `LoggingInterceptor`: what it counts; a panic passes it by.
unfoldable pub logged : {A : Type 0} → Bytes → Handler A → Handler A
logged method handler s =
    let x = handler s in elim (label x.0) [ none ↦ x | some l ↦ (x.0, count_request method l x.1) ]
