-- ===== src/Examples/Agents.antt =====
-- The gRPC server on the working host.
use firecracker_agent.Base.{
  arith, List, ℕ, pos, pred, true, false, ◌≡◌, ◌↔◌, refl, [], ◌∷◌, none, some, ok, text, length,
  bytes_dec,
}
use firecracker_agent.Base.Dict.{lookup}
use firecracker_agent.Host.{boot_source, requested}
use firecracker_agent.Firecracker.Client
use firecracker_agent.Firecracker.Client.{Client, put, put_request}
use firecracker_agent.Firecracker.Client.Accepts.{IsSuccess, put-ok_iff}
use firecracker_agent.Firecracker.State.{stopped}
use firecracker_agent.Firecracker.Process.{is_running}
use firecracker_agent.Firecracker.Manager
use firecracker_agent.Firecracker.Manager.{list_from, copy_vm_info, resolve_vm_state}
use firecracker_agent.Firecracker.Create.{Resources, configure}
use firecracker_agent.Firecracker.Create.Boots.{Exchanged, boot_sequence, configure-Exchanged}
use firecracker_agent.Agent.Events.{VmEvent, EventType, new_event_stream}
use firecracker_agent.Agent.Events.Subscribers.{Safe, new_event_stream-IsSafe}
use firecracker_agent.Agent.Events.Safety.{join, leave, tell, take, stream_steps, stream_steps-Safe}
use firecracker_agent.Base.Places.{get_at}
use firecracker_agent.Agent.Watch.{Send}
use firecracker_agent.Agent.Watch.Session.{receives, gone, unsubscribes}
use firecracker_agent.Agent.Server.{Server, no_metrics, response}
use firecracker_agent.Agent.Handlers.{
  create_vm, stop_vm, delete_vm, Sensors, GetHostInfoResponse, get_host_info, list_vms, version,
}
use firecracker_agent.Agent.Handlers.Requests.{IsAcceptable, is_invalid, create_vm-is_invalid}
use firecracker_agent.Agent.Service.{ClientRequest, Service, serve_all, FreshRequests}
use firecracker_agent.Agent.Handlers.Serving.{Spare-rest, IsUp, Up, serve_all-Up}
use firecracker_agent.Agent.Handlers.Counts.{get_host_info-length, stop_delete-pred}
use firecracker_agent.Examples.Hosts.{working_host}
use firecracker_agent.Examples.Machines.{manager, request, process, vm, one_vm, one_vm-IsValid}

abbrev server : Server
server = record {
  manager = manager;
  state = one_vm;
  start_time = 0;
  event_stream = new_event_stream;
  metrics = record no_metrics { vms_created = 1; vms_running = pos 1 };
}

-- Percentages are whole numbers here.
abbrev pub sensors : Sensors ℕ
sensors = record {
  hostname = text "node";
  num_cpu = 8;
  cpu_percent = 12 ∷ [];
  virtual_memory = some (8_589_934_592, 1_073_741_824);
}

abbrev stopped_event : VmEvent
stopped_event = record {
  vm_id = text "web";
  state = stopped;
  message = text "VM stopped";
  timestamp = 3;
  type = EventType.stopped;
}

abbrev service : Service
service = record { server = server; watchers = [] }

service-IsUp : IsUp service
unfolding get_at
service-IsUp = record {
  registry = one_vm-IsValid;
  served = record {
    safe = new_event_stream-IsSafe;
    held = λ n e. ground arith;
    apart = λ n m e f p q t. ground arith;
  };
}

abbrev pub works : Send
works sent e = none

-- A client watches, a VM is stopped, the watcher gets that event, and leaves.
abbrev traffic_after : List ClientRequest
traffic_after =
    ClientRequest.stop (text "web") true
    ∷ ClientRequest.watcher_does 0 receives
    ∷ ClientRequest.watcher_does 0 gone
    ∷ ClientRequest.watcher_does 0 unsubscribes
    ∷ ClientRequest.create request
    ∷ ClientRequest.host_info
    ∷ []

abbrev traffic : List ClientRequest
traffic = ClientRequest.watch (text "watch-1") (text "web") ∷ traffic_after

traffic-Fresh : FreshRequests working_host sensors works traffic service
unfolding new_event_stream lookup
traffic-Fresh = (refl, Spare-rest working_host sensors works traffic_after _ tt)

serve_all-Up_example : Up (serve_all working_host sensors works traffic service)
serve_all-Up_example =
    serve_all-Up working_host sensors works 8_589_934_592 1_073_741_824 12 [] refl refl traffic
      service service-IsUp traffic-Fresh

stream_steps-Safe_example : Safe (
    stream_steps
      (join (text "a") ∷ (tell stopped_event ∷ (take 0 ∷ (leave (text "a") ∷ []))))
      new_event_stream)
stream_steps-Safe_example =
    stream_steps-Safe (join (text "a") ∷ (tell stopped_event ∷ (take 0 ∷ (leave (text "a") ∷ []))))
      new_event_stream new_event_stream-IsSafe

create_vm-is_invalid_example :
    (IsAcceptable request → is_invalid (create_vm working_host request server).0 ≡ false)
    × (¬ IsAcceptable request
        → (is_invalid (create_vm working_host request server).0 ≡ true)
          × ((create_vm working_host request server).1 ≡ server))
create_vm-is_invalid_example = create_vm-is_invalid working_host request server

abbrev host_info : GetHostInfoResponse ℕ
host_info = record {
  hostname = text "node";
  total_cpus = 8;
  total_memory_mb = 8192;
  available_memory_mb = 1024;
  running_vms = 1;
  cpu_usage = 12;
  version = text "0.1.0";
}

informed : (get_host_info working_host sensors server).0 ≡ response host_info
unfolding get_host_info list_vms Manager.list_vms list_from copy_vm_info resolve_vm_state is_running
    version
informed = refl

get_host_info-length_example : host_info.running_vms ≡ length one_vm.vms
get_host_info-length_example = get_host_info-length working_host sensors server host_info informed

stop_delete-pred_example :
    (delete_vm working_host
      (text "web")
      (stop_vm working_host (text "web") true server).1).1.metrics.vms_running
    ≡ pred (pred (pos 1))
unfolding text lookup bytes_dec
stop_delete-pred_example =
    stop_delete-pred working_host b'w' (b'e' ∷ (b'b' ∷ [])) true server vm refl
      new_event_stream-IsSafe

abbrev resources : Resources
resources = record {
  storage = record {
    vm_dir = text "/srv/vms/web";
    rootfs_path = text "/srv/vms/web/rootfs.ext4";
    kernel_path = text "/srv/vms/web/vmlinux.bin";
    socket_path = text "/srv/vms/web/firecracker.socket";
    log_path = text "/srv/vms/web/firecracker.log";
  };
  process = process;
  tap_device = text "tap-web";
  mac_addr = text "02:FC:12:62:00:00";
}

put-ok_iff_example :
    let c : Client = record { socket_path = text "/s" } in
    let b = boot_source (record { kernel_image_path = text "/k"; boot_args = text "pci=off" }) in
    let req = put_request (text "/boot-source") b in
    let answer = working_host.exchange [] (text "/s") req in
    ((put working_host c (text "/boot-source") b []).0 ≡ ok tt) ↔ (
      (working_host.marshal b ≡ none)
      × (working_host.check_request req ≡ none)
      × IsSuccess answer
      × ((put working_host c (text "/boot-source") b []).1 ≡ requested (text "/s") req answer ∷ []))
put-ok_iff_example =
    put-ok_iff working_host (record { socket_path = text "/s" }) (text "/boot-source")
      (boot_source (record { kernel_image_path = text "/k"; boot_args = text "pci=off" })) []

configured : (configure working_host manager request resources []).0 ≡ ok tt
unfolding configure Client.set_boot_source Client.set_machine_config Client.add_drive
    Client.add_network_interface Client.start_instance put Client.put_answer
configured = refl

configure-Exchanged_example :
    Exchanged
      (text "/srv/vms/web/firecracker.socket")
      (boot_sequence working_host manager request resources)
      []
      (configure working_host manager request resources []).1
configure-Exchanged_example =
    configure-Exchanged working_host manager request resources [] configured
