-- ===== src/Examples/Program.antt =====
-- The whole program on the working host, until a signal comes.
use firecracker_agent.Base.{
  ap, arith, true, ◌≡◌, refl, List, [], ◌∷◌, none, ok, text, contains_text, bytes_dec,
}
use firecracker_agent.Host.{argv}
use firecracker_agent.Network
use firecracker_agent.Storage
use firecracker_agent.Config.{Config, load, set_defaults}
use firecracker_agent.Firecracker.State.{managers_of, new_manager}
use firecracker_agent.Agent.Events.{new_event_stream}
use firecracker_agent.Agent.Server.{Server, new_server, no_metrics}
use firecracker_agent.Base.Dict.{lookup}
use firecracker_agent.Agent.Watch.Session.{receives}
use firecracker_agent.Agent.Service.{ClientRequest, FreshRequests}
use firecracker_agent.Agent.Handlers.Serving.{Spare-rest}
use firecracker_agent.Main.{interrupted, Libraries, run}
use firecracker_agent.Main.Running.{begun, Sound, run-Sound}
use firecracker_agent.Examples.Hosts.{working_host}
use firecracker_agent.Examples.Machines.{config, request}
use firecracker_agent.Examples.Agents.{sensors, works}

abbrev libraries : Libraries
libraries = record {
  read_file = λ path. ok [];
  unmarshal = λ content. ok config;
  listen = λ addr. none;
  ending = interrupted true;
}

abbrev complete : Config
complete = set_defaults config

abbrev first_server : Server
first_server = record {
  manager = managers_of complete;
  state = (new_manager working_host complete []).1;
  start_time = 0;
  event_stream = new_event_stream;
  metrics = no_metrics;
}

abbrev requests_after : List ClientRequest
requests_after =
    ClientRequest.create request
    ∷ ClientRequest.stop (text "web") true
    ∷ ClientRequest.watcher_does 0 receives
    ∷ ClientRequest.host_info
    ∷ []

abbrev requests : List ClientRequest
requests = ClientRequest.watch (text "watch-1") (text "web") ∷ requests_after

loads : load libraries.read_file libraries.unmarshal (text "agent.yaml") ≡ ok complete
unfolding load
loads = refl

makes : new_server working_host complete 0 [] ≡ ok first_server
unfolding new_server new_manager Network.ensure_bridge_exists Network.assign_ip
    Network.check_assigned Storage.ensure_vms_dir text contains_text argv bytes_dec set_defaults
    managers_of Network.new_manager
makes = refl

only_server :
    (cfg : Config) (s : Server)
    → load libraries.read_file libraries.unmarshal (text "agent.yaml") ≡ ok cfg
    → new_server working_host cfg 0 [] ≡ ok s
    → s ≡ first_server
only_server cfg s q m = grind (arith, loads, makes)

requests-Fresh :
    (cfg : Config) (s : Server)
    → load libraries.read_file libraries.unmarshal (text "agent.yaml") ≡ ok cfg
    → new_server working_host cfg 0 [] ≡ ok s
    → FreshRequests working_host sensors works requests (begun s)
unfolding new_event_stream lookup
requests-Fresh cfg s q m = (
  ap (λ t. lookup (text "watch-1") t.event_stream.subscribers) (only_server cfg s q m),
  Spare-rest working_host sensors works requests_after _ tt,
)

run-Sound_example :
    Sound libraries.ending
      (run working_host sensors libraries works (text "agent.yaml") 0 [] requests)
run-Sound_example =
    run-Sound working_host sensors libraries works 8_589_934_592 1_073_741_824 12 [] refl refl
      (text "agent.yaml") 0 [] requests requests-Fresh
