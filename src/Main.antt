-- ===== src/Main.antt =====
-- `run` of `cmd/fc-agent/main.go`: what the program does from its start to its end. Logging is left out.
pub mod Running
use firecracker_agent.Base.{
  ℕ, ℤ, Bytes, Bool, true, false, List, [], ◌∷◌, ◌++◌, Option, none, some, Result, ok, err, text,
  show_int,
}
use firecracker_agent.Host.{Host, History}
use firecracker_agent.Config.{Config, load}
use firecracker_agent.Agent.Server.{Server, new_server}
use firecracker_agent.Agent.Handlers.{Sensors}
use firecracker_agent.Agent.Watch.{Send}
use firecracker_agent.Agent.Service.{ClientRequest, Service, serve_all}

-- How serving ends: `Serve` returned an error, or a signal came and `GracefulStop` ended within 30 s,
-- or did not.
pub data Ending : Type 0 where
  serve_failed : Bytes → Ending
  interrupted : Bool → Ending

-- The libraries that `run` calls: the file system, the YAML parser, `net.Listen` and gRPC.
pub record Libraries : Type 0 where
  pub read_file : Bytes → Result Bytes
  pub unmarshal : Bytes → Result Config
  pub listen : Bytes → Option Bytes
  pub ending : Ending

-- What `run` starts and stops, in order.
pub data Stage : Type 0 where
  metrics_on : ℤ → Stage
  listening_on : Bytes → Stage
  stopped_gracefully stopped_by_force : Stage

-- What `run` returns, with the server and its watchers as they were left; or a panic of a handler.
pub data Exit : Type 0 where
  failed : Bytes → Exit
  panicked : Exit
  finished : Service → Exit

-- `fmt.Sprintf("%s:%d", cfg.Server.Host, cfg.Server.Port)`
unfoldable pub address : Config → Bytes
address cfg = cfg.server.host ++ (58 ∷ show_int cfg.server.port)

-- `if cfg.Monitoring.Enabled { … }`
unfoldable pub start_metrics : Config → List Stage
start_metrics cfg = elim cfg.monitoring.enabled [
  | true ↦ metrics_on cfg.monitoring.metrics_port ∷ []
  | false ↦ []
]

-- The last `select` of `run`, and what follows it.
unfoldable pub shut_down : Ending → Service → List Stage × Exit
shut_down (serve_failed e) s = ([], failed (text "server error: " ++ e))
shut_down (interrupted true) s = (stopped_gracefully ∷ [], finished s)
shut_down (interrupted false) s = (stopped_by_force ∷ [], finished s)

module _ {F : Type 0} (host : Host) (sensors : Sensors F) (libs : Libraries) (send : Send) where
  -- From `net.Listen` on, with the requests that clients make and what their watchers do.
  unfoldable pub serve_on : Config → Server → List ClientRequest → List Stage × Exit
  serve_on cfg s requests = elim (libs.listen (address cfg)) [
    | some e ↦ ([], failed (text "failed to listen on " ++ (address cfg ++ (text ": " ++ e))))
    | none ↦ elim (serve_all host sensors send requests (record { server = s; watchers = [] })) [
      | none ↦ (listening_on (address cfg) ∷ [], panicked)
      | some s' ↦
          let (stages, exit) = shut_down libs.ending s' in
          (listening_on (address cfg) ∷ stages, exit)
    ]
  ]

  unfoldable pub run : Bytes → ℕ → History → List ClientRequest → List Stage × Exit
  run path start h requests = elim (load libs.read_file libs.unmarshal path) [
    | err e ↦ ([], failed (text "failed to load config: " ++ e))
    | ok cfg ↦ elim (new_server host cfg start h) [
      | err e ↦ ([], failed (text "failed to create agent server: " ++ e))
      | ok s ↦ let (stages, exit) = serve_on cfg s requests in (start_metrics cfg ++ stages, exit)
    ]
  ]
