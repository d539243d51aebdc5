-- ===== src/Main/Running.antt =====
-- How `run` of `cmd/fc-agent/main.go` ends.
use firecracker_agent.Base.{
  ℕ, Bytes, Bool, true, false, List, [], ◌∷◌, ◌++◌, Option, none, some, Result, ok, err, ◌≡◌, refl,
  text, Option-cases, inl, inr, arith,
}
use firecracker_agent.Host.{Host, History}
use firecracker_agent.Config.{Config, load}
use firecracker_agent.Firecracker.State.{Manager, new_manager}
use firecracker_agent.Agent.Server.{Server, new_server, no_metrics}
use firecracker_agent.Agent.Events.{new_event_stream}
use firecracker_agent.Firecracker.Registry.Start.{new_manager-IsValid}
use firecracker_agent.Agent.Events.Subscribers.{new_event_stream-IsSafe}
use firecracker_agent.Agent.Handlers.{Sensors}
use firecracker_agent.Base.Places.{get_at}
use firecracker_agent.Agent.Watch.{Send}
use firecracker_agent.Agent.Service.{ClientRequest, Service, serve_all, FreshRequests}
use firecracker_agent.Agent.Handlers.Serving.{serve_all-Up, IsUp, Up}
use firecracker_agent.Main.{
  Ending, serve_failed, interrupted, Libraries, Stage, listening_on, Exit, failed, panicked,
  finished, address, start_metrics, shut_down, serve_on, run,
}

-- The service as a server begins it.
abbrev pub begun : Server → Service
begun s = record { server = s; watchers = [] }

-- A new server is up.
abbrev ValidIfOk : Result Server → Type 0
ValidIfOk (ok s) = IsUp (begun s)
ValidIfOk (err e) = Unit

new_server-ValidIfOk :
    (host : Host) (cfg : Config) (start : ℕ) (h : History) → ValidIfOk (new_server host cfg start h)
unfolding new_server get_at
new_server-ValidIfOk host cfg start h = go (new_manager host cfg h).0
  where
    go :
        (r : Result Manager)
        → ValidIfOk (elim r [
          | err e ↦ err e
          | ok m ↦ ok (record {
            manager = m;
            state = (new_manager host cfg h).1;
            start_time = start;
            event_stream = new_event_stream;
            metrics = no_metrics;
          })
        ])
    go (err e) = tt
    go (ok m) = record {
      registry = new_manager-IsValid host cfg h;
      served = record {
        safe = new_event_stream-IsSafe;
        held = λ n e. ground arith;
        apart = λ n m e f p q t. ground arith;
      };
    }

-- No panic; and an end without an error comes of a signal, and leaves a service that is up.
abbrev pub Sound : Ending → List Stage × Exit → Type 0
Sound ending (stages, failed e) = Unit
Sound ending (stages, panicked) = ⊥
Sound ending (stages, finished x) = IsUp x × ((b : Bool) × (ending ≡ interrupted b))

shut_down-Sound : (ending : Ending) (s : Service) → IsUp s → Sound ending (shut_down ending s)
unfolding shut_down
shut_down-Sound (serve_failed e) s v = tt
shut_down-Sound (interrupted true) s v = (v, (true, refl))
shut_down-Sound (interrupted false) s v = (v, (false, refl))

Sound-append :
    (ending : Ending) (before : List Stage) (x : List Stage × Exit)
    → Sound ending x
    → Sound ending (before ++ x.0, x.1)
Sound-append ending before (stages, failed e) k = k
Sound-append ending before (stages, panicked) k = k
Sound-append ending before (stages, finished s) k = k

module _ {F : Type 0} (host : Host) (sensors : Sensors F) (libs : Libraries) (send : Send)
    (total available : ℕ) (percent : F) (percents : List F)
    (memory : sensors.virtual_memory ≡ some (total, available))
    (cpu : sensors.cpu_percent ≡ percent ∷ percents) where
  served-Sound :
      (cfg : Config) (o : Option Service)
      → Up o
      → Sound libs.ending (elim o [
        | none ↦ (listening_on (address cfg) ∷ [], panicked)
        | some s' ↦
            let (stages, exit) = shut_down libs.ending s' in
            (listening_on (address cfg) ∷ stages, exit)
      ])
  served-Sound cfg none u = u
  served-Sound cfg (some s') u =
      Sound-append libs.ending (listening_on (address cfg) ∷ []) (shut_down libs.ending s')
        (shut_down-Sound libs.ending s' u)

  serve_on-Sound :
      (cfg : Config) (s : Server) (requests : List ClientRequest)
      → IsUp (begun s)
      → FreshRequests host sensors send requests (begun s)
      → Sound libs.ending (serve_on host sensors libs send cfg s requests)
  unfolding serve_on
  serve_on-Sound cfg s requests v f = elim (Option-cases (libs.listen (address cfg))) [
    | inr (e, refused) ↦ rw (refused, serve_on) tt
    | inl listens ↦
        rw (listens, serve_on)
          (served-Sound cfg (serve_all host sensors send requests (begun s)) (
            serve_all-Up host sensors send total available percent percents memory cpu requests
              (begun s) v f))
  ]

  -- If the machine's sensors answer, then whatever the libraries answer, and for any requests of the
  -- clients and steps of their watchers in which every new watcher gets an id that is not subscribed when
  -- it starts, `run` does not panic; and if it returns without an error then a signal has come, the map
  -- of VMs is valid, the event stream is safe, and each watcher that has not unsubscribed is subscribed
  -- under an id of its own.
  pub run-Sound :
      (path : Bytes) (start : ℕ) (h : History) (requests : List ClientRequest)
      → ((cfg : Config) (s : Server)
          → load libs.read_file libs.unmarshal path ≡ ok cfg
          → new_server host cfg start h ≡ ok s
          → FreshRequests host sensors send requests (begun s))
      → Sound libs.ending (run host sensors libs send path start h requests)
  unfolding run
  run-Sound path start h requests fresh = loaded (load libs.read_file libs.unmarshal path) refl
    where
      made :
          (cfg : Config) (r : Result Server)
          → ValidIfOk r
          → ((s : Server) → r ≡ ok s → FreshRequests host sensors send requests (begun s))
          → Sound libs.ending (elim r [
            | err e ↦ ([], failed (text "failed to create agent server: " ++ e))
            | ok s ↦
                let (stages, exit) = serve_on host sensors libs send cfg s requests in
                (start_metrics cfg ++ stages, exit)
          ])
      made cfg (err e) v f = tt
      made cfg (ok s) v f =
          Sound-append libs.ending (start_metrics cfg)
            (serve_on host sensors libs send cfg s requests)
            (serve_on-Sound cfg s requests v (f s refl))

      loaded :
          (r : Result Config)
          → load libs.read_file libs.unmarshal path ≡ r
          → Sound libs.ending (elim r [
            | err e ↦ ([], failed (text "failed to load config: " ++ e))
            | ok cfg ↦ elim (new_server host cfg start h) [
              | err e ↦ ([], failed (text "failed to create agent server: " ++ e))
              | ok s ↦
                  let (stages, exit) = serve_on host sensors libs send cfg s requests in
                  (start_metrics cfg ++ stages, exit)
            ]
          ])
      loaded (err e) q = tt
      loaded (ok cfg) q =
          made cfg (new_server host cfg start h) (new_server-ValidIfOk host cfg start h)
            (λ s m. fresh cfg s q m)
