-- ===== src/Agent/Handlers/Serving.antt =====
-- Serving any requests of all clients: panics, and what the service keeps.
use firecracker_agent.Base.{ℕ, suc, Bytes, false, ◌≡◌, ◌≢◌, refl, List, [], ◌∷◌, Option, none, some}
use firecracker_agent.Base.Places.{get_at}
use firecracker_agent.Host.{Host}
use firecracker_agent.Firecracker.Registry.Invariant
use firecracker_agent.Agent.Server.{Server, Answer, response, status, panic}
use firecracker_agent.Agent.Watch.{Send}
use firecracker_agent.Agent.Watch.Session.{
  Stage, looping, got_nil, leaving, left, Watcher, Sessions, starts, acts,
}
use firecracker_agent.Agent.Watch.Session.Safety.{IsServed, Served}
use firecracker_agent.Agent.Watch.Session.Serving.{move-Served}
use firecracker_agent.Agent.Handlers.{Sensors, logged}
use firecracker_agent.Agent.Handlers.Safety.{
  IsValid, Fine, create_vm-Fine, start_vm-Fine, stop_vm-Fine, delete_vm-Fine, get_vm-Fine,
  list_vms-Fine, get_host_info-Fine, health_check-Fine, logged-Fine,
}
use firecracker_agent.Agent.Service.{
  ClientRequest, create, start, stop, delete, get, list, host_info, health, watch, watcher_does,
  Service, sessions, settle, is_got_nil, any_got_nil, watched, serve, serve_all, FreshRequest,
  FreshRequests,
}

-- The map of VMs meets its invariant; and so do the event stream and its watchers.
pub record IsUp (x : Service) : Type 0 where
  pub registry : Invariant.IsValid x.server.state
  pub served : IsServed (sessions x)

-- There is a service, and it is up.
abbrev pub Up : Option Service → Type 0
Up none = ⊥
Up (some x) = IsUp x

-- No watcher starts.
abbrev pub Spare : List ClientRequest → Type 0
Spare [] = Unit
Spare (watch id vm_id ∷ rs) = ⊥
Spare (_ ∷ rs) = Spare rs

module _ {F : Type 0} (host : Host) (sensors : Sensors F) (send : Send) where
  Spare-cons :
      (r : ClientRequest) (rs : List ClientRequest) (x : Service)
      → Spare (r ∷ rs)
      → FreshRequest host sensors send r x × Spare rs
  Spare-cons (create req) rs x p = (tt, p)
  Spare-cons (start i) rs x p = (tt, p)
  Spare-cons (stop i force) rs x p = (tt, p)
  Spare-cons (delete i) rs x p = (tt, p)
  Spare-cons (get i) rs x p = (tt, p)
  Spare-cons list rs x p = (tt, p)
  Spare-cons host_info rs x p = (tt, p)
  Spare-cons health rs x p = (tt, p)
  Spare-cons (watch id vm_id) rs x p = absurd p
  Spare-cons (watcher_does n a) rs x p = (tt, p)

  -- Then there is no id that could be taken.
  abbrev Rest : List ClientRequest → Option Service → Type 0
  Rest rs o = elim o as (λ _. Type 0) [
    | none ↦ Unit
    | some y ↦ FreshRequests host sensors send rs y
  ]

  Rest-all :
      (rs : List ClientRequest) (o : Option Service)
      → ((y : Service) → FreshRequests host sensors send rs y)
      → Rest rs o
  Rest-all rs none f = tt
  Rest-all rs (some y) f = f y

  Spare-FreshRequests :
      (rs : List ClientRequest) (x : Service) → Spare rs → FreshRequests host sensors send rs x
  Spare-FreshRequests [] x p = tt
  Spare-FreshRequests (r ∷ rs) x p =
      let (f, q) = Spare-cons r rs x p in
      (f, Rest-all rs (serve host sensors send r x) (λ y. Spare-FreshRequests rs y q))

  pub Spare-rest :
      (rs : List ClientRequest) (o : Option Service)
      → Spare rs
      → elim o as (λ _. Type 0) [ none ↦ Unit | some y ↦ FreshRequests host sensors send rs y ]
  Spare-rest rs o q = Rest-all rs o (λ y. Spare-FreshRequests rs y q)

settle-Up :
    {A : Type 0} (x : Service) (y : Answer A × Server)
    → IsServed (sessions x)
    → Fine x.server.event_stream.subscribers y
    → Up (settle x.watchers y)
settle-Up x (panic, s) v f = f
settle-Up x (response a, s) v f = record {
  registry = f.registry;
  served = record {
    safe = f.stream;
    held = λ n e. rw (f.subscribers) (v.held n e);
    apart = v.apart;
  };
}
settle-Up x (status c e, s) v f = record {
  registry = f.registry;
  served = record {
    safe = f.stream;
    held = λ n e. rw (f.subscribers) (v.held n e);
    apart = v.apart;
  };
}

not-got_nil : (g : Stage) → g ≢ got_nil → is_got_nil g ≡ false
not-got_nil looping ne = refl
not-got_nil got_nil ne = absurd (ne refl)
not-got_nil (leaving how) ne = refl
not-got_nil (left how) ne = refl

none_got_nil :
    (ws : List Watcher)
    → ((n : ℕ) (w : Watcher) → get_at n ws ≡ some w → w.stage ≢ got_nil)
    → any_got_nil ws ≡ false
unfolding get_at
none_got_nil [] f = refl
none_got_nil (w ∷ ws) f =
    rw (not-got_nil w.stage (f 0 w refl)) (none_got_nil ws (λ n u e. f (suc n) u e))

watched-Up :
    (s : Server) (o : Option Sessions) → Invariant.IsValid s.state → Served o → Up (watched s o)
unfolding watched
watched-Up s none v served = served
watched-Up s (some x) v served =
    rw (none_got_nil x.watchers (λ n w e. (served.held n e).1))
      (record { registry = v; served = served })

module _ {F : Type 0} (host : Host) (sensors : Sensors F) (send : Send) where
  logged-Up :
      {A : Type 0} (method : Bytes) (handler : Server → Answer A × Server) (x : Service)
      → IsUp x
      → Fine x.server.event_stream.subscribers (handler x.server)
      → Up (settle x.watchers (logged method handler x.server))
  logged-Up method handler x u f =
      settle-Up x _ u.served (logged-Fine _ host method handler x.server f)

  module _ (total available : ℕ) (percent : F) (percents : List F)
      (memory : sensors.virtual_memory ≡ some (total, available))
      (cpu : sensors.cpu_percent ≡ percent ∷ percents) where
    serve-Up :
        (r : ClientRequest) (x : Service)
        → IsUp x
        → FreshRequest host sensors send r x
        → Up (serve host sensors send r x)
    unfolding serve
    serve-Up r x u fresh = go r fresh
      where
        v : IsValid x.server.event_stream.subscribers x.server
        v = record { registry = u.registry; stream = u.served.safe; subscribers = refl }

        go :
            (r : ClientRequest)
            → FreshRequest host sensors send r x
            → Up (serve host sensors send r x)
        go (create req) f = logged-Up _ _ x u (create_vm-Fine _ host req x.server v)
        go (start i) f = logged-Up _ _ x u (start_vm-Fine _ host i x.server v)
        go (stop i force) f = logged-Up _ _ x u (stop_vm-Fine _ host i force x.server v)
        go (delete i) f = logged-Up _ _ x u (delete_vm-Fine _ host i x.server v)
        go (get i) f = logged-Up _ _ x u (get_vm-Fine _ host i x.server v)
        go list f = logged-Up _ _ x u (list_vms-Fine _ host x.server v)
        go host_info f = logged-Up _ _ x u (get_host_info-Fine _ host sensors memory cpu x.server v)
        go health f = logged-Up _ _ x u (health_check-Fine _ host x.server v)
        go (watch id vm_id) f =
            watched-Up x.server _ u.registry
              (move-Served send (starts id vm_id) (sessions x) u.served f)
        go (watcher_does n a) f =
            watched-Up x.server _ u.registry (move-Served send (acts n a) (sessions x) u.served tt)

    -- If the machine's sensors answer, the map of VMs is valid, the stream is safe and each watcher that
    -- has not unsubscribed is subscribed under an id of its own, then so it is after any requests and
    -- steps of watchers, in any order, in which every new watcher gets an id that is not subscribed: all
    -- are served without a panic.
    pub serve_all-Up :
        (rs : List ClientRequest) (x : Service)
        → IsUp x
        → FreshRequests host sensors send rs x
        → Up (serve_all host sensors send rs x)
    unfolding serve_all
    serve_all-Up [] x u f = u
    serve_all-Up (r ∷ rs) x u f =
        go (serve host sensors send r x) (serve-Up r x u f.0) f.1 (λ y. serve_all-Up rs y)
      where
        go :
            (o : Option Service)
            → Up o
            → elim o as (λ _. Type 0) [
              | none ↦ Unit
              | some y ↦ FreshRequests host sensors send rs y
            ]
            → ((y : Service)
                → IsUp y
                → FreshRequests host sensors send rs y
                → Up (serve_all host sensors send rs y))
            → Up (elim o [ none ↦ none | some y ↦ serve_all host sensors send rs y ])
        go none u f rest = u
        go (some y) u f rest = rest y u f
