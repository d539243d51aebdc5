-- ===== src/Agent/Events/Safety.antt =====
-- Sequences of calls of `EventStream`: `Subscribe`, `Unsubscribe`, `Broadcast` and receives.
use firecracker_agent.Base.{
  ℕ, zero, suc, Bytes, ◌≡◌, refl, ◌∙◌, List, [], ◌∷◌, Option, none, some, arith, Option-cases, inl,
  inr,
}
use firecracker_agent.Base.Dict.{Dict, lookup, erase}
use firecracker_agent.Agent.Events.{
  VmEvent, Channel, EventStream, update, close, offer, subscribe, unsubscribe, offer_all, broadcast,
  receive,
}
use firecracker_agent.Agent.Events.Channels.{
  is_open, AllBounded, Sent, update-offer, Closed, update-close,
}
use firecracker_agent.Agent.Events.Subscribers.{
  AllOpen, IsSafe, Safe, AllOpen-map, Distinct-erase, Without-erase_self, AllOpen-erase,
  AllOpen-lookup, AllOpen-closed, subscribe-IsSafe,
}

offer_all-Sent :
    (e : VmEvent) (d : Dict ℕ) (cs : List Channel) → AllOpen d cs → Sent cs (offer_all e d cs)
unfolding offer_all
offer_all-Sent e [] cs p = (λ m. refl, λ b. b)
offer_all-Sent e ((_, ch) ∷ d) cs p =
    go (update ch (offer e) cs) (update-offer e ch cs p.0) (λ cs1 q. offer_all-Sent e d cs1 q)
  where
    after :
        (cs1 : List Channel)
        → Sent cs (some cs1)
        → (o : Option (List Channel)) → Sent cs1 o
        → Sent cs o
    after cs1 s none t = t
    after cs1 s (some cs2) t = (λ m. t.0 m ∙ s.0 m, λ b. t.1 (s.1 b))

    go :
        (o : Option (List Channel))
        → Sent cs o
        → ((cs1 : List Channel) → AllOpen d cs1 → Sent cs1 (offer_all e d cs1))
        → Sent cs (elim o [ none ↦ none | some cs' ↦ offer_all e d cs' ])
    go none s rest = s
    go (some cs1) s rest =
        after cs1 s (offer_all e d cs1) (rest cs1 (AllOpen-map d cs cs1 (λ m q. s.0 m ∙ q) p.1))

pub broadcast-Safe : (e : VmEvent) (es : EventStream) → IsSafe es → Safe (broadcast e es)
unfolding broadcast
broadcast-Safe e es v =
    go (offer_all e es.subscribers es.channels)
      (offer_all-Sent e es.subscribers es.channels v.opened)
  where
    go :
        (o : Option (List Channel))
        → Sent es.channels o
        → Safe (elim o [ none ↦ none | some cs ↦ some (record es { channels = cs }) ])
    go none s = s
    go (some cs) s = record {
      opened = AllOpen-map es.subscribers es.channels cs (λ m q. s.0 m ∙ q) v.opened;
      distinct = v.distinct;
      bounded = s.1 v.bounded;
    }

-- A broadcast: no panic, a safe stream, and the same map.
abbrev pub Told : EventStream → Option EventStream → Type 0
Told es none = ⊥
Told es (some es') = IsSafe es' × (es'.subscribers ≡ es.subscribers)

pub broadcast-Told : (e : VmEvent) (es : EventStream) → IsSafe es → Told es (broadcast e es)
unfolding broadcast
broadcast-Told e es v = go (offer_all e es.subscribers es.channels) (broadcast-Safe e es v)
  where
    go :
        (o : Option (List Channel))
        → Safe (elim o [ none ↦ none | some channels ↦ some (record es { channels = channels }) ])
        → Told es
            (elim o [ none ↦ none | some channels ↦ some (record es { channels = channels }) ])
    go none s = s
    go (some cs) s = (s, refl)

Closed-Safe :
    (id : Bytes) (es : EventStream) (ch : ℕ) (o : Option (List Channel))
    → IsSafe es
    → lookup id es.subscribers ≡ some ch
    → Closed ch es.channels o
    → Safe (elim o [
      | none ↦ none
      | some cs ↦ some (record { subscribers = erase id es.subscribers; channels = cs })
    ])
Closed-Safe id es ch none v e s = s
Closed-Safe id es ch (some cs) v e s = record {
  opened =
      AllOpen-closed ch (erase id es.subscribers) es.channels cs s.0
        (Without-erase_self ch id es.subscribers v.distinct e)
        (AllOpen-erase id es.subscribers es.channels v.opened);
  distinct = Distinct-erase id es.subscribers v.distinct;
  bounded = s.1 v.bounded;
}

pub unsubscribe-Safe : (id : Bytes) (es : EventStream) → IsSafe es → Safe (unsubscribe id es)
unfolding unsubscribe
unsubscribe-Safe id es v = elim (Option-cases (lookup id es.subscribers)) [
  | inl absent ↦ rw (absent, unsubscribe, Safe) v
  | inr (ch, e) ↦
      rw (e, unsubscribe, Safe)
        (Closed-Safe id es ch (update ch close es.channels) v e
          (update-close ch es.channels (AllOpen-lookup id es.subscribers es.channels v.opened e)))
]

-- What the agent does with a stream; `take` is a receive by a watcher that holds a channel.
pub data StreamCall : Type 0 where
  join leave : Bytes → StreamCall
  tell : VmEvent → StreamCall
  take : ℕ → StreamCall

unfoldable pub stream_step : StreamCall → EventStream → Option EventStream
stream_step (join id) es = some (subscribe id es).1
stream_step (leave id) es = unsubscribe id es
stream_step (tell e) es = broadcast e es
stream_step (take n) es = some (record es { channels = (receive n es.channels).1 })

unfoldable pub stream_steps : List StreamCall → EventStream → Option EventStream
stream_steps [] es = some es
stream_steps (c ∷ cs) es = elim (stream_step c es) [ none ↦ none | some es' ↦ stream_steps cs es' ]

is_open-receive : (n m : ℕ) (cs : List Channel) → is_open m (receive n cs).1 ≡ is_open m cs
unfolding receive
is_open-receive n m [] = ground arith
is_open-receive zero zero (c ∷ cs) = ground arith
is_open-receive zero (suc m) (c ∷ cs) = ground arith
is_open-receive (suc n) zero (c ∷ cs) = refl
is_open-receive (suc n) (suc m) (c ∷ cs) = is_open-receive n m cs

AllBounded-receive : (n : ℕ) (cs : List Channel) → AllBounded cs → AllBounded (receive n cs).1
unfolding receive
AllBounded-receive n [] b = ground arith
AllBounded-receive zero (c ∷ cs) b = (ground arith, b.1)
AllBounded-receive (suc n) (c ∷ cs) b = (b.0, AllBounded-receive n cs b.1)

pub stream_step-Safe : (c : StreamCall) (es : EventStream) → IsSafe es → Safe (stream_step c es)
unfolding stream_step
stream_step-Safe (join id) es v = subscribe-IsSafe id es v
stream_step-Safe (leave id) es v = unsubscribe-Safe id es v
stream_step-Safe (tell e) es v = broadcast-Safe e es v
stream_step-Safe (take n) es v = record {
  opened =
      AllOpen-map es.subscribers es.channels _ (λ m q. is_open-receive n m es.channels ∙ q)
        v.opened;
  distinct = v.distinct;
  bounded = AllBounded-receive n es.channels v.bounded;
}

-- From a safe stream, every sequence of subscriptions, unsubscriptions, broadcasts and receives runs
-- without a panic and ends in a safe stream.
pub stream_steps-Safe :
    (cs : List StreamCall) (es : EventStream) → IsSafe es → Safe (stream_steps cs es)
unfolding stream_steps
stream_steps-Safe [] es v = v
stream_steps-Safe (c ∷ cs) es v =
    go (stream_step c es) (stream_step-Safe c es v) (λ es' w. stream_steps-Safe cs es' w)
  where
    go :
        (o : Option EventStream)
        → Safe o
        → ((es' : EventStream) → IsSafe es' → Safe (stream_steps cs es'))
        → Safe (elim o [ none ↦ none | some es' ↦ stream_steps cs es' ])
    go none s rest = s
    go (some es') s rest = rest es' s
