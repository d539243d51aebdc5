-- ===== src/Agent/Watch/Session/Parting.antt =====
-- What `Unsubscribe` leaves to the other subscribers.
use firecracker_agent.Base.{
  Bytes, ◌≡◌, ◌≢◌, inl, inr, refl, List, Option, none, some, arith, Option-cases,
}
use firecracker_agent.Base.Dict.{lookup, erase, lookup-erase}
use firecracker_agent.Agent.Events.{Channel, update, close, EventStream, unsubscribe}
use firecracker_agent.Agent.Events.Subscribers.{IsSafe, Safe}
use firecracker_agent.Agent.Events.Safety.{unsubscribe-Safe}

-- The other ids stand in the map as they did.
abbrev Others : Bytes → EventStream → Option EventStream → Type 0
Others id es none = Unit
Others id es (some es') = (j : Bytes) → j ≢ id → lookup j es'.subscribers ≡ lookup j es.subscribers

unsubscribe-Others : (id : Bytes) (es : EventStream) → Others id es (unsubscribe id es)
unfolding unsubscribe
unsubscribe-Others id es = elim (Option-cases (lookup id es.subscribers)) [
  | inl absent ↦ rw (absent, unsubscribe, Others) (λ j ne. refl)
  | inr (ch, found) ↦ rw (found, unsubscribe, Others) (go (update ch close es.channels))
]
  where
    go :
        (o : Option (List Channel))
        → Others id es (elim o [
          | none ↦ none
          | some channels ↦
              some (record { subscribers = erase id es.subscribers; channels = channels })
        ])
    go none = tt
    go (some cs) = λ j ne. ground (arith, lookup-erase j id es.subscribers)

-- After `Unsubscribe`: no panic, a safe stream, and the other ids as they were.
abbrev pub Parted : Bytes → EventStream → Option EventStream → Type 0
Parted id es none = ⊥
Parted id es (some es') =
    IsSafe es' × ((j : Bytes) → j ≢ id → lookup j es'.subscribers ≡ lookup j es.subscribers)

pub unsubscribe-Parted :
    (id : Bytes) (es : EventStream) → IsSafe es → Parted id es (unsubscribe id es)
unsubscribe-Parted id es v =
    both (unsubscribe id es) (unsubscribe-Safe id es v) (unsubscribe-Others id es)
  where
    both : (o : Option EventStream) → Safe o → Others id es o → Parted id es o
    both none s k = s
    both (some es') s k = (s, k)
