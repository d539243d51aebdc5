-- ===== src/Agent/Watch/Session/Collision.antt =====
-- Two watchers whose ids, made of the time in nanoseconds, are the same.
use firecracker_agent.Base.{
  ℕ, Bytes, true, ◌≡◌, ◌≢◌, refl, List, [], ◌∷◌, ◌++◌, some, arith, length, length-append,
}
use firecracker_agent.Base.Dict.{Dict, insert, erase, lookup-insert}
use firecracker_agent.Agent.Events.{
  Channel, EventStream, closed_nil, fresh, update, close, subscribe, unsubscribe, receive,
}
use firecracker_agent.Agent.Events.Subscribers.{Without, IsSafe, Without-fresh}

abbrev shut : Channel
shut = record fresh { closed = true }

update-fresh :
    (cs : List Channel) → update (length cs) close (cs ++ (fresh ∷ [])) ≡ some (cs ++ (shut ∷ []))
unfolding update
update-fresh [] = refl
update-fresh (c ∷ cs) = rw (update-fresh cs, update) refl

receive-shut : (cs : List Channel) → (receive (length cs) (cs ++ (shut ∷ []))).0 ≡ closed_nil
unfolding receive
receive-shut [] = refl
receive-shut (c ∷ cs) = receive-shut cs

-- The second entry takes the place of the first.
Without-replaced :
    (id : Bytes) (a b : ℕ) (d : Dict ℕ)
    → b ≢ a
    → Without a d
    → Without a (insert id b (insert id a d))
unfolding insert
Without-replaced id a b [] ne w = ground arith
Without-replaced id a b ((j, v) ∷ d) ne w = ground (arith, Without-replaced id a b d ne w.1)

-- If two clients subscribe to a safe stream with the same id, then no entry refers to the channel of
-- the first any more, so that it gets no event; and when one of them unsubscribes, the channel of the
-- second is closed: its watcher goes on to receive nil.
pub subscribe_twice :
    (id : Bytes) (es : EventStream)
    → IsSafe es
    → let (a, es1) = subscribe id es in
      let (b, es2) = subscribe id es1 in
      Without a es2.subscribers
      × ((es3 : EventStream) × (unsubscribe id es2 ≡ some es3)
          × ((receive b es3.channels).0 ≡ closed_nil))
unfolding subscribe unsubscribe
subscribe_twice id es v =
    let cs = es.channels ++ (fresh ∷ []) in
    let d = insert id (length cs) (insert id (length es.channels) es.subscribers) in
    (
      Without-replaced id (length es.channels) (length cs) es.subscribers
          (λ e. absurd (omega (arith, length-append es.channels (fresh ∷ []), e)))
          (Without-fresh es.subscribers es.channels v.opened),
      (
        record { subscribers = erase id d; channels = cs ++ (shut ∷ []) },
        ground (
          arith,
          lookup-insert id id (length cs) (insert id (length es.channels) es.subscribers),
          update-fresh cs,
        ),
        receive-shut cs,
      ),
    )
