-- ===== src/Agent/Watch/Session/Others.antt =====
-- What an action of one watcher does to the channels of the others.
use firecracker_agent.Base.{ℕ, ◌≡◌, ◌≢◌, inl, inr, refl, List, Option, none, some, Option-cases}
use firecracker_agent.Base.Dict.{lookup, erase}
use firecracker_agent.Agent.Events.{Channel, EventStream, update, close, unsubscribe}
use firecracker_agent.Agent.Events.Buffers.{buffer_of, Kept, close-Kept, receive-other}
use firecracker_agent.Agent.Watch.{Send}
use firecracker_agent.Agent.Watch.Session.{
  Stage, looping, got_nil, leaving, left, Watcher, receives, gone, unsubscribes, Doing,
  watcher_acts,
}

-- The buffer of the channel `c` is as it was.
abbrev pub Leaves : ℕ → List Channel → Option (Watcher × EventStream) → Type 0
Leaves c cs none = Unit
Leaves c cs (some (w, es)) = buffer_of c es.channels ≡ buffer_of c cs

unsubscribe-Leaves :
    (c : ℕ) (u u' : Watcher) (es : EventStream)
    → Leaves c es.channels
        (elim (unsubscribe u.subscriber_id es) [ none ↦ none | some es' ↦ some (u', es') ])
unfolding unsubscribe
unsubscribe-Leaves c u u' es = elim (Option-cases (lookup u.subscriber_id es.subscribers)) [
  | inl absent ↦ rw (absent, unsubscribe) refl
  | inr (ch, found) ↦
      rw (found, unsubscribe) (go (update ch close es.channels) (close-Kept c ch es.channels))
]
  where
    go :
        (o : Option (List Channel))
        → Kept c es.channels o
        → Leaves c es.channels
            (elim (elim o as (λ _. Option EventStream) [
              | none ↦ none
              | some channels ↦ some (record {
                subscribers = erase u.subscriber_id es.subscribers;
                channels = channels;
              })
            ])
              as (λ _. Option (Watcher × EventStream)) [ none ↦ none | some es' ↦ some (u', es') ])
    go none k = tt
    go (some cs) k = k

module _ (send : Send) (c : ℕ) (u : Watcher) (es : EventStream) where
  pub acts-Leaves :
      (a : Doing) (stage : Stage)
      → (stage ≡ looping → c ≢ u.channel)
      → Leaves c es.channels (watcher_acts send a u stage es)
  unfolding watcher_acts
  acts-Leaves receives looping ne = receive-other c u.channel es.channels (ne refl)
  acts-Leaves receives got_nil ne = refl
  acts-Leaves receives (leaving how) ne = refl
  acts-Leaves receives (left how) ne = refl
  acts-Leaves gone looping ne = refl
  acts-Leaves gone got_nil ne = refl
  acts-Leaves gone (leaving how) ne = refl
  acts-Leaves gone (left how) ne = refl
  acts-Leaves unsubscribes looping ne = refl
  acts-Leaves unsubscribes got_nil ne = refl
  acts-Leaves unsubscribes (leaving how) ne =
      unsubscribe-Leaves c u (record u { stage = left how }) es
  acts-Leaves unsubscribes (left how) ne = refl
