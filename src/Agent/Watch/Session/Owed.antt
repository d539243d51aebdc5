-- ===== src/Agent/Watch/Session/Owed.antt =====
-- What a watcher has been sent, and what waits for it in its channel.
use firecracker_agent.Base.{
  Bytes, not, ◌≡◌, sym, ◌∙◌, ap, inl, inr, refl, List, [], ◌∷◌, ◌++◌, Option, none, some, arith,
  Bool-cases, Option-cases, if◌then◌else◌,
}
use mathlib.Core.List.Sublist
use mathlib.Core.List.{Sublist, sublist-append_left, append_assoc}
use firecracker_agent.Agent.Events.{
  VmEvent, Channel, Received, event, closed_nil, blocked, EventStream, unsubscribe, receive,
}
use firecracker_agent.Agent.Events.Buffers.{buffer_of, ahead, receive-ahead}
use firecracker_agent.Agent.Watch.{Send, Watching}
use firecracker_agent.Agent.Watch.Delivery.{asked, skips-asked}
use firecracker_agent.Agent.Watch.Session.{
  Stage, looping, got_nil, leaving, left, Watcher, take_event, receives, gone, unsubscribes, Doing,
  watcher_acts,
}
use firecracker_agent.Agent.Watch.Session.Safety.{active}

-- The events that the request asks for, in order.
abbrev pub wanted : Bytes → List VmEvent → List VmEvent
wanted vm_id [] = []
wanted vm_id (e ∷ es) = if asked vm_id e then e ∷ wanted vm_id es else wanted vm_id es

pub wanted-append :
    (vm_id : Bytes) (es es' : List VmEvent)
    → wanted vm_id (es ++ es') ≡ wanted vm_id es ++ wanted vm_id es'
wanted-append vm_id [] es' = refl
wanted-append vm_id (e ∷ es) es' = ground (arith, wanted-append vm_id es es')

-- The events sent, and, while the watcher has not unsubscribed, those that wait in a buffer.
abbrev pub owed_with : Watcher → List VmEvent → List VmEvent
owed_with w b = if active w.stage then w.sent ++ wanted w.vm_id b else w.sent

abbrev pub owed : Watcher → List Channel → List VmEvent
owed w cs = owed_with w (buffer_of w.channel cs)

pub sent-owed : (w : Watcher) (cs : List Channel) → Sublist w.sent (owed w cs)
sent-owed w cs = elim (Bool-cases (active w.stage)) [
  | inl a ↦ rw a (sublist-append_left w.sent _)
  | inr a ↦ rw a (Sublist.refl w.sent)
]

take_event-owed :
    (send : Send) (w : Watcher) (r : Received) (b : List VmEvent)
    → w.stage ≡ looping
    → Sublist (owed_with (take_event send w r) b) (owed_with w (ahead r b))
unfolding take_event
take_event-owed send w blocked b l = Sublist.refl _
take_event-owed send w closed_nil b l = rw l (Sublist.refl _)
take_event-owed send w (event e) b l = elim (Bool-cases (asked w.vm_id e)) [
  | inr miss ↦ rw (skips-asked w.vm_id e ∙ ap not miss, take_event, miss, l) (Sublist.refl _)
  | inl hit ↦ elim (Option-cases (send w.sent e)) [
    | inl sends ↦
        rw
          (
            skips-asked w.vm_id e ∙ ap not hit,
            take_event,
            sends,
            hit,
            l,
            append_assoc w.sent (e ∷ []) (wanted w.vm_id b),
          )
          (Sublist.refl _)
    | inr (error, fails) ↦
        rw (skips-asked w.vm_id e ∙ ap not hit, take_event, fails, hit, l)
          (Sublist.append (Sublist.refl w.sent) (Sublist.cons e (Sublist.refl _)))
  ]
]

take_event_keeps :
    (send : Send) (w : Watcher) (r : Received)
    → ((take_event send w r).channel ≡ w.channel) × ((take_event send w r).vm_id ≡ w.vm_id)
unfolding take_event
take_event_keeps send w blocked = (refl, refl)
take_event_keeps send w closed_nil = (refl, refl)
take_event_keeps send w (event e) = (ground arith, ground arith)

-- After an action of the watcher, it is owed a part of what it was.
abbrev pub Owes : Watcher → List VmEvent → Option (Watcher × EventStream) → Type 0
Owes w old none = Unit
Owes w old (some (w', es)) = (w'.vm_id ≡ w.vm_id) × Sublist (owed w' es.channels) old

module _ (send : Send) (w : Watcher) (es : EventStream) where
  receives-Owes :
      w.stage ≡ looping → Owes w (owed w es.channels) (watcher_acts send receives w looping es)
  unfolding watcher_acts
  receives-Owes l =
      let r = (receive w.channel es.channels).0 in
      let cs = (receive w.channel es.channels).1 in
      let kept = take_event_keeps send w r in
      (
        kept.1,
        rw (kept.0, sym (receive-ahead w.channel es.channels))
            (take_event-owed send w r (buffer_of w.channel cs) l),
      )

  unsubscribes-Owes :
      (how : Watching)
      → Owes w (owed w es.channels) (watcher_acts send unsubscribes w (leaving how) es)
  unfolding watcher_acts
  unsubscribes-Owes how = go (unsubscribe w.subscriber_id es)
    where
      go :
          (o : Option EventStream)
          → Owes w
              (owed w es.channels)
              (elim o [ none ↦ none | some es' ↦ some (record w { stage = left how }, es') ])
      go none = tt
      go (some es') = (refl, sent-owed w es.channels)

  idle-Owes : Owes w (owed w es.channels) (some (w, es))
  idle-Owes = (refl, Sublist.refl _)

  pub acts-Owes :
      (a : Doing) (stage : Stage)
      → w.stage ≡ stage
      → Owes w (owed w es.channels) (watcher_acts send a w stage es)
  unfolding watcher_acts
  acts-Owes receives looping l = receives-Owes l
  acts-Owes receives got_nil l = idle-Owes
  acts-Owes receives (leaving how) l = idle-Owes
  acts-Owes receives (left how) l = idle-Owes
  acts-Owes gone looping l = (refl, rw l (Sublist.refl _))
  acts-Owes gone got_nil l = idle-Owes
  acts-Owes gone (leaving how) l = idle-Owes
  acts-Owes gone (left how) l = idle-Owes
  acts-Owes unsubscribes looping l = idle-Owes
  acts-Owes unsubscribes got_nil l = idle-Owes
  acts-Owes unsubscribes (leaving how) l = unsubscribes-Owes how
  acts-Owes unsubscribes (left how) l = idle-Owes
