-- ===== src/Agent/Watch/Session/Safety.antt =====
-- The invariant of the watchers of one event stream, and the actions of a watcher.
use firecracker_agent.Base.{
  ℕ, zero, suc, Bool, true, false, ◌≡◌, ◌≢◌, sym, ◌∙◌, ap, inl, inr, refl, List, [], ◌∷◌, Option,
  none, some, arith,
}
use firecracker_agent.Base.Places.{get_at, set_at, get_at-set_at}
use firecracker_agent.Base.Dict.{Dict, lookup}
use firecracker_agent.Agent.Events.{
  Channel, Received, event, closed_nil, blocked, EventStream, unsubscribe, receive,
}
use firecracker_agent.Agent.Events.Channels.{is_open}
use firecracker_agent.Agent.Events.Subscribers.{IsSafe, AllOpen-lookup}
use firecracker_agent.Agent.Events.Safety.{take, stream_step, stream_step-Safe}
use firecracker_agent.Agent.Watch.Session.Parting.{Parted, unsubscribe-Parted}
use firecracker_agent.Agent.Watch.{Watching, Send}
use firecracker_agent.Agent.Watch.Session.{
  Stage, looping, got_nil, leaving, left, Watcher, Sessions, take_event, receives, gone,
  unsubscribes, Doing, watcher_acts,
}

-- The watcher has not yet unsubscribed.
abbrev pub active : Stage → Bool
active (left how) = false
active _ = true

-- A watcher that has not unsubscribed is subscribed, by its own id to its own channel; and it has not
-- got nil.
abbrev pub Held : Dict ℕ → Watcher → Type 0
Held d w = (active w.stage ≡ true → lookup w.subscriber_id d ≡ some w.channel) × (w.stage ≢ got_nil)

-- The stream is safe, every watcher is subscribed until it unsubscribes, and no two of these share an id.
pub record IsServed (x : Sessions) : Type 0 where
  pub safe : IsSafe x.stream
  pub held : (n : ℕ) {w : Watcher} → get_at n x.watchers ≡ some w → Held x.stream.subscribers w
  pub apart :
      (n m : ℕ) {w u : Watcher}
      → get_at n x.watchers ≡ some w
      → get_at m x.watchers ≡ some u
      → active w.stage ≡ true
      → active u.stage ≡ true
      → w.subscriber_id ≡ u.subscriber_id
      → n ≡ m

-- No panic, and served again.
abbrev pub Served : Option Sessions → Type 0
Served none = ⊥
Served (some x) = IsServed x

open-receive : (n : ℕ) (cs : List Channel) → is_open n cs ≡ true → (receive n cs).0 ≢ closed_nil
unfolding receive
open-receive n [] o e = ground arith
open-receive zero (c ∷ cs) o e = ground arith
open-receive (suc n) (c ∷ cs) o e = open-receive n cs o e

-- One watcher changes, and the stream, in a way that leaves the others subscribed.
changed-IsServed :
    (n : ℕ) (w w' : Watcher) (es : EventStream) (x : Sessions)
    → IsServed x
    → get_at n x.watchers ≡ some w
    → IsSafe es
    → w'.subscriber_id ≡ w.subscriber_id
    → (active w'.stage ≡ true → active w.stage ≡ true)
    → Held es.subscribers w'
    → ((m : ℕ) (u : Watcher) → get_at m x.watchers ≡ some u → m ≢ n → Held es.subscribers u)
    → IsServed (record { stream = es; watchers = set_at n w' x.watchers })
changed-IsServed n w w' es x v at safe id act new others = record {
  safe = safe;
  held = λ m {w = u} e. elim (get_at-set_at m n x.watchers w' u e) [
    | inl (old, ne) ↦ others m u old ne
    | inr (same, _) ↦ rw same new
  ];
  apart = λ i j {w = a} {u = b} e f. elim (get_at-set_at i n x.watchers w' a e) [
    | inl (old, ne) ↦ elim (get_at-set_at j n x.watchers w' b f) [
      | inl (old', ne') ↦ v.apart i j old old'
      | inr (same, here) ↦ λ p q s. absurd (
          ne (
            v.apart i n old at p (act (sym (ap (λ y. active y.stage) same) ∙ q))
              (s ∙ ap (λ y. y.subscriber_id) same ∙ id)))
    ]
    | inr (same, here) ↦ elim (get_at-set_at j n x.watchers w' b f) [
      | inl (old, ne) ↦ λ p q s. absurd (
          ne (
            sym (
              v.apart n j at old (act (sym (ap (λ y. active y.stage) same) ∙ p)) q
                (sym id ∙ sym (ap (λ y. y.subscriber_id) same) ∙ s))))
      | inr (same', here') ↦ λ p q s. here ∙ sym here'
    ]
  ];
}

-- What a receive from an open channel leaves as it was.
record Same (w w' : Watcher) : Type 0 where
  id : w'.subscriber_id ≡ w.subscriber_id
  channel : w'.channel ≡ w.channel
  busy : active w'.stage ≡ active w.stage
  sound : w'.stage ≢ got_nil

take_event-Same :
    (send : Send) (w : Watcher) (r : Received)
    → w.stage ≡ looping
    → r ≢ closed_nil
    → Same w (take_event send w r)
unfolding take_event
take_event-Same send w blocked l o = record {
  id = refl;
  channel = refl;
  busy = refl;
  sound = λ e. ground arith;
}
take_event-Same send w closed_nil l o = absurd (o refl)
take_event-Same send w (event e) l o = record {
  id = ground arith;
  channel = ground arith;
  busy = ground arith;
  sound = λ q. ground arith;
}

-- The outcome of an action, put back.
abbrev pub put_back : ℕ → Sessions → Option (Watcher × EventStream) → Option Sessions
put_back n x none = none
put_back n x (some (w', es)) = some (record { stream = es; watchers = set_at n w' x.watchers })

module _ (send : Send) (n : ℕ) (w : Watcher) (x : Sessions) (v : IsServed x)
    (at : get_at n x.watchers ≡ some w) where
  idle-Served : Served (put_back n x (some (w, x.stream)))
  idle-Served =
      changed-IsServed n w w x.stream x v at v.safe refl (λ a. a) (v.held n at)
        (λ m u e ne. v.held m e)

  receives-Served :
      w.stage ≡ looping → Served (put_back n x (watcher_acts send receives w looping x.stream))
  unfolding watcher_acts stream_step
  receives-Served l =
      let held = v.held n at in
      let there = held.0 (ground arith) in
      let fine =
        AllOpen-lookup w.subscriber_id x.stream.subscribers x.stream.channels v.safe.opened there in
      let same =
        take_event-Same send w (receive w.channel x.stream.channels).0 l
          (open-receive w.channel x.stream.channels fine) in
      changed-IsServed n w _ _ x v at (stream_step-Safe (take w.channel) x.stream v.safe) same.id
        (λ a. sym same.busy ∙ a)
        (
          (λ a.
              ap (λ i. lookup i x.stream.subscribers) same.id ∙ there ∙ ap some (sym same.channel)),
          same.sound,
        )
        (λ m u e ne. v.held m e)

  gone-Served :
      w.stage ≡ looping → Served (put_back n x (watcher_acts send gone w looping x.stream))
  unfolding watcher_acts
  gone-Served l =
      let held = v.held n at in
      changed-IsServed n w _ x.stream x v at v.safe refl (λ a. ground arith)
        ((λ a. held.0 (ground arith)), λ e. ground arith) (λ m u e ne. v.held m e)

  unsubscribes-Served :
      (how : Watching)
      → w.stage ≡ leaving how
      → Served (put_back n x (watcher_acts send unsubscribes w (leaving how) x.stream))
  unfolding watcher_acts
  unsubscribes-Served how l =
      go (unsubscribe w.subscriber_id x.stream) (unsubscribe-Parted w.subscriber_id x.stream v.safe)
    where
      go :
          (o : Option EventStream)
          → Parted w.subscriber_id x.stream o
          → Served (
              put_back n x
                (elim o [ none ↦ none | some es' ↦ some (record w { stage = left how }, es') ]))
      go none p = p
      go (some es') p =
          changed-IsServed n w _ es' x v at p.0 refl (λ a. ground arith)
            ((λ a. ground arith), λ e. ground arith)
            (λ m u e ne. (
              λ a.
                  p.1 u.subscriber_id (λ s. ne (v.apart m n e at a (ground arith) s))
                  ∙ (v.held m e).0 a,
              (v.held m e).1,
            ))

  -- Whatever a watcher does next, nothing panics, and the sessions stay in order.
  pub acts-Served :
      (a : Doing) (stage : Stage)
      → w.stage ≡ stage
      → Served (put_back n x (watcher_acts send a w stage x.stream))
  unfolding watcher_acts
  acts-Served receives looping l = receives-Served l
  acts-Served receives got_nil l = idle-Served
  acts-Served receives (leaving how) l = idle-Served
  acts-Served receives (left how) l = idle-Served
  acts-Served gone looping l = gone-Served l
  acts-Served gone got_nil l = idle-Served
  acts-Served gone (leaving how) l = idle-Served
  acts-Served gone (left how) l = idle-Served
  acts-Served unsubscribes looping l = idle-Served
  acts-Served unsubscribes got_nil l = idle-Served
  acts-Served unsubscribes (leaving how) l = unsubscribes-Served how l
  acts-Served unsubscribes (left how) l = idle-Served
