-- ===== src/Agent/Watch/Session/Sending.antt =====
-- What watchers are sent, over any sequence of moves.
use firecracker_agent.Base.{
  ℕ, Bytes, true, ◌≡◌, ◌≢◌, sym, ◌∙◌, ap, inl, inr, refl, List, [], ◌∷◌, ◌++◌, Option, none, some,
  Bool-cases, Option-cases, ℕ_discrete,
}
use firecracker_agent.Base.Places.{
  get_at, set_at, get_at-left, get_at-set_at_self, get_at-set_at_other,
}
use mathlib.Core.Path.{subst}
use mathlib.Core.List.Sublist
use mathlib.Core.List.{Sublist, sublist-append_left, append_assoc}
use firecracker_agent.Agent.Events.{VmEvent, Channel, EventStream, offer_all, subscribe, broadcast}
use firecracker_agent.Agent.Events.Buffers.{
  buffer_of, buffer_of-append, Gained, offer_all-Gained, Distinct-lookup,
}
use firecracker_agent.Agent.Watch.{Send}
use firecracker_agent.Agent.Watch.Session.{
  Watcher, Sessions, Doing, watcher_acts, Move, starts, acts, tells, move, play,
}
use firecracker_agent.Agent.Watch.Session.Safety.{active, IsServed, Served, put_back}
use firecracker_agent.Agent.Watch.Session.Serving.{AllFresh, move-Served}
use firecracker_agent.Agent.Watch.Session.Others.{Leaves, acts-Leaves}
use firecracker_agent.Agent.Watch.Session.Owed.{
  wanted, wanted-append, owed, owed_with, Owes, acts-Owes,
}

-- The events that are broadcast.
abbrev pub told : List Move → List VmEvent
told [] = []
told (tells e ∷ ms) = e ∷ told ms
told (_ ∷ ms) = told ms

-- The watcher at the place stands where it did, and what it is now owed is, in order, a part of what
-- it was owed and of the wanted events of `es`.
abbrev pub Follows : ℕ → Watcher → List VmEvent → List VmEvent → Option Sessions → Type 0
Follows n w old es none = Unit
Follows n w old es (some x) =
    (w' : Watcher) × (get_at n x.watchers ≡ some w')
    × (w'.vm_id ≡ w.vm_id)
    × Sublist (owed w' x.stream.channels) (old ++ wanted w.vm_id es)

owed_with-told :
    (w : Watcher) (b : List VmEvent) (e : VmEvent)
    → Sublist (owed_with w (b ++ (e ∷ []))) (owed_with w b ++ wanted w.vm_id (e ∷ []))
owed_with-told w b e = elim (Bool-cases (active w.stage)) [
  | inl a ↦
      rw
        (
          a,
          wanted-append w.vm_id b (e ∷ []),
          append_assoc w.sent (wanted w.vm_id b) (wanted w.vm_id (e ∷ [])),
        )
        (Sublist.refl _)
  | inr a ↦ rw a (sublist-append_left w.sent _)
]

-- A change of a buffer that is not the watcher's, or that it has left.
owed_same :
    (w : Watcher) (cs cs' : List Channel)
    → (active w.stage ≡ true → buffer_of w.channel cs' ≡ buffer_of w.channel cs)
    → owed w cs' ≡ owed w cs
owed_same w cs cs' k = elim (Bool-cases (active w.stage)) [
  | inl a ↦ ap (owed_with w) (k a)
  | inr a ↦ rw a refl
]

module _ (send : Send) (n : ℕ) (w : Watcher) (x : Sessions) (v : IsServed x)
    (at : get_at n x.watchers ≡ some w) where
  abbrev before : List VmEvent
  before = owed w x.stream.channels

  starts-Follows : (id vm_id : Bytes) → Follows n w before [] (move send (starts id vm_id) x)
  unfolding move subscribe
  starts-Follows id vm_id = (
    w,
    get_at-left n x.watchers _ at,
    refl,
    rw (buffer_of-append w.channel x.stream.channels) (sublist-append_left before []),
  )

  tells-Follows : (e : VmEvent) → Follows n w before (e ∷ []) (move send (tells e) x)
  unfolding move broadcast
  tells-Follows e =
      go (offer_all e x.stream.subscribers x.stream.channels)
        (offer_all-Gained e w.channel x.stream.subscribers x.stream.channels v.safe.distinct)
    where
      go :
          (o : Option (List Channel))
          → Gained e w.channel x.stream.channels o
          → Follows n w before
              (e ∷ [])
              (elim (elim o as (λ _. Option EventStream) [
                | none ↦ none
                | some channels ↦ some (record (x.stream) { channels = channels })
              ])
                as (λ _. Option Sessions) [
                  | none ↦ none
                  | some es ↦ some (record x { stream = es })
                ])
      go none g = tt
      go (some cs) (inl same) = (w, at, refl, rw same (sublist-append_left before _))
      go (some cs) (inr more) = (w, at, refl, rw more (owed_with-told w _ e))

  own-Follows :
      (a : Doing) → Follows n w before [] (put_back n x (watcher_acts send a w w.stage x.stream))
  own-Follows a =
      go (watcher_acts send a w w.stage x.stream) (acts-Owes send w x.stream a w.stage refl)
    where
      go :
          (o : Option (Watcher × EventStream))
          → Owes w before o
          → Follows n w before [] (put_back n x o)
      go none k = tt
      go (some (w', es)) k = (
        w',
        get_at-set_at_self n x.watchers w' at,
        k.0,
        Sublist.trans k.1 (sublist-append_left before []),
      )

  apart_channels :
      (k : ℕ) (u : Watcher)
      → get_at k x.watchers ≡ some u
      → n ≢ k
      → active w.stage ≡ true
      → active u.stage ≡ true
      → w.channel ≢ u.channel
  apart_channels k u there ne a b e = ne (
      v.apart n k at there a b (
        Distinct-lookup w.subscriber_id u.subscriber_id u.channel x.stream.subscribers
          v.safe.distinct ((v.held n at).0 a ∙ ap some e) ((v.held k there).0 b)))

  other-Follows :
      (a : Doing) (k : ℕ) (u : Watcher)
      → get_at k x.watchers ≡ some u
      → n ≢ k
      → Follows n w before [] (put_back k x (watcher_acts send a u u.stage x.stream))
  other-Follows a k u there ne = go (watcher_acts send a u u.stage x.stream) (λ alive.
      acts-Leaves send w.channel u x.stream a u.stage
        (λ l. apart_channels k u there ne alive (ap active l)))
    where
      go :
          (o : Option (Watcher × EventStream))
          → (active w.stage ≡ true → Leaves w.channel x.stream.channels o)
          → Follows n w before [] (put_back k x o)
      go none f = tt
      go (some (u', es)) f = (
        w,
        get_at-set_at_other n k x.watchers u' ne ∙ at,
        refl,
        rw (owed_same w x.stream.channels es.channels f) (sublist-append_left before []),
      )

  put_back-Follows :
      (k : ℕ) (o : Option (Watcher × EventStream))
      → Follows n w before [] (put_back k x o)
      → Follows n w before [] (elim o as (λ _. Option Sessions) [
        | none ↦ none
        | some (w', es) ↦ some (record { stream = es; watchers = set_at k w' x.watchers })
      ])
  put_back-Follows k none f = f
  put_back-Follows k (some (w', es)) f = f

  own-acts : (a : Doing) → Follows n w before [] (move send (acts n a) x)
  unfolding move
  own-acts a =
      rw (at, move) (put_back-Follows n (watcher_acts send a w w.stage x.stream) (own-Follows a))

  acts-Follows : (k : ℕ) (a : Doing) → Follows n w before [] (move send (acts k a) x)
  unfolding move
  acts-Follows k a = elim (Option-cases (get_at k x.watchers)) [
    | inl absent ↦ rw (absent, move) (w, at, refl, sublist-append_left before [])
    | inr (u, there) ↦ elim (ℕ_discrete n k) [
      | yes q ↦ subst (λ i. Follows n w before [] (move send (acts i a) x)) q (own-acts a)
      | no ne ↦
          rw (there, move)
            (put_back-Follows k (watcher_acts send a u u.stage x.stream)
              (other-Follows a k u there ne))
    ]
  ]

  move-Follows : (a : Move) → Follows n w before (told (a ∷ [])) (move send a x)
  move-Follows (starts id vm_id) = starts-Follows id vm_id
  move-Follows (acts k a) = acts-Follows k a
  move-Follows (tells e) = tells-Follows e

told-cons : (a : Move) (ms : List Move) → told (a ∷ ms) ≡ told (a ∷ []) ++ told ms
told-cons (starts id vm_id) ms = refl
told-cons (acts k a) ms = refl
told-cons (tells e) ms = refl

Follows-trans :
    (n : ℕ) (w w' : Watcher) (old now : List VmEvent) (es es' : List VmEvent) (o : Option Sessions)
    → w'.vm_id ≡ w.vm_id
    → Sublist now (old ++ wanted w.vm_id es)
    → Follows n w' now es' o
    → Follows n w old (es ++ es') o
Follows-trans n w w' old now es es' none e k f = tt
Follows-trans n w w' old now es es' (some x) e k (w'', at, same, sub) = (
  w'',
  at,
  same ∙ e,
  rw (wanted-append w.vm_id es es', sym (append_assoc old (wanted w.vm_id es) (wanted w.vm_id es')))
      (Sublist.trans sub (rw e (Sublist.append k (Sublist.refl (wanted w.vm_id es'))))),
)

pub play-Follows :
    (send : Send) (n : ℕ) (ms : List Move) (x : Sessions) (w : Watcher)
    → IsServed x
    → AllFresh send ms x
    → get_at n x.watchers ≡ some w
    → Follows n w (owed w x.stream.channels) (told ms) (play send ms x)
unfolding play
play-Follows send n [] x w v f at = (w, at, refl, sublist-append_left (owed w x.stream.channels) [])
play-Follows send n (a ∷ ms) x w v f at = rw (told-cons a ms) (
    go (move send a x) (move-Served send a x v f.0) f.1 (move-Follows send n w x v at a)
      (λ x' w'. play-Follows send n ms x' w'))
  where
    go :
        (o : Option Sessions)
        → Served o
        → elim o as (λ _. Type 0) [ none ↦ Unit | some x' ↦ AllFresh send ms x' ]
        → Follows n w (owed w x.stream.channels) (told (a ∷ [])) o
        → ((x' : Sessions) (w' : Watcher)
            → IsServed x'
            → AllFresh send ms x'
            → get_at n x'.watchers ≡ some w'
            → Follows n w' (owed w' x'.stream.channels) (told ms) (play send ms x'))
        → Follows n w
            (owed w x.stream.channels)
            (told (a ∷ []) ++ told ms)
            (elim o [ none ↦ none | some x' ↦ play send ms x' ])
    go none s g k rest = tt
    go (some x') s g (w', at', same, sub) rest =
        Follows-trans n w w' _ _ _ _ (play send ms x') same sub (rest x' w' s g at')
