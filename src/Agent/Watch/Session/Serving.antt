-- ===== src/Agent/Watch/Session/Serving.antt =====
-- Any sequence of moves of watchers and broadcasts, while no two watchers get the same id.
use firecracker_agent.Base.{
  ℕ, Bytes, ◌≡◌, sym, ◌∙◌, ap, inl, inr, refl, List, [], ◌∷◌, Option, none, some, arith, length,
  Option-cases,
}
use firecracker_agent.Base.Places.{get_at, set_at, get_at-append}
use firecracker_agent.Base.Dict.{lookup, lookup-insert}
use firecracker_agent.Agent.Events.{VmEvent, EventStream, subscribe, broadcast}
use firecracker_agent.Agent.Events.Subscribers.{subscribe-IsSafe}
use firecracker_agent.Agent.Events.Safety.{Told, broadcast-Told}
use firecracker_agent.Agent.Watch.{Send}
use firecracker_agent.Agent.Watch.Session.{
  looping, Watcher, Sessions, Doing, watcher_acts, Move, starts, acts, tells, move, play,
}
use firecracker_agent.Agent.Watch.Session.Safety.{IsServed, Served, put_back, acts-Served}

-- A new watcher's id, made of the time in nanoseconds, is that of no subscriber.
abbrev pub IsFresh : Move → Sessions → Type 0
IsFresh (starts id vm_id) x = lookup id x.stream.subscribers ≡ none
IsFresh _ x = Unit

-- Every new watcher has a fresh id when it starts.
abbrev pub AllFresh : Send → List Move → Sessions → Type 0
AllFresh send [] x = Unit
AllFresh send (a ∷ rest) x =
    IsFresh a x × elim (move send a x) [ none ↦ Unit | some x' ↦ AllFresh send rest x' ]

module _ (send : Send) where
  starts-Served :
      (id vm_id : Bytes) (x : Sessions)
      → IsServed x
      → lookup id x.stream.subscribers ≡ none
      → Served (move send (starts id vm_id) x)
  unfolding move subscribe
  starts-Served id vm_id x v fresh =
      let ch = length x.stream.channels in
      let d = x.stream.subscribers in
      let new : Watcher = record {
        subscriber_id = id;
        vm_id = vm_id;
        channel = ch;
        sent = [];
        stage = looping;
      } in
      record {
        safe = subscribe-IsSafe id x.stream v.safe;
        held = λ n {w} e. elim (get_at-append n x.watchers new w e) [
          | inl old ↦ (
            (λ a. ground (arith, lookup-insert w.subscriber_id id ch d, (v.held n old).0 a)),
            (v.held n old).1,
          )
          | inr (same, here) ↦
              rw same ((λ a. ground (arith, lookup-insert id id ch d)), λ e'. ground arith)
        ];
        apart = λ n m {w} {u} e f. elim (get_at-append n x.watchers new w e) [
          | inl old ↦ elim (get_at-append m x.watchers new u f) [
            | inl old' ↦ v.apart n m old old'
            | inr (same, here) ↦ λ p q s.
                absurd
                  (ground (arith, (v.held n old).0 p, ap (λ y. y.subscriber_id) same, s, fresh))
          ]
          | inr (same, here) ↦ elim (get_at-append m x.watchers new u f) [
            | inl old ↦ λ p q s.
                absurd
                  (ground (arith, (v.held m old).0 q, ap (λ y. y.subscriber_id) same, s, fresh))
            | inr (same', here') ↦ λ p q s. here ∙ sym here'
          ]
        ];
      }

  acts-move : (n : ℕ) (a : Doing) (x : Sessions) → IsServed x → Served (move send (acts n a) x)
  unfolding move
  acts-move n a x v = elim (Option-cases (get_at n x.watchers)) [
    | inl absent ↦ rw (absent, move) v
    | inr (w, at) ↦
        rw (at, move)
          (go w (watcher_acts send a w w.stage x.stream)
            (acts-Served send n w x v at a w.stage refl))
  ]
    where
      go :
          (w : Watcher) (o : Option (Watcher × EventStream))
          → Served (put_back n x o)
          → Served (elim o [
            | none ↦ none
            | some (w', es) ↦ some (record { stream = es; watchers = set_at n w' x.watchers })
          ])
      go w none s = s
      go w (some (w', es)) s = s

  tells-Served : (e : VmEvent) (x : Sessions) → IsServed x → Served (move send (tells e) x)
  unfolding move
  tells-Served e x v = go (broadcast e x.stream) (broadcast-Told e x.stream v.safe)
    where
      go :
          (o : Option EventStream)
          → Told x.stream o
          → Served (elim o [ none ↦ none | some es ↦ some (record x { stream = es }) ])
      go none s = s
      go (some es) (s, k) = record { safe = s; held = λ n e. rw k (v.held n e); apart = v.apart }

  pub move-Served : (a : Move) (x : Sessions) → IsServed x → IsFresh a x → Served (move send a x)
  move-Served (starts id vm_id) x v f = starts-Served id vm_id x v f
  move-Served (acts n a) x v f = acts-move n a x v
  move-Served (tells e) x v f = tells-Served e x v

  -- If the stream is safe, and each watcher that has not unsubscribed is subscribed under an id of its
  -- own, then so it is after any moves of watchers and broadcasts, in any order, in which every new
  -- watcher gets an id that is not subscribed: nothing panics, and no watcher gets nil from its channel.
  pub play-Served :
      (ms : List Move) (x : Sessions) → IsServed x → AllFresh send ms x → Served (play send ms x)
  unfolding play
  play-Served [] x v f = v
  play-Served (a ∷ rest) x v f =
      go (move send a x) (move-Served a x v f.0) f.1 (λ x' w g. play-Served rest x' w g)
    where
      go :
          (o : Option Sessions)
          → Served o
          → elim o as (λ _. Type 0) [ none ↦ Unit | some x' ↦ AllFresh send rest x' ]
          → ((x' : Sessions) → IsServed x' → AllFresh send rest x' → Served (play send rest x'))
          → Served (elim o [ none ↦ none | some x' ↦ play send rest x' ])
      go none s f later = s
      go (some x') s f later = later x' s f
