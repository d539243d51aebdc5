-- ===== src/Agent/Events.antt =====
-- `EventStream` of `internal/agent/server.go`. A Go channel is a reference: the map holds places in
-- a list of channels, which only grows. `none` is a panic.
pub mod Channels
pub mod Subscribers
pub mod Safety
pub mod Buffers
use firecracker_agent.Base.{
  ℕ, zero, suc, Bytes, Bool, true, false, List, [], ◌∷◌, ◌++◌, Option, none, some, length, ltb,
  if◌then◌else◌,
}
use firecracker_agent.Base.Dict.{Dict, lookup, insert, erase}
use firecracker_agent.Firecracker.State.{VmState}

pub data EventType : Type 0 where
  unspecified created started stopped deleted error : EventType

pub record VmEvent : Type 0 where
  pub vm_id : Bytes
  pub state : VmState
  pub message : Bytes
  pub timestamp : ℕ
  pub type : EventType

-- A buffered channel; the oldest event stands first.
pub record Channel : Type 0 where
  pub buffer : List VmEvent
  pub closed : Bool

pub record EventStream : Type 0 where
  pub subscribers : Dict ℕ
  pub channels : List Channel

abbrev pub capacity : ℕ
capacity = 100

unfoldable pub new_event_stream : EventStream
new_event_stream = record { subscribers = []; channels = [] }

-- `make(chan *pb.VMEvent, 100)`
abbrev pub fresh : Channel
fresh = record { buffer = []; closed = false }

unfoldable pub subscribe : Bytes → EventStream → ℕ × EventStream
subscribe id es = (
  length es.channels,
  record {
    subscribers = insert id (length es.channels) es.subscribers;
    channels = es.channels ++ (fresh ∷ []);
  },
)

-- A write to the channel at a place.
unfoldable pub update : ℕ → (Channel → Option Channel) → List Channel → Option (List Channel)
update n f [] = none
update zero f (c ∷ cs) = elim (f c) [ none ↦ none | some c' ↦ some (c' ∷ cs) ]
update (suc n) f (c ∷ cs) = elim (update n f cs) [ none ↦ none | some cs' ↦ some (c ∷ cs') ]

-- `close(ch)`, which panics on a closed channel.
abbrev pub close : Channel → Option Channel
close c = if c.closed then none else some (record c { closed = true })

-- `select { case ch <- event: default: }`: a send on a closed channel panics, and a full one drops.
abbrev pub offer : VmEvent → Channel → Option Channel
offer e c =
    if c.closed
    then none
    else if ltb (length c.buffer) capacity
    then some (record c { buffer = c.buffer ++ (e ∷ []) })
    else some c

unfoldable pub unsubscribe : Bytes → EventStream → Option EventStream
unsubscribe id es = elim (lookup id es.subscribers) [
  | none ↦ some es
  | some ch ↦ elim (update ch close es.channels) [
    | none ↦ none
    | some channels ↦ some (record { subscribers = erase id es.subscribers; channels = channels })
  ]
]

-- The loop of `Broadcast`.
unfoldable pub offer_all : VmEvent → Dict ℕ → List Channel → Option (List Channel)
offer_all e [] channels = some channels
offer_all e ((_, ch) ∷ rest) channels = elim (update ch (offer e) channels) [
  | none ↦ none
  | some channels' ↦ offer_all e rest channels'
]

unfoldable pub broadcast : VmEvent → EventStream → Option EventStream
broadcast e es = elim (offer_all e es.subscribers es.channels) [
  | none ↦ none
  | some channels ↦ some (record es { channels = channels })
]

-- `<-ch`: an event, nil from a closed and empty channel, or no progress.
pub data Received : Type 0 where
  event : VmEvent → Received
  closed_nil : Received
  blocked : Received

abbrev pub first : Channel → Received × Channel
first c = elim c.buffer [
  | [] ↦ (if c.closed then closed_nil else blocked, c)
  | e ∷ rest ↦ (event e, record c { buffer = rest })
]

unfoldable pub receive : ℕ → List Channel → Received × List Channel
receive n [] = (blocked, [])
receive zero (c ∷ cs) = let (r, c') = first c in (r, c' ∷ cs)
receive (suc n) (c ∷ cs) = let (r, cs') = receive n cs in (r, c ∷ cs')
