-- ===== src/Agent/Events/Buffers.antt =====
-- What is in the buffers of the channels, after a write or a receive.
use firecracker_agent.Base.{
  ℕ, zero, suc, Bytes, ◌≡◌, ◌≢◌, ◌⊎◌, inl, refl, sym, ◌∙◌, List, [], ◌∷◌, ◌++◌, Option, none, some,
  arith, length, ℕ_discrete,
}
use firecracker_agent.Base.Dict.{Dict, lookup}
use firecracker_agent.Agent.Events.{
  VmEvent, Channel, fresh, update, close, offer, offer_all, Received, event, closed_nil, blocked,
  receive,
}
use firecracker_agent.Agent.Events.Subscribers.{Without, Distinct, Without-lookup}

abbrev pub buffer_of : ℕ → List Channel → List VmEvent
buffer_of n [] = []
buffer_of zero (c ∷ cs) = c.buffer
buffer_of (suc n) (c ∷ cs) = buffer_of n cs

pub buffer_of-append :
    (n : ℕ) (cs : List Channel) → buffer_of n (cs ++ (fresh ∷ [])) ≡ buffer_of n cs
buffer_of-append zero [] = refl
buffer_of-append (suc n) [] = refl
buffer_of-append zero (c ∷ cs) = refl
buffer_of-append (suc n) (c ∷ cs) = buffer_of-append n cs

pub buffer_of-length : (cs : List Channel) → buffer_of (length cs) (cs ++ (fresh ∷ [])) ≡ []
buffer_of-length [] = refl
buffer_of-length (c ∷ cs) = buffer_of-length cs

-- No panic changes the buffer at `m`.
abbrev pub Kept : ℕ → List Channel → Option (List Channel) → Type 0
Kept m cs none = Unit
Kept m cs (some cs') = buffer_of m cs' ≡ buffer_of m cs

-- It is as it was, or has gained the event at its end.
abbrev pub Gained : VmEvent → ℕ → List Channel → Option (List Channel) → Type 0
Gained e m cs none = Unit
Gained e m cs (some cs') =
    (buffer_of m cs' ≡ buffer_of m cs) ⊎ (buffer_of m cs' ≡ buffer_of m cs ++ (e ∷ []))

-- A write to another place.
update-Kept :
    (m n : ℕ) (f : Channel → Option Channel) (cs : List Channel) → m ≢ n → Kept m cs (update n f cs)
unfolding update
update-Kept m n f [] ne = tt
update-Kept zero zero f (c ∷ cs) ne = absurd (ne refl)
update-Kept (suc m) zero f (c ∷ cs) ne = ground arith
update-Kept zero (suc n) f (c ∷ cs) ne = ground arith
update-Kept (suc m) (suc n) f (c ∷ cs) ne =
    ground (arith, update-Kept m n f cs (λ e. ne (omega (arith, e))))

close_self-Kept : (n : ℕ) (cs : List Channel) → Kept n cs (update n close cs)
unfolding update
close_self-Kept n [] = tt
close_self-Kept zero (c ∷ cs) = ground arith
close_self-Kept (suc n) (c ∷ cs) = ground (arith, close_self-Kept n cs)

pub close-Kept : (m n : ℕ) (cs : List Channel) → Kept m cs (update n close cs)
close-Kept m n cs = elim (ℕ_discrete m n) [
  | yes e ↦ rw e (close_self-Kept n cs)
  | no ne ↦ update-Kept m n close cs ne
]

offer-Gained : (e : VmEvent) (n : ℕ) (cs : List Channel) → Gained e n cs (update n (offer e) cs)
unfolding update
offer-Gained e n [] = tt
offer-Gained e zero (c ∷ cs) = ground arith
offer-Gained e (suc n) (c ∷ cs) = ground (arith, offer-Gained e n cs)

-- A channel to which no entry refers.
offer_all-Kept :
    (e : VmEvent) (m : ℕ) (d : Dict ℕ) (cs : List Channel)
    → Without m d
    → Kept m cs (offer_all e d cs)
unfolding offer_all
offer_all-Kept e m [] cs w = refl
offer_all-Kept e m ((_, ch) ∷ d) cs w =
    go (update ch (offer e) cs) (update-Kept m ch (offer e) cs (λ q. w.0 (sym q)))
      (λ cs'. offer_all-Kept e m d cs' w.1)
  where
    next :
        (cs' : List Channel)
        → buffer_of m cs' ≡ buffer_of m cs
        → (o : Option (List Channel)) → Kept m cs' o
        → Kept m cs o
    next cs' k none t = t
    next cs' k (some cs'') t = t ∙ k

    go :
        (o : Option (List Channel))
        → Kept m cs o
        → ((cs' : List Channel) → Kept m cs' (offer_all e d cs'))
        → Kept m cs (elim o [ none ↦ none | some cs' ↦ offer_all e d cs' ])
    go none k rest = k
    go (some cs') k rest = next cs' k (offer_all e d cs') (rest cs')

pub offer_all-Gained :
    (e : VmEvent) (m : ℕ) (d : Dict ℕ) (cs : List Channel)
    → Distinct d
    → Gained e m cs (offer_all e d cs)
unfolding offer_all
offer_all-Gained e m [] cs w = inl refl
offer_all-Gained e m ((_, ch) ∷ d) cs w = elim (ℕ_discrete m ch) [
  | yes q ↦
      first (update ch (offer e) cs) (rw q (offer-Gained e ch cs))
        (λ cs'. offer_all-Kept e m d cs' (rw q w.0))
  | no ne ↦
      other (update ch (offer e) cs) (update-Kept m ch (offer e) cs ne)
        (λ cs'. offer_all-Gained e m d cs' w.1)
]
  where
    kept :
        (cs' : List Channel)
        → (buffer_of m cs' ≡ buffer_of m cs) ⊎ (buffer_of m cs' ≡ buffer_of m cs ++ (e ∷ []))
        → (o : Option (List Channel)) → Kept m cs' o
        → Gained e m cs o
    kept cs' g none t = t
    kept cs' g (some cs'') t = ground arith

    first :
        (o : Option (List Channel))
        → Gained e m cs o
        → ((cs' : List Channel) → Kept m cs' (offer_all e d cs'))
        → Gained e m cs (elim o [ none ↦ none | some cs' ↦ offer_all e d cs' ])
    first none g rest = g
    first (some cs') g rest = kept cs' g (offer_all e d cs') (rest cs')

    gains :
        (cs' : List Channel)
        → buffer_of m cs' ≡ buffer_of m cs
        → (o : Option (List Channel)) → Gained e m cs' o
        → Gained e m cs o
    gains cs' k none t = t
    gains cs' k (some cs'') t = ground arith

    other :
        (o : Option (List Channel))
        → Kept m cs o
        → ((cs' : List Channel) → Gained e m cs' (offer_all e d cs'))
        → Gained e m cs (elim o [ none ↦ none | some cs' ↦ offer_all e d cs' ])
    other none k rest = k
    other (some cs') k rest = gains cs' k (offer_all e d cs') (rest cs')

pub receive-other :
    (m n : ℕ) (cs : List Channel) → m ≢ n → buffer_of m (receive n cs).1 ≡ buffer_of m cs
unfolding receive
receive-other m n [] ne = ground arith
receive-other zero zero (c ∷ cs) ne = absurd (ne refl)
receive-other (suc m) zero (c ∷ cs) ne = ground arith
receive-other zero (suc n) (c ∷ cs) ne = ground arith
receive-other (suc m) (suc n) (c ∷ cs) ne = receive-other m n cs (λ e. ne (omega (arith, e)))

-- The buffer that was, from what was received and the buffer that is left.
abbrev pub ahead : Received → List VmEvent → List VmEvent
ahead (event e) rest = e ∷ rest
ahead closed_nil rest = rest
ahead blocked rest = rest

pub receive-ahead :
    (n : ℕ) (cs : List Channel)
    → ahead (receive n cs).0 (buffer_of n (receive n cs).1) ≡ buffer_of n cs
unfolding receive
receive-ahead n [] = ground arith
receive-ahead zero (c ∷ cs) = ground arith
receive-ahead (suc n) (c ∷ cs) = receive-ahead n cs

-- Two ids never share a channel.
pub Distinct-lookup :
    (i j : Bytes) (c : ℕ) (d : Dict ℕ)
    → Distinct d
    → lookup i d ≡ some c
    → lookup j d ≡ some c
    → i ≡ j
unfolding lookup
Distinct-lookup i j c [] p e f = ground arith
Distinct-lookup i j c ((k, w) ∷ d) p e f =
    ground
      (arith, Distinct-lookup i j c d p.1, Without-lookup c w i d p.0, Without-lookup c w j d p.0)
