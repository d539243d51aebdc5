-- ===== src/Agent/Events/Channels.antt =====
-- Writes to one channel: which channels stay open, and how full they get.
use firecracker_agent.Base.{
  Bool-cases, inl, inr, ℕ, zero, suc, ◌≤◌, ◌<◌, Bool, true, false, not, ◌≡◌, ◌≢◌, refl, ap, List,
  [], ◌∷◌, ◌++◌, Option, none, some, arith, length, length-append, ltb, if◌then◌else◌,
}
use firecracker_agent.Agent.Events.{VmEvent, Channel, capacity, fresh, update, close, offer}

-- There is a channel at the place, and it is open.
abbrev pub is_open : ℕ → List Channel → Bool
is_open n [] = false
is_open zero (c ∷ cs) = not c.closed
is_open (suc n) (c ∷ cs) = is_open n cs

-- No buffer holds more than the capacity.
abbrev pub AllBounded : List Channel → Type 0
AllBounded [] = Unit
AllBounded (c ∷ cs) = (length c.buffer ≤ capacity) × AllBounded cs

pub is_open-lt : (n : ℕ) (cs : List Channel) → is_open n cs ≡ true → n < length cs
is_open-lt n [] p = ground arith
is_open-lt zero (c ∷ cs) p = omega arith
is_open-lt (suc n) (c ∷ cs) p = omega (arith, is_open-lt n cs p)

pub is_open-append :
    (n : ℕ) (cs : List Channel) → is_open n cs ≡ true → is_open n (cs ++ (fresh ∷ [])) ≡ true
is_open-append n [] p = ground arith
is_open-append zero (c ∷ cs) p = p
is_open-append (suc n) (c ∷ cs) p = is_open-append n cs p

pub is_open-fresh : (cs : List Channel) → is_open (length cs) (cs ++ (fresh ∷ [])) ≡ true
is_open-fresh [] = refl
is_open-fresh (c ∷ cs) = is_open-fresh cs

pub AllBounded-append : (cs : List Channel) → AllBounded cs → AllBounded (cs ++ (fresh ∷ []))
AllBounded-append [] b = (omega arith, tt)
AllBounded-append (c ∷ cs) b = (b.0, AllBounded-append cs b.1)

-- The outcome of a send to an open channel: no panic, the same channels open, the bound kept.
abbrev pub Sent : List Channel → Option (List Channel) → Type 0
Sent cs none = ⊥
Sent cs (some cs') = ((m : ℕ) → is_open m cs' ≡ is_open m cs) × (AllBounded cs → AllBounded cs')

offer_open :
    (e : VmEvent) (c : Channel)
    → c.closed ≡ false
    → (c' : Channel) × (offer e c ≡ some c')
      × (c'.closed ≡ false)
      × (length c.buffer ≤ capacity → length c'.buffer ≤ capacity)
offer_open e c p = elim (Bool-cases (ltb (length c.buffer) capacity)) [
  | inl room ↦ (
    record c { buffer = c.buffer ++ (e ∷ []) },
    ground arith,
    p,
    λ b. ground (arith, length-append c.buffer (e ∷ [])),
  )
  | inr full ↦ (c, ground arith, p, λ b. b)
]

-- A channel is replaced by one that is open and bounded as it was.
replaced :
    (c : Channel) (cs : List Channel) (o : Option Channel)
    → not c.closed ≡ true
    → ((c' : Channel) × (o ≡ some c')
        × (c'.closed ≡ false)
        × (length c.buffer ≤ capacity → length c'.buffer ≤ capacity))
    → Sent (c ∷ cs) (elim o [ none ↦ none | some c' ↦ some (c' ∷ cs) ])
replaced c cs none p (c', e, q, b) = ground arith
replaced c cs (some x) p (c', e, q, b) =
    (elim [ zero ↦ ground arith | suc m ↦ refl ], λ old. (ground arith, old.1))

pub update-offer :
    (e : VmEvent) (n : ℕ) (cs : List Channel)
    → is_open n cs ≡ true
    → Sent cs (update n (offer e) cs)
unfolding update
update-offer e n [] p = ground arith
update-offer e zero (c ∷ cs) p = replaced c cs (offer e c) p (offer_open e c (ground arith))
update-offer e (suc n) (c ∷ cs) p = later (update n (offer e) cs) (update-offer e n cs p)
  where
    later :
        (o : Option (List Channel))
        → Sent cs o
        → Sent (c ∷ cs) (elim o [ none ↦ none | some cs' ↦ some (c ∷ cs') ])
    later none s = s
    later (some cs') s = (elim [ zero ↦ refl | suc m ↦ s.0 m ], λ b. (b.0, s.1 b.1))

-- The outcome of closing the open channel `n`: no panic, and the other channels as they were.
abbrev pub Closed : ℕ → List Channel → Option (List Channel) → Type 0
Closed n cs none = ⊥
Closed n cs (some cs') =
    ((m : ℕ) → m ≢ n → is_open m cs' ≡ is_open m cs) × (AllBounded cs → AllBounded cs')

pub update-close :
    (n : ℕ) (cs : List Channel) → is_open n cs ≡ true → Closed n cs (update n close cs)
unfolding update
update-close n [] p = ground arith
update-close zero (c ∷ cs) p = shut c.closed p
  where
    shut :
        (b : Bool)
        → not b ≡ true
        → Closed zero (c ∷ cs) (elim (if b then none else some (record c { closed = true })) [
          | none ↦ none
          | some c' ↦ some (c' ∷ cs)
        ])
    shut true q = ground arith
    shut false q = (elim [ zero ↦ λ d. absurd (d refl) | suc m ↦ λ d. refl ], λ b. b)
update-close (suc n) (c ∷ cs) p = later (update n close cs) (update-close n cs p)
  where
    later :
        (o : Option (List Channel))
        → Closed n cs o
        → Closed (suc n) (c ∷ cs) (elim o [ none ↦ none | some cs' ↦ some (c ∷ cs') ])
    later none s = s
    later (some cs') s =
        (elim [ zero ↦ λ d. refl | suc m ↦ λ d. s.0 m (λ x. d (ap suc x)) ], λ b. (b.0, s.1 b.1))
