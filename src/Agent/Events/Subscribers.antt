-- ===== src/Agent/Events/Subscribers.antt =====
-- The map of subscribers of `EventStream`: the channels it refers to.
use firecracker_agent.Base.{
  ℕ, Bytes, true, ◌≡◌, ◌≢◌, sym, ◌∙◌, List, [], ◌∷◌, Option, none, some, arith, length,
}
use firecracker_agent.Base.Dict.{Dict, lookup, insert, erase}
use firecracker_agent.Agent.Events.{Channel, EventStream, new_event_stream, subscribe}
use firecracker_agent.Agent.Events.Channels.{
  is_open, AllBounded, is_open-lt, is_open-append, is_open-fresh, AllBounded-append,
}

abbrev pub AllOpen : Dict ℕ → List Channel → Type 0
AllOpen [] cs = Unit
AllOpen ((_, ch) ∷ d) cs = (is_open ch cs ≡ true) × AllOpen d cs

-- No entry refers to the channel.
abbrev pub Without : ℕ → Dict ℕ → Type 0
Without ch [] = Unit
Without ch ((_, w) ∷ d) = (w ≢ ch) × Without ch d

abbrev pub Distinct : Dict ℕ → Type 0
Distinct [] = Unit
Distinct ((_, ch) ∷ d) = Without ch d × Distinct d

-- Every subscriber has an open channel of its own, and no buffer holds more than 100 events.
pub record IsSafe (es : EventStream) : Type 0 where
  pub opened : AllOpen es.subscribers es.channels
  pub distinct : Distinct es.subscribers
  pub bounded : AllBounded es.channels

-- No panic, and safe again.
abbrev pub Safe : Option EventStream → Type 0
Safe none = ⊥
Safe (some es) = IsSafe es

-- Channels that stay open for the entries keep the entries open.
pub AllOpen-map :
    (d : Dict ℕ) (cs cs' : List Channel)
    → ((m : ℕ) → is_open m cs ≡ true → is_open m cs' ≡ true)
    → AllOpen d cs
    → AllOpen d cs'
AllOpen-map [] cs cs' f p = tt
AllOpen-map ((_, ch) ∷ d) cs cs' f p = (f ch p.0, AllOpen-map d cs cs' f p.1)

pub AllOpen-insert :
    (id : Bytes) (n : ℕ) (d : Dict ℕ) (cs : List Channel)
    → is_open n cs ≡ true
    → AllOpen d cs
    → AllOpen (insert id n d) cs
unfolding insert
AllOpen-insert id n [] cs o p = (o, tt)
AllOpen-insert id n ((j, w) ∷ d) cs o p = ground (arith, AllOpen-insert id n d cs o p.1)

pub Without-fresh : (d : Dict ℕ) (cs : List Channel) → AllOpen d cs → Without (length cs) d
Without-fresh [] cs p = tt
Without-fresh ((_, ch) ∷ d) cs p =
    ((λ e. absurd (omega (arith, is_open-lt ch cs p.0))), Without-fresh d cs p.1)

pub Without-insert :
    (ch : ℕ) (id : Bytes) (n : ℕ) (d : Dict ℕ) → n ≢ ch → Without ch d → Without ch (insert id n d)
unfolding insert
Without-insert ch id n [] ne p = (ne, tt)
Without-insert ch id n ((j, w) ∷ d) ne p = ground (arith, Without-insert ch id n d ne p.1)

pub Distinct-insert :
    (id : Bytes) (n : ℕ) (d : Dict ℕ) → Without n d → Distinct d → Distinct (insert id n d)
unfolding insert
Distinct-insert id n [] p q = (tt, tt)
Distinct-insert id n ((j, w) ∷ d) p q =
    ground (arith, Distinct-insert id n d p.1 q.1, Without-insert w id n d (λ e. p.0 (sym e)) q.0)

pub Without-erase : (ch : ℕ) (id : Bytes) (d : Dict ℕ) → Without ch d → Without ch (erase id d)
unfolding erase
Without-erase ch id [] p = tt
Without-erase ch id ((j, w) ∷ d) p = ground (arith, Without-erase ch id d p.1)

pub Distinct-erase : (id : Bytes) (d : Dict ℕ) → Distinct d → Distinct (erase id d)
unfolding erase
Distinct-erase id [] p = tt
Distinct-erase id ((j, w) ∷ d) p = ground (arith, Distinct-erase id d p.1, Without-erase w id d p.0)

pub Without-lookup :
    (ch w : ℕ) (id : Bytes) (d : Dict ℕ) → Without w d → lookup id d ≡ some ch → w ≢ ch
unfolding lookup
Without-lookup ch w id [] p e = ground arith
Without-lookup ch w id ((j, v) ∷ d) p e = ground (arith, Without-lookup ch w id d p.1)

-- The entry that goes was the only one of its channel.
pub Without-erase_self :
    (ch : ℕ) (id : Bytes) (d : Dict ℕ)
    → Distinct d
    → lookup id d ≡ some ch
    → Without ch (erase id d)
unfolding erase lookup
Without-erase_self ch id [] p e = tt
Without-erase_self ch id ((j, w) ∷ d) p e =
    ground
      (arith, Without-erase_self ch id d p.1, Without-erase ch id d, Without-lookup ch w id d p.0)

pub AllOpen-erase :
    (id : Bytes) (d : Dict ℕ) (cs : List Channel) → AllOpen d cs → AllOpen (erase id d) cs
unfolding erase
AllOpen-erase id [] cs p = tt
AllOpen-erase id ((j, w) ∷ d) cs p = ground (arith, AllOpen-erase id d cs p.1)

pub AllOpen-lookup :
    (id : Bytes) (d : Dict ℕ) (cs : List Channel) {ch : ℕ}
    → AllOpen d cs
    → lookup id d ≡ some ch
    → is_open ch cs ≡ true
unfolding lookup
AllOpen-lookup id [] cs p e = ground arith
AllOpen-lookup id ((j, w) ∷ d) cs {ch} p e = ground (arith, AllOpen-lookup id d cs {ch = ch} p.1)

-- Entries of other channels stay open when one is closed.
pub AllOpen-closed :
    (ch : ℕ) (d : Dict ℕ) (cs cs' : List Channel)
    → ((m : ℕ) → m ≢ ch → is_open m cs' ≡ is_open m cs)
    → Without ch d
    → AllOpen d cs
    → AllOpen d cs'
AllOpen-closed ch [] cs cs' f w p = tt
AllOpen-closed ch ((_, v) ∷ d) cs cs' f w p = (f v w.0 ∙ p.0, AllOpen-closed ch d cs cs' f w.1 p.1)

pub new_event_stream-IsSafe : IsSafe new_event_stream
unfolding new_event_stream
new_event_stream-IsSafe = record { opened = tt; distinct = tt; bounded = tt }

pub subscribe-IsSafe : (id : Bytes) (es : EventStream) → IsSafe es → IsSafe (subscribe id es).1
unfolding subscribe
subscribe-IsSafe id es v = record {
  opened =
      AllOpen-insert id _ es.subscribers _ (is_open-fresh es.channels)
        (AllOpen-map es.subscribers es.channels _ (λ m. is_open-append m es.channels) v.opened);
  distinct =
      Distinct-insert id _ es.subscribers (Without-fresh es.subscribers es.channels v.opened)
        v.distinct;
  bounded = AllBounded-append es.channels v.bounded;
}
