-- ===== src/Base/Actions.antt =====
-- Fallible code over a state. An `error` is its text; the state comes back after an error too.
use mathlib.Core.List.{◌++◌}
use firecracker_agent.Base.Strings.{Bytes}

pub data Result (A : Type 0) : Type 0 where
  ok : A → Result A
  err : Bytes → Result A

abbrev pub Act : Type 0 → Type 0 → Type 0
Act S A = S → Result A × S

abbrev pub ⊤ : Type 0
⊤ = Unit

module _ {S : Type 0} where
  abbrev pub pure : {A : Type 0} → A → Act S A
  pure a s = (ok a, s)

  abbrev pub fail : {A : Type 0} → Bytes → Act S A
  fail e s = (err e, s)

  infixl 5 ◌>>=◌ ◌>>◌
  abbrev pub ◌>>=◌ : {A B : Type 0} → Act S A → (A → Act S B) → Act S B
  ◌>>=◌ m f s = let (r, s') = m s in elim r [ ok a ↦ f a s' | err e ↦ (err e, s') ]

  abbrev pub ◌>>◌ : {A B : Type 0} → Act S A → Act S B → Act S B
  m >> k = m >>= λ _. k

  -- `fmt.Errorf("<prefix>%w", err)` on failure.
  abbrev pub wrap : {A : Type 0} → Bytes → Act S A → Act S A
  wrap prefix m s =
      let (r, s') = m s in elim r [ ok a ↦ (ok a, s') | err e ↦ (err (prefix ++ e), s') ]

  -- A step that cannot fail.
  abbrev pub sure : {A : Type 0} → (S → A × S) → Act S A
  sure m s = let (a, s') = m s in (ok a, s')

  -- The error is dropped, or only logged.
  abbrev pub ignore : {A : Type 0} → Act S A → Act S ⊤
  ignore m s = let (r, s') = m s in (ok tt, s')
