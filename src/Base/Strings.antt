-- ===== src/Base/Strings.antt =====
-- Go strings: sequences of bytes. Literals are ASCII, so their code points are their bytes.
use Prim.Native.Nat.{ℕ, zero, suc, ◌+◌, ◌/◌, ◌%◌}
use Prim.Native.Char.{code}
use Prim.Native.String.{String}
use mathlib.Core.Logic.{ite}
use mathlib.Core.Bool.{Bool, true, false, ◌||◌}
use mathlib.Core.List.{List, [], ◌∷◌}
use native.Mathlib.Decide.{ℕ_discrete}
use firecracker_agent.Base.Tests.{ltb, if◌then◌else◌}

abbrev pub Bytes : Type 0
Bytes = List ℕ

-- A string literal of the source.
unfoldable pub text : String → Bytes
text String.[] = []
text (String.◌∷◌ c s) = code c ∷ text s

unfoldable pub bytes_dec : Discrete Bytes
unfolding ℕ_discrete
bytes_dec = hlevel ℕ_discrete

-- `==` on strings. The decision stays shut, and a split on it yields the equation.
infix 50 ◌==◌
abbrev pub ◌==◌ : Bytes → Bytes → Bool
a == b = ite (bytes_dec a b) true false

abbrev pub is_empty : Bytes → Bool
is_empty [] = true
is_empty (_ ∷ _) = false

abbrev pub or_default : Bytes → Bytes → Bytes
or_default s d = if is_empty s then d else s

-- `strings.HasPrefix`
unfoldable pub has_prefix : Bytes → Bytes → Bool
has_prefix s [] = true
has_prefix [] (_ ∷ _) = false
has_prefix (c ∷ s) (d ∷ p) = let rest = has_prefix s p in ite (ℕ_discrete c d) rest false

-- `strings.Contains`
unfoldable pub contains_text : Bytes → Bytes → Bool
unfolding has_prefix
contains_text [] p = has_prefix [] p
contains_text (c ∷ s) p = has_prefix (c ∷ s) p || contains_text s p

-- `%d` of a natural number: the digits of `n` before `acc`. The fuel `suc n` is enough, as each
-- round divides by ten.
unfoldable pub decimal_onto : ℕ → ℕ → Bytes → Bytes
decimal_onto zero n acc = acc
decimal_onto (suc fuel) n acc =
    let digits = (48 + n % 10) ∷ acc in
    let more = decimal_onto fuel (n / 10) digits in if ltb n 10 then digits else more

unfoldable pub decimal : ℕ → Bytes
unfolding decimal_onto
decimal n = decimal_onto (suc n) n []

-- One digit of `%x`.
abbrev pub hex_digit : ℕ → ℕ
hex_digit d = if ltb d 10 then 48 + d else 87 + d

-- `%02x` of a byte.
unfoldable pub hex_byte : ℕ → Bytes
hex_byte b = hex_digit (b / 16) ∷ hex_digit (b % 16) ∷ []
