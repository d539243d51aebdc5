-- ===== src/Network/Mac.antt =====
-- The MAC addresses that `GenerateMAC` makes.
use firecracker_agent.Base.{
  ℕ, zero, suc, ◌*◌, ◌≡◌, refl, ap, ◌∙◌, Bytes, [], ◌∷◌, ◌++◌, Option, some, arith, text, length,
  hex_byte, bit_xor,
}
use mathlib.Core.List.{append-nil}
use firecracker_agent.Base.Places.{get_at}
use firecracker_agent.Network.{mac_octets, generate_mac}

-- A colon, and the XOR of two bytes in hexadecimal digits, or `00` if one of them is missing.
abbrev octet_of : Option ℕ → Option ℕ → Bytes
octet_of (some a) (some b) = 58 ∷ hex_byte (bit_xor a b)
octet_of _ _ = text ":00"

-- The octet of the bytes `2 * i` and `2 * i + 1` of an id.
abbrev pub octet : ℕ → Bytes → Bytes
octet i s = octet_of (get_at (2 * i) s) (get_at (suc (2 * i)) s)

-- The next `n` octets, from the octet `i` on.
abbrev octets : ℕ → ℕ → Bytes → Bytes
octets zero i s = []
octets (suc n) i s = octet i s ++ octets n (suc i) s

double : (n : ℕ) → 2 * suc n ≡ suc (suc (2 * n))
double n = omega arith

octet-cons : (i : ℕ) (a b : ℕ) (s : Bytes) → octet (suc i) (a ∷ (b ∷ s)) ≡ octet i s
unfolding get_at
octet-cons i a b s =
    ap (λ k. octet_of (get_at k (a ∷ (b ∷ s))) (get_at (suc k) (a ∷ (b ∷ s)))) (double i)

octets-cons : (n i : ℕ) (a b : ℕ) (s : Bytes) → octets n (suc i) (a ∷ (b ∷ s)) ≡ octets n i s
octets-cons zero i a b s = refl
octets-cons (suc n) i a b s = rw (octet-cons i a b s, octets-cons n (suc i) a b s) refl

octet_missing : (i : ℕ) (a : ℕ) → octet (suc i) (a ∷ []) ≡ text ":00"
unfolding get_at
octet_missing i a = ap (λ k. octet_of (get_at k (a ∷ [])) (get_at (suc k) (a ∷ []))) (double i)

mac_octets_none : (n i : ℕ) → mac_octets n [] ≡ octets n i []
unfolding mac_octets get_at
mac_octets_none zero i = refl
mac_octets_none (suc n) i = ap (λ r. text ":00" ++ r) (mac_octets_none n (suc i))

mac_octets_one : (n i a : ℕ) → mac_octets n [] ≡ octets n (suc i) (a ∷ [])
unfolding mac_octets
mac_octets_one zero i a = refl
mac_octets_one (suc n) i a =
    rw (octet_missing i a) (ap (λ r. text ":00" ++ r) (mac_octets_one n (suc i) a))

mac_octets-octets : (n : ℕ) (s : Bytes) → mac_octets n s ≡ octets n 0 s
unfolding mac_octets get_at
mac_octets-octets zero s = refl
mac_octets-octets (suc n) [] = ap (λ r. text ":00" ++ r) (mac_octets_none n 1)
mac_octets-octets (suc n) (a ∷ []) = ap (λ r. text ":00" ++ r) (mac_octets_one n 0 a)
mac_octets-octets (suc n) (a ∷ (b ∷ s)) =
    rw (octets-cons n 0 a b s)
      (ap (λ r. 58 ∷ (hex_byte (bit_xor a b) ++ r)) (mac_octets-octets n s))

length-mac_octets : (n : ℕ) (s : Bytes) → length (mac_octets n s) ≡ 3 * n
unfolding mac_octets text hex_byte
length-mac_octets zero s = refl
length-mac_octets (suc n) [] = omega (arith, length-mac_octets n [])
length-mac_octets (suc n) (a ∷ []) = omega (arith, length-mac_octets n [])
length-mac_octets (suc n) (a ∷ (b ∷ s)) = omega (arith, length-mac_octets n s)

-- Every address has 17 bytes: `02:FC`, and four octets, the octet `i` being the XOR of the bytes
-- `2 * i` and `2 * i + 1` of the id in hexadecimal digits, or `00` if the id is too short.
pub generate_mac_octets :
    (s : Bytes)
    → (length (generate_mac s) ≡ 17)
      × (generate_mac s ≡ text "02:FC" ++ (octet 0 s ++ (octet 1 s ++ (octet 2 s ++ octet 3 s))))
unfolding generate_mac text
generate_mac_octets s = (
  omega (arith, length-mac_octets 4 s),
  ap (λ r. text "02:FC" ++ r)
      (mac_octets-octets 4 s
        ∙ ap (λ r. octet 0 s ++ (octet 1 s ++ (octet 2 s ++ r))) (append-nil (octet 3 s))),
)
