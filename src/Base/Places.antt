-- ===== src/Base/Places.antt =====
-- Reading and writing a place in a list.
use firecracker_agent.Base.Tests.{length}
use Prim.Native.Nat.{ℕ, zero, suc}
use mathlib.Core.Path.{◌≡◌, refl}
use mathlib.Core.Logic.{◌≢◌, ◌⊎◌, inl, inr}
use mathlib.Core.Option.{Option, none, some}
use mathlib.Core.List.{List, [], ◌∷◌, ◌++◌}
use native.Mathlib.Omega.{arith}

module _ {A : Type 0} where
  unfoldable pub get_at : ℕ → List A → Option A
  get_at n [] = none
  get_at zero (x ∷ xs) = some x
  get_at (suc n) (x ∷ xs) = get_at n xs

  unfoldable pub set_at : ℕ → A → List A → List A
  set_at n x [] = []
  set_at zero x (_ ∷ xs) = x ∷ xs
  set_at (suc n) x (y ∷ xs) = y ∷ set_at n x xs

  pub get_at-append :
      (n : ℕ) (xs : List A) (x y : A)
      → get_at n (xs ++ (x ∷ [])) ≡ some y
      → (get_at n xs ≡ some y) ⊎ ((y ≡ x) × (n ≡ length xs))
  unfolding get_at
  get_at-append zero [] x y e = inr (ground arith)
  get_at-append (suc n) [] x y e = ground arith
  get_at-append zero (w ∷ xs) x y e = inl e
  get_at-append (suc n) (w ∷ xs) x y e = ground (arith, get_at-append n xs x y e)

  pub get_at-set_at :
      (n m : ℕ) (xs : List A) (x y : A)
      → get_at n (set_at m x xs) ≡ some y
      → ((get_at n xs ≡ some y) × (n ≢ m)) ⊎ ((y ≡ x) × (n ≡ m))
  unfolding get_at set_at
  get_at-set_at n m [] x y e = ground arith
  get_at-set_at zero zero (w ∷ xs) x y e = inr (ground arith, refl)
  get_at-set_at (suc n) zero (w ∷ xs) x y e = inl (e, λ q. omega arith)
  get_at-set_at zero (suc m) (w ∷ xs) x y e = inl (e, λ q. omega arith)
  get_at-set_at (suc n) (suc m) (w ∷ xs) x y e = elim (get_at-set_at n m xs x y e) [
    | inl (old, ne) ↦ inl (old, λ q. ne (omega arith))
    | inr (new, here) ↦ inr (new, omega arith)
  ]

  pub get_at-left :
      (n : ℕ) (xs ys : List A) {y : A} → get_at n xs ≡ some y → get_at n (xs ++ ys) ≡ some y
  unfolding get_at
  get_at-left n [] ys e = ground arith
  get_at-left zero (x ∷ xs) ys e = e
  get_at-left (suc n) (x ∷ xs) ys {y} e = get_at-left n xs ys {y = y} e

  pub get_at-set_at_self :
      (n : ℕ) (xs : List A) (x : A) {y : A}
      → get_at n xs ≡ some y
      → get_at n (set_at n x xs) ≡ some x
  unfolding get_at set_at
  get_at-set_at_self n [] x e = ground arith
  get_at-set_at_self zero (w ∷ xs) x e = refl
  get_at-set_at_self (suc n) (w ∷ xs) x {y} e = get_at-set_at_self n xs x {y = y} e

  pub get_at-set_at_other :
      (n m : ℕ) (xs : List A) (x : A) → n ≢ m → get_at n (set_at m x xs) ≡ get_at n xs
  unfolding get_at set_at
  get_at-set_at_other n m [] x ne = refl
  get_at-set_at_other zero zero (w ∷ xs) x ne = absurd (ne refl)
  get_at-set_at_other (suc n) zero (w ∷ xs) x ne = refl
  get_at-set_at_other zero (suc m) (w ∷ xs) x ne = refl
  get_at-set_at_other (suc n) (suc m) (w ∷ xs) x ne =
      get_at-set_at_other n m xs x (λ e. ne (omega (arith, e)))

  pub get_at-length : (xs : List A) (x : A) → get_at (length xs) (xs ++ (x ∷ [])) ≡ some x
  unfolding get_at
  get_at-length [] x = refl
  get_at-length (_ ∷ xs) x = get_at-length xs x
