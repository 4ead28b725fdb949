-- ===== src/Prelude/Places.antt =====
-- The items of a list by their place.
use Prim.Native.Nat.{ℕ, zero, suc, ◌<◌}
use mathlib.Core.Path.{◌≡◌, refl}
use mathlib.Core.Logic.{◌≢◌, ◌⊎◌, inl, inr}
use mathlib.Core.Option.{Option, none, some}
use mathlib.Core.List.{List, [], ◌∷◌, ◌++◌}
use native.Mathlib.Omega.{arith}
use custom_database.Prelude.Lists.{length}

module _ {A : Type 0} where
  abbrev pub nth : ℕ → List A → Option A
  nth i [] = none
  nth zero (x ∷ xs) = some x
  nth (suc i) (x ∷ xs) = nth i xs

  pub nth-lt : (i : ℕ) (xs : List A) {x : A} → nth i xs ≡ some x → i < length xs
  nth-lt i [] e = absurd cc
  nth-lt zero (y ∷ xs) e = omega arith
  nth-lt (suc i) (y ∷ xs) e = omega (arith, nth-lt i xs e)

  pub nth-here :
      (before after : List A) (x : A) → nth (length before) (before ++ (x ∷ after)) ≡ some x
  nth-here [] after x = refl
  nth-here (y ∷ before) after x = nth-here before after x

  -- An item of a list in which another one stands at the place behind `before`.
  pub nth-cases :
      (i : ℕ) (before after : List A) (x x' : A) {y : A}
      → nth i (before ++ (x' ∷ after)) ≡ some y
      → ((i ≡ length before) × (nth i (before ++ (x' ∷ after)) ≡ some x'))
        ⊎ ((i ≢ length before) × (nth i (before ++ (x ∷ after)) ≡ some y))
  nth-cases zero [] after x x' e = inl (refl, refl)
  nth-cases (suc i) [] after x x' e = inr (λ e. omega arith, e)
  nth-cases zero (v ∷ before) after x x' e = inr (λ e. omega arith, e)
  nth-cases (suc i) (v ∷ before) after x x' e = elim (nth-cases i before after x x' e) [
    | inl (same, at) ↦ inl (omega arith, at)
    | inr (other, at) ↦ inr (λ e. other (omega arith), at)
  ]

  pub some-injective : {x y : A} → some x ≡ some y → x ≡ y
  some-injective e = cc
