-- ===== src/Prelude/Positions.antt =====
-- Lists by position: `position`, `find`, `remove`, and a change of one element.
use Prim.Native.Nat.{ℕ, zero, suc, ◌≤◌}
use mathlib.Core.Path.{◌≡◌, refl}
use mathlib.Core.Bool.{Bool}
use mathlib.Core.List.{List, [], ◌∷◌}
use mathlib.Core.Option.{Option, none, some}
use native.Mathlib.Omega.{arith}
use mcrs.Prelude.Tests.{if◌then◌else◌}
use mcrs.Prelude.Lists.{length, All}

module _ {ℓ} {A : Type ℓ} where
  unfoldable pub position : (A → Bool) → List A → Option ℕ
  position test [] = none
  position test (x ∷ xs) =
      let rest = position test xs in
      if test x then some 0 else elim rest [ none ↦ none | some i ↦ some (suc i) ]

  unfoldable pub find? : (A → Bool) → List A → Option A
  find? test [] = none
  find? test (x ∷ xs) = let rest = find? test xs in if test x then some x else rest

  unfoldable pub modify_at : ℕ → (A → A) → List A → List A
  modify_at i f [] = []
  modify_at zero f (x ∷ xs) = f x ∷ xs
  modify_at (suc i) f (x ∷ xs) = x ∷ modify_at i f xs

  unfoldable pub remove_at : ℕ → List A → List A
  remove_at i [] = []
  remove_at zero (x ∷ xs) = xs
  remove_at (suc i) (x ∷ xs) = x ∷ remove_at i xs

  pub length-modify_at : (i : ℕ) (f : A → A) (xs : List A) → length (modify_at i f xs) ≡ length xs
  unfolding modify_at
  length-modify_at i f [] = refl
  length-modify_at zero f (x ∷ xs) = refl
  length-modify_at (suc i) f (x ∷ xs) = omega (arith, length-modify_at i f xs)

  pub length-remove_at : (i : ℕ) (xs : List A) → length (remove_at i xs) ≤ length xs
  unfolding remove_at
  length-remove_at i [] = omega arith
  length-remove_at zero (x ∷ xs) = omega arith
  length-remove_at (suc i) (x ∷ xs) = omega (arith, length-remove_at i xs)

  pub modify_at-All {κ} :
      (P : A → Type κ) (i : ℕ) (f : A → A) (xs : List A)
      → ((x : A) → P x → P (f x))
      → All P xs
      → All P (modify_at i f xs)
  unfolding modify_at
  modify_at-All P i f [] keep h = tt
  modify_at-All P zero f (x ∷ xs) keep h = (keep x h.0, h.1)
  modify_at-All P (suc i) f (x ∷ xs) keep h = (h.0, modify_at-All P i f xs keep h.1)

  pub remove_at-All {κ} : (P : A → Type κ) (i : ℕ) (xs : List A) → All P xs → All P (remove_at i xs)
  unfolding remove_at
  remove_at-All P i [] h = tt
  remove_at-All P zero (x ∷ xs) h = h.1
  remove_at-All P (suc i) (x ∷ xs) h = (h.0, remove_at-All P i xs h.1)
