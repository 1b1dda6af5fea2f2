-- ===== src/Tests/Bytes.antt =====
-- A test that the numbers of a list are bytes.
use mcrs.Prelude.{ℕ, ◌≡◌, Bool, true, ◌&&◌, List, [], ◌∷◌, All, ltb, arith}
use mcrs.Prelude.Bits.{IsByte}

abbrev pub below : List ℕ → Bool
below [] = true
below (x ∷ xs) = ltb x 256 && below xs

pub below-All : (xs : List ℕ) → below xs ≡ true → All IsByte xs
below-All [] h = tt
below-All (x ∷ xs) h = ground (arith, below-All xs)
