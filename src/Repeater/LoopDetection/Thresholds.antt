-- ===== src/Repeater/LoopDetection/Thresholds.antt =====
-- The modes of loop detection are ordered, and the strictest looks for any own hash.
use mcrs.Prelude.{ℕ, ◌≡◌, refl, true, false, List, [], ◌∷◌, leb, arith}
use mcrs.Protocol.HashSize.{HashSize}
use mcrs.Protocol.NodePath.{NodePath, hashes, hash_matches, any_matches, contains_hash}
use mcrs.Repeater.LoopDetection.{
  off, minimal, moderate, strict, starts_with, count_own, threshold, reaches, detects_loop,
}

starts_with-hash_matches : (node hash : List ℕ) → starts_with node hash ≡ hash_matches hash node
unfolding starts_with hash_matches
starts_with-hash_matches [] [] = refl
starts_with-hash_matches (x ∷ xs) [] = ground arith
starts_with-hash_matches [] (y ∷ ys) = ground arith
starts_with-hash_matches (x ∷ xs) (y ∷ ys) = ground (arith, starts_with-hash_matches xs ys)

any_own : (node : List ℕ) (hs : List (List ℕ)) → leb 1 (count_own node hs) ≡ any_matches hs node
unfolding count_own any_matches
any_own node [] = refl
any_own node (h ∷ hs) = ground (arith, any_own node hs, starts_with-hash_matches node h)

-- The strictest mode detects a loop exactly when the path contains the node's hash, and the mode
-- that is off never does.
pub detects_loop-contains_hash :
    (p : NodePath) (node : List ℕ)
    → (detects_loop strict p node ≡ contains_hash p node) × (detects_loop off p node ≡ false)
unfolding detects_loop threshold contains_hash
detects_loop-contains_hash p node = (any_own node (hashes p), refl)

threshold_monotone :
    (size : HashSize) (n : ℕ)
    → (reaches (threshold minimal size) n ≡ true → reaches (threshold moderate size) n ≡ true)
      × (reaches (threshold moderate size) n ≡ true → reaches (threshold strict size) n ≡ true)
unfolding threshold
threshold_monotone HashSize.one n = ground arith
threshold_monotone HashSize.two n = ground arith
threshold_monotone HashSize.three n = ground arith

-- What a mode of loop detection detects, the next stricter mode detects.
pub detects_loop_monotone :
    (p : NodePath) (node : List ℕ)
    → (detects_loop minimal p node ≡ true → detects_loop moderate p node ≡ true)
      × (detects_loop moderate p node ≡ true → detects_loop strict p node ≡ true)
unfolding detects_loop
detects_loop_monotone p node = threshold_monotone p.hash_size (count_own node (hashes p))
