-- ===== src/Repeater/LoopDetection.antt =====
-- repeater/src/app/mod.rs, LoopDetection: whether a packet has passed the node often enough to be
-- taken for one that goes round.
use mcrs.Prelude.{
  ℕ, zero, suc, ◌+◌, Bool, true, false, Option, none, some, List, [], ◌∷◌, leb, ◌==◌, ◌&&◌,
  if◌then◌else◌,
}
use mcrs.Protocol.HashSize.{HashSize}
use mcrs.Protocol.NodePath.{NodePath, hashes}
pub mod Thresholds

pub data LoopDetection : Type 0 where
  off minimal moderate strict : LoopDetection

-- `starts_with` of a slice.
unfoldable pub starts_with : List ℕ → List ℕ → Bool
starts_with xs [] = true
starts_with [] (y ∷ ys) = false
starts_with (x ∷ xs) (y ∷ ys) = x == y && starts_with xs ys

-- `filter` and `count`: the hashes that are a prefix of the node's.
unfoldable pub count_own : List ℕ → List (List ℕ) → ℕ
count_own node_hash [] = 0
count_own node_hash (hash ∷ rest) =
    let n = count_own node_hash rest in if starts_with node_hash hash then n + 1 else n

-- `none` is the early return of `Off`.
unfoldable pub threshold : LoopDetection → HashSize → Option ℕ
threshold off size = none
threshold minimal HashSize.one = some 4
threshold minimal HashSize.two = some 2
threshold moderate HashSize.one = some 2
threshold _ _ = some 1

abbrev pub reaches : Option ℕ → ℕ → Bool
reaches none count = false
reaches (some n) count = leb n count

unfoldable pub detects_loop : LoopDetection → NodePath → List ℕ → Bool
detects_loop mode path node_hash =
    reaches (threshold mode path.hash_size) (count_own node_hash (hashes path))
