-- ===== src/Protocol/NodePath/FromHashes.antt =====
-- path.rs: which rows of hashes form a path, and the first hop of one.
use mcrs.Prelude.{
  ℕ, ◌*◌, ◌≤◌, ◌≡◌, refl, sym, ap, List, [], ◌∷◌, ◌++◌, inl, inr, length, arith, append_assoc,
  append-nil,
}
use mcrs.Protocol.Error.{ok, Result-cases}
use mcrs.Protocol.Wire.{max_path_size}
use mcrs.Protocol.HashSize.{HashSize, size}
use mcrs.Protocol.NodePath.{
  NodePath, new, collect, from_hashes, hashes, checked_mul, first_hash, first_hash_matches,
  hash_matches,
}
use mcrs.Protocol.NodePath.Chunks.{concat, OfSize}
use mcrs.Protocol.NodePath.Hops.{IsValid, Row, validate-IsValid, Row-IsValid, hashes-Row}

collect-concat :
    (n : ℕ) (out : List ℕ) (hs : List (List ℕ))
    → OfSize n hs
    → collect n out hs ≡ ok (out ++ concat hs)
unfolding collect
collect-concat n out [] o = ap ok (sym (append-nil out))
collect-concat n out (h ∷ hs) o =
    ground (arith, collect-concat n (out ++ h) hs o.1, append_assoc out h (concat hs))

collect-OfSize :
    (n : ℕ) (out : List ℕ) (hs : List (List ℕ)) (bytes : List ℕ)
    → collect n out hs ≡ ok bytes
    → OfSize n hs
unfolding collect
collect-OfSize n out [] bytes e = tt
collect-OfSize n out (h ∷ hs) bytes e = ground (arith, collect-OfSize n (out ++ h) hs bytes)

-- Hashes of the given size, at most 63 of them and within the largest size of a path, form a valid
-- path of that size with exactly these hops.
pub from_hashes_accepts :
    (s : HashSize) (hs : List (List ℕ))
    → OfSize (size s) hs
    → length hs ≤ 63
    → length hs * size s ≤ max_path_size
    → (p : NodePath) × (from_hashes s hs ≡ ok p) × IsValid p × (p.hash_size ≡ s) × (hashes p ≡ hs)
unfolding from_hashes new checked_mul
from_hashes_accepts s hs o few fits =
    let p : NodePath = record { hash_size = s; bytes = concat hs } in
    let r : Row p hs = record { sized = o; joined = refl } in
    let v : IsValid p = Row-IsValid p hs r few fits in
    let small : size s * length hs ≤ max_path_size = grind arith in
    (
      p,
      ground (arith, small, collect-concat (size s) [] hs o, validate-IsValid p v),
      v,
      refl,
      hashes-Row p hs r,
    )

pub from_hashes_refuses :
    (s : HashSize) (hs : List (List ℕ)) (p : NodePath)
    → from_hashes s hs ≡ ok p
    → OfSize (size s) hs × (length hs ≤ 63) × (length hs * size s ≤ max_path_size)
unfolding from_hashes checked_mul
from_hashes_refuses s hs p e =
    let few : length hs ≤ 63 = ground arith in
    let fits : size s * length hs ≤ max_path_size = ground arith in
    let swap : length hs * size s ≡ size s * length hs = grind arith in
    elim (Result-cases (collect (size s) [] hs)) [
      | inl (bytes, done) ↦ (collect-OfSize (size s) [] hs bytes done, few, omega (arith, swap))
      | inr (x, failed) ↦ absurd (ground arith)
    ]

-- The first hop of a path is the one that `first_hash_matches` compares with a node's hash.
pub first_hash_matches-hashes :
    (p : NodePath) (hop : List ℕ) (rest : List (List ℕ)) (node_hash : List ℕ)
    → hashes p ≡ hop ∷ rest
    → first_hash_matches p node_hash ≡ hash_matches hop node_hash
unfolding first_hash_matches first_hash
first_hash_matches-hashes p hop rest node_hash e = rw (e, first_hash_matches)
