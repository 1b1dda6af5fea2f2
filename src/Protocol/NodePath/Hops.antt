-- ===== src/Protocol/NodePath/Hops.antt =====
-- A path as the list of its hashes: what each operation of path.rs does to that list.
use mathlib.Core.Path.{subst}
use mcrs.Prelude.{
  ℕ, ◌+◌, ◌*◌, ◌/◌, ◌%◌, ◌≤◌, ◌<◌, ◌≡◌, refl, sym, ap, ◌∙◌, List, [], ◌∷◌, ◌++◌, none, some, length,
  take, drop, All-append, arith, length-append, length-take, take-append_length, drop-append_length,
  append-nil,
}
use mcrs.Protocol.Error.{ok}
use mcrs.Protocol.Wire.{max_path_size}
use mcrs.Protocol.HashSize.{HashSize, size, size_bounds}
use mcrs.Protocol.NodePath.{NodePath, hop_count, validate, hashes, append_hash, remove_first_hash}
use mcrs.Protocol.NodePath.Chunks.{
  concat, OfSize, length-concat, concat-append, chunks_exact-concat, split_row,
}

pub record IsValid (p : NodePath) : Type 0 where
  pub fits : length p.bytes ≤ max_path_size
  pub whole : length p.bytes % size p.hash_size ≡ 0
  pub short : hop_count p ≤ 63

-- `hs` are the hashes of the path.
pub record Row (p : NodePath) (hs : List (List ℕ)) : Type 0 where
  pub sized : OfSize (size p.hash_size) hs
  pub joined : concat hs ≡ p.bytes

pub div_size : (s : HashSize) (k : ℕ) → k * size s / size s ≡ k
unfolding size
div_size HashSize.one k = omega arith
div_size _ k = omega arith

pub mod_size : (s : HashSize) (k : ℕ) → k * size s % size s ≡ 0
unfolding size
mod_size HashSize.one k = omega arith
mod_size _ k = omega arith

pub mul_size : (s : HashSize) (l : ℕ) → l % size s ≡ 0 → l ≡ l / size s * size s
unfolding size
mul_size HashSize.one k h = omega arith
mul_size _ k h = omega arith

pub validate-IsValid : (p : NodePath) → IsValid p → validate p ≡ ok tt
unfolding validate
validate-IsValid p v = ground arith

pub IsValid-validate : (p : NodePath) → validate p ≡ ok tt → IsValid p
unfolding validate
IsValid-validate p e = ground arith

module _ (p : NodePath) (hs : List (List ℕ)) (r : Row p hs) where
  pub length-Row : length p.bytes ≡ length hs * size p.hash_size
  length-Row = ap length (sym r.joined) ∙ length-concat (size p.hash_size) hs r.sized

  pub hashes-Row : hashes p ≡ hs
  unfolding hashes
  hashes-Row =
      rw (← r.joined)
        (chunks_exact-concat (size p.hash_size) hs (size_bounds p.hash_size).0 r.sized)

  pub hop_count-Row : hop_count p ≡ length hs
  unfolding hop_count
  hop_count-Row = rw length-Row (div_size p.hash_size (length hs))

  pub Row-IsValid : length hs ≤ 63 → length hs * size p.hash_size ≤ max_path_size → IsValid p
  Row-IsValid a b = record {
    fits = omega (arith, length-Row);
    whole = rw length-Row (mod_size p.hash_size (length hs));
    short = omega (arith, hop_count-Row);
  }

-- A valid path is the row of its hashes.
pub IsValid-Row : (p : NodePath) → IsValid p → Row p (hashes p)
unfolding hop_count
IsValid-Row p v =
    let (hs, o, c, l) =
      split_row (size p.hash_size) (hop_count p) p.bytes (mul_size p.hash_size _ v.whole) in
    let r : Row p hs = record { sized = o; joined = c } in subst (Row p) (sym (hashes-Row p hs r)) r

pub hop_count-hashes : (p : NodePath) → IsValid p → hop_count p ≡ length (hashes p)
hop_count-hashes p v = hop_count-Row p (hashes p) (IsValid-Row p v)

pub OfSize-append :
    (n : ℕ) (xs ys : List (List ℕ)) → OfSize n xs → OfSize n ys → OfSize n (xs ++ ys)
OfSize-append n = All-append (λ h. length h ≡ n)

append_parts :
    (p q : NodePath) (node_hash : List ℕ)
    → append_hash p node_hash ≡ ok q
    → (size p.hash_size ≤ length node_hash)
      × (length p.bytes + size p.hash_size ≤ max_path_size)
      × (hop_count p < 63)
      × (q ≡ record p { bytes = p.bytes ++ take (size p.hash_size) node_hash })
unfolding append_hash
append_parts p q h e = ground arith

-- Appending to a valid path adds the prefix of the node's hash as the last hop, and the path stays
-- valid.
pub append_hash-hashes :
    (p q : NodePath) (node_hash : List ℕ)
    → IsValid p
    → append_hash p node_hash ≡ ok q
    → IsValid q
      × (q.hash_size ≡ p.hash_size)
      × (hashes q ≡ hashes p ++ take (size p.hash_size) node_hash ∷ [])
append_hash-hashes p q h v e =
    let n : ℕ = size p.hash_size in
    let (long, room, few, same) = append_parts p q h e in
    let r : Row p (hashes p) = IsValid-Row p v in
    let hs : List (List ℕ) = hashes p ++ take n h ∷ [] in
    let q' : NodePath = record p { bytes = p.bytes ++ take n h } in
    let r' : Row q' hs = record {
      sized =
          OfSize-append n (hashes p) (take n h ∷ []) r.sized (omega (arith, length-take n h), tt);
      joined =
          concat-append (hashes p) (take n h ∷ [])
          ∙ ap (λ x. x ++ (take n h ++ [])) r.joined
          ∙ ap (λ x. p.bytes ++ x) (append-nil (take n h));
    } in
    let count : length hs ≡ length (hashes p) + 1 = length-append (hashes p) (take n h ∷ []) in
    let len : length p.bytes + n ≡ length q'.bytes =
      omega (arith, length-append p.bytes (take n h), length-take n h) in
    rw same (
      Row-IsValid q' hs r' (omega (arith, count, hop_count-hashes p v))
          (omega (arith, length-Row q' hs r', len)),
      refl,
      hashes-Row q' hs r',
    )

remove_parts :
    (p : NodePath) (h : List ℕ) (hs : List (List ℕ))
    → Row p (h ∷ hs)
    → remove_first_hash p ≡ (some h, record p { bytes = concat hs })
unfolding remove_first_hash
remove_parts p h hs r =
    let bytes : h ++ concat hs ≡ p.bytes = r.joined in
    let front : take (size p.hash_size) p.bytes ≡ h =
      rw (← bytes, ← r.sized.0) (take-append_length h (concat hs)) in
    let back : drop (size p.hash_size) p.bytes ≡ concat hs =
      rw (← bytes, ← r.sized.0) (drop-append_length h (concat hs)) in
    let long : size p.hash_size ≤ length p.bytes =
      omega (arith, ap length bytes, length-append h (concat hs), r.sized.0) in
    ground (arith, front, back, long)

-- Removing the first hash of a valid path that has one answers it and leaves the others.
pub remove_first_hash-hashes :
    (p : NodePath) (h : List ℕ) (hs : List (List ℕ))
    → IsValid p
    → hashes p ≡ h ∷ hs
    → let (removed, q) = remove_first_hash p in
      (removed ≡ some h) × (hashes q ≡ hs) × IsValid q × (q.hash_size ≡ p.hash_size)
remove_first_hash-hashes p h hs v e =
    let r : Row p (h ∷ hs) = subst (Row p) e (IsValid-Row p v) in
    let q : NodePath = record p { bytes = concat hs } in
    let r' : Row q hs = record { sized = r.sized.1; joined = refl } in
    let count : hop_count p ≡ length hs + 1 = hop_count-Row p (h ∷ hs) r ∙ omega arith in
    rw (remove_parts p h hs r) (
      refl,
      hashes-Row q hs r',
      Row-IsValid q hs r' (omega (arith, count, v.short))
          (grind (arith, length-Row p (h ∷ hs) r, v.fits)),
      refl,
    )

-- On a path with no hop nothing is removed.
pub remove_first_hash_empty :
    (p : NodePath) → IsValid p → hashes p ≡ [] → remove_first_hash p ≡ (none, p)
unfolding remove_first_hash
remove_first_hash_empty p v e =
    let r : Row p [] = subst (Row p) e (IsValid-Row p v) in
    let none_left : length p.bytes ≡ 0 = omega (arith, length-Row p [] r) in
    ground (arith, none_left, size_bounds p.hash_size)
