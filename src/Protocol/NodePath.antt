-- ===== src/Protocol/NodePath.antt =====
-- protocol/src/path.rs: the route of a packet, as the hashes of the nodes on it, one after the
-- other.
pub mod Chunks
pub mod Hops
pub mod Reversed
pub mod FromHashes
pub mod Codec
use mcrs.Prelude.{
  ℕ, zero, suc, ◌+◌, ◌-◌, ◌*◌, ◌/◌, ◌%◌, bit_and, bit_or, Bool, true, false, ◌&&◌, ◌||◌, not,
  Option, none, some, List, [], ◌∷◌, ◌++◌, length, take, drop, leb, ltb, ◌==◌, ◌!=◌, list_eq,
  if◌then◌else◌,
}
use mcrs.Prelude.Bits.{shr, shl8}
use mcrs.Protocol.Error.{
  Error, Result, ok, err, ok_or, fail_if, ◌>>=◌, ◌>>◌, path_too_long, invalid_path_length,
  invalid_length, truncated,
}
use mcrs.Protocol.Wire.{max_path_size, usize_max}
use mcrs.Protocol.HashSize.{HashSize, one, size, code, from_code}

pub record NodePath : Type 0 where
  pub hash_size : HashSize
  pub bytes : List ℕ

abbrev pub empty : NodePath
empty = record { hash_size = one; bytes = [] }

unfoldable pub checked_mul : ℕ → ℕ → Option ℕ
checked_mul a b = if leb (a * b) usize_max then some (a * b) else none

unfoldable pub hop_count : NodePath → ℕ
hop_count p = length p.bytes / size p.hash_size

unfoldable pub validate : NodePath → Result (Unit {0})
validate p = do
  fail_if (ltb max_path_size (length p.bytes)) (path_too_long (length p.bytes))
  fail_if (length p.bytes % size p.hash_size != 0) invalid_path_length
  fail_if (ltb 63 (hop_count p)) invalid_path_length

unfoldable pub new : HashSize → List ℕ → Result NodePath
new hash_size bytes =
    let p : NodePath = record { hash_size = hash_size; bytes = bytes } in do validate p; ok p

-- The loop of `from_hashes`: each hash is checked and appended.
unfoldable pub collect : ℕ → List ℕ → List (List ℕ) → Result (List ℕ)
collect n bytes [] = ok bytes
collect n bytes (hash ∷ hashes) =
    let rest = collect n (bytes ++ hash) hashes in
    if length hash != n then err (invalid_length "path hash") else rest

unfoldable pub from_hashes : HashSize → List (List ℕ) → Result NodePath
from_hashes hash_size hashes = do
  fail_if (ltb 63 (length hashes)) invalid_path_length
  len ← ok_or (checked_mul (size hash_size) (length hashes)) invalid_path_length
  fail_if (ltb max_path_size len) (path_too_long len)
  bytes ← collect (size hash_size) [] hashes
  new hash_size bytes

-- `chunks_exact(n)`: the whole pieces of `n` bytes. A piece takes a byte at least, so as many
-- rounds as there are bytes are enough.
unfoldable pub chunks : ℕ → ℕ → List ℕ → List (List ℕ)
chunks zero n bytes = []
chunks (suc fuel) n bytes =
    let rest = chunks fuel n (drop n bytes) in
    if ltb (length bytes) n then [] else take n bytes ∷ rest

unfoldable pub chunks_exact : ℕ → List ℕ → List (List ℕ)
chunks_exact n bytes = chunks (length bytes) n bytes

unfoldable pub hashes : NodePath → List (List ℕ)
hashes p = chunks_exact (size p.hash_size) p.bytes

-- The hashes from the last to the first, appended to `out`.
unfoldable pub extend_rev : List ℕ → List (List ℕ) → List ℕ
extend_rev out [] = out
extend_rev out (hash ∷ rest) = extend_rev out rest ++ hash

unfoldable pub reversed : NodePath → NodePath
reversed p = record {
  hash_size = p.hash_size;
  bytes = extend_rev [] (chunks_exact (size p.hash_size) p.bytes);
}

abbrev pub head? : List (List ℕ) → Option (List ℕ)
head? [] = none
head? (h ∷ hs) = some h

unfoldable pub first_hash : NodePath → Option (List ℕ)
first_hash p = head? (hashes p)

unfoldable pub hash_matches : List ℕ → List ℕ → Bool
hash_matches path_hash node_hash =
    leb (length path_hash) (length node_hash)
    && list_eq (take (length path_hash) node_hash) path_hash

unfoldable pub first_hash_matches : NodePath → List ℕ → Bool
first_hash_matches p node_hash = elim (first_hash p) [
  | none ↦ false
  | some first ↦ hash_matches first node_hash
]

unfoldable pub any_matches : List (List ℕ) → List ℕ → Bool
any_matches [] node_hash = false
any_matches (hash ∷ rest) node_hash = hash_matches hash node_hash || any_matches rest node_hash

unfoldable pub contains_hash : NodePath → List ℕ → Bool
contains_hash p node_hash = any_matches (hashes p) node_hash

-- The path after the call.
unfoldable pub append_hash : NodePath → List ℕ → Result NodePath
append_hash p node_hash =
    let n = size p.hash_size in
    do
      fail_if (ltb (length node_hash) n) (invalid_length "node hash")
      fail_if (ltb max_path_size (length p.bytes + n)) (path_too_long (length p.bytes + n))
      fail_if (leb 63 (hop_count p)) invalid_path_length
      ok (record p { bytes = p.bytes ++ take n node_hash })

-- The first hash, and the path after the call.
unfoldable pub remove_first_hash : NodePath → Option (List ℕ) × NodePath
remove_first_hash p =
    let n = size p.hash_size in
    if ltb (length p.bytes) n
    then (none, p)
    else (some (take n p.bytes), record p { bytes = drop n p.bytes })

unfoldable pub encoded_length_byte : NodePath → Result ℕ
encoded_length_byte p = do validate p; ok (bit_or (shl8 (code p.hash_size) 6) (hop_count p % 256))

unfoldable pub decode_wire : ℕ → List ℕ → Result (NodePath × ℕ)
decode_wire path_length input = do
  hash_size ← from_code (shr path_length 6)
  let hop_count = bit_and path_length 0x3f
  len ← ok_or (checked_mul hop_count (size hash_size)) invalid_path_length
  fail_if (ltb max_path_size len) (path_too_long len)
  fail_if (ltb (length input) len) (truncated "path")
  p ← new hash_size (take len input)
  ok (p, len)

unfoldable pub encode_wire : NodePath → List ℕ → Result (List ℕ)
encode_wire p out = do byte ← encoded_length_byte p; ok ((out ++ byte ∷ []) ++ p.bytes)
