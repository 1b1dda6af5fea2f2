-- ===== src/Protocol/Crypto/Prefixes.antt =====
-- Transport codes avoid the reserved values, and a node's hash is a prefix of its key.
use mcrs.Prelude.{
  ℕ, ◌-◌, ◌≤◌, ◌<◌, ◌≡◌, min, refl, true, Option, some, Option-cases, List, [], ◌∷◌, take, length,
  leb, list_eq_iff, arith, All, append-nil, length-take, inl, inr, le→leb,
}
use mcrs.Prelude.Bits.{IsByte}
use mcrs.Prelude.Words.{u16_from_le_bytes}
use mcrs.Protocol.Error.{PayloadKind}
use mcrs.Protocol.Header.{to_nibble}
use mcrs.Protocol.NodePath.{hash_matches}
use mcrs.Protocol.Wire.{pub_key_size}
use mcrs.Protocol.Crypto.{usable_code, code_of_digest, derive_transport_code, node_hash}

-- The keyed hash of the crate hmac writes bytes.
abbrev pub WritesBytes : (List ℕ → List ℕ → Option (List ℕ)) → Type 0
WritesBytes hmac =
    (key message digest : List ℕ) → hmac key message ≡ some digest → All IsByte digest

two_bytes_bound : (d : List ℕ) → All IsByte d → u16_from_le_bytes (take 2 d) < 65536
unfolding u16_from_le_bytes
two_bytes_bound [] h = omega arith
two_bytes_bound (a ∷ []) h = omega arith
two_bytes_bound (a ∷ b ∷ rest) h = omega (arith, h.0, h.1.0)

-- A transport code is never one of the reserved values 0 and 0xffff and fits 16 bits, when the
-- keyed hash writes bytes.
pub derive_transport_code_range :
    (hmac : List ℕ → List ℕ → Option (List ℕ)) (key : List ℕ) (kind : PayloadKind)
    (payload : List ℕ)
    → WritesBytes hmac
    → (0 < derive_transport_code hmac key kind payload)
      × (derive_transport_code hmac key kind payload < 0xffff)
unfolding derive_transport_code code_of_digest usable_code
derive_transport_code_range hmac key kind payload bytes =
    elim (Option-cases (hmac key (to_nibble kind ∷ payload))) [
      | inl n ↦ rw n (omega arith, omega arith)
      | inr (d, y) ↦
          let bound : u16_from_le_bytes (take 2 d) < 65536 =
            two_bytes_bound d (bytes key (to_nibble kind ∷ payload) d y) in
          rw y (ground arith)
    ]

-- For a key of 32 bytes, the hash of a node of at most 32 bytes has the size asked for and matches
-- the node's key as a hop does.
pub node_hash-hash_matches :
    (n : ℕ) (key : List ℕ)
    → n ≤ pub_key_size
    → length key ≡ pub_key_size
    → (length (node_hash n key) ≡ n) × (hash_matches (node_hash n key) key ≡ true)
unfolding node_hash hash_matches
node_hash-hash_matches n key h k =
    let m : min n pub_key_size ≡ n = omega arith in
    let none_left : n - n ≡ 0 = omega arith in
    let size : length (take n key) ≡ n = omega (arith, length-take n key) in
    let fits : leb n (length key) ≡ true = le→leb n (length key) (omega arith) in
    rw (m, none_left, append-nil (take n key), size, fits)
      (refl, ground (arith, list_eq_iff (take n key) (take n key)))
