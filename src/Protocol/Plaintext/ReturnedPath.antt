-- ===== src/Protocol/Plaintext/ReturnedPath.antt =====
-- protocol/src/path_plaintext.rs: a path sent back to the node that asked for it.
use mathlib.Core.Path.{subst}
use mcrs.Prelude.{
  ℕ, suc, ◌+◌, ◌≤◌, ◌<◌, ◌≡◌, refl, ap, false, Option, none, some, List, [], ◌∷◌, ◌++◌, length,
  drop, ◌==◌, if◌then◌else◌, arith, get_elem?,
}
use mcrs.Protocol.Error.{PayloadKind, Result, ok, ok_or, ◌>>=◌, ◌>>◌, >>=-elim, truncated}
use mcrs.Protocol.Wire.{max_packet_payload, ensure_payload_len}
use mcrs.Protocol.Wire.Cursor.{ensure_payload_len_fits}
use mcrs.Protocol.Header.{from_nibble, to_nibble}
use mcrs.Protocol.Header.Codec.{IsKind, from_nibble-to_nibble, to_nibble-lt}
use mcrs.Protocol.NodePath
use mcrs.Protocol.NodePath.Codec
use mcrs.Protocol.NodePath.Hops
use mcrs.Protocol.NodePath.{NodePath}

pub record PathPlaintext : Type 0 where
  pub path : NodePath
  pub extra_type : Option PayloadKind
  pub extra_payload : List ℕ

abbrev first? : List ℕ → Option ℕ
first? [] = none
first? (b ∷ bs) = some b

unfoldable pub decode : List ℕ → Result PathPlaintext
decode input = do
  ensure_payload_len input
  path_length ← ok_or (first? input) (truncated "path plaintext")
  (path, used) ← NodePath.decode_wire path_length (drop 1 input)
  let extra_offset = 1 + used
  byte ← ok_or (get_elem? input extra_offset) (truncated "path plaintext extra_type")
  ok (record {
    path = path;
    extra_type = if byte == 0xff then none else some (from_nibble byte);
    extra_payload = drop (extra_offset + 1) input;
  })

abbrev pub extra_byte : Option PayloadKind → ℕ
extra_byte none = 0xff
extra_byte (some k) = to_nibble k

unfoldable pub encode : PathPlaintext → Result (List ℕ)
encode p = do
  path_length ← NodePath.encoded_length_byte p.path
  ok (path_length ∷ (p.path.bytes ++ (extra_byte p.extra_type ∷ p.extra_payload)))

abbrev pub IsExtra : Option PayloadKind → Type 0
IsExtra none = Unit
IsExtra (some k) = IsKind k

extra_read :
    (k : Option PayloadKind)
    → IsExtra k
    → (if extra_byte k == 0xff then none else some (from_nibble (extra_byte k))) ≡ k
extra_read none h = refl
extra_read (some k) h =
    let low : to_nibble k < 16 = to_nibble-lt k h in
    let kind : from_nibble (to_nibble k) ≡ k =
      from_nibble-to_nibble k (to_nibble k) h (omega arith) (omega arith) in
    let other : (to_nibble k == 0xff) ≡ false = ground arith in rw (other, kind)

behind :
    (xs : List ℕ) (y : ℕ) (ys : List ℕ)
    → (get_elem? (xs ++ (y ∷ ys)) (length xs) ≡ some y)
      × (drop (suc (length xs)) (xs ++ (y ∷ ys)) ≡ ys)
behind [] y ys = (refl, refl)
behind (x ∷ xs) y ys = behind xs y ys

-- A path plaintext that has an encoding, and one that fits a packet, is read back from it.
pub decode-encode :
    (p : PathPlaintext) (out : List ℕ)
    → IsExtra p.extra_type
    → encode p ≡ ok out
    → length out ≤ max_packet_payload
    → decode out ≡ ok p
unfolding decode encode
decode-encode p out x e fits = >>=-elim (NodePath.encoded_length_byte p.path) _ e λ b f e'.
    let v : Hops.IsValid p.path = Codec.encoded_length_byte-IsValid p.path b f in
    let byte : b ≡ Codec.length_byte p.path =
      ground (arith, Codec.encoded_length_byte_lem p.path v) in
    let tail : List ℕ = extra_byte p.extra_type ∷ p.extra_payload in
    let input : List ℕ = b ∷ (p.path.bytes ++ tail) in
    let same : input ≡ out = ground arith in
    let read : NodePath.decode_wire b (p.path.bytes ++ tail) ≡ ok (p.path, length p.path.bytes) =
      rw byte (Codec.decode_wire-bytes p.path tail v) in
    let (there, rest) = behind (b ∷ p.path.bytes) (extra_byte p.extra_type) p.extra_payload in
    let at_extra : get_elem? input (1 + length p.path.bytes) ≡ some (extra_byte p.extra_type) =
      subst (λ k. get_elem? input k ≡ some (extra_byte p.extra_type))
        (one_more (length p.path.bytes)) there in
    let at_rest : drop (1 + length p.path.bytes + 1) input ≡ p.extra_payload =
      subst (λ k. drop k input ≡ p.extra_payload) (two_more (length p.path.bytes)) rest in
    subst (λ y. decode y ≡ ok p) same
      (rw (
        ensure_payload_len_fits input (omega (arith, fits, ap length same)),
        read,
        at_extra,
        at_rest,
        extra_read p.extra_type x,
      ))
  where
    one_more : (n : ℕ) → suc n ≡ 1 + n
    one_more n = omega arith

    two_more : (n : ℕ) → suc (suc n) ≡ 1 + n + 1
    two_more n = omega arith
