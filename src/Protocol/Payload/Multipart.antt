-- ===== src/Protocol/Payload/Multipart.antt =====
-- protocol/src/multipart_payload.rs: one part of a payload that was split. `encode` gives the bytes
-- that the method appends to `out`.
use mcrs.Prelude.{
  ℕ, ◌+◌, ◌*◌, ◌≤◌, ◌<◌, ◌≡◌, ap, ◌∙◌, bit_and, bit_or, Option, none, some, List, [], ◌∷◌, length,
  drop, All, arith,
}
use mcrs.Prelude.Bits.{IsByte, shr, shl8, bit_and_0x0f, bit_or_at_4}
use mcrs.Protocol.Error.{PayloadKind, Result, ok, ok_or, ◌>>=◌, ◌>>◌, truncated}
use mcrs.Protocol.Wire.{max_packet_payload, ensure_payload_len}
use mcrs.Protocol.Wire.Cursor.{ensure_payload_len_fits}
use mcrs.Protocol.Wire.Inversion.{ensure-elim}
use mathlib.Core.Path.{subst}
use mcrs.Protocol.Header.{from_nibble, to_nibble}
use mcrs.Protocol.Header.Codec.{
  IsKind, from_nibble-to_nibble, to_nibble-from_nibble, from_nibble-IsKind, to_nibble-lt,
}

pub record MultipartPayload : Type 0 where
  pub remaining : ℕ
  pub sub_type : PayloadKind
  pub sub_payload : List ℕ

abbrev pub first? : List ℕ → Option ℕ
first? [] = none
first? (b ∷ bs) = some b

unfoldable pub decode : List ℕ → Result MultipartPayload
decode input = do
  ensure_payload_len input
  packed ← ok_or (first? input) (truncated "multipart payload")
  ok (record {
    remaining = shr packed 4;
    sub_type = from_nibble packed;
    sub_payload = drop 1 input;
  })

unfoldable pub encode : MultipartPayload → List ℕ
encode p = bit_or (shl8 (bit_and p.remaining 0x0f) 4) (to_nibble p.sub_type) ∷ p.sub_payload

pub record IsValid (p : MultipartPayload) : Type 0 where
  pub count : p.remaining < 16
  pub kind : IsKind p.sub_type

packed_byte :
    (p : MultipartPayload)
    → IsValid p
    → encode p ≡ (p.remaining * 16 + to_nibble p.sub_type) ∷ p.sub_payload
unfolding encode
packed_byte p v =
    let low : bit_and p.remaining 0x0f ≡ p.remaining =
      bit_and_0x0f p.remaining (omega (arith, v.count)) ∙ omega (arith, v.count) in
    rw low (
      ap (λ b. b ∷ p.sub_payload)
        (bit_or_at_4 p.remaining (to_nibble p.sub_type) v.count (to_nibble-lt p.sub_type v.kind)))

-- A part that fits a packet is read back from its encoding.
pub decode-encode :
    (p : MultipartPayload)
    → IsValid p
    → length (encode p) ≤ max_packet_payload
    → decode (encode p) ≡ ok p
unfolding decode
decode-encode p v fits =
    let n : ℕ = to_nibble p.sub_type in
    let packed : ℕ = p.remaining * 16 + n in
    let small : n < 16 = to_nibble-lt p.sub_type v.kind in
    let kind : from_nibble packed ≡ p.sub_type =
      from_nibble-to_nibble p.sub_type packed v.kind (omega (arith, v.count)) (omega arith) in
    let high : shr packed 4 ≡ p.remaining = omega arith in
    rw (ensure_payload_len_fits (encode p) fits, packed_byte p v, kind, high)

-- What is decoded from a slice encodes to that slice.
pub encode-decode :
    (input : List ℕ) (p : MultipartPayload)
    → All IsByte input
    → decode input ≡ ok p
    → (encode p ≡ input) × IsValid p
unfolding decode
encode-decode [] p h e = absurd (ground arith)
encode-decode (b ∷ bs) p (h, hs) e =
    ensure-elim (b ∷ bs) _ (h, hs) e
      λ fits c₀ e₀.
        let q : MultipartPayload = record {
          remaining = shr b 4;
          sub_type = from_nibble b;
          sub_payload = bs;
        } in
        let v : IsValid q = record { count = omega arith; kind = from_nibble-IsKind b h } in
        let byte : shr b 4 * 16 + to_nibble (from_nibble b) ≡ b =
          omega (arith, to_nibble-from_nibble b h) in
        let same : q ≡ p = ground arith in
        subst (λ x. (encode x ≡ b ∷ bs) × IsValid x) same
          (packed_byte q v ∙ ap (λ x. x ∷ bs) byte, v)
