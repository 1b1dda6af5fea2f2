-- ===== src/Protocol/Plaintext/Text.antt =====
-- protocol/src/text_message_plaintext.rs and text_type.rs: a text message.
use mathlib.Core.Path.{subst}
use mcrs.Prelude.{
  ℕ, ◌+◌, ◌*◌, ◌/◌, ◌%◌, ◌≤◌, ◌<◌, ◌≡◌, refl, ap, ◌∙◌, bit_and, bit_or, List, [], ◌∷◌, ◌++◌,
  le→not-ltb, length, drop, All, ◌==◌, ltb, if◌then◌else◌, arith, length-append,
}
use mcrs.Prelude.Bits.{IsByte, shr, shl8, bit_and_0x03, bit_and_0x3f, bit_or_at_2}
use mcrs.Prelude.Words.{length-u32_to_le_bytes, IsU32, u32_to_le_bytes}
use mcrs.Protocol.Error.{Result, ok, fail_if, ◌>>=◌, ◌>>◌, >>=-elim, invalid_length}
use mcrs.Protocol.Wire.{max_text_len, ensure_payload_len, read_u8, read_u32_le}
use mcrs.Protocol.Wire.Cursor.{
  At, At-start, At-skip, read_u8-At, read_u32_le-At, drop-At, ensure_payload_len_fits,
}
use mcrs.Protocol.Wire.Inversion.{ensure-elim, read_u8-elim, read_u32_le-elim}

pub data TextType : Type 0 where
  plain cli_data signed_plain : TextType
  reserved : ℕ → TextType

-- The `match` of `from_bits` on the masked bits.
unfoldable pub type_of_bits : ℕ → TextType
type_of_bits n =
    if n == 0
    then plain
    else if n == 1
    then cli_data
    else if n == 2
    then signed_plain
    else reserved n

unfoldable pub from_bits : ℕ → TextType
from_bits bits = type_of_bits (bit_and bits 0x3f)

unfoldable pub to_bits : TextType → ℕ
to_bits plain = 0
to_bits cli_data = 1
to_bits signed_plain = 2
to_bits (reserved n) = bit_and n 0x3f

pub record TextMessagePlaintext : Type 0 where
  pub timestamp : ℕ
  pub text_type : TextType
  pub attempt : ℕ
  pub message : List ℕ

unfoldable pub decode : List ℕ → Result TextMessagePlaintext
decode input = do
  ensure_payload_len input
  (timestamp, offset) ← read_u32_le input 0 "text timestamp"
  (packed, offset) ← read_u8 input offset "text type_attempt"
  let message = drop offset input
  fail_if (ltb max_text_len (length message)) (invalid_length "text message")
  ok (record {
    timestamp = timestamp;
    text_type = from_bits (shr packed 2);
    attempt = bit_and packed 0x03;
    message = message;
  })

unfoldable pub encode : TextMessagePlaintext → Result (List ℕ)
encode p = do
  fail_if (ltb max_text_len (length p.message)) (invalid_length "text message")
  ok (
      u32_to_le_bytes p.timestamp
      ++ (bit_or (shl8 (to_bits p.text_type) 2) (bit_and p.attempt 0x03) ∷ p.message))

abbrev pub IsTextType : TextType → Type 0
IsTextType (reserved n) = (3 ≤ n) × (n < 64)
IsTextType _ = Unit

pub record IsValid (p : TextMessagePlaintext) : Type 0 where
  pub time_fits : IsU32 p.timestamp
  pub sort : IsTextType p.text_type
  pub tries : p.attempt < 4

to_bits-lt : (t : TextType) → IsTextType t → to_bits t < 64
unfolding to_bits
to_bits-lt (reserved n) h = omega (arith, bit_and_0x3f n (omega arith))
to_bits-lt _ h = omega arith

type_of-to_bits : (t : TextType) → IsTextType t → type_of_bits (to_bits t) ≡ t
unfolding type_of_bits to_bits
type_of-to_bits (reserved n) h = ground (arith, bit_and_0x3f n (omega arith))
type_of-to_bits _ h = refl

to_bits-type_of : (n : ℕ) → n < 64 → (to_bits (type_of_bits n) ≡ n) × IsTextType (type_of_bits n)
unfolding type_of_bits to_bits
to_bits-type_of n h = (ground (arith, bit_and_0x3f n (omega arith)), ground arith)

packed_byte :
    (t : TextType) (a : ℕ)
    → IsTextType t
    → a < 4
    → bit_or (shl8 (to_bits t) 2) (bit_and a 0x03) ≡ to_bits t * 4 + a
packed_byte t a h l =
    let low : bit_and a 0x03 ≡ a = bit_and_0x03 a (omega arith) ∙ omega arith in
    rw low (bit_or_at_2 (to_bits t) a (to_bits-lt t h) l)

abbrev written : TextMessagePlaintext → List ℕ
written p = u32_to_le_bytes p.timestamp ++ ((to_bits p.text_type * 4 + p.attempt) ∷ p.message)

encode-written :
    (p : TextMessagePlaintext)
    → IsValid p
    → length p.message ≤ max_text_len
    → encode p ≡ ok (written p)
unfolding encode
encode-written p v l =
    rw (
      le→not-ltb (length p.message) max_text_len l,
      packed_byte p.text_type p.attempt v.sort v.tries,
    )

encode_short :
    (p : TextMessagePlaintext) (out : List ℕ) → encode p ≡ ok out → length p.message ≤ max_text_len
unfolding encode
encode_short p out e = ground arith

length-written : (p : TextMessagePlaintext) → length (written p) ≡ 5 + length p.message
length-written p = omega (
  arith,
  length-u32_to_le_bytes p.timestamp,
  length-append (u32_to_le_bytes p.timestamp) ((to_bits p.text_type * 4 + p.attempt) ∷ p.message),
)

decode-written :
    (p : TextMessagePlaintext)
    → IsValid p
    → length p.message ≤ max_text_len
    → decode (written p) ≡ ok p
unfolding decode from_bits
decode-written p v l =
    let n : ℕ = to_bits p.text_type in
    let packed : ℕ = n * 4 + p.attempt in
    let small : n < 64 = to_bits-lt p.text_type v.sort in
    let input : List ℕ = written p in
    let c₀ : At input 0 input = At-start input (omega (arith, length-written p)) in
    let c₁ : At input 4 (packed ∷ p.message) =
      At-skip (u32_to_le_bytes p.timestamp) _ (length-u32_to_le_bytes p.timestamp) c₀ in
    let high : bit_and (shr packed 2) 0x3f ≡ n =
      bit_and_0x3f (shr packed 2) (omega (arith, v.tries)) ∙ omega (arith, v.tries) in
    let low : bit_and packed 0x03 ≡ p.attempt =
      bit_and_0x03 packed (omega (arith, v.tries)) ∙ omega (arith, v.tries) in
    rw (
      ensure_payload_len_fits input (omega (arith, length-written p)),
      read_u32_le-At (packed ∷ p.message) "text timestamp" p.timestamp v.time_fits c₀,
      read_u8-At p.message "text type_attempt" packed c₁,
      drop-At (At-skip (packed ∷ []) p.message refl c₁),
      le→not-ltb (length p.message) max_text_len l,
      high,
      type_of-to_bits p.text_type v.sort,
      low,
    )

-- A valid text message that has an encoding is read back from it.
pub decode-encode_text :
    (p : TextMessagePlaintext) (out : List ℕ) → IsValid p → encode p ≡ ok out → decode out ≡ ok p
decode-encode_text p out v e =
    let l : length p.message ≤ max_text_len = encode_short p out e in
    let same : written p ≡ out = ground (arith, encode-written p v l) in
    subst (λ x. decode x ≡ ok p) same (decode-written p v l)

-- A list of bytes that decodes to a text message is its encoding, and the message is valid.
pub encode-decode_text :
    (input : List ℕ) (p : TextMessagePlaintext)
    → All IsByte input
    → decode input ≡ ok p
    → (encode p ≡ ok input) × IsValid p
unfolding decode from_bits
encode-decode_text input p h e = ensure-elim input _ h e λ fits c₀ e₀.
    read_u32_le-elim "text timestamp" c₀ _ e₀ λ t o₁ u₁ r₁ e₁.
      read_u8-elim "text type_attempt" r₁.cursor _ e₁ λ packed o₂ r₂ e₂.
        >>=-elim
          (fail_if (ltb max_text_len (length (drop o₂ input))) (invalid_length "text message")) _ e₂
          λ w f e₃.
            let byte : packed < 256 = r₂.these.0 in
            let high : bit_and (shr packed 2) 0x3f ≡ packed / 4 =
              bit_and_0x3f (shr packed 2) (omega arith) ∙ omega arith in
            let low : bit_and packed 0x03 ≡ packed % 4 = bit_and_0x03 packed byte in
            let (bits, sort) = to_bits-type_of (packed / 4) (omega arith) in
            let q : TextMessagePlaintext = record {
              timestamp = t;
              text_type = type_of_bits (packed / 4);
              attempt = packed % 4;
              message = drop o₂ input;
            } in
            let same : q ≡ p = ground (arith, high, low) in
            let short : length (drop o₂ input) ≤ max_text_len = ground arith in
            let v : IsValid q = record { time_fits = u₁; sort = sort; tries = omega arith } in
            let whole : to_bits (type_of_bits (packed / 4)) * 4 + packed % 4 ≡ packed =
              omega (arith, bits) in
            let back : written q ≡ input = cc (whole, drop-At r₂.cursor.at, r₁.split, r₂.split) in
            subst (λ x. (encode x ≡ ok input) × IsValid x) same
              (encode-written q v short ∙ ap ok back, v)
