-- ===== src/Protocol/Header/Codec.antt =====
-- The header byte, its nibble and its route bits are read back as they were written.
use mcrs.Prelude.{ℕ, ◌+◌, ◌*◌, ◌%◌, ◌/◌, ◌≤◌, ◌<◌, ◌≡◌, refl, sym, ap, ◌∙◌, bit_and, arith}
use mathlib.Core.Path.{subst}
use mcrs.Prelude.Bits.{
  IsByte, shr, shl8, all_below, agree_below, bit_and_0x0f, bit_and_0x03, bit_or_at_2, zero-bit_or,
}
use mcrs.Protocol.Error.{PayloadKind, reserved, ok}
use mcrs.Protocol.Header.{
  RouteType, direct, Header, kind_of_nibble, from_nibble, to_nibble, from_bits, to_bits, decode,
  encode,
}

-- The kinds that a nibble can name: a reserved one is not a number that has a name of its own.
abbrev pub IsKind : PayloadKind → Type 0
IsKind (reserved n) = (12 ≤ n) × (n < 15)
IsKind _ = Unit

pub to_nibble-lt : (k : PayloadKind) → IsKind k → to_nibble k < 16
unfolding to_nibble
to_nibble-lt (reserved n) h = omega (arith, bit_and_0x0f n (omega arith))
to_nibble-lt _ h = omega arith

kind_of-to_nibble : (k : PayloadKind) → IsKind k → kind_of_nibble (to_nibble k) ≡ k
unfolding kind_of_nibble to_nibble
kind_of-to_nibble (reserved n) h = ground (arith, bit_and_0x0f n (omega arith))
kind_of-to_nibble _ h = refl

pub from_nibble_masked : (n : ℕ) → IsByte n → from_nibble n ≡ kind_of_nibble (n % 16)
unfolding from_nibble
from_nibble_masked n h = rw (bit_and_0x0f n h)

-- Any byte whose low nibble is the kind's own gives the kind back.
pub from_nibble-to_nibble :
    (k : PayloadKind) (n : ℕ) → IsKind k → IsByte n → n % 16 ≡ to_nibble k → from_nibble n ≡ k
from_nibble-to_nibble k n h p e = rw (from_nibble_masked n p, e) (kind_of-to_nibble k h)

pub to_nibble-from_nibble : (n : ℕ) → IsByte n → to_nibble (from_nibble n) ≡ n % 16
unfolding all_below to_nibble from_nibble
to_nibble-from_nibble n h = agree_below 256 (λ b. to_nibble (from_nibble b)) (λ b. b % 16) refl n h

pub from_nibble-IsKind : (n : ℕ) → IsByte n → IsKind (from_nibble n)
unfolding kind_of_nibble
from_nibble-IsKind n h = rw (from_nibble_masked n h) (ground arith)

pub to_bits-lt : (r : RouteType) → to_bits r < 4
unfolding to_bits
to_bits-lt direct = omega arith
to_bits-lt _ = omega arith

pub from_bits-to_bits : (r : RouteType) (b : ℕ) → IsByte b → b % 4 ≡ to_bits r → from_bits b ≡ r
unfolding from_bits to_bits
from_bits-to_bits direct b h e = ground (arith, bit_and_0x03 b h)
from_bits-to_bits _ b h e = ground (arith, bit_and_0x03 b h)

pub to_bits-from_bits : (b : ℕ) → IsByte b → to_bits (from_bits b) ≡ b % 4
unfolding from_bits to_bits
to_bits-from_bits b h = ground (arith, bit_and_0x03 b h)

abbrev pub first : PayloadKind → RouteType → Header
first k r = record { payload_version = 1; payload_kind = k; route_type = r }

-- The byte of a header of version 1, and what is read from it.
module _ (k : PayloadKind) (r : RouteType) (h : IsKind k) where
  pub encode_first : encode (first k r) ≡ ok (to_nibble k * 4 + to_bits r)
  unfolding encode
  encode_first = rw (
    zero-bit_or (shl8 (to_nibble k) 2) (omega arith),
    bit_or_at_2 (to_nibble k) (to_bits r) (omega (arith, to_nibble-lt k h)) (to_bits-lt r),
  )

  pub decode_first : decode (to_nibble k * 4 + to_bits r) ≡ ok (first k r)
  unfolding decode
  decode_first =
      let n : ℕ = to_nibble k * 4 + to_bits r in
      let low : n < 64 = omega (arith, to_nibble-lt k h, to_bits-lt r) in
      let nibble : from_nibble (bit_and (shr n 2) 0x0f) ≡ k =
        rw (bit_and_0x0f (shr n 2) (omega arith)) (
          from_nibble-to_nibble k _ h (omega arith)
            (omega (arith, to_nibble-lt k h, to_bits-lt r))) in
      let bits : from_bits n ≡ r =
        from_bits-to_bits r n (omega arith) (omega (arith, to_bits-lt r)) in
      ground (arith, low, nibble, bits)

encode_version : (h : Header) (b : ℕ) → encode h ≡ ok b → h.payload_version ≡ 1
unfolding encode
encode_version h b e = ground arith

-- A header whose kind a nibble can name is read back from its byte.
pub decode-encode : (h : Header) (b : ℕ) → IsKind h.payload_kind → encode h ≡ ok b → decode b ≡ ok h
decode-encode h b k e =
    let version : h.payload_version ≡ 1 = encode_version h b e in
    let same : first h.payload_kind h.route_type ≡ h = λ i. record {
      payload_version = sym version i;
      payload_kind = h.payload_kind;
      route_type = h.route_type;
    } in
    let byte : b ≡ to_nibble h.payload_kind * 4 + to_bits h.route_type =
      cc (same, e, encode_first h.payload_kind h.route_type k) in
    rw byte (decode_first h.payload_kind h.route_type k ∙ ap ok same)

decode_low :
    (b : ℕ) → b < 64 → decode b ≡ ok (first (from_nibble (bit_and (shr b 2) 0x0f)) (from_bits b))
unfolding decode
decode_low b h = ground arith

decode_high : (b : ℕ) (h : Header) → decode b ≡ ok h → b < 64
unfolding decode
decode_high b h e = ground arith

-- A byte that decodes to a header is below 64 and is the encoding of that header, which has a kind
-- that a nibble can name and version 1.
pub decode_accepts :
    (b : ℕ) (h : Header)
    → decode b ≡ ok h
    → (b < 64) × (encode h ≡ ok b) × IsKind h.payload_kind × (first h.payload_kind h.route_type ≡ h)
decode_accepts b h e =
    let low : b < 64 = decode_high b h e in
    let n : ℕ = bit_and (shr b 2) 0x0f in
    let nibble : n ≡ b / 4 = bit_and_0x0f (shr b 2) (omega arith) ∙ omega arith in
    let kind : IsKind (from_nibble n) = from_nibble-IsKind n (omega arith) in
    let same : first (from_nibble n) (from_bits b) ≡ h = ground (arith, decode_low b low) in
    let byte : to_nibble (from_nibble n) * 4 + to_bits (from_bits b) ≡ b =
      omega (arith, to_nibble-from_nibble n (omega arith), to_bits-from_bits b (omega arith)) in
    (
      low,
      subst (λ g. encode g ≡ ok b) same (encode_first _ _ kind ∙ ap ok byte),
      subst (λ (g : Header). IsKind g.payload_kind) same kind,
      subst (λ (g : Header). first g.payload_kind g.route_type ≡ g) same refl,
    )
