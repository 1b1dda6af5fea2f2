-- ===== src/Protocol/Packet/Route.antt =====
-- The parts of a packet in front of the payload: transport codes and path, both ways.
use mathlib.Core.Path.{subst}
use mcrs.Prelude.{
  ℕ, ◌+◌, ◌≤◌, ◌≡◌, refl, sym, ap, ◌∙◌, Bool, true, false, Option, none, some, List, ◌∷◌, ◌++◌,
  length, drop, All, arith,
}
use mcrs.Prelude.Bits.{IsByte}
use mcrs.Prelude.Words.{IsI8}
use mcrs.Protocol.Error.{ok, >>=-elim}
use mcrs.Protocol.TransportCodes
use mcrs.Protocol.TransportCodes.{TransportCodes}
use mcrs.Protocol.TracePath
use mcrs.Protocol.TracePath.{TracePath}
use mcrs.Protocol.NodePath
use mcrs.Protocol.NodePath.Codec
use mcrs.Protocol.NodePath.Hops
use mcrs.Protocol.NodePath.{NodePath}
use mcrs.Protocol.Packet.{
  RoutePath, normal, traced, is_some, decode_codes, decode_route, route_bytes, codes_bytes,
}

abbrev pub IsRoute : RoutePath → Type 0
IsRoute (normal p) = Unit
IsRoute (traced p) = All IsI8 p.snr_samples

abbrev pub AreCodes : Option TransportCodes → Type 0
AreCodes none = Unit
AreCodes (some codes) = TransportCodes.IsValid codes

-- The route that was written is read back from its length byte and the bytes behind it.
pub decode_route-route_bytes :
    (r : RoutePath) (t : Bool) (bytes : List ℕ)
    → IsRoute r
    → route_bytes r t ≡ ok bytes
    → (b : ℕ) × (tail : List ℕ) × (bytes ≡ b ∷ tail)
      × ((rest : List ℕ) → decode_route t b (tail ++ rest) ≡ ok (r, length tail))
unfolding route_bytes decode_route
decode_route-route_bytes (traced p) true bytes v e =
    >>=-elim (TracePath.encoded_length_byte p) _ e λ b read e'.
      let (byte, counted, short) = TracePath.encoded_length_byte_parts p b read in
      let valid : TracePath.IsValid p = record { counted = counted; short = short; samples = v } in
      let len : p.consumed_hops ≡ length (TracePath.encode_bytes p) =
        counted ∙ sym (TracePath.length-encode_bytes p) in
      (
        b,
        TracePath.encode_bytes p,
        ground arith,
        λ rest. rw (← byte, TracePath.decode-encode p rest valid) (ap (λ n. ok (traced p, n)) len),
      )
decode_route-route_bytes (normal p) false bytes v e =
    >>=-elim (NodePath.encoded_length_byte p) _ e λ b read e'.
      let valid : Hops.IsValid p = Codec.encoded_length_byte-IsValid p b read in
      let byte : b ≡ Codec.length_byte p = ground (arith, Codec.encoded_length_byte_lem p valid) in
      (b, p.bytes, ground arith, λ rest. rw (byte, Codec.decode_wire-bytes p rest valid))
decode_route-route_bytes (traced p) false bytes v e = cc
decode_route-route_bytes (normal p) true bytes v e = cc

-- The route that was read has the encoding that it was read from.
pub route_bytes-decode_route :
    (t : Bool) (b : ℕ) (input : List ℕ) (r : RoutePath) (used : ℕ)
    → IsByte b
    → All IsByte input
    → decode_route t b input ≡ ok (r, used)
    → (tail : List ℕ) × (route_bytes r t ≡ ok (b ∷ tail))
      × (tail ++ drop used input ≡ input)
      × IsRoute r
unfolding route_bytes decode_route
route_bytes-decode_route true b input r used h hs e =
    >>=-elim (TracePath.decode b input) _ e λ (p, n) read e'.
      let (v, byte, end, front) = TracePath.encode-decode b input p n h hs read in
      let same : traced p ≡ r = ground arith in
      let count : n ≡ used = ground arith in
      (
        TracePath.encode_bytes p,
        subst (λ x. route_bytes x true ≡ ok (b ∷ TracePath.encode_bytes p)) same
            (rw (TracePath.encoded_length_byte_lem p v, byte)),
        rw (← count) front,
        subst IsRoute same v.samples,
      )
route_bytes-decode_route false b input r used h hs e =
    >>=-elim (NodePath.decode_wire b input) _ e λ (p, n) read e'.
      let (v, byte, end, front) = Codec.decode_wire_accepts b input p n h read in
      let same : normal p ≡ r = ground arith in
      let count : n ≡ used = ground arith in
      (
        p.bytes,
        subst (λ x. route_bytes x false ≡ ok (b ∷ p.bytes)) same
            (rw (Codec.encoded_length_byte_lem p v, byte)),
        rw (← count) front,
        subst IsRoute same tt,
      )

-- The codes that were written are read back, and the offset is behind them.
pub decode_codes-codes_bytes :
    (b : ℕ) (codes : Option TransportCodes) (rest : List ℕ)
    → AreCodes codes
    → length rest ≤ 255
    → decode_codes (is_some codes) (b ∷ (codes_bytes codes ++ rest))
      ≡ ok (codes, 1 + length (codes_bytes codes))
unfolding decode_codes
decode_codes-codes_bytes b none rest v l = refl
decode_codes-codes_bytes b (some codes) rest v l =
    rw (TransportCodes.decode-encode codes rest v l, TransportCodes.length-encode codes)

-- The codes that were read stand behind the first byte.
pub codes_bytes-decode_codes :
    (has : Bool) (b : ℕ) (input : List ℕ) (codes : Option TransportCodes) (offset : ℕ)
    → All IsByte input
    → length input ≤ 255
    → decode_codes has (b ∷ input) ≡ ok (codes, offset)
    → (codes_bytes codes ++ drop offset (b ∷ input) ≡ input)
      × AreCodes codes
      × (is_some codes ≡ has)
unfolding decode_codes
codes_bytes-decode_codes true b input codes offset h l e =
    >>=-elim (TransportCodes.decode input) _ e λ c read e'.
      let same : some c ≡ codes = ground arith in
      let end : 5 ≡ offset = ground arith in
      let (front, v, _) = TransportCodes.encode-decode input c h l read in
      rw (← end) (
        subst (λ x. (codes_bytes x ++ drop 4 input ≡ input) × AreCodes x × (is_some x ≡ true)) same
          (front, v, refl))
codes_bytes-decode_codes false b input codes offset h l e =
    let same : none ≡ codes = ground arith in
    let end : 1 ≡ offset = ground arith in
    rw (← end) (
      subst (λ x. (codes_bytes x ++ input ≡ input) × AreCodes x × (is_some x ≡ false)) same
        (refl, tt, refl))
