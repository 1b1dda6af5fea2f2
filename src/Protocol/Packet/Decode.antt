-- ===== src/Protocol/Packet/Decode.antt =====
-- What `encode` writes, `decode` reads back.
use mathlib.Core.Path.{subst}
use mcrs.Prelude.{
  le→not-ltb, drop-append_length, ℕ, suc, ◌+◌, ◌*◌, ◌≤◌, ◌≡◌, refl, ap, Option, some, List, [], ◌∷◌,
  ◌++◌, length, drop, arith, length-append, append_assoc, get_elem?,
}
use mcrs.Protocol.Error.{PayloadKind, ok, >>=-elim}
use mcrs.Protocol.Wire.{max_packet_payload}
use mcrs.Protocol.Wire.{max_trans_unit}
use mcrs.Protocol.Header
use mcrs.Protocol.Header.{
  RouteType, Header, has_transport_codes, is_direct, is_flood, is_trace, to_nibble, to_bits,
}
use mcrs.Protocol.Header.Codec.{IsKind, encode_first, decode_first, first}
use mcrs.Protocol.TransportCodes.{TransportCodes}
use mcrs.Protocol.Payload
use mcrs.Protocol.Payload.{Payload, kind}
use mcrs.Protocol.Payload.Codec
use mcrs.Protocol.Packet.{
  Packet, is_some, validate_semantics, decode_route, decode, route_bytes, codes_bytes, check_codes,
  encode,
}
use mcrs.Protocol.Packet.Route.{
  IsRoute, AreCodes, decode_route-route_bytes, decode_codes-codes_bytes,
}

-- The fields of the packet have the sizes and ranges of their Rust types.
pub record IsValid (p : Packet) : Type 0 where
  pub codes : AreCodes p.transport_codes
  pub route : IsRoute p.path
  pub payload_ok : Codec.IsValid p.payload

module _ {ℓ} {A : Type ℓ} where
  get_elem?-append :
      (xs : List A) (y : A) (ys : List A) → get_elem? (xs ++ (y ∷ ys)) (length xs) ≡ some y
  get_elem?-append [] y ys = refl
  get_elem?-append (x ∷ xs) y ys = get_elem?-append xs y ys

check_codes-ok :
    (p : Packet) (u : Unit {0})
    → check_codes p ≡ ok u
    → has_transport_codes p.route_type ≡ is_some p.transport_codes
unfolding check_codes
check_codes-ok p u e = ground arith

-- The bytes of a packet from its parts.
abbrev laid_out : ℕ → Option TransportCodes → ℕ → List ℕ → List ℕ → List ℕ
laid_out b codes n tail body = b ∷ (codes_bytes codes ++ ((n ∷ tail) ++ body))

module _ (b : ℕ) (codes : Option TransportCodes) (n : ℕ) (tail body : List ℕ) where
  path_length_at :
      get_elem? (laid_out b codes n tail body) (1 + length (codes_bytes codes)) ≡ some n
  path_length_at =
      let len : suc (length (codes_bytes codes)) ≡ 1 + length (codes_bytes codes) = omega arith in
      subst (λ k. get_elem? (laid_out b codes n tail body) k ≡ some n) len
        (get_elem?-append (b ∷ codes_bytes codes) n (tail ++ body))

  path_at : drop (1 + length (codes_bytes codes) + 1) (laid_out b codes n tail body) ≡ tail ++ body
  path_at =
      let front : List ℕ = b ∷ (codes_bytes codes ++ (n ∷ [])) in
      let len : length front ≡ 1 + length (codes_bytes codes) + 1 =
        omega (arith, length-append (codes_bytes codes) (n ∷ [])) in
      let same : front ++ (tail ++ body) ≡ laid_out b codes n tail body =
        ap (λ x. b ∷ x) (append_assoc (codes_bytes codes) (n ∷ []) (tail ++ body)) in
      rw (← len, ← same) (drop-append_length front (tail ++ body))

  body_at :
      drop (1 + length (codes_bytes codes) + 1 + length tail) (laid_out b codes n tail body) ≡ body
  body_at =
      let front : List ℕ = b ∷ (codes_bytes codes ++ (n ∷ tail)) in
      let len : length front ≡ 1 + length (codes_bytes codes) + 1 + length tail =
        omega (arith, length-append (codes_bytes codes) (n ∷ tail)) in
      let same : front ++ body ≡ laid_out b codes n tail body =
        ap (λ x. b ∷ x) (append_assoc (codes_bytes codes) (n ∷ tail) body) in
      rw (← len, ← same) (drop-append_length front body)

-- `decode` on the parts that `encode` wrote.
decode-laid_out :
    (p : Packet) (n : ℕ) (tail body : List ℕ)
    → IsValid p
    → has_transport_codes p.route_type ≡ is_some p.transport_codes
    → validate_semantics p ≡ ok tt
    → ((rest : List ℕ)
        → decode_route (is_trace (kind p.payload)) n (tail ++ rest) ≡ ok (p.path, length tail))
    → Payload.encode p.payload ≡ ok body
    → length body ≤ max_packet_payload
    → let b = to_nibble (kind p.payload) * 4 + to_bits p.route_type in
      length (laid_out b p.transport_codes n tail body) ≤ max_trans_unit
      → decode (laid_out b p.transport_codes n tail body) ≡ ok p
unfolding decode
decode-laid_out p n tail body v has valid route payload short fits =
    let k : PayloadKind = kind p.payload in
    let b : ℕ = to_nibble k * 4 + to_bits p.route_type in
    let codes : Option TransportCodes = p.transport_codes in
    let input : List ℕ = laid_out b codes n tail body in
    let is_kind : IsKind k = Codec.kind-IsKind p.payload v.payload_ok in
    let room : length ((n ∷ tail) ++ body) ≤ 255 =
      omega (arith, length-append (codes_bytes codes) ((n ∷ tail) ++ body)) in
    rw (
      le→not-ltb (length input) max_trans_unit fits,
      decode_first k p.route_type is_kind,
      has,
      decode_codes-codes_bytes b codes ((n ∷ tail) ++ body) v.codes room,
      path_length_at b codes n tail body,
      path_at b codes n tail body,
      route body,
      body_at b codes n tail body,
      le→not-ltb (length body) max_packet_payload short,
      Codec.decode-encode_payload p.payload body v.payload_ok payload short,
      valid,
    )

-- A valid packet that has an encoding is read back from it.
pub decode-encode : (p : Packet) (out : List ℕ) → IsValid p → encode p ≡ ok out → decode out ≡ ok p
unfolding encode
decode-encode p out v e =
    let k : PayloadKind = kind p.payload in
    >>=-elim (check_codes p) _ e λ u₁ f₁ e₁. >>=-elim (validate_semantics p) _ e₁ λ u₂ f₂ e₂.
      >>=-elim (Header.encode (first k p.route_type)) _ e₂ λ b f₃ e₃.
        >>=-elim (route_bytes p.path (is_trace k)) _ e₃ λ route f₄ e₄.
          >>=-elim (Payload.encode p.payload) _ e₄ λ body f₅ e₅.
            let (n, tail, split, read) =
              decode_route-route_bytes p.path (is_trace k) route v.route f₄ in
            let byte : to_nibble k * 4 + to_bits p.route_type ≡ b =
              ground
                (arith, encode_first k p.route_type (Codec.kind-IsKind p.payload v.payload_ok)) in
            let short : length body ≤ max_packet_payload = ground arith in
            let whole : b ∷ (codes_bytes p.transport_codes ++ (route ++ body)) ≡ out =
              ground arith in
            let fits : length out ≤ max_trans_unit = ground arith in
            let same : laid_out (to_nibble k * 4 + to_bits p.route_type) p.transport_codes n tail
                  body
                ≡ out =
              cc (byte, whole, split) in
            subst (λ x. decode x ≡ ok p) same
              (decode-laid_out p n tail body v (check_codes-ok p u₁ f₁) f₂ read f₅ short
                (rw (ap length same) fits))
