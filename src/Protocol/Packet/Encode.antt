-- ===== src/Protocol/Packet/Encode.antt =====
-- What `decode` accepts, `encode` writes back: every packet has one encoding only.
use mathlib.Core.Path.{subst}
use mcrs.Prelude.{
  ℕ, zero, suc, ◌+◌, ◌≤◌, ◌≡◌, refl, sym, ap, ◌∙◌, some, List, [], ◌∷◌, ◌++◌, le→not-ltb, length,
  drop, All, ltb, arith, inl, inr, Bool-cases, get_elem?,
}
use mcrs.Prelude.Bits.{IsByte}
use mcrs.Protocol.Error.{ok, ok_or, fail_if, >>=-elim, truncated, payload_too_long}
use mcrs.Protocol.Wire.{max_packet_payload}
use mcrs.Protocol.Error.{packet_too_long}
use mcrs.Protocol.Wire.{max_trans_unit}
use mcrs.Protocol.Header
use mcrs.Protocol.Header.{
  RouteType, Header, has_transport_codes, is_direct, is_flood, is_trace, to_nibble, to_bits,
}
use mcrs.Protocol.Header.Codec.{first, decode_accepts}
use mcrs.Protocol.Payload
use mcrs.Protocol.Payload.{Payload, kind}
use mcrs.Protocol.Payload.Codec
use mcrs.Protocol.Packet.{
  Packet, is_some, validate_semantics, decode_codes, decode_route, decode, route_bytes, codes_bytes,
  check_codes, encode,
}
use mcrs.Protocol.Packet.Route.{route_bytes-decode_route, codes_bytes-decode_codes}
use mcrs.Protocol.Packet.Decode.{IsValid}

get_elem?-drop :
    (i : ℕ) (xs : List ℕ) (n : ℕ) → get_elem? xs i ≡ some n → drop i xs ≡ n ∷ drop (i + 1) xs
get_elem?-drop i [] n e = cc
get_elem?-drop zero (x ∷ xs) n e = ground arith
get_elem?-drop (suc i) (x ∷ xs) n e =
    let next : suc (i + 1) ≡ suc i + 1 = omega arith in
    get_elem?-drop i xs n e ∙ ap (λ k. n ∷ drop k (x ∷ xs)) next

All-drop : (i : ℕ) (xs : List ℕ) → All IsByte xs → All IsByte (drop i xs)
All-drop zero xs h = h
All-drop (suc i) [] h = tt
All-drop (suc i) (x ∷ xs) h = All-drop i xs h.1

drop-nil : (i : ℕ) → drop {A = ℕ} i [] ≡ []
drop-nil zero = refl
drop-nil (suc i) = refl

pub drop-drop : (i j : ℕ) (xs : List ℕ) → drop j (drop i xs) ≡ drop (i + j) xs
drop-drop zero j xs = ap (λ k. drop k xs) (omega arith)
drop-drop (suc i) j [] = drop-nil j ∙ sym (drop-nil (suc i + j))
drop-drop (suc i) j (x ∷ xs) =
    let next : suc (i + j) ≡ suc i + j = omega arith in
    drop-drop i j xs ∙ ap (λ k. drop k (x ∷ xs)) next

-- `encode` on parts that fit together.
encode_parts :
    (q : Packet) (b : ℕ) (route body : List ℕ)
    → has_transport_codes q.route_type ≡ is_some q.transport_codes
    → validate_semantics q ≡ ok tt
    → Header.encode (first (kind q.payload) q.route_type) ≡ ok b
    → route_bytes q.path (is_trace (kind q.payload)) ≡ ok route
    → Payload.encode q.payload ≡ ok body
    → length body ≤ max_packet_payload
    → length (b ∷ (codes_bytes q.transport_codes ++ (route ++ body))) ≤ max_trans_unit
    → encode q ≡ ok (b ∷ (codes_bytes q.transport_codes ++ (route ++ body)))
unfolding encode check_codes
encode_parts q b route body has valid byte path payload short fits =
    let out : List ℕ = b ∷ (codes_bytes q.transport_codes ++ (route ++ body)) in
    rw has (elim (Bool-cases (is_some q.transport_codes)) [
      | inl yes_codes ↦ rw (
        yes_codes,
        valid,
        byte,
        path,
        payload,
        le→not-ltb (length body) max_packet_payload short,
        le→not-ltb (length out) max_trans_unit fits,
      )
      | inr no_codes ↦ rw (
        no_codes,
        valid,
        byte,
        path,
        payload,
        le→not-ltb (length body) max_packet_payload short,
        le→not-ltb (length out) max_trans_unit fits,
      )
    ])

-- A list of bytes that decodes to a packet is the encoding of that packet, and the packet is
-- valid.
pub encode-decode :
    (input : List ℕ) (p : Packet)
    → All IsByte input
    → decode input ≡ ok p
    → (encode p ≡ ok input) × IsValid p
unfolding decode encode
encode-decode [] p h e = absurd (ground arith)
encode-decode (b ∷ bs) p (h, hs) e =
    >>=-elim (fail_if (ltb max_trans_unit (length (b ∷ bs))) (packet_too_long (length (b ∷ bs)))) _
      e
      λ w₁ f₁ e₁. >>=-elim (Header.decode b) _ e₁ λ header f₂ e₂.
        >>=-elim (decode_codes (has_transport_codes header.route_type) (b ∷ bs)) _ e₂
          λ (codes, offset) f₃ e₃.
            >>=-elim (ok_or (get_elem? (b ∷ bs) offset) (truncated "path_length")) _ e₃ λ n f₄ e₄.
              >>=-elim (decode_route (is_trace header.payload_kind) n (drop (offset + 1) (b ∷ bs)))
                _ e₄
                λ (path, used) f₅ e₅.
                  >>=-elim
                    (fail_if (ltb max_packet_payload (length (drop (offset + 1 + used) (b ∷ bs))))
                      (payload_too_long (length (drop (offset + 1 + used) (b ∷ bs)))))
                    _ e₅
                    λ w₂ f₆ e₆.
                      >>=-elim
                        (Payload.decode header.payload_kind (drop (offset + 1 + used) (b ∷ bs))) _
                        e₆
                        λ body f₇ e₇.
                          let q : Packet = record {
                            route_type = header.route_type;
                            transport_codes = codes;
                            path = path;
                            payload = body;
                          } in
                          >>=-elim (validate_semantics q) _ e₇ λ w₃ f₈ e₈.
                            let input : List ℕ = b ∷ bs in
                            let fits : length input ≤ max_trans_unit = ground arith in
                            let short : length (drop (offset + 1 + used) input)
                                ≤ max_packet_payload =
                              ground arith in
                            let same : q ≡ p = ground arith in
                            let at_n : get_elem? input offset ≡ some n = ground arith in
                            let (low, byte, is_kind, version) = decode_accepts b header f₂ in
                            let (front, good_codes, has) =
                              codes_bytes-decode_codes _ b bs codes offset hs (omega arith) f₃ in
                            let next : drop offset input ≡ n ∷ drop (offset + 1) input =
                              get_elem?-drop offset input n at_n in
                            let behind : All IsByte (n ∷ drop (offset + 1) input) =
                              subst (All IsByte) next (All-drop offset input (h, hs)) in
                            let (tail, route, split, good_route) =
                              route_bytes-decode_route _ n _ path used behind.0 behind.1 f₅ in
                            let (written, of_kind, good_payload) =
                              Codec.encode-decode_payload header.payload_kind
                                (drop (offset + 1 + used) input) body is_kind
                                (All-drop (offset + 1 + used) input (h, hs)) f₇ in
                            let rest : drop used (drop (offset + 1) input)
                                ≡ drop (offset + 1 + used) input =
                              drop-drop (offset + 1) used input in
                            let whole : b
                                  ∷ (codes_bytes codes
                                      ++ ((n ∷ tail) ++ drop (offset + 1 + used) input))
                                ≡ input =
                              ap (λ x. b ∷ (codes_bytes codes ++ (n ∷ tail ++ x))) (sym rest)
                              ∙ ap (λ x. b ∷ (codes_bytes codes ++ (n ∷ x))) split
                              ∙ ap (λ x. b ∷ (codes_bytes codes ++ x)) (sym next)
                              ∙ ap (λ x. b ∷ x) front in
                            let header_byte : Header.encode (first (kind body) header.route_type)
                                ≡ ok b =
                              rw of_kind (rw version byte) in
                            subst (λ x. (encode x ≡ ok input) × IsValid x) same
                              (
                                encode_parts q b (n ∷ tail) (drop (offset + 1 + used) input)
                                      (sym has) f₈ header_byte (rw of_kind route) written short
                                      (omega (arith, fits, ap length whole))
                                    ∙ ap ok whole,
                                record {
                                  codes = good_codes;
                                  route = good_route;
                                  payload_ok = good_payload;
                                },
                              )
