-- ===== src/Protocol/Payload/Trace.antt =====
-- protocol/src/trace_payload.rs: a trace request and the hashes of its route. `encode` gives the
-- bytes that the method appends to `out`.
use mcrs.Prelude.{
  ℕ, ◌%◌, ◌≤◌, ◌≡◌, refl, sym, ap, ◌∙◌, bit_and, List, [], ◌∷◌, ◌++◌, length, drop, All, ◌!=◌,
  arith,
}
use mcrs.Prelude.Bits.{IsByte, bit_and_0xfc}
use mcrs.Prelude.Words.{length-u32_to_le_bytes, IsU32, u32_to_le_bytes}
use mcrs.Protocol.Error.{
  Result, ok, fail_if, ◌>>=◌, ◌>>◌, >>=-elim, invalid_length, invalid_trace_flags,
}
use mcrs.Protocol.Wire.{max_packet_payload, ensure_payload_len, read_u8, read_u32_le}
use mcrs.Protocol.Wire.Cursor.{
  At, At-start, At-skip, read_u8-At, read_u32_le-At, drop-At, ensure_payload_len_fits,
}
use mcrs.Protocol.Wire.Inversion.{ensure-elim, read_u8-elim, read_u32_le-elim}
use mathlib.Core.Path.{subst}
use mcrs.Protocol.HashSize.{
  TraceHashSize, trace_from_bits, trace_size, trace_bits, trace_bits-lt, trace_from_bits-trace_bits,
  trace_bits-trace_from_bits,
}

pub record TracePayload : Type 0 where
  pub tag : ℕ
  pub auth_code : ℕ
  pub hash_size : TraceHashSize
  pub path_hashes : List ℕ

unfoldable pub decode : List ℕ → Result TracePayload
decode input = do
  ensure_payload_len input
  (tag, offset) ← read_u32_le input 0 "trace tag"
  (auth_code, offset) ← read_u32_le input offset "trace auth_code"
  (flags, offset) ← read_u8 input offset "trace flags"
  fail_if (bit_and flags 0xfc != 0) (invalid_trace_flags flags)
  hash_size ← trace_from_bits flags
  let path_hashes = drop offset input
  fail_if (length path_hashes % trace_size hash_size != 0) (invalid_length "trace path_hashes")
  ok (record { tag = tag; auth_code = auth_code; hash_size = hash_size; path_hashes = path_hashes })

unfoldable pub encode : TracePayload → Result (List ℕ)
encode p = do
  fail_if (length p.path_hashes % trace_size p.hash_size != 0) (invalid_length "trace path_hashes")
  ok (
      u32_to_le_bytes p.tag
      ++ (u32_to_le_bytes p.auth_code ++ (trace_bits p.hash_size ∷ p.path_hashes)))

pub record IsValid (p : TracePayload) : Type 0 where
  pub tag_fits : IsU32 p.tag
  pub auth_code_fits : IsU32 p.auth_code

abbrev pub written : TracePayload → List ℕ
written p =
    u32_to_le_bytes p.tag
    ++ (u32_to_le_bytes p.auth_code ++ (trace_bits p.hash_size ∷ p.path_hashes))

abbrev pub IsWhole : TracePayload → Type 0
IsWhole p = length p.path_hashes % trace_size p.hash_size ≡ 0

encode-written : (p : TracePayload) → IsWhole p → encode p ≡ ok (written p)
unfolding encode
encode-written p h = rw h

encode-IsWhole :
    (p : TracePayload) (out : List ℕ) → encode p ≡ ok out → IsWhole p × (out ≡ written p)
unfolding encode
encode-IsWhole p out e = ground arith

decode-written :
    (p : TracePayload)
    → IsValid p
    → IsWhole p
    → length (written p) ≤ max_packet_payload
    → decode (written p) ≡ ok p
unfolding decode
decode-written p v whole fits =
    let input : List ℕ = written p in
    let tail : List ℕ = trace_bits p.hash_size ∷ p.path_hashes in
    let c₀ : At input 0 input = At-start input (omega arith) in
    let c₁ : At input 4 (u32_to_le_bytes p.auth_code ++ tail) =
      At-skip (u32_to_le_bytes p.tag) _ (length-u32_to_le_bytes p.tag) c₀ in
    let c₂ : At input 8 tail =
      At-skip (u32_to_le_bytes p.auth_code) tail (length-u32_to_le_bytes p.auth_code) c₁ in
    let flags : bit_and (trace_bits p.hash_size) 0xfc ≡ 0 =
      bit_and_0xfc (trace_bits p.hash_size) (omega (arith, trace_bits-lt p.hash_size))
      ∙ omega (arith, trace_bits-lt p.hash_size) in
    rw (
      ensure_payload_len_fits input fits,
      read_u32_le-At (u32_to_le_bytes p.auth_code ++ tail) "trace tag" p.tag v.tag_fits c₀,
      read_u32_le-At tail "trace auth_code" p.auth_code v.auth_code_fits c₁,
      read_u8-At p.path_hashes "trace flags" (trace_bits p.hash_size) c₂,
      flags,
      trace_from_bits-trace_bits p.hash_size,
      drop-At (At-skip (trace_bits p.hash_size ∷ []) p.path_hashes refl c₂),
      whole,
    )

-- A trace payload that has an encoding, and one that fits a packet, is read back from it.
pub decode-encode :
    (p : TracePayload) (out : List ℕ)
    → IsValid p
    → encode p ≡ ok out
    → length out ≤ max_packet_payload
    → decode out ≡ ok p
decode-encode p out v e fits =
    let (whole, same) = encode-IsWhole p out e in
    subst (λ x. decode x ≡ ok p) (sym same) (decode-written p v whole (rw (ap length same) at fits))

-- What is decoded from a slice encodes to that slice.
pub encode-decode :
    (input : List ℕ) (p : TracePayload)
    → All IsByte input
    → decode input ≡ ok p
    → (encode p ≡ ok input) × IsValid p
unfolding decode
encode-decode input p h e = ensure-elim input _ h e λ fits c₀ e₀.
    read_u32_le-elim "trace tag" c₀ _ e₀ λ tag o₁ u₁ r₁ e₁.
      read_u32_le-elim "trace auth_code" r₁.cursor _ e₁ λ auth o₂ u₂ r₂ e₂.
        read_u8-elim "trace flags" r₂.cursor _ e₂ λ flags o₃ r₃ e₃.
          >>=-elim (fail_if (bit_and flags 0xfc != 0) (invalid_trace_flags flags)) _ e₃ λ w₁ f₁ e₄.
            >>=-elim (trace_from_bits flags) _ e₄ λ size f₂ e₅.
              >>=-elim
                (fail_if (length (drop o₃ input) % trace_size size != 0)
                  (invalid_length "trace path_hashes"))
                _ e₅
                λ w₂ f₃ e₆.
                  let q : TracePayload = record {
                    tag = tag;
                    auth_code = auth;
                    hash_size = size;
                    path_hashes = drop o₃ input;
                  } in
                  let same : q ≡ p = ground arith in
                  let whole : IsWhole q = ground arith in
                  let bits : trace_bits size ≡ flags =
                    trace_bits-trace_from_bits flags r₃.these.0 f₂
                    ∙ ground (arith, bit_and_0xfc flags r₃.these.0) in
                  let back : written q ≡ input =
                    cc (drop-At r₃.cursor.at, r₁.split, r₂.split, r₃.split, bits) in
                  subst (λ x. (encode x ≡ ok input) × IsValid x) same
                    (
                      encode-written q whole ∙ ap ok back,
                      record { tag_fits = u₁; auth_code_fits = u₂ },
                    )
