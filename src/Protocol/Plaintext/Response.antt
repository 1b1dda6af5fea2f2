-- ===== src/Protocol/Plaintext/Response.antt =====
-- protocol/src/repeater_response_plaintext.rs: the answer of a repeater to a request.
use mathlib.Core.Path.{subst}
use mcrs.Prelude.{ℕ, ◌≤◌, ◌≡◌, List, ◌++◌, length, drop, All, arith}
use mcrs.Prelude.Bits.{IsByte}
use mcrs.Prelude.Words.{length-u32_to_le_bytes, IsU32, u32_to_le_bytes}
use mcrs.Protocol.Error.{Result, ok, ◌>>=◌, ◌>>◌}
use mcrs.Protocol.Wire.{max_packet_payload, ensure_payload_len, read_u32_le}
use mcrs.Protocol.Wire.Cursor.{
  At, At-start, At-skip, read_u32_le-At, drop-At, ensure_payload_len_fits,
}
use mcrs.Protocol.Wire.Inversion.{ensure-elim, read_u32_le-elim}

pub record RepeaterResponsePlaintext : Type 0 where
  pub reflected_tag : ℕ
  pub responder_time : ℕ
  pub body : List ℕ

unfoldable pub decode : List ℕ → Result RepeaterResponsePlaintext
decode input = do
  ensure_payload_len input
  (reflected_tag, offset) ← read_u32_le input 0 "repeater response tag"
  (responder_time, offset) ← read_u32_le input offset "repeater response time"
  ok (record {
    reflected_tag = reflected_tag;
    responder_time = responder_time;
    body = drop offset input;
  })

unfoldable pub encode : RepeaterResponsePlaintext → List ℕ
encode p = u32_to_le_bytes p.reflected_tag ++ (u32_to_le_bytes p.responder_time ++ p.body)

pub record IsValid (p : RepeaterResponsePlaintext) : Type 0 where
  pub tag_fits : IsU32 p.reflected_tag
  pub time_fits : IsU32 p.responder_time

-- A response that fits a packet is read back from its encoding.
pub decode-encode :
    (p : RepeaterResponsePlaintext)
    → IsValid p
    → length (encode p) ≤ max_packet_payload
    → decode (encode p) ≡ ok p
unfolding decode encode
decode-encode p v fits =
    let input : List ℕ = encode p in
    let c₀ : At input 0 input = At-start input (omega arith) in
    let c₁ : At input 4 (u32_to_le_bytes p.responder_time ++ p.body) =
      At-skip (u32_to_le_bytes p.reflected_tag) _ (length-u32_to_le_bytes p.reflected_tag) c₀ in
    rw (
      ensure_payload_len_fits input fits,
      read_u32_le-At _ "repeater response tag" p.reflected_tag v.tag_fits c₀,
      read_u32_le-At p.body "repeater response time" p.responder_time v.time_fits c₁,
      drop-At (
          At-skip (u32_to_le_bytes p.responder_time) p.body
            (length-u32_to_le_bytes p.responder_time) c₁),
    )

-- What is decoded from a slice encodes to that slice.
pub encode-decode :
    (input : List ℕ) (p : RepeaterResponsePlaintext)
    → All IsByte input
    → decode input ≡ ok p
    → (encode p ≡ input) × IsValid p
unfolding decode encode
encode-decode input p h e = ensure-elim input _ h e λ fits c₀ e₀.
    read_u32_le-elim "repeater response tag" c₀ _ e₀ λ tag o₁ u₁ r₁ e₁.
      read_u32_le-elim "repeater response time" r₁.cursor _ e₁ λ time o₂ u₂ r₂ e₂.
        let q : RepeaterResponsePlaintext = record {
          reflected_tag = tag;
          responder_time = time;
          body = drop o₂ input;
        } in
        let same : q ≡ p = ground arith in
        subst (λ x. (encode x ≡ input) × IsValid x) same
          (cc (drop-At r₂.cursor.at, r₁.split, r₂.split), record { tag_fits = u₁; time_fits = u₂ })
