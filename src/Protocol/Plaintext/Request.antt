-- ===== src/Protocol/Plaintext/Request.antt =====
-- protocol/src/request_plaintext.rs: a request with the time of its sender.
use mathlib.Core.Path.{subst}
use mcrs.Prelude.{ℕ, ◌≤◌, ◌≡◌, List, ◌++◌, length, drop, All, arith}
use mcrs.Prelude.Bits.{IsByte}
use mcrs.Prelude.Words.{length-u32_to_le_bytes, IsU32, u32_to_le_bytes}
use mcrs.Protocol.Error.{Result, ok, ◌>>=◌, ◌>>◌}
use mcrs.Protocol.Wire.{max_packet_payload, ensure_payload_len, read_u32_le}
use mcrs.Protocol.Wire.Cursor.{
  At, At-start, At-skip, read_u32_le-At, drop-At, ensure_payload_len_fits,
}
use mcrs.Protocol.Wire.Inversion.{ensure-elim, read_u32_le-elim}

pub record RequestPlaintext : Type 0 where
  pub timestamp : ℕ
  pub request_data : List ℕ

unfoldable pub decode : List ℕ → Result RequestPlaintext
decode input = do
  ensure_payload_len input
  (timestamp, offset) ← read_u32_le input 0 "request timestamp"
  ok (record { timestamp = timestamp; request_data = drop offset input })

unfoldable pub encode : RequestPlaintext → List ℕ
encode p = u32_to_le_bytes p.timestamp ++ p.request_data

-- A request that fits a packet is read back from its encoding.
pub decode-encode :
    (p : RequestPlaintext)
    → IsU32 p.timestamp
    → length (encode p) ≤ max_packet_payload
    → decode (encode p) ≡ ok p
unfolding decode encode
decode-encode p v fits =
    let input : List ℕ = encode p in
    let c₀ : At input 0 input = At-start input (omega arith) in
    let c₁ : At input 4 p.request_data =
      At-skip (u32_to_le_bytes p.timestamp) _ (length-u32_to_le_bytes p.timestamp) c₀ in
    rw (
      ensure_payload_len_fits input fits,
      read_u32_le-At p.request_data "request timestamp" p.timestamp v c₀,
      drop-At c₁,
    )

-- What is decoded from a slice encodes to that slice.
pub encode-decode :
    (input : List ℕ) (p : RequestPlaintext)
    → All IsByte input
    → decode input ≡ ok p
    → (encode p ≡ input) × IsU32 p.timestamp
unfolding decode encode
encode-decode input p h e = ensure-elim input _ h e λ fits c₀ e₀.
    read_u32_le-elim "request timestamp" c₀ _ e₀ λ t o₁ u₁ r₁ e₁.
      let same : record { timestamp = t; request_data = drop o₁ input } ≡ p = ground arith in
      subst (λ (x : RequestPlaintext). (encode x ≡ input) × IsU32 x.timestamp) same
        (cc (drop-At r₁.cursor.at, r₁.split), u₁)
