-- ===== src/Protocol/Payload/Group.antt =====
-- protocol/src/group_encrypted_payload.rs: group texts and group data. `encode` gives the bytes that
-- the method appends to `out`.
use mcrs.Prelude.{ℕ, ◌≤◌, ◌≡◌, refl, List, [], ◌∷◌, ◌++◌, length, drop, All, arith}
use mcrs.Prelude.Bits.{IsByte}
use mcrs.Protocol.Error.{Result, ok, ◌>>=◌, ◌>>◌}
use mcrs.Protocol.Wire.{
  cipher_mac_size, max_packet_payload, ensure_payload_len, read_array, read_u8,
}
use mcrs.Protocol.Wire.Cursor.{
  At, At-start, At-skip, read_u8-At, read_array_At, drop-At, ensure_payload_len_fits,
}
use mcrs.Protocol.Wire.Inversion.{ensure-elim, read_u8-elim, read_array-elim}

pub record GroupEncryptedPayload : Type 0 where
  pub channel_hash : ℕ
  pub mac : List ℕ
  pub ciphertext : List ℕ

unfoldable pub decode : List ℕ → Result GroupEncryptedPayload
decode input = do
  ensure_payload_len input
  (channel_hash, offset) ← read_u8 input 0 "group channel_hash"
  (mac, offset) ← read_array cipher_mac_size input offset "group mac"
  ok (record { channel_hash = channel_hash; mac = mac; ciphertext = drop offset input })

unfoldable pub encode : GroupEncryptedPayload → List ℕ
encode p = p.channel_hash ∷ (p.mac ++ p.ciphertext)

pub record IsValid (p : GroupEncryptedPayload) : Type 0 where
  pub mac_size : length p.mac ≡ cipher_mac_size

-- A payload that fits a packet is read back from its encoding.
pub decode-encode :
    (p : GroupEncryptedPayload)
    → IsValid p
    → length (encode p) ≤ max_packet_payload
    → decode (encode p) ≡ ok p
unfolding decode encode
decode-encode p v fits =
    let input : List ℕ = encode p in
    let c₀ : At input 0 input = At-start input (omega arith) in
    let c₁ : At input 1 (p.mac ++ p.ciphertext) = At-skip (p.channel_hash ∷ []) _ refl c₀ in
    rw (
      ensure_payload_len_fits input fits,
      read_u8-At _ "group channel_hash" p.channel_hash c₀,
      read_array_At p.mac p.ciphertext v.mac_size c₁ "group mac",
      drop-At (At-skip p.mac p.ciphertext v.mac_size c₁),
    )

-- What is decoded from a slice encodes to that slice.
pub encode-decode :
    (input : List ℕ) (p : GroupEncryptedPayload)
    → All IsByte input
    → decode input ≡ ok p
    → (encode p ≡ input) × IsValid p
unfolding decode encode
encode-decode input p h e = ensure-elim input _ h e λ fits c₀ e₀.
    read_u8-elim "group channel_hash" c₀ _ e₀ λ d o₁ r₁ e₁.
      read_array-elim "group mac" r₁.cursor cipher_mac_size _ e₁ λ mac o₂ r₂ e₂.
        (cc (drop-At r₂.cursor.at, r₁.split, r₂.split), record { mac_size = cc r₂.count })
