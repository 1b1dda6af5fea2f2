-- ===== src/Protocol/Payload/Direct.antt =====
-- protocol/src/direct_encrypted_payload.rs: requests, responses, text messages and returned paths.
use mcrs.Prelude.{
  ℕ, ◌%◌, ◌≤◌, ◌≡◌, refl, Bool, not, ◌&&◌, List, [], ◌∷◌, ◌++◌, length, drop, is_empty, All, ◌==◌,
  arith,
}
use mcrs.Prelude.Bits.{IsByte}
use mcrs.Protocol.Error.{Result, ok, ◌>>=◌, ◌>>◌}
use mcrs.Protocol.Wire.{
  cipher_block_size, cipher_mac_size, max_packet_payload, ensure_payload_len, read_array, read_u8,
}
use mcrs.Protocol.Wire.Cursor.{
  At, At-start, At-skip, read_u8-At, read_array_At, drop-At, ensure_payload_len_fits,
}
use mcrs.Protocol.Wire.Inversion.{ensure-elim, read_u8-elim, read_array-elim}

pub record DirectEncryptedPayload : Type 0 where
  pub destination_hash : ℕ
  pub source_hash : ℕ
  pub mac : List ℕ
  pub ciphertext : List ℕ

unfoldable pub decode : List ℕ → Result DirectEncryptedPayload
decode input = do
  ensure_payload_len input
  (destination_hash, offset) ← read_u8 input 0 "direct destination_hash"
  (source_hash, offset) ← read_u8 input offset "direct source_hash"
  (mac, offset) ← read_array cipher_mac_size input offset "direct mac"
  ok (record {
    destination_hash = destination_hash;
    source_hash = source_hash;
    mac = mac;
    ciphertext = drop offset input;
  })

unfoldable pub encode : DirectEncryptedPayload → List ℕ
encode p = p.destination_hash ∷ p.source_hash ∷ (p.mac ++ p.ciphertext)

unfoldable pub has_complete_ciphertext_blocks : DirectEncryptedPayload → Bool
has_complete_ciphertext_blocks p =
    not (is_empty p.ciphertext) && (length p.ciphertext % cipher_block_size == 0)

pub record IsValid (p : DirectEncryptedPayload) : Type 0 where
  pub mac_size : length p.mac ≡ cipher_mac_size

-- A payload that fits a packet is read back from its encoding.
pub decode-encode :
    (p : DirectEncryptedPayload)
    → IsValid p
    → length (encode p) ≤ max_packet_payload
    → decode (encode p) ≡ ok p
unfolding decode encode
decode-encode p v fits =
    let input : List ℕ = encode p in
    let c₀ : At input 0 input = At-start input (omega arith) in
    let c₁ : At input 1 (p.source_hash ∷ (p.mac ++ p.ciphertext)) =
      At-skip (p.destination_hash ∷ []) _ refl c₀ in
    let c₂ : At input 2 (p.mac ++ p.ciphertext) = At-skip (p.source_hash ∷ []) _ refl c₁ in
    rw (
      ensure_payload_len_fits input fits,
      read_u8-At _ "direct destination_hash" p.destination_hash c₀,
      read_u8-At _ "direct source_hash" p.source_hash c₁,
      read_array_At p.mac p.ciphertext v.mac_size c₂ "direct mac",
      drop-At (At-skip p.mac p.ciphertext v.mac_size c₂),
    )

-- What is decoded from a slice encodes to that slice.
pub encode-decode :
    (input : List ℕ) (p : DirectEncryptedPayload)
    → All IsByte input
    → decode input ≡ ok p
    → (encode p ≡ input) × IsValid p
unfolding decode encode
encode-decode input p h e = ensure-elim input _ h e λ fits c₀ e₀.
    read_u8-elim "direct destination_hash" c₀ _ e₀ λ d o₁ r₁ e₁.
      read_u8-elim "direct source_hash" r₁.cursor _ e₁ λ s o₂ r₂ e₂.
        read_array-elim "direct mac" r₂.cursor cipher_mac_size _ e₂ λ mac o₃ r₃ e₃. (
          cc (drop-At r₃.cursor.at, r₁.split, r₂.split, r₃.split),
          record { mac_size = cc r₃.count },
        )
