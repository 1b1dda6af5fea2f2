-- ===== src/Protocol/Payload/Anonymous.antt =====
-- protocol/src/anonymous_request_payload.rs: a request that carries its sender's public key.
-- `encode` gives the bytes that the method appends to `out`.
use mcrs.Prelude.{ℕ, ◌≤◌, ◌≡◌, refl, List, [], ◌∷◌, ◌++◌, length, drop, All, arith}
use mcrs.Prelude.Bits.{IsByte}
use mcrs.Protocol.Error.{Result, ok, ◌>>=◌, ◌>>◌}
use mcrs.Protocol.Wire.{
  pub_key_size, cipher_mac_size, max_packet_payload, ensure_payload_len, read_array, read_u8,
}
use mcrs.Protocol.Wire.Cursor.{
  At, At-start, At-skip, read_u8-At, read_array_At, drop-At, ensure_payload_len_fits,
}
use mcrs.Protocol.Wire.Inversion.{ensure-elim, read_u8-elim, read_array-elim}

pub record AnonymousRequestPayload : Type 0 where
  pub destination_hash : ℕ
  pub sender_pubkey : List ℕ
  pub mac : List ℕ
  pub ciphertext : List ℕ

unfoldable pub decode : List ℕ → Result AnonymousRequestPayload
decode input = do
  ensure_payload_len input
  (destination_hash, offset) ← read_u8 input 0 "anonymous destination_hash"
  (sender_pubkey, offset) ← read_array pub_key_size input offset "anonymous sender_pubkey"
  (mac, offset) ← read_array cipher_mac_size input offset "anonymous mac"
  ok (record {
    destination_hash = destination_hash;
    sender_pubkey = sender_pubkey;
    mac = mac;
    ciphertext = drop offset input;
  })

unfoldable pub encode : AnonymousRequestPayload → List ℕ
encode p = p.destination_hash ∷ (p.sender_pubkey ++ (p.mac ++ p.ciphertext))

pub record IsValid (p : AnonymousRequestPayload) : Type 0 where
  pub key_size : length p.sender_pubkey ≡ pub_key_size
  pub mac_size : length p.mac ≡ cipher_mac_size

-- A payload that fits a packet is read back from its encoding.
pub decode-encode :
    (p : AnonymousRequestPayload)
    → IsValid p
    → length (encode p) ≤ max_packet_payload
    → decode (encode p) ≡ ok p
unfolding decode encode
decode-encode p v fits =
    let input : List ℕ = encode p in
    let tail : List ℕ = p.mac ++ p.ciphertext in
    let c₀ : At input 0 input = At-start input (omega arith) in
    let c₁ : At input 1 (p.sender_pubkey ++ tail) = At-skip (p.destination_hash ∷ []) _ refl c₀ in
    let c₂ : At input 33 tail = At-skip p.sender_pubkey tail v.key_size c₁ in
    rw (
      ensure_payload_len_fits input fits,
      read_u8-At _ "anonymous destination_hash" p.destination_hash c₀,
      read_array_At p.sender_pubkey tail v.key_size c₁ "anonymous sender_pubkey",
      read_array_At p.mac p.ciphertext v.mac_size c₂ "anonymous mac",
      drop-At (At-skip p.mac p.ciphertext v.mac_size c₂),
    )

-- What is decoded from a slice encodes to that slice.
pub encode-decode :
    (input : List ℕ) (p : AnonymousRequestPayload)
    → All IsByte input
    → decode input ≡ ok p
    → (encode p ≡ input) × IsValid p
unfolding decode encode
encode-decode input p h e = ensure-elim input _ h e λ fits c₀ e₀.
    read_u8-elim "anonymous destination_hash" c₀ _ e₀ λ d o₁ r₁ e₁.
      read_array-elim "anonymous sender_pubkey" r₁.cursor pub_key_size _ e₁ λ key o₂ r₂ e₂.
        read_array-elim "anonymous mac" r₂.cursor cipher_mac_size _ e₂ λ mac o₃ r₃ e₃. (
          cc (drop-At r₃.cursor.at, r₁.split, r₂.split, r₃.split),
          record { key_size = cc r₂.count; mac_size = cc r₃.count },
        )
