-- ===== src/Protocol/Crypto.antt =====
-- protocol/src/crypto.rs: the hashes that packets carry. SHA-256 and HMAC-SHA-256 are the crates
-- sha2 and hmac: parameters from bytes to bytes. A digest has 32 bytes, so its first bytes are a
-- `take`.
use mcrs.Prelude.{
  ℕ, zero, suc, ◌-◌, min, Option, none, some, List, [], ◌∷◌, ◌++◌, take, ◌==◌, if◌then◌else◌,
}
use mcrs.Prelude.Words.{u16_from_le_bytes, u32_to_le_bytes}
use mcrs.Protocol.Error.{PayloadKind}
use mcrs.Protocol.Header.{to_nibble}
use mcrs.Protocol.Wire.{pub_key_size}
pub mod Prefixes

-- The two reserved codes are moved to their neighbours.
unfoldable pub usable_code : ℕ → ℕ
usable_code code = if code == 0x0000 then 0x0001 else if code == 0xffff then 0xfffe else code

unfoldable pub code_of_digest : Option (List ℕ) → ℕ
code_of_digest none = 0x0001
code_of_digest (some digest) = usable_code (u16_from_le_bytes (take 2 digest))

-- `hmac` answers `none` for a key that `new_from_slice` refuses.
unfoldable pub derive_transport_code :
    (List ℕ → List ℕ → Option (List ℕ)) → List ℕ → PayloadKind → List ℕ → ℕ
derive_transport_code hmac transport_key payload_kind payload_bytes =
    code_of_digest (hmac transport_key (to_nibble payload_kind ∷ payload_bytes))

abbrev pub zeros : ℕ → List ℕ
zeros zero = []
zeros (suc n) = 0 ∷ zeros n

-- A public key has `pub_key_size` bytes; the rest of the hash is zero.
unfoldable pub node_hash : ℕ → List ℕ → List ℕ
node_hash n public_key = take (min n pub_key_size) public_key ++ zeros (n - min n pub_key_size)

unfoldable pub channel_hash : (List ℕ → List ℕ) → List ℕ → List ℕ
channel_hash sha256 channel_secret = take 1 (sha256 channel_secret)

unfoldable pub ack_hash_for_plain_text : (List ℕ → List ℕ) → ℕ → ℕ → List ℕ → List ℕ → List ℕ
ack_hash_for_plain_text sha256 timestamp txt_type_attempt message_text sender_public_key =
    take 4 (
      sha256
        (u32_to_le_bytes timestamp ++ (txt_type_attempt ∷ (message_text ++ sender_public_key))))

unfoldable pub ack_hash_for_signed_plain_text :
    (List ℕ → List ℕ) → ℕ → ℕ → List ℕ → List ℕ → List ℕ → List ℕ
ack_hash_for_signed_plain_text sha256 timestamp txt_type_attempt sender_pubkey_prefix message_text
      recipient_public_key =
    take 4 (
      sha256 (
        u32_to_le_bytes timestamp
        ++ (txt_type_attempt ∷ (sender_pubkey_prefix ++ (message_text ++ recipient_public_key)))))
