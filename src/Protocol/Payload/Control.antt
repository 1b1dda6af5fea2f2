-- ===== src/Protocol/Payload/Control.antt =====
-- protocol/src/control_payload.rs, control_message.rs and advert_node_type.rs: discovery requests
-- and responses. `encode` gives the bytes that the method appends to `out`.
pub mod NodeType
pub mod Messages
use mcrs.Prelude.{
  ℕ, zero, suc, ◌+◌, ◌-◌, ◌*◌, ◌/◌, ◌%◌, ◌≤◌, ◌<◌, ◌≡◌, ◌≢◌, ◌⊎◌, refl, sym, ap, ◌∙◌, bit_and,
  bit_or, Bool, true, false, not, ◌&&◌, ◌||◌, Option, none, some, List, [], ◌∷◌, ◌++◌, length, take,
  drop, is_empty, All, ◌==◌, ◌!=◌, ltb, leb, if◌then◌else◌, arith, length-append, inl, inr,
  Bool-cases, append-nil, append_assoc, get_elem?,
}
use mcrs.Prelude.Bits.{
  IsByte, shr, shl8, bit_and_0x01, bit_and_0x03, bit_and_0x0f, bit_and_0x3f, bit_and_0xfc,
  bit_and_0x80, bit_or_at_2, bit_or_at_4,
}
use mcrs.Prelude.Words.{
  ℤ, IsU16, IsU32, IsI8, IsI32, u16_to_le_bytes, u32_to_le_bytes, as_i8, as_u8, as_i32, as_u32,
  as_i8-as_u8, as_u8-as_i8, as_i32-as_u32, as_u32-as_i32, as_i8-IsI8, as_u8-IsByte, as_u32-IsU32,
}
use mcrs.Protocol.Error.{
  Error, PayloadKind, Result, ok, err, ok_or, fail_if, ◌>>=◌, ◌>>◌, >>=-elim, Result-cases,
  truncated, invalid_length, payload_too_long, invalid_trace_flags, invalid_utf8,
}
use mcrs.Protocol.Wire.{
  pub_key_size, signature_size, cipher_block_size, cipher_mac_size, max_packet_payload,
  max_advert_data_size, max_text_len, ensure_payload_len, read_array, read_u8, read_u16_le,
  read_u32_le, read_i32_le,
}
use mcrs.Protocol.Wire.Cursor.{
  At, At-start, At-skip, read_u8-At, read_u16_le-At, read_u32_le-At, read_array_At, drop-At,
  ensure_payload_len_fits,
}
use mcrs.Protocol.Wire.Inversion.{
  Cursor, Cursor-start, Read, ensure-elim, read_u8-elim, read_array-elim, read_u16_le-elim,
  read_u32_le-elim,
}
use mcrs.Protocol.Payload.Control.NodeType.{AdvertNodeType, from_nibble, to_nibble}

pub record ControlPayload : Type 0 where
  pub flags : ℕ
  pub content : List ℕ

pub data ControlMessage : Type 0 where
  -- prefix_only, type_filter, tag, since
  discover_request : Bool → ℕ → ℕ → Option ℕ → ControlMessage
  -- node_type, snr_quarters, tag, pubkey
  discover_response : AdvertNodeType → ℤ → ℕ → List ℕ → ControlMessage
  unknown : ControlPayload → ControlMessage

unfoldable pub new : ℕ → ℕ → List ℕ → ControlPayload
new sub_type sub_data content = record {
  flags = bit_or (shl8 (bit_and sub_type 0x0f) 4) (bit_and sub_data 0x0f);
  content = content;
}

abbrev pub from_bool : Bool → ℕ
from_bool true = 1
from_bool false = 0

-- The bytes of an optional word.
abbrev pub optional_u32 : Option ℕ → List ℕ
optional_u32 none = []
optional_u32 (some v) = u32_to_le_bytes v

unfoldable pub new_request : ℕ → ℕ → Option ℕ → Bool → ControlPayload
new_request type_filter tag since prefix_only =
    new 0x08 (from_bool prefix_only) (type_filter ∷ (u32_to_le_bytes tag ++ optional_u32 since))

unfoldable pub new_response : AdvertNodeType → ℤ → ℕ → List ℕ → ControlPayload
new_response node_type snr_quarters tag pubkey =
    new 0x09 (to_nibble node_type) (as_u8 snr_quarters ∷ (u32_to_le_bytes tag ++ pubkey))

abbrev first? : List ℕ → Option ℕ
first? [] = none
first? (b ∷ bs) = some b

unfoldable pub decode : List ℕ → Result ControlPayload
decode input = do
  ensure_payload_len input
  flags ← ok_or (first? input) (truncated "control payload")
  ok (record { flags = flags; content = drop 1 input })

unfoldable pub encode : ControlPayload → List ℕ
encode p = p.flags ∷ p.content

unfoldable pub sub_type : ControlPayload → ℕ
sub_type p = shr p.flags 4

unfoldable pub sub_data : ControlPayload → ℕ
sub_data p = bit_and p.flags 0x0f

unfoldable pub zero_hop_only : ControlPayload → Bool
zero_hop_only p = bit_and p.flags 0x80 != 0

-- The two known arms of the `match` of `message`.
unfoldable pub request_message : ControlPayload → Result ControlMessage
request_message p = do
  fail_if (length p.content != 5 && length p.content != 9) (invalid_length "discover request")
  (type_filter, offset) ← read_u8 p.content 0 "discover type_filter"
  (tag, offset) ← read_u32_le p.content offset "discover tag"
  since ←
      if length p.content == 9
      then (do (since, end) ← read_u32_le p.content offset "discover since"; ok (some since))
      else ok none
  ok (discover_request (bit_and (sub_data p) 0x01 != 0) type_filter tag since)

unfoldable pub response_message : ControlPayload → Result ControlMessage
response_message p = do
  fail_if (length p.content != 13 && length p.content != 37) (invalid_length "discover response")
  (snr_quarters, offset) ← read_u8 p.content 0 "discover snr"
  (tag, offset) ← read_u32_le p.content offset "discover tag"
  ok (discover_response (from_nibble (sub_data p)) (as_i8 snr_quarters) tag (drop offset p.content))

unfoldable pub message : ControlPayload → Result ControlMessage
message p =
    if sub_type p == 0x08
    then request_message p
    else if sub_type p == 0x09
    then response_message p
    else ok (unknown p)

-- A control payload that fits a packet is read back from its encoding.
pub decode-encode :
    (p : ControlPayload) → length (encode p) ≤ max_packet_payload → decode (encode p) ≡ ok p
unfolding decode encode
decode-encode p fits = rw (ensure_payload_len_fits (encode p) fits)

-- What is decoded from a slice encodes to that slice.
pub encode-decode : (input : List ℕ) (p : ControlPayload) → decode input ≡ ok p → encode p ≡ input
unfolding decode encode ensure_payload_len
encode-decode [] p e = absurd (ground arith)
encode-decode (b ∷ bs) p e = ground arith
