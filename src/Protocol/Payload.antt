-- ===== src/Protocol/Payload.antt =====
-- protocol/src/payload.rs: the payload of a packet, one constructor for each kind.
pub mod Direct
pub mod Group
pub mod Anonymous
pub mod Ack
pub mod Multipart
pub mod Trace
pub mod Control
pub mod AppData
pub mod Advert
pub mod Codec
use mcrs.Prelude.{
  ℕ, String, zero, suc, ◌+◌, ◌-◌, ◌*◌, ◌/◌, ◌%◌, ◌≤◌, ◌<◌, ◌≡◌, ◌≢◌, ◌⊎◌, refl, sym, ap, ◌∙◌,
  bit_and, bit_or, Bool, true, false, not, ◌&&◌, ◌||◌, Option, none, some, List, [], ◌∷◌, ◌++◌,
  length, take, drop, is_empty, All, ◌==◌, ◌!=◌, ltb, leb, if◌then◌else◌, arith, length-append, inl,
  inr, Bool-cases, append-nil, append_assoc, get_elem?,
}
use mcrs.Prelude.Bits.{
  IsByte, shr, shl8, bit_and_0x01, bit_and_0x03, bit_and_0x0f, bit_and_0x3f, bit_and_0xfc,
  bit_and_0x80, bit_or_at_2, bit_or_at_4,
}
use mcrs.Prelude.Words.{
  ℤ, IsU16, IsU32, IsI8, IsI32, u16_to_le_bytes, u32_to_le_bytes, as_i8, as_u8, as_i32, as_u32,
  as_i8-as_u8, as_u8-as_i8, as_i32-as_u32, as_u32-as_i32, as_i8-IsI8, as_u8-IsByte, as_u32-IsU32,
}
use mcrs.Protocol.Error.{
  Error, PayloadKind, Result, ok, err, ok_or, fail_if, ◌>>=◌, ◌>>◌, >>=-elim, Result-cases,
  truncated, invalid_length, payload_too_long, invalid_trace_flags, invalid_utf8,
}
use mcrs.Protocol.Wire.{
  pub_key_size, signature_size, cipher_block_size, cipher_mac_size, max_packet_payload,
  max_advert_data_size, max_text_len, ensure_payload_len, read_array, read_u8, read_u16_le,
  read_u32_le, read_i32_le,
}
use mcrs.Protocol.Wire.Cursor.{
  At, At-start, At-skip, read_u8-At, read_u16_le-At, read_u32_le-At, read_array_At, drop-At,
  ensure_payload_len_fits,
}
use mcrs.Protocol.Wire.Inversion.{
  Cursor, Cursor-start, Read, ensure-elim, read_u8-elim, read_array-elim, read_u16_le-elim,
  read_u32_le-elim,
}
use Direct.{DirectEncryptedPayload}
use Group.{GroupEncryptedPayload}
use Anonymous.{AnonymousRequestPayload}
use Ack.{AckPayload}
use Multipart.{MultipartPayload}
use Trace.{TracePayload}
use Control.{ControlPayload}
use Advert.{AdvertPayload}

pub data Payload : Type 0 where
  request response text_message : DirectEncryptedPayload → Payload
  ack : AckPayload → Payload
  advert : AdvertPayload → Payload
  group_text group_data : GroupEncryptedPayload → Payload
  anonymous_request : AnonymousRequestPayload → Payload
  path : DirectEncryptedPayload → Payload
  trace : TracePayload → Payload
  multipart : MultipartPayload → Payload
  control : ControlPayload → Payload
  reserved : ℕ → List ℕ → Payload
  raw_custom : List ℕ → Payload

unfoldable pub kind : Payload → PayloadKind
kind (request p) = PayloadKind.request
kind (response p) = PayloadKind.response
kind (text_message p) = PayloadKind.text_message
kind (ack p) = PayloadKind.ack
kind (advert p) = PayloadKind.advert
kind (group_text p) = PayloadKind.group_text
kind (group_data p) = PayloadKind.group_data
kind (anonymous_request p) = PayloadKind.anonymous_request
kind (path p) = PayloadKind.path
kind (trace p) = PayloadKind.trace
kind (multipart p) = PayloadKind.multipart
kind (control p) = PayloadKind.control
kind (reserved k bytes) = PayloadKind.reserved k
kind (raw_custom bytes) = PayloadKind.raw_custom

-- The `match` of `decode`.
unfoldable pub decode_kind : PayloadKind → List ℕ → Result Payload
decode_kind PayloadKind.request input = do p ← Direct.decode input; ok (request p)
decode_kind PayloadKind.response input = do p ← Direct.decode input; ok (response p)
decode_kind PayloadKind.text_message input = do p ← Direct.decode input; ok (text_message p)
decode_kind PayloadKind.ack input = do p ← Ack.decode input; ok (ack p)
decode_kind PayloadKind.advert input = do p ← Advert.decode input; ok (advert p)
decode_kind PayloadKind.group_text input = do p ← Group.decode input; ok (group_text p)
decode_kind PayloadKind.group_data input = do p ← Group.decode input; ok (group_data p)
decode_kind PayloadKind.anonymous_request input = do
  p ← Anonymous.decode input
  ok (anonymous_request p)
decode_kind PayloadKind.path input = do p ← Direct.decode input; ok (path p)
decode_kind PayloadKind.trace input = do p ← Trace.decode input; ok (trace p)
decode_kind PayloadKind.multipart input = do p ← Multipart.decode input; ok (multipart p)
decode_kind PayloadKind.control input = do p ← Control.decode input; ok (control p)
decode_kind (PayloadKind.reserved k) input = ok (reserved k input)
decode_kind PayloadKind.raw_custom input = ok (raw_custom input)

unfoldable pub decode : PayloadKind → List ℕ → Result Payload
decode k input = do ensure_payload_len input; decode_kind k input

unfoldable pub encode : Payload → Result (List ℕ)
encode (request p) = ok (Direct.encode p)
encode (response p) = ok (Direct.encode p)
encode (text_message p) = ok (Direct.encode p)
encode (path p) = ok (Direct.encode p)
encode (ack p) = ok (Ack.encode p)
encode (advert p) = Advert.encode p
encode (group_text p) = ok (Group.encode p)
encode (group_data p) = ok (Group.encode p)
encode (anonymous_request p) = ok (Anonymous.encode p)
encode (trace p) = Trace.encode p
encode (multipart p) = ok (Multipart.encode p)
encode (control p) = ok (Control.encode p)
encode (reserved k bytes) = ok bytes
encode (raw_custom bytes) = ok bytes
