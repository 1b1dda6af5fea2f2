-- ===== src/Protocol/Header.antt =====
-- protocol/src/payload_kind.rs, route_type.rs and header.rs: the first byte of a packet.
pub mod Codec
use mcrs.Prelude.{ℕ, ◌+◌, ◌-◌, bit_and, bit_or, Bool, true, false, ◌||◌, ◌==◌, ◌!=◌, if◌then◌else◌}
use mcrs.Prelude.Bits.{shr, shl8}
use mcrs.Protocol.Error.{
  Error, PayloadKind, request, response, text_message, ack, advert, group_text, group_data,
  anonymous_request, path, trace, multipart, control, reserved, raw_custom, Result, ok, err,
  invalid_header_sentinel, unsupported_payload_version,
}

-- The `match` of `from_nibble` on the masked nibble.
unfoldable pub kind_of_nibble : ℕ → PayloadKind
kind_of_nibble n =
    if n == 0x00
    then request
    else if n == 0x01
    then response
    else if n == 0x02
    then text_message
    else if n == 0x03
    then ack
    else if n == 0x04
    then advert
    else if n == 0x05
    then group_text
    else if n == 0x06
    then group_data
    else if n == 0x07
    then anonymous_request
    else if n == 0x08
    then path
    else if n == 0x09
    then trace
    else if n == 0x0a
    then multipart
    else if n == 0x0b
    then control
    else if n == 0x0f
    then raw_custom
    else reserved n

unfoldable pub from_nibble : ℕ → PayloadKind
unfolding kind_of_nibble
from_nibble nibble = kind_of_nibble (bit_and nibble 0x0f)

unfoldable pub to_nibble : PayloadKind → ℕ
to_nibble request = 0x00
to_nibble response = 0x01
to_nibble text_message = 0x02
to_nibble ack = 0x03
to_nibble advert = 0x04
to_nibble group_text = 0x05
to_nibble group_data = 0x06
to_nibble anonymous_request = 0x07
to_nibble path = 0x08
to_nibble trace = 0x09
to_nibble multipart = 0x0a
to_nibble control = 0x0b
to_nibble (reserved n) = bit_and n 0x0f
to_nibble raw_custom = 0x0f

unfoldable pub is_direct_encrypted : PayloadKind → Bool
is_direct_encrypted request = true
is_direct_encrypted response = true
is_direct_encrypted text_message = true
is_direct_encrypted path = true
is_direct_encrypted _ = false

-- `kind == PayloadKind::Trace`
unfoldable pub is_trace : PayloadKind → Bool
is_trace trace = true
is_trace _ = false

pub data RouteType : Type 0 where
  transport_flood flood direct transport_direct : RouteType

unfoldable pub from_bits : ℕ → RouteType
from_bits bits =
    let low = bit_and bits 0x03 in
    if low == 0x00
    then transport_flood
    else if low == 0x01
    then flood
    else if low == 0x02
    then direct
    else transport_direct

unfoldable pub to_bits : RouteType → ℕ
to_bits transport_flood = 0x00
to_bits flood = 0x01
to_bits direct = 0x02
to_bits transport_direct = 0x03

unfoldable pub has_transport_codes : RouteType → Bool
has_transport_codes transport_flood = true
has_transport_codes transport_direct = true
has_transport_codes _ = false

unfoldable pub is_flood : RouteType → Bool
is_flood flood = true
is_flood transport_flood = true
is_flood _ = false

unfoldable pub is_direct : RouteType → Bool
is_direct direct = true
is_direct transport_direct = true
is_direct _ = false

pub record Header : Type 0 where
  pub payload_version : ℕ
  pub payload_kind : PayloadKind
  pub route_type : RouteType

unfoldable pub decode : ℕ → Result Header
decode byte =
    let version = shr byte 6 + 1 in
    if byte == 0xff
    then err invalid_header_sentinel
    else if version != 1
    then err (unsupported_payload_version version)
    else ok (record {
      payload_version = version;
      payload_kind = from_nibble (bit_and (shr byte 2) 0x0f);
      route_type = from_bits byte;
    })

unfoldable pub encode : Header → Result ℕ
encode h =
    if h.payload_version != 1
    then err (unsupported_payload_version h.payload_version)
    else ok (
        bit_or (bit_or (shl8 (h.payload_version - 1) 6) (shl8 (to_nibble h.payload_kind) 2))
          (to_bits h.route_type))
