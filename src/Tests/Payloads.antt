-- ===== src/Tests/Payloads.antt =====
-- Payloads: an acknowledgement, an advert, a discovery and a text message; hashes and headers.
use mcrs.Prelude.{
  ℕ, ◌≤◌, ◌<◌, ◌≡◌, ◌⊎◌, refl, inl, inr, Bool, true, false, Option, none, some, List, [], ◌∷◌, ◌++◌,
  length, take, All, arith,
}
use mcrs.Prelude.Words.{ℤ, pos, negsuc, IsU32, IsI8}
use mcrs.Protocol.Error.{PayloadKind, ok}
use mcrs.Protocol.Header
use mcrs.Protocol.Header.{Header, RouteType}
use mcrs.Protocol.Header.Codec.{first}
use mcrs.Protocol.Crypto.{zeros, derive_transport_code}
use mcrs.Protocol.Crypto.Prefixes.{WritesBytes, derive_transport_code_range}
use mcrs.Protocol.Payload
use mcrs.Protocol.Payload.{Payload}
use mcrs.Protocol.Payload.Advert
use mcrs.Protocol.Payload.Advert.{AdvertPayload}
use mcrs.Protocol.Payload.AppData
use mcrs.Protocol.Payload.AppData.{AdvertAppData}
use mcrs.Protocol.Payload.AppData.Codec.{decode-encode_app_data, encode-decode_app_data}
use mcrs.Protocol.Payload.Codec.{decode-encode_payload, encode-decode_payload}
use mcrs.Protocol.Payload.Control.{
  ControlMessage, discover_request, discover_response, message, new_request, new_response,
}
use mcrs.Protocol.Payload.Control.NodeType.{AdvertNodeType}
use mcrs.Protocol.Plaintext.Text
use mcrs.Protocol.Plaintext.Text.{
  TextMessagePlaintext, TextType, decode-encode_text, encode-decode_text,
}
use mcrs.Tests.Bytes.{below-All}

abbrev ack : Payload
ack = Payload.ack (record { ack_hash = 1 ∷ 2 ∷ 3 ∷ 4 ∷ [] })

encode-ack : Payload.encode ack ≡ ok (1 ∷ 2 ∷ 3 ∷ 4 ∷ [])
unfolding Payload.encode mcrs.Protocol.Payload.Ack.encode
encode-ack = refl

decode-encode_payload_example : Payload.decode PayloadKind.ack (1 ∷ 2 ∷ 3 ∷ 4 ∷ []) ≡ ok ack
unfolding Payload.kind
decode-encode_payload_example =
    decode-encode_payload ack (1 ∷ 2 ∷ 3 ∷ 4 ∷ []) (record { hash_size = refl }) encode-ack
      (omega arith)

decode-ack : Payload.decode PayloadKind.ack (1 ∷ 2 ∷ 3 ∷ 4 ∷ []) ≡ ok ack
unfolding Payload.decode mcrs.Protocol.Wire.ensure_payload_len Payload.decode_kind
    mcrs.Protocol.Payload.Ack.decode mcrs.Protocol.Wire.read_array mcrs.Protocol.Wire.read_bytes
decode-ack = refl

encode-decode_payload_example :
    (Payload.encode ack ≡ ok (1 ∷ 2 ∷ 3 ∷ 4 ∷ []))
    × (Payload.kind ack ≡ PayloadKind.ack)
    × mcrs.Protocol.Payload.Codec.IsValid ack
encode-decode_payload_example =
    encode-decode_payload PayloadKind.ack (1 ∷ 2 ∷ 3 ∷ 4 ∷ []) ack tt
      (below-All (1 ∷ 2 ∷ 3 ∷ 4 ∷ []) refl) decode-ack

-- A repeater called "R" with a location and one feature.
abbrev repeater : AdvertAppData
repeater = record {
  node_type = AdvertNodeType.repeater;
  location = some (pos 1, negsuc 0);
  feature1 = some 513;
  feature2 = none;
  name = some (82 ∷ []);
}

abbrev repeater_bytes : List ℕ
repeater_bytes = 178 ∷ 1 ∷ 0 ∷ 0 ∷ 0 ∷ 255 ∷ 255 ∷ 255 ∷ 255 ∷ 1 ∷ 2 ∷ 82 ∷ []

encode-repeater : AppData.encode repeater ≡ ok repeater_bytes
unfolding AppData.encode mcrs.Prelude.Words.u32_to_le_bytes mcrs.Prelude.Words.u16_to_le_bytes
    AppData.flags_of mcrs.Prelude.Words.as_u32 mcrs.Protocol.Payload.Control.NodeType.to_nibble
encode-repeater = refl

repeater-IsValid : mcrs.Protocol.Payload.AppData.Codec.IsValid repeater
unfolding mcrs.Prelude.Utf8.is_utf8
repeater-IsValid = record {
  node = tt;
  located = (omega arith, omega arith);
  first = omega arith;
  second = tt;
  named = refl;
}

decode-repeater : AppData.decode repeater_bytes ≡ ok repeater
unfolding AppData.decode mcrs.Protocol.Wire.read_u8 mcrs.Protocol.Wire.read_bytes
    AppData.read_location mcrs.Protocol.Wire.read_i32_le mcrs.Protocol.Wire.read_array
    AppData.read_feature mcrs.Protocol.Wire.read_u16_le AppData.read_name mcrs.Prelude.Utf8.is_utf8
    mcrs.Protocol.Payload.Control.NodeType.from_nibble mcrs.Prelude.Words.as_i32
    mcrs.Prelude.Words.u16_from_le_bytes mcrs.Prelude.Words.u32_from_le_bytes
decode-repeater = refl

since_fits : (v : ℕ) → some 5 ≡ some v → IsU32 v
since_fits v h = ground arith

abbrev hello : TextMessagePlaintext
hello = record {
  timestamp = 258;
  text_type = TextType.signed_plain;
  attempt = 1;
  message = 104 ∷ 105 ∷ [];
}

abbrev hello_bytes : List ℕ
hello_bytes = 2 ∷ 1 ∷ 0 ∷ 0 ∷ 9 ∷ 104 ∷ 105 ∷ []

encode-hello : Text.encode hello ≡ ok hello_bytes
unfolding Text.encode mcrs.Prelude.Words.u32_to_le_bytes Text.to_bits
encode-hello = refl

decode-hello : Text.decode hello_bytes ≡ ok hello
unfolding Text.decode mcrs.Protocol.Wire.ensure_payload_len mcrs.Protocol.Wire.read_u32_le
    mcrs.Protocol.Wire.read_array mcrs.Protocol.Wire.read_bytes mcrs.Protocol.Wire.read_u8
    mcrs.Prelude.Words.u32_from_le_bytes Text.from_bits Text.type_of_bits
decode-hello = refl

encode-decode_text_example : (Text.encode hello ≡ ok hello_bytes) × Text.IsValid hello
encode-decode_text_example =
    encode-decode_text hello_bytes hello (below-All hello_bytes refl) decode-hello

abbrev advert : AdvertPayload
advert = record {
  public_key = zeros 32;
  timestamp = 9;
  signature = zeros 64;
  app_data = some repeater;
}

abbrev advert_bytes : List ℕ
advert_bytes = zeros 32 ++ ((9 ∷ 0 ∷ 0 ∷ 0 ∷ []) ++ (zeros 64 ++ repeater_bytes))

decode-advert : Advert.decode advert_bytes ≡ ok advert
unfolding Advert.decode mcrs.Protocol.Wire.read_array mcrs.Protocol.Wire.read_bytes
    mcrs.Protocol.Wire.read_u32_le Advert.decode_app_data AppData.decode mcrs.Protocol.Wire.read_u8
    AppData.read_location mcrs.Protocol.Wire.read_i32_le AppData.read_feature
    mcrs.Protocol.Wire.read_u16_le AppData.read_name mcrs.Prelude.Utf8.is_utf8
    mcrs.Prelude.Words.u32_from_le_bytes mcrs.Protocol.Payload.Control.NodeType.from_nibble
    mcrs.Prelude.Words.as_i32 mcrs.Prelude.Words.u16_from_le_bytes
decode-advert = refl

abbrev flood_ack : Header
flood_ack = first PayloadKind.ack RouteType.flood

decode-flood_ack : Header.decode 13 ≡ ok flood_ack
unfolding Header.decode Header.from_nibble Header.from_bits
decode-flood_ack = refl

-- A keyed hash for the runs: always the same digest.
abbrev fixed : List ℕ → List ℕ → Option (List ℕ)
fixed key content = some (255 ∷ 255 ∷ [])

fixed-WritesBytes : WritesBytes fixed
fixed-WritesBytes key content digest h = ground (arith, below-All (255 ∷ 255 ∷ []) refl)

derive_transport_code_range_example :
    (0 < derive_transport_code fixed (zeros 16) PayloadKind.ack (1 ∷ []))
    × (derive_transport_code fixed (zeros 16) PayloadKind.ack (1 ∷ []) < 0xffff)
derive_transport_code_range_example =
    derive_transport_code_range fixed (zeros 16) PayloadKind.ack (1 ∷ []) fixed-WritesBytes
