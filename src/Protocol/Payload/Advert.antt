-- ===== src/Protocol/Payload/Advert.antt =====
-- protocol/src/advert_payload.rs: a signed announcement of a node. `encode` gives the bytes that the
-- method appends to `out`. The signature check of the ed25519 library is a parameter.
pub mod Codec
use mcrs.Prelude.{
  ℕ, String, zero, suc, ◌+◌, ◌-◌, ◌*◌, ◌/◌, ◌%◌, ◌≤◌, ◌<◌, ◌≡◌, ◌≢◌, ◌⊎◌, refl, sym, ap, ◌∙◌,
  bit_and, bit_or, Bool, true, false, not, ◌&&◌, ◌||◌, Option, none, some, List, [], ◌∷◌, ◌++◌,
  length, take, drop, is_empty, All, ◌==◌, ◌!=◌, ltb, leb, if◌then◌else◌, arith, length-append, inl,
  inr, Bool-cases, append-nil, append_assoc, get_elem?,
}
use mcrs.Prelude.Bits.{
  IsByte, shr, shl8, bit_and_0x01, bit_and_0x03, bit_and_0x0f, bit_and_0x3f, bit_and_0xfc,
  bit_and_0x80, bit_or_at_2, bit_or_at_4,
}
use mcrs.Prelude.Words.{
  ℤ, IsU16, IsU32, IsI8, IsI32, u16_to_le_bytes, u32_to_le_bytes, as_i8, as_u8, as_i32, as_u32,
  as_i8-as_u8, as_u8-as_i8, as_i32-as_u32, as_u32-as_i32, as_i8-IsI8, as_u8-IsByte, as_u32-IsU32,
}
use mcrs.Protocol.Error.{
  Error, PayloadKind, Result, ok, err, ok_or, fail_if, ◌>>=◌, ◌>>◌, >>=-elim, Result-cases,
  truncated, invalid_length, payload_too_long, invalid_trace_flags, invalid_utf8,
}
use mcrs.Protocol.Wire.{
  pub_key_size, signature_size, cipher_block_size, cipher_mac_size, max_packet_payload,
  max_advert_data_size, max_text_len, ensure_payload_len, read_array, read_u8, read_u16_le,
  read_u32_le, read_i32_le,
}
use mcrs.Protocol.Wire.Cursor.{
  At, At-start, At-skip, read_u8-At, read_u16_le-At, read_u32_le-At, read_array_At, drop-At,
  ensure_payload_len_fits,
}
use mcrs.Protocol.Wire.Inversion.{
  Cursor, Cursor-start, Read, ensure-elim, read_u8-elim, read_array-elim, read_u16_le-elim,
  read_u32_le-elim,
}
use mcrs.Protocol.Payload.AppData
use mcrs.Protocol.Payload.AppData.{AdvertAppData}

pub record AdvertPayload : Type 0 where
  pub public_key : List ℕ
  pub timestamp : ℕ
  pub signature : List ℕ
  pub app_data : Option AdvertAppData

unfoldable pub decode_app_data : List ℕ → Result (Option AdvertAppData)
decode_app_data [] = ok none
decode_app_data (b ∷ bs) = do app_data ← AppData.decode (b ∷ bs); ok (some app_data)

unfoldable pub decode : List ℕ → Result AdvertPayload
decode input = do
  (public_key, offset) ← read_array pub_key_size input 0 "advert public_key"
  (timestamp, offset) ← read_u32_le input offset "advert timestamp"
  (signature, offset) ← read_array signature_size input offset "advert signature"
  let app_data_bytes = drop offset input
  fail_if (ltb max_advert_data_size (length app_data_bytes)) (invalid_length "advert app_data")
  app_data ← decode_app_data app_data_bytes
  ok (record {
    public_key = public_key;
    timestamp = timestamp;
    signature = signature;
    app_data = app_data;
  })

unfoldable pub encode_app_data : Option AdvertAppData → Result (List ℕ)
encode_app_data none = ok []
encode_app_data (some app_data) = AppData.encode app_data

unfoldable pub encode : AdvertPayload → Result (List ℕ)
encode p = do
  app_data ← encode_app_data p.app_data
  ok (p.public_key ++ (u32_to_le_bytes p.timestamp ++ (p.signature ++ app_data)))

unfoldable pub signed_message : AdvertPayload → Result (List ℕ)
signed_message p = do
  app_data ← encode_app_data p.app_data
  ok (p.public_key ++ (u32_to_le_bytes p.timestamp ++ app_data))

-- The ed25519 library: which slices are keys, and which signatures of a message it accepts.
pub record Ed25519 : Type 0 where
  pub is_key : List ℕ → Bool
  -- key, message, signature
  pub verifies : List ℕ → List ℕ → List ℕ → Bool

unfoldable pub verify_signature : Ed25519 → AdvertPayload → Bool
verify_signature ed p =
    if ed.is_key p.public_key
    then elim (signed_message p) [
      | ok message ↦ ed.verifies p.public_key message p.signature
      | err e ↦ false
    ]
    else false
