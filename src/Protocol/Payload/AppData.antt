-- ===== src/Protocol/Payload/AppData.antt =====
-- protocol/src/advert_app_data.rs: what a node tells of itself in an advert. A name is the list of
-- the bytes of its text.
pub mod Flags
pub mod Fields
pub mod Codec
use mcrs.Prelude.{
  ℕ, String, zero, suc, ◌+◌, ◌-◌, ◌*◌, ◌/◌, ◌%◌, ◌≤◌, ◌<◌, ◌≡◌, ◌≢◌, ◌⊎◌, refl, sym, ap, ◌∙◌,
  bit_and, bit_or, Bool, true, false, not, ◌&&◌, ◌||◌, Option, none, some, List, [], ◌∷◌, ◌++◌,
  length, take, drop, is_empty, All, ◌==◌, ◌!=◌, ltb, leb, if◌then◌else◌, arith, length-append, inl,
  inr, Bool-cases, append-nil, append_assoc, get_elem?,
}
use mcrs.Prelude.Bits.{
  IsByte, shr, shl8, bit_and_0x01, bit_and_0x03, bit_and_0x0f, bit_and_0x3f, bit_and_0xfc,
  bit_and_0x80, bit_or_at_2, bit_or_at_4,
}
use mcrs.Prelude.Words.{
  ℤ, IsU16, IsU32, IsI8, IsI32, u16_to_le_bytes, u32_to_le_bytes, as_i8, as_u8, as_i32, as_u32,
  as_i8-as_u8, as_u8-as_i8, as_i32-as_u32, as_u32-as_i32, as_i8-IsI8, as_u8-IsByte, as_u32-IsU32,
}
use mcrs.Protocol.Error.{
  Error, PayloadKind, Result, ok, err, ok_or, fail_if, ◌>>=◌, ◌>>◌, >>=-elim, Result-cases,
  truncated, invalid_length, payload_too_long, invalid_trace_flags, invalid_utf8,
}
use mcrs.Protocol.Wire.{
  pub_key_size, signature_size, cipher_block_size, cipher_mac_size, max_packet_payload,
  max_advert_data_size, max_text_len, ensure_payload_len, read_array, read_u8, read_u16_le,
  read_u32_le, read_i32_le,
}
use mcrs.Protocol.Wire.Cursor.{
  At, At-start, At-skip, read_u8-At, read_u16_le-At, read_u32_le-At, read_array_At, drop-At,
  ensure_payload_len_fits,
}
use mcrs.Protocol.Wire.Inversion.{
  Cursor, Cursor-start, Read, ensure-elim, read_u8-elim, read_array-elim, read_u16_le-elim,
  read_u32_le-elim,
}
use mcrs.Prelude.Utf8.{is_utf8}
use mcrs.Protocol.Payload.Control.NodeType.{AdvertNodeType, from_nibble, to_nibble}

pub record AdvertAppData : Type 0 where
  pub node_type : AdvertNodeType
  pub location : Option (ℤ × ℤ)
  pub feature1 : Option ℕ
  pub feature2 : Option ℕ
  pub name : Option (List ℕ)

-- The reads that a flag asks for; the other value of the flag leaves the offset.
unfoldable pub read_location : Bool → List ℕ → ℕ → Result (Option (ℤ × ℤ) × ℕ)
read_location true input offset = do
  (latitude, offset) ← read_i32_le input offset "advert latitude"
  (longitude, offset) ← read_i32_le input offset "advert longitude"
  ok (some (latitude, longitude), offset)
read_location false input offset = ok (none, offset)

unfoldable pub read_feature : String → Bool → List ℕ → ℕ → Result (Option ℕ × ℕ)
read_feature field true input offset = do
  (feature, offset) ← read_u16_le input offset field
  ok (some feature, offset)
read_feature field false input offset = ok (none, offset)

unfoldable pub read_name : Bool → List ℕ → ℕ → Result (Option (List ℕ))
read_name true input offset =
    if is_utf8 (drop offset input) then ok (some (drop offset input)) else err invalid_utf8
read_name false input offset = do
  fail_if (offset != length input) (invalid_length "advert app_data")
  ok none

unfoldable pub decode : List ℕ → Result AdvertAppData
decode input = do
  fail_if (ltb max_advert_data_size (length input)) (invalid_length "advert app_data")
  (flags, offset) ← read_u8 input 0 "advert app_data flags"
  (location, offset) ← read_location (bit_and flags 0x10 != 0) input offset
  (feature1, offset) ← read_feature "advert feature1" (bit_and flags 0x20 != 0) input offset
  (feature2, offset) ← read_feature "advert feature2" (bit_and flags 0x40 != 0) input offset
  name ← read_name (bit_and flags 0x80 != 0) input offset
  ok (record {
    node_type = from_nibble flags;
    location = location;
    feature1 = feature1;
    feature2 = feature2;
    name = name;
  })

abbrev pub is_some {ℓ} : {A : Type ℓ} → Option A → Bool
is_some none = false
is_some (some a) = true

-- `if present { flags |= bit; }`
abbrev pub raise : Bool → ℕ → ℕ → ℕ
raise true bit flags = bit_or flags bit
raise false bit flags = flags

unfoldable pub flags_of : ℕ → Bool → Bool → Bool → Bool → ℕ
flags_of nibble location feature1 feature2 name =
    raise name 0x80 (raise feature2 0x40 (raise feature1 0x20 (raise location 0x10 nibble)))

abbrev pub location_bytes : Option (ℤ × ℤ) → List ℕ
location_bytes none = []
location_bytes (some (latitude, longitude)) =
    u32_to_le_bytes (as_u32 latitude) ++ u32_to_le_bytes (as_u32 longitude)

abbrev pub feature_bytes : Option ℕ → List ℕ
feature_bytes none = []
feature_bytes (some feature) = u16_to_le_bytes feature

abbrev pub name_bytes : Option (List ℕ) → List ℕ
name_bytes none = []
name_bytes (some name) = name

abbrev pub written : AdvertAppData → List ℕ
written d =
    flags_of (to_nibble d.node_type) (is_some d.location) (is_some d.feature1) (is_some d.feature2)
      (is_some d.name)
    ∷ (location_bytes d.location
        ++ (feature_bytes d.feature1 ++ (feature_bytes d.feature2 ++ name_bytes d.name)))

unfoldable pub encode : AdvertAppData → Result (List ℕ)
encode d = do
  fail_if (ltb max_advert_data_size (length (written d))) (invalid_length "advert app_data")
  ok (written d)
