-- ===== src/Protocol/Wire.antt =====
-- protocol/src/wire.rs: reads at an offset of a slice, and the size limits of constants.rs. A slice
-- is a list of bytes. A read takes the offset as an argument and returns the new one.
pub mod Cursor
pub mod Inversion
use mcrs.Prelude.{
  ℕ, ◌+◌, ◌-◌, ◌^◌, String, Bool, ◌&&◌, Option, none, some, List, [], ◌∷◌, leb, ltb, length, take,
  drop, get_elem?, if◌then◌else◌,
}
use mcrs.Prelude.Words.{ℤ, u16_from_le_bytes, u32_from_le_bytes, as_i32}
use mcrs.Protocol.Error.{
  Error, Result, ok, err, ok_or, fail_if, ◌>>=◌, ◌>>◌, payload_too_long, truncated, invalid_length,
}

abbrev pub pub_key_size : ℕ
pub_key_size = 32

abbrev pub signature_size : ℕ
signature_size = 64

abbrev pub cipher_key_size : ℕ
cipher_key_size = 16

abbrev pub cipher_block_size : ℕ
cipher_block_size = 16

abbrev pub cipher_mac_size : ℕ
cipher_mac_size = 2

abbrev pub max_advert_data_size : ℕ
max_advert_data_size = 32

abbrev pub max_packet_payload : ℕ
max_packet_payload = 184

abbrev pub max_path_size : ℕ
max_path_size = 64

abbrev pub max_trans_unit : ℕ
max_trans_unit = 255

abbrev pub max_text_len : ℕ
max_text_len = 160

-- The boards are 32-bit: `usize` ends at 2 ^ 32 - 1.
abbrev pub usize_max : ℕ
usize_max = 2 ^ 32 - 1

unfoldable pub checked_add : ℕ → ℕ → Option ℕ
checked_add a b = if leb (a + b) usize_max then some (a + b) else none

unfoldable pub ensure_payload_len : List ℕ → Result (Unit {0})
ensure_payload_len input =
    fail_if (ltb max_packet_payload (length input)) (payload_too_long (length input))

-- `input.get(start..end)`
unfoldable pub get_range : List ℕ → ℕ → ℕ → Option (List ℕ)
get_range input start end =
    if leb start end && leb end (length input)
    then some (take (end - start) (drop start input))
    else none

unfoldable pub read_bytes : List ℕ → ℕ → ℕ → String → Result (List ℕ × ℕ)
unfolding checked_add get_range
read_bytes input offset len field = do
  end ← ok_or (checked_add offset len) (invalid_length field)
  bytes ← ok_or (get_range input offset end) (truncated field)
  ok (bytes, end)

-- `try_into` an array of `n` bytes fails on any other length.
unfoldable pub read_array : ℕ → List ℕ → ℕ → String → Result (List ℕ × ℕ)
read_array n input offset field = do
  (bytes, end) ← read_bytes input offset n field
  if leb (length bytes) n && leb n (length bytes)
      then ok (bytes, end)
      else err (invalid_length field)

-- The first byte of a slice that has one.
first_byte : List ℕ → ℕ
first_byte [] = 0
first_byte (b ∷ bs) = b

unfoldable pub read_u8 : List ℕ → ℕ → String → Result (ℕ × ℕ)
unfolding first_byte
read_u8 input offset field = do
  (bytes, end) ← read_bytes input offset 1 field
  ok (first_byte bytes, end)

unfoldable pub read_u16_le : List ℕ → ℕ → String → Result (ℕ × ℕ)
read_u16_le input offset field = do
  (bytes, end) ← read_array 2 input offset field
  ok (u16_from_le_bytes bytes, end)

unfoldable pub read_u32_le : List ℕ → ℕ → String → Result (ℕ × ℕ)
read_u32_le input offset field = do
  (bytes, end) ← read_array 4 input offset field
  ok (u32_from_le_bytes bytes, end)

unfoldable pub read_i32_le : List ℕ → ℕ → String → Result (ℤ × ℕ)
read_i32_le input offset field = do
  (bytes, end) ← read_array 4 input offset field
  ok (as_i32 (u32_from_le_bytes bytes), end)
