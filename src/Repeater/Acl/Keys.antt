-- ===== src/Repeater/Acl/Keys.antt =====
-- The hexadecimal form of a key: what is written is read back.
use mcrs.Prelude.{
  All, ℕ, ◌*◌, ◌/◌, ◌%◌, ◌<◌, ◌≡◌, refl, ap, true, false, some, List, [], ◌∷◌, length, ◌==◌, arith,
}
use mcrs.Prelude.Bits.{IsByte}
use mcrs.Repeater.Acl.{hex_digit, hex_byte, hex_bytes, is_ascii, parse_key, hex_char, write_hex}

-- Every element is a byte.
abbrev pub AllBytes : List ℕ → Type 0
AllBytes bytes = All IsByte bytes

hex_digit-hex_char :
    (n : ℕ)
    → n < 16
    → (hex_digit (hex_char n) ≡ some n) × (hex_char n < 128) × ((hex_char n == 43) ≡ false)
unfolding hex_digit hex_char
hex_digit-hex_char n h = ground arith

hex_byte-hex_char : (b : ℕ) → b < 256 → hex_byte (hex_char (b / 16)) (hex_char (b % 16)) ≡ some b
unfolding hex_byte
hex_byte-hex_char b h =
    let (high, _, plus) = hex_digit-hex_char (b / 16) (omega arith) in
    let (low, _, _) = hex_digit-hex_char (b % 16) (omega arith) in
    rw (plus, high, low) (ap some (omega arith))

hex_bytes-write_hex : (key : List ℕ) → AllBytes key → hex_bytes (write_hex key) ≡ some key
unfolding hex_bytes write_hex
hex_bytes-write_hex [] h = refl
hex_bytes-write_hex (b ∷ bs) (h, hs) = rw (hex_byte-hex_char b h, hex_bytes-write_hex bs hs) refl

length-write_hex : (key : List ℕ) → length (write_hex key) ≡ 2 * length key
unfolding write_hex
length-write_hex [] = refl
length-write_hex (b ∷ bs) = omega (arith, length-write_hex bs)

is_ascii-write_hex : (key : List ℕ) → AllBytes key → is_ascii (write_hex key) ≡ true
unfolding is_ascii write_hex
is_ascii-write_hex [] h = refl
is_ascii-write_hex (b ∷ bs) (h, hs) =
    let (_, high, _) = hex_digit-hex_char (b / 16) (omega arith) in
    let (_, low, _) = hex_digit-hex_char (b % 16) (omega arith) in
    ground (arith, high, low, is_ascii-write_hex bs hs)

-- A key of 32 bytes is read back from the hexadecimal form that the configuration writes.
pub parse_key-write_hex :
    (key : List ℕ) → length key ≡ 32 → AllBytes key → parse_key (write_hex key) ≡ some key
unfolding parse_key
parse_key-write_hex key h b =
    let size : length (write_hex key) ≡ 64 = omega (arith, length-write_hex key, h) in
    rw (size, is_ascii-write_hex key b) (hex_bytes-write_hex key b)
