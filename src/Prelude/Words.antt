-- ===== src/Prelude/Words.antt =====
-- Little-endian words of two and four bytes, and the signed numbers that Rust casts to and from
-- them. An unsigned word is a native number.
use Prim.Native.Nat.{ℕ, ◌+◌, ◌-◌, ◌*◌, ◌/◌, ◌%◌, ◌^◌, ◌<◌}
use mathlib.Core.Path.{◌≡◌, refl}
use mathlib.Core.List.{List, [], ◌∷◌}
use native.Mathlib.Omega.{arith}
use mcrs.Prelude.Tests.{ltb, if◌then◌else◌}
use mcrs.Prelude.Lists.{All, length}
use mcrs.Prelude.Bits.{IsByte}

abbrev pub IsU16 : ℕ → Type 0
IsU16 v = v < 2 ^ 16

abbrev pub IsU32 : ℕ → Type 0
IsU32 v = v < 2 ^ 32

abbrev pub IsU64 : ℕ → Type 0
IsU64 v = v < 2 ^ 64

-- `to_le_bytes` and `from_le_bytes`; the latter is only called on arrays of the right length.
unfoldable pub u16_to_le_bytes : ℕ → List ℕ
u16_to_le_bytes v = v % 256 ∷ v / 256 % 256 ∷ []

unfoldable pub u16_from_le_bytes : List ℕ → ℕ
u16_from_le_bytes (a ∷ b ∷ []) = a + b * 256
u16_from_le_bytes _ = 0

unfoldable pub u32_to_le_bytes : ℕ → List ℕ
u32_to_le_bytes v = v % 256 ∷ v / 256 % 256 ∷ v / 65536 % 256 ∷ v / 16777216 % 256 ∷ []

unfoldable pub u32_from_le_bytes : List ℕ → ℕ
u32_from_le_bytes (a ∷ b ∷ c ∷ d ∷ []) = a + b * 256 + c * 65536 + d * 16777216
u32_from_le_bytes _ = 0

-- `negsuc n` is -(n + 1).
pub data ℤ : Type 0 where
  pos : ℕ → ℤ
  negsuc : ℕ → ℤ

abbrev pub IsI8 : ℤ → Type 0
IsI8 (pos n) = n < 128
IsI8 (negsuc n) = n < 128

abbrev pub IsI32 : ℤ → Type 0
IsI32 (pos n) = n < 2 ^ 31
IsI32 (negsuc n) = n < 2 ^ 31

-- `b as i8` and `z as u8`; `v as i32` and `z as u32`.
unfoldable pub as_i8 : ℕ → ℤ
as_i8 b = if ltb b 128 then pos b else negsuc (255 - b)

unfoldable pub as_u8 : ℤ → ℕ
as_u8 (pos n) = n % 256
as_u8 (negsuc n) = 255 - n % 256

unfoldable pub as_i32 : ℕ → ℤ
as_i32 v = if ltb v (2 ^ 31) then pos v else negsuc (2 ^ 32 - 1 - v)

unfoldable pub as_u32 : ℤ → ℕ
as_u32 (pos n) = n % 2 ^ 32
as_u32 (negsuc n) = 2 ^ 32 - 1 - n % 2 ^ 32

pub u16_from-to_le_bytes : (v : ℕ) → IsU16 v → u16_from_le_bytes (u16_to_le_bytes v) ≡ v
unfolding u16_from_le_bytes u16_to_le_bytes
u16_from-to_le_bytes v h = omega arith

pub u32_from-to_le_bytes : (v : ℕ) → IsU32 v → u32_from_le_bytes (u32_to_le_bytes v) ≡ v
unfolding u32_from_le_bytes u32_to_le_bytes
u32_from-to_le_bytes v h = omega arith

pub as_i8-as_u8 : (z : ℤ) → IsI8 z → as_i8 (as_u8 z) ≡ z
unfolding as_i8 as_u8
as_i8-as_u8 (pos n) h = ground arith
as_i8-as_u8 (negsuc n) h = ground arith

pub as_u8-as_i8 : (b : ℕ) → IsByte b → as_u8 (as_i8 b) ≡ b
unfolding as_i8 as_u8
as_u8-as_i8 b h = ground arith

pub as_i8-IsI8 : (b : ℕ) → IsByte b → IsI8 (as_i8 b)
unfolding as_i8
as_i8-IsI8 b h = ground arith

pub as_u8-IsByte : (z : ℤ) → IsByte (as_u8 z)
unfolding as_u8
as_u8-IsByte (pos n) = omega arith
as_u8-IsByte (negsuc n) = omega arith

pub as_i32-as_u32 : (z : ℤ) → IsI32 z → as_i32 (as_u32 z) ≡ z
unfolding as_i32 as_u32
as_i32-as_u32 (pos n) h = ground arith
as_i32-as_u32 (negsuc n) h = ground arith

pub as_u32-as_i32 : (v : ℕ) → IsU32 v → as_u32 (as_i32 v) ≡ v
unfolding as_i32 as_u32
as_u32-as_i32 v h = ground arith

pub as_u32-IsU32 : (z : ℤ) → IsU32 (as_u32 z)
unfolding as_u32
as_u32-IsU32 (pos n) = omega arith
as_u32-IsU32 (negsuc n) = omega arith

pub u16_to_le_bytes-All : (v : ℕ) → All IsByte (u16_to_le_bytes v)
unfolding u16_to_le_bytes
u16_to_le_bytes-All v = omega arith

pub u32_to_le_bytes-All : (v : ℕ) → All IsByte (u32_to_le_bytes v)
unfolding u32_to_le_bytes
u32_to_le_bytes-All v = omega arith

pub as_i32-IsI32 : (v : ℕ) → IsU32 v → IsI32 (as_i32 v)
unfolding as_i32
as_i32-IsI32 v h = ground arith

pub length-u16_to_le_bytes : (v : ℕ) → length (u16_to_le_bytes v) ≡ 2
unfolding u16_to_le_bytes
length-u16_to_le_bytes v = refl

pub length-u32_to_le_bytes : (v : ℕ) → length (u32_to_le_bytes v) ≡ 4
unfolding u32_to_le_bytes
length-u32_to_le_bytes v = refl
