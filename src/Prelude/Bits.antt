-- ===== src/Prelude/Bits.antt =====
-- Shifts and masks of bytes as arithmetic. A mask of one byte is a table of 256 entries, checked by
-- evaluation.
use Prim.Native.Nat.{ℕ, zero, suc, ◌+◌, ◌*◌, ◌/◌, ◌%◌, ◌^◌, ◌<◌, bit_and, bit_or}
use mathlib.Core.Path.{◌≡◌, refl, ap₂, ◌∙◌}
use mathlib.Core.Bool.{Bool, true, ◌&&◌}
use native.Mathlib.Omega.{arith}
use mcrs.Prelude.Tests.{◌==◌, ==_iff}

-- `x >> k` and, on a byte, `x << k`.
abbrev pub shr : ℕ → ℕ → ℕ
shr x k = x / 2 ^ k

abbrev pub shl8 : ℕ → ℕ → ℕ
shl8 x k = x * 2 ^ k % 256

abbrev pub IsByte : ℕ → Type 0
IsByte b = b < 256

-- A test that holds for each number below a bound.
unfoldable pub all_below : ℕ → (ℕ → Bool) → Bool
all_below zero test = true
all_below (suc bound) test = all_below bound test && test bound

pub all_below_sound :
    (bound : ℕ) (test : ℕ → Bool) (i : ℕ) → all_below bound test ≡ true → i < bound → test i ≡ true
unfolding all_below
all_below_sound zero test i holds l = absurd (omega arith)
all_below_sound (suc bound) test i holds l = ground (arith, all_below_sound bound test i)

-- Two functions that agree below a bound, by evaluation.
pub agree_below :
    (n : ℕ) (f g : ℕ → ℕ) → all_below n (λ x. f x == g x) ≡ true → (x : ℕ) → x < n → f x ≡ g x
agree_below n f g h x lt = (==_iff (f x) (g x)).0 (all_below_sound n (λ x. f x == g x) x h lt)

module _ (b : ℕ) (h : IsByte b) where
  pub bit_and_0x03 : bit_and b 0x03 ≡ b % 4
  unfolding all_below
  bit_and_0x03 = agree_below 256 (λ x. bit_and x 0x03) (λ x. x % 4) refl b h

  pub bit_and_0x0f : bit_and b 0x0f ≡ b % 16
  unfolding all_below
  bit_and_0x0f = agree_below 256 (λ x. bit_and x 0x0f) (λ x. x % 16) refl b h

  pub bit_and_0x3f : bit_and b 0x3f ≡ b % 64
  unfolding all_below
  bit_and_0x3f = agree_below 256 (λ x. bit_and x 0x3f) (λ x. x % 64) refl b h

  pub bit_and_0xc0 : bit_and b 0xc0 ≡ b / 64 * 64
  unfolding all_below
  bit_and_0xc0 = agree_below 256 (λ x. bit_and x 0xc0) (λ x. x / 64 * 64) refl b h

  pub bit_and_0xfc : bit_and b 0xfc ≡ b / 4 * 4
  unfolding all_below
  bit_and_0xfc = agree_below 256 (λ x. bit_and x 0xfc) (λ x. x / 4 * 4) refl b h

  pub bit_and_0x01 : bit_and b 0x01 ≡ b % 2
  unfolding all_below
  bit_and_0x01 = agree_below 256 (λ x. bit_and x 0x01) (λ x. x % 2) refl b h

  pub bit_and_0x80 : bit_and b 0x80 ≡ b / 128 * 128
  unfolding all_below
  bit_and_0x80 = agree_below 256 (λ x. bit_and x 0x80) (λ x. x / 128 * 128) refl b h

  pub zero-bit_or : bit_or 0 b ≡ b
  unfolding all_below
  zero-bit_or = agree_below 256 (λ x. bit_or 0 x) (λ x. x) refl b h

  or_fields_table :
      (bit_or (b / 4 * 4) (b % 4) ≡ b)
      × (bit_or (b / 16 * 16) (b % 16) ≡ b)
      × (bit_or (b / 64 * 64) (b % 64) ≡ b)
  unfolding all_below
  or_fields_table = (
    agree_below 256 (λ x. bit_or (x / 4 * 4) (x % 4)) (λ x. x) refl b h,
    agree_below 256 (λ x. bit_or (x / 16 * 16) (x % 16)) (λ x. x) refl b h,
    agree_below 256 (λ x. bit_or (x / 64 * 64) (x % 64)) (λ x. x) refl b h,
  )

-- A byte put together from a high and a low field.
module _ (hi lo : ℕ) where
  pub bit_or_at_2 : hi < 64 → lo < 4 → bit_or (shl8 hi 2) lo ≡ hi * 4 + lo
  bit_or_at_2 p q =
      ap₂ bit_or (omega arith) (omega arith) ∙ (or_fields_table (hi * 4 + lo) (omega arith)).0

  pub bit_or_at_4 : hi < 16 → lo < 16 → bit_or (shl8 hi 4) lo ≡ hi * 16 + lo
  bit_or_at_4 p q =
      ap₂ bit_or (omega arith) (omega arith) ∙ (or_fields_table (hi * 16 + lo) (omega arith)).1

  pub bit_or_at_6 : hi < 4 → lo < 64 → bit_or (shl8 hi 6) lo ≡ hi * 64 + lo
  bit_or_at_6 p q =
      ap₂ bit_or (omega arith) (omega arith) ∙ (or_fields_table (hi * 64 + lo) (omega arith)).2
