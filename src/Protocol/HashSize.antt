-- ===== src/Protocol/HashSize.antt =====
-- protocol/src/hash_size.rs and trace_hash_size.rs: the sizes of the hashes on a path.
use mcrs.Prelude.{ℕ, ◌%◌, ◌<◌, ◌≤◌, ◌≡◌, refl, bit_and, arith, ◌==◌, if◌then◌else◌}
use mcrs.Prelude.Bits.{IsByte, bit_and_0x03}
use mcrs.Protocol.Error.{
  Result, ok, err, invalid_hash_size, invalid_hash_size_code, invalid_trace_flags,
}

pub data HashSize : Type 0 where
  one two three : HashSize

unfoldable pub new : ℕ → Result HashSize
new size =
    if size == 1
    then ok one
    else if size == 2
    then ok two
    else if size == 3
    then ok three
    else err (invalid_hash_size size)

unfoldable pub from_code : ℕ → Result HashSize
from_code code =
    if code == 0
    then ok one
    else if code == 1
    then ok two
    else if code == 2
    then ok three
    else err (invalid_hash_size_code code)

unfoldable pub size : HashSize → ℕ
size one = 1
size two = 2
size three = 3

unfoldable pub code : HashSize → ℕ
code one = 0
code two = 1
code three = 2

pub data TraceHashSize : Type 0 where
  one two four : TraceHashSize

unfoldable pub trace_from_bits : ℕ → Result TraceHashSize
trace_from_bits bits =
    let low = bit_and bits 0x03 in
    if low == 0
    then ok TraceHashSize.one
    else if low == 1
    then ok TraceHashSize.two
    else if low == 2
    then ok four
    else err (invalid_trace_flags bits)

unfoldable pub trace_size : TraceHashSize → ℕ
trace_size TraceHashSize.one = 1
trace_size TraceHashSize.two = 2
trace_size four = 4

unfoldable pub trace_bits : TraceHashSize → ℕ
trace_bits TraceHashSize.one = 0
trace_bits TraceHashSize.two = 1
trace_bits four = 2

pub size_bounds : (s : HashSize) → (1 ≤ size s) × (size s ≤ 3)
unfolding size
size_bounds HashSize.one = omega arith
size_bounds _ = omega arith

-- The size and the code of a hash size each give it back.
pub new-size : (s : HashSize) → new (size s) ≡ ok s
unfolding new size
new-size HashSize.one = refl
new-size _ = refl

pub code-lt : (s : HashSize) → code s < 3
unfolding code
code-lt HashSize.one = omega arith
code-lt _ = omega arith

pub from_code-code : (s : HashSize) → from_code (code s) ≡ ok s
unfolding from_code code
from_code-code HashSize.one = refl
from_code-code _ = refl

pub code-from_code : (c : ℕ) {s : HashSize} → from_code c ≡ ok s → code s ≡ c
unfolding from_code code
code-from_code c h = ground arith

pub trace_size_bounds : (s : TraceHashSize) → (1 ≤ trace_size s) × (trace_size s ≤ 4)
unfolding trace_size
trace_size_bounds four = omega arith
trace_size_bounds _ = omega arith

pub trace_bits-lt : (s : TraceHashSize) → trace_bits s < 3
unfolding trace_bits
trace_bits-lt four = omega arith
trace_bits-lt _ = omega arith

pub trace_from_bits-trace_bits : (s : TraceHashSize) → trace_from_bits (trace_bits s) ≡ ok s
unfolding trace_from_bits trace_bits
trace_from_bits-trace_bits four = refl
trace_from_bits-trace_bits _ = refl

pub trace_bits-trace_from_bits :
    (b : ℕ) {s : TraceHashSize} → IsByte b → trace_from_bits b ≡ ok s → trace_bits s ≡ b % 4
unfolding trace_from_bits trace_bits
trace_bits-trace_from_bits b h e = ground (arith, bit_and_0x03 b h)
