-- ===== src/Repeater/Radio.antt =====
-- repeater/src/app/config.rs, RadioConfig: the settings of the radio, and how long a packet of a
-- length is on the air. The count of symbols is computed on `i32` and `u32`, which wrap around; an
-- `i32` is kept as its word of 32 bits, which is negative from 2 ^ 31 on.
use mcrs.Prelude.{
  ℕ, ◌+◌, ◌-◌, ◌*◌, ◌/◌, ◌%◌, ◌^◌, min, Bool, true, false, Option, none, some, List, [], ◌∷◌, leb,
  ◌==◌, if◌then◌else◌, ◌||◌,
}
use mcrs.Prelude.Positions.{find?}
pub mod Settings
pub mod Airtime

pub data SpreadingFactor : Type 0 where
  sf5 sf6 sf7 sf8 sf9 sf10 sf11 sf12 : SpreadingFactor

unfoldable pub from_factor : ℕ → Option SpreadingFactor
from_factor f =
    if f == 5
    then some sf5
    else if f == 6
    then some sf6
    else if f == 7
    then some sf7
    else if f == 8
    then some sf8
    else if f == 9
    then some sf9
    else if f == 10
    then some sf10
    else if f == 11
    then some sf11
    else if f == 12
    then some sf12
    else none

unfoldable pub factor : SpreadingFactor → ℕ
factor sf5 = 5
factor sf6 = 6
factor sf7 = 7
factor sf8 = 8
factor sf9 = 9
factor sf10 = 10
factor sf11 = 11
factor sf12 = 12

pub data Bandwidth : Type 0 where
  khz7_8 khz10_4 khz15_6 khz20_8 khz31_25 khz41_7 khz62_5 khz125 khz250 khz500 : Bandwidth

unfoldable pub hz : Bandwidth → ℕ
hz khz7_8 = 7810
hz khz10_4 = 10420
hz khz15_6 = 15630
hz khz20_8 = 20830
hz khz31_25 = 31250
hz khz41_7 = 41670
hz khz62_5 = 62500
hz khz125 = 125000
hz khz250 = 250000
hz khz500 = 500000

abbrev pub all_bandwidths : List Bandwidth
all_bandwidths =
    khz7_8 ∷ khz10_4 ∷ khz15_6 ∷ khz20_8 ∷ khz31_25 ∷ khz41_7 ∷ khz62_5 ∷ khz125 ∷ khz250 ∷ khz500
    ∷ []

abbrev pub abs_diff : ℕ → ℕ → ℕ
abs_diff a b = (a - b) + (b - a)

unfoldable pub from_hz : ℕ → Option Bandwidth
from_hz frequency =
    find? (λ bandwidth. leb (abs_diff frequency (hz bandwidth)) (hz bandwidth / 100)) all_bandwidths

pub data CodingRate : Type 0 where
  cr4_5 cr4_6 cr4_7 cr4_8 : CodingRate

unfoldable pub denominator : CodingRate → ℕ
denominator cr4_5 = 5
denominator cr4_6 = 6
denominator cr4_7 = 7
denominator cr4_8 = 8

abbrev pub all_coding_rates : List CodingRate
all_coding_rates = cr4_5 ∷ cr4_6 ∷ cr4_7 ∷ cr4_8 ∷ []

unfoldable pub from_denominator : ℕ → Option CodingRate
from_denominator d = find? (λ rate. denominator rate == d) all_coding_rates

pub record RadioConfig : Type 0 where
  pub spreading_factor : SpreadingFactor
  pub bandwidth : Bandwidth
  pub coding_rate : CodingRate

abbrev preamble_length : ℕ
preamble_length = 8

abbrev pub u32_max : ℕ
u32_max = 4294967295

abbrev pub u64_max : ℕ
u64_max = 18446744073709551615

unfoldable pub div_ceil_u64 : ℕ → ℕ → ℕ
div_ceil_u64 n d = n / d + (if n % d == 0 then 0 else 1)

unfoldable pub symbol_time_us : RadioConfig → ℕ
symbol_time_us c = div_ceil_u64 (2 ^ factor c.spreading_factor * 1000000) (hz c.bandwidth)

unfoldable pub symbol_time_ms : RadioConfig → ℕ
symbol_time_ms c = min (div_ceil_u64 (symbol_time_us c) 1000) u32_max

abbrev pub two_32 : ℕ
two_32 = 4294967296

abbrev pub is_negative : ℕ → Bool
is_negative word = leb 2147483648 word

-- `/` on `i32`, which rounds towards 0, for a divisor above 0.
unfoldable pub i32_div : ℕ → ℕ → ℕ
i32_div word d = if is_negative word then (two_32 - (two_32 - word) / d) % two_32 else word / d

-- `8 * payload_len as i32 - 4 * sf + 28 + 16`, with the length cut to 32 bits.
unfoldable pub symbol_numerator : ℕ → ℕ → ℕ
symbol_numerator len sf = (8 * (len % two_32) + (two_32 - 4 * sf) + 28 + 16) % two_32

unfoldable pub coded_symbols : ℕ → ℕ → ℕ → ℕ
coded_symbols numerator denominator_ rate =
    if numerator == 0 || is_negative numerator
    then 0
    else i32_div ((numerator + denominator_ + (two_32 - 1)) % two_32) denominator_ * rate % two_32

unfoldable pub payload_symbol_count : ℕ → SpreadingFactor → CodingRate → Bool → ℕ
payload_symbol_count len spreading rate low_data_rate_optimize =
    let sf = factor spreading in
    let de = if low_data_rate_optimize then 1 else 0 in
    (8 + coded_symbols (symbol_numerator len sf) (4 * (sf - 2 * de)) (denominator rate)) % two_32

unfoldable pub packet_airtime_ms : RadioConfig → ℕ → ℕ
packet_airtime_ms c payload_len =
    let symbol_us = symbol_time_us c in
    let symbols =
      payload_symbol_count payload_len c.spreading_factor c.coding_rate (leb 16000 symbol_us) in
    let preamble_us = div_ceil_u64 (symbol_us * (preamble_length * 4 + 17)) 4 in
    min (div_ceil_u64 (min (preamble_us + symbols * symbol_us) u64_max) 1000) u32_max
