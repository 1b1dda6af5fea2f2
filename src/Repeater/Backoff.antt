-- ===== src/Repeater/Backoff.antt =====
-- repeater/src/app/mod.rs, cad_busy_backoff_ms: how long the repeater waits for a busy channel before
-- it listens again.
use native.Mathlib.Nat.{mod-lt}
use mcrs.Prelude.{
  ℕ, ◌+◌, ◌-◌, ◌*◌, ◌/◌, ◌%◌, ◌≤◌, ◌<◌, min, Option, none, some, List, length, get_elem?, leb,
  if◌then◌else◌, arith,
}
use mcrs.Repeater.Radio.{RadioConfig, packet_airtime_ms, symbol_time_ms, u32_max}

abbrev pub cad_busy_backoff_base_ms : ℕ
cad_busy_backoff_base_ms = 10

abbrev larger : ℕ → ℕ → ℕ
larger a b = if leb a b then b else a

abbrev byte_or_zero : Option ℕ → ℕ
byte_or_zero none = 0
byte_or_zero (some b) = b

unfoldable pub minimum_ms : RadioConfig → ℕ
minimum_ms radio = larger cad_busy_backoff_base_ms (min (symbol_time_ms radio * 4) u32_max)

unfoldable pub lower_ms : RadioConfig → ℕ → ℕ
lower_ms radio len = larger (minimum_ms radio) (packet_airtime_ms radio len / 2)

unfoldable pub jitter_window_ms : RadioConfig → ℕ → ℕ
jitter_window_ms radio len =
    larger (packet_airtime_ms radio len - lower_ms radio len) (minimum_ms radio)

unfoldable pub cad_busy_backoff_ms : List ℕ → RadioConfig → ℕ → ℕ
cad_busy_backoff_ms payload radio attempt =
    let seed = byte_or_zero (get_elem? payload (attempt % larger (length payload) 1)) in
    min
      (min (lower_ms radio (length payload) + attempt * minimum_ms radio % 4294967296) u32_max
        + seed % jitter_window_ms radio (length payload))
      u32_max

minimum-positive : (radio : RadioConfig) → 10 ≤ minimum_ms radio
unfolding minimum_ms
minimum-positive radio = ground arith

jitter-positive : (radio : RadioConfig) (len : ℕ) → 10 ≤ jitter_window_ms radio len
unfolding jitter_window_ms
jitter-positive radio len = ground (arith, minimum-positive radio)

-- Where 32 bits hold the sum, the wait is the lower bound for the packet and the attempt, and less
-- than a window more, which is never empty.
pub cad_busy_backoff_bounds :
    (payload : List ℕ) (radio : RadioConfig) (attempt : ℕ)
    → lower_ms radio (length payload)
        + attempt * minimum_ms radio
        + jitter_window_ms radio (length payload)
      < u32_max
    → (lower_ms radio (length payload) + attempt * minimum_ms radio
        ≤ cad_busy_backoff_ms payload radio attempt)
      × (cad_busy_backoff_ms payload radio attempt
          < lower_ms radio (length payload)
            + attempt * minimum_ms radio
            + jitter_window_ms radio (length payload))
unfolding cad_busy_backoff_ms
cad_busy_backoff_bounds payload radio attempt h =
    let window : ℕ = jitter_window_ms radio (length payload) in
    let seed : ℕ = byte_or_zero (get_elem? payload (attempt % larger (length payload) 1)) in
    let below : seed % window < window =
      mod-lt seed (omega (arith, jitter-positive radio (length payload))) in
    omega (arith, below, h)
