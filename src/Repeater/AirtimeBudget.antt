-- ===== src/Repeater/AirtimeBudget.antt =====
-- repeater/src/app/mod.rs, AirtimeBudget: how much time on the air the duty cycle leaves. The budget
-- is an `i64`, which a transmission may take below zero.
use mcrs.Prelude.{ℕ, ◌+◌, ◌-◌, ◌*◌, ◌/◌, min, Bool, true, false, leb, ltb, if◌then◌else◌}
use mcrs.Prelude.Words.{ℤ, pos, negsuc}
use mcrs.Repeater.Radio.{div_ceil_u64, u64_max}
pub mod Ready

abbrev pub duty_cycle_window_ms : ℕ
duty_cycle_window_ms = 3600000

abbrev pub i64_max : ℕ
i64_max = 9223372036854775807

pub record AirtimeBudget : Type 0 where
  pub available_ms : ℤ
  pub last_update_ms : ℕ

-- `clamp(1, 100)`
unfoldable pub clamp_percent : ℕ → ℕ
clamp_percent p = if ltb p 1 then 1 else if ltb 100 p then 100 else p

unfoldable pub duty_cycle_max_budget_ms : ℕ → ℕ
duty_cycle_max_budget_ms percent = duty_cycle_window_ms * clamp_percent percent / 100

unfoldable pub new : ℕ → ℕ → AirtimeBudget
new now percent = record {
  available_ms = pos (duty_cycle_max_budget_ms percent);
  last_update_ms = now;
}

-- `min`, `saturating_add`, `saturating_sub` and `>=` of an `i64` and a number that is not negative.
unfoldable pub min_int : ℤ → ℕ → ℤ
min_int (pos a) m = pos (min a m)
min_int (negsuc a) m = negsuc a

unfoldable pub saturating_add : ℤ → ℕ → ℤ
saturating_add (pos a) n = pos (min (a + n) i64_max)
saturating_add (negsuc a) n = if leb n a then negsuc (a - n) else pos (n - a - 1)

unfoldable pub saturating_sub : ℤ → ℕ → ℤ
saturating_sub (pos a) n = if leb n a then pos (a - n) else negsuc (n - a - 1)
saturating_sub (negsuc a) n = negsuc (min (a + n) i64_max)

unfoldable pub at_least : ℤ → ℕ → Bool
at_least (pos a) n = leb n a
at_least (negsuc a) n = false

-- `required_ms.saturating_sub(available_ms) as u64`, where less is available than required.
unfoldable pub shortfall : ℕ → ℤ → ℕ
shortfall n (pos a) = n - a
shortfall n (negsuc a) = min (n + a + 1) i64_max

unfoldable pub refill_ms : ℕ → ℕ → ℕ
refill_ms elapsed percent = min (elapsed * clamp_percent percent) u64_max / 100

unfoldable pub refilled : AirtimeBudget → ℕ → ℕ → ℕ → AirtimeBudget
refilled b now refill most =
    if ltb 0 refill
    then record {
      available_ms = min_int (saturating_add b.available_ms (min refill i64_max)) most;
      last_update_ms = now;
    }
    else b

unfoldable pub update : AirtimeBudget → ℕ → ℕ → AirtimeBudget
update b now percent =
    if leb 100 percent
    then record { available_ms = pos duty_cycle_window_ms; last_update_ms = now }
    else let most = duty_cycle_max_budget_ms percent in
      refilled
        (record { available_ms = min_int b.available_ms most; last_update_ms = b.last_update_ms })
        now (refill_ms (now - b.last_update_ms) percent) most

-- When the budget allows a transmission of the time, and the budget updated.
unfoldable pub ready_when : AirtimeBudget → ℕ → ℕ → ℕ → ℕ
ready_when b now required percent =
    if at_least b.available_ms required
    then now
    else min
        (now
          + div_ceil_u64 (min (shortfall required b.available_ms * 100) u64_max)
              (clamp_percent percent))
        u64_max

unfoldable pub ready_at_ms : AirtimeBudget → ℕ → ℕ → ℕ → ℕ × AirtimeBudget
ready_at_ms b now required percent =
    if leb 100 percent
    then (now, b)
    else let updated = update b now percent in (ready_when updated now required percent, updated)

unfoldable pub record_transmit : AirtimeBudget → ℕ → ℕ → ℕ → AirtimeBudget
record_transmit b now airtime percent =
    if leb 100 percent
    then b
    else let updated = update b now percent in
      record {
        available_ms = saturating_sub updated.available_ms airtime;
        last_update_ms = updated.last_update_ms;
      }
