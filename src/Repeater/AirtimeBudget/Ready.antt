-- ===== src/Repeater/AirtimeBudget/Ready.antt =====
-- The time that `ready_at_ms` names: at that time the budget is enough.
use mcrs.Prelude.{ℕ, ◌-◌, ◌≤◌, ◌<◌, ◌≡◌, refl, min, false, leb, ltb, arith, inl, inr, Bool-cases}
use mcrs.Prelude.Words.{ℤ, pos, negsuc}
use mcrs.Repeater.AirtimeBudget.{
  AirtimeBudget, i64_max, duty_cycle_max_budget_ms, min_int, saturating_add, at_least, refill_ms,
  refilled, update,
}

-- Never more than the duty cycle allows.
unfoldable pub AtMost : ℤ → ℕ → Type 0
AtMost (pos a) m = a ≤ m
AtMost (negsuc a) m = Unit

min_int-AtMost : (z : ℤ) (m : ℕ) → AtMost (min_int z m) m
unfolding AtMost min_int
min_int-AtMost (pos a) m = omega arith
min_int-AtMost (negsuc a) m = tt

refilled-AtMost :
    (b : AirtimeBudget) (now refill m : ℕ)
    → AtMost b.available_ms m
    → AtMost (refilled b now refill m).available_ms m
unfolding refilled
refilled-AtMost b now refill m h = elim (Bool-cases (ltb 0 refill)) [
  | inl y ↦ rw y (min_int-AtMost (saturating_add b.available_ms (min refill i64_max)) m)
  | inr n ↦ rw n h
]

-- After an update, no more is available than the duty cycle's share of the window.
pub update-AtMost :
    (b : AirtimeBudget) (now percent : ℕ)
    → percent < 100
    → AtMost (update b now percent).available_ms (duty_cycle_max_budget_ms percent)
unfolding update
update-AtMost b now percent h =
    let most : ℕ = duty_cycle_max_budget_ms percent in
    let capped : AirtimeBudget = record {
      available_ms = min_int b.available_ms most;
      last_update_ms = b.last_update_ms;
    } in
    let below : leb 100 percent ≡ false = ground (arith, h) in
    rw below (
      refilled-AtMost capped now (refill_ms (now - b.last_update_ms) percent) most
        (min_int-AtMost b.available_ms most))

too_little : (z : ℤ) (m r : ℕ) → AtMost z m → m < r → at_least z r ≡ false
unfolding AtMost at_least
too_little (pos a) m r at h = ground arith
too_little (negsuc a) m r at h = refl

-- With a duty cycle below 100 percent, a transmission that is longer than the duty cycle's share
-- of the window is never within the budget, however long one waits.
pub update-never :
    (b : AirtimeBudget) (now required p : ℕ)
    → p < 100
    → duty_cycle_max_budget_ms p < required
    → at_least (update b now p).available_ms required ≡ false
update-never b now required p h long =
    too_little (update b now p).available_ms (duty_cycle_max_budget_ms p) required
      (update-AtMost b now p h) long
