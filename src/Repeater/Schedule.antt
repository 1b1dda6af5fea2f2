-- ===== src/Repeater/Schedule.antt =====
-- repeater/src/app/periodic/schedule.rs: the countdown to the next advert.
use mcrs.Prelude.{ℕ, ◌-◌, Bool, true, false, ◌||◌, ltb, ◌==◌, ◌!=◌, if◌then◌else◌}
pub mod Countdown

pub record Schedule : Type 0 where
  pub interval_ms : ℕ
  pub started_ms : ℕ

unfoldable pub new : ℕ → ℕ → Schedule
new interval_ms now_ms = record { interval_ms = interval_ms; started_ms = now_ms }

-- The answer, and the schedule afterwards.
unfoldable pub due : Schedule → ℕ → ℕ → Bool × Schedule
due s interval_ms now_ms =
    if interval_ms != s.interval_ms
    then (false, new interval_ms now_ms)
    else if (interval_ms == 0) || ltb (now_ms - s.started_ms) interval_ms
    then (false, s)
    else (true, record { interval_ms = s.interval_ms; started_ms = now_ms })
