-- ===== src/Repeater/Battery.antt =====
-- repeater/src/app/battery.rs: the battery's level from its voltage.
use mcrs.Prelude.{ℕ, ◌-◌, ◌*◌, ◌/◌, ◌%◌, ◌≤◌, leb, if◌then◌else◌, arith}

abbrev percent_min_mv : ℕ
percent_min_mv = 3300

abbrev percent_max_mv : ℕ
percent_max_mv = 4100

unfoldable pub level_percent : ℕ → ℕ
level_percent millivolts =
    if leb millivolts percent_min_mv
    then 0
    else if leb percent_max_mv millivolts
    then 100
    else (millivolts - percent_min_mv) * 100 / (percent_max_mv - percent_min_mv) % 256

pub level_percent_bound : (v : ℕ) → level_percent v ≤ 100
unfolding level_percent
level_percent_bound v = ground arith

-- A higher voltage never reads as a lower level, and no level is above 100.
pub level_percent_monotone :
    (v w : ℕ) → v ≤ w → (level_percent v ≤ level_percent w) × (level_percent w ≤ 100)
unfolding level_percent
level_percent_monotone v w h = (ground arith, level_percent_bound w)
