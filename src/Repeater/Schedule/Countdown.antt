-- ===== src/Repeater/Schedule/Countdown.antt =====
-- When the countdown fires, and that it does not fire twice within an interval.
use mcrs.Prelude.{
  ℕ, ◌+◌, ◌-◌, ◌*◌, ◌≤◌, ◌<◌, ◌≡◌, ◌↔◌, ◌⊎◌, inl, inr, if◌then◌else◌, true, false, List, [], ◌∷◌,
  arith,
}
use mcrs.Repeater.Schedule.{Schedule, new, due}

-- The countdown fires exactly when the interval is the one it was started with, is not zero, and
-- has passed since the start.
pub due_iff :
    (s : Schedule) (interval now : ℕ)
    → ((due s interval now).0 ≡ true)
      ↔ ((interval ≡ s.interval_ms) × (0 < interval) × (s.started_ms + interval ≤ now))
unfolding due
due_iff s interval now = ground arith

-- How often `due` answers yes when it is asked at each of these times.
unfoldable pub fired : Schedule → ℕ → List ℕ → ℕ
fired s interval [] = 0
fired s interval (now ∷ times) =
    let (fires, after) = due s interval now in
    let rest = fired after interval times in if fires then rest + 1 else rest

-- Times that do not decrease, from a first to a last.
unfoldable pub Clock : ℕ → ℕ → List ℕ → Type 0
Clock first last [] = first ≤ last
Clock first last (now ∷ times) = (first ≤ now) × Clock now last times

Clock-from : (a b last : ℕ) (times : List ℕ) → a ≤ b → Clock b last times → Clock a last times
unfolding Clock
Clock-from a b last [] l c = omega arith
Clock-from a b last (now ∷ times) l c = (omega (arith, c.0), c.1)

Clock-ends : (first last : ℕ) (times : List ℕ) → Clock first last times → first ≤ last
unfolding Clock
Clock-ends first last [] c = c
Clock-ends first last (now ∷ times) c = omega (arith, c.0, Clock-ends now last times c.1)

due-cases :
    (s : Schedule) (interval now : ℕ)
    → ((due s interval now).0 ≡ true)
        × ((due s interval now).1.started_ms ≡ now)
        × (s.started_ms + interval ≤ now)
      ⊎ ((due s interval now).0 ≡ false)
        × (((due s interval now).1.started_ms ≡ s.started_ms)
            ⊎ ((due s interval now).1.started_ms ≡ now))
unfolding due new
due-cases s interval now = ground arith

-- Asked along a clock that does not run back, a countdown of a positive interval fires at most
-- once for each interval that has passed since its start.
pub fired_bound :
    (s : Schedule) (interval last : ℕ) (times : List ℕ)
    → 0 < interval
    → Clock s.started_ms last times
    → fired s interval times * interval ≤ last - s.started_ms
unfolding fired Clock
fired_bound s interval last [] h c = omega arith
fired_bound s interval last (now ∷ times) h (l, c) =
    let after : Schedule = (due s interval now).1 in
    let rest : ℕ = fired after interval times in
    let late : now ≤ last = Clock-ends now last times c in
    elim (due-cases s interval now) [
      | inl (y, started, passed) ↦
          let from : Clock after.started_ms last times =
            Clock-from after.started_ms now last times (omega arith) c in
          let step : rest * interval ≤ last - after.started_ms =
            fired_bound after interval last times h from in
          rw y (omega arith)
      | inr (n, started) ↦
          let early : after.started_ms ≤ now = ground arith in
          let from : Clock after.started_ms last times =
            Clock-from after.started_ms now last times early c in
          let step : rest * interval ≤ last - after.started_ms =
            fired_bound after interval last times h from in
          rw n (ground arith)
    ]
