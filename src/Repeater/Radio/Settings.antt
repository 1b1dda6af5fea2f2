-- ===== src/Repeater/Radio/Settings.antt =====
-- The radio's settings as numbers and back.
use mathlib.Core.Path.{subst}
use mcrs.Prelude.{
  ℕ, ◌/◌, ◌≤◌, ◌≡◌, refl, Bool, true, some, List, [], ◌∷◌, leb, leb→le, arith, inl, inr, Bool-cases,
}
use mcrs.Prelude.Positions.{find?}
use mcrs.Repeater.Radio.{
  SpreadingFactor, Bandwidth, CodingRate, sf5, sf6, sf7, sf8, sf9, sf10, sf11, sf12, khz7_8,
  khz10_4, khz15_6, khz20_8, khz31_25, khz41_7, khz62_5, khz125, khz250, khz500, cr4_5, cr4_6,
  cr4_7, cr4_8, from_factor, factor, hz, from_hz, abs_diff, all_bandwidths, denominator,
  from_denominator, RadioConfig,
}

from_factor-factor : (s : SpreadingFactor) → from_factor (factor s) ≡ some s
unfolding from_factor factor
from_factor-factor sf5 = refl
from_factor-factor sf6 = refl
from_factor-factor sf7 = refl
from_factor-factor sf8 = refl
from_factor-factor sf9 = refl
from_factor-factor sf10 = refl
from_factor-factor sf11 = refl
from_factor-factor sf12 = refl

from_hz-hz : (b : Bandwidth) → from_hz (hz b) ≡ some b
unfolding from_hz hz find?
from_hz-hz khz7_8 = refl
from_hz-hz khz10_4 = refl
from_hz-hz khz15_6 = refl
from_hz-hz khz20_8 = refl
from_hz-hz khz31_25 = refl
from_hz-hz khz41_7 = refl
from_hz-hz khz62_5 = refl
from_hz-hz khz125 = refl
from_hz-hz khz250 = refl
from_hz-hz khz500 = refl

from_denominator-denominator : (c : CodingRate) → from_denominator (denominator c) ≡ some c
unfolding from_denominator denominator find?
from_denominator-denominator cr4_5 = refl
from_denominator-denominator cr4_6 = refl
from_denominator-denominator cr4_7 = refl
from_denominator-denominator cr4_8 = refl

-- The number of each setting is read back as that setting.
pub settings-read_back :
    (c : RadioConfig)
    → (from_factor (factor c.spreading_factor) ≡ some c.spreading_factor)
      × (from_hz (hz c.bandwidth) ≡ some c.bandwidth)
      × (from_denominator (denominator c.coding_rate) ≡ some c.coding_rate)
settings-read_back c = (
  from_factor-factor c.spreading_factor,
  from_hz-hz c.bandwidth,
  from_denominator-denominator c.coding_rate,
)

find?-holds :
    {A : Type 0} (test : A → Bool) (xs : List A) (x : A) → find? test xs ≡ some x → test x ≡ true
unfolding find?
find?-holds test [] x h = absurd (ground arith)
find?-holds test (y ∷ ys) x h = elim (Bool-cases (test y)) [
  | inl yes_ ↦ subst (λ z. test z ≡ true) (ground (arith, h, yes_)) yes_
  | inr n ↦ find?-holds test ys x (ground (arith, h, n))
]

-- A bandwidth that is read is within one hundredth of the number that was given.
pub from_hz-near :
    (frequency : ℕ) (b : Bandwidth)
    → from_hz frequency ≡ some b
    → abs_diff frequency (hz b) ≤ hz b / 100
unfolding from_hz
from_hz-near frequency b h = leb→le (abs_diff frequency (hz b)) (hz b / 100) (
    find?-holds (λ bandwidth. leb (abs_diff frequency (hz bandwidth)) (hz bandwidth / 100))
      all_bandwidths b h)
