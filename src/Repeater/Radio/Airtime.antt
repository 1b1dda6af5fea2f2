-- ===== src/Repeater/Radio/Airtime.antt =====
-- How the time on the air grows with the length of a packet.
use native.Mathlib.Nat.{
  mul-le-mul_right, le-div_iff_mul-le, div-mul-le_self, div-add-mod, le_trans, mul-le-mul_left,
  mod-eq_of_lt,
}
use mathlib.Core.Path.{subst}
use mcrs.Prelude.{
  ℕ, ◌+◌, ◌-◌, ◌*◌, ◌/◌, ◌%◌, ◌≤◌, ◌<◌, ◌≡◌, ◌⊎◌, refl, ap, sym, min, Bool, false, leb, ◌==◌, arith,
  inl, inr, Bool-cases, if◌then◌else◌,
}
use mcrs.Repeater.Radio.{
  SpreadingFactor, CodingRate, sf5, sf6, sf7, sf8, sf9, sf10, sf11, sf12, cr4_5, cr4_6, cr4_7,
  cr4_8, factor, denominator, RadioConfig, div_ceil_u64, symbol_time_us, payload_symbol_count,
  symbol_numerator, coded_symbols, i32_div, packet_airtime_ms, u64_max,
}

div_mono : (n m d : ℕ) → 0 < d → n ≤ m → n / d ≤ m / d
div_mono n m d p h = (le-div_iff_mul-le p).1 (le_trans (div-mul-le_self n d) h)

div_ceil_mono : (n m d : ℕ) → 0 < d → n ≤ m → div_ceil_u64 n d ≤ div_ceil_u64 m d
unfolding div_ceil_u64
div_ceil_mono n m d p h =
    let low : n / d ≤ m / d = div_mono n m d p h in
    let n_is : d * (n / d) + n % d ≡ n = div-add-mod n d in
    let m_is : d * (m / d) + m % d ≡ m = div-add-mod m d in
    elim (split (n / d) (m / d) low) [
      | inl less ↦ ground (arith, less)
      | inr same ↦
          let rest : n % d ≤ m % d =
            (let m_is' : d * (n / d) + m % d ≡ m = subst (λ q. d * q + m % d ≡ m) (sym same) m_is in
              omega (arith, n_is, m_is', h)) in
          ground (arith, same, rest)
    ]
  where
    split : (a b : ℕ) → a ≤ b → (a < b) ⊎ (a ≡ b)
    split a b l = ground arith

factor-bounds : (s : SpreadingFactor) → (5 ≤ factor s) × (factor s ≤ 12)
unfolding factor
factor-bounds sf5 = (omega arith, omega arith)
factor-bounds sf6 = (omega arith, omega arith)
factor-bounds sf7 = (omega arith, omega arith)
factor-bounds sf8 = (omega arith, omega arith)
factor-bounds sf9 = (omega arith, omega arith)
factor-bounds sf10 = (omega arith, omega arith)
factor-bounds sf11 = (omega arith, omega arith)
factor-bounds sf12 = (omega arith, omega arith)

coded : ℕ → ℕ → ℕ → ℕ
coded numerator den rate = if numerator == 0 then 0 else (numerator + den - 1) / den * rate

coded_mono : (n m d r : ℕ) → 0 < d → n ≤ m → coded n d r ≤ coded m d r
unfolding coded
coded_mono n m d r p h =
    let body : (n + d - 1) / d * r ≤ (m + d - 1) / d * r =
      mul-le-mul_right r (div_mono (n + d - 1) (m + d - 1) d p (omega (arith, h))) in
    ground (arith, body, h)

rate-bound : (c : CodingRate) → denominator c ≤ 8
unfolding denominator
rate-bound cr4_5 = omega arith
rate-bound cr4_6 = omega arith
rate-bound cr4_7 = omega arith
rate-bound cr4_8 = omega arith

-- What the count of symbols is below the lengths at which it wraps around.
abbrev longest : ℕ
longest = 268435440

word-numerator :
    (n k : ℕ)
    → n ≤ longest
    → 5 ≤ k
    → k ≤ 12
    → ((symbol_numerator n k ≡ 8 * n + 28 + 16 - 4 * k) × (symbol_numerator n k ≤ 2147483544))
      ⊎ ((8 * n + 28 + 16 - 4 * k ≡ 0) × (2147483648 ≤ symbol_numerator n k))
unfolding symbol_numerator
word-numerator n k h low high = ground (arith, h, low, high)

quotient-small : (w d r : ℕ) → w ≤ 2147483591 → 12 ≤ d → r ≤ 8 → w / d * r ≤ 1431655727
quotient-small w d r h least most =
    let q : ℕ = w / d in
    let low : q * d ≤ w = div-mul-le_self w d in
    let twelve : q * 12 ≤ q * d = mul-le-mul_left q least in
    let eight : q * r ≤ q * 8 = mul-le-mul_left q most in omega (arith, low, twelve, eight, h)

coded_symbols-coded :
    (w d r : ℕ)
    → w ≤ 2147483544
    → 12 ≤ d
    → d ≤ 48
    → r ≤ 8
    → (coded_symbols w d r ≡ coded w d r) × (coded w d r ≤ 1431655727)
unfolding coded_symbols coded i32_div
coded_symbols-coded w d r h least most rate =
    let sum : (w + d + 4294967295) % 4294967296 ≡ w + d - 1 = omega (arith, h, least, most) in
    let plus : leb 2147483648 (w + d - 1) ≡ false = ground (arith, h, most) in
    let positive : leb 2147483648 w ≡ false = ground (arith, h) in
    let small : (w + d - 1) / d * r ≤ 1431655727 =
      quotient-small (w + d - 1) d r (omega (arith, h, most)) least rate in
    let same : (w + d - 1) / d * r % 4294967296 ≡ (w + d - 1) / d * r =
      mod-eq_of_lt (omega (arith, small)) in
    elim (Bool-cases (w == 0)) [
      | inl y ↦ rw y (refl, omega arith)
      | inr n ↦ rw (n, positive, sum, plus, same) (refl, small)
    ]

-- The divisor of the count of symbols.
abbrev divisor : SpreadingFactor → Bool → ℕ
divisor s low = 4 * (factor s - 2 * (if low then 1 else 0))

divisor-bounds : (s : SpreadingFactor) (low : Bool) → (12 ≤ divisor s low) × (divisor s low ≤ 48)
divisor-bounds s low = let (least, most) = factor-bounds s in ground (arith, least, most)

coded_symbols-negative : (w d r : ℕ) → 2147483648 ≤ w → coded_symbols w d r ≡ 0
unfolding coded_symbols
coded_symbols-negative w d r h = ground (arith, h)

coded_none : (d r : ℕ) → coded 0 d r ≡ 0
unfolding coded
coded_none d r = refl

payload_symbol_count-coded :
    (n : ℕ) (s : SpreadingFactor) (c : CodingRate) (low : Bool)
    → n ≤ longest
    → payload_symbol_count n s c low
      ≡ 8 + coded (8 * n + 28 + 16 - 4 * factor s) (divisor s low) (denominator c)
unfolding payload_symbol_count
payload_symbol_count-coded n s c low h =
    let (least, most) = factor-bounds s in
    let (over, under) = divisor-bounds s low in
    let word : ℕ = symbol_numerator n (factor s) in
    let plain : ℕ = 8 * n + 28 + 16 - 4 * factor s in
    elim (word-numerator n (factor s) h least most) [
      | inl (same, small) ↦
          let (e, room) =
            coded_symbols-coded word (divisor s low) (denominator c) small over under
              (rate-bound c) in
          let count : ℕ = coded word (divisor s low) (denominator c) in
          let fits : (8 + count) % 4294967296 ≡ 8 + count = mod-eq_of_lt (omega (arith, room)) in
          rw (e, fits) (ap (λ x. 8 + coded x (divisor s low) (denominator c)) same)
      | inr (none_left, negative) ↦
          rw
            (
              coded_symbols-negative word (divisor s low) (denominator c) negative,
              none_left,
              coded_none (divisor s low) (denominator c),
            )
            refl
    ]

payload_symbol_count_mono :
    (n m : ℕ) (s : SpreadingFactor) (c : CodingRate) (low : Bool)
    → n ≤ m
    → m ≤ longest
    → payload_symbol_count n s c low ≤ payload_symbol_count m s c low
payload_symbol_count_mono n m s c low h l =
    let (over, _) = divisor-bounds s low in
    let more =
      coded_mono (8 * n + 28 + 16 - 4 * factor s) (8 * m + 28 + 16 - 4 * factor s) (divisor s low)
        (denominator c) (omega (arith, over)) (omega (arith, h)) in
    rw
      (
        payload_symbol_count-coded n s c low (omega (arith, h, l)),
        payload_symbol_count-coded m s c low l,
      )
      (omega (arith, more))

-- Of two packets of at most 268435440 bytes, up to which the numbers of 32 bits do not wrap
-- around, the longer is never on the air for less time, whatever the radio's settings.
pub packet_airtime_ms_mono :
    (c : RadioConfig) (n m : ℕ)
    → n ≤ m
    → m ≤ 268435440
    → packet_airtime_ms c n ≤ packet_airtime_ms c m
unfolding packet_airtime_ms
packet_airtime_ms_mono c n m h l =
    let s : ℕ = symbol_time_us c in
    let pre : ℕ = div_ceil_u64 (s * 49) 4 in
    let count : ℕ → ℕ =
      λ len. payload_symbol_count len c.spreading_factor c.coding_rate (leb 16000 s) in
    let payload : count n * s ≤ count m * s =
      mul-le-mul_right s
        (payload_symbol_count_mono n m c.spreading_factor c.coding_rate (leb 16000 s) h l) in
    let total : div_ceil_u64 (min (pre + count n * s) u64_max) 1000
        ≤ div_ceil_u64 (min (pre + count m * s) u64_max) 1000 =
      div_ceil_mono (min (pre + count n * s) u64_max) (min (pre + count m * s) u64_max) 1000
        (omega arith) (omega (arith, payload)) in
    omega (arith, total)
