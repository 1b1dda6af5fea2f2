-- ===== src/Repeater/Config/Degrees.antt =====
-- Coordinates as text: repeater/src/app/config.rs, parse_coordinate_microdegrees and the functions
-- around it. The text is the bytes of its UTF-8.
use mcrs.Prelude.{
  ℕ, zero, suc, ◌+◌, ◌-◌, ◌*◌, ◌/◌, ◌%◌, Bool, true, false, not, ◌&&◌, ◌||◌, Option, none, some,
  List, [], ◌∷◌, ◌++◌, list_eq, is_empty, leb, ltb, ◌==◌, if◌then◌else◌,
}
use mcrs.Prelude.Text.{ascii, trim}
use mcrs.Prelude.Words.{ℤ, pos, negsuc}
use mcrs.Repeater.Config.{within}

-- What `parse_coordinate_microdegrees` has read so far.
pub record Scan : Type 0 where
  pub whole : ℕ
  pub fraction : ℕ
  pub fraction_digits : ℕ
  pub seen_dot : Bool
  pub saw_digit : Bool

abbrev pub scan_start : Scan
scan_start = record {
  whole = 0;
  fraction = 0;
  fraction_digits = 0;
  seen_dot = false;
  saw_digit = false;
}

abbrev i64_max : ℕ
i64_max = 9223372036854775807

abbrev checked : {A : Type 0} → Bool → A → Option A
checked true a = some a
checked false a = none

-- A digit before the dot, and one behind it, of which the first six count.
unfoldable pub whole_digit : Scan → ℕ → Option Scan
whole_digit s d = checked (leb (s.whole * 10 + d) i64_max) (record {
  whole = s.whole * 10 + d;
  fraction = s.fraction;
  fraction_digits = s.fraction_digits;
  seen_dot = s.seen_dot;
  saw_digit = true;
})

unfoldable pub fraction_digit : Scan → ℕ → Scan
fraction_digit s d =
    let counts = ltb s.fraction_digits 6 in
    record {
      whole = s.whole;
      fraction = if counts then s.fraction * 10 + d else s.fraction;
      fraction_digits = if counts then s.fraction_digits + 1 else s.fraction_digits;
      seen_dot = s.seen_dot;
      saw_digit = true;
    }

abbrev pub with_dot : Scan → Scan
with_dot s = record {
  whole = s.whole;
  fraction = s.fraction;
  fraction_digits = s.fraction_digits;
  seen_dot = true;
  saw_digit = s.saw_digit;
}

unfoldable pub scan_byte : Scan → ℕ → Option Scan
scan_byte s b =
    if leb 48 b && leb b 57
    then (if s.seen_dot then some (fraction_digit s (b - 48)) else whole_digit s (b - 48))
    else if (b == 46) && not s.seen_dot
    then some (with_dot s)
    else none

-- The loop over the bytes, from `none` once it has returned.
unfoldable pub scan : Option Scan → List ℕ → Option Scan
scan none bs = none
scan (some s) [] = some s
scan (some s) (b ∷ bs) = scan (scan_byte s b) bs

-- `while fraction_digits < 6`
unfoldable pub pad : ℕ → ℕ → ℕ
pad zero fraction = fraction
pad (suc missing) fraction = pad missing (fraction * 10)

unfoldable pub with_sign : Bool → ℕ → ℤ
with_sign true (suc n) = negsuc n
with_sign true zero = pos 0
with_sign false n = pos n

-- `i32::try_from`
unfoldable pub to_i32 : ℤ → Option ℤ
to_i32 (pos n) = checked (ltb n 2147483648) (pos n)
to_i32 (negsuc n) = checked (ltb n 2147483648) (negsuc n)

-- The value of what was read, where it has a digit and does not overflow.
unfoldable pub scanned_value : Bool → Option Scan → Option ℤ
scanned_value negative none = none
scanned_value negative (some s) =
    let value = s.whole * 1000000 + pad (6 - s.fraction_digits) s.fraction in
    if s.saw_digit && leb value i64_max then to_i32 (with_sign negative value) else none

unfoldable pub parse_unsigned : Bool → List ℕ → Option ℤ
parse_unsigned negative input =
    if is_empty input then none else scanned_value negative (scan (some scan_start) input)

unfoldable pub parse_coordinate_microdegrees : List ℕ → Option ℤ
parse_coordinate_microdegrees [] = parse_unsigned false []
parse_coordinate_microdegrees (b ∷ bs) =
    if b == 45
    then parse_unsigned true bs
    else if b == 43
    then parse_unsigned false bs
    else parse_unsigned false (b ∷ bs)

abbrev in_range : ℕ → Option ℤ → Option (Option ℤ)
in_range bound none = none
in_range bound (some value) = if within bound value then some (some value) else none

-- A coordinate between the negative and the positive of a bound, or none at all.
unfoldable pub parse_optional_coordinate : List ℕ → ℕ → Option (Option ℤ)
parse_optional_coordinate input bound =
    let input = trim input in
    if is_empty input
      || list_eq input (ascii "none")
      || list_eq input (ascii "null")
      || list_eq input (ascii "<null>")
    then some none
    else in_range bound (parse_coordinate_microdegrees input)

unfoldable pub parse_latitude_microdegrees : List ℕ → Option (Option ℤ)
parse_latitude_microdegrees input = parse_optional_coordinate input 90000000

unfoldable pub parse_longitude_microdegrees : List ℕ → Option (Option ℤ)
parse_longitude_microdegrees input = parse_optional_coordinate input 180000000

-- A number in decimal; the fuel is more than its digits.
unfoldable pub decimal_from : ℕ → ℕ → List ℕ
decimal_from zero n = []
decimal_from (suc fuel) n =
    let front = decimal_from fuel (n / 10) in
    if ltb n 10 then (48 + n) ∷ [] else front ++ ((48 + n % 10) ∷ [])

unfoldable pub decimal : ℕ → List ℕ
decimal n = decimal_from (suc n) n

-- `{:06}` of a number below a million.
unfoldable pub six_digits : ℕ → List ℕ
six_digits n =
    (48 + n / 100000 % 10)
    ∷ (48 + n / 10000 % 10)
    ∷ (48 + n / 1000 % 10)
    ∷ (48 + n / 100 % 10)
    ∷ (48 + n / 10 % 10)
    ∷ (48 + n % 10)
    ∷ []

unfoldable pub write_unsigned : ℕ → List ℕ
write_unsigned n = decimal (n / 1000000) ++ (46 ∷ six_digits (n % 1000000))

unfoldable pub write_optional_coordinate : Option ℤ → List ℕ
write_optional_coordinate none = []
write_optional_coordinate (some (pos n)) = write_unsigned n
write_optional_coordinate (some (negsuc n)) = 45 ∷ write_unsigned (n + 1)
