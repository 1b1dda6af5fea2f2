-- ===== src/Repeater/Config/Coordinates.antt =====
-- Coordinates as text: what is written in degrees is read back to the microdegree.
use mcrs.Prelude.{
  ℕ, zero, suc, ◌+◌, ◌*◌, ◌/◌, ◌%◌, ◌≤◌, ◌<◌, ◌≡◌, refl, sym, ap, ◌∙◌, Bool, true, false, some,
  List, [], ◌∷◌, ◌++◌, is_empty, leb, ltb, ◌==◌, arith, inl, inr, Bool-cases, append_assoc,
}
use mcrs.Prelude.Words.{ℤ, pos, negsuc, IsI32}
use mcrs.Repeater.Config.Degrees.{
  Scan, scan_start, whole_digit, fraction_digit, scan_byte, scan, pad, with_sign, to_i32,
  scanned_value, parse_unsigned, parse_coordinate_microdegrees, decimal_from, decimal, six_digits,
  write_unsigned, write_optional_coordinate,
}

scan_step :
    (s next : Scan) (b : ℕ) (bs : List ℕ)
    → scan_byte s b ≡ some next
    → scan (some s) (b ∷ bs) ≡ scan (some next) bs
unfolding scan
scan_step s next b bs h = ap (λ t. scan t bs) h

abbrev at_whole : ℕ → Scan
at_whole n = record {
  whole = n;
  fraction = 0;
  fraction_digits = 0;
  seen_dot = false;
  saw_digit = true;
}

abbrev at_fraction : ℕ → ℕ → ℕ → Scan
at_fraction n f k = record {
  whole = n;
  fraction = f;
  fraction_digits = k;
  seen_dot = true;
  saw_digit = true;
}

whole_byte :
    (n d : ℕ)
    → d < 10
    → n < 1000000
    → scan_byte (at_whole n) (48 + d) ≡ some (at_whole (n * 10 + d))
unfolding scan_byte whole_digit
whole_byte n d h k = ground arith

first_byte : (d : ℕ) → d < 10 → scan_byte scan_start (48 + d) ≡ some (at_whole d)
unfolding scan_byte whole_digit
first_byte d h = ground arith

fraction_byte :
    (n f k d : ℕ)
    → d < 10
    → k < 6
    → scan_byte (at_fraction n f k) (48 + d) ≡ some (at_fraction n (f * 10 + d) (k + 1))
unfolding scan_byte fraction_digit
fraction_byte n f k d h l = ground arith

dot_byte : (n : ℕ) → scan_byte (at_whole n) 46 ≡ some (at_fraction n 0 0)
unfolding scan_byte
dot_byte n = refl

-- The digits of a number are read as that number.
scan-decimal_from :
    (fuel n : ℕ) (rest : List ℕ)
    → n < fuel
    → n < 1000000
    → scan (some scan_start) (decimal_from fuel n ++ rest) ≡ scan (some (at_whole n)) rest
unfolding decimal_from
scan-decimal_from zero n rest h k = absurd (omega arith)
scan-decimal_from (suc fuel) n rest h k = elim (Bool-cases (ltb n 10)) [
  | inl y ↦
      rw y (scan_step scan_start (at_whole n) (48 + n) rest (first_byte n (ground (arith, y))))
  | inr m ↦
      let front : scan (some scan_start) (decimal_from fuel (n / 10) ++ ((48 + n % 10) ∷ rest))
          ≡ scan (some (at_whole (n / 10))) ((48 + n % 10) ∷ rest) =
        scan-decimal_from fuel (n / 10) ((48 + n % 10) ∷ rest) (ground (arith, m, h))
          (omega (arith, k)) in
      let last : scan (some (at_whole (n / 10))) ((48 + n % 10) ∷ rest)
          ≡ scan (some (at_whole (n / 10 * 10 + n % 10))) rest =
        scan_step (at_whole (n / 10)) (at_whole (n / 10 * 10 + n % 10)) (48 + n % 10) rest
          (whole_byte (n / 10) (n % 10) (omega arith) (omega (arith, k))) in
      let whole : n / 10 * 10 + n % 10 ≡ n = omega arith in
      rw m (
        ap (scan (some scan_start))
          (append_assoc (decimal_from fuel (n / 10)) ((48 + n % 10) ∷ []) rest)
        ∙ front
        ∙ last
        ∙ ap (λ w. scan (some (at_whole w)) rest) whole)
]

fraction_step :
    (n f k d : ℕ) (bs : List ℕ)
    → d < 10
    → k < 6
    → scan (some (at_fraction n f k)) ((48 + d) ∷ bs)
      ≡ scan (some (at_fraction n (f * 10 + d) (k + 1))) bs
fraction_step n f k d bs h l =
    scan_step (at_fraction n f k) (at_fraction n (f * 10 + d) (k + 1)) (48 + d) bs
      (fraction_byte n f k d h l)

-- The six digits behind the dot are read as their number.
scan-six_digits :
    (n f : ℕ)
    → f < 1000000
    → scan (some (at_fraction n 0 0)) (six_digits f) ≡ some (at_fraction n f 6)
unfolding six_digits scan
scan-six_digits n f h =
    let a : ℕ = 0 * 10 + f / 100000 % 10 in
    let b : ℕ = a * 10 + f / 10000 % 10 in
    let c : ℕ = b * 10 + f / 1000 % 10 in
    let d : ℕ = c * 10 + f / 100 % 10 in
    let e : ℕ = d * 10 + f / 10 % 10 in
    let all : e * 10 + f % 10 ≡ f = omega (arith, h) in
    let r1 : List ℕ = (48 + f % 10) ∷ [] in
    let r2 : List ℕ = (48 + f / 10 % 10) ∷ r1 in
    let r3 : List ℕ = (48 + f / 100 % 10) ∷ r2 in
    let r4 : List ℕ = (48 + f / 1000 % 10) ∷ r3 in
    let r5 : List ℕ = (48 + f / 10000 % 10) ∷ r4 in
    fraction_step n 0 0 (f / 100000 % 10) r5 (omega arith) (omega arith)
    ∙ fraction_step n a 1 (f / 10000 % 10) r4 (omega arith) (omega arith)
    ∙ fraction_step n b 2 (f / 1000 % 10) r3 (omega arith) (omega arith)
    ∙ fraction_step n c 3 (f / 100 % 10) r2 (omega arith) (omega arith)
    ∙ fraction_step n d 4 (f / 10 % 10) r1 (omega arith) (omega arith)
    ∙ fraction_step n e 5 (f % 10) [] (omega arith) (omega arith)
    ∙ ap (λ x. some (at_fraction n x 6)) all

scan-write_unsigned :
    (n : ℕ)
    → n < 1000000000000
    → scan (some scan_start) (write_unsigned n) ≡ some (at_fraction (n / 1000000) (n % 1000000) 6)
unfolding write_unsigned decimal
scan-write_unsigned n h =
    let w : ℕ = n / 1000000 in
    let f : ℕ = n % 1000000 in
    scan-decimal_from (suc w) w (46 ∷ six_digits f) (omega arith) (omega (arith, h))
    ∙ scan_step (at_whole w) (at_fraction w 0 0) 46 (six_digits f) (dot_byte w)
    ∙ scan-six_digits w f (omega arith)

-- The first byte is a digit.
digit_first :
    (fuel n : ℕ) (rest : List ℕ)
    → n < fuel
    → (b : ℕ) × (bs : List ℕ) × (decimal_from fuel n ++ rest ≡ b ∷ bs) × (48 ≤ b)
unfolding decimal_from
digit_first zero n rest h = absurd (omega arith)
digit_first (suc fuel) n rest h = elim (Bool-cases (ltb n 10)) [
  | inl y ↦ (48 + n, rest, rw y refl, omega arith)
  | inr m ↦
      let (b, bs, e, l) = digit_first fuel (n / 10) ((48 + n % 10) ∷ rest) (ground (arith, m, h)) in
      (b, bs, rw m (append_assoc (decimal_from fuel (n / 10)) ((48 + n % 10) ∷ []) rest ∙ e), l)
]

write_unsigned_first : (n : ℕ) → (b : ℕ) × (bs : List ℕ) × (write_unsigned n ≡ b ∷ bs) × (48 ≤ b)
unfolding write_unsigned decimal
write_unsigned_first n =
    digit_first (suc (n / 1000000)) (n / 1000000) (46 ∷ six_digits (n % 1000000)) (omega arith)

parse_unsigned-write_unsigned :
    (negative : Bool) (n : ℕ)
    → n < 1000000000000
    → parse_unsigned negative (write_unsigned n) ≡ to_i32 (with_sign negative n)
unfolding parse_unsigned scanned_value pad
parse_unsigned-write_unsigned negative n h =
    let (b, bs, e, l) = write_unsigned_first n in
    let some_bytes : is_empty (write_unsigned n) ≡ false = ap is_empty e in
    let value : n / 1000000 * 1000000 + n % 1000000 ≡ n = omega arith in
    rw (some_bytes, scan-write_unsigned n h, value) (rw (fits n h) refl)
  where
    fits : (m : ℕ) → m < 1000000000000 → leb m 9223372036854775807 ≡ true
    fits m k = ground (arith, k)

-- A coordinate of 32 bits is read back, to the microdegree, from the decimal text that is written
-- for it.
pub parse_coordinate-write_optional_coordinate :
    (z : ℤ) → IsI32 z → parse_coordinate_microdegrees (write_optional_coordinate (some z)) ≡ some z
unfolding parse_coordinate_microdegrees write_optional_coordinate to_i32 with_sign
parse_coordinate-write_optional_coordinate (pos n) h =
    let (b, bs, e, l) = write_unsigned_first n in
    let small : ltb n 2147483648 ≡ true = ground (arith, h) in
    let minus : (b == 45) ≡ false = ground (arith, l) in
    let plus : (b == 43) ≡ false = ground (arith, l) in
    let parsed : parse_unsigned false (write_unsigned n) ≡ some (pos n) =
      parse_unsigned-write_unsigned false n (omega (arith, h)) ∙ rw small refl in
    ap parse_coordinate_microdegrees e
    ∙ (rw (minus, plus) (ap (parse_unsigned false) (sym e) ∙ parsed))
parse_coordinate-write_optional_coordinate (negsuc n) h =
    let small : ltb n 2147483648 ≡ true = ground (arith, h) in
    let one : n + 1 ≡ suc n = omega arith in
    parse_unsigned-write_unsigned true (n + 1) (omega (arith, h)) ∙ rw (one, small) refl
