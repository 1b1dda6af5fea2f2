-- ===== src/Prelude/Utf8.antt =====
-- Well-formed UTF-8 as the Unicode standard tabulates it, which `String::from_utf8` of Rust's
-- library checks. A text of the program is the list of its bytes.
use Prim.Native.Nat.{ℕ, ◌-◌}
use mathlib.Core.Bool.{Bool, false, ◌&&◌}
use mathlib.Core.List.{List, [], ◌∷◌}
use mathlib.Core.Option.{Option, none, some}
use mcrs.Prelude.Tests.{leb, ltb, ◌==◌, if◌then◌else◌}

-- How many bytes of the character are still to come, and the range of the next one.
abbrev Pending : Type 0
Pending = ℕ × ℕ × ℕ

abbrev between : ℕ → ℕ → ℕ → Bool
between lo hi b = leb lo b && leb b hi

lead : ℕ → Option Pending
lead b =
    if ltb b 0x80
    then some (0, 0x80, 0xbf)
    else if between 0xc2 0xdf b
    then some (1, 0x80, 0xbf)
    else if b == 0xe0
    then some (2, 0xa0, 0xbf)
    else if b == 0xed
    then some (2, 0x80, 0x9f)
    else if between 0xe1 0xef b
    then some (2, 0x80, 0xbf)
    else if b == 0xf0
    then some (3, 0x90, 0xbf)
    else if between 0xf1 0xf3 b
    then some (3, 0x80, 0xbf)
    else if b == 0xf4
    then some (3, 0x80, 0x8f)
    else none

next : Pending → ℕ → Option Pending
unfolding lead
next (left, lo, hi) b =
    if left == 0 then lead b else if between lo hi b then some (left - 1, 0x80, 0xbf) else none

continues : Pending → List ℕ → Bool
unfolding next
continues (left, lo, hi) [] = left == 0
continues s (b ∷ bs) = elim (next s b) [ none ↦ false | some s' ↦ continues s' bs ]

unfoldable pub is_utf8 : List ℕ → Bool
unfolding continues
is_utf8 bytes = continues (0, 0x80, 0xbf) bytes
