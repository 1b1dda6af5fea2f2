-- ===== src/Prelude/Text.antt =====
-- Text as the bytes of its UTF-8, as Rust's `str` holds it: literals, prefixes and `trim`.
use Prim.Native.Nat.{ℕ}
use Prim.Native.Char.{code}
use Prim.Native.String as Str
use Prim.Native.String.{String}
use mathlib.Core.Bool.{Bool, true, false, ◌&&◌, ◌||◌}
use mathlib.Core.List.{List, [], ◌∷◌, reverse}
use mathlib.Core.Option.{Option, none, some}
use mcrs.Prelude.Tests.{leb, ◌==◌, if◌then◌else◌}

-- The bytes of a literal of ASCII characters.
abbrev pub ascii : String → List ℕ
ascii Str.[] = []
ascii (Str.◌∷◌ c s) = code c ∷ ascii s

unfoldable pub starts_with : List ℕ → List ℕ → Bool
starts_with xs [] = true
starts_with [] (y ∷ ys) = false
starts_with (x ∷ xs) (y ∷ ys) = x == y && starts_with xs ys

-- What follows the prefix, if the text starts with it.
unfoldable pub strip_prefix : List ℕ → List ℕ → Option (List ℕ)
strip_prefix xs [] = some xs
strip_prefix [] (y ∷ ys) = none
strip_prefix (x ∷ xs) (y ∷ ys) = let rest = strip_prefix xs ys in if x == y then rest else none

-- The white space of Unicode by the bytes of its UTF-8: one byte, two and three.
abbrev pub white1 : ℕ → Bool
white1 a = (leb 9 a && leb a 13) || a == 32

abbrev pub white2 : ℕ → ℕ → Bool
white2 a b = a == 0xc2 && (b == 0x85 || b == 0xa0)

abbrev pub white3 : ℕ → ℕ → ℕ → Bool
white3 a b c =
    (a == 0xe1 && b == 0x9a && c == 0x80)
    || (a == 0xe2 && b == 0x80 && (leb c 0x8a || c == 0xa8 || c == 0xa9 || c == 0xaf))
    || (a == 0xe2 && b == 0x81 && c == 0x9f)
    || (a == 0xe3 && b == 0x80 && c == 0x80)

-- Without the white space in front; each case cuts at least one byte.
unfoldable pub trim_start : List ℕ → List ℕ
trim_start [] = []
trim_start (a ∷ []) = if white1 a then [] else a ∷ []
trim_start (a ∷ b ∷ []) =
    let rest = trim_start (b ∷ []) in
    if white1 a then rest else if white2 a b then [] else a ∷ b ∷ []
trim_start (a ∷ b ∷ c ∷ cs) =
    let rest1 = trim_start (b ∷ c ∷ cs) in
    let rest2 = trim_start (c ∷ cs) in
    let rest3 = trim_start cs in
    if white1 a
    then rest1
    else if white2 a b
    then rest2
    else if white3 a b c
    then rest3
    else a ∷ b ∷ c ∷ cs

-- The same on the bytes in reverse.
unfoldable pub trim_back : List ℕ → List ℕ
trim_back [] = []
trim_back (a ∷ []) = if white1 a then [] else a ∷ []
trim_back (b ∷ a ∷ []) =
    let rest = trim_back (a ∷ []) in
    if white1 b then rest else if white2 a b then [] else b ∷ a ∷ []
trim_back (c ∷ b ∷ a ∷ rest) =
    let rest1 = trim_back (b ∷ a ∷ rest) in
    let rest2 = trim_back (a ∷ rest) in
    let rest3 = trim_back rest in
    if white1 c
    then rest1
    else if white2 b c
    then rest2
    else if white3 a b c
    then rest3
    else c ∷ b ∷ a ∷ rest

unfoldable pub trim : List ℕ → List ℕ
trim text = reverse (trim_back (reverse (trim_start text)))
