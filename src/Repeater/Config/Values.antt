-- ===== src/Repeater/Config/Values.antt =====
-- The values of the settings: what is written is read back, and what is cut fits.
use mcrs.Prelude.{
  ℕ, zero, suc, ◌+◌, ◌≤◌, ◌≡◌, refl, ap, Bool, true, false, Option, none, some, List, [], ◌∷◌,
  is_empty, ltb, ◌==◌, ◌||◌, arith, inl, inr, Bool-cases, Option-cases, if◌then◌else◌,
}
use mcrs.Repeater.Config.{
  len_utf8, text_len, fit, fit_password, fit_info, fit_owner_info, fit_name, fit_node_name,
  is_name_mark, parse_repeat, repeat_text, parse_bool, bool_text,
}

-- The texts of switches are read back.
pub switches-read_back :
    (b : Bool) → (parse_repeat (repeat_text b) ≡ some b) × (parse_bool (bool_text b) ≡ some b)
unfolding parse_repeat repeat_text parse_bool bool_text mcrs.Prelude.Text.trim
    mcrs.Prelude.Text.trim_back mcrs.Prelude.Text.trim_start
switches-read_back true = (refl, refl)
switches-read_back false = (refl, refl)

fit-bound : (most len : ℕ) (cs : List ℕ) → len ≤ most → len + text_len (fit most len cs) ≤ most
unfolding fit text_len
fit-bound most len [] h = omega (arith, h)
fit-bound most len (c ∷ cs) h = ground (arith, fit-bound most (len + len_utf8 c) cs, h)

fit_info-bound : (len : ℕ) (cs : List ℕ) → len ≤ 119 → len + text_len (fit_info len cs) ≤ 119
unfolding fit_info text_len len_utf8
fit_info-bound len [] h = omega (arith, h)
fit_info-bound len (c ∷ cs) h = ground (arith, fit_info-bound (len + len_utf8 c) cs, h)

fit_name-bound :
    (len : ℕ) (cs output : List ℕ)
    → len ≤ 31
    → fit_name len cs ≡ some output
    → len + text_len output ≤ 31
unfolding fit_name text_len
fit_name-bound len [] output h e = ground (arith, h, e)
fit_name-bound len (c ∷ cs) output h e = elim (Bool-cases (is_name_mark c)) [
  | inl y ↦ absurd (ground (arith, e, y))
  | inr plain ↦ elim (Bool-cases (ltb 31 (len + len_utf8 c))) [
    | inl y ↦ ground (arith, h, e, plain, y)
    | inr room ↦ elim (Option-cases (fit_name (len + len_utf8 c) cs)) [
      | inl n ↦ absurd (ground (arith, e, plain, room, n))
      | inr (rest, y) ↦
          let below : len + len_utf8 c + text_len rest ≤ 31 =
            fit_name-bound (len + len_utf8 c) cs rest (ground (arith, room)) y in
          ground (arith, e, plain, room, y, below)
    ]
  ]
]

fit_node_name-bound : (cs name : List ℕ) → fit_node_name cs ≡ some name → text_len name ≤ 31
unfolding fit_node_name
fit_node_name-bound [] name h = absurd (ground arith)
fit_node_name-bound (c ∷ cs) name h = elim (Option-cases (fit_name 0 (c ∷ cs))) [
  | inl n ↦ absurd (ground (arith, h, n))
  | inr (output, y) ↦
      let below : 0 + text_len output ≤ 31 = fit_name-bound 0 (c ∷ cs) output (omega arith) y in
      ground (arith, h, y, below)
]

-- What is cut fits: a password in 64 bytes, where the one it falls back to does, the owner's
-- information in 119 and a name, where there is one, in 31.
pub fits-bound :
    (default_password input name : List ℕ)
    → text_len default_password ≤ 64
    → fit_node_name input ≡ some name
    → (text_len (fit_password default_password input) ≤ 64)
      × (text_len (fit_owner_info input) ≤ 119)
      × (text_len name ≤ 31)
unfolding fit_password fit_owner_info
fits-bound default_password input name d e = (
  password,
  omega (arith, fit_info-bound 0 input (omega arith)),
  fit_node_name-bound input name e,
)
  where
    password : text_len (fit_password default_password input) ≤ 64
    password = ground (arith, d, fit-bound 64 0 input (omega arith))
