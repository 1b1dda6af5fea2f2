-- ===== src/Repeater/Acl.antt =====
-- repeater/src/app/acl.rs: the keys with a rule. A key is 32 bytes, kept in order of its bytes;
-- text is the bytes of its UTF-8.
use mcrs.Prelude.{
  ℕ, ◌+◌, ◌-◌, ◌*◌, ◌/◌, ◌%◌, Bool, true, false, not, ◌&&◌, ◌||◌, Option, none, some, List, [], ◌∷◌,
  ◌++◌, length, list_eq, leb, ltb, ◌==◌, ◌!=◌, if◌then◌else◌,
}
use mcrs.Prelude.Text.{ascii}
pub mod Rules
pub mod Order
pub mod Keys

pub data Role : Type 0 where
  admin deny : Role

pub record Rule : Type 0 where
  pub key : List ℕ
  pub role : Role

abbrev pub Acl : Type 0
Acl = List Rule

unfoldable pub role : Acl → List ℕ → Option Role
role [] key = none
role (r ∷ rs) key = let rest = role rs key in if list_eq r.key key then some r.role else rest

-- A digit of `from_str_radix(_, 16)`.
unfoldable pub hex_digit : ℕ → Option ℕ
hex_digit c =
    if leb 48 c && leb c 57
    then some (c - 48)
    else if leb 97 c && leb c 102
    then some (c - 87)
    else if leb 65 c && leb c 70
    then some (c - 55)
    else none

-- Two digits, or one behind a plus sign, which `from_str_radix` takes.
unfoldable pub hex_byte : ℕ → ℕ → Option ℕ
hex_byte a b = if a == 43 then hex_digit b else elim (hex_digit a) [
  | none ↦ none
  | some high ↦ elim (hex_digit b) [ none ↦ none | some low ↦ some (high * 16 + low) ]
]

abbrev pub with_byte : Option ℕ → Option (List ℕ) → Option (List ℕ)
with_byte none bytes = none
with_byte (some byte) none = none
with_byte (some byte) (some bytes) = some (byte ∷ bytes)

unfoldable pub hex_bytes : List ℕ → Option (List ℕ)
hex_bytes [] = some []
hex_bytes (a ∷ []) = none
hex_bytes (a ∷ b ∷ rest) = with_byte (hex_byte a b) (hex_bytes rest)

unfoldable pub is_ascii : List ℕ → Bool
is_ascii [] = true
is_ascii (b ∷ bs) = ltb b 128 && is_ascii bs

unfoldable pub parse_key : List ℕ → Option (List ℕ)
parse_key value = if (length value != 64) || not (is_ascii value) then none else hex_bytes value

-- `none` is `Err(())`, `some none` is "unset".
unfoldable pub parse_role : List ℕ → Option (Option Role)
parse_role role =
    if list_eq role (ascii "admin")
    then some (some admin)
    else if list_eq role (ascii "deny")
    then some (some deny)
    else if list_eq role (ascii "unset")
    then some none
    else none

unfoldable pub without : List ℕ → Acl → Acl
without key [] = []
without key (r ∷ rs) = let rest = without key rs in if list_eq r.key key then rest else r ∷ rest

-- The order of byte arrays.
unfoldable pub key_lt : List ℕ → List ℕ → Bool
key_lt [] [] = false
key_lt [] (y ∷ ys) = true
key_lt (x ∷ xs) [] = false
key_lt (x ∷ xs) (y ∷ ys) = let rest = key_lt xs ys in if x == y then rest else ltb x y

-- `push` and `sort_unstable_by_key` on a list that was in order.
unfoldable pub insert_sorted : Rule → Acl → Acl
insert_sorted rule [] = rule ∷ []
insert_sorted rule (r ∷ rs) =
    let rest = insert_sorted rule rs in if key_lt rule.key r.key then rule ∷ r ∷ rs else r ∷ rest

unfoldable pub set_role : Acl → List ℕ → Option Role → Acl
set_role acl key none = without key acl
set_role acl key (some role) = insert_sorted (record { key = key; role = role }) (without key acl)

-- `none` is `Err(())`, with the list as it was.
unfoldable pub set : Acl → List ℕ → List ℕ → Option Acl
set acl key role = elim (parse_key key) [
  | none ↦ none
  | some key ↦ elim (parse_role role) [ none ↦ none | some role ↦ some (set_role acl key role) ]
]

unfoldable pub role_eq : Option Role → Option Role → Bool
role_eq none none = true
role_eq (some admin) (some admin) = true
role_eq (some deny) (some deny) = true
role_eq _ _ = false

-- The keys of both lists whose rules differ.
unfoldable pub changed : Acl → Acl → Acl → List (List ℕ)
changed acl other [] = []
changed acl other (r ∷ rs) =
    let rest = changed acl other rs in
    if role_eq (role acl r.key) (role other r.key) then rest else r.key ∷ rest

unfoldable pub changed_keys : Acl → Acl → List (List ℕ)
changed_keys acl other = changed acl other (acl ++ other)

unfoldable pub hex_char : ℕ → ℕ
hex_char n = if ltb n 10 then 48 + n else 87 + n

unfoldable pub write_hex : List ℕ → List ℕ
write_hex [] = []
write_hex (b ∷ bs) = hex_char (b / 16) ∷ hex_char (b % 16) ∷ write_hex bs

abbrev pub role_text : Role → List ℕ
role_text admin = ascii "=admin\n"
role_text deny = ascii "=deny\n"

unfoldable pub write_config : Acl → List ℕ
write_config [] = []
write_config (r ∷ rs) = ascii "acl." ++ (write_hex r.key ++ (role_text r.role ++ write_config rs))

-- The lines that unset the rules of the defaults that the list lacks.
unfoldable pub write_unset : Acl → Acl → List ℕ
write_unset acl [] = []
write_unset acl (r ∷ rs) =
    let rest = write_unset acl rs in
    elim (role acl r.key) [
      | some role ↦ rest
      | none ↦ ascii "acl." ++ (write_hex r.key ++ (ascii "=unset\n" ++ rest))
    ]

unfoldable pub write_overrides : Acl → Acl → List ℕ
write_overrides acl defaults = write_config acl ++ write_unset acl defaults
