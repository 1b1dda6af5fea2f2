-- ===== src/Repeater/Regions/Lines.antt =====
-- repeater/src/app/regions.rs: the table of regions as text, for the terminal and the configuration.
use mcrs.Prelude.{
  ℕ, zero, suc, bit_and, Bool, true, false, not, Option, none, some, List, [], ◌∷◌, ◌++◌, list_eq,
  is_empty, ◌==◌, ◌!=◌, if◌then◌else◌,
}
use mcrs.Prelude.Text.{ascii}
use mcrs.Repeater.Regions.{
  RegionEntry, RegionMap, allows_flood, strip_hash, wildcard, default_region, entry_index_by_name,
  region_deny_flood,
}

unfoldable pub display_name : List ℕ → List ℕ
display_name name = strip_hash name

unfoldable pub bool_text : Bool → List ℕ
bool_text true = ascii "true"
bool_text false = ascii "false"

abbrev newline : List ℕ
newline = 10 ∷ []

unfoldable pub write_region_line : RegionEntry → List ℕ
write_region_line region =
    display_name region.name ++ ((if allows_flood region then ascii " F" else []) ++ newline)

unfoldable pub write_lines : (RegionEntry → List ℕ) → List RegionEntry → List ℕ
write_lines write [] = []
write_lines write (region ∷ regions) = write region ++ write_lines write regions

unfoldable pub write_tree : RegionMap → List ℕ
write_tree m = write_region_line (wildcard m) ++ write_lines write_region_line m.entries

-- Whether flags are among those asked for: those with the mask, if inverted, or those without.
unfoldable pub flags_match : ℕ → Bool → ℕ → Bool
flags_match mask true flags = bit_and flags mask != 0
flags_match mask false flags = bit_and flags mask == 0

-- The loop of `names_matching`, with what was written.
unfoldable pub join_matching : ℕ → Bool → List ℕ → List RegionEntry → List ℕ
join_matching mask invert out [] = out
join_matching mask invert out (region ∷ regions) =
    join_matching mask invert
      (if not (flags_match mask invert region.flags)
        then out
        else (if is_empty out then [] else out ++ ascii ",") ++ display_name region.name)
      regions

unfoldable pub names_matching : RegionMap → ℕ → Bool → List ℕ
names_matching m mask invert =
    join_matching mask invert (if flags_match mask invert m.wildcard_flags then ascii "*" else [])
      m.entries

unfoldable pub allowed_names : RegionMap → List ℕ
allowed_names m = names_matching m region_deny_flood false

unfoldable pub denied_names : RegionMap → List ℕ
denied_names m = names_matching m region_deny_flood true

unfoldable pub flood_line : RegionEntry → List ℕ
flood_line region =
    ascii "region."
    ++ (display_name region.name ++ (ascii "=" ++ (bool_text (allows_flood region) ++ newline)))

unfoldable pub default_line : Option RegionEntry → List ℕ
default_line none = []
default_line (some region) = ascii "region.default=" ++ (display_name region.name ++ newline)

unfoldable pub named_line : RegionEntry → List ℕ
named_line region =
    if list_eq (display_name region.name) (ascii "default") then [] else flood_line region

unfoldable pub write_config_lines : RegionMap → List ℕ
write_config_lines m =
    default_line (default_region m)
    ++ (ascii "region.*="
        ++ (bool_text (allows_flood (wildcard m)) ++ (newline ++ write_lines named_line m.entries)))

abbrev bool_eq : Bool → Bool → Bool
bool_eq true b = b
bool_eq false b = not b

-- Whether the entry at an index of the defaults allows floods as the region does.
unfoldable pub same_at : RegionEntry → Option ℕ → List RegionEntry → Bool
same_at region none entries = false
same_at region (some i) [] = false
same_at region (some zero) (entry ∷ entries) = bool_eq (allows_flood entry) (allows_flood region)
same_at region (some (suc i)) (entry ∷ entries) = same_at region (some i) entries

unfoldable pub changed_line : RegionMap → RegionEntry → List ℕ
changed_line defaults region =
    if same_at region (entry_index_by_name defaults region.name) defaults.entries
    then []
    else named_line region

unfoldable pub default_region_name : RegionMap → Option (List ℕ)
default_region_name m = elim (default_region m) [
  | none ↦ none
  | some region ↦ some (display_name region.name)
]

abbrev name_eq : Option (List ℕ) → Option (List ℕ) → Bool
name_eq none none = true
name_eq (some a) (some b) = list_eq a b
name_eq _ _ = false

unfoldable pub changed_default_line : Option RegionEntry → List ℕ
changed_default_line none = ascii "region.default=<null>\n"
changed_default_line (some region) = default_line (some region)

unfoldable pub write_config_lines_changed : RegionMap → RegionMap → List ℕ
write_config_lines_changed m defaults =
    (if name_eq (default_region_name m) (default_region_name defaults)
      then []
      else changed_default_line (default_region m))
    ++ ((if bool_eq (allows_flood (wildcard m)) (allows_flood (wildcard defaults))
          then []
          else ascii "region.*=" ++ (bool_text (allows_flood (wildcard m)) ++ newline))
        ++ write_lines (changed_line defaults) m.entries)
