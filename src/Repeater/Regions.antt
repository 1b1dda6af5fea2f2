-- ===== src/Repeater/Regions.antt =====
-- repeater/src/app/regions.rs: the regions that floods are scoped to. A name is the bytes of its
-- UTF-8.
use mcrs.Prelude.{
  ℕ, zero, suc, ◌+◌, ◌-◌, min, bit_and, bit_or, Bool, true, false, not, ◌&&◌, ◌||◌, Option, none,
  some, List, [], ◌∷◌, ◌++◌, length, list_eq, is_empty, leb, ltb, ◌==◌, ◌!=◌, if◌then◌else◌,
}
use mcrs.Prelude.Positions.{position, find?, modify_at, remove_at}
use mcrs.Prelude.Text.{ascii, trim, starts_with, strip_prefix}
pub mod Table
pub mod Operations
pub mod Reached
pub mod Lines
pub mod Scope
pub mod Matching

abbrev pub max_regions : ℕ
max_regions = 32

abbrev pub max_region_name_len : ℕ
max_region_name_len = 30

abbrev pub region_deny_flood : ℕ
region_deny_flood = 0x01

pub data RegionError : Type 0 where
  empty_name invalid_name name_too_long full not_found packet_encode : RegionError
  private_region_unsupported : RegionError

-- `Result<T, RegionError>`
pub data Outcome {ℓ} (A : Type ℓ) : Type ℓ where
  done : A → Outcome A
  failed : RegionError → Outcome A

infixl 5 ◌>>=◌
abbrev pub ◌>>=◌ {ℓ κ} : {A : Type ℓ} {B : Type κ} → Outcome A → (A → Outcome B) → Outcome B
failed error >>= next = failed error
done value >>= next = next value

-- `.ok_or(RegionError::NotFound)?`
unfoldable pub or_not_found {ℓ κ} :
    {A : Type ℓ} {B : Type κ} → Option A → (A → Outcome B) → Outcome B
or_not_found none next = failed not_found
or_not_found (some a) next = next a

pub record RegionEntry : Type 0 where
  pub id : ℕ
  pub flags : ℕ
  pub name : List ℕ

unfoldable pub is_wildcard : RegionEntry → Bool
is_wildcard entry = entry.id == 0

unfoldable pub allows_flood : RegionEntry → Bool
allows_flood entry = bit_and entry.flags region_deny_flood == 0

pub record RegionMap : Type 0 where
  pub next_id : ℕ
  pub default_id : Option ℕ
  pub wildcard_flags : ℕ
  pub entries : List RegionEntry

unfoldable pub new : RegionMap
new = record { next_id = 1; default_id = none; wildcard_flags = 0; entries = [] }

abbrev pub star : List ℕ
star = ascii "*"

unfoldable pub strip_hash : List ℕ → List ℕ
strip_hash name = elim (strip_prefix name (ascii "#")) [ none ↦ name | some rest ↦ rest ]

abbrev pub is_ascii_digit : ℕ → Bool
is_ascii_digit byte = leb 48 byte && leb byte 57

unfoldable pub is_name_char : ℕ → Bool
is_name_char byte = byte == 45 || byte == 36 || byte == 35 || is_ascii_digit byte || leb 65 byte

unfoldable pub all_name_chars : List ℕ → Bool
all_name_chars [] = true
all_name_chars (b ∷ bs) = is_name_char b && all_name_chars bs

-- The checks of `normalize_region_name` on the trimmed name, in their order.
unfoldable pub check_name : List ℕ → Outcome (List ℕ)
check_name name =
    if is_empty name
    then failed empty_name
    else if ltb max_region_name_len (length name)
    then failed name_too_long
    else if list_eq name star
    then done star
    else if not (all_name_chars name)
    then failed invalid_name
    else done name

unfoldable pub normalize_region_name : List ℕ → Outcome (List ℕ)
normalize_region_name name = check_name (trim name)

unfoldable pub set_flag : ℕ → ℕ → Bool → ℕ
set_flag flags flag true = bit_or flags flag
set_flag flags flag false = bit_and flags (255 - flag)

abbrev pub has_name : List ℕ → RegionEntry → Bool
has_name name entry = list_eq (strip_hash entry.name) name

unfoldable pub entry_index_by_name : RegionMap → List ℕ → Option ℕ
entry_index_by_name m name =
    if list_eq name star then none else position (has_name (strip_hash name)) m.entries

abbrev pub with_flags : ℕ → RegionEntry → RegionEntry
with_flags flags entry = record { id = entry.id; flags = flags; name = entry.name }

abbrev pub with_entries : RegionMap → List RegionEntry → RegionMap
with_entries m entries = record {
  next_id = m.next_id;
  default_id = m.default_id;
  wildcard_flags = m.wildcard_flags;
  entries = entries;
}

abbrev pub with_default : RegionMap → Option ℕ → RegionMap
with_default m default_id = record {
  next_id = m.next_id;
  default_id = default_id;
  wildcard_flags = m.wildcard_flags;
  entries = m.entries;
}

-- A new entry at the end, if there is room.
unfoldable pub push_region : RegionMap → List ℕ → Outcome RegionMap
push_region m name =
    if leb max_regions (length m.entries)
    then failed full
    else done (record {
      next_id = min (m.next_id + 1) 65535;
      default_id = m.default_id;
      wildcard_flags = m.wildcard_flags;
      entries = m.entries ++ (record { id = m.next_id; flags = 0; name = name } ∷ []);
    })

-- What `put_region` does with a normalised name.
unfoldable pub put_name : RegionMap → List ℕ → Outcome RegionMap
put_name m name =
    if list_eq name star then failed invalid_name else elim (entry_index_by_name m name) [
      | some index ↦ done (with_entries m (modify_at index (with_flags 0) m.entries))
      | none ↦ push_region m name
    ]

unfoldable pub put_region : RegionMap → List ℕ → Outcome RegionMap
put_region m name = do name ← normalize_region_name name; put_name m name

abbrev pub id_at : ℕ → List RegionEntry → Option ℕ
id_at i [] = none
id_at zero (entry ∷ entries) = some entry.id
id_at (suc i) (entry ∷ entries) = id_at i entries

abbrev pub option_eq : Option ℕ → Option ℕ → Bool
option_eq none none = true
option_eq (some a) (some b) = a == b
option_eq _ _ = false

-- The table without the entry at the index, which is the default no longer.
unfoldable pub remove_index : RegionMap → ℕ → RegionMap
remove_index m index =
    let left = with_entries m (remove_at index m.entries) in
    if option_eq m.default_id (id_at index m.entries) then with_default left none else left

unfoldable pub remove_region : RegionMap → List ℕ → Outcome RegionMap
remove_region m name =
    or_not_found (entry_index_by_name m name) (λ index. done (remove_index m index))

abbrev pub change_flag : Bool → RegionEntry → RegionEntry
change_flag allowed entry = with_flags (set_flag entry.flags region_deny_flood (not allowed)) entry

unfoldable pub set_flood_allowed : RegionMap → List ℕ → Bool → Outcome RegionMap
set_flood_allowed m name allowed =
    if list_eq name star
    then done (record {
      next_id = m.next_id;
      default_id = m.default_id;
      wildcard_flags = set_flag m.wildcard_flags region_deny_flood (not allowed);
      entries = m.entries;
    })
    else elim (entry_index_by_name m name) [
      | none ↦ failed not_found
      | some index ↦ done (with_entries m (modify_at index (change_flag allowed) m.entries))
    ]

-- The error that a call answers, if any, and the table after it, which a step that fails leaves as
-- it was.
unfoldable pub answered : RegionMap → Outcome RegionMap → Option RegionError × RegionMap
answered m (failed error) = (some error, m)
answered m (done after) = (none, after)

-- Two steps: where the second fails, what the first did stays.
unfoldable pub answered_then :
    RegionMap → Outcome RegionMap → (RegionMap → Outcome RegionMap) → Option RegionError × RegionMap
answered_then m (failed error) next = (some error, m)
answered_then m (done after) next = answered after (next after)

unfoldable pub set_region_from_config : RegionMap → List ℕ → Bool → Option RegionError × RegionMap
set_region_from_config m name allowed =
    if list_eq name (ascii "default")
    then (some invalid_name, m)
    else if list_eq name star
    then answered m (set_flood_allowed m name allowed)
    else answered_then m (put_region m name) (λ after. set_flood_allowed after name allowed)

unfoldable pub wildcard : RegionMap → RegionEntry
wildcard m = record { id = 0; flags = m.wildcard_flags; name = star }

-- The loop of `find_by_name_prefix`: an exact name ends it, else the last entry with the prefix.
unfoldable pub find_prefix : List ℕ → Option RegionEntry → List RegionEntry → Option RegionEntry
find_prefix prefix partial [] = partial
find_prefix prefix partial (entry ∷ entries) =
    let name = strip_hash entry.name in
    let later = find_prefix prefix (some entry) entries in
    let same = find_prefix prefix partial entries in
    if list_eq name prefix then some entry else if starts_with name prefix then later else same

unfoldable pub find_by_name_prefix : RegionMap → List ℕ → Option RegionEntry
find_by_name_prefix m prefix =
    if list_eq prefix star
    then some (wildcard m)
    else find_prefix (strip_hash prefix) none m.entries

-- The default for a region that was found under the name.
unfoldable pub choose_default : RegionMap → List ℕ → RegionEntry → Outcome RegionMap
choose_default m name region =
    if is_wildcard region
    then done (with_default m none)
    else (do m ← set_flood_allowed m name true; done (with_default m (some region.id)))

unfoldable pub set_default : RegionMap → Option (List ℕ) → Outcome RegionMap
set_default m none = done (with_default m none)
set_default m (some name) = or_not_found (find_by_name_prefix m name) (choose_default m name)

unfoldable pub set_default_from_config : RegionMap → List ℕ → Option RegionError × RegionMap
set_default_from_config m name =
    if list_eq name (ascii "<null>") || is_empty name
    then answered m (set_default m none)
    else elim (find_by_name_prefix m name) [
      | some region ↦ answered m (set_default m (some name))
      | none ↦ answered_then m (put_region m name) (λ after. set_default after (some name))
    ]

unfoldable pub find_by_id : RegionMap → ℕ → Option RegionEntry
find_by_id m id = find? (λ entry. entry.id == id) m.entries

unfoldable pub default_region : RegionMap → Option RegionEntry
default_region m = elim (m.default_id) [ none ↦ none | some id ↦ find_by_id m id ]
