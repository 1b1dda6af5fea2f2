-- ===== src/Tests/Settings.antt =====
-- The access list, the table of regions, the settings and the airtime.
use mcrs.Prelude.{
  ℕ, ◌≡◌, ◌≤◌, ◌<◌, refl, true, false, not, Bool, Option, none, some, List, [], ◌∷◌, length, arith,
  if◌then◌else◌, list_eq,
}
use mcrs.Prelude.Text.{ascii}
use mcrs.Prelude.Words.{negsuc}
use mcrs.Protocol.Crypto.{zeros}
use mcrs.Tests.Bytes.{below-All}
use mcrs.Repeater.Acl.{Role, Acl, role, set_role, changed_keys, role_eq, parse_key, write_hex}
use mcrs.Repeater.Acl.Rules.{listed, role-set_role, listed-changed_keys}
use mcrs.Repeater.Acl.Keys.{AllBytes, parse_key-write_hex}
use mcrs.Repeater.AirtimeBudget.{AirtimeBudget, at_least, update, duty_cycle_max_budget_ms}
use mcrs.Repeater.AirtimeBudget.Ready.{update-never}
use mcrs.Repeater.Config.Degrees.{parse_coordinate_microdegrees, write_optional_coordinate}
use mcrs.Repeater.Config.Coordinates.{parse_coordinate-write_optional_coordinate}
use mcrs.Repeater.Radio.{RadioConfig, sf8, khz62_5, cr4_8, packet_airtime_ms}
use mcrs.Repeater.Radio.Airtime.{packet_airtime_ms_mono}
use mcrs.Repeater.Regions
use mcrs.Repeater.Regions.{RegionMap, set_region_from_config}
use mcrs.Repeater.Regions.Table
use mcrs.Repeater.Regions.Reached.{at_start, by_config, ReachableMap-IsValid}

abbrev rules : Acl
rules = record { key = 5 ∷ []; role = Role.admin } ∷ []

role-set_role_example :
    role (set_role rules (3 ∷ []) (some Role.deny)) (5 ∷ [])
    ≡ (if list_eq (3 ∷ []) (5 ∷ []) then some Role.deny else role rules (5 ∷ []))
role-set_role_example = role-set_role rules (3 ∷ []) (some Role.deny) (5 ∷ [])

listed-changed_keys_example :
    listed (5 ∷ []) (changed_keys rules (set_role rules (5 ∷ []) (some Role.deny)))
    ≡ not (role_eq (role rules (5 ∷ [])) (role (set_role rules (5 ∷ []) (some Role.deny)) (5 ∷ [])))
listed-changed_keys_example =
    listed-changed_keys rules (set_role rules (5 ∷ []) (some Role.deny)) (5 ∷ [])

zeros_bytes : AllBytes (255 ∷ zeros 31)
zeros_bytes = below-All (255 ∷ zeros 31) refl

parse_key-write_hex_example : parse_key (write_hex (255 ∷ zeros 31)) ≡ some (255 ∷ zeros 31)
parse_key-write_hex_example = parse_key-write_hex (255 ∷ zeros 31) refl zeros_bytes

abbrev budget : AirtimeBudget
budget = record { available_ms = negsuc 99; last_update_ms = 1000 }

too_long : duty_cycle_max_budget_ms 1 < 40000
unfolding duty_cycle_max_budget_ms mcrs.Repeater.AirtimeBudget.clamp_percent
too_long = omega arith

update-never_example : at_least (update budget 90000000 1).available_ms 40000 ≡ false
update-never_example = update-never budget 90000000 40000 1 (omega arith) too_long

parse_coordinate-write_optional_coordinate_example :
    parse_coordinate_microdegrees (write_optional_coordinate (some (negsuc 1234566)))
    ≡ some (negsuc 1234566)
parse_coordinate-write_optional_coordinate_example =
    parse_coordinate-write_optional_coordinate (negsuc 1234566) (omega arith)

abbrev radio : RadioConfig
radio = record { spreading_factor = sf8; bandwidth = khz62_5; coding_rate = cr4_8 }

packet_airtime_ms_mono_example : packet_airtime_ms radio 20 ≤ packet_airtime_ms radio 64
packet_airtime_ms_mono_example = packet_airtime_ms_mono radio 20 64 (omega arith) (omega arith)

abbrev with_uk : RegionMap
with_uk = record {
  next_id = 2;
  default_id = none;
  wildcard_flags = 0;
  entries = record { id = 1; flags = 0; name = ascii "uk" } ∷ [];
}

-- The region is added under its trimmed name, and then looked for under the name as given.
kept_uk : set_region_from_config Regions.new (ascii " uk") true ≡ (some Regions.not_found, with_uk)
unfolding set_region_from_config Regions.answered_then Regions.put_region
    Regions.normalize_region_name Regions.check_name mcrs.Prelude.Text.trim
    mcrs.Prelude.Text.trim_back mcrs.Prelude.Text.trim_start Regions.all_name_chars
    Regions.is_name_char Regions.put_name Regions.entry_index_by_name
    mcrs.Prelude.Positions.position Regions.new Regions.push_region Regions.answered
    Regions.set_flood_allowed Regions.strip_hash mcrs.Prelude.Text.strip_prefix
kept_uk = refl

ReachableMap-IsValid_example :
    Table.IsValid (set_region_from_config Regions.new (ascii " uk") true).1
ReachableMap-IsValid_example = ReachableMap-IsValid (by_config (ascii " uk") true at_start)
