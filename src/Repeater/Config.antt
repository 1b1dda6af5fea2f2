-- ===== src/Repeater/Config.antt =====
-- repeater/src/app/config.rs: the values of the settings, checked, cut to their size, and as text.
-- Text is the bytes of its UTF-8, and where the source goes by characters, a list of code points.
use mcrs.Prelude.{
  ℕ, zero, suc, ◌+◌, ◌-◌, ◌*◌, ◌/◌, ◌%◌, Bool, true, false, not, ◌&&◌, ◌||◌, Option, none, some,
  List, [], ◌∷◌, ◌++◌, length, list_eq, is_empty, leb, ltb, ◌==◌, if◌then◌else◌,
}
use mcrs.Prelude.Text.{ascii, trim}
use mcrs.Prelude.Words.{ℤ, pos, negsuc}
pub mod Values
pub mod Degrees
pub mod Coordinates

pub data ConfigError : Type 0 where
  invalid_name invalid_latitude invalid_longitude invalid_frequency : ConfigError
  invalid_transmit_power invalid_flood_max_hops invalid_path_hash_mode invalid_ntp_host :
      ConfigError
  invalid_wifi_config : ConfigError

-- `Result<(), ConfigError>`: the error, or `none` for `Ok(())`.
abbrev pub Check : Type 0
Check = Option ConfigError

abbrev require : Bool → ConfigError → Check
require true e = none
require false e = some e

abbrev pub max_remote_password_len : ℕ
max_remote_password_len = 64

abbrev pub max_node_name_len : ℕ
max_node_name_len = 31

abbrev pub max_owner_info_len : ℕ
max_owner_info_len = 119

unfoldable pub clamp_advert_interval : ℕ → ℕ
clamp_advert_interval minutes = if minutes == 0 then 0 else if ltb minutes 60 then 60 else minutes

unfoldable pub is_host_byte : ℕ → Bool
is_host_byte b =
    (leb 48 b && leb b 57)
    || (leb 65 b && leb b 90)
    || (leb 97 b && leb b 122)
    || b == 46
    || b == 45
    || b == 95

unfoldable pub all_host_bytes : List ℕ → Bool
all_host_bytes [] = true
all_host_bytes (b ∷ bs) = is_host_byte b && all_host_bytes bs

unfoldable pub validate_ntp_host : List ℕ → Check
validate_ntp_host host =
    require (not (is_empty host || ltb 253 (length host) || not (all_host_bytes host)))
      invalid_ntp_host

unfoldable pub validate_wifi_config : List ℕ → List ℕ → Check
validate_wifi_config ssid password =
    require
      (leb (length ssid) 32
        && (is_empty password || (leb 8 (length password) && leb (length password) 63)))
      invalid_wifi_config

unfoldable pub validate_flood_max_hops : ℕ → Check
validate_flood_max_hops hops = require (leb hops 63) invalid_flood_max_hops

unfoldable pub validate_path_hash_mode : ℕ → Check
validate_path_hash_mode mode = require (leb mode 2) invalid_path_hash_mode

-- Whether a number lies between the negative and the positive of a bound.
unfoldable pub within : ℕ → ℤ → Bool
within bound (pos n) = leb n bound
within bound (negsuc n) = ltb n bound

unfoldable pub validate_latitude : ℤ → Check
validate_latitude latitude = require (within 90000000 latitude) invalid_latitude

unfoldable pub validate_longitude : ℤ → Check
validate_longitude longitude = require (within 180000000 longitude) invalid_longitude

unfoldable pub len_utf8 : ℕ → ℕ
len_utf8 c = if ltb c 0x80 then 1 else if ltb c 0x800 then 2 else if ltb c 0x10000 then 3 else 4

unfoldable pub text_len : List ℕ → ℕ
text_len [] = 0
text_len (c ∷ cs) = len_utf8 c + text_len cs

-- The loop of `fit_password`, with `len` bytes of output: as many characters as fit.
unfoldable pub fit : ℕ → ℕ → List ℕ → List ℕ
fit most len [] = []
fit most len (c ∷ cs) =
    let rest = fit most (len + len_utf8 c) cs in
    if ltb most (len + len_utf8 c) then [] else c ∷ rest

unfoldable pub fit_password : List ℕ → List ℕ → List ℕ
fit_password default_password input =
    let output = fit max_remote_password_len 0 input in
    if is_empty output then default_password else output

-- The loop of `fit_owner_info`: up to a NUL, with a line break for each bar.
unfoldable pub fit_info : ℕ → List ℕ → List ℕ
fit_info len [] = []
fit_info len (c ∷ cs) =
    let rest = fit_info (len + len_utf8 c) cs in
    if c == 0 || ltb max_owner_info_len (len + len_utf8 c)
    then []
    else (if c == 124 then 10 else c) ∷ rest

unfoldable pub fit_owner_info : List ℕ → List ℕ
fit_owner_info input = fit_info 0 input

unfoldable pub is_name_mark : ℕ → Bool
is_name_mark c = c == 91 || c == 93 || c == 92 || c == 58 || c == 44 || c == 63 || c == 42

-- The loop of `fit_node_name`; `none` is the error of a character that no name has.
unfoldable pub fit_name : ℕ → List ℕ → Option (List ℕ)
fit_name len [] = some []
fit_name len (c ∷ cs) =
    let rest = fit_name (len + len_utf8 c) cs in
    if is_name_mark c
    then none
    else if ltb max_node_name_len (len + len_utf8 c)
    then some []
    else elim rest [ none ↦ none | some output ↦ some (c ∷ output) ]

-- The input is the trimmed one.
unfoldable pub fit_node_name : List ℕ → Option (List ℕ)
fit_node_name [] = none
fit_node_name (c ∷ cs) = elim (fit_name 0 (c ∷ cs)) [
  | none ↦ none
  | some output ↦ if is_empty output then none else some output
]

unfoldable pub write_escaped_value : List ℕ → List ℕ
write_escaped_value [] = []
write_escaped_value (c ∷ cs) =
    let rest = write_escaped_value cs in
    if c == 92
    then 92 ∷ 92 ∷ rest
    else if c == 10
    then 92 ∷ 110 ∷ rest
    else if c == 13
    then 92 ∷ 114 ∷ rest
    else c ∷ rest

abbrev prepend : ℕ → Option (List ℕ) → Option (List ℕ)
prepend c none = none
prepend c (some cs) = some (c ∷ cs)

-- The loop of `unescape_value`, with `escaped`.
unfoldable pub unescape_from : Bool → List ℕ → Option (List ℕ)
unescape_from true [] = none
unescape_from false [] = some []
unescape_from true (c ∷ cs) =
    let rest = unescape_from false cs in
    if c == 92
    then prepend 92 rest
    else if c == 110
    then prepend 10 rest
    else if c == 114
    then prepend 13 rest
    else none
unescape_from false (c ∷ cs) =
    let rest = unescape_from false cs in
    let behind = unescape_from true cs in if c == 92 then behind else prepend c rest

unfoldable pub unescape_value : List ℕ → Option (List ℕ)
unescape_value input = unescape_from false input

unfoldable pub parse_repeat : List ℕ → Option Bool
parse_repeat input =
    let input = trim input in
    if list_eq input (ascii "on")
    then some true
    else if list_eq input (ascii "off")
    then some false
    else none

unfoldable pub repeat_text : Bool → List ℕ
repeat_text true = ascii "on"
repeat_text false = ascii "off"

unfoldable pub parse_bool : List ℕ → Option Bool
parse_bool input =
    let input = trim input in
    if list_eq input (ascii "true")
      || list_eq input (ascii "yes")
      || list_eq input (ascii "on")
      || list_eq input (ascii "1")
    then some true
    else if list_eq input (ascii "false")
        || list_eq input (ascii "no")
        || list_eq input (ascii "off")
        || list_eq input (ascii "0")
    then some false
    else none

unfoldable pub bool_text : Bool → List ℕ
bool_text true = ascii "true"
bool_text false = ascii "false"
