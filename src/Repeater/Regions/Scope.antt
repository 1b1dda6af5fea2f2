-- ===== src/Repeater/Regions/Scope.antt =====
-- repeater/src/app/regions.rs: the transport codes that scope a flood to a region, and the region
-- that a packet belongs to. SHA-256 and HMAC-SHA-256 are parameters; `hmac` answers `none` for a
-- key that it refuses.
use mcrs.Prelude.{
  ℕ, bit_and, Bool, true, false, Option, none, some, List, [], ◌∷◌, ◌++◌, take, ◌==◌, ◌!=◌,
  if◌then◌else◌,
}
use mcrs.Prelude.Text.{ascii, starts_with}
use mcrs.Prelude.Words.{u16_from_le_bytes}
use mcrs.Protocol.Error.{Result, ok, err}
use mcrs.Protocol.Crypto.{usable_code}
use mcrs.Protocol.Header.{RouteType, to_nibble}
use mcrs.Protocol.TransportCodes
use mcrs.Protocol.TransportCodes.{TransportCodes}
use mcrs.Protocol.Payload
use mcrs.Protocol.Payload.{Payload}
use mcrs.Protocol.Packet.{Packet}
use mcrs.Repeater.Regions.{
  RegionEntry, RegionMap, Outcome, done, failed, ◌>>=◌, private_region_unsupported, packet_encode,
  is_wildcard, allows_flood, wildcard, default_region, region_deny_flood,
}

-- `map_err(|_| RegionError::PacketEncode)`
abbrev pub encoded : Result (List ℕ) → Outcome (List ℕ)
encoded (ok bytes) = done bytes
encoded (err e) = failed packet_encode

abbrev pub accepted : Option (List ℕ) → Outcome (List ℕ)
accepted none = failed packet_encode
accepted (some digest) = done digest

abbrev pub ok? {ℓ} : {A : Type ℓ} → Outcome A → Option A
ok? (done a) = some a
ok? (failed e) = none

abbrev pub with_scope : Packet → RouteType → Option TransportCodes → Packet
with_scope p route codes = record {
  route_type = route;
  transport_codes = codes;
  path = p.path;
  payload = p.payload;
}

module _ (sha256 : List ℕ → List ℕ) (hmac : List ℕ → List ℕ → Option (List ℕ)) where
  unfoldable pub transport_key_for : RegionEntry → Option (List ℕ)
  transport_key_for region =
      if starts_with region.name (ascii "$")
      then none
      else if starts_with region.name (ascii "#")
      then some (take 16 (sha256 region.name))
      else some (take 16 (sha256 (ascii "#" ++ region.name)))

  -- The code of a key, for a payload of this kind with these bytes.
  unfoldable pub code_for_key : Option (List ℕ) → Payload → Outcome ℕ
  code_for_key none payload = failed private_region_unsupported
  code_for_key (some key) payload = do
    bytes ← encoded (Payload.encode payload)
    digest ← accepted (hmac key (to_nibble (Payload.kind payload) ∷ bytes))
    done (usable_code (u16_from_le_bytes (take 2 digest)))

  unfoldable pub transport_code_for : RegionEntry → Packet → Outcome ℕ
  transport_code_for region packet = code_for_key (transport_key_for region) packet.payload

  -- The loop of `match_transport_region`: an entry without a code ends it.
  unfoldable pub match_entries : Packet → ℕ → List RegionEntry → Option RegionEntry
  match_entries packet primary [] = none
  match_entries packet primary (entry ∷ entries) =
      let rest = match_entries packet primary entries in
      if bit_and entry.flags region_deny_flood != 0
      then rest
      else elim (ok? (transport_code_for entry packet)) [
        | none ↦ none
        | some code ↦ if code == primary then some entry else rest
      ]

  unfoldable pub match_codes : RegionMap → Packet → Option TransportCodes → Option RegionEntry
  match_codes m packet none = none
  match_codes m packet (some codes) = match_entries packet codes.primary m.entries

  unfoldable pub match_transport_region : RegionMap → Packet → Option RegionEntry
  match_transport_region m packet = match_codes m packet packet.transport_codes

  unfoldable pub match_route : RegionMap → Packet → RouteType → Option RegionEntry
  match_route m packet RouteType.transport_flood = match_transport_region m packet
  match_route m packet RouteType.flood =
      if allows_flood (wildcard m) then some (wildcard m) else none
  match_route m packet _ = none

  unfoldable pub match_flood_region : RegionMap → Packet → Option RegionEntry
  match_flood_region m packet = match_route m packet packet.route_type

  -- The packet after the call.
  unfoldable pub apply_scope : Packet → RegionEntry → Outcome Packet
  apply_scope packet region =
      if is_wildcard region then done (with_scope packet RouteType.flood none) else (do
        code ← transport_code_for region packet
        done (with_scope packet RouteType.transport_flood (some (TransportCodes.new code))))

  -- Whether there is a default, and the packet after the call.
  unfoldable pub apply_default_scope : RegionMap → Packet → Outcome (Bool × Packet)
  apply_default_scope m packet = elim (default_region m) [
    | none ↦ done (false, packet)
    | some region ↦ (do scoped ← apply_scope packet region; done (true, scoped))
  ]
