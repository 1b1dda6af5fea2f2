-- ===== src/Repeater/Neighbours.antt =====
-- repeater/src/app/neighbours.rs: the repeaters that are heard without a hop between. A table is a
-- list of at most `capacity` neighbours; the lines that it logs are left out.
use mcrs.Prelude.{
  ℕ, zero, suc, ◌+◌, ◌-◌, ◌/◌, ◌*◌, min, Bool, true, false, not, ◌&&◌, ◌||◌, Option, none, some,
  List, [], ◌∷◌, ◌++◌, length, take, drop, list_eq, leb, ltb, ◌==◌, ◌!=◌, if◌then◌else◌,
}
use mcrs.Prelude.Positions.{position, modify_at}
use mcrs.Prelude.Words.{ℤ, pos, negsuc, u16_to_le_bytes, u32_to_le_bytes, u16_from_le_bytes, as_u8}
use mcrs.Protocol.Header.{RouteType, is_flood, is_direct}
use mcrs.Protocol.NodePath.{NodePath, hop_count}
use mcrs.Protocol.Packet.{Packet, RoutePath, normal, traced}
use mcrs.Protocol.Payload.{Payload}
use mcrs.Protocol.Payload.Advert.{AdvertPayload, Ed25519, verify_signature}
use mcrs.Protocol.Payload.AppData.{AdvertAppData}
use mcrs.Protocol.Payload.Control.NodeType.{is_repeater}
use mcrs.Protocol.Crypto.{node_hash}
pub mod Table
pub mod Response

abbrev pub max_neighbour_hash_len : ℕ
max_neighbour_hash_len = 4

abbrev pub max_neighbour_results_bytes : ℕ
max_neighbour_results_bytes = 130

pub record Neighbour : Type 0 where
  pub public_key : List ℕ
  pub last_seen_ms : ℕ
  pub last_rssi : ℤ
  pub last_snr_quarters : ℤ
  pub packet_count : ℕ

pub record NeighbourTable : Type 0 where
  pub entries : List Neighbour
  pub capacity : ℕ

unfoldable pub new : ℕ → NeighbourTable
new capacity = record { entries = []; capacity = capacity }

unfoldable pub public_key_matches_hash : List ℕ → List ℕ → Bool
public_key_matches_hash public_key hash =
    leb max_neighbour_hash_len (length hash)
    && list_eq (take max_neighbour_hash_len hash) (node_hash max_neighbour_hash_len public_key)

abbrev pub has_key : List ℕ → Neighbour → Bool
has_key public_key neighbour = list_eq neighbour.public_key public_key

unfoldable pub find_index : NeighbourTable → List ℕ → Option ℕ
find_index t public_key = position (has_key public_key) t.entries

-- The loop of `oldest_index`, at `index`, with the oldest place and its time so far.
unfoldable pub oldest_from : ℕ → ℕ → ℕ → List Neighbour → ℕ
oldest_from index oldest seen [] = oldest
oldest_from index oldest seen (n ∷ ns) =
    let older = ltb n.last_seen_ms seen in
    oldest_from (suc index) (if older then index else oldest)
      (if older then n.last_seen_ms else seen) ns

unfoldable pub oldest_index : List Neighbour → ℕ
oldest_index ns = oldest_from 0 0 18446744073709551615 ns

abbrev pub heard_again : ℤ → ℤ → ℕ → Neighbour → Neighbour
heard_again rssi snr_quarters now n = record {
  public_key = n.public_key;
  last_seen_ms = now;
  last_rssi = rssi;
  last_snr_quarters = snr_quarters;
  packet_count = min (n.packet_count + 1) 4294967295;
}

abbrev pub with_entries : NeighbourTable → List Neighbour → NeighbourTable
with_entries t entries = record { entries = entries; capacity = t.capacity }

-- A neighbour heard for the first time takes the next place, or that of the oldest.
unfoldable pub discovered : NeighbourTable → Neighbour → NeighbourTable
discovered t n =
    if t.capacity == 0
    then t
    else if ltb (length t.entries) t.capacity
    then with_entries t (t.entries ++ (n ∷ []))
    else with_entries t (modify_at (oldest_index t.entries) (λ _. n) t.entries)

unfoldable pub observe_at : NeighbourTable → Neighbour → Option ℕ → NeighbourTable
observe_at t n (some index) =
    with_entries t
      (modify_at index (heard_again n.last_rssi n.last_snr_quarters n.last_seen_ms) t.entries)
observe_at t n none = discovered t n

unfoldable pub observe_public_key : NeighbourTable → List ℕ → ℤ → ℤ → ℕ → List ℕ → NeighbourTable
observe_public_key t public_key rssi snr_quarters now local_node_hash =
    if public_key_matches_hash public_key local_node_hash
    then t
    else observe_at t
        (record {
          public_key = public_key;
          last_seen_ms = now;
          last_rssi = rssi;
          last_snr_quarters = snr_quarters;
          packet_count = 1;
        })
        (find_index t public_key)

-- The key of an advert that a repeater signed, and no other payload.
unfoldable pub from_app_data : Ed25519 → AdvertPayload → Option AdvertAppData → Option (List ℕ)
from_app_data ed advert none = none
from_app_data ed advert (some app_data) =
    if not (is_repeater app_data.node_type)
    then none
    else if not (verify_signature ed advert)
    then none
    else some advert.public_key

unfoldable pub from_payload : Ed25519 → Payload → Option (List ℕ)
from_payload ed (Payload.advert advert) = from_app_data ed advert advert.app_data
from_payload ed _ = none

unfoldable pub from_path : Ed25519 → Packet → RoutePath → Option (List ℕ)
from_path ed packet (traced path) = none
from_path ed packet (normal path) =
    if not (is_flood packet.route_type || is_direct packet.route_type) || (hop_count path != 0)
    then none
    else from_payload ed packet.payload

unfoldable pub from_packet : Ed25519 → Packet → Option (List ℕ)
from_packet ed packet = from_path ed packet packet.path

unfoldable pub observe_found :
    NeighbourTable → Option (List ℕ) → ℤ → ℤ → ℕ → List ℕ → NeighbourTable
observe_found t none rssi snr_quarters now local_node_hash = t
observe_found t (some public_key) rssi snr_quarters now local_node_hash =
    if public_key_matches_hash public_key local_node_hash
    then t
    else observe_public_key t public_key rssi snr_quarters now local_node_hash

unfoldable pub observe_packet :
    Ed25519 → NeighbourTable → Packet → ℤ → ℤ → ℕ → List ℕ → NeighbourTable
observe_packet ed t packet rssi snr_quarters now local_node_hash =
    observe_found t (from_packet ed packet) rssi snr_quarters now local_node_hash

unfoldable pub lt_int : ℤ → ℤ → Bool
lt_int (pos a) (pos b) = ltb a b
lt_int (pos a) (negsuc b) = false
lt_int (negsuc a) (pos b) = true
lt_int (negsuc a) (negsuc b) = ltb b a

unfoldable pub neighbour_precedes : Neighbour → Neighbour → ℕ → Bool
neighbour_precedes left right order_by =
    if order_by == 1
    then ltb left.last_seen_ms right.last_seen_ms
    else if order_by == 2
    then lt_int right.last_snr_quarters left.last_snr_quarters
    else if order_by == 3
    then lt_int left.last_snr_quarters right.last_snr_quarters
    else ltb right.last_seen_ms left.last_seen_ms

-- The inner loop of `sort_neighbours`, at place `j`: the place of the neighbour that precedes.
unfoldable pub selected : ℕ → ℕ → ℕ → Neighbour → List Neighbour → ℕ
selected order_by j selected_ best [] = selected_
selected order_by j selected_ best (n ∷ ns) =
    let better = neighbour_precedes n best order_by in
    selected order_by (suc j) (if better then j else selected_) (if better then n else best) ns

-- The neighbour at the place, and the list with another in its place.
unfoldable pub exchange : ℕ → Neighbour → List Neighbour → Neighbour × List Neighbour
exchange k x [] = (x, [])
exchange zero x (n ∷ ns) = (n, x ∷ ns)
exchange (suc k) x (n ∷ ns) = let (y, ys) = exchange k x ns in (y, n ∷ ys)

-- `swap(i, selected)`, on the list from place `i`.
unfoldable pub swap_first : ℕ → Neighbour → List Neighbour → Neighbour × List Neighbour
swap_first zero x ns = (x, ns)
swap_first (suc k) x ns = exchange k x ns

-- The outer loop: one place at a time, as many as there are.
unfoldable pub sort_places : ℕ → ℕ → List Neighbour → List Neighbour
sort_places order_by zero ns = ns
sort_places order_by (suc left) [] = []
sort_places order_by (suc left) (n ∷ ns) =
    let (first, rest) = swap_first (selected order_by 1 0 n ns) n ns in
    first ∷ sort_places order_by left rest

unfoldable pub sort_neighbours : List Neighbour → ℕ → List Neighbour
sort_neighbours ns order_by = sort_places order_by (length ns) ns

abbrev pub clamp_i8 : ℤ → ℤ
clamp_i8 (pos n) = pos (min n 127)
clamp_i8 (negsuc n) = negsuc (min n 127)

unfoldable pub result_entry : ℕ → ℕ → Neighbour → List ℕ
result_entry prefix_len now n =
    take prefix_len n.public_key
    ++ (u32_to_le_bytes (min ((now - n.last_seen_ms) / 1000) 4294967295)
        ++ (as_u8 (clamp_i8 n.last_snr_quarters) ∷ []))

-- The loop of `encode_binary_response`, `written` bytes in: the results and how many they are.
unfoldable pub write_results : ℕ → ℕ → ℕ → List Neighbour → List ℕ × ℕ
write_results prefix_len now written [] = ([], 0)
write_results prefix_len now written (n ∷ ns) =
    let entry_len = prefix_len + 4 + 1 in
    let (bytes, count) = write_results prefix_len now (written + entry_len) ns in
    if ltb max_neighbour_results_bytes (written + entry_len)
    then ([], 0)
    else (result_entry prefix_len now n ++ bytes, min (count + 1) 65535)

abbrev pub response_of : ℕ → List ℕ × ℕ → List ℕ
response_of total (bytes, count) = u16_to_le_bytes total ++ (u16_to_le_bytes count ++ bytes)

-- What is appended to `out`; `none` where the method returns false.
unfoldable pub encode_binary_response : NeighbourTable → List ℕ → ℕ → Option (List ℕ)
encode_binary_response t (kind ∷ version ∷ count ∷ low ∷ high ∷ order_by ∷ prefix ∷ rest) now =
    if (kind != 6) || (version != 0)
    then none
    else let sorted = sort_neighbours t.entries order_by in
      let offset = u16_from_le_bytes (low ∷ high ∷ []) in
      some (
        response_of (min (length sorted) 65535)
          (write_results (min prefix 32) now 0 (take count (drop offset sorted))))
encode_binary_response t _ now = none
