-- ===== src/Repeater/Discovery.antt =====
-- repeater/src/app/discovery.rs: requests for neighbours and the answers to them, with the pending
-- request of mod.rs. What is answered is the bytes of a packet; the lines that it logs are left out.
use mcrs.Prelude.{
  ℕ, ◌+◌, ◌*◌, ◌^◌, min, Bool, true, false, not, ◌&&◌, ◌||◌, Option, none, some, List, [], ◌∷◌,
  length, take, bit_and, leb, ltb, ◌==◌, ◌!=◌, if◌then◌else◌,
}
use mcrs.Prelude.Words.{ℤ, pos, negsuc}
use mcrs.Protocol.Error.{Result, ok, err}
use mcrs.Protocol.HashSize.{HashSize}
use mcrs.Protocol.Header.{RouteType}
use mcrs.Protocol.NodePath.{NodePath}
use mcrs.Protocol.Payload
use mcrs.Protocol.Payload.{Payload}
use mcrs.Protocol.Payload.Control
use mcrs.Protocol.Payload.Control.{ControlPayload, ControlMessage, new_request, new_response}
use mcrs.Protocol.Payload.Control.NodeType
use mcrs.Protocol.Payload.Control.NodeType.{AdvertNodeType, is_repeater}
use mcrs.Protocol.Packet
use mcrs.Protocol.Packet.{Packet, normal, is_direct_zero_hop}
use mcrs.Repeater.Neighbours.{NeighbourTable, observe_public_key}
use mcrs.Repeater.Radio.{u64_max}
pub mod Asked
pub mod Exchange

abbrev pub discover_neighbours_ttl_ms : ℕ
discover_neighbours_ttl_ms = 60000

pub record PendingDiscover : Type 0 where
  pub tag : ℕ
  pub expires_at_ms : ℕ

-- What a control packet reads and changes of the context.
pub record Discovery : Type 0 where
  pub pending_discover : Option PendingDiscover
  pub neighbours : NeighbourTable

-- What the answer to a request reads of the configuration and the clock.
pub record Node : Type 0 where
  pub repeat_enabled : Bool
  pub now_seconds : ℕ
  pub public_key : List ℕ
  pub node_hash : List ℕ

unfoldable pub start_discover_neighbours : ℕ → ℕ → Discovery → Discovery
start_discover_neighbours tag now s = record {
  pending_discover =
      some (record { tag = tag; expires_at_ms = min (now + discover_neighbours_ttl_ms) u64_max });
  neighbours = s.neighbours;
}

unfoldable pub accept_discover_response :
    ℕ → ℕ → Option PendingDiscover → Bool × Option PendingDiscover
accept_discover_response tag now none = (false, none)
accept_discover_response tag now (some discover) =
    if ltb discover.expires_at_ms now then (false, none) else (discover.tag == tag, some discover)

abbrev pub to_bytes : Result (List ℕ) → Option (List ℕ)
to_bytes (ok bytes) = some bytes
to_bytes (err e) = none

abbrev pub empty_path : NodePath
empty_path = record { hash_size = HashSize.one; bytes = [] }

unfoldable pub control_packet : ControlPayload → Packet
control_packet payload = record {
  route_type = RouteType.direct;
  transport_codes = none;
  path = normal empty_path;
  payload = Payload.control payload;
}

unfoldable pub discover_neighbours_request : ℕ → Option (List ℕ)
discover_neighbours_request tag = to_bytes (
    Packet.encode
      (control_packet (new_request (2 ^ NodeType.to_nibble NodeType.repeater) tag (some 0) false)))

abbrev pub clamp_i8 : ℤ → ℤ
clamp_i8 (pos n) = pos (min n 127)
clamp_i8 (negsuc n) = negsuc (min n 127)

abbrev pub is_after : Option ℕ → ℕ → Bool
is_after none now = false
is_after (some since) now = ltb now since

unfoldable pub handle_discover_request : Node → ℤ → Bool → ℕ → ℕ → Option ℕ → Option (List ℕ)
handle_discover_request node snr_quarters prefix_only type_filter tag since =
    if not node.repeat_enabled
    then none
    else if bit_and type_filter (2 ^ NodeType.to_nibble NodeType.repeater) == 0
    then none
    else if is_after since node.now_seconds
    then none
    else let prefix_len = if prefix_only then 8 else length node.public_key in
      to_bytes (
        Packet.encode (
          control_packet (
            new_response NodeType.repeater (clamp_i8 snr_quarters) tag
              (take prefix_len node.public_key))))

-- The table after a response, and what is pending.
unfoldable pub observed_if :
    Node → ℤ → ℤ → ℕ → List ℕ → NeighbourTable → Bool × Option PendingDiscover → Discovery
observed_if node rssi snr_quarters now pubkey table (accepted, pending) = record {
  pending_discover = pending;
  neighbours =
      if accepted
      then observe_public_key table pubkey rssi snr_quarters now node.node_hash
      else table;
}

unfoldable pub handle_discover_response :
    Node → ℤ → ℤ → ℕ → AdvertNodeType → ℕ → List ℕ → Discovery → Discovery
handle_discover_response node rssi snr_quarters now node_type tag pubkey s =
    if not (is_repeater node_type) || (length pubkey != 32)
    then s
    else observed_if node rssi snr_quarters now pubkey s.neighbours
        (accept_discover_response tag now s.pending_discover)

unfoldable pub handle_message :
    Node → ℤ → ℤ → ℕ → Discovery → Result ControlMessage → Option (List ℕ) × Discovery
handle_message node rssi snr_quarters now s (err e) = (none, s)
handle_message node rssi snr_quarters now s
      (ok (Control.discover_request prefix_only type_filter tag since)) =
    (handle_discover_request node snr_quarters prefix_only type_filter tag since, s)
handle_message node rssi snr_quarters now s
      (ok (Control.discover_response node_type snr tag pubkey)) =
    (none, handle_discover_response node rssi snr_quarters now node_type tag pubkey s)
handle_message node rssi snr_quarters now s (ok (Control.unknown payload)) = (none, s)

unfoldable pub handle_payload : Node → ℤ → ℤ → ℕ → Discovery → Payload → Option (List ℕ) × Discovery
handle_payload node rssi snr_quarters now s (Payload.control payload) =
    handle_message node rssi snr_quarters now s (Control.message payload)
handle_payload node rssi snr_quarters now s _ = (none, s)

unfoldable pub handle_control_packet :
    Node → Packet → Discovery → ℤ → ℤ → ℕ → Option (List ℕ) × Discovery
handle_control_packet node packet s rssi snr_quarters now =
    if not (is_direct_zero_hop packet)
    then (none, s)
    else handle_payload node rssi snr_quarters now s packet.payload
