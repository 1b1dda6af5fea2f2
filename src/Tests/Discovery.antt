-- ===== src/Tests/Discovery.antt =====
-- A node that asks for neighbours, and one that answers.
use mcrs.Prelude.{ℕ, ◌≡◌, ◌⊎◌, refl, true, false, Option, none, some, List, [], ◌∷◌, ◌++◌, arith}
use mcrs.Prelude.Words.{ℤ, pos, negsuc}
use mcrs.Protocol.Error.{ok}
use mcrs.Protocol.Crypto.{zeros}
use mcrs.Protocol.Packet
use mcrs.Repeater.Neighbours.{observe_public_key}
use mcrs.Repeater.Discovery.{
  Discovery, Node, start_discover_neighbours, handle_discover_request, handle_control_packet,
}
use mcrs.Repeater.Discovery.Asked.{Waits, handle_control_packet_asked}
use mcrs.Repeater.Discovery.Exchange.{answer, discover_exchange}

abbrev node : ℕ → Node
node first = record {
  repeat_enabled = true;
  now_seconds = 1000;
  public_key = first ∷ zeros 31;
  node_hash = first ∷ 0 ∷ 0 ∷ 0 ∷ [];
}

abbrev idle : Discovery
idle = record { pending_discover = none; neighbours = record { entries = []; capacity = 4 } }

abbrev answer_bytes : List ℕ
answer_bytes = 46 ∷ 0 ∷ 146 ∷ 8 ∷ 77 ∷ 0 ∷ 0 ∷ 0 ∷ 2 ∷ zeros 31

answered : handle_discover_request (node 2) (pos 8) false 4 77 none ≡ some answer_bytes
unfolding handle_discover_request mcrs.Protocol.Payload.Control.NodeType.to_nibble Packet.encode
    Packet.check_codes mcrs.Protocol.Header.has_transport_codes
    mcrs.Repeater.Discovery.control_packet Packet.validate_semantics Packet.wants_zero_hop
    mcrs.Protocol.Payload.Control.zero_hop_only mcrs.Protocol.Payload.Control.new_response
    mcrs.Protocol.Payload.Control.new Packet.is_direct_zero_hop mcrs.Protocol.Header.is_direct
    Packet.is_zero_hop mcrs.Protocol.NodePath.hop_count mcrs.Protocol.HashSize.size
    mcrs.Protocol.Header.encode Packet.route_bytes mcrs.Protocol.Header.is_trace
    mcrs.Protocol.Payload.kind mcrs.Protocol.NodePath.encoded_length_byte
    mcrs.Protocol.NodePath.validate mcrs.Protocol.Payload.encode
    mcrs.Protocol.Payload.Control.encode mcrs.Prelude.Words.u32_to_le_bytes
    mcrs.Protocol.Header.to_nibble mcrs.Protocol.HashSize.code mcrs.Prelude.Words.as_u8
    mcrs.Protocol.Header.to_bits
answered = refl

discover_exchange_example :
    (packet : Packet.Packet) × (Packet.decode answer_bytes ≡ ok packet)
    × ((handle_control_packet
          (node 1)
          packet
          (start_discover_neighbours 77 5000 idle)
          (negsuc 60)
          (pos 12)
          9000).1.neighbours
        ≡ observe_public_key idle.neighbours
            (2 ∷ zeros 31)
            (negsuc 60)
            (pos 12)
            9000
            (1 ∷ 0 ∷ 0 ∷ 0 ∷ []))
discover_exchange_example =
    discover_exchange (node 1) (node 2) idle (negsuc 60) (pos 12) (pos 8) 4 77 5000 9000 none
      answer_bytes refl (omega arith) (omega arith) (omega arith) answered

handle_control_packet_asked_example :
    ((handle_control_packet
        (node 1)
        (answer (node 2) (pos 8) 77)
        idle
        (negsuc 60)
        (pos 12)
        9000).1.neighbours
      ≡ idle.neighbours)
    ⊎ Waits idle.pending_discover 9000
handle_control_packet_asked_example =
    handle_control_packet_asked (node 1) (answer (node 2) (pos 8) 77) idle (negsuc 60) (pos 12) 9000
