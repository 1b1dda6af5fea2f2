-- ===== src/Repeater/Discovery/Exchange.antt =====
-- A request and the answer to it: the node that asked takes up the key of the node that answers.
use mcrs.Prelude.{
  ℕ, ◌+◌, ◌≡◌, ◌≤◌, refl, true, false, Option, some, List, length, take, take_all, min, ltb,
  le→not-ltb, ◌==◌, arith, inr,
}
use mcrs.Prelude.Words.{ℤ, pos, negsuc, IsI8, IsU32}
use mathlib.Core.Path.{subst}
use mcrs.Protocol.Error.{Result, ok, err}
use mcrs.Protocol.Packet.Decode
use mcrs.Protocol.Packet.Decode.{decode-encode}
use mcrs.Protocol.Packet
use mcrs.Protocol.Packet.{is_direct_zero_hop}
use mcrs.Protocol.Payload.Control
use mcrs.Protocol.Payload.Control.{new_response}
use mcrs.Protocol.Payload.Control.Messages.{message-new_response}
use mcrs.Protocol.Payload.Control.NodeType
use mcrs.Protocol.Payload.Control.NodeType.{is_repeater}
use mcrs.Repeater.Neighbours.{observe_public_key}
use mcrs.Repeater.Radio.{u64_max}
use mcrs.Repeater.Discovery.{
  Discovery, Node, start_discover_neighbours, accept_discover_response, control_packet, clamp_i8,
  handle_discover_request, handle_discover_response, handle_message, handle_payload,
  handle_control_packet, observed_if, to_bytes,
}

clamp_i8-IsI8 : (z : ℤ) → IsI8 (clamp_i8 z)
clamp_i8-IsI8 (pos n) = omega arith
clamp_i8-IsI8 (negsuc n) = omega arith

-- The packet with which a node answers.
abbrev pub answer : Node → ℤ → ℕ → Packet.Packet
answer node snr tag =
    control_packet (new_response NodeType.repeater (clamp_i8 snr) tag node.public_key)

zero_hop : (node : Node) (snr : ℤ) (tag : ℕ) → is_direct_zero_hop (answer node snr tag) ≡ true
unfolding is_direct_zero_hop control_packet Packet.is_zero_hop mcrs.Protocol.NodePath.hop_count
    mcrs.Protocol.Header.is_direct mcrs.Protocol.HashSize.size
zero_hop node snr tag = refl

-- The message of an answer.
answer-message :
    (node : Node) (snr : ℤ) (tag : ℕ)
    → length node.public_key ≡ 32
    → IsU32 tag
    → Control.message (new_response NodeType.repeater (clamp_i8 snr) tag node.public_key)
      ≡ ok (Control.discover_response NodeType.repeater (clamp_i8 snr) tag node.public_key)
answer-message node snr tag k t =
    message-new_response NodeType.repeater (clamp_i8 snr) tag node.public_key tt (clamp_i8-IsI8 snr)
      t (inr k)

-- Within a minute of its request, a node that hears an answer to it takes up the key of the node
-- that answered, whatever else it had asked before.
pub handle_control_packet-answer :
    (asker other : Node) (s : Discovery) (rssi snr snr' : ℤ) (tag asked now : ℕ)
    → length other.public_key ≡ 32
    → IsU32 tag
    → now ≤ asked + 60000
    → now ≤ u64_max
    → (handle_control_packet asker
        (answer other snr' tag)
        (start_discover_neighbours tag asked s)
        rssi
        snr
        now).1.neighbours
      ≡ observe_public_key s.neighbours other.public_key rssi snr now asker.node_hash
unfolding handle_control_packet handle_payload control_packet handle_message
    handle_discover_response observed_if accept_discover_response start_discover_neighbours
    is_repeater
handle_control_packet-answer asker other s rssi snr snr' tag asked now k t w m =
    let fresh : ltb (min (asked + 60000) u64_max) now ≡ false =
      le→not-ltb now (min (asked + 60000) u64_max) (omega (arith, w, m)) in
    let same : (tag == tag) ≡ true = ground arith in
    rw (zero_hop other snr' tag, answer-message other snr' tag k t, k, fresh, same) refl

answer-IsValid : (node : Node) (snr : ℤ) (tag : ℕ) → Decode.IsValid (answer node snr tag)
unfolding control_packet
answer-IsValid node snr tag = record { codes = tt; route = tt; payload_ok = tt }

to_bytes-ok : (r : Result (List ℕ)) (bytes : List ℕ) → to_bytes r ≡ some bytes → r ≡ ok bytes
to_bytes-ok (ok out) bytes h = ground arith
to_bytes-ok (err e) bytes h = absurd (ground arith)

answer-encoded :
    (node : Node) (snr : ℤ) (type_filter tag : ℕ) (since : Option ℕ) (bytes : List ℕ)
    → handle_discover_request node snr false type_filter tag since ≡ some bytes
    → Packet.encode (answer node snr tag) ≡ ok bytes
unfolding handle_discover_request
answer-encoded node snr type_filter tag since bytes h =
    let whole : take (length node.public_key) node.public_key ≡ node.public_key =
      take_all node.public_key in
    let sent : to_bytes (
          Packet.encode (
            control_packet (
              new_response NodeType.repeater (clamp_i8 snr) tag
                (take (length node.public_key) node.public_key))))
        ≡ some bytes =
      ground (arith, h) in
    to_bytes-ok (Packet.encode (answer node snr tag)) bytes (
      subst
        (λ k.
          to_bytes
            (Packet.encode (control_packet (new_response NodeType.repeater (clamp_i8 snr) tag k)))
          ≡ some bytes)
        whole sent)

-- Where a node with a key of 32 bytes answers a request for whole keys, the bytes of its answer
-- are read as a packet with which the node that asked, within a minute of its request, takes up
-- that key as a neighbour's.
pub discover_exchange :
    (asker other : Node) (s : Discovery) (rssi snr snr' : ℤ) (type_filter tag asked now : ℕ)
    (since : Option ℕ) (bytes : List ℕ)
    → length other.public_key ≡ 32
    → IsU32 tag
    → now ≤ asked + 60000
    → now ≤ u64_max
    → handle_discover_request other snr' false type_filter tag since ≡ some bytes
    → (packet : Packet.Packet) × (Packet.decode bytes ≡ ok packet)
      × ((handle_control_packet asker packet
            (start_discover_neighbours tag asked s)
            rssi
            snr
            now).1.neighbours
          ≡ observe_public_key s.neighbours other.public_key rssi snr now asker.node_hash)
discover_exchange asker other s rssi snr snr' type_filter tag asked now since bytes k t w m h = (
  answer other snr' tag,
  decode-encode (answer other snr' tag) bytes (answer-IsValid other snr' tag)
      (answer-encoded other snr' type_filter tag since bytes h),
  handle_control_packet-answer asker other s rssi snr snr' tag asked now k t w m,
)
