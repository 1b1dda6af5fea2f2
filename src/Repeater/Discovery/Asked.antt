-- ===== src/Repeater/Discovery/Asked.antt =====
-- Which packets change the table of neighbours, and what is answered.
use mcrs.Prelude.{
  ℕ, ◌≡◌, ◌≤◌, ◌⊎◌, refl, true, not, ◌||◌, Option, none, some, List, length, ◌!=◌, arith, inl, inr,
  Bool-cases,
}
use mcrs.Prelude.Words.{ℤ}
use mcrs.Protocol.Error.{Result, ok, err}
use mcrs.Protocol.Packet.{Packet, is_direct_zero_hop}
use mcrs.Protocol.Payload.{Payload}
use mcrs.Protocol.Payload.Control
use mcrs.Protocol.Payload.Control.{ControlMessage}
use mcrs.Protocol.Payload.Control.NodeType.{AdvertNodeType, is_repeater}
use mcrs.Repeater.Discovery.{
  PendingDiscover, Discovery, Node, accept_discover_response, observed_if, handle_discover_response,
  handle_message, handle_payload, handle_control_packet,
}

-- A request waits for answers at this time.
abbrev pub Waits : Option PendingDiscover → ℕ → Type 0
Waits none now = ⊥
Waits (some discover) now = now ≤ discover.expires_at_ms

accept-Waits :
    (tag now : ℕ) (pending : Option PendingDiscover)
    → (accept_discover_response tag now pending).0 ≡ true
    → Waits pending now
unfolding accept_discover_response
accept-Waits tag now none h = absurd (ground arith)
accept-Waits tag now (some discover) h = ground (arith, h)

response-asked :
    (node : Node) (rssi snr : ℤ) (now : ℕ) (node_type : AdvertNodeType) (tag : ℕ) (pubkey : List ℕ)
    (s : Discovery)
    → ((handle_discover_response node rssi snr now node_type tag pubkey s).neighbours
        ≡ s.neighbours)
      ⊎ Waits s.pending_discover now
unfolding handle_discover_response observed_if
response-asked node rssi snr now node_type tag pubkey s =
    elim (Bool-cases (not (is_repeater node_type) || (length pubkey != 32))) [
      | inl y ↦ rw y (inl refl)
      | inr n ↦ elim (Bool-cases (accept_discover_response tag now s.pending_discover).0) [
        | inl y ↦ inr (accept-Waits tag now s.pending_discover y)
        | inr refused ↦ inl (rw (n, refused) refl)
      ]
    ]

message-asked :
    (node : Node) (rssi snr : ℤ) (now : ℕ) (s : Discovery) (m : Result ControlMessage)
    → ((handle_message node rssi snr now s m).1.neighbours ≡ s.neighbours)
      ⊎ Waits s.pending_discover now
unfolding handle_message
message-asked node rssi snr now s (err e) = inl refl
message-asked node rssi snr now s (ok (Control.discover_request a b c d)) = inl refl
message-asked node rssi snr now s (ok (Control.discover_response t q tag key)) =
    response-asked node rssi snr now t tag key s
message-asked node rssi snr now s (ok (Control.unknown p)) = inl refl

payload-asked :
    (node : Node) (rssi snr : ℤ) (now : ℕ) (s : Discovery) (p : Payload)
    → ((handle_payload node rssi snr now s p).1.neighbours ≡ s.neighbours)
      ⊎ Waits s.pending_discover now
unfolding handle_payload
payload-asked node rssi snr now s (Payload.control c) =
    message-asked node rssi snr now s (Control.message c)
payload-asked node rssi snr now s _ = inl refl

-- A control packet leaves the table of neighbours as it is, unless a request of this node still
-- waits for answers.
pub handle_control_packet_asked :
    (node : Node) (packet : Packet) (s : Discovery) (rssi snr : ℤ) (now : ℕ)
    → ((handle_control_packet node packet s rssi snr now).1.neighbours ≡ s.neighbours)
      ⊎ Waits s.pending_discover now
unfolding handle_control_packet
handle_control_packet_asked node packet s rssi snr now =
    elim (Bool-cases (not (is_direct_zero_hop packet))) [
      | inl y ↦ rw y (inl refl)
      | inr n ↦ rw n (payload-asked node rssi snr now s packet.payload)
    ]
