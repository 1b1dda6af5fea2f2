-- ===== src/Repeater/Repeat.antt =====
-- repeater/src/app/mod.rs, apply_repeater_rules and queue_repeater_packet: the decision on a packet
-- and the outbound queue together. A result names the log line with which the source returns.
use mcrs.Prelude.{
  ℕ, ◌+◌, ◌%◌, ◌≡◌, Bool, true, false, Option, none, some, List, [], ◌∷◌, length, ltb,
  if◌then◌else◌,
}
use mcrs.Prelude.Words.{ℤ}
use mcrs.Protocol.Error.{Result, ok, err}
use mcrs.Protocol.Header.{RouteType, is_flood}
use mcrs.Protocol.Packet
use mcrs.Protocol.Packet.{Packet}
use mcrs.Repeater.Forwarding.{AppContext, enqueue_forward}
use mcrs.Repeater.Radio.{RadioConfig, packet_airtime_ms}
use mcrs.Repeater.Rules.{
  ForwardConfig, ForwardDecision, forward, capture, do_not_forward, drop, prepare_forward,
  forwarding_delay_ms, flood_forwarding_delay_ms,
}
pub mod Waiting
pub mod Copies

abbrev pub forward_buffer_len : ℕ
forward_buffer_len = 255

-- The fields of the context that the rules change.
pub record Repeater : Type 0 where
  pub context : AppContext
  pub duplicates_direct : ℕ
  pub duplicates_flood : ℕ

-- The fields of the configuration for the delay of a flood.
pub record DelayConfig : Type 0 where
  pub radio : RadioConfig
  pub tier : ℕ

pub data Repeated : Type 0 where
  queued duplicate queue_full encode_failed too_long not_forwarded dropped : Repeated

abbrev pub with_context : Repeater → AppContext → Repeater
with_context s context = record {
  context = context;
  duplicates_direct = s.duplicates_direct;
  duplicates_flood = s.duplicates_flood;
}

-- `fetch_add(1)` on the counter of the route.
unfoldable pub increment_duplicates : RouteType → Repeater → Repeater
increment_duplicates route s =
    if is_flood route
    then record {
      context = s.context;
      duplicates_direct = s.duplicates_direct;
      duplicates_flood = (s.duplicates_flood + 1) % 4294967296;
    }
    else record {
      context = s.context;
      duplicates_direct = (s.duplicates_direct + 1) % 4294967296;
      duplicates_flood = s.duplicates_flood;
    }

-- What follows `enqueue_forward`.
unfoldable pub enqueued : RouteType → Repeater → Option Bool × AppContext → Repeated × Repeater
enqueued route s (some true, context) = (queued, with_context s context)
enqueued route s (some false, context) =
    (duplicate, increment_duplicates route (with_context s context))
enqueued route s (none, context) = (queue_full, with_context s context)

unfoldable pub delay_for : DelayConfig → RouteType → List ℕ → List ℕ → ℕ → ℕ
delay_for d route signature node_hash encoded_len =
    if is_flood route
    then flood_forwarding_delay_ms signature node_hash (packet_airtime_ms d.radio encoded_len)
        d.tier
    else forwarding_delay_ms signature node_hash

unfoldable pub queue_encoded :
    DelayConfig
    → Packet
    → List ℕ
    → List ℕ
    → ℕ
    → ℕ
    → Repeater
    → Result (List ℕ)
    → Repeated × Repeater
queue_encoded d packet signature node_hash now later s (err e) = (encode_failed, s)
queue_encoded d packet signature node_hash now later s (ok encoded) =
    if ltb forward_buffer_len (length encoded)
    then (too_long, s)
    else enqueued packet.route_type s (
        enqueue_forward encoded (delay_for d packet.route_type signature node_hash (length encoded))
          signature now later s.context)

unfoldable pub queue_repeater_packet :
    DelayConfig → Packet → List ℕ → List ℕ → ℕ → ℕ → Repeater → Repeated × Repeater
queue_repeater_packet d packet signature node_hash now later s =
    queue_encoded d packet signature node_hash now later s (Packet.encode packet)

unfoldable pub apply_decision :
    DelayConfig → List ℕ → ℕ → ℕ → Repeater → ForwardDecision → Repeated × Repeater
apply_decision d node_hash now later s (forward q signature) =
    queue_repeater_packet d q signature node_hash now later s
apply_decision d node_hash now later s (capture q signature) =
    queue_repeater_packet d q signature node_hash now later s
apply_decision d node_hash now later s (drop why) = (dropped, s)
apply_decision d node_hash now later s do_not_forward = (not_forwarded, s)

module _ (sha256 : List ℕ → List ℕ) (hmac : List ℕ → List ℕ → Option (List ℕ)) where
  unfoldable pub apply_repeater_rules :
      ForwardConfig → DelayConfig → Packet → ℤ → List ℕ → ℕ → ℕ → Repeater → Repeated × Repeater
  apply_repeater_rules c d packet snr_quarters node_hash now later s =
      apply_decision d node_hash now later s
        (prepare_forward sha256 hmac c packet snr_quarters node_hash)
