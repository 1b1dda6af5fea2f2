-- ===== src/Tests/Rules.antt =====
-- The repeater's rules on a flood and a copy of it, and regions.
use mcrs.Prelude.{
  ℕ, ◌≡◌, ◌⊎◌, refl, inl, inr, true, false, Option, none, some, List, [], ◌∷◌, ◌++◌, take, All,
}
use mcrs.Prelude.Text.{ascii}
use mcrs.Prelude.Words.{ℤ, pos}
use mcrs.Protocol.Error.{ok}
use mcrs.Protocol.Header.{RouteType}
use mcrs.Protocol.HashSize.{HashSize}
use mcrs.Protocol.NodePath.{NodePath}
use mcrs.Protocol.Payload
use mcrs.Protocol.Packet.{Packet, normal, dedup_signature}
use mcrs.Protocol.SeenPacketCache.{SeenPacketCache}
use mcrs.Repeater.Forwarding.{AppContext, with_outbound}
use mcrs.Repeater.LoopDetection
use mcrs.Repeater.Outbound.{SortedOutboundChannel}
use mcrs.Repeater.Radio.{sf8, khz62_5, cr4_8}
use mcrs.Repeater.Regions
use mcrs.Repeater.Regions.{RegionEntry, RegionMap, done}
use mcrs.Repeater.Regions.Scope.{transport_code_for, apply_scope, match_flood_region}
use mcrs.Repeater.Regions.Matching.{Passed, match_flood_region-apply_scope}
use mcrs.Repeater.Rules.{ForwardConfig, prepare_forward}
use mcrs.Repeater.Rules.Flood.{ForwardSpec, prepare_forward-ForwardSpec}
use mcrs.Repeater.Repeat.{Repeater, DelayConfig, with_context, queued, apply_repeater_rules}
use mcrs.Repeater.Repeat.Waiting.{Waiting, at_once, heard, queue_changed}
use mcrs.Repeater.Repeat.Copies.{NotQueued, apply_repeater_rules_copy}

-- Stand-ins for the hash functions.
abbrev toy_sha256 : List ℕ → List ℕ
toy_sha256 bytes = bytes ++ (1 ∷ 2 ∷ 3 ∷ 4 ∷ 5 ∷ 6 ∷ 7 ∷ 8 ∷ [])

abbrev toy_hmac : List ℕ → List ℕ → Option (List ℕ)
toy_hmac key bytes = some key

abbrev heard_on : List ℕ → Packet
heard_on hops = record {
  route_type = RouteType.flood;
  transport_codes = none;
  path = normal (record { hash_size = HashSize.one; bytes = hops });
  payload = Payload.ack (record { ack_hash = 1 ∷ 2 ∷ 3 ∷ 4 ∷ [] });
}

abbrev config : ForwardConfig
config = record {
  repeat_enabled = true;
  region_capture = false;
  regions = Regions.new;
  flood_max_unscoped_hops = 8;
  flood_max_advert_hops = 4;
  loop_detection = LoopDetection.minimal;
}

abbrev delays : DelayConfig
delays = record {
  radio = record { spreading_factor = sf8; bandwidth = khz62_5; coding_rate = cr4_8 };
  tier = 10;
}

abbrev started : Repeater
started = record {
  context = record {
    outbound = record { queue = []; capacity = 4; active = 0 };
    seen_packets = record { ttl_ticks = 100; max_entries = 4; entries = [] };
    pending_forwards = [];
    outbound_queue_len = 4;
  };
  duplicates_direct = 0;
  duplicates_flood = 0;
}

first_queued :
    (apply_repeater_rules toy_sha256 toy_hmac config delays
      (heard_on (7 ∷ []))
      (pos 20)
      (42 ∷ [])
      1000
      1001
      started).0
    ≡ queued
unfolding apply_repeater_rules mcrs.Repeater.Repeat.apply_decision prepare_forward
    mcrs.Repeater.Rules.finish mcrs.Repeater.Rules.◌>>◌ mcrs.Repeater.Rules.◌>>=◌
    mcrs.Repeater.Rules.stop_if Payload.kind mcrs.Protocol.Header.is_flood
    mcrs.Repeater.Rules.prepare_flood_forward mcrs.Repeater.Rules.captured
    mcrs.Repeater.Rules.some_or match_flood_region mcrs.Repeater.Regions.Scope.match_route
    Regions.allows_flood Regions.wildcard Regions.new mcrs.Repeater.Rules.normal_path
    LoopDetection.detects_loop LoopDetection.threshold LoopDetection.count_own
    mcrs.Protocol.NodePath.hashes mcrs.Protocol.NodePath.chunks_exact mcrs.Protocol.NodePath.chunks
    mcrs.Protocol.HashSize.size LoopDetection.starts_with Regions.is_wildcard
    mcrs.Protocol.NodePath.hop_count mcrs.Repeater.Rules.ok_or_stop dedup_signature
    mcrs.Protocol.Packet.check_codes mcrs.Protocol.Header.has_transport_codes
    mcrs.Protocol.Packet.signature_path mcrs.Protocol.Header.is_trace
    mcrs.Repeater.Repeat.queue_repeater_packet mcrs.Repeater.Repeat.queue_encoded
    mcrs.Repeater.Repeat.enqueued mcrs.Protocol.Packet.append_flood_hop mcrs.Protocol.Packet.encode
    Payload.encode mcrs.Repeater.Repeat.delay_for mcrs.Repeater.Rules.flood_forwarding_delay_ms
    mcrs.Repeater.Forwarding.enqueue_forward mcrs.Repeater.Forwarding.send_reserved
    mcrs.Repeater.Forwarding.reserve_forward mcrs.Repeater.Forwarding.is_seen_or_pending
    mcrs.Repeater.Forwarding.is_pending mcrs.Protocol.SeenPacketCache.contains
    mcrs.Protocol.SeenPacketCache.has_signature mcrs.Protocol.SeenPacketCache.prune
    mcrs.Protocol.SeenPacketCache.drop_stale mcrs.Repeater.Forwarding.sent_or_released
    mcrs.Repeater.Forwarding.enqueue_outbound_item mcrs.Repeater.Outbound.try_send
    mcrs.Protocol.Packet.route_bytes mcrs.Protocol.Payload.Ack.encode
    mcrs.Protocol.Packet.on_normal_path mcrs.Protocol.NodePath.append_hash
    mcrs.Protocol.Packet.validate_semantics mcrs.Protocol.Packet.wants_zero_hop
    mcrs.Protocol.Header.encode mcrs.Protocol.NodePath.encoded_length_byte
    mcrs.Protocol.NodePath.validate
first_queued = refl

abbrev signature : List ℕ
signature = 3 ∷ 1 ∷ 1 ∷ 2 ∷ 3 ∷ 4 ∷ 1 ∷ 2 ∷ []

signed : dedup_signature toy_sha256 (heard_on (7 ∷ [])) ≡ ok signature
unfolding dedup_signature mcrs.Protocol.Packet.check_codes mcrs.Protocol.Header.has_transport_codes
    mcrs.Protocol.Packet.signature_path mcrs.Protocol.Header.is_trace Payload.kind Payload.encode
    mcrs.Protocol.Header.to_nibble mcrs.Protocol.Header.to_bits mcrs.Protocol.Payload.Ack.encode
signed = refl

signed_copy : dedup_signature toy_sha256 (heard_on (9 ∷ 11 ∷ [])) ≡ ok signature
unfolding dedup_signature mcrs.Protocol.Packet.check_codes mcrs.Protocol.Header.has_transport_codes
    mcrs.Protocol.Packet.signature_path mcrs.Protocol.Header.is_trace Payload.kind Payload.encode
    mcrs.Protocol.Header.to_nibble mcrs.Protocol.Header.to_bits mcrs.Protocol.Payload.Ack.encode
signed_copy = refl

abbrev another : Packet
another = record {
  route_type = RouteType.flood;
  transport_codes = none;
  path = normal (record { hash_size = HashSize.one; bytes = 7 ∷ [] });
  payload = Payload.ack (record { ack_hash = 9 ∷ 9 ∷ 9 ∷ 9 ∷ [] });
}

-- The state after the first packet, and after another one was heard and the queue was emptied.
abbrev waiting : Repeater
waiting =
    (apply_repeater_rules toy_sha256 toy_hmac config delays (heard_on (7 ∷ [])) (pos 20) (42 ∷ [])
      1000 1001 started).1

abbrev waiting_longer : Repeater
waiting_longer =
    with_context
      (apply_repeater_rules toy_sha256 toy_hmac config delays another (pos 12) (42 ∷ []) 1020 1021
        waiting).1
      (with_outbound
        (apply_repeater_rules toy_sha256 toy_hmac config delays another (pos 12) (42 ∷ []) 1020 1021
          waiting).1.context
        (record { queue = []; capacity = 4; active = 1 }))

between : Waiting toy_sha256 toy_hmac signature waiting waiting_longer
between =
    queue_changed (record { queue = []; capacity = 4; active = 1 })
      (heard config delays another (pos 12) (42 ∷ []) 1020 1021 (at_once waiting))

apply_repeater_rules_copy_example : NotQueued waiting_longer (
    apply_repeater_rules toy_sha256 toy_hmac config delays
      (heard_on (9 ∷ 11 ∷ []))
      (pos 8)
      (42 ∷ [])
      1040
      1041
      waiting_longer)
apply_repeater_rules_copy_example =
    apply_repeater_rules_copy toy_sha256 toy_hmac config delays (heard_on (7 ∷ []))
      (heard_on (9 ∷ 11 ∷ [])) (pos 20) (pos 8) (42 ∷ []) signature 1000 1001 1040 1041 started
      waiting_longer refl signed signed_copy first_queued between

prepare_forward-ForwardSpec_example :
    ForwardSpec toy_sha256 toy_hmac config
      (heard_on (7 ∷ []))
      (pos 20)
      (42 ∷ [])
      (prepare_forward toy_sha256 toy_hmac config (heard_on (7 ∷ [])) (pos 20) (42 ∷ []))
prepare_forward-ForwardSpec_example =
    prepare_forward-ForwardSpec toy_sha256 toy_hmac config (heard_on (7 ∷ [])) (pos 20) (42 ∷ [])

abbrev region : ℕ → List ℕ → RegionEntry
region id name = record { id = id; flags = 0; name = name }

abbrev two_regions : RegionMap
two_regions = record {
  next_id = 3;
  default_id = none;
  wildcard_flags = 1;
  entries = region 1 (ascii "de") ∷ region 2 (ascii "uk") ∷ [];
}

abbrev scoped_to_uk : Packet
scoped_to_uk = record {
  route_type = RouteType.transport_flood;
  transport_codes = some (record { primary = 29987; secondary = 0 });
  path = normal (record { hash_size = HashSize.one; bytes = 7 ∷ [] });
  payload = Payload.ack (record { ack_hash = 1 ∷ 2 ∷ 3 ∷ 4 ∷ [] });
}

de_in_front : Passed toy_sha256 toy_hmac (heard_on (7 ∷ [])) (29987) (region 1 (ascii "de"))
unfolding transport_code_for mcrs.Repeater.Regions.Scope.code_for_key
    mcrs.Repeater.Regions.Scope.transport_key_for mcrs.Prelude.Text.starts_with Payload.encode
    mcrs.Protocol.Crypto.usable_code mcrs.Prelude.Words.u16_from_le_bytes
de_in_front = inr (25635, refl, refl)

uk_named : Regions.is_wildcard (region 2 (ascii "uk")) ≡ false
unfolding Regions.is_wildcard
uk_named = refl

uk_open : Regions.allows_flood (region 2 (ascii "uk")) ≡ true
unfolding Regions.allows_flood
uk_open = refl

uk_code :
    transport_code_for toy_sha256 toy_hmac (region 2 (ascii "uk")) (heard_on (7 ∷ []))
    ≡ done (29987)
unfolding transport_code_for mcrs.Repeater.Regions.Scope.code_for_key
    mcrs.Repeater.Regions.Scope.transport_key_for mcrs.Prelude.Text.starts_with Payload.encode
    mcrs.Protocol.Crypto.usable_code mcrs.Prelude.Words.u16_from_le_bytes
uk_code = refl

uk_scoped :
    apply_scope toy_sha256 toy_hmac (heard_on (7 ∷ [])) (region 2 (ascii "uk")) ≡ done scoped_to_uk
unfolding apply_scope Regions.is_wildcard transport_code_for
    mcrs.Repeater.Regions.Scope.code_for_key mcrs.Repeater.Regions.Scope.transport_key_for
    mcrs.Prelude.Text.starts_with Payload.encode mcrs.Protocol.TransportCodes.new
    mcrs.Protocol.Crypto.usable_code mcrs.Prelude.Words.u16_from_le_bytes
uk_scoped = refl

match_flood_region-apply_scope_example :
    match_flood_region toy_sha256 toy_hmac two_regions scoped_to_uk ≡ some (region 2 (ascii "uk"))
match_flood_region-apply_scope_example =
    match_flood_region-apply_scope toy_sha256 toy_hmac two_regions (heard_on (7 ∷ [])) scoped_to_uk
      (29987) (region 1 (ascii "de") ∷ []) [] (region 2 (ascii "uk")) refl uk_named uk_open uk_code
      (de_in_front, tt) uk_scoped
