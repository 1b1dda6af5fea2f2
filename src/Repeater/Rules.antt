-- ===== src/Repeater/Rules.antt =====
-- repeater/src/app/mod.rs: what the repeater does with a packet that it heard (prepare_forward and
-- its parts), and how long it holds back a forward. The rest of the configuration is not needed
-- here.
use mcrs.Prelude.{
  ℕ, ◌+◌, ◌-◌, ◌*◌, ◌/◌, ◌%◌, String, min, Bool, true, false, not, ◌&&◌, ◌||◌, Option, none, some,
  List, [], ◌∷◌, ◌++◌, leb, ◌==◌, ◌!=◌, if◌then◌else◌,
}
use Prim.Native.Nat.{bit_xor}
use mcrs.Prelude.Words.{ℤ, pos, negsuc}
use mcrs.Protocol.Error.{PayloadKind, Result, ok, err}
use mcrs.Protocol.Header.{RouteType, is_flood, is_direct}
use mcrs.Protocol.NodePath.{NodePath, hop_count}
use mcrs.Protocol.Payload
use mcrs.Protocol.Packet.{
  Packet, RoutePath, normal, traced, append_flood_hop, consume_direct_hop, append_trace_snr,
  trace_is_complete, trace_next_hop_matches, dedup_signature,
}
use mcrs.Repeater.LoopDetection.{LoopDetection, detects_loop}
use mcrs.Repeater.Regions.{RegionEntry, RegionMap, Outcome, done, failed, is_wildcard}
use mcrs.Repeater.Regions.Scope.{apply_default_scope, match_flood_region}
pub mod Decisions
pub mod Flood
pub mod Forwards

-- The fields of the configuration that the rules read.
pub record ForwardConfig : Type 0 where
  pub repeat_enabled : Bool
  pub region_capture : Bool
  pub regions : RegionMap
  pub flood_max_unscoped_hops : ℕ
  pub flood_max_advert_hops : ℕ
  pub loop_detection : LoopDetection

pub data ForwardDecision : Type 0 where
  forward capture : Packet → List ℕ → ForwardDecision
  do_not_forward : ForwardDecision
  drop : String → ForwardDecision

-- A computation that may return early with a decision.
pub data Early {ℓ} (A : Type ℓ) : Type ℓ where
  next : A → Early A
  decided : ForwardDecision → Early A

infixl 5 ◌>>=◌ ◌>>◌
unfoldable pub ◌>>=◌ {ℓ κ} : {A : Type ℓ} {B : Type κ} → Early A → (A → Early B) → Early B
decided d >>= rest = decided d
next a >>= rest = rest a

unfoldable pub ◌>>◌ {ℓ} : {B : Type ℓ} → Early (Unit {0}) → Early B → Early B
unfolding ◌>>=◌
first >> rest = first >>= λ done. rest

unfoldable pub stop_if : Bool → ForwardDecision → Early (Unit {0})
stop_if true d = decided d
stop_if false d = next tt

unfoldable pub some_or {ℓ} : {A : Type ℓ} → Option A → ForwardDecision → Early A
some_or none d = decided d
some_or (some a) d = next a

unfoldable pub ok_or_stop {ℓ} : {A : Type ℓ} → Result A → ForwardDecision → Early A
ok_or_stop (err e) d = decided d
ok_or_stop (ok a) d = next a

unfoldable pub finish : Early ForwardDecision → ForwardDecision
finish (next d) = d
finish (decided d) = d

unfoldable pub normal_path : Packet → Option NodePath
normal_path p = elim (p.path) [ normal path ↦ some path | traced path ↦ none ]

abbrev pub is_advert : PayloadKind → Bool
is_advert PayloadKind.advert = true
is_advert _ = false

-- `is_none_or(|path| path.hop_count() != 0)`
abbrev pub none_or_hops : Option NodePath → Bool
none_or_hops none = true
none_or_hops (some path) = hop_count path != 0

abbrev pub is_plain_flood : RouteType → Bool
is_plain_flood RouteType.flood = true
is_plain_flood _ = false

abbrev pub is_plain_direct : RouteType → Bool
is_plain_direct RouteType.direct = true
is_plain_direct _ = false

abbrev pub clamp_i8 : ℤ → ℤ
clamp_i8 (pos n) = pos (min n 127)
clamp_i8 (negsuc n) = negsuc (min n 127)

-- `Reserved(_) | RawCustom`
abbrev pub is_unsupported : PayloadKind → Bool
is_unsupported (PayloadKind.reserved n) = true
is_unsupported PayloadKind.raw_custom = true
is_unsupported _ = false

abbrev pub is_traced : RoutePath → Bool
is_traced (traced path) = true
is_traced (normal path) = false

-- The answer of `apply_default_scope`, or the drop for an error.
abbrev pub scoped : Outcome (Bool × Packet) → Early (Bool × Packet)
scoped (failed e) = decided (drop "default region scope failed")
scoped (done answer) = next answer

abbrev pub forwarded : Bool → Packet → List ℕ → ForwardDecision
forwarded true p signature = capture p signature
forwarded false p signature = forward p signature

unfoldable pub prepare_direct_forward : (List ℕ → List ℕ) → Packet → List ℕ → ForwardDecision
prepare_direct_forward sha256 p node_hash = finish (do
  stop_if (not (is_direct p.route_type)) (drop "not direct routed")
  path ← some_or (normal_path p) (drop "direct packet without normal path")
  stop_if (hop_count path == 0) do_not_forward
  signature ← ok_or_stop (dedup_signature sha256 p) (drop "dedup signature failed")
  (mine, p) ← ok_or_stop (consume_direct_hop p node_hash) (drop "direct path mutation failed")
  stop_if (not mine) do_not_forward
  next (forward p signature))

unfoldable pub prepare_trace_forward : (List ℕ → List ℕ) → Packet → ℤ → List ℕ → ForwardDecision
prepare_trace_forward sha256 p snr_quarters node_hash = finish (do
  stop_if (not (is_plain_direct p.route_type)) (drop "trace is not direct routed")
  stop_if (not (is_traced p.path)) (drop "trace packet without trace path")
  complete ← ok_or_stop (trace_is_complete p) (drop "trace completion check failed")
  stop_if complete do_not_forward
  mine ← ok_or_stop (trace_next_hop_matches p node_hash) (drop "trace next-hop check failed")
  stop_if (not mine) do_not_forward
  signature ← ok_or_stop (dedup_signature sha256 p) (drop "dedup signature failed")
  p ← ok_or_stop (append_trace_snr p (clamp_i8 snr_quarters)) do_not_forward
  next (forward p signature))

module _ (sha256 : List ℕ → List ℕ) (hmac : List ℕ → List ℕ → Option (List ℕ)) where
  -- Whether an unscoped packet without hops is put into the default region, and the packet.
  unfoldable pub captured : ForwardConfig → Packet → Early (Bool × Packet)
  captured c p =
      if not (is_plain_flood p.route_type)
      then next (false, p)
      else if not c.region_capture
      then next (false, p)
      else if none_or_hops (normal_path p)
      then next (false, p)
      else scoped (apply_default_scope sha256 hmac c.regions p)

  unfoldable pub prepare_flood_forward : ForwardConfig → Packet → List ℕ → ForwardDecision
  prepare_flood_forward c p node_hash = finish (do
    stop_if (not (is_flood p.route_type)) (drop "not flood routed")
    (was_captured, p) ← captured c p
    region ←
        some_or (match_flood_region sha256 hmac c.regions p) (drop "unknown or denied flood region")
    path ← some_or (normal_path p) (drop "flood packet without normal path")
    stop_if (detects_loop c.loop_detection path node_hash) (drop "loop detected")
    stop_if (is_advert (Payload.kind p.payload) && leb c.flood_max_advert_hops (hop_count path))
        do_not_forward
    stop_if (is_wildcard region && leb c.flood_max_unscoped_hops (hop_count path)) do_not_forward
    signature ← ok_or_stop (dedup_signature sha256 p) (drop "dedup signature failed")
    p ← ok_or_stop (append_flood_hop p node_hash) do_not_forward
    next (forwarded was_captured p signature))

  unfoldable pub prepare_forward : ForwardConfig → Packet → ℤ → List ℕ → ForwardDecision
  prepare_forward c p snr_quarters node_hash = finish (do
    stop_if (not c.repeat_enabled) do_not_forward
    let kind = Payload.kind p.payload
    stop_if (is_unsupported kind) (drop "unsupported payload kind")
    next (elim kind [
      | PayloadKind.trace ↦ prepare_trace_forward sha256 p snr_quarters node_hash
      | _ ↦
          if is_flood p.route_type
          then prepare_flood_forward c p node_hash
          else if is_direct p.route_type
          then prepare_direct_forward sha256 p node_hash
          else drop "unknown route"
    ]))

-- The hash of the signature and the node's hash that spreads the delays, on 32 bits.
unfoldable pub mix : ℕ → List ℕ → ℕ
mix seed [] = seed
mix seed (byte ∷ bytes) = mix (bit_xor seed byte * 0x01000193 % 4294967296) bytes

unfoldable pub forwarding_jitter_seed : List ℕ → List ℕ → ℕ
forwarding_jitter_seed signature node_hash = mix 0x811c9dc5 (signature ++ node_hash)

unfoldable pub forwarding_delay_ms : List ℕ → List ℕ → ℕ
forwarding_delay_ms signature node_hash = 40 + forwarding_jitter_seed signature node_hash % 120

-- The delays of a flood are spread over a window of its airtime, shorter for a higher tier.
unfoldable pub flood_window_ms : ℕ → ℕ → ℕ
flood_window_ms airtime_ms tier = min (airtime_ms * (12 - min tier 10) / 4) 4294967294

unfoldable pub flood_forwarding_delay_ms : List ℕ → List ℕ → ℕ → ℕ → ℕ
flood_forwarding_delay_ms signature node_hash airtime_ms tier =
    forwarding_jitter_seed signature node_hash % (flood_window_ms airtime_ms tier + 1)
