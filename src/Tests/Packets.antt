-- ===== src/Tests/Packets.antt =====
-- Packets: an acknowledgement that is flooded, and a trace on its way.
use mcrs.Prelude.{ℕ, ◌≡◌, refl, inl, true, false, none, List, [], ◌∷◌, ◌++◌, take, All, arith}
use mcrs.Prelude.Bits.{IsByte}
use mcrs.Tests.Bytes.{below-All}
use mcrs.Prelude.Words.{pos, negsuc}
use mcrs.Protocol.Error.{ok}
use mcrs.Protocol.Header.{RouteType}
use mcrs.Protocol.HashSize.{HashSize, TraceHashSize}
use mcrs.Protocol.NodePath
use mcrs.Protocol.NodePath.{NodePath, hashes}
use mcrs.Protocol.NodePath.Hops
use mcrs.Protocol.TracePath.{TracePath}
use mcrs.Protocol.Payload
use mcrs.Protocol.Payload.Ack
use mcrs.Protocol.Payload.Ack.{AckPayload}
use mcrs.Protocol.Payload.Trace.{TracePayload}
use mcrs.Protocol.Packet.{
  Packet, RoutePath, normal, traced, decode, encode, append_flood_hop, consume_direct_hop,
  dedup_signature, trace_next_hop_matches, trace_is_complete,
}
use mcrs.Protocol.Packet.Decode
use mcrs.Protocol.Packet.Decode.{decode-encode}
use mcrs.Protocol.Packet.Encode.{encode-decode}
use mcrs.Protocol.Packet.Forward.{
  append_flood_hop-hashes, consume_direct_hop-hashes, dedup_signature-hops,
}
use mcrs.Protocol.Packet.Traces.{trace_next_hop}

abbrev one_hop : NodePath
one_hop = record { hash_size = HashSize.one; bytes = 7 ∷ [] }

abbrev two_hops : NodePath
two_hops = record { hash_size = HashSize.one; bytes = 7 ∷ 9 ∷ [] }

abbrev ack_on : RouteType → NodePath → Packet
ack_on route path = record {
  route_type = route;
  transport_codes = none;
  path = normal path;
  payload = Payload.ack (record { ack_hash = 1 ∷ 2 ∷ 3 ∷ 4 ∷ [] });
}

abbrev flooded : Packet
flooded = ack_on RouteType.flood one_hop

abbrev flooded_bytes : List ℕ
flooded_bytes = 13 ∷ 1 ∷ 7 ∷ 1 ∷ 2 ∷ 3 ∷ 4 ∷ []

flooded-IsValid : Decode.IsValid flooded
flooded-IsValid = record { codes = tt; route = tt; payload_ok = record { hash_size = refl } }

encode-flooded : encode flooded ≡ ok flooded_bytes
unfolding encode mcrs.Protocol.Packet.check_codes mcrs.Protocol.Header.has_transport_codes
    mcrs.Protocol.Packet.validate_semantics mcrs.Protocol.Packet.wants_zero_hop
    mcrs.Protocol.Header.encode mcrs.Protocol.Packet.route_bytes mcrs.Protocol.Header.is_trace
    Payload.kind NodePath.encoded_length_byte NodePath.validate mcrs.Protocol.HashSize.size
    NodePath.hop_count Payload.encode Ack.encode mcrs.Protocol.Header.to_nibble
    mcrs.Protocol.HashSize.code mcrs.Protocol.Header.to_bits
encode-flooded = refl

decode-encode_example : decode flooded_bytes ≡ ok flooded
decode-encode_example = decode-encode flooded flooded_bytes flooded-IsValid encode-flooded

-- The bytes are below 256.
flooded_bytes-IsByte : All IsByte flooded_bytes
flooded_bytes-IsByte = below-All flooded_bytes refl

encode-decode_example : (encode flooded ≡ ok flooded_bytes) × Decode.IsValid flooded
encode-decode_example =
    encode-decode flooded_bytes flooded flooded_bytes-IsByte
      (decode-encode flooded flooded_bytes flooded-IsValid encode-flooded)

one_hop-IsValid : Hops.IsValid one_hop
unfolding NodePath.hop_count mcrs.Protocol.HashSize.size
one_hop-IsValid = record { fits = omega arith; whole = refl; short = omega arith }

two_hops-IsValid : Hops.IsValid two_hops
unfolding NodePath.hop_count mcrs.Protocol.HashSize.size
two_hops-IsValid = record { fits = omega arith; whole = refl; short = omega arith }

append_flooded : append_flood_hop flooded (9 ∷ 5 ∷ []) ≡ ok (ack_on RouteType.flood two_hops)
unfolding append_flood_hop mcrs.Protocol.Packet.on_normal_path NodePath.append_hash
    mcrs.Protocol.HashSize.size NodePath.hop_count
append_flooded = refl

append_flood_hop-hashes_example :
    (path' : NodePath) × (ack_on RouteType.flood two_hops ≡ record flooded { path = normal path' })
    × Hops.IsValid path'
    × (hashes path' ≡ hashes one_hop ++ take 1 (9 ∷ 5 ∷ []) ∷ [])
unfolding mcrs.Protocol.HashSize.size
append_flood_hop-hashes_example =
    append_flood_hop-hashes flooded (ack_on RouteType.flood two_hops) one_hop (9 ∷ 5 ∷ []) refl
      one_hop-IsValid append_flooded

abbrev routed : Packet
routed = ack_on RouteType.direct two_hops

two_hops-hashes : hashes two_hops ≡ (7 ∷ []) ∷ (9 ∷ []) ∷ []
unfolding hashes NodePath.chunks_exact NodePath.chunks mcrs.Protocol.HashSize.size
two_hops-hashes = refl

matches_first : NodePath.hash_matches (7 ∷ []) (7 ∷ 1 ∷ []) ≡ true
unfolding NodePath.hash_matches
matches_first = refl

consume_direct_hop-hashes_example :
    (NodePath.hash_matches (7 ∷ []) (7 ∷ 1 ∷ []) ≡ true
      → (path' : NodePath) × (consume_direct_hop routed (7 ∷ 1 ∷ [])
          ≡ ok (true, record routed { path = normal path' }))
        × Hops.IsValid path'
        × (hashes path' ≡ (9 ∷ []) ∷ []))
    × (NodePath.hash_matches (7 ∷ []) (7 ∷ 1 ∷ []) ≡ false
        → consume_direct_hop routed (7 ∷ 1 ∷ []) ≡ ok (false, routed))
consume_direct_hop-hashes_example =
    consume_direct_hop-hashes routed two_hops (7 ∷ []) ((9 ∷ []) ∷ []) (7 ∷ 1 ∷ []) refl
      two_hops-IsValid two_hops-hashes

-- A digest for the runs: the first bytes themselves.
abbrev first_bytes : List ℕ → List ℕ
first_bytes bytes = take 32 bytes

dedup_signature-hops_example :
    dedup_signature first_bytes (ack_on RouteType.flood two_hops)
    ≡ dedup_signature first_bytes flooded
dedup_signature-hops_example =
    dedup_signature-hops first_bytes flooded (ack_on RouteType.flood two_hops) (9 ∷ 5 ∷ [])
      (inl append_flooded)

abbrev traced_hops : List (List ℕ)
traced_hops = (7 ∷ []) ∷ (9 ∷ []) ∷ []

abbrev trace_payload : TracePayload
trace_payload = record {
  tag = 1;
  auth_code = 2;
  hash_size = TraceHashSize.one;
  path_hashes = 7 ∷ 9 ∷ [];
}

abbrev trace_after : TracePath → Packet
trace_after path = record {
  route_type = RouteType.direct;
  transport_codes = none;
  path = traced path;
  payload = Payload.trace trace_payload;
}

abbrev once : TracePath
once = record { consumed_hops = 1; snr_samples = pos 20 ∷ [] }

abbrev twice : TracePath
twice = record { consumed_hops = 2; snr_samples = pos 20 ∷ negsuc 3 ∷ [] }

trace_next_hop_example :
    (trace_next_hop_matches (trace_after once) (9 ∷ 4 ∷ [])
      ≡ ok (NodePath.hash_matches (9 ∷ []) (9 ∷ 4 ∷ [])))
    × (trace_is_complete (trace_after once) ≡ ok false)
unfolding mcrs.Protocol.HashSize.trace_size
trace_next_hop_example =
    trace_next_hop (trace_after once) once trace_payload traced_hops (9 ∷ []) (9 ∷ 4 ∷ []) refl refl
      (refl, (refl, tt)) refl refl
