-- ===== src/Protocol/Packet.antt =====
-- protocol/src/packet.rs and route_path.rs: a packet and its two encodings, and the changes that a
-- repeater makes to it. The digest of the sha2 library is a parameter.
pub mod Route
pub mod Decode
pub mod Encode
pub mod Forward
pub mod Traces
use mcrs.Prelude.{
  ℕ, String, zero, suc, ◌+◌, ◌-◌, ◌*◌, ◌/◌, ◌%◌, ◌≤◌, ◌<◌, ◌≡◌, ◌≢◌, ◌⊎◌, refl, sym, ap, ◌∙◌,
  bit_and, bit_or, Bool, true, false, not, ◌&&◌, ◌||◌, Option, none, some, List, [], ◌∷◌, ◌++◌,
  length, take, drop, is_empty, All, ◌==◌, ◌!=◌, ltb, leb, list_eq, if◌then◌else◌, arith,
  length-append, inl, inr, Bool-cases, append-nil, append_assoc, get_elem?,
}
use mcrs.Prelude.Bits.{
  IsByte, shr, shl8, bit_and_0x01, bit_and_0x03, bit_and_0x0f, bit_and_0x3f, bit_and_0xfc,
  bit_and_0x80, bit_or_at_2, bit_or_at_4,
}
use mcrs.Prelude.Words.{
  ℤ, IsU16, IsU32, IsI8, IsI32, u16_to_le_bytes, u32_to_le_bytes, as_i8, as_u8, as_i32, as_u32,
  as_i8-as_u8, as_u8-as_i8, as_i32-as_u32, as_u32-as_i32, as_i8-IsI8, as_u8-IsByte, as_u32-IsU32,
}
use mcrs.Protocol.Error.{
  Error, PayloadKind, Result, ok, err, ok_or, fail_if, ◌>>=◌, ◌>>◌, >>=-elim, Result-cases,
  truncated, invalid_length, payload_too_long, invalid_trace_flags, invalid_utf8,
}
use mcrs.Protocol.Wire.{
  pub_key_size, signature_size, cipher_block_size, cipher_mac_size, max_packet_payload,
  max_advert_data_size, max_text_len, ensure_payload_len, read_array, read_u8, read_u16_le,
  read_u32_le, read_i32_le,
}
use mcrs.Protocol.Wire.Cursor.{
  At, At-start, At-skip, read_u8-At, read_u16_le-At, read_u32_le-At, read_array_At, drop-At,
  ensure_payload_len_fits,
}
use mcrs.Protocol.Wire.Inversion.{
  Cursor, Cursor-start, Read, ensure-elim, read_u8-elim, read_array-elim, read_u16_le-elim,
  read_u32_le-elim,
}
use mcrs.Protocol.Error.{
  empty_packet, packet_too_long, missing_transport_codes, unexpected_transport_codes,
  invalid_zero_hop_control_route, path_kind_mismatch,
}
use mcrs.Protocol.Wire.{max_trans_unit}
use mcrs.Protocol.HashSize.{trace_size}
use mcrs.Protocol.Header
use mcrs.Protocol.Header.{
  RouteType, Header, has_transport_codes, is_direct, is_trace, to_nibble, to_bits,
}
use mcrs.Protocol.TransportCodes
use mcrs.Protocol.TransportCodes.{TransportCodes}
use mcrs.Protocol.TracePath
use mcrs.Protocol.TracePath.{TracePath}
use mcrs.Protocol.NodePath
use mcrs.Protocol.NodePath.{NodePath}
use mcrs.Protocol.Payload
use mcrs.Protocol.Payload.{Payload, control, trace}
use mcrs.Protocol.Payload.Control
use mcrs.Protocol.Payload.Trace.{TracePayload}

pub data RoutePath : Type 0 where
  normal : NodePath → RoutePath
  traced : TracePath → RoutePath

pub record Packet : Type 0 where
  pub route_type : RouteType
  pub transport_codes : Option TransportCodes
  pub path : RoutePath
  pub payload : Payload

abbrev pub is_some {ℓ} : {A : Type ℓ} → Option A → Bool
is_some none = false
is_some (some a) = true

unfoldable pub is_zero_hop : RoutePath → Bool
is_zero_hop (normal p) = NodePath.hop_count p == 0
is_zero_hop (traced p) = false

unfoldable pub is_direct_zero_hop : Packet → Bool
is_direct_zero_hop p = is_direct p.route_type && is_zero_hop p.path

-- A control payload for zero hops only.
unfoldable pub wants_zero_hop : Payload → Bool
wants_zero_hop (control c) = Control.zero_hop_only c
wants_zero_hop _ = false

unfoldable pub validate_semantics : Packet → Result (Unit {0})
validate_semantics p =
    fail_if (wants_zero_hop p.payload && not (is_direct_zero_hop p)) invalid_zero_hop_control_route

-- The codes of a packet whose route has them, and the offset behind them.
unfoldable pub decode_codes : Bool → List ℕ → Result (Option TransportCodes × ℕ)
decode_codes true input = do codes ← TransportCodes.decode (drop 1 input); ok (some codes, 1 + 4)
decode_codes false input = ok (none, 1)

unfoldable pub decode_route : Bool → ℕ → List ℕ → Result (RoutePath × ℕ)
decode_route true path_length input = do
  (path, used) ← TracePath.decode path_length input
  ok (traced path, used)
decode_route false path_length input = do
  (path, used) ← NodePath.decode_wire path_length input
  ok (normal path, used)

abbrev pub first? : List ℕ → Option ℕ
first? [] = none
first? (b ∷ bs) = some b

unfoldable pub decode : List ℕ → Result Packet
decode input = do
  first ← ok_or (first? input) empty_packet
  fail_if (ltb max_trans_unit (length input)) (packet_too_long (length input))
  header ← Header.decode first
  (codes, offset) ← decode_codes (has_transport_codes header.route_type) input
  path_length ← ok_or (get_elem? input offset) (truncated "path_length")
  (path, used) ← decode_route (is_trace header.payload_kind) path_length (drop (offset + 1) input)
  let payload_bytes = drop (offset + 1 + used) input
  fail_if (ltb max_packet_payload (length payload_bytes)) (payload_too_long (length payload_bytes))
  payload ← Payload.decode header.payload_kind payload_bytes
  let packet : Packet = record {
    route_type = header.route_type;
    transport_codes = codes;
    path = path;
    payload = payload;
  }
  validate_semantics packet
  ok packet

-- The length byte and the bytes of a path, if it is of the sort that the kind of payload wants.
unfoldable pub route_bytes : RoutePath → Bool → Result (List ℕ)
route_bytes (traced p) true = do
  byte ← TracePath.encoded_length_byte p
  ok (byte ∷ TracePath.encode_bytes p)
route_bytes (normal p) false = do byte ← NodePath.encoded_length_byte p; ok (byte ∷ p.bytes)
route_bytes _ _ = err path_kind_mismatch

abbrev pub codes_bytes : Option TransportCodes → List ℕ
codes_bytes none = []
codes_bytes (some codes) = TransportCodes.encode codes

-- The two checks that a packet has codes exactly if its route has them.
unfoldable pub check_codes : Packet → Result (Unit {0})
check_codes p = do
  fail_if (has_transport_codes p.route_type && not (is_some p.transport_codes))
      missing_transport_codes
  fail_if (not (has_transport_codes p.route_type) && is_some p.transport_codes)
      unexpected_transport_codes

unfoldable pub encode : Packet → Result (List ℕ)
encode p = do
  check_codes p
  validate_semantics p
  let kind = Payload.kind p.payload
  first ←
      Header.encode (record { payload_version = 1; payload_kind = kind; route_type = p.route_type })
  route ← route_bytes p.path (is_trace kind)
  payload ← Payload.encode p.payload
  fail_if (ltb max_packet_payload (length payload)) (payload_too_long (length payload))
  let out : List ℕ = first ∷ (codes_bytes p.transport_codes ++ (route ++ payload))
  fail_if (ltb max_trans_unit (length out)) (packet_too_long (length out))
  ok out

-- `normal_path_mut()` and `trace_path_mut()`, with the path that replaces the one found.
unfoldable pub on_normal_path : {A : Type 0} → RoutePath → (NodePath → Result A) → Result A
on_normal_path (normal p) f = f p
on_normal_path (traced p) f = err path_kind_mismatch

unfoldable pub on_trace_path : {A : Type 0} → RoutePath → (TracePath → Result A) → Result A
on_trace_path (traced p) f = f p
on_trace_path (normal p) f = err path_kind_mismatch

unfoldable pub append_flood_hop : Packet → List ℕ → Result Packet
append_flood_hop p node_hash =
    on_normal_path p.path
      λ path. do path' ← NodePath.append_hash path node_hash; ok (record p { path = normal path' })

-- Whether the first hop was this node's, and the packet after the call.
unfoldable pub consume_direct_hop : Packet → List ℕ → Result (Bool × Packet)
consume_direct_hop p node_hash = on_normal_path p.path λ path.
    if NodePath.first_hash_matches path node_hash
    then ok (true, record p { path = normal (NodePath.remove_first_hash path).1 })
    else ok (false, p)

unfoldable pub append_trace_snr : Packet → ℤ → Result Packet
append_trace_snr p snr_quarters =
    on_trace_path p.path λ path. do
      path' ← TracePath.append_snr path snr_quarters
      ok (record p { path = traced path' })

-- `let Payload::Trace(payload) = … else { return Err(..) }`
unfoldable pub on_trace_payload : {A : Type 0} → Payload → (TracePayload → Result A) → Result A
on_trace_payload (trace t) f = f t
on_trace_payload _ f = err path_kind_mismatch

unfoldable pub trace_next_hop_matches : Packet → List ℕ → Result Bool
trace_next_hop_matches p node_hash = on_trace_path p.path λ path.
    on_trace_payload p.payload λ payload.
      let size = trace_size payload.hash_size in
      let offset = path.consumed_hops * size in
      if leb (length payload.path_hashes) offset
      then ok false
      else if ltb (length payload.path_hashes) (offset + size)
      then err (invalid_length "trace path_hashes")
      else ok (
          leb size (length node_hash)
          && list_eq (take size node_hash) (take size (drop offset payload.path_hashes)))

unfoldable pub trace_is_complete : Packet → Result Bool
trace_is_complete p = on_trace_path p.path λ path. on_trace_payload p.payload λ payload.
    ok (leb (length payload.path_hashes) (path.consumed_hops * trace_size payload.hash_size))

-- What the signature takes from the path: the length byte of a trace.
unfoldable pub signature_path : RoutePath → Bool → Result (List ℕ)
signature_path path false = ok []
signature_path (traced p) true = do byte ← TracePath.encoded_length_byte p; ok (byte ∷ [])
signature_path (normal p) true = err path_kind_mismatch

abbrev pub primary_bytes : Option TransportCodes → List ℕ
primary_bytes none = []
primary_bytes (some codes) = u16_to_le_bytes codes.primary

module _ (sha256 : List ℕ → List ℕ) where
  unfoldable pub dedup_signature : Packet → Result (List ℕ)
  dedup_signature p = do
    check_codes p
    let kind = Payload.kind p.payload
    path ← signature_path p.path (is_trace kind)
    payload ← Payload.encode p.payload
    ok (
        take 8 (
          sha256 (
            to_nibble kind
            ∷ to_bits p.route_type
            ∷ (primary_bytes p.transport_codes ++ (path ++ payload)))))
