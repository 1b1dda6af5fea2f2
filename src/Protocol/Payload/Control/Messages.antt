-- ===== src/Protocol/Payload/Control/Messages.antt =====
-- The discovery messages that `new_request` and `new_response` build are the ones that `message`
-- reads.
use mcrs.Prelude.{
  ℕ, suc, ◌+◌, ◌*◌, ◌≤◌, ◌<◌, ◌≡◌, ◌⊎◌, refl, ◌∙◌, bit_and, bit_or, Bool, true, false, ◌&&◌, Option,
  none, some, List, [], ◌∷◌, ◌++◌, length, ◌!=◌, leb, arith, length-append, append-nil,
}
use mcrs.Prelude.Bits.{shl8, bit_and_0x0f, bit_and_0x80, bit_or_at_4}
use mcrs.Prelude.Words.{
  length-u32_to_le_bytes, ℤ, IsU32, IsI8, u32_to_le_bytes, as_i8, as_u8, as_i8-as_u8,
}
use mcrs.Protocol.Error.{ok}
use mcrs.Protocol.Wire.Cursor.{At, At-start, At-skip, read_u8-At, read_u32_le-At, drop-At}
use mcrs.Protocol.Payload.Control.NodeType.{
  AdvertNodeType, IsNodeType, from_nibble, to_nibble, to_nibble-lt, from_nibble-to_nibble,
}
use mcrs.Protocol.Payload.Control.{
  ControlPayload, discover_request, discover_response, new, from_bool, optional_u32, new_request,
  new_response, sub_type, sub_data, zero_hop_only, message, request_message, response_message,
}

flags_of :
    (t d : ℕ) → t < 16 → d < 16 → bit_or (shl8 (bit_and t 0x0f) 4) (bit_and d 0x0f) ≡ t * 16 + d
flags_of t d p q =
    let high : bit_and t 0x0f ≡ t = bit_and_0x0f t (omega arith) ∙ omega arith in
    let low : bit_and d 0x0f ≡ d = bit_and_0x0f d (omega arith) ∙ omega arith in
    rw (high, low) (bit_or_at_4 t d p q)

module _ (t d : ℕ) (content : List ℕ) (p : t < 16) (q : d < 16) where
  -- The fields of a control payload are those that it was built from, and one with the top bit of
  -- its type is for zero hops only.
  pub new_fields :
      (sub_type (new t d content) ≡ t)
      × (sub_data (new t d content) ≡ d)
      × (zero_hop_only (new t d content) ≡ leb 8 t)
  unfolding new sub_type sub_data zero_hop_only
  new_fields =
      let flags : bit_or (shl8 (bit_and t 0x0f) 4) (bit_and d 0x0f) ≡ t * 16 + d =
        flags_of t d p q in
      let n : ℕ = t * 16 + d in
      (
        rw flags (omega arith),
        rw flags (bit_and_0x0f n (omega arith) ∙ omega arith),
        rw flags (ground (arith, bit_and_0x80 n (omega arith))),
      )

bool_bit : (b : Bool) → (bit_and (from_bool b) 0x01 != 0) ≡ b
bool_bit true = refl
bool_bit false = refl

from_bool-lt : (b : Bool) → from_bool b < 16
from_bool-lt true = omega arith
from_bool-lt false = omega arith

content_new : (t d : ℕ) (content : List ℕ) → (new t d content).content ≡ content
unfolding new
content_new t d content = refl

length_tail : (v : ℕ) (rest : List ℕ) → length (u32_to_le_bytes v ++ rest) ≡ 4 + length rest
length_tail v rest = omega (arith, length-append (u32_to_le_bytes v) rest, length-u32_to_le_bytes v)

-- The cursors behind the first byte and the tag of a discovery message.
module _ (b tag : ℕ) (rest : List ℕ) (short : length rest ≤ 32) where
  start : At (b ∷ (u32_to_le_bytes tag ++ rest)) 0 (b ∷ (u32_to_le_bytes tag ++ rest))
  start = At-start _ (omega (arith, length_tail tag rest))

  behind_first : At (b ∷ (u32_to_le_bytes tag ++ rest)) 1 (u32_to_le_bytes tag ++ rest)
  behind_first = At-skip (b ∷ []) _ refl start

  behind_tag : At (b ∷ (u32_to_le_bytes tag ++ rest)) 5 rest
  behind_tag = At-skip (u32_to_le_bytes tag) rest (length-u32_to_le_bytes tag) behind_first

request_lem :
    (p : ControlPayload) (filter tag : ℕ) (since : Option ℕ)
    → IsU32 tag
    → ((v : ℕ) → since ≡ some v → IsU32 v)
    → p.content ≡ filter ∷ (u32_to_le_bytes tag ++ optional_u32 since)
    → request_message p ≡ ok (discover_request (bit_and (sub_data p) 0x01 != 0) filter tag since)
unfolding request_message
request_lem p filter tag none t s e = rw (
  e,
  length_tail tag [],
  read_u8-At (u32_to_le_bytes tag ++ []) "discover type_filter" filter
      (start filter tag [] (omega arith)),
  read_u32_le-At [] "discover tag" tag t (behind_first filter tag [] (omega arith)),
)
request_lem p filter tag (some v) t s e =
    let rest : List ℕ = u32_to_le_bytes v in
    let short : length rest ≤ 32 = omega (arith, length-u32_to_le_bytes v) in
    let c : At (filter ∷ (u32_to_le_bytes tag ++ rest)) 5 (rest ++ []) =
      rw append-nil (behind_tag filter tag rest short) in
    rw (
      e,
      length_tail tag rest,
      length-u32_to_le_bytes v,
      read_u8-At (u32_to_le_bytes tag ++ rest) "discover type_filter" filter
          (start filter tag rest short),
      read_u32_le-At rest "discover tag" tag t (behind_first filter tag rest short),
      read_u32_le-At [] "discover since" v (s v refl) c,
    )

response_lem :
    (p : ControlPayload) (snr tag : ℕ) (pubkey : List ℕ)
    → IsU32 tag
    → (length pubkey ≡ 8) ⊎ (length pubkey ≡ 32)
    → p.content ≡ snr ∷ (u32_to_le_bytes tag ++ pubkey)
    → response_message p ≡ ok (discover_response (from_nibble (sub_data p)) (as_i8 snr) tag pubkey)
unfolding response_message
response_lem p snr tag pubkey t l e =
    let short : length pubkey ≤ 32 = omega arith in
    let long : (suc (length (u32_to_le_bytes tag ++ pubkey)) != 13
          && suc (length (u32_to_le_bytes tag ++ pubkey)) != 37)
        ≡ false =
      ground (arith, length_tail tag pubkey) in
    rw (
      e,
      long,
      read_u8-At (u32_to_le_bytes tag ++ pubkey) "discover snr" snr (start snr tag pubkey short),
      read_u32_le-At pubkey "discover tag" tag t (behind_first snr tag pubkey short),
      drop-At (behind_tag snr tag pubkey short),
    )

-- A discovery request that was built with 32-bit numbers is read back as the same message.
pub message-new_request :
    (type_filter tag : ℕ) (since : Option ℕ) (prefix_only : Bool)
    → IsU32 tag
    → ((v : ℕ) → since ≡ some v → IsU32 v)
    → message (new_request type_filter tag since prefix_only)
      ≡ ok (discover_request prefix_only type_filter tag since)
unfolding message new_request
message-new_request type_filter tag since prefix_only t s =
    let content : List ℕ = type_filter ∷ (u32_to_le_bytes tag ++ optional_u32 since) in
    let bit : ℕ = from_bool prefix_only in
    let (kind, low, _) = new_fields 8 bit content (omega arith) (from_bool-lt prefix_only) in
    rw (
      kind,
      request_lem (new 8 bit content) type_filter tag since t s (content_new 8 bit content),
      low,
      bool_bit prefix_only,
    )

-- A discovery response that was built with numbers that fit their fields and a key of 8 or 32
-- bytes is read back as the same message.
pub message-new_response :
    (node_type : AdvertNodeType) (snr_quarters : ℤ) (tag : ℕ) (pubkey : List ℕ)
    → IsNodeType node_type
    → IsI8 snr_quarters
    → IsU32 tag
    → (length pubkey ≡ 8) ⊎ (length pubkey ≡ 32)
    → message (new_response node_type snr_quarters tag pubkey)
      ≡ ok (discover_response node_type snr_quarters tag pubkey)
unfolding message new_response
message-new_response node_type snr_quarters tag pubkey n s t l =
    let snr : ℕ = as_u8 snr_quarters in
    let content : List ℕ = snr ∷ (u32_to_le_bytes tag ++ pubkey) in
    let nibble : ℕ = to_nibble node_type in
    let small : nibble < 16 = to_nibble-lt node_type n in
    let (kind, low, _) = new_fields 9 nibble content (omega arith) small in
    rw (
      kind,
      response_lem (new 9 nibble content) snr tag pubkey t l (content_new 9 nibble content),
      low,
      from_nibble-to_nibble node_type nibble n (omega arith) (omega arith),
      as_i8-as_u8 snr_quarters s,
    )
