-- ===== src/Protocol/Payload/Control/NodeType.antt =====
-- protocol/src/advert_node_type.rs: what kind of node an advert or a discovery speaks of.
use mcrs.Prelude.{
  ℕ, ◌%◌, ◌≤◌, ◌<◌, ◌≡◌, refl, bit_and, arith, ◌==◌, if◌then◌else◌, Bool, true, false,
}
use mcrs.Prelude.Bits.{IsByte, bit_and_0x0f, all_below, agree_below}

pub data AdvertNodeType : Type 0 where
  nothing chat repeater room sensor : AdvertNodeType
  reserved : ℕ → AdvertNodeType

-- The `match` of `from_nibble` on the masked nibble.
unfoldable pub of_nibble : ℕ → AdvertNodeType
of_nibble n =
    if n == 0
    then nothing
    else if n == 1
    then chat
    else if n == 2
    then repeater
    else if n == 3
    then room
    else if n == 4
    then sensor
    else reserved n

unfoldable pub from_nibble : ℕ → AdvertNodeType
unfolding of_nibble
from_nibble nibble = of_nibble (bit_and nibble 0x0f)

unfoldable pub to_nibble : AdvertNodeType → ℕ
to_nibble nothing = 0
to_nibble chat = 1
to_nibble repeater = 2
to_nibble room = 3
to_nibble sensor = 4
to_nibble (reserved n) = bit_and n 0x0f

-- `node_type == AdvertNodeType::Repeater`
unfoldable pub is_repeater : AdvertNodeType → Bool
is_repeater repeater = true
is_repeater _ = false

-- The node types that a nibble can name.
abbrev pub IsNodeType : AdvertNodeType → Type 0
IsNodeType (reserved n) = (5 ≤ n) × (n < 16)
IsNodeType _ = Unit

pub to_nibble-lt : (t : AdvertNodeType) → IsNodeType t → to_nibble t < 16
unfolding to_nibble
to_nibble-lt (reserved n) h = omega (arith, bit_and_0x0f n (omega arith))
to_nibble-lt _ h = omega arith

of-to_nibble : (t : AdvertNodeType) → IsNodeType t → of_nibble (to_nibble t) ≡ t
unfolding of_nibble to_nibble
of-to_nibble (reserved n) h = ground (arith, bit_and_0x0f n (omega arith))
of-to_nibble _ h = refl

-- Any byte whose low nibble is the node type's own gives the node type back.
pub from_nibble-to_nibble :
    (t : AdvertNodeType) (n : ℕ)
    → IsNodeType t
    → IsByte n
    → n % 16 ≡ to_nibble t
    → from_nibble n ≡ t
unfolding from_nibble
from_nibble-to_nibble t n h p e = rw (bit_and_0x0f n p, e) (unfold of_nibble in of-to_nibble t h)

pub to_nibble-from_nibble : (n : ℕ) → IsByte n → to_nibble (from_nibble n) ≡ n % 16
unfolding all_below to_nibble from_nibble
to_nibble-from_nibble n h = agree_below 256 (λ b. to_nibble (from_nibble b)) (λ b. b % 16) refl n h

pub from_nibble-IsNodeType : (n : ℕ) → IsByte n → IsNodeType (from_nibble n)
unfolding from_nibble
from_nibble-IsNodeType n h = rw (bit_and_0x0f n h) (ground arith)
