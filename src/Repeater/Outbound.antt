-- ===== src/Repeater/Outbound.antt =====
-- repeater/src/app/mod.rs, SortedOutboundChannel: the packets that wait for the radio, by the time
-- from which they may be sent. The lock and the signal that wakes the radio task are left out; the
-- platform's clock is an argument where it is read.
use mcrs.Prelude.{
  ℕ, ◌+◌, min, Bool, true, false, Option, none, some, List, [], ◌∷◌, length, ltb, leb,
  if◌then◌else◌,
}
pub mod Order
pub mod Steps

abbrev pub outbound_queue_capacity : ℕ
outbound_queue_capacity = 16

abbrev pub outbound_max_attempts : ℕ
outbound_max_attempts = 5

abbrev pub u64_saturating_add : ℕ → ℕ → ℕ
u64_saturating_add a b = min (a + b) 18446744073709551615

pub record QueuedTransmit : Type 0 where
  pub eligible_at_ms : ℕ
  pub attempts : ℕ
  pub packet : List ℕ
  pub dedup_signature : Option (List ℕ)
  pub reboot_after_tx : Bool

pub record NextOutbound : Type 0 where
  pub is_forward : Bool
  pub eligible_at_ms : ℕ
  pub packet_len : ℕ

pub record SortedOutboundChannel : Type 0 where
  pub queue : List QueuedTransmit
  pub capacity : ℕ
  pub active : ℕ

unfoldable pub new : ℕ → SortedOutboundChannel
new configured_capacity = record {
  queue = [];
  capacity = min configured_capacity outbound_queue_capacity;
  active = 0;
}

-- `position` of the first packet that is eligible later, and `insert` there or at the end.
unfoldable pub insert : QueuedTransmit → List QueuedTransmit → List QueuedTransmit
insert queued [] = queued ∷ []
insert queued (pending ∷ queue) =
    let rest = insert queued queue in
    if ltb queued.eligible_at_ms pending.eligible_at_ms
    then queued ∷ pending ∷ queue
    else pending ∷ rest

-- The packets that wait and the one that is being sent, with `saturating_add` on 32 bits.
unfoldable pub len : SortedOutboundChannel → ℕ
len c = min (length c.queue + c.active) 4294967295

-- `none` is the error QueueFull.
unfoldable pub try_send : QueuedTransmit → SortedOutboundChannel → Option SortedOutboundChannel
try_send queued c =
    if leb c.capacity (min (length c.queue + c.active) 4294967295)
    then none
    else some (record { queue = insert queued c.queue; capacity = c.capacity; active = c.active })

abbrev pub is_some {ℓ} : {A : Type ℓ} → Option A → Bool
is_some none = false
is_some (some x) = true

unfoldable pub next : List QueuedTransmit → Option NextOutbound
next [] = none
next (queued ∷ queue) = some (record {
  is_forward = is_some queued.dedup_signature;
  eligible_at_ms = queued.eligible_at_ms;
  packet_len = length queued.packet;
})

unfoldable pub take_from :
    SortedOutboundChannel → List QueuedTransmit → Option QueuedTransmit × SortedOutboundChannel
take_from c [] = (none, c)
take_from c (queued ∷ queue) =
    (some queued, record { queue = queue; capacity = c.capacity; active = 1 })

unfoldable pub take_first : SortedOutboundChannel → Option QueuedTransmit × SortedOutboundChannel
take_first c = take_from c c.queue

-- The packet as it waits again: one attempt more, and eligible after the delay.
abbrev pub again : QueuedTransmit → ℕ → ℕ → QueuedTransmit
again queued retry_delay_ms now_ms = record {
  eligible_at_ms = u64_saturating_add now_ms retry_delay_ms;
  attempts = min (queued.attempts + 1) 255;
  packet = queued.packet;
  dedup_signature = queued.dedup_signature;
  reboot_after_tx = queued.reboot_after_tx;
}

unfoldable pub retry_current :
    QueuedTransmit → ℕ → ℕ → SortedOutboundChannel → Option ℕ × SortedOutboundChannel
retry_current queued retry_delay_ms now_ms c =
    if leb outbound_max_attempts (min (queued.attempts + 1) 255) then (none, c) else (
      some retry_delay_ms,
      record {
        queue = insert (again queued retry_delay_ms now_ms) c.queue;
        capacity = c.capacity;
        active = 0;
      },
    )

unfoldable pub complete_current : SortedOutboundChannel → SortedOutboundChannel
complete_current c = record { queue = c.queue; capacity = c.capacity; active = 0 }
