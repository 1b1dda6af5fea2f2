-- ===== src/Repeater/Forwarding.antt =====
-- repeater/src/app/mod.rs: which packets wait to be forwarded, and which were forwarded lately
-- (reserve_forward, release_forward, finish_forward, enqueue_forward, enqueue_outbound_item). The
-- platform's clock is read anew by each call, so each reading is an argument.
use mcrs.Prelude.{
  ℕ, min, Bool, true, false, ◌||◌, Option, none, some, List, [], ◌∷◌, ◌++◌, length, list_eq, leb,
  if◌then◌else◌,
}
use mcrs.Protocol.SeenPacketCache.{SeenPacketCache, contains, touch}
use mcrs.Repeater.Outbound.{
  QueuedTransmit, SortedOutboundChannel, outbound_queue_capacity, try_send, u64_saturating_add,
}
pub mod Once
pub mod Sent

-- The fields of the context that forwarding uses.
pub record AppContext : Type 0 where
  pub outbound : SortedOutboundChannel
  pub seen_packets : SeenPacketCache
  pub pending_forwards : List (List ℕ)
  pub outbound_queue_len : ℕ

abbrev pub with_pending : AppContext → List (List ℕ) → AppContext
with_pending s pending = record {
  outbound = s.outbound;
  seen_packets = s.seen_packets;
  pending_forwards = pending;
  outbound_queue_len = s.outbound_queue_len;
}

abbrev pub with_seen : AppContext → SeenPacketCache → AppContext
with_seen s seen = record {
  outbound = s.outbound;
  seen_packets = seen;
  pending_forwards = s.pending_forwards;
  outbound_queue_len = s.outbound_queue_len;
}

abbrev pub with_outbound : AppContext → SortedOutboundChannel → AppContext
with_outbound s outbound = record {
  outbound = outbound;
  seen_packets = s.seen_packets;
  pending_forwards = s.pending_forwards;
  outbound_queue_len = s.outbound_queue_len;
}

unfoldable pub is_pending : List ℕ → List (List ℕ) → Bool
is_pending signature [] = false
is_pending signature (p ∷ ps) = list_eq p signature || is_pending signature ps

-- `position` and `remove`: the first equal signature goes.
unfoldable pub remove_pending : List ℕ → List (List ℕ) → List (List ℕ)
remove_pending signature [] = []
remove_pending signature (p ∷ ps) =
    let rest = remove_pending signature ps in if list_eq p signature then ps else p ∷ rest

unfoldable pub is_seen_or_pending : List ℕ → ℕ → AppContext → Bool × AppContext
is_seen_or_pending signature now s =
    if is_pending signature s.pending_forwards
    then (true, s)
    else let (seen, cache) = contains s.seen_packets signature now in (seen, with_seen s cache)

-- `none` is the error QueueFull.
unfoldable pub reserve_forward : List ℕ → ℕ → AppContext → Option Bool × AppContext
reserve_forward signature now s =
    let (known, s) = is_seen_or_pending signature now s in
    if known
    then (some false, s)
    else if leb (min s.outbound_queue_len outbound_queue_capacity) (length s.pending_forwards)
    then (none, s)
    else (some true, with_pending s (s.pending_forwards ++ (signature ∷ [])))

unfoldable pub release_forward : List ℕ → Bool → ℕ → AppContext → AppContext
release_forward signature transmitted now s =
    let s = with_pending s (remove_pending signature s.pending_forwards) in
    if transmitted then with_seen s (touch s.seen_packets signature now) else s

unfoldable pub finish_forward : Option (List ℕ) → Bool → ℕ → AppContext → AppContext
finish_forward none transmitted now s = s
finish_forward (some signature) transmitted now s = release_forward signature transmitted now s

abbrev pub queued_at : List ℕ → ℕ → Bool → Option (List ℕ) → ℕ → QueuedTransmit
queued_at packet delay_ms reboot_after_tx dedup_signature now = record {
  eligible_at_ms = u64_saturating_add now delay_ms;
  attempts = 0;
  packet = packet;
  dedup_signature = dedup_signature;
  reboot_after_tx = reboot_after_tx;
}

-- `none` is the error QueueFull, which leaves the context as it was.
unfoldable pub enqueue_outbound_item :
    List ℕ → ℕ → Bool → Option (List ℕ) → ℕ → AppContext → Option AppContext
enqueue_outbound_item packet delay_ms reboot_after_tx dedup_signature now s =
    elim (try_send (queued_at packet delay_ms reboot_after_tx dedup_signature now) s.outbound) [
      | none ↦ none
      | some outbound ↦ some (with_outbound s outbound)
    ]

unfoldable pub sent_or_released :
    List ℕ → ℕ → AppContext → Option AppContext → Option Bool × AppContext
sent_or_released signature now s (some sent) = (some true, sent)
sent_or_released signature now s none = (none, release_forward signature false now s)

-- What follows a reservation: the packet is sent, or the reservation is taken back.
unfoldable pub send_reserved :
    List ℕ → ℕ → List ℕ → ℕ → Option Bool × AppContext → Option Bool × AppContext
send_reserved packet delay_ms signature now (none, s) = (none, s)
send_reserved packet delay_ms signature now (some false, s) = (some false, s)
send_reserved packet delay_ms signature now (some true, s) =
    sent_or_released signature now s
      (enqueue_outbound_item packet delay_ms false (some signature) now s)

unfoldable pub enqueue_forward : List ℕ → ℕ → List ℕ → ℕ → ℕ → AppContext → Option Bool × AppContext
enqueue_forward packet delay_ms signature now later s =
    send_reserved packet delay_ms signature later (reserve_forward signature now s)
