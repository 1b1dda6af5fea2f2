-- ===== src/Repeater/Forwarding/Sent.antt =====
-- What is refused after a forward was sent, and while what else happens.
use mcrs.Prelude.{
  ℕ, ◌+◌, ◌-◌, ◌≤◌, ◌<◌, ◌≡◌, ◌⊎◌, refl, Bool, true, false, Option, none, some, Option-cases, List,
  list_eq, arith, inl, inr, Bool-cases,
}
use mcrs.Protocol.SeenPacketCache.{SeenPacketCache, prune, contains, touch}
use mcrs.Protocol.SeenPacketCache.Remembered.{
  Knows, Knows-prune, Knows-contains, Knows-touch, Knows-touch_other,
}
use mcrs.Repeater.Forwarding.{
  AppContext, is_pending, is_seen_or_pending, reserve_forward, release_forward, finish_forward,
  enqueue_outbound_item, sent_or_released, send_reserved, enqueue_forward, with_outbound,
}
use mcrs.Repeater.Forwarding.Once.{known-enqueue, seen-known}
use mcrs.Repeater.Outbound.{SortedOutboundChannel}

-- The cache as it was, or without its stale entries.
abbrev LookedUp : ℕ → SeenPacketCache → SeenPacketCache → Type 0
LookedUp now before after = (after ≡ before) ⊎ (after ≡ prune before now)

reserve_forward-LookedUp :
    (other : List ℕ) (now : ℕ) (s : AppContext)
    → LookedUp now s.seen_packets (reserve_forward other now s).1.seen_packets
unfolding reserve_forward is_seen_or_pending contains
reserve_forward-LookedUp other now s = elim (Bool-cases (is_pending other s.pending_forwards)) [
  | inl y ↦ rw y (inl refl)
  | inr n ↦ inr (ground (arith, n))
]

send_reserved-seen :
    (packet : List ℕ) (delay : ℕ) (other : List ℕ) (later : ℕ) (r : Option Bool × AppContext)
    → (send_reserved packet delay other later r).1.seen_packets ≡ r.1.seen_packets
unfolding send_reserved sent_or_released release_forward enqueue_outbound_item
send_reserved-seen packet delay other later (none, s) = refl
send_reserved-seen packet delay other later (some false, s) = refl
send_reserved-seen packet delay other later (some true, s) =
    elim (Option-cases (enqueue_outbound_item packet delay false (some other) later s)) [
      | inl n ↦ rw n refl
      | inr (t, y) ↦ rw y (ground (arith, y))
    ]

enqueue_forward-LookedUp :
    (packet : List ℕ) (delay : ℕ) (other : List ℕ) (now later : ℕ) (s : AppContext)
    → LookedUp now s.seen_packets (enqueue_forward packet delay other now later s).1.seen_packets
unfolding enqueue_forward
enqueue_forward-LookedUp packet delay other now later s =
    rw (send_reserved-seen packet delay other later (reserve_forward other now s))
      (reserve_forward-LookedUp other now s)

-- The states after the state in which a signature was sent at a time, with so many others sent
-- since: any packets are forwarded or refused within the time to live, other forwards are finished
-- as sent, any forwards are given up, and the outbound queue becomes any other one.
pub data Since (sig : List ℕ) (ttl sent : ℕ) : ℕ → AppContext → AppContext → Type 0 where
  at_once : (s : AppContext) → Since sig ttl sent 0 s s
  asked :
      {s t : AppContext} {n : ℕ} (packet : List ℕ) (delay : ℕ) (other : List ℕ) (now later : ℕ)
      → now - sent ≤ ttl
      → Since sig ttl sent n s t
      → Since sig ttl sent n s (enqueue_forward packet delay other now later t).1
  sent_other :
      {s t : AppContext} {n : ℕ} (other : List ℕ) (now : ℕ)
      → list_eq sig other ≡ false
      → Since sig ttl sent n s t
      → Since sig ttl sent (n + 1) s (finish_forward (some other) true now t)
  given_up :
      {s t : AppContext} {n : ℕ} (other : List ℕ) (now : ℕ)
      → Since sig ttl sent n s t
      → Since sig ttl sent n s (finish_forward (some other) false now t)
  queue_changed :
      {s t : AppContext} {n : ℕ} (outbound : SortedOutboundChannel)
      → Since sig ttl sent n s t
      → Since sig ttl sent n s (with_outbound t outbound)

module _ (sig : List ℕ) (ttl max sent : ℕ) where
  Knows-LookedUp :
      (k now : ℕ) (before after : SeenPacketCache)
      → now - sent ≤ ttl
      → LookedUp now before after
      → Knows ttl max k sig sent before
      → Knows ttl max k sig sent after
  Knows-LookedUp k now before after h (inl same) w = rw same w
  Knows-LookedUp k now before after h (inr pruned) w =
      rw pruned (Knows-prune ttl max k sig sent before now h w)

  Since-Knows :
      {s t : AppContext} (n : ℕ)
      → Since sig ttl sent n s t
      → n < max
      → Knows ttl max 0 sig sent s.seen_packets
      → Knows ttl max n sig sent t.seen_packets
  unfolding finish_forward release_forward
  Since-Knows n (at_once s) l w = w
  Since-Knows n (asked {s} {t} packet delay other now later h r) l w =
      Knows-LookedUp n now t.seen_packets
        (enqueue_forward packet delay other now later t).1.seen_packets h
        (enqueue_forward-LookedUp packet delay other now later t) (Since-Knows n r l w)
  Since-Knows _ (sent_other {s} {t} {n = k} other now d r) l w =
      Knows-touch_other ttl max k sig sent t.seen_packets other now d l
        (Since-Knows k r (omega (arith, l)) w)
  Since-Knows n (given_up other now r) l w = Since-Knows n r l w
  Since-Knows n (queue_changed outbound r) l w = Since-Knows n r l w

-- After a forward was sent, a packet of the same signature is refused within the time to live of
-- the cache of seen packets, as long as fewer forwards of other signatures were sent since than
-- the cache has places; in between, any packets may be taken or refused within that time, any
-- forwards may be given up, and the outbound queue may become any other one.
pub finish_forward-seen :
    (packet : List ℕ) (delay : ℕ) (sig : List ℕ) (sent now later n : ℕ) (s t : AppContext)
    → n < s.seen_packets.max_entries
    → now - sent ≤ s.seen_packets.ttl_ticks
    → Since sig s.seen_packets.ttl_ticks sent n (finish_forward (some sig) true sent s) t
    → (enqueue_forward packet delay sig now later t).0 ≡ some false
unfolding finish_forward release_forward
finish_forward-seen packet delay sig sent now later n s t room h since =
    let ttl : ℕ = s.seen_packets.ttl_ticks in
    let max : ℕ = s.seen_packets.max_entries in
    let first : Knows ttl max 0 sig sent (touch s.seen_packets sig sent) =
      Knows-touch s.seen_packets sig sent (omega (arith, room)) in
    let last : Knows ttl max n sig sent t.seen_packets =
      Since-Knows sig ttl max sent n since room first in
    known-enqueue packet delay sig now later t
      (seen-known sig now t (Knows-contains ttl max n sig sent t.seen_packets now h last))
