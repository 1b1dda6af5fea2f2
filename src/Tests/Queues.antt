-- ===== src/Tests/Queues.antt =====
-- The repeater's queues, caches and countdowns.
use mcrs.Prelude.{
  ℕ, ◌≤◌, ◌<◌, ◌+◌, ◌-◌, ◌*◌, ◌≡◌, ◌⊎◌, ◌↔◌, refl, true, false, none, some, List, [], ◌∷◌, All,
  arith,
}
use mcrs.Protocol.HashSize.{HashSize}
use mcrs.Protocol.NodePath.{NodePath}
use mcrs.Protocol.SeenPacketCache
use mcrs.Protocol.SeenPacketCache.{SeenPacketCache, contains, touch, check_and_insert}
use mcrs.Protocol.SeenPacketCache.Memory
use mcrs.Protocol.SeenPacketCache.Memory.{new_with_capacity-IsValid, check_and_insert-IsValid}
use mcrs.Protocol.SeenPacketCache.Remembered.{check_all, check_and_insert_again}
use mcrs.Repeater.Battery.{level_percent, level_percent_monotone}
use mcrs.Repeater.Forwarding.{AppContext, enqueue_forward, finish_forward}
use mcrs.Repeater.Forwarding.Once.{Outcome, enqueue_forward-Outcome}
use mcrs.Repeater.Forwarding.Sent.{Since, at_once, asked, sent_other, finish_forward-seen}
use mcrs.Repeater.Outbound
use mcrs.Repeater.Outbound.{
  QueuedTransmit, SortedOutboundChannel, insert, len, try_send, take_first,
}
use mcrs.Repeater.Outbound.Order.{Sorted}
use mcrs.Repeater.Outbound.Steps
use mcrs.Repeater.Outbound.Steps.{
  Reachable, created, sent, taken, NotEarlier, InPlace, Reachable-IsValid, try_send-IsValid,
  take_first_earliest,
}
use mcrs.Repeater.Schedule.{Schedule, due}
use mcrs.Repeater.Schedule.Countdown.{fired, Clock, due_iff, fired_bound}

abbrev empty_cache : SeenPacketCache
empty_cache = record { ttl_ticks = 100; max_entries = 2; entries = [] }

empty_cache-IsValid : Memory.IsValid empty_cache
unfolding mcrs.Protocol.SeenPacketCache.Entries.Distinct
empty_cache-IsValid = record { bounded = omega arith; distinct = tt }

abbrev sig : List ℕ
sig = 1 ∷ 2 ∷ []

check_and_insert-IsValid_example : Memory.IsValid (check_and_insert empty_cache sig 5).1
check_and_insert-IsValid_example = check_and_insert-IsValid empty_cache sig 5 empty_cache-IsValid

check_new : (check_and_insert empty_cache sig 5).0 ≡ true
unfolding check_and_insert contains SeenPacketCache.has_signature SeenPacketCache.prune
    SeenPacketCache.drop_stale
check_new = refl

abbrev other_sig : List ℕ
other_sig = 8 ∷ 9 ∷ []

-- One other signature between the two, in a cache of two places.
check_and_insert_again_example :
    (check_and_insert
      (check_all (check_and_insert empty_cache sig 5).1 ((other_sig, 60) ∷ []))
      sig
      105).0
    ≡ false
check_and_insert_again_example =
    check_and_insert_again empty_cache sig 5 105 ((other_sig, 60) ∷ []) check_new (omega arith)
      (omega arith, tt) (omega arith)

abbrev waiting : ℕ → QueuedTransmit
waiting time = record {
  eligible_at_ms = time;
  attempts = 0;
  packet = 1 ∷ [];
  dedup_signature = none;
  reboot_after_tx = false;
}

abbrev channel : SortedOutboundChannel
channel = record { queue = waiting 10 ∷ waiting 20 ∷ []; capacity = 3; active = 0 }

channel_order : Sorted (waiting 10 ∷ waiting 20 ∷ [])
unfolding Sorted
channel_order = (omega arith, tt)

channel-IsValid : Steps.IsValid channel
channel-IsValid = record {
  sorted = channel_order;
  fits = omega arith;
  small = omega arith;
  single = omega arith;
}

try_send-IsValid_example :
    ((len channel ≡ 3) × (try_send (waiting 15) channel ≡ none))
    ⊎ ((len channel < 3)
        × ((d : SortedOutboundChannel) × (try_send (waiting 15) channel ≡ some d)
            × InPlace (waiting 15) channel.queue d.queue
            × Steps.IsValid d
            × (len d ≡ len channel + 1)
            × (d.capacity ≡ 3)
            × (d.active ≡ 0)))
try_send-IsValid_example = try_send-IsValid (waiting 15) channel channel-IsValid

take_channel : (take_first channel).0 ≡ some (waiting 10)
unfolding take_first Outbound.take_from
take_channel = refl

take_first_earliest_example :
    (channel.queue ≡ waiting 10 ∷ (take_first channel).1.queue)
    × All (NotEarlier 10) (take_first channel).1.queue
    × ((take_first channel).1.active ≡ 1)
take_first_earliest_example = take_first_earliest channel (waiting 10) channel-IsValid take_channel

abbrev opened : SortedOutboundChannel
opened = record { queue = []; capacity = 4; active = 0 }

abbrev one_waits : SortedOutboundChannel
one_waits = record { queue = waiting 10 ∷ []; capacity = 4; active = 0 }

opened-Reachable : Reachable opened
unfolding Outbound.new
opened-Reachable = created 4

send_opened : try_send (waiting 10) opened ≡ some one_waits
unfolding try_send insert
send_opened = refl

Reachable-IsValid_example : Steps.IsValid (take_first one_waits).1
Reachable-IsValid_example =
    Reachable-IsValid (take_first one_waits).1
      (taken one_waits (sent opened one_waits (waiting 10) opened-Reachable send_opened) refl)

abbrev context : AppContext
context = record {
  outbound = opened;
  seen_packets = empty_cache;
  pending_forwards = [];
  outbound_queue_len = 4;
}

enqueue_forward-Outcome_example :
    Outcome sig context (enqueue_forward (7 ∷ []) 40 sig 1000 1001 context)
enqueue_forward-Outcome_example = enqueue_forward-Outcome (7 ∷ []) 40 sig 1000 1001 context

forward_taken : (enqueue_forward (7 ∷ []) 40 sig 1000 1001 context).0 ≡ some true
unfolding enqueue_forward mcrs.Repeater.Forwarding.send_reserved
    mcrs.Repeater.Forwarding.reserve_forward mcrs.Repeater.Forwarding.is_seen_or_pending
    mcrs.Repeater.Forwarding.is_pending contains SeenPacketCache.has_signature SeenPacketCache.prune
    SeenPacketCache.drop_stale mcrs.Repeater.Forwarding.sent_or_released
    mcrs.Repeater.Forwarding.enqueue_outbound_item try_send
forward_taken = refl

abbrev sent_first : AppContext
sent_first = finish_forward (some sig) true 1000 context

abbrev sent_two : AppContext
sent_two =
    finish_forward (some other_sig) true 1060
      (enqueue_forward (9 ∷ []) 20 other_sig 1040 1041 sent_first).1

since : Since sig 100 1000 1 sent_first sent_two
since =
    sent_other other_sig 1060 refl
      (asked (9 ∷ []) 20 other_sig 1040 1041 (omega arith) (at_once sent_first))

finish_forward-seen_example : (enqueue_forward (7 ∷ []) 0 sig 1100 1101 sent_two).0 ≡ some false
finish_forward-seen_example =
    finish_forward-seen (7 ∷ []) 0 sig 1000 1100 1101 1 context sent_two (omega arith) (omega arith)
      since

abbrev ring : NodePath
ring = record { hash_size = HashSize.one; bytes = 7 ∷ 9 ∷ 7 ∷ [] }

abbrev hourly : Schedule
hourly = record { interval_ms = 3600000; started_ms = 1000 }

due_iff_example :
    ((due hourly 3600000 3601000).0 ≡ true)
    ↔ ((3600000 ≡ hourly.interval_ms) × (0 < 3600000) × (1000 + 3600000 ≤ 3601000))
due_iff_example = due_iff hourly 3600000 3601000

asked-Clock : Clock 1000 9000000 (3601000 ∷ 3601001 ∷ 8000000 ∷ [])
unfolding Clock
asked-Clock = (omega arith, (omega arith, (omega arith, omega arith)))

fired_bound_example :
    fired hourly 3600000 (3601000 ∷ 3601001 ∷ 8000000 ∷ []) * 3600000 ≤ 9000000 - 1000
fired_bound_example =
    fired_bound hourly 3600000 9000000 (3601000 ∷ 3601001 ∷ 8000000 ∷ []) (omega arith) asked-Clock

level_percent_monotone_example :
    (level_percent 3700 ≤ level_percent 3900) × (level_percent 3900 ≤ 100)
level_percent_monotone_example = level_percent_monotone 3700 3900 (omega arith)
