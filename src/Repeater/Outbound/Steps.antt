-- ===== src/Repeater/Outbound/Steps.antt =====
-- The states of the outbound queue that the repeater's tasks reach: any task sends, and the radio
-- task, which has one packet in hand at most, takes, retries and completes.
use mathlib.Core.Path.{subst}
use mcrs.Prelude.{
  ℕ, ◌+◌, ◌≤◌, ◌<◌, ◌≡◌, ap, ◌⊎◌, refl, Bool-cases, inl, inr, none, some, List, [], ◌∷◌, ◌++◌,
  length, leb, min, arith, All,
}
use mcrs.Repeater.Outbound.{
  QueuedTransmit, SortedOutboundChannel, new, insert, try_send, take_first, take_from,
  retry_current, complete_current, again, len, outbound_max_attempts,
}
use mcrs.Repeater.Outbound.Order.{
  Sorted, NotLater, Later, length-insert, Sorted-tail, insert-Sorted, insert_splits,
}

pub data Reachable : SortedOutboundChannel → Type 0 where
  created : (configured_capacity : ℕ) → Reachable (new configured_capacity)
  sent :
      (c d : SortedOutboundChannel) (q : QueuedTransmit)
      → Reachable c
      → try_send q c ≡ some d
      → Reachable d
  taken : (c : SortedOutboundChannel) → Reachable c → c.active ≡ 0 → Reachable (take_first c).1
  retried :
      (c : SortedOutboundChannel) (q : QueuedTransmit) (delay now : ℕ)
      → Reachable c
      → c.active ≡ 1
      → Reachable (retry_current q delay now c).1
  completed : (c : SortedOutboundChannel) → Reachable c → Reachable (complete_current c)

pub record IsValid (c : SortedOutboundChannel) : Type 0 where
  pub sorted : Sorted c.queue
  pub fits : length c.queue + c.active ≤ c.capacity
  pub small : c.capacity ≤ 16
  pub single : c.active ≤ 1

abbrev grown : QueuedTransmit → SortedOutboundChannel → SortedOutboundChannel
grown q c = record { queue = insert q c.queue; capacity = c.capacity; active = c.active }

-- The queue after a packet was taken in: the packet is behind every packet that is eligible no
-- later and in front of every one that is eligible later, which all keep their order.
abbrev pub InPlace : QueuedTransmit → List QueuedTransmit → List QueuedTransmit → Type 0
InPlace q queue after =
    (front : List QueuedTransmit) × (back : List QueuedTransmit) × (queue ≡ front ++ back)
    × (after ≡ front ++ (q ∷ back))
    × All (NotLater q.eligible_at_ms) front
    × All (Later q.eligible_at_ms) back

-- On a valid queue, sending is refused exactly when the packets that wait and the one in hand fill
-- the capacity; otherwise the packet is put behind every packet that is eligible no later and in
-- front of every one that is eligible later, which all keep their order, and the queue stays valid
-- and is one longer.
pub try_send-IsValid :
    (q : QueuedTransmit) (c : SortedOutboundChannel)
    → IsValid c
    → ((len c ≡ c.capacity) × (try_send q c ≡ none))
      ⊎ ((len c < c.capacity)
          × ((d : SortedOutboundChannel) × (try_send q c ≡ some d)
              × InPlace q c.queue d.queue
              × IsValid d
              × (len d ≡ len c + 1)
              × (d.capacity ≡ c.capacity)
              × (d.active ≡ c.active)))
unfolding try_send len
try_send-IsValid q c v =
    let n : ℕ = length c.queue + c.active in
    let fits : n ≤ c.capacity = v.fits in
    let small : c.capacity ≤ 16 = v.small in
    let same : min n 4294967295 ≡ n = omega arith in
    let more : length (insert q c.queue) ≡ length c.queue + 1 = length-insert q c.queue in
    elim (Bool-cases (leb c.capacity (min n 4294967295))) [
      | inl y ↦ inl (ground arith, rw y refl)
      | inr f ↦
          let room : n < c.capacity = ground arith in
          let w : IsValid (grown q c) = record {
            sorted = insert-Sorted q c.queue v.sorted;
            fits = omega arith;
            small = small;
            single = v.single;
          } in
          inr (
            omega arith,
            (grown q c, rw f refl, insert_splits q c.queue v.sorted, w, omega arith, refl, refl),
          )
    ]

take_first-IsValid :
    (c : SortedOutboundChannel) → IsValid c → c.active ≡ 0 → IsValid (take_first c).1
unfolding take_first take_from
take_first-IsValid c v idle = go c.queue refl
  where
    go : (queue : List QueuedTransmit) → c.queue ≡ queue → IsValid (take_from c queue).1
    go [] e = v
    go (q ∷ queue) e =
        let size : length c.queue ≡ length queue + 1 = rw e (omega arith) in
        let order : Sorted (q ∷ queue) = rw⁻¹ e v.sorted in
        record {
          sorted = Sorted-tail q queue order;
          fits = omega (arith, v.fits, size);
          small = v.small;
          single = omega arith;
        }

retry_current-IsValid :
    (c : SortedOutboundChannel) (q : QueuedTransmit) (delay now : ℕ)
    → IsValid c
    → c.active ≡ 1
    → IsValid (retry_current q delay now c).1
unfolding retry_current
retry_current-IsValid c q delay now v one =
    let waits : QueuedTransmit = again q delay now in
    elim (Bool-cases (leb outbound_max_attempts (min (q.attempts + 1) 255))) [
      | inl y ↦ rw y v
      | inr n ↦ rw n (record {
        sorted = insert-Sorted waits c.queue v.sorted;
        fits = omega (arith, v.fits, length-insert waits c.queue);
        small = v.small;
        single = omega arith;
      })
    ]

-- In every state that the repeater's tasks reach, the outbound queue is sorted by time, fits its
-- capacity of at most 16 with the packet in hand, and one packet at most is in hand.
pub Reachable-IsValid : (c : SortedOutboundChannel) → Reachable c → IsValid c
unfolding complete_current new Sorted
Reachable-IsValid c (created n) = record {
  sorted = tt;
  fits = omega arith;
  small = omega arith;
  single = omega arith;
}
Reachable-IsValid _ (sent c d q r e) =
    let v : IsValid c = Reachable-IsValid c r in
    elim (try_send-IsValid q c v) [
      | inl (_, refused) ↦ ground arith
      | inr (_, (e', accepted, _, w, _, _, _)) ↦
          let same : e' ≡ d = ground arith in subst (λ x. IsValid x) same w
    ]
Reachable-IsValid _ (taken c r idle) = take_first-IsValid c (Reachable-IsValid c r) idle
Reachable-IsValid _ (retried c q delay now r one) =
    retry_current-IsValid c q delay now (Reachable-IsValid c r) one
Reachable-IsValid _ (completed c r) =
    let v : IsValid c = Reachable-IsValid c r in
    record {
      sorted = v.sorted;
      fits = omega (arith, v.fits);
      small = v.small;
      single = omega arith;
    }

abbrev pub NotEarlier : ℕ → QueuedTransmit → Type 0
NotEarlier t q = t ≤ q.eligible_at_ms

from_first :
    (q : QueuedTransmit) (queue : List QueuedTransmit) (t : ℕ)
    → Sorted (q ∷ queue)
    → t ≤ q.eligible_at_ms
    → All (NotEarlier t) queue
unfolding Sorted
from_first q [] t s l = tt
from_first q (p ∷ ps) t s l = (omega (arith, s.0), from_first p ps t s.1 (omega (arith, s.0)))

-- The packet that is taken from a valid queue is its first, and every packet left is eligible no
-- earlier.
pub take_first_earliest :
    (c : SortedOutboundChannel) (q : QueuedTransmit)
    → IsValid c
    → (take_first c).0 ≡ some q
    → (c.queue ≡ q ∷ (take_first c).1.queue)
      × All (NotEarlier q.eligible_at_ms) (take_first c).1.queue
      × ((take_first c).1.active ≡ 1)
unfolding take_first take_from
take_first_earliest c q v e = go c.queue refl e
  where
    go :
        (queue : List QueuedTransmit)
        → c.queue ≡ queue
        → (take_from c queue).0 ≡ some q
        → (queue ≡ q ∷ (take_from c queue).1.queue)
          × All (NotEarlier q.eligible_at_ms) (take_from c queue).1.queue
          × ((take_from c queue).1.active ≡ 1)
    go [] w e = ground arith
    go (p ∷ queue) w e =
        let order : Sorted (p ∷ queue) = rw⁻¹ w v.sorted in
        let same : p ≡ q = ground arith in
        let later : All (NotEarlier q.eligible_at_ms) queue =
          from_first p queue q.eligible_at_ms order
            (omega (arith, ap (λ x. x.eligible_at_ms) same)) in
        (ap (λ x. x ∷ queue) same, later, refl)
