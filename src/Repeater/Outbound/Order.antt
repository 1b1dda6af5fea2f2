-- ===== src/Repeater/Outbound/Order.antt =====
-- The outbound queue is kept by time, and packets of one time in the order they came.
use mcrs.Prelude.{
  ℕ, ◌+◌, ◌≤◌, ◌<◌, ◌≡◌, refl, ap, List, [], ◌∷◌, ◌++◌, length, ltb, Bool-cases, inl, inr, arith,
  All,
}
use mcrs.Repeater.Outbound.{QueuedTransmit, insert}

abbrev pub NotLater : ℕ → QueuedTransmit → Type 0
NotLater t q = q.eligible_at_ms ≤ t

abbrev pub Later : ℕ → QueuedTransmit → Type 0
Later t q = t < q.eligible_at_ms

-- The times of a queue do not decrease.
unfoldable pub Sorted : List QueuedTransmit → Type 0
Sorted [] = Unit
Sorted (q ∷ []) = Unit
Sorted (q ∷ p ∷ ps) = (q.eligible_at_ms ≤ p.eligible_at_ms) × Sorted (p ∷ ps)

pub length-insert :
    (q : QueuedTransmit) (xs : List QueuedTransmit) → length (insert q xs) ≡ length xs + 1
unfolding insert
length-insert q [] = omega arith
length-insert q (p ∷ ps) = ground (arith, length-insert q ps)

pub Sorted-tail : (q : QueuedTransmit) (xs : List QueuedTransmit) → Sorted (q ∷ xs) → Sorted xs
unfolding Sorted
Sorted-tail q [] s = tt
Sorted-tail q (p ∷ ps) s = s.1

All-Later :
    (t : ℕ) (q : QueuedTransmit) (xs : List QueuedTransmit)
    → t < q.eligible_at_ms
    → Sorted (q ∷ xs)
    → All (Later t) xs
unfolding Sorted
All-Later t q [] l s = tt
All-Later t q (p ∷ ps) l s = (omega (arith, s.0), All-Later t p ps (omega (arith, s.0)) s.1)

-- In a sorted queue, a packet is inserted behind every packet that is eligible no later and in
-- front of every packet that is eligible later, which all keep their order.
pub insert_splits :
    (q : QueuedTransmit) (xs : List QueuedTransmit)
    → Sorted xs
    → (before : List QueuedTransmit) × (after : List QueuedTransmit) × (xs ≡ before ++ after)
      × (insert q xs ≡ before ++ (q ∷ after))
      × All (NotLater q.eligible_at_ms) before
      × All (Later q.eligible_at_ms) after
unfolding insert
insert_splits q [] s = ([], [], refl, refl, tt, tt)
insert_splits q (p ∷ ps) s = elim (Bool-cases (ltb q.eligible_at_ms p.eligible_at_ms)) [
  | inl y ↦
      let l : q.eligible_at_ms < p.eligible_at_ms = ground arith in
      ([], p ∷ ps, refl, rw y, tt, (l, All-Later q.eligible_at_ms p ps l s))
  | inr n ↦
      let l : p.eligible_at_ms ≤ q.eligible_at_ms = ground arith in
      let (before, after, e, i, b, a) = insert_splits q ps (Sorted-tail p ps s) in
      (p ∷ before, after, ap (λ r. p ∷ r) e, rw n (ap (λ r. p ∷ r) i), (l, b), a)
]

insert_behind :
    (r q : QueuedTransmit) (xs : List QueuedTransmit)
    → r.eligible_at_ms ≤ q.eligible_at_ms
    → Sorted (r ∷ xs)
    → Sorted (r ∷ insert q xs)
unfolding insert Sorted
insert_behind r q [] l s = (l, tt)
insert_behind r q (p ∷ ps) l s = elim (Bool-cases (ltb q.eligible_at_ms p.eligible_at_ms)) [
  | inl y ↦ let less : q.eligible_at_ms ≤ p.eligible_at_ms = ground arith in rw y (l, (less, s.1))
  | inr n ↦
      let less : p.eligible_at_ms ≤ q.eligible_at_ms = ground arith in
      rw n (s.0, insert_behind p q ps less s.1)
]

pub insert-Sorted :
    (q : QueuedTransmit) (xs : List QueuedTransmit) → Sorted xs → Sorted (insert q xs)
unfolding insert Sorted
insert-Sorted q [] s = tt
insert-Sorted q (p ∷ ps) s = elim (Bool-cases (ltb q.eligible_at_ms p.eligible_at_ms)) [
  | inl y ↦ let less : q.eligible_at_ms ≤ p.eligible_at_ms = ground arith in rw y (less, s)
  | inr n ↦
      let less : p.eligible_at_ms ≤ q.eligible_at_ms = ground arith in
      rw n (insert_behind p q ps less s)
]
