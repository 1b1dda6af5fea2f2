-- ===== src/Repeater/Forwarding/Once.antt =====
-- A packet is taken for forwarding once: while its signature waits, another is refused.
use mcrs.Prelude.{
  ℕ, ◌≡◌, ◌≢◌, ◌⊎◌, refl, ◌∙◌, Bool, true, false, Option, none, some, Option-cases, List, [], ◌∷◌,
  ◌++◌, list_eq, list_eq_iff, arith, inl, inr,
}
use mcrs.Protocol.SeenPacketCache.{contains}
use mcrs.Repeater.Forwarding.{
  AppContext, is_pending, remove_pending, is_seen_or_pending, reserve_forward, release_forward,
  finish_forward, enqueue_outbound_item, sent_or_released, send_reserved, enqueue_forward,
}

list_eq_refl : (x : List ℕ) → list_eq x x ≡ true
list_eq_refl x = ground (arith, list_eq_iff x x)

pub is_pending-last : (s : List ℕ) (ps : List (List ℕ)) → is_pending s (ps ++ (s ∷ [])) ≡ true
unfolding is_pending
is_pending-last s [] = rw (list_eq_refl s)
is_pending-last s (p ∷ ps) = ground (arith, is_pending-last s ps)

remove_pending-last :
    (s : List ℕ) (ps : List (List ℕ))
    → is_pending s ps ≡ false
    → remove_pending s (ps ++ (s ∷ [])) ≡ ps
unfolding is_pending remove_pending
remove_pending-last s [] h = rw (list_eq_refl s)
remove_pending-last s (p ∷ ps) h = ground (arith, remove_pending-last s ps)

-- A signature that is known is refused, whatever it is known from.
pub known-enqueue :
    (packet : List ℕ) (delay : ℕ) (sig : List ℕ) (now later : ℕ) (s : AppContext)
    → (is_seen_or_pending sig now s).0 ≡ true
    → (enqueue_forward packet delay sig now later s).0 ≡ some false
unfolding enqueue_forward reserve_forward send_reserved
known-enqueue packet delay sig now later s h = rw h refl

pending-known :
    (sig : List ℕ) (now : ℕ) (s : AppContext)
    → is_pending sig s.pending_forwards ≡ true
    → (is_seen_or_pending sig now s).0 ≡ true
unfolding is_seen_or_pending
pending-known sig now s h = rw h refl

pub seen-known :
    (sig : List ℕ) (now : ℕ) (s : AppContext)
    → (contains s.seen_packets sig now).0 ≡ true
    → (is_seen_or_pending sig now s).0 ≡ true
unfolding is_seen_or_pending
seen-known sig now s h = ground (arith, h)

-- What looking a signature up changes: the cache of seen packets only.
looked-up :
    (sig : List ℕ) (now : ℕ) (s : AppContext)
    → ((is_seen_or_pending sig now s).1.pending_forwards ≡ s.pending_forwards)
      × ((is_seen_or_pending sig now s).1.outbound ≡ s.outbound)
      × ((is_seen_or_pending sig now s).0 ≡ false → is_pending sig s.pending_forwards ≡ false)
unfolding is_seen_or_pending
looked-up sig now s = ground arith

-- The two outcomes of `reserve_forward`: the signature is added behind the others, or nothing
-- waits that did not wait before.
reserved-cases :
    (sig : List ℕ) (now : ℕ) (s : AppContext)
    → ((reserve_forward sig now s).0 ≡ some true)
        × ((reserve_forward sig now s).1.pending_forwards ≡ s.pending_forwards ++ (sig ∷ []))
        × (is_pending sig s.pending_forwards ≡ false)
        × ((reserve_forward sig now s).1.outbound ≡ s.outbound)
      ⊎ ((reserve_forward sig now s).0 ≢ some true)
        × ((reserve_forward sig now s).1.pending_forwards ≡ s.pending_forwards)
        × ((reserve_forward sig now s).1.outbound ≡ s.outbound)
unfolding reserve_forward
reserved-cases sig now s =
    let (same, out, absent) = looked-up sig now s in ground (arith, same, out, absent)

-- What became of a forward: its signature waits behind the others, or nothing waits and nothing is
-- queued that was not before.
abbrev pub Outcome : List ℕ → AppContext → Option Bool × AppContext → Type 0
Outcome sig s (result, after) =
    ((result ≡ some true)
      × (after.pending_forwards ≡ s.pending_forwards ++ (sig ∷ []))
      × (is_pending sig s.pending_forwards ≡ false))
    ⊎ ((result ≢ some true)
        × (after.pending_forwards ≡ s.pending_forwards)
        × (after.outbound ≡ s.outbound))

item_pending :
    (packet : List ℕ) (delay : ℕ) (reboot : Bool) (dedup : Option (List ℕ)) (now : ℕ)
    (s t : AppContext)
    → enqueue_outbound_item packet delay reboot dedup now s ≡ some t
    → t.pending_forwards ≡ s.pending_forwards
unfolding enqueue_outbound_item
item_pending packet delay reboot dedup now s t h = ground arith

send_reserved-Outcome :
    (packet : List ℕ) (delay : ℕ) (sig : List ℕ) (later : ℕ) (s r : AppContext)
    → r.pending_forwards ≡ s.pending_forwards ++ (sig ∷ [])
    → r.outbound ≡ s.outbound
    → is_pending sig s.pending_forwards ≡ false
    → Outcome sig s (send_reserved packet delay sig later (some true, r))
unfolding send_reserved sent_or_released release_forward
send_reserved-Outcome packet delay sig later s r e o h =
    elim (Option-cases (enqueue_outbound_item packet delay false (some sig) later r)) [
      | inl n ↦
          let back : remove_pending sig r.pending_forwards ≡ s.pending_forwards =
            rw e (remove_pending-last sig s.pending_forwards h) in
          rw n (inr (λ w. ground arith, back, o))
      | inr (c, y) ↦
          rw y (inl (refl, item_pending packet delay false (some sig) later r c y ∙ e, h))
    ]

-- Forwarding a packet either answers yes and adds its signature, which did not wait, behind those
-- that wait, or answers otherwise and leaves the signatures that wait and the outbound queue as
-- they were, a full queue included.
pub enqueue_forward-Outcome :
    (packet : List ℕ) (delay : ℕ) (sig : List ℕ) (now later : ℕ) (s : AppContext)
    → Outcome sig s (enqueue_forward packet delay sig now later s)
unfolding enqueue_forward send_reserved
enqueue_forward-Outcome packet delay sig now later s =
    go (reserve_forward sig now s) (reserved-cases sig now s)
  where
    go :
        (r : Option Bool × AppContext)
        → (r.0 ≡ some true)
            × (r.1.pending_forwards ≡ s.pending_forwards ++ (sig ∷ []))
            × (is_pending sig s.pending_forwards ≡ false)
            × (r.1.outbound ≡ s.outbound)
          ⊎ (r.0 ≢ some true)
            × (r.1.pending_forwards ≡ s.pending_forwards)
            × (r.1.outbound ≡ s.outbound)
        → Outcome sig s (send_reserved packet delay sig later r)
    go (some true, r) (inl (_, e, h, o)) = send_reserved-Outcome packet delay sig later s r e o h
    go (some true, r) (inr (n, _, _)) = ground (arith, n)
    go (some false, r) (inl (y, _, _, _)) = ground arith
    go (none, r) (inl (y, _, _, _)) = ground arith
    go (some false, r) (inr (n, e, o)) = inr (n, e, o)
    go (none, r) (inr (n, e, o)) = inr (n, e, o)

-- Once a packet was taken for forwarding, a packet of the same signature is refused right after
-- it, at whatever times.
pub enqueue_forward_twice :
    (packet : List ℕ) (delay : ℕ) (sig : List ℕ) (now later : ℕ) (s : AppContext) (packet' : List ℕ)
    (delay' now' later' : ℕ)
    → (enqueue_forward packet delay sig now later s).0 ≡ some true
    → (enqueue_forward packet' delay' sig now' later'
        (enqueue_forward packet delay sig now later s).1).0
      ≡ some false
enqueue_forward_twice packet delay sig now later s packet' delay' now' later' h =
    let t : AppContext = (enqueue_forward packet delay sig now later s).1 in
    elim (enqueue_forward-Outcome packet delay sig now later s) [
      | inl (_, e, _) ↦
          let waits : is_pending sig t.pending_forwards ≡ true =
            rw e (is_pending-last sig s.pending_forwards) in
          known-enqueue packet' delay' sig now' later' t (pending-known sig now' t waits)
      | inr (n, _, _) ↦ ground (arith, n h)
    ]

-- A forward that was taken and then dropped unsent leaves the signatures that wait as they were.
pub finish_forward-dropped :
    (packet : List ℕ) (delay : ℕ) (sig : List ℕ) (now later dropped : ℕ) (s : AppContext)
    → (enqueue_forward packet delay sig now later s).0 ≡ some true
    → (finish_forward
        (some sig)
        false
        dropped
        (enqueue_forward packet delay sig now later s).1).pending_forwards
      ≡ s.pending_forwards
unfolding finish_forward release_forward
finish_forward-dropped packet delay sig now later dropped s h =
    elim (enqueue_forward-Outcome packet delay sig now later s) [
      | inl (_, e, a) ↦ rw e (remove_pending-last sig s.pending_forwards a)
      | inr (n, _, _) ↦ ground (arith, n h)
    ]
