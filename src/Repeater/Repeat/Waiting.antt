-- ===== src/Repeater/Repeat/Waiting.antt =====
-- What the repeater may do between a packet that was queued and a copy of it: hear any packets,
-- finish other forwards, change the outbound queue.
use mcrs.Prelude.{
  ℕ, ◌≡◌, Bool, true, false, Option, none, some, List, [], ◌∷◌, ◌++◌, length, list_eq, list_eq_iff,
  arith, inl, inr, Bool-cases, ltb,
}
use mcrs.Prelude.Words.{ℤ}
use mcrs.Protocol.Error.{Result-cases}
use mcrs.Protocol.Header.{RouteType}
use mcrs.Protocol.Packet
use mcrs.Protocol.Packet.{Packet}
use mcrs.Repeater.Forwarding.{
  AppContext, is_pending, remove_pending, release_forward, finish_forward, enqueue_forward,
  with_outbound,
}
use mcrs.Repeater.Forwarding.Once.{Outcome, enqueue_forward-Outcome}
use mcrs.Repeater.Outbound.{SortedOutboundChannel}
use mcrs.Repeater.Rules.{
  ForwardConfig, ForwardDecision, forward, capture, do_not_forward, drop, prepare_forward,
}
use mcrs.Repeater.Repeat.{
  Repeater, DelayConfig, with_context, increment_duplicates, enqueued, queue_encoded,
  queue_repeater_packet, apply_decision, apply_repeater_rules, forward_buffer_len, delay_for,
}

abbrev pub PendingIn : List ℕ → Repeater → Type 0
PendingIn signature s = is_pending signature s.context.pending_forwards ≡ true

is_pending-append :
    (sig : List ℕ) (ps qs : List (List ℕ))
    → is_pending sig ps ≡ true
    → is_pending sig (ps ++ qs) ≡ true
unfolding is_pending
is_pending-append sig [] qs h = absurd (ground arith)
is_pending-append sig (p ∷ ps) qs h = ground (arith, is_pending-append sig ps qs)

is_pending-remove_other :
    (sig other : List ℕ) (ps : List (List ℕ))
    → list_eq other sig ≡ false
    → is_pending sig ps ≡ true
    → is_pending sig (remove_pending other ps) ≡ true
unfolding is_pending remove_pending
is_pending-remove_other sig other [] n h = h
is_pending-remove_other sig other (p ∷ ps) n h = elim (Bool-cases (list_eq p other)) [
  | inl y ↦
      let same : p ≡ other = (list_eq_iff p other).0 y in
      let no : list_eq p sig ≡ false = rw same n in ground (arith, y, no, h)
  | inr k ↦ ground (arith, k, h, is_pending-remove_other sig other ps n)
]

finish_forward-pending :
    (sig other : List ℕ) (transmitted : Bool) (now : ℕ) (s : AppContext)
    → list_eq other sig ≡ false
    → is_pending sig s.pending_forwards ≡ true
    → is_pending sig (finish_forward (some other) transmitted now s).pending_forwards ≡ true
unfolding finish_forward release_forward
finish_forward-pending sig other true now s n h =
    is_pending-remove_other sig other s.pending_forwards n h
finish_forward-pending sig other false now s n h =
    is_pending-remove_other sig other s.pending_forwards n h

increment_duplicates-context :
    (route : RouteType) (s : Repeater) → (increment_duplicates route s).context ≡ s.context
unfolding increment_duplicates
increment_duplicates-context route s = ground arith

enqueued-still :
    (sig other : List ℕ) (route : RouteType) (s : Repeater) (r : Option Bool × AppContext)
    → Outcome other s.context r
    → PendingIn sig s
    → PendingIn sig (enqueued route s r).1
unfolding enqueued
enqueued-still sig other route s (some true, t) (inl (_, e, _)) w =
    rw e (is_pending-append sig s.context.pending_forwards (other ∷ []) w)
enqueued-still sig other route s (some true, t) (inr (_, e, _)) w = rw e w
enqueued-still sig other route s (some false, t) (inl (y, _, _)) w = absurd (ground arith)
enqueued-still sig other route s (some false, t) (inr (_, e, _)) w =
    rw (increment_duplicates-context route (with_context s t), e) w
enqueued-still sig other route s (none, t) (inl (y, _, _)) w = absurd (ground arith)
enqueued-still sig other route s (none, t) (inr (_, e, _)) w = rw e w

module _ (d : DelayConfig) (node_hash : List ℕ) (now later : ℕ) (s : Repeater) (sig : List ℕ) where
  queue-still :
      (q : Packet) (other : List ℕ)
      → PendingIn sig s
      → PendingIn sig (queue_repeater_packet d q other node_hash now later s).1
  unfolding queue_repeater_packet queue_encoded
  queue-still q other w = elim (Result-cases (Packet.encode q)) [
    | inr (why, f) ↦ rw f w
    | inl (out, f) ↦ elim (Bool-cases (ltb forward_buffer_len (length out))) [
      | inl y ↦ rw (f, y) w
      | inr n ↦
          let delay : ℕ = delay_for d q.route_type other node_hash (length out) in
          rw (f, n)
            (enqueued-still sig other q.route_type s
              (enqueue_forward out delay other now later s.context)
              (enqueue_forward-Outcome out delay other now later s.context) w)
    ]
  ]

  decision-still :
      (decision : ForwardDecision)
      → PendingIn sig s
      → PendingIn sig (apply_decision d node_hash now later s decision).1
  unfolding apply_decision
  decision-still (forward q other) w = queue-still q other w
  decision-still (capture q other) w = queue-still q other w
  decision-still do_not_forward w = w
  decision-still (drop why) w = w

module _ (sha256 : List ℕ → List ℕ) (hmac : List ℕ → List ℕ → Option (List ℕ)) (sig : List ℕ) where
  -- The states that follow a state while the forward of the signature is not finished: the rules
  -- are applied to any packet under any settings, other forwards are finished, sent or not, and
  -- the outbound queue becomes any other one.
  pub data Waiting : Repeater → Repeater → Type 0 where
    at_once : (s : Repeater) → Waiting s s
    heard :
        {s t : Repeater} (c : ForwardConfig) (d : DelayConfig) (p : Packet) (snr : ℤ)
        (node_hash : List ℕ) (now later : ℕ)
        → Waiting s t
        → Waiting s (apply_repeater_rules sha256 hmac c d p snr node_hash now later t).1
    finished :
        {s t : Repeater} (other : List ℕ) (transmitted : Bool) (now : ℕ)
        → list_eq other sig ≡ false
        → Waiting s t
        → Waiting s (with_context t (finish_forward (some other) transmitted now t.context))
    queue_changed :
        {s t : Repeater} (outbound : SortedOutboundChannel)
        → Waiting s t
        → Waiting s (with_context t (with_outbound t.context outbound))

  -- A signature that waits still waits in every such state.
  pub Waiting-pending : {s t : Repeater} → Waiting s t → PendingIn sig s → PendingIn sig t
  unfolding apply_repeater_rules
  Waiting-pending (at_once s) w = w
  Waiting-pending (heard {s} {t} c d p snr node_hash now later r) w =
      decision-still d node_hash now later t sig (prepare_forward sha256 hmac c p snr node_hash)
        (Waiting-pending r w)
  Waiting-pending (finished {s} {t} other transmitted now n r) w =
      finish_forward-pending sig other transmitted now t.context n (Waiting-pending r w)
  Waiting-pending (queue_changed outbound r) w = Waiting-pending r w
