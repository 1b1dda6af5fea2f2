-- ===== src/Repeater/Repeat/Copies.antt =====
-- A copy of a packet that waits to be sent is not queued again.
use mathlib.Core.Path.{subst}
use mcrs.Prelude.{
  ℕ, ◌≡◌, ◌≢◌, refl, Bool, true, false, Option, none, some, List, length, arith, inl, inr,
  Bool-cases, ltb,
}
use mcrs.Prelude.Words.{ℤ}
use mcrs.Protocol.Error.{ok, Result-cases}
use mcrs.Protocol.Packet
use mcrs.Protocol.Packet.{Packet, dedup_signature}
use mcrs.Repeater.Forwarding.{AppContext, enqueue_forward}
use mcrs.Repeater.Forwarding.Once.{Outcome, enqueue_forward-Outcome, is_pending-last}
use mcrs.Repeater.Repeat.Waiting.{PendingIn, Waiting, Waiting-pending}
use mcrs.Repeater.Rules.{
  ForwardConfig, ForwardDecision, forward, capture, do_not_forward, drop, prepare_forward,
}
use mcrs.Repeater.Rules.Flood.{SignedAs, prepare_forward-SignedAs}
use mcrs.Repeater.Repeat.{
  Repeater, DelayConfig, Repeated, queued, increment_duplicates, enqueued, queue_encoded,
  queue_repeater_packet, apply_decision, apply_repeater_rules, forward_buffer_len, delay_for,
}

-- A result that queued nothing.
abbrev pub NotQueued : Repeater → Repeated × Repeater → Type 0
NotQueued s (result, after) = (result ≢ queued) × (after.context.outbound ≡ s.context.outbound)

-- What `enqueued` says with the answer of `enqueue_forward` at hand.
enqueued-pending :
    (route : mcrs.Protocol.Header.RouteType) (s : Repeater) (sig : List ℕ)
    (r : Option Bool × AppContext)
    → Outcome sig s.context r
    → (enqueued route s r).0 ≡ queued
    → PendingIn sig (enqueued route s r).1
unfolding enqueued
enqueued-pending route s sig (some true, t) (inl (_, e, _)) q =
    rw e (is_pending-last sig s.context.pending_forwards)
enqueued-pending route s sig (some true, t) (inr (n, _, _)) q = absurd (n refl)
enqueued-pending route s sig (some false, t) h q = absurd (ground arith)
enqueued-pending route s sig (none, t) h q = absurd (ground arith)

enqueued-known :
    (route : mcrs.Protocol.Header.RouteType) (s : Repeater) (sig : List ℕ)
    (r : Option Bool × AppContext)
    → Outcome sig s.context r
    → PendingIn sig s
    → NotQueued s (enqueued route s r)
unfolding enqueued increment_duplicates
enqueued-known route s sig r (inl (_, _, absent)) w = absurd (ground (arith, absent, w))
enqueued-known route s sig (some true, t) (inr (n, _, _)) w = absurd (n refl)
enqueued-known route s sig (some false, t) (inr (_, _, o)) w = ground (arith, o)
enqueued-known route s sig (none, t) (inr (_, _, o)) w = (λ x. ground arith, o)

module _ (d : DelayConfig) (node_hash : List ℕ) (now later : ℕ) (s : Repeater) where
  queue-pending :
      (q : Packet) (sig : List ℕ)
      → (queue_repeater_packet d q sig node_hash now later s).0 ≡ queued
      → PendingIn sig (queue_repeater_packet d q sig node_hash now later s).1
  unfolding queue_repeater_packet queue_encoded
  queue-pending q sig e = elim (Result-cases (Packet.encode q)) [
    | inr (why, f) ↦ absurd (ground (arith, f))
    | inl (out, f) ↦ elim (Bool-cases (ltb forward_buffer_len (length out))) [
      | inl y ↦ absurd (ground (arith, f, y))
      | inr n ↦
          let delay : ℕ = delay_for d q.route_type sig node_hash (length out) in
          let r : Option Bool × AppContext = enqueue_forward out delay sig now later s.context in
          rw (f, n)
            (enqueued-pending q.route_type s sig r
              (enqueue_forward-Outcome out delay sig now later s.context) (rw (f, n) at e))
    ]
  ]

  queue-known :
      (q : Packet) (sig : List ℕ)
      → PendingIn sig s
      → NotQueued s (queue_repeater_packet d q sig node_hash now later s)
  unfolding queue_repeater_packet queue_encoded
  queue-known q sig w = elim (Result-cases (Packet.encode q)) [
    | inr (why, f) ↦ rw f (λ x. ground arith, refl)
    | inl (out, f) ↦ elim (Bool-cases (ltb forward_buffer_len (length out))) [
      | inl y ↦ rw (f, y) (λ x. ground arith, refl)
      | inr n ↦
          let delay : ℕ = delay_for d q.route_type sig node_hash (length out) in
          let r : Option Bool × AppContext = enqueue_forward out delay sig now later s.context in
          rw (f, n)
            (enqueued-known q.route_type s sig r
              (enqueue_forward-Outcome out delay sig now later s.context) w)
    ]
  ]

  module _ (sha256 : List ℕ → List ℕ) (p : Packet) where
    decision-pending :
        (decision : ForwardDecision)
        → SignedAs sha256 p decision
        → (apply_decision d node_hash now later s decision).0 ≡ queued
        → (sig : List ℕ) × (dedup_signature sha256 p ≡ ok sig)
          × PendingIn sig (apply_decision d node_hash now later s decision).1
    unfolding apply_decision
    decision-pending (forward q sig) h e = (sig, h, queue-pending q sig e)
    decision-pending (capture q sig) h e = (sig, h, queue-pending q sig e)
    decision-pending do_not_forward h e = absurd (ground arith)
    decision-pending (drop why) h e = absurd (ground arith)

    decision-known :
        (decision : ForwardDecision) (sig : List ℕ)
        → SignedAs sha256 p decision
        → dedup_signature sha256 p ≡ ok sig
        → PendingIn sig s
        → NotQueued s (apply_decision d node_hash now later s decision)
    unfolding apply_decision
    decision-known (forward q t) sig h e w =
        let same : sig ≡ t = ground (arith, h, e) in
        queue-known q t (subst (λ x. PendingIn x s) same w)
    decision-known (capture q t) sig h e w =
        let same : sig ≡ t = ground (arith, h, e) in
        queue-known q t (subst (λ x. PendingIn x s) same w)
    decision-known do_not_forward sig h e w = (λ x. ground arith, refl)
    decision-known (drop why) sig h e w = (λ x. ground arith, refl)

-- Where packets are not captured into a region: once the rules queued a packet, they do not queue
-- another of the same signature, such as a copy that came another way, and leave the outbound
-- queue as it was, as long as no forward of that signature is finished, neither as sent nor as
-- given up; in between, the rules may be applied to any packets under any settings, forwards of
-- other signatures may be finished, and the outbound queue may become any other one.
pub apply_repeater_rules_copy :
    (sha256 : List ℕ → List ℕ) (hmac : List ℕ → List ℕ → Option (List ℕ)) (c : ForwardConfig)
    (d : DelayConfig) (p copy : Packet) (snr snr' : ℤ) (node_hash sig : List ℕ)
    (now later now' later' : ℕ) (s t : Repeater)
    → c.region_capture ≡ false
    → dedup_signature sha256 p ≡ ok sig
    → dedup_signature sha256 copy ≡ ok sig
    → (apply_repeater_rules sha256 hmac c d p snr node_hash now later s).0 ≡ queued
    → Waiting sha256 hmac sig (apply_repeater_rules sha256 hmac c d p snr node_hash now later s).1 t
    → NotQueued t (apply_repeater_rules sha256 hmac c d copy snr' node_hash now' later' t)
unfolding apply_repeater_rules
apply_repeater_rules_copy sha256 hmac c d p copy snr snr' node_hash sig now later now' later' s t
      off signed signed' e between =
    let first : ForwardDecision = prepare_forward sha256 hmac c p snr node_hash in
    let second : ForwardDecision = prepare_forward sha256 hmac c copy snr' node_hash in
    let (found, is_found, w) =
      decision-pending d node_hash now later s sha256 p first
        (prepare_forward-SignedAs sha256 hmac c p snr node_hash off) e in
    let same : found ≡ sig = ground (arith, is_found, signed) in
    let waits : PendingIn sig (apply_decision d node_hash now later s first).1 =
      subst (λ x. PendingIn x (apply_decision d node_hash now later s first).1) same w in
    decision-known d node_hash now' later' t sha256 copy second sig
      (prepare_forward-SignedAs sha256 hmac c copy snr' node_hash off) signed'
      (Waiting-pending sha256 hmac sig between waits)
