-- ===== src/Repeater/Rules/Decisions.antt =====
-- How a property of decisions is shown for a computation that may return early, and what the rules
-- decide for direct packets and traces.
use mcrs.Prelude.{ℕ, ◌≡◌, refl, ◌∙◌, Bool, true, false, not, Option, none, some, List, arith, inr}
use mcrs.Prelude.Words.{ℤ}
use mcrs.Protocol.Error.{Result, ok, err}
use mcrs.Protocol.Header.{is_direct}
use mcrs.Protocol.Packet.{
  Packet, consume_direct_hop, append_trace_snr, trace_is_complete, trace_next_hop_matches,
  dedup_signature,
}
use mcrs.Protocol.Packet.Forward.{dedup_signature-hops}
use mcrs.Repeater.Rules.{
  ForwardDecision, forward, capture, Early, next, decided, ◌>>=◌, ◌>>◌, stop_if, some_or,
  ok_or_stop, finish, is_plain_direct, clamp_i8, prepare_direct_forward, prepare_trace_forward,
}

module _ {κ} (P : ForwardDecision → Type κ) where
  pub bind-holds {ℓ} :
      {A : Type ℓ} (m : Early A) (rest : A → Early ForwardDecision)
      → ((d : ForwardDecision) → m ≡ decided d → P d)
      → ((a : A) → m ≡ next a → P (finish (rest a)))
      → P (finish (m >>= rest))
  unfolding finish ◌>>=◌
  bind-holds (next a) rest early on = on a refl
  bind-holds (decided d) rest early on = early d refl

  pub stop_if-holds :
      (b : Bool) (d : ForwardDecision) (rest : Early ForwardDecision)
      → P d
      → (b ≡ false → P (finish rest))
      → P (finish (stop_if b d >> rest))
  unfolding finish ◌>>=◌ ◌>>◌ stop_if
  stop_if-holds true d rest early on = early
  stop_if-holds false d rest early on = on refl

  pub some_or-holds {ℓ} :
      {A : Type ℓ} (o : Option A) (d : ForwardDecision) (rest : A → Early ForwardDecision)
      → P d
      → ((a : A) → o ≡ some a → P (finish (rest a)))
      → P (finish (some_or o d >>= rest))
  unfolding finish ◌>>=◌ some_or
  some_or-holds none d rest early on = early
  some_or-holds (some a) d rest early on = on a refl

  pub ok_or_stop-holds {ℓ} :
      {A : Type ℓ} (r : Result A) (d : ForwardDecision) (rest : A → Early ForwardDecision)
      → P d
      → ((a : A) → r ≡ ok a → P (finish (rest a)))
      → P (finish (ok_or_stop r d >>= rest))
  unfolding finish ◌>>=◌ ok_or_stop
  ok_or_stop-holds (err e) d rest early on = early
  ok_or_stop-holds (ok a) d rest early on = on a refl

  pub next-holds : (d : ForwardDecision) → P d → P (finish (next d))
  unfolding finish
  next-holds d h = h

-- What a decision on a direct packet says: the packet is sent on only by the node whose hash comes
-- first on its path, without that hop, under the signature that it came with.
abbrev pub DirectSpec : (List ℕ → List ℕ) → Packet → List ℕ → ForwardDecision → Type 0
DirectSpec sha256 p node_hash (forward q signature) =
    (is_direct p.route_type ≡ true)
    × (consume_direct_hop p node_hash ≡ ok (true, q))
    × (dedup_signature sha256 p ≡ ok signature)
    × (dedup_signature sha256 q ≡ ok signature)
DirectSpec sha256 p node_hash (capture q signature) = ⊥
DirectSpec sha256 p node_hash _ = Unit

pub not-false : (b : Bool) → not b ≡ false → b ≡ true
not-false b h = ground arith

pub prepare_direct_forward-DirectSpec :
    (sha256 : List ℕ → List ℕ) (p : Packet) (node_hash : List ℕ)
    → DirectSpec sha256 p node_hash (prepare_direct_forward sha256 p node_hash)
unfolding prepare_direct_forward
prepare_direct_forward-DirectSpec sha256 p node_hash =
    let P : ForwardDecision → Type 0 = DirectSpec sha256 p node_hash in
    stop_if-holds P _ _ _ tt λ routed. some_or-holds P _ _ _ tt λ path at.
      stop_if-holds P _ _ _ tt λ hops. ok_or_stop-holds P _ _ _ tt λ signature signed.
        ok_or_stop-holds P _ _ _ tt λ (mine, q) taken. stop_if-holds P _ _ _ tt λ own.
          let same : mine ≡ true = not-false mine own in
          let took : consume_direct_hop p node_hash ≡ ok (true, q) = rw⁻¹ same taken in
          next-holds P (forward q signature) (
            not-false _ routed,
            took,
            signed,
            dedup_signature-hops sha256 p q node_hash (inr (true, took)) ∙ signed,
          )

-- What a decision on a trace says: it is sent on, on a direct route, by the node whose hash is the
-- next one of its payload, with one more sample, under the signature that it came with.
abbrev pub TraceSpec : (List ℕ → List ℕ) → Packet → ℤ → List ℕ → ForwardDecision → Type 0
TraceSpec sha256 p snr node_hash (forward q signature) =
    (is_plain_direct p.route_type ≡ true)
    × (trace_is_complete p ≡ ok false)
    × (trace_next_hop_matches p node_hash ≡ ok true)
    × (append_trace_snr p (clamp_i8 snr) ≡ ok q)
    × (dedup_signature sha256 p ≡ ok signature)
TraceSpec sha256 p snr node_hash (capture q signature) = ⊥
TraceSpec sha256 p snr node_hash _ = Unit

pub prepare_trace_forward-TraceSpec :
    (sha256 : List ℕ → List ℕ) (p : Packet) (snr : ℤ) (node_hash : List ℕ)
    → TraceSpec sha256 p snr node_hash (prepare_trace_forward sha256 p snr node_hash)
unfolding prepare_trace_forward
prepare_trace_forward-TraceSpec sha256 p snr node_hash =
    let P : ForwardDecision → Type 0 = TraceSpec sha256 p snr node_hash in
    stop_if-holds P _ _ _ tt λ routed. stop_if-holds P _ _ _ tt λ path.
      ok_or_stop-holds P _ _ _ tt λ complete at. stop_if-holds P _ _ _ tt λ unfinished.
        ok_or_stop-holds P _ _ _ tt λ mine next_hop. stop_if-holds P _ _ _ tt λ own.
          ok_or_stop-holds P _ _ _ tt λ signature signed. ok_or_stop-holds P _ _ _ tt λ q added.
            let here : trace_next_hop_matches p node_hash ≡ ok true =
              rw⁻¹ (not-false mine own) next_hop in
            let open_end : trace_is_complete p ≡ ok false = rw⁻¹ unfinished at in
            next-holds P (forward q signature) (not-false _ routed, open_end, here, added, signed)
