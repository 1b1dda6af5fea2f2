-- ===== src/Protocol/Packet/Traces.antt =====
-- A trace against the list of the hashes that it asks for.
use mcrs.Protocol.Packet.Encode.{drop-drop}
use mcrs.Prelude.{
  take-append_length, le→leb, ℕ, zero, suc, ◌+◌, ◌*◌, ◌≤◌, ◌≡◌, sym, ap, ◌∙◌, true, false, some,
  List, [], ◌∷◌, ◌++◌, drop-append_length, length, take, drop, ltb, leb, arith, length-append,
  get_elem?,
}
use mcrs.Protocol.Error.{ok}
use mcrs.Protocol.TracePath.{TracePath}
use mcrs.Protocol.Payload.{Payload}
use mcrs.Protocol.Packet.{traced, Packet}
use mcrs.Protocol.NodePath.Chunks.{concat, OfSize, length-concat}
use mcrs.Protocol.NodePath.{hash_matches}
use mcrs.Protocol.HashSize.{trace_size, trace_size_bounds}
use mcrs.Protocol.Payload.Trace.{TracePayload}
use mcrs.Protocol.Packet.{
  on_trace_path, on_trace_payload, trace_next_hop_matches, trace_is_complete,
}

drop-concat :
    (n i : ℕ) (hs : List (List ℕ)) (hash : List ℕ)
    → OfSize n hs
    → get_elem? hs i ≡ some hash
    → (length hash ≡ n)
      × (take n (drop (i * n) (concat hs)) ≡ hash)
      × (i * n + n ≤ length (concat hs))
drop-concat n i [] hash o e = cc
drop-concat n zero (h ∷ hs) hash o e =
    let same : h ≡ hash = ground arith in
    let front : take n (h ++ concat hs) ≡ h = rw (← o.0) (take-append_length h (concat hs)) in
    let none_before : 0 * n ≡ 0 = omega arith in
    (
      ap length (sym same) ∙ o.0,
      rw none_before (front ∙ same),
      omega (arith, length-append h (concat hs), o.0),
    )
drop-concat n (suc i) (h ∷ hs) hash o e =
    let (size_ok, there, enough) = drop-concat n i hs hash o.1 e in
    let step : suc i * n ≡ length h + i * n = omega (arith, o.0) in
    (
      size_ok,
      rw (step, ← drop-drop (length h) (i * n) (h ++ concat hs), drop-append_length h (concat hs))
          there,
      omega (arith, length-append h (concat hs), o.0, enough, step),
    )

-- While a packet with a trace payload and a trace path has hops left, the next hop matches a node
-- exactly when the hash at the number of consumed hops does, and the trace is not complete.
pub trace_next_hop :
    (p : Packet) (path : TracePath) (payload : TracePayload) (hs : List (List ℕ))
    (hash node_hash : List ℕ)
    → p.path ≡ traced path
    → p.payload ≡ Payload.trace payload
    → OfSize (trace_size payload.hash_size) hs
    → concat hs ≡ payload.path_hashes
    → get_elem? hs path.consumed_hops ≡ some hash
    → (trace_next_hop_matches p node_hash ≡ ok (hash_matches hash node_hash))
      × (trace_is_complete p ≡ ok false)
unfolding trace_next_hop_matches trace_is_complete on_trace_path on_trace_payload hash_matches
trace_next_hop p path payload hs hash node_hash e f o c at =
    let n : ℕ = trace_size payload.hash_size in
    let (count, there, enough) = drop-concat n path.consumed_hops hs hash o at in
    let some_left : 1 ≤ n = (trace_size_bounds payload.hash_size).0 in
    let room : path.consumed_hops * n + n ≤ length payload.path_hashes = rw c at enough in
    let here : take n (drop (path.consumed_hops * n) payload.path_hashes) ≡ hash = rw c at there in
    let not_past : leb (length payload.path_hashes) (path.consumed_hops * n) ≡ false =
      ground arith in
    let not_cut : ltb (length payload.path_hashes) (path.consumed_hops * n + n) ≡ false =
      ground arith in
    (
      rw (e, on_trace_path) (rw (f, on_trace_payload) (rw (not_past, not_cut, here, count))),
      rw (e, on_trace_path) (rw (f, on_trace_payload) (rw not_past)),
    )

-- When all hops of a packet with a trace payload and a trace path are consumed, no node matches
-- and the trace is complete.
pub trace_end :
    (p : Packet) (path : TracePath) (payload : TracePayload) (hs : List (List ℕ))
    (node_hash : List ℕ)
    → p.path ≡ traced path
    → p.payload ≡ Payload.trace payload
    → OfSize (trace_size payload.hash_size) hs
    → concat hs ≡ payload.path_hashes
    → length hs ≤ path.consumed_hops
    → (trace_next_hop_matches p node_hash ≡ ok false) × (trace_is_complete p ≡ ok true)
unfolding trace_next_hop_matches trace_is_complete on_trace_path on_trace_payload
trace_end p path payload hs node_hash e f o c done =
    let n : ℕ = trace_size payload.hash_size in
    let far : length payload.path_hashes ≤ path.consumed_hops * n =
      rw (← c, length-concat n hs o) (grind arith) in
    let past : leb (length payload.path_hashes) (path.consumed_hops * n) ≡ true = le→leb _ _ far in
    (
      rw (e, on_trace_path) (rw (f, on_trace_payload) (rw past)),
      rw (e, on_trace_path) (rw (f, on_trace_payload) (rw past)),
    )
