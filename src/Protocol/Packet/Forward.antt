-- ===== src/Protocol/Packet/Forward.antt =====
-- What a repeater does to the path of a packet that it forwards.
use mathlib.Core.Path.{subst}
use mcrs.Prelude.{
  ℕ, ◌≡◌, ◌⊎◌, refl, sym, ap, Bool, true, false, List, [], ◌∷◌, ◌++◌, take, arith, inl, inr,
  Bool-cases,
}
use mcrs.Protocol.Error.{ok, err, ◌>>=◌, >>=-elim}
use mcrs.Protocol.Error.{path_kind_mismatch}
use mcrs.Protocol.Header.{is_trace}
use mcrs.Protocol.TracePath.{TracePath}
use mcrs.Protocol.NodePath
use mcrs.Protocol.NodePath.{NodePath}
use mcrs.Protocol.Payload.{kind}
use mcrs.Protocol.Packet.{RoutePath, normal, traced, Packet, check_codes}
use mcrs.Protocol.NodePath.Hops
use mcrs.Protocol.NodePath.FromHashes
use mcrs.Protocol.NodePath.{hash_matches, hashes}
use mcrs.Protocol.HashSize.{size}
use mcrs.Protocol.Packet.{
  on_normal_path, append_flood_hop, consume_direct_hop, signature_path, dedup_signature,
}

-- When a flood hop is appended to a packet on a valid path, the path gains the prefix of the
-- node's hash as its last hop, stays valid, and nothing else of the packet changes.
pub append_flood_hop-hashes :
    (p q : Packet) (path : NodePath) (node_hash : List ℕ)
    → p.path ≡ normal path
    → Hops.IsValid path
    → append_flood_hop p node_hash ≡ ok q
    → (path' : NodePath) × (q ≡ record p { path = normal path' })
      × Hops.IsValid path'
      × (hashes path' ≡ hashes path ++ take (size path.hash_size) node_hash ∷ [])
unfolding append_flood_hop on_normal_path
append_flood_hop-hashes p q path h e v f =
    let g : (do path' ← NodePath.append_hash path h; ok (record p { path = normal path' })) ≡ ok q =
      rw (e, on_normal_path) at f in
    >>=-elim (NodePath.append_hash path h) _ g λ path' done e'.
      let (v', s, hs) = Hops.append_hash-hashes path path' h v done in (path', ground arith, v', hs)

-- On a valid path with a first hop, a node whose hash matches it takes that hop off and answers
-- yes; any other node leaves the packet and answers no.
pub consume_direct_hop-hashes :
    (p : Packet) (path : NodePath) (hop : List ℕ) (rest : List (List ℕ)) (node_hash : List ℕ)
    → p.path ≡ normal path
    → Hops.IsValid path
    → hashes path ≡ hop ∷ rest
    → (hash_matches hop node_hash ≡ true
        → (path' : NodePath) × (consume_direct_hop p node_hash
            ≡ ok (true, record p { path = normal path' }))
          × Hops.IsValid path'
          × (hashes path' ≡ rest))
      × (hash_matches hop node_hash ≡ false → consume_direct_hop p node_hash ≡ ok (false, p))
unfolding consume_direct_hop on_normal_path
consume_direct_hop-hashes p path hop rest h e v hs =
    let first : NodePath.first_hash_matches path h ≡ hash_matches hop h =
      FromHashes.first_hash_matches-hashes path hop rest h hs in
    let (removed, left, v', _) = Hops.remove_first_hash-hashes path hop rest v hs in
    (
      (λ yes_match. (
        (NodePath.remove_first_hash path).1,
        rw (e, on_normal_path) (rw (first, yes_match)),
        v',
        left,
      )),
      λ no_match. rw (e, on_normal_path) (rw (first, no_match)),
    )

signature_normal :
    (r : RoutePath) (path path' : NodePath) (t : Bool)
    → normal path ≡ r
    → signature_path (normal path') t ≡ signature_path r t
signature_normal r path path' t e =
    subst (λ x. signature_path (normal path') t ≡ signature_path x t) e (either t)
  where
    either : (t : Bool) → signature_path (normal path') t ≡ signature_path (normal path) t
    either true = unfold signature_path in refl
    either false = unfold signature_path in refl

-- A change of the hops replaces one path by another.
abbrev Rerouted : Packet → Packet → Type 0
Rerouted p q =
    (a : NodePath) × (b : NodePath) × (p.path ≡ normal a) × (q ≡ record p { path = normal b })

RoutePath-cases :
    (r : RoutePath) → ((a : NodePath) × (r ≡ normal a)) ⊎ ((t : TracePath) × (r ≡ traced t))
RoutePath-cases (normal a) = inl (a, refl)
RoutePath-cases (traced t) = inr (t, refl)

append_shape : (p q : Packet) (h : List ℕ) → append_flood_hop p h ≡ ok q → Rerouted p q
unfolding append_flood_hop on_normal_path
append_shape p q h e = elim (RoutePath-cases p.path) [
  | inl (a, r) ↦
      let g : (NodePath.append_hash a h >>= λ b. ok (record p { path = normal b })) ≡ ok q =
        rw (r, on_normal_path) at e in
      >>=-elim (NodePath.append_hash a h) _ g λ b done e'. (a, b, r, ground arith)
  | inr (t, r) ↦
      let g : err path_kind_mismatch ≡ ok q = rw (r, on_normal_path) at e in absurd (ground arith)
]

consume_shape :
    (p q : Packet) (h : List ℕ) (taken : Bool)
    → consume_direct_hop p h ≡ ok (taken, q)
    → (q ≡ p) ⊎ Rerouted p q
unfolding consume_direct_hop on_normal_path
consume_shape p q h taken e = elim (RoutePath-cases p.path) [
  | inl (a, r) ↦ elim (Bool-cases (NodePath.first_hash_matches a h)) [
    | inl hit ↦ inr (a, (NodePath.remove_first_hash a).1, r, ground (arith, hit, r))
    | inr miss ↦ inl (ground (arith, miss, r))
  ]
  | inr (t, r) ↦ absurd (ground (arith, r))
]

-- The signature by which copies of a packet are recognised.
module _ (sha256 : List ℕ → List ℕ) where
  same_signature :
      (p : Packet) (path path' : NodePath)
      → p.path ≡ normal path
      → dedup_signature sha256 (record p { path = normal path' }) ≡ dedup_signature sha256 p
  unfolding dedup_signature check_codes
  same_signature p path path' e =
      rw (signature_normal p.path path path' (is_trace (kind p.payload)) (sym e))

  -- The hops that repeaters add or remove leave the signature of a packet as it was, for any
  -- digest.
  pub dedup_signature-hops :
      (p q : Packet) (node_hash : List ℕ)
      → (append_flood_hop p node_hash ≡ ok q)
        ⊎ ((taken : Bool) × (consume_direct_hop p node_hash ≡ ok (taken, q)))
      → dedup_signature sha256 q ≡ dedup_signature sha256 p
  dedup_signature-hops p q h (inl e) =
      let (a, b, was, now) = append_shape p q h e in
      subst (λ x. dedup_signature sha256 x ≡ dedup_signature sha256 p) (sym now)
        (same_signature p a b was)
  dedup_signature-hops p q h (inr (taken, e)) = elim (consume_shape p q h taken e) [
    | inl unchanged ↦ ap (dedup_signature sha256) unchanged
    | inr (a, b, was, now) ↦
        subst (λ x. dedup_signature sha256 x ≡ dedup_signature sha256 p) (sym now)
          (same_signature p a b was)
  ]
