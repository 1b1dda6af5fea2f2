-- ===== src/Repeater/Rules/Flood.antt =====
-- What the rules decide for a flooded packet, and for any packet.
use mathlib.Core.Path.{subst}
use mcrs.Prelude.{
  ℕ, ◌≡◌, ◌≢◌, ◌<◌, ◌≤◌, ◌⊎◌, refl, sym, ap, ◌∙◌, Bool, true, false, not, ◌&&◌, Option, none, some,
  List, [], ◌∷◌, ◌++◌, arith, inl, inr, leb, ◌==◌, Bool-cases, Option-cases, take, if◌then◌else◌,
}
use mcrs.Prelude.Words.{ℤ}
use mcrs.Protocol.Error.{PayloadKind, ok}
use mcrs.Protocol.Header.{RouteType, is_flood, is_direct}
use mcrs.Protocol.NodePath.{NodePath, hop_count}
use mcrs.Protocol.Payload
use mcrs.Protocol.Packet.{Packet, RoutePath, normal, traced, append_flood_hop, dedup_signature}
use mcrs.Protocol.Packet.Forward.{dedup_signature-hops}
use mcrs.Repeater.LoopDetection.{detects_loop}
use mcrs.Repeater.Regions.{RegionEntry, is_wildcard, allows_flood}
use mcrs.Repeater.Regions.Scope.{apply_default_scope, match_flood_region}
use mcrs.Repeater.Regions.Matching.{
  SameBody, Outcome-cases, apply_default_scope-SameBody, match_flood_region-allows,
}
use mcrs.Repeater.Rules.{
  ForwardConfig, ForwardDecision, forward, capture, do_not_forward, drop, next, decided,
  normal_path, is_plain_flood, none_or_hops, is_advert, forwarded, captured, prepare_flood_forward,
  prepare_direct_forward, prepare_trace_forward, prepare_forward, is_unsupported,
}
use mcrs.Repeater.Rules.Decisions.{
  bind-holds, stop_if-holds, some_or-holds, ok_or_stop-holds, next-holds, not-false, DirectSpec,
  TraceSpec, prepare_direct_forward-DirectSpec, prepare_trace_forward-TraceSpec,
}

normal_path-some : (p : Packet) (path : NodePath) → normal_path p ≡ some path → p.path ≡ normal path
unfolding normal_path
normal_path-some p path e = go p.path e
  where
    go :
        (r : RoutePath)
        → (elim r [ normal path ↦ some path | traced path ↦ none ]) ≡ some path
        → r ≡ normal path
    go (normal a) e = ground arith
    go (traced t) e = absurd (ground arith)

-- A packet is sent on under the signature that it was heard with.
abbrev pub SignedAs : (List ℕ → List ℕ) → Packet → ForwardDecision → Type 0
SignedAs sha256 p (forward q signature) = dedup_signature sha256 p ≡ ok signature
SignedAs sha256 p (capture q signature) = dedup_signature sha256 p ≡ ok signature
SignedAs sha256 p _ = Unit

module _ (sha256 : List ℕ → List ℕ) (hmac : List ℕ → List ℕ → Option (List ℕ)) where
  -- A packet goes on with the body it has, or is dropped.
  captured-cases :
      (c : ForwardConfig) (p : Packet)
      → ((b : Bool) × (q : Packet) × (captured sha256 hmac c p ≡ next (b, q)) × SameBody p q)
        ⊎ ((why : mcrs.Prelude.String) × (captured sha256 hmac c p ≡ decided (drop why)))
  unfolding captured
  captured-cases c p = elim (Bool-cases (not (is_plain_flood p.route_type))) [
    | inl y ↦ inl (false, p, rw y refl, (refl, refl))
    | inr n ↦ elim (Bool-cases (not c.region_capture)) [
      | inl y ↦ inl (false, p, rw (n, y) refl, (refl, refl))
      | inr m ↦ elim (Bool-cases (none_or_hops (normal_path p))) [
        | inl y ↦ inl (false, p, rw (n, m, y) refl, (refl, refl))
        | inr k ↦ elim (Outcome-cases (apply_default_scope sha256 hmac c.regions p)) [
          | inl ((b, q), e) ↦ inl (
            b,
            q,
            rw (n, m, k, e) refl,
            apply_default_scope-SameBody sha256 hmac c.regions p q b e,
          )
          | inr (why, e) ↦ inr ("default region scope failed", rw (n, m, k, e) refl)
        ]
      ]
    ]
  ]

  -- The packet that is sent on: what its path was, and what the rules checked of it.
  pub record Flooded (c : ForwardConfig) (p : Packet) (node_hash : List ℕ) (q : Packet)
      (signature : List ℕ) : Type 0 where
    pub routed : is_flood p.route_type ≡ true
    pub was : Packet
    pub same : SameBody p was
    pub captured_or_same : (c.region_capture ≡ true) ⊎ (was ≡ p)
    pub path : NodePath
    pub on_path : p.path ≡ normal path
    pub region : RegionEntry
    pub in_region : match_flood_region sha256 hmac c.regions was ≡ some region
    pub allowed : allows_flood region ≡ true
    pub no_loop : detects_loop c.loop_detection path node_hash ≡ false
    pub advert_hops :
        (is_advert (Payload.kind p.payload) ≡ false) ⊎ (hop_count path < c.flood_max_advert_hops)
    pub unscoped_hops : (is_wildcard region ≡ false) ⊎ (hop_count path < c.flood_max_unscoped_hops)
    pub hop_added : append_flood_hop was node_hash ≡ ok q
    pub signed : dedup_signature sha256 was ≡ ok signature
    pub recognised : dedup_signature sha256 q ≡ ok signature

  abbrev pub FloodSpec : ForwardConfig → Packet → List ℕ → ForwardDecision → Type 0
  FloodSpec c p node_hash (forward q signature) = Flooded c p node_hash q signature
  FloodSpec c p node_hash (capture q signature) = Flooded c p node_hash q signature
  FloodSpec c p node_hash _ = Unit

  FloodSpec-forwarded :
      (c : ForwardConfig) (p q : Packet) (node_hash signature : List ℕ) (b : Bool)
      → Flooded c p node_hash q signature
      → FloodSpec c p node_hash (forwarded b q signature)
  FloodSpec-forwarded c p q node_hash signature true f = f
  FloodSpec-forwarded c p q node_hash signature false f = f

  early-Unit :
      (c : ForwardConfig) (p : Packet) (node_hash : List ℕ) (d : ForwardDecision)
      → captured sha256 hmac c p ≡ decided d
      → FloodSpec c p node_hash d
  early-Unit c p node_hash d e = elim (captured-cases c p) [
    | inl (b, q, f, _) ↦ absurd (ground (arith, e, f))
    | inr (why, f) ↦ let same : drop why ≡ d = ground (arith, e, f) in rw (← same) tt
  ]

  next_body :
      (c : ForwardConfig) (p q : Packet) (b : Bool)
      → captured sha256 hmac c p ≡ next (b, q)
      → SameBody p q
  next_body c p q b e = elim (captured-cases c p) [
    | inl (_, r, f, s) ↦ let same : r ≡ q = ground (arith, e, f) in subst (λ x. SameBody p x) same s
    | inr (why, f) ↦ absurd (ground (arith, e, f))
  ]

  capture_off :
      (c : ForwardConfig) (p q : Packet) (b : Bool)
      → captured sha256 hmac c p ≡ next (b, q)
      → c.region_capture ≡ false
      → q ≡ p
  unfolding captured
  capture_off c p q b e off = ground (arith, e, off)

  -- A flood is sent on only where its region allows it, no loop is detected and its hops are within
  -- the limits; it then has this node's hop, and is recorded under the signature it is sent with.
  pub prepare_flood_forward-FloodSpec :
      (c : ForwardConfig) (p : Packet) (node_hash : List ℕ)
      → FloodSpec c p node_hash (prepare_flood_forward sha256 hmac c p node_hash)
  unfolding prepare_flood_forward
  prepare_flood_forward-FloodSpec c p node_hash =
      let P : ForwardDecision → Type 0 = FloodSpec c p node_hash in
      stop_if-holds P _ _ _ tt λ routed.
        bind-holds P _ _ (early-Unit c p node_hash) λ (b, was) done.
          some_or-holds P _ _ _ tt λ region found. some_or-holds P _ _ _ tt λ path at.
            stop_if-holds P _ _ _ tt λ no_loop. stop_if-holds P _ _ _ tt λ adverts.
              stop_if-holds P _ _ _ tt λ unscoped. ok_or_stop-holds P _ _ _ tt λ signature signed.
                ok_or_stop-holds P _ _ _ tt λ q added.
                  let (path_same, payload_same) = next_body c p was b done in
                  let kinds : Payload.kind was.payload ≡ Payload.kind p.payload =
                    ap Payload.kind payload_same in
                  next-holds P (forwarded b q signature) (
                    FloodSpec-forwarded c p q node_hash signature b (record {
                      routed = not-false _ routed;
                      was = was;
                      same = (path_same, payload_same);
                      captured_or_same = elim (Bool-cases c.region_capture) [
                        | inl on ↦ inl on
                        | inr off ↦ inr (capture_off c p was b done off)
                      ];
                      path = path;
                      on_path = sym path_same ∙ normal_path-some was path at;
                      region = region;
                      in_region = found;
                      allowed = match_flood_region-allows sha256 hmac c.regions was region found;
                      no_loop = no_loop;
                      advert_hops = ground (arith, adverts, kinds);
                      unscoped_hops = ground (arith, unscoped);
                      hop_added = added;
                      signed = signed;
                      recognised = dedup_signature-hops sha256 was q node_hash (inl added) ∙ signed;
                    }))

  either :
      (P : ForwardDecision → Type 0) (flood direct : ForwardDecision) (route : RouteType)
      → P flood
      → P direct
      → P (
          if is_flood route
          then flood
          else if is_direct route
          then direct
          else drop "unknown route")
  unfolding is_flood is_direct
  either P flood direct RouteType.transport_flood f d = f
  either P flood direct RouteType.flood f d = f
  either P flood direct RouteType.direct f d = d
  either P flood direct RouteType.transport_direct f d = d

  decided_kind :
      (k : PayloadKind) (t : ForwardDecision) (e : ForwardDecision) (P : ForwardDecision → Type 0)
      → P t
      → P e
      → P (elim k [ PayloadKind.trace ↦ t | _ ↦ e ])
  decided_kind PayloadKind.trace t e P h g = h
  decided_kind _ t e P h g = g

  -- One of the three rules was applied.
  abbrev pub RuleSpec : ForwardConfig → Packet → ℤ → List ℕ → ForwardDecision → Type 0
  RuleSpec c p snr node_hash d =
      FloodSpec c p node_hash d
      ⊎ (DirectSpec sha256 p node_hash d ⊎ TraceSpec sha256 p snr node_hash d)

  abbrev pub ForwardSpec : ForwardConfig → Packet → ℤ → List ℕ → ForwardDecision → Type 0
  ForwardSpec c p snr node_hash do_not_forward = Unit
  ForwardSpec c p snr node_hash (drop why) = Unit
  ForwardSpec c p snr node_hash d =
      (c.repeat_enabled ≡ true)
      × (is_unsupported (Payload.kind p.payload) ≡ false)
      × RuleSpec c p snr node_hash d

  by_rule :
      (c : ForwardConfig) (p : Packet) (snr : ℤ) (node_hash : List ℕ) (d : ForwardDecision)
      → c.repeat_enabled ≡ true
      → is_unsupported (Payload.kind p.payload) ≡ false
      → RuleSpec c p snr node_hash d
      → ForwardSpec c p snr node_hash d
  by_rule c p snr node_hash (forward q s) on kind h = (on, kind, h)
  by_rule c p snr node_hash (capture q s) on kind h = (on, kind, h)
  by_rule c p snr node_hash do_not_forward on kind h = tt
  by_rule c p snr node_hash (drop why) on kind h = tt

  -- A packet is sent on only by a repeater that is enabled and for a kind that is supported. A
  -- flood is sent on only where its region allows floods, no loop is detected and its hops are
  -- within the limits, and it then has this node's hop; a direct packet only by the node that
  -- comes first on its path, without that hop; a trace only by the node whose turn it is, with its
  -- signal added. Each goes on under the signature of the packet, for a flood after it was
  -- captured.
  pub prepare_forward-ForwardSpec :
      (c : ForwardConfig) (p : Packet) (snr : ℤ) (node_hash : List ℕ)
      → ForwardSpec c p snr node_hash (prepare_forward sha256 hmac c p snr node_hash)
  unfolding prepare_forward
  prepare_forward-ForwardSpec c p snr node_hash =
      let P : ForwardDecision → Type 0 = ForwardSpec c p snr node_hash in
      let flood : ForwardDecision = prepare_flood_forward sha256 hmac c p node_hash in
      let direct : ForwardDecision = prepare_direct_forward sha256 p node_hash in
      let trace : ForwardDecision = prepare_trace_forward sha256 p snr node_hash in
      let other : ForwardDecision =
        if is_flood p.route_type
        then flood
        else if is_direct p.route_type
        then direct
        else drop "unknown route" in
      stop_if-holds P _ _ _ tt λ disabled. stop_if-holds P _ _ _ tt λ kind.
        let on : c.repeat_enabled ≡ true = not-false _ disabled in
        let traces : P trace =
          by_rule c p snr node_hash trace on kind
            (inr (inr (prepare_trace_forward-TraceSpec sha256 p snr node_hash))) in
        let floods : P flood =
          by_rule c p snr node_hash flood on kind
            (inl (prepare_flood_forward-FloodSpec c p node_hash)) in
        let directs : P direct =
          by_rule c p snr node_hash direct on kind
            (inr (inl (prepare_direct_forward-DirectSpec sha256 p node_hash))) in
        let others : P other = either P flood direct p.route_type floods directs in
        next-holds P _ (decided_kind (Payload.kind p.payload) trace other P traces others)

  -- Where packets are not captured into a region, a packet that is sent on is recorded under the
  -- signature of the packet as it was heard.
  pub prepare_forward-SignedAs :
      (c : ForwardConfig) (p : Packet) (snr : ℤ) (node_hash : List ℕ)
      → c.region_capture ≡ false
      → SignedAs sha256 p (prepare_forward sha256 hmac c p snr node_hash)
  prepare_forward-SignedAs c p snr node_hash off =
      go (prepare_forward sha256 hmac c p snr node_hash)
        (prepare_forward-ForwardSpec c p snr node_hash)
    where
      flooded :
          (q : Packet) (s : List ℕ) → Flooded c p node_hash q s → dedup_signature sha256 p ≡ ok s
      flooded q s f = elim f.captured_or_same [
        | inl on ↦ absurd (ground (arith, on, off))
        | inr same ↦ subst (λ x. dedup_signature sha256 x ≡ ok s) same f.signed
      ]

      go : (d : ForwardDecision) → ForwardSpec c p snr node_hash d → SignedAs sha256 p d
      go (forward q s) (on, kind, inl f) = flooded q s f
      go (forward q s) (on, kind, inr (inl (a, b, signed, e))) = signed
      go (forward q s) (on, kind, inr (inr (a, b, d, e, signed))) = signed
      go (capture q s) (on, kind, inl f) = flooded q s f
      go (capture q s) (on, kind, inr (inl h)) = absurd h
      go (capture q s) (on, kind, inr (inr h)) = absurd h
      go do_not_forward h = tt
      go (drop why) h = tt
