-- ===== src/Repeater/Regions/Matching.antt =====
-- What scoping a packet keeps, and what region a packet is found to belong to.
use mcrs.Prelude.{
  ℕ, ◌≡◌, ◌⊎◌, refl, bit_and, Bool, true, false, Option, none, some, Option-cases, List, [], ◌∷◌,
  ◌++◌, ◌!=◌, ◌==◌, arith, inl, inr, Bool-cases, All,
}
use mcrs.Protocol.Header.{RouteType}
use mcrs.Protocol.TransportCodes
use mcrs.Protocol.TransportCodes.{TransportCodes}
use mcrs.Protocol.Packet.{Packet}
use mcrs.Repeater.Regions.{
  RegionEntry, RegionMap, Outcome, done, failed, ◌>>=◌, allows_flood, is_wildcard, wildcard,
  default_region, region_deny_flood,
}
use mcrs.Repeater.Regions.Scope.{
  ok?, with_scope, transport_code_for, match_entries, match_codes, match_transport_region,
  match_route, match_flood_region, apply_scope, apply_default_scope,
}

pub Outcome-cases {ℓ} :
    {A : Type ℓ} (r : Outcome A)
    → ((a : A) × (r ≡ done a)) ⊎ ((e : mcrs.Repeater.Regions.RegionError) × (r ≡ failed e))
Outcome-cases (done a) = inl (a, refl)
Outcome-cases (failed e) = inr (e, refl)

-- Only the route and the transport codes of a packet differ.
abbrev pub SameBody : Packet → Packet → Type 0
SameBody p q = (q.path ≡ p.path) × (q.payload ≡ p.payload)

module _ (sha256 : List ℕ → List ℕ) (hmac : List ℕ → List ℕ → Option (List ℕ)) where
  pub apply_scope-SameBody :
      (p q : Packet) (region : RegionEntry)
      → apply_scope sha256 hmac p region ≡ done q
      → SameBody p q
  unfolding apply_scope
  apply_scope-SameBody p q region e = elim (Bool-cases (is_wildcard region)) [
    | inl y ↦
        let same : with_scope p RouteType.flood none ≡ q = ground (arith, y) in
        rw (← same) (refl, refl)
    | inr n ↦ elim (Outcome-cases (transport_code_for sha256 hmac region p)) [
      | inl (code, f) ↦
          let same : with_scope p RouteType.transport_flood (some (TransportCodes.new code)) ≡ q =
            ground (arith, n, f) in
          rw (← same) (refl, refl)
      | inr (why, f) ↦ absurd (ground (arith, n, f))
    ]
  ]

  pub apply_default_scope-SameBody :
      (m : RegionMap) (p q : Packet) (b : Bool)
      → apply_default_scope sha256 hmac m p ≡ done (b, q)
      → SameBody p q
  unfolding apply_default_scope
  apply_default_scope-SameBody m p q b e = elim (Option-cases (default_region m)) [
    | inl n ↦ let same : p ≡ q = ground (arith, n) in rw (← same) (refl, refl)
    | inr (region, y) ↦ elim (Outcome-cases (apply_scope sha256 hmac p region)) [
      | inl (r, f) ↦
          let same : r ≡ q = ground (arith, y, f) in apply_scope-SameBody p q region (rw same at f)
      | inr (why, f) ↦ absurd (ground (arith, y, f))
    ]
  ]

  match_entries-allows :
      (p : Packet) (primary : ℕ) (entries : List RegionEntry) (region : RegionEntry)
      → match_entries sha256 hmac p primary entries ≡ some region
      → allows_flood region ≡ true
  unfolding match_entries allows_flood
  match_entries-allows p primary [] region e = absurd (ground arith)
  match_entries-allows p primary (x ∷ xs) region e =
      elim (Bool-cases (bit_and x.flags region_deny_flood != 0)) [
        | inl y ↦ match_entries-allows p primary xs region (rw y at e)
        | inr n ↦ elim (Option-cases (ok? (transport_code_for sha256 hmac x p))) [
          | inl none_left ↦ absurd (ground (arith, n, none_left))
          | inr (code, y) ↦ elim (Bool-cases (code == primary)) [
            | inl hit ↦
                let same : x ≡ region = ground (arith, n, y, hit) in
                let free : bit_and x.flags region_deny_flood ≡ 0 = ground (arith, n) in
                rw (← same, free) refl
            | inr miss ↦ match_entries-allows p primary xs region (rw (n, y, miss) at e)
          ]
        ]
      ]

  -- A region that a flood is found to belong to allows floods.
  pub match_flood_region-allows :
      (m : RegionMap) (p : Packet) (region : RegionEntry)
      → match_flood_region sha256 hmac m p ≡ some region
      → allows_flood region ≡ true
  unfolding match_flood_region match_route match_transport_region match_codes
  match_flood_region-allows m p region e = go p.route_type e
    where
      by_codes :
          (codes : Option TransportCodes)
          → match_codes sha256 hmac m p codes ≡ some region
          → allows_flood region ≡ true
      by_codes none e = absurd (ground arith)
      by_codes (some codes) e = match_entries-allows p codes.primary m.entries region e

      go :
          (route : RouteType)
          → match_route sha256 hmac m p route ≡ some region
          → allows_flood region ≡ true
      go RouteType.transport_flood e = by_codes p.transport_codes e
      go RouteType.flood e = elim (Bool-cases (allows_flood (wildcard m))) [
        | inl y ↦ let same : wildcard m ≡ region = ground (arith, y) in rw (← same) y
        | inr n ↦ absurd (ground (arith, n))
      ]
      go RouteType.direct e = absurd (ground arith)
      go RouteType.transport_direct e = absurd (ground arith)

  -- An entry that a packet with this code passes by: it denies floods, or its code is another.
  abbrev pub Passed : Packet → ℕ → RegionEntry → Type 0
  Passed p primary entry =
      (allows_flood entry ≡ false)
      ⊎ ((code : ℕ) × (transport_code_for sha256 hmac entry p ≡ done code)
          × ((code == primary) ≡ false))

  match_entries_first :
      (p : Packet) (primary : ℕ) (before after : List RegionEntry) (region : RegionEntry)
      → All (Passed p primary) before
      → allows_flood region ≡ true
      → transport_code_for sha256 hmac region p ≡ done primary
      → match_entries sha256 hmac p primary (before ++ region ∷ after) ≡ some region
  unfolding match_entries allows_flood
  match_entries_first p primary [] after region h a c =
      let free : (bit_and region.flags region_deny_flood != 0) ≡ false = ground arith in
      let same : (primary == primary) ≡ true = ground arith in rw (free, c, same) refl
  match_entries_first p primary (x ∷ xs) after region (inl d, h) a c =
      let denied : (bit_and x.flags region_deny_flood != 0) ≡ true = ground arith in
      rw denied (match_entries_first p primary xs after region h a c)
  match_entries_first p primary (x ∷ xs) after region (inr (code, f, other), h) a c =
      elim (Bool-cases (bit_and x.flags region_deny_flood != 0)) [
        | inl y ↦ rw y (match_entries_first p primary xs after region h a c)
        | inr n ↦ rw (n, f, other) (match_entries_first p primary xs after region h a c)
      ]

  -- A packet that is scoped to a named region of the table that allows floods is found to belong
  -- to that region, when each region in front of it denies floods or has another code for the
  -- packet.
  pub match_flood_region-apply_scope :
      (m : RegionMap) (p q : Packet) (code : ℕ) (before after : List RegionEntry)
      (region : RegionEntry)
      → m.entries ≡ before ++ region ∷ after
      → is_wildcard region ≡ false
      → allows_flood region ≡ true
      → transport_code_for sha256 hmac region p ≡ done code
      → All (Passed p code) before
      → apply_scope sha256 hmac p region ≡ done q
      → match_flood_region sha256 hmac m q ≡ some region
  unfolding match_flood_region match_route match_transport_region match_codes apply_scope
      TransportCodes.new transport_code_for
  match_flood_region-apply_scope m p q code before after region at w a c h e =
      let scoped : Packet =
        with_scope p RouteType.transport_flood (some (TransportCodes.new code)) in
      let same : scoped ≡ q = ground (arith, w, c) in
      rw (← same, at) (match_entries_first scoped code before after region h a c)
