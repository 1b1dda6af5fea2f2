-- ===== src/Protocol/SeenPacketCache/Remembered.antt =====
-- How long the cache of seen packets knows a signature: for its time to live, as long as fewer
-- others than the cache has places for were recorded behind it.
use mcrs.Protocol.SeenPacketCache.Behind.{
  Behind, Behind-drop_stale, Behind-remove_signature, Behind-make_room, Behind-append, Behind-last,
  Behind-more, Behind-has_signature,
}
use mathlib.Core.Path.{subst}
use mcrs.Prelude.{
  ℕ, ◌+◌, ◌-◌, ◌≤◌, ◌<◌, ◌≡◌, refl, true, false, List, [], ◌∷◌, length, list_eq, list_eq_iff, All,
  arith, Bool-cases, inl, inr,
}
use mcrs.Protocol.SeenPacketCache.{
  Entry, SeenPacketCache, prune, has_signature, remove_signature, make_room, touch, contains,
  check_and_insert,
}
use mcrs.Protocol.SeenPacketCache.Memory.{touch-touched, new-check, seen-check}

-- The cache knows the signature since the time, with at most so many recorded behind it, and has
-- the given time to live and number of places.
pub record Knows (ttl max k : ℕ) (s : List ℕ) (at : ℕ) (c : SeenPacketCache) : Type 0 where
  pub kept : Behind k (record { signature = s; inserted = at }) c.entries
  pub lifetime : c.ttl_ticks ≡ ttl
  pub places : c.max_entries ≡ max

module _ (ttl max k : ℕ) (s : List ℕ) (at : ℕ) where
  pub Knows-prune :
      (c : SeenPacketCache) (now : ℕ)
      → now - at ≤ ttl
      → Knows ttl max k s at c
      → Knows ttl max k s at (prune c now)
  unfolding prune
  Knows-prune c now h w = record {
    kept =
        Behind-drop_stale k c.ttl_ticks now (record { signature = s; inserted = at }) c.entries
          (rw w.lifetime h) w.kept;
    lifetime = w.lifetime;
    places = w.places;
  }

  pub Knows-contains :
      (c : SeenPacketCache) (now : ℕ)
      → now - at ≤ ttl
      → Knows ttl max k s at c
      → (contains c s now).0 ≡ true
  unfolding contains
  Knows-contains c now h w =
      Behind-has_signature k (record { signature = s; inserted = at }) (prune c now).entries
        (Knows-prune c now h w).kept

  pub Knows-touch_other :
      (c : SeenPacketCache) (t : List ℕ) (now : ℕ)
      → list_eq s t ≡ false
      → k + 1 < max
      → Knows ttl max k s at c
      → Knows ttl max (k + 1) s at (touch c t now)
  Knows-touch_other c t now n h w =
      let e : Entry = record { signature = s; inserted = at } in
      let rest : List Entry = remove_signature t c.entries in
      let left : Behind k e rest = Behind-remove_signature k e t c.entries n w.kept in
      let room : k + 1 < c.max_entries = rw (w.places) h in
      let fits : Behind k e (make_room c.max_entries rest) =
        Behind-make_room k c.max_entries e rest room left in
      rw (touch-touched c t now (omega (arith, room))) (record {
        kept =
            Behind-append k e (record { signature = t; inserted = now })
              (make_room c.max_entries rest) fits;
        lifetime = w.lifetime;
        places = w.places;
      })

pub Knows-touch :
    (c : SeenPacketCache) (s : List ℕ) (now : ℕ)
    → 0 < c.max_entries
    → Knows c.ttl_ticks c.max_entries 0 s now (touch c s now)
Knows-touch c s now h = rw (touch-touched c s now h) (record {
  kept =
      Behind-last (record { signature = s; inserted = now })
        (make_room c.max_entries (remove_signature s c.entries));
  lifetime = refl;
  places = refl;
})

-- Signatures with their times, checked one behind the other.
unfoldable pub check_all : SeenPacketCache → List (List ℕ × ℕ) → SeenPacketCache
check_all c [] = c
check_all c ((t, now) ∷ rest) = check_all (check_and_insert c t now).1 rest

Knows-check_and_insert :
    (ttl max k : ℕ) (s : List ℕ) (at : ℕ) (c : SeenPacketCache) (t : List ℕ) (now : ℕ)
    → now - at ≤ ttl
    → k + 1 < max
    → Knows ttl max k s at c
    → Knows ttl max (k + 1) s at (check_and_insert c t now).1
unfolding check_and_insert contains
Knows-check_and_insert ttl max k s at c t now h l w =
    let p : Knows ttl max k s at (prune c now) = Knows-prune ttl max k s at c now h w in
    let e : Entry = record { signature = s; inserted = at } in
    elim (Bool-cases (has_signature t (prune c now).entries)) [
      | inl y ↦ rw y (record {
        kept = Behind-more k (k + 1) e (prune c now).entries (omega arith) p.kept;
        lifetime = p.lifetime;
        places = p.places;
      })
      | inr n ↦ elim (Bool-cases (list_eq s t)) [
        | inl same ↦
            let eq : s ≡ t = (list_eq_iff s t).0 same in
            let known : has_signature s (prune c now).entries ≡ true =
              Behind-has_signature k e (prune c now).entries p.kept in
            absurd (cc (eq, known, n))
        | inr other ↦ rw n (Knows-touch_other ttl max k s at (prune c now) t now other l p)
      ]
    ]

Knows-check_all :
    (ttl max k : ℕ) (s : List ℕ) (at : ℕ) (c : SeenPacketCache) (others : List (List ℕ × ℕ))
    → All (λ other. other.1 - at ≤ ttl) others
    → k + length others < max
    → Knows ttl max k s at c
    → Knows ttl max (k + length others) s at (check_all c others)
unfolding check_all
Knows-check_all ttl max k s at c [] h l w = subst (λ n. Knows ttl max n s at c) (more k) w
  where
    more : (n : ℕ) → n ≡ n + 0
    more n = omega arith
Knows-check_all ttl max k s at c ((t, now) ∷ rest) h l w =
    let sum : (k + 1) + length rest ≡ k + length ((t, now) ∷ rest) = omega arith in
    subst (λ n. Knows ttl max n s at (check_all (check_and_insert c t now).1 rest)) sum
      (Knows-check_all ttl max (k + 1) s at (check_and_insert c t now).1 rest h.1 (omega (arith, l))
        (Knows-check_and_insert ttl max k s at c t now h.0 (omega (arith, l)) w))

-- A signature that was new to a cache is not new when it is checked again within its time to live,
-- as long as fewer signatures than the cache has places were checked in between, all within that
-- time.
pub check_and_insert_again :
    (c : SeenPacketCache) (s : List ℕ) (now later : ℕ) (others : List (List ℕ × ℕ))
    → (check_and_insert c s now).0 ≡ true
    → length others < c.max_entries
    → All (λ other. other.1 - now ≤ c.ttl_ticks) others
    → later - now ≤ c.ttl_ticks
    → (check_and_insert (check_all (check_and_insert c s now).1 others) s later).0 ≡ false
unfolding prune
check_and_insert_again c s now later others e l h t =
    let first : Knows c.ttl_ticks c.max_entries 0 s now (touch (prune c now) s now) =
      Knows-touch (prune c now) s now (omega (arith, l)) in
    let after : SeenPacketCache = check_all (touch (prune c now) s now) others in
    let last =
      Knows-check_all c.ttl_ticks c.max_entries 0 s now (touch (prune c now) s now) others h
        (omega (arith, l)) first in
    rw (new-check c s now e) (
      seen-check after s later
        (Knows-contains c.ttl_ticks c.max_entries (0 + length others) s now after later t last))
